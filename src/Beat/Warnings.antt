-- ===== src/Beat/Warnings.antt =====
-- The warnings that the anti-freeze job sends, beside what it leaves of the incidents.
use mapapi.Prelude.{
  ℕ, ◌*◌, ◌-◌, ◌≡◌, refl, sym, Bool, not, ◌&&◌, ◌||◌, Option, none, some, List, [], ◌∷◌, ◌++◌,
  arith, inl, inr, Bool-cases, Option-cases, if◌then◌else◌, leb, is_some, ◌∙◌, ◌==◌, append-nil,
  append_assoc, ap,
}
use mapapi.Orm.{find, filter}
use mapapi.Models.{
  User, Incident, Notification, Db, deadline_warning, get_incident, is_taken, save_incident,
}
use mapapi.Signals.{taker}
use mapapi.Beat.{
  for_each, revert_stale, revert_stale_one, revert_stale_taken_incidents, antigel_deadline_days,
  notify_antigel_leader, day,
}
use mapapi.Beat.Loop.{Distinct}
use mapapi.Beat.Effects.{thawed, get-revert_stale}

-- whether a row taken at `at` is to be warned about: before its deadline, past a threshold whose flag
-- is not set
abbrev pub is_warned : ℕ → ℕ → Incident → Bool
is_warned now at i =
    not (leb (antigel_deadline_days i * day) (now - at))
    && (leb (antigel_deadline_days i * 77760) (now - at) && not i.antigel_warned_90
        || leb (antigel_deadline_days i * 64800) (now - at) && not i.antigel_warned_75)

-- the warning to the leader, if there is one
abbrev pub to_leader : List User → Incident → List Notification
to_leader users i = elim i.taken_by [
  | none ↦ []
  | some k ↦ elim (find (λ u. u.id == k) users) [
    | none ↦ []
    | some leader ↦
        record {
          user = leader.id;
          notif_type = deadline_warning;
          colaboration = none;
          incident = some i.id;
        }
        ∷ []
  ]
]

abbrev pub warned : ℕ → List User → Incident → List Notification
warned now users i = elim i.taken_in_charge_at [
  | none ↦ []
  | some at ↦ if is_warned now at i then to_leader users i else []
]

-- the warnings on the taken rows of a table
abbrev pub warnings : ℕ → List User → List Incident → List Notification
warnings now users [] = []
warnings now users (i ∷ is) =
    (if is_taken i.etat then warned now users i else []) ++ warnings now users is

-- the warnings on the rows of a loop
abbrev warnings_on : ℕ → List User → List Incident → List Notification
warnings_on now users [] = []
warnings_on now users (i ∷ is) = warned now users i ++ warnings_on now users is

warnings-filter :
    (now : ℕ) (users : List User) (is : List Incident)
    → warnings_on now users (filter (λ i. is_taken i.etat && is_some i.taken_in_charge_at) is)
      ≡ warnings now users is
unfolding antigel_deadline_days
warnings-filter now users [] = refl
warnings-filter now users (i ∷ is) = elim (Bool-cases (is_taken i.etat)) [
  | inr e ↦ rw e (warnings-filter now users is)
  | inl e ↦ elim (Option-cases i.taken_in_charge_at) [
    | inl f ↦ rw (e, f) (warnings-filter now users is)
    | inr (at, f) ↦
        rw (e, f)
          (ap (λ l. (if is_warned now at i then to_leader users i else []) ++ l)
            (warnings-filter now users is))
  ]
]

users-notify : (i : Incident) (db : Db) → (notify_antigel_leader i db).users ≡ db.users
users-notify i db = elim (Option-cases (taker i db)) [
  | inl e ↦ rw (e, notify_antigel_leader) refl
  | inr (u, e) ↦ rw (e, notify_antigel_leader) refl
]

-- the warning, by the leader as the job finds him
abbrev by_taker : Option User → Incident → List Notification
by_taker none i = []
by_taker (some leader) i =
    record {
      user = leader.id;
      notif_type = deadline_warning;
      colaboration = none;
      incident = some i.id;
    }
    ∷ []

by_taker-to_leader : (i : Incident) (db : Db) → by_taker (taker i db) i ≡ to_leader db.users i
by_taker-to_leader i db = elim (Option-cases i.taken_by) [
  | inl e ↦ rw e refl
  | inr (k, e) ↦ elim (Option-cases (find (λ u. u.id == k) db.users)) [
    | inl f ↦ ground (arith, e, f)
    | inr (u, f) ↦ ground (arith, e, f)
  ]
]

notifications-notify :
    (i : Incident) (db : Db)
    → (notify_antigel_leader i db).notifications ≡ db.notifications ++ to_leader db.users i
notifications-notify i db =
    (elim (Option-cases (taker i db)) [
      | inl e ↦ rw (e, notify_antigel_leader) (sym (append-nil db.notifications))
      | inr (u, e) ↦ rw (e, notify_antigel_leader) refl
    ])
    ∙ ap (λ l. db.notifications ++ l) (by_taker-to_leader i db)

users-at : (now at : ℕ) (i : Incident) (db : Db) → (revert_stale now at i db).users ≡ db.users
unfolding revert_stale save_incident
users-at now at i db =
    let days : ℕ = antigel_deadline_days i in
    elim (Bool-cases (leb (days * day) (now - at))) [
      | inl a ↦ rw a refl
      | inr a ↦ elim (Bool-cases (leb (days * 77760) (now - at) && not i.antigel_warned_90)) [
        | inl b ↦ rw (a, b) (users-notify i db)
        | inr b ↦ elim (Bool-cases (leb (days * 64800) (now - at) && not i.antigel_warned_75)) [
          | inl c ↦ rw (a, b, c) (users-notify i db)
          | inr c ↦ rw (a, b, c) refl
        ]
      ]
    ]

users-revert : (now : ℕ) (i : Incident) (db : Db) → (revert_stale_one now i db).users ≡ db.users
unfolding revert_stale_one
users-revert now i db = elim (Option-cases i.taken_in_charge_at) [
  | inl e ↦ ground (arith, e)
  | inr (at, e) ↦ ground (arith, e, users-at now at i db)
]

notifications-at :
    (now at : ℕ) (i : Incident) (db : Db)
    → (revert_stale now at i db).notifications
      ≡ db.notifications ++ (if is_warned now at i then to_leader db.users i else [])
unfolding revert_stale save_incident
notifications-at now at i db =
    let sent : (notify_antigel_leader i db).notifications
        ≡ db.notifications ++ to_leader db.users i =
      notifications-notify i db in
    let none_sent : db.notifications ++ [] ≡ db.notifications = append-nil db.notifications in
    let days : ℕ = antigel_deadline_days i in
    elim (Bool-cases (leb (days * day) (now - at))) [
      | inl a ↦ rw a (sym none_sent)
      | inr a ↦ elim (Bool-cases (leb (days * 77760) (now - at) && not i.antigel_warned_90)) [
        | inl b ↦ rw (a, b) sent
        | inr b ↦ elim (Bool-cases (leb (days * 64800) (now - at) && not i.antigel_warned_75)) [
          | inl c ↦ rw (a, b, c) sent
          | inr c ↦ rw (a, b, c) (sym none_sent)
        ]
      ]
    ]

notifications-since :
    (now : ℕ) (since : Option ℕ) (i : Incident) (db : Db)
    → (elim since as (λ _. Db) [ none ↦ db | some at ↦ revert_stale now at i db ]).notifications
      ≡ db.notifications ++ elim since as (λ _. List Notification) [
        | none ↦ []
        | some at ↦ if is_warned now at i then to_leader db.users i else []
      ]
notifications-since now none i db = sym (append-nil db.notifications)
notifications-since now (some at) i db = notifications-at now at i db

notifications-revert :
    (now : ℕ) (i : Incident) (db : Db)
    → (revert_stale_one now i db).notifications ≡ db.notifications ++ warned now db.users i
unfolding revert_stale_one
notifications-revert now i db = notifications-since now i.taken_in_charge_at i db

each-notifications :
    (now : ℕ) (is : List Incident) (db : Db)
    → (for_each (revert_stale_one now) is db).notifications
      ≡ db.notifications ++ warnings_on now db.users is
unfolding for_each
each-notifications now [] db = sym (append-nil db.notifications)
each-notifications now (i ∷ is) db =
    each-notifications now is (revert_stale_one now i db)
    ∙ rw (users-revert now i db, notifications-revert now i db)
        (append_assoc db.notifications (warned now db.users i) (warnings_on now db.users is))

-- The anti-freeze job treats exactly the incidents that are taken and know since when: past the
-- deadline of its severity an incident is declared again, without a leader and with the flags of its
-- warnings reset; past 90 % or 75 % of it the flag of the warning is set, once. Every other incident stays
-- as it was. Before the deadline, past a threshold whose flag is not set, the leader is notified, and
-- nobody else is. No two incidents have the same key.
pub revert_stale_taken_incidents_lem :
    (now : ℕ) (db : Db)
    → Distinct db.incidents
    → ((k : ℕ)
        → get_incident k (revert_stale_taken_incidents now db) ≡ elim (get_incident k db) [
          | none ↦ none
          | some i ↦ some (
              if is_taken i.etat
              then elim i.taken_in_charge_at [ none ↦ i | some at ↦ thawed now at i ]
              else i)
        ])
      × ((revert_stale_taken_incidents now db).notifications
          ≡ db.notifications ++ warnings now db.users db.incidents)
unfolding revert_stale_taken_incidents
revert_stale_taken_incidents_lem now db h = (
  (λ k. get-revert_stale now db k h),
  each-notifications now
        (filter (λ i. is_taken i.etat && is_some i.taken_in_charge_at) db.incidents) db
      ∙ ap (λ l. db.notifications ++ l) (warnings-filter now db.users db.incidents),
)
