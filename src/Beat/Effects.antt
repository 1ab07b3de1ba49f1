-- ===== src/Beat/Effects.antt =====
-- What each job leaves of an incident.
use mapapi.Prelude.{
  ℕ, ◌*◌, ◌-◌, ◌≡◌, refl, true, false, not, ◌&&◌, none, some, arith, inl, inr, Bool-cases,
  Option-cases, if◌then◌else◌, leb, ltb, is_some, ◌∙◌, ◌==◌,
}
use mapapi.Orm.{filter}
use mapapi.Models.{Incident, Db, Etat, get_incident, settle, get-save, is_taken, is_in_validation}
use mapapi.Incidents.Resolution.{terminate_active_collaborations}
use mapapi.Beat.{
  is_overdue, validated, validate_tacitly, auto_validate_overdue_resolutions, reverted,
  antigel_deadline_days, revert_stale, revert_stale_one, revert_stale_taken_incidents, day,
  notify_antigel_leader,
}
use mapapi.Beat.Loop.{Distinct, Distinct-save, Distinct-for_each, SetsOwn, for_each-filter}

-- the row that the tacit validation leaves
abbrev pub finalised : Incident → Incident
finalised i = record i { etat = Etat.resolved_definitive; progress = 100 }

validate_tacitly_own : SetsOwn validate_tacitly finalised
unfolding validate_tacitly terminate_active_collaborations settle
validate_tacitly_own i db here k = ground (arith, get-save (validated i) k db, here)

-- The tacit validation resolves for good, at 100 %, exactly the incidents in validation whose
-- deadline is before now, and leaves every other incident as it was. No two incidents have the same key.
pub get-auto_validate :
    (now : ℕ) (db : Db) (k : ℕ)
    → Distinct db.incidents
    → get_incident k (auto_validate_overdue_resolutions now db) ≡ elim (get_incident k db) [
      | none ↦ none
      | some i ↦ some (elim i.validation_deadline [
        | none ↦ i
        | some d ↦ if is_in_validation i.etat && ltb d now then finalised i else i
      ])
    ]
unfolding auto_validate_overdue_resolutions
get-auto_validate now db k h =
    for_each-filter validate_tacitly finalised validate_tacitly_own (is_overdue now) db k h
    ∙ elim (Option-cases (get_incident k db)) [
      | inl e ↦ rw e refl
      | inr (i, e) ↦ rw e (elim (Option-cases i.validation_deadline) [
        | inl f ↦ ground (arith, f)
        | inr (d, f) ↦ ground (arith, f)
      ])
    ]

-- a declared incident that nobody leads, with both warnings to come again
abbrev pub released : Incident → Incident
released i = record i {
  etat = Etat.declared;
  taken_by = none;
  take_in_charge_mode = none;
  taken_in_charge_at = none;
  antigel_warned_75 = false;
  antigel_warned_90 = false;
}

-- the row that the anti-freeze job leaves, from the thresholds of the row's severity
abbrev pub thawed : ℕ → ℕ → Incident → Incident
thawed now at i =
    if leb (antigel_deadline_days i * day) (now - at)
    then released i
    else if leb (antigel_deadline_days i * 77760) (now - at) && not i.antigel_warned_90
    then record i { antigel_warned_90 = true; antigel_warned_75 = true }
    else if leb (antigel_deadline_days i * 64800) (now - at) && not i.antigel_warned_75
    then record i { antigel_warned_75 = true }
    else i

-- the same, with the first statements of `save`
abbrev thawed_saved : ℕ → ℕ → Incident → Incident
thawed_saved now at i =
    if leb (antigel_deadline_days i * day) (now - at)
    then reverted i
    else if leb (antigel_deadline_days i * 77760) (now - at) && not i.antigel_warned_90
    then settle (record i { antigel_warned_90 = true; antigel_warned_75 = true })
    else if leb (antigel_deadline_days i * 64800) (now - at) && not i.antigel_warned_75
    then settle (record i { antigel_warned_75 = true })
    else i

abbrev thawed_row : ℕ → Incident → Incident
thawed_row now i = elim i.taken_in_charge_at [ none ↦ i | some at ↦ thawed_saved now at i ]

get-notify :
    (i : Incident) (k : ℕ) (db : Db)
    → get_incident k (notify_antigel_leader i db) ≡ get_incident k db
get-notify i k db = ground arith

revert_stale_get :
    (now at : ℕ) (i : Incident) (db : Db)
    → get_incident i.id db ≡ some i
    → (k : ℕ)
    → get_incident k (revert_stale now at i db)
      ≡ (if i.id == k then some (thawed_saved now at i) else get_incident k db)
unfolding revert_stale settle
revert_stale_get now at i db here k =
    let warned_90 : Incident = record i { antigel_warned_90 = true; antigel_warned_75 = true } in
    let warned_75 : Incident = record i { antigel_warned_75 = true } in
    let days : ℕ = antigel_deadline_days i in
    elim (Bool-cases (leb (days * day) (now - at))) [
      | inl a ↦ rw a (get-save (reverted i) k db ∙ ground (arith, here))
      | inr a ↦ elim (Bool-cases (leb (days * 77760) (now - at) && not i.antigel_warned_90)) [
        | inl b ↦
            rw (a, b)
              (get-save warned_90 k (notify_antigel_leader i db)
                ∙ ground (arith, here, get-notify i k db))
        | inr b ↦ elim (Bool-cases (leb (days * 64800) (now - at) && not i.antigel_warned_75)) [
          | inl c ↦
              rw (a, b, c)
                (get-save warned_75 k (notify_antigel_leader i db)
                  ∙ ground (arith, here, get-notify i k db))
          | inr c ↦ rw (a, b, c) (ground (arith, here))
        ]
      ]
    ]

revert_stale_own : (now : ℕ) → SetsOwn (revert_stale_one now) (thawed_row now)
unfolding revert_stale_one
revert_stale_own now i db here k = elim (Option-cases i.taken_in_charge_at) [
  | inl e ↦ ground (arith, e, here)
  | inr (at, e) ↦ ground (arith, e, revert_stale_get now at i db here k)
]

-- The anti-freeze job treats exactly the incidents that are taken and know since when: past the
-- deadline of its severity an incident is declared again with its warnings re-armed; past 90 % or
-- 75 % of it, the flag of the warning is set, once. Every other incident stays as it was. No two
-- incidents have the same key.
pub get-revert_stale :
    (now : ℕ) (db : Db) (k : ℕ)
    → Distinct db.incidents
    → get_incident k (revert_stale_taken_incidents now db) ≡ elim (get_incident k db) [
      | none ↦ none
      | some i ↦ some (
          if is_taken i.etat
          then elim i.taken_in_charge_at [ none ↦ i | some at ↦ thawed now at i ]
          else i)
    ]
unfolding revert_stale_taken_incidents settle
get-revert_stale now db k h =
    for_each-filter (revert_stale_one now) (thawed_row now) (revert_stale_own now)
      (λ i. is_taken i.etat && is_some i.taken_in_charge_at) db k h
    ∙ elim (Option-cases (get_incident k db)) [
      | inl e ↦ ground (arith, e)
      | inr (i, e) ↦ ground (arith, e)
    ]

Distinct-validate_tacitly :
    (i : Incident) (db : Db) → Distinct db.incidents → Distinct (validate_tacitly i db).incidents
unfolding validate_tacitly terminate_active_collaborations
Distinct-validate_tacitly i db h = Distinct-save (validated i) db h

-- Run again at the same time, the tacit validation changes no incident.
auto_validate_idempotent :
    (now : ℕ) (db : Db) (k : ℕ)
    → Distinct db.incidents
    → get_incident k
        (auto_validate_overdue_resolutions now (auto_validate_overdue_resolutions now db))
      ≡ get_incident k (auto_validate_overdue_resolutions now db)
auto_validate_idempotent now db k h = ground (
  arith,
  get-auto_validate now db k h,
  get-auto_validate now (auto_validate_overdue_resolutions now db) k (
      unfold auto_validate_overdue_resolutions in
      Distinct-for_each validate_tacitly Distinct-validate_tacitly
        (filter (is_overdue now) db.incidents) db h),
)
