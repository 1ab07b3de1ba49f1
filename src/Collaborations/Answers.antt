-- ===== src/Collaborations/Answers.antt =====
-- The answers to a request for a collaboration, by any of the three views.
use mapapi.Prelude.{
  ℕ, ◌≡◌, refl, Bool, true, false, Option, none, some, List, [], ◌∷◌, arith, if◌then◌else◌, ◌==◌,
  subst, sym,
}
use mapapi.Orm.{find, update, find-sat}
use mapapi.Models.{
  User, Incident, Collaboration, Db, CollabStatus, collaborative, is_internal, get_incident,
  get_collaboration, get-save, settle, save_incident,
}
use mapapi.Http.{Request, ok}
use mapapi.Permissions.{leads}
use mapapi.Views.{Outcome}
use mapapi.Signals.{save_collaboration}
use mapapi.Collaborations.{
  CollabAction, accept, reject, handle_collaboration, accept_collaboration, decline_collaboration,
  store_accepted, open_incident, accepted_collaboration,
}

-- a request to one of the three views
pub data CollabAnswer : Type 0 where
  handle : Option CollabAction → CollabAnswer
  accepting declining : CollabAnswer

unfoldable pub answer_collaboration : CollabAnswer → ℕ → Request → Db → Outcome
answer_collaboration (handle action) pk rq db = handle_collaboration action pk rq db
answer_collaboration accepting pk rq db = accept_collaboration pk rq db
answer_collaboration declining pk rq db = decline_collaboration pk rq db

-- the answers that accept
abbrev pub accepts : CollabAnswer → Bool
accepts (handle (some accept)) = true
accepts accepting = true
accepts _ = false

-- whether the incident with a key is taken in internal mode
abbrev pub internal_in : ℕ → Db → Bool
internal_in k db = elim (get_incident k db) [
  | none ↦ false
  | some i ↦ is_internal i.take_in_charge_mode
]

-- A user who does not lead the incident changes nothing through any of the three views, whatever
-- the answer.
pub answer_of_leader :
    (x : CollabAnswer) (pk : ℕ) (rq : Request) (db : Db) {u : User} {c : Collaboration}
    {i : Incident}
    → rq.user ≡ some u
    → get_collaboration pk db ≡ some c
    → get_incident c.incident db ≡ some i
    → leads i u db ≡ false
    → (answer_collaboration x pk rq db).1 ≡ db
unfolding answer_collaboration handle_collaboration accept_collaboration decline_collaboration
answer_of_leader (handle none) pk rq db hu hc hi h = ground arith
answer_of_leader (handle (some a)) pk rq db hu hc hi h = ground arith
answer_of_leader accepting pk rq db hu hc hi h = ground arith
answer_of_leader declining pk rq db hu hc hi h = ground arith

get-rows :
    (c : Collaboration) (pk : ℕ) (rows : List Collaboration)
    → (c.id == pk) ≡ true
    → find (λ x. x.id == pk) (update (λ x. x.id == c.id) (λ _. c) rows)
      ≡ elim (find (λ x. x.id == pk) rows) [ none ↦ none | some _ ↦ some c ]
get-rows c pk [] e = refl
get-rows c pk (x ∷ rows) e = ground (arith, get-rows c pk rows e)

pub get-save_collaboration :
    (old : CollabStatus) (c : Collaboration) (pk : ℕ) (db : Db) {d : Collaboration}
    → (c.id == pk) ≡ true
    → get_collaboration pk db ≡ some d
    → get_collaboration pk (save_collaboration old c db) ≡ some c
unfolding save_collaboration
get-save_collaboration old c pk db e h = ground (arith, get-rows c pk db.collaborations e)

incidents-save_collaboration :
    (old : CollabStatus) (c : Collaboration) (db : Db)
    → (save_collaboration old c db).incidents ≡ db.incidents
unfolding save_collaboration
incidents-save_collaboration old c db = ground arith

module _ (c : Collaboration) (i : Incident) (pk : ℕ) (db : Db)
    (hc : get_collaboration pk db ≡ some c) (hi : get_incident c.incident db ≡ some i) where
  own_key : (c.id == pk) ≡ true
  own_key = find-sat (λ x. x.id == pk) db.collaborations hc

  own_incident : (i.id == c.incident) ≡ true
  own_incident = find-sat (λ x. x.id == c.incident) db.incidents hi

  stored_accepted : get_collaboration pk (store_accepted c i db) ≡ some (accepted_collaboration c)
  unfolding store_accepted open_incident save_incident
  stored_accepted =
      ground
        (arith, get-save_collaboration c.status (accepted_collaboration c) pk db {d = c} own_key hc)

  -- the incident that is stored
  opened : Incident
  opened =
      if is_internal i.take_in_charge_mode
      then settle (record i { take_in_charge_mode = some collaborative })
      else i

  stored_opened : get_incident c.incident (store_accepted c i db) ≡ some opened
  unfolding store_accepted open_incident opened
  stored_opened =
      let after : Db = save_collaboration c.status (accepted_collaboration c) db in
      let kept : after.incidents ≡ db.incidents =
        incidents-save_collaboration c.status (accepted_collaboration c) db in
      let found : get_incident c.incident after ≡ some i =
        subst (λ l. find (λ x. x.id == c.incident) l ≡ some i) (sym kept) hi in
      ground (
        arith,
        found,
        own_incident,
        get-save (record i { take_in_charge_mode = some collaborative }) c.incident after,
      )

  opened-collaborative : is_internal opened.take_in_charge_mode ≡ false
  unfolding opened settle
  opened-collaborative = ground arith

accepted_store :
    (x : CollabAnswer) (pk : ℕ) (rq : Request) (db : Db) {c : Collaboration} {i : Incident}
    → accepts x ≡ true
    → get_collaboration pk db ≡ some c
    → get_incident c.incident db ≡ some i
    → (answer_collaboration x pk rq db).0 ≡ ok
    → (answer_collaboration x pk rq db).1 ≡ store_accepted c i db
unfolding answer_collaboration handle_collaboration accept_collaboration
accepted_store (handle none) pk rq db a hc hi h = cc
accepted_store (handle (some accept)) pk rq db a hc hi h = ground arith
accepted_store (handle (some reject)) pk rq db a hc hi h = cc
accepted_store accepting pk rq db a hc hi h = ground arith
accepted_store declining pk rq db a hc hi h = cc

-- When a request to accept, through either of the two views that can, is replied to with success,
-- the row is stored as accepted with its other fields as they were, and it leaves its incident open to others.
pub accept_lem :
    (x : CollabAnswer) (pk : ℕ) (rq : Request) (db : Db) {c : Collaboration} {i : Incident}
    → accepts x ≡ true
    → get_collaboration pk db ≡ some c
    → get_incident c.incident db ≡ some i
    → (answer_collaboration x pk rq db).0 ≡ ok
    → (get_collaboration pk (answer_collaboration x pk rq db).1 ≡ some (accepted_collaboration c))
      × (internal_in c.incident (answer_collaboration x pk rq db).1 ≡ false)
accept_lem x pk rq db {c} {i} a hc hi h =
    let open_ : internal_in c.incident (store_accepted c i db) ≡ false =
      ground (arith, stored_opened c i pk db hc hi, opened-collaborative c i pk db hc hi) in
    subst
      (λ d.
        (get_collaboration pk d ≡ some (accepted_collaboration c))
        × (internal_in c.incident d ≡ false))
      (sym (accepted_store x pk rq db a hc hi h)) (stored_accepted c i pk db hc hi, open_)
