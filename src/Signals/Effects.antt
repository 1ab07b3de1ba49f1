-- ===== src/Signals/Effects.antt =====
-- What is left of a collaboration once the receivers of signals.py have run.
use mapapi.Prelude.{
  ◌≡◌, Bool, true, false, not, ◌||◌, none, some, List, [], ◌∷◌, ◌++◌, arith, if◌then◌else◌, ◌==◌,
  ◌∙◌, ==_self, append-nil, is_some,
}
use mapapi.Orm.{find, filter, filter-append, filter-not_found}
use mapapi.Models.{Incident, Collaboration, Db, is_leader}
use mapapi.Http.{Request}
use mapapi.Signals.{
  taker, delete_collaboration, notify_organisation_on_collaboration, create_collaboration,
}

-- no row has the key yet
abbrev pub IsFresh : Collaboration → Db → Type 0
IsFresh c db = find (λ x. x.id == c.id) db.collaborations ≡ none

filter-append_fresh :
    (c : Collaboration) (cs : List Collaboration)
    → find (λ x. x.id == c.id) cs ≡ none
    → filter (λ x. not (x.id == c.id)) (cs ++ c ∷ []) ≡ cs
filter-append_fresh c cs h =
    filter-append (λ x. not (x.id == c.id)) cs (c ∷ [])
    ∙ rw (==_self c.id) (append-nil _ ∙ filter-not_found (λ x. x.id == c.id) cs h)

-- whether the receivers let a new collaboration stay
abbrev pub stays : Incident → Collaboration → Db → Bool
stays i c db = elim (taker i db) [
  | none ↦ false
  | some u ↦ if c.user == u.id || is_leader c.role then true else is_some u.email
]

-- A new row stays or is deleted at once, exactly as `stays` says.
pub create_collaboration_lem :
    (rq : Request) (i : Incident) (c : Collaboration) (db : Db)
    → IsFresh c db
    → (create_collaboration rq i c db).collaborations
      ≡ (if stays i c db then db.collaborations ++ c ∷ [] else db.collaborations)
unfolding create_collaboration notify_organisation_on_collaboration delete_collaboration
create_collaboration_lem rq i c db h = ground (arith, filter-append_fresh c db.collaborations h)

pub incidents-create_collaboration :
    (rq : Request) (i : Incident) (c : Collaboration) (db : Db)
    → (create_collaboration rq i c db).incidents ≡ db.incidents
unfolding create_collaboration notify_organisation_on_collaboration delete_collaboration
incidents-create_collaboration rq i c db = ground arith

pub users-create_collaboration :
    (rq : Request) (i : Incident) (c : Collaboration) (db : Db)
    → (create_collaboration rq i c db).users ≡ db.users
unfolding create_collaboration notify_organisation_on_collaboration delete_collaboration
users-create_collaboration rq i c db = ground arith
