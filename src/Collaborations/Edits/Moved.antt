-- ===== src/Collaborations/Edits/Moved.antt =====
-- What the owner of a collaboration does with PATCH, and the unique constraint under the bulk request.
use mapapi.Prelude.{
  ℕ, ◌≡◌, Bool, true, false, ◌&&◌, none, some, List, [], ◌∷◌, arith, inl, inr, Bool-cases,
  Option-cases, ◌==◌,
}
use mapapi.Orm.{find, find-sat, find-both, exists, update, count-none}
use mapapi.Models.{
  User, Incident, Collaboration, Db, contributor, CollabStatus, is_pair, get_incident,
  get_collaboration, is_closed, is_accepted, is_contributor,
}
use mapapi.Http.{Request, ok}
use mapapi.Permissions.{contributes, has_accepted, permitted, has_permission}
use mapapi.Signals.{save_collaboration, create_collaboration}
use mapapi.Collaborations.{collaboration_error, writable}
use mapapi.Collaborations.Unique.{OnePair, create-OnePair}
use mapapi.Collaborations.Edits.{
  CollaborationPatch, patch_collaboration, edit_collaboration, edit_found, edited_row, pair_taken,
  Item, Batch, one_failed, request_each, bulk_request, bulk_row, valid_item,
}

-- a body with an incident and the role of a contributor
abbrev pub moving : ℕ → CollaborationPatch
moving k = record { incident = some k; role = some contributor; end_date = none }

exists-replaced :
    (p : Collaboration → Bool) (k : ℕ) (y : Collaboration) (cs : List Collaboration)
    {c : Collaboration}
    → find (λ x. x.id == k) cs ≡ some c
    → p y ≡ true
    → exists p (update (λ x. x.id == k) (λ _. y) cs) ≡ true
exists-replaced p k y [] h t = cc
exists-replaced p k y (x ∷ cs) {c} h t = ground (arith, exists-replaced p k y cs {c = c})

moved_row :
    (k : ℕ) (u : User) (i : Incident) (c : Collaboration) (rq : Request) (db : Db)
    → get_collaboration c.id db ≡ some c
    → c.user ≡ u.id
    → c.status ≡ CollabStatus.accepted
    → get_incident k db ≡ some i
    → is_closed i.etat ≡ false
    → pair_taken i.id c db ≡ false
    → contributes i u (edit_collaboration (moving k) rq db c).1 ≡ true
unfolding edit_collaboration edit_found contributes has_accepted collaboration_error
    save_collaboration
moved_row k u i c rq db mine own status here unclosed free =
    let key : (i.id == k) ≡ true = find-sat (λ x. x.id == k) db.incidents here in
    let passes : Collaboration → Bool =
      λ x. is_pair i.id u.id x && is_accepted x.status && is_contributor x.role in
    let stays : passes (edited_row (moving k) c) ≡ true = ground (arith, key, own, status) in
    let there : exists passes
          (update (λ x. x.id == c.id) (λ _. edited_row (moving k) c) db.collaborations)
        ≡ true =
      exists-replaced passes c.id (edited_row (moving k) c) db.collaborations mine stays in
    let saved : edit_collaboration (moving k) rq db c
        ≡ (ok, save_collaboration c.status (edited_row (moving k) c) db) =
      ground (arith, here, unclosed, free) in
    rw saved (ground (arith, there, status))

may_write : (u : User) (c : Collaboration) (db : Db) → c.user ≡ u.id → writable u db c ≡ true
unfolding writable
may_write u c db own = ground (arith, own)

-- The owner of an accepted collaboration of whatever role, who moves it by PATCH to another incident
-- that is not closed and where he has none, is from then on an accepted contributor there.
pub patch_collaboration_moves :
    (k : ℕ) (u : User) (i : Incident) (c : Collaboration) (rq : Request) (db : Db)
    → rq.user ≡ some u
    → get_collaboration c.id db ≡ some c
    → c.user ≡ u.id
    → c.status ≡ CollabStatus.accepted
    → get_incident k db ≡ some i
    → is_closed i.etat ≡ false
    → pair_taken i.id c db ≡ false
    → contributes i u (patch_collaboration c.id (moving k) rq db).1 ≡ true
unfolding patch_collaboration permitted has_permission
patch_collaboration_moves k u i c rq db me mine own status here unclosed free =
    let may : writable u db c ≡ true = may_write u c db own in
    let found : find (λ x. x.id == c.id && writable u db x) db.collaborations ≡ some c =
      find-both (λ x. x.id == c.id) (writable u db) db.collaborations mine may in
    rw (me, found) (moved_row k u i c rq db mine own status here unclosed free)

one_failed-OnePair : (b : Batch) → OnePair b.1 → OnePair (one_failed b).1
one_failed-OnePair (none, db) one = one
one_failed-OnePair (some n, db) one = one

request_each-OnePair :
    (rq : Request) (u : User) (items : List Item) (db : Db)
    → OnePair db
    → OnePair (request_each rq u items db).1
unfolding request_each
request_each-OnePair rq u [] db one = one
request_each-OnePair rq u ((fresh, b) ∷ items) db one = elim (Option-cases (valid_item b rq db)) [
  | inl e ↦
      rw (e, request_each)
        (one_failed-OnePair (request_each rq u items db) (request_each-OnePair rq u items db one))
  | inr (x, e) ↦
      rw (e, request_each)
        (elim (Bool-cases (exists (is_pair x.0.id u.id) db.collaborations)) [
          | inl t ↦ rw t one
          | inr f ↦ rw f (
              request_each-OnePair rq u items
                (create_collaboration rq x.0 (bulk_row fresh b x.1 u x.0) db)
                (create-OnePair rq x.0 (bulk_row fresh b x.1 u x.0) db
                  (count-none (is_pair x.0.id u.id) db.collaborations f) one))
        ])
]

-- A bulk request keeps that there is one row at most for an incident and a user, also when it ends
-- in an error.
bulk_request-OnePair :
    (items : List Item) (rq : Request) (db : Db) → OnePair db → OnePair (bulk_request items rq db).1
unfolding bulk_request
bulk_request-OnePair items rq db one = elim (Option-cases rq.user) [
  | inl e ↦ λ k v. ground (arith, e, one k v)
  | inr (u, e) ↦ λ k v. ground (arith, e, one k v, request_each-OnePair rq u items db one k v)
]
