-- ===== src/Collaborations/Table.antt =====
-- The table Collaboration as a whole, against the views of views/collaboration.py that answer for
-- one row: its keys and its unique constraint.
pub mod Saving
pub mod Requests
pub mod Taking
use mapapi.Prelude.{
  ℕ, ◌+◌, ◌≤◌, ◌≡◌, refl, true, false, not, ◌&&◌, Option, none, some, [], ◌∷◌, ◌++◌, arith, inl,
  inr, Bool-cases, Option-cases, if◌then◌else◌, ◌==◌, subst,
}
use mapapi.Orm.{
  find, exists, count, count-append, count-none, count-filter, count-replace, count-only, find-sat,
}
use mapapi.Models.{
  User, Incident, Collaboration, Db, CollabStatus, is_pair, save_incident, get_incident,
  get_collaboration,
}
use mapapi.Http.{Request}
use mapapi.Views.Keeps.{holds-as_user}
use mapapi.Signals.{
  create_collaboration, notify_organisation_on_collaboration, delete_collaboration,
  save_collaboration,
}
use mapapi.Collaborations.{
  CollaborationBody, collaboration_error, requested_row, store_request, post_collaboration,
  request_collaboration,
}
use mapapi.Collaborations.Unique.{OnePair}

-- no key stands in two rows
abbrev pub OneKey : Db → Type 0
OneKey db = (k : ℕ) → count (λ x. x.id == k) db.collaborations ≤ 1

-- the table as the database constrains it
abbrev pub IsTable : Db → Type 0
IsTable db = OnePair db × OneKey db

-- Saving a row of the table keeps the table, if its pair is its own.
save-IsTable :
    (old : CollabStatus) (c y : Collaboration) (db : Db)
    → get_collaboration y.id db ≡ some c
    → ((k v : ℕ)
        → count (is_pair k v) db.collaborations + (if is_pair k v y then 1 else 0)
          ≤ 1 + (if is_pair k v c then 1 else 0))
    → IsTable db
    → IsTable (save_collaboration old y db)
unfolding save_collaboration
save-IsTable old c y db mine room (one, keys) = (
  (λ k v. ground (
    arith,
    room k v,
    count-replace (is_pair k v) (λ x. x.id == y.id) y db.collaborations mine (keys y.id),
  )),
  (λ k. ground (
    arith,
    keys k,
    find-sat (λ x. x.id == y.id) db.collaborations mine,
    count-replace (λ x. x.id == k) (λ x. x.id == y.id) y db.collaborations mine (keys y.id),
  )),
)

-- Saving a row with its pair unchanged keeps the table.
pub save_same-IsTable :
    (old : CollabStatus) (c y : Collaboration) (db : Db)
    → get_collaboration y.id db ≡ some c
    → y.incident ≡ c.incident
    → y.user ≡ c.user
    → IsTable db
    → IsTable (save_collaboration old y db)
save_same-IsTable old c y db mine e e' (one, keys) =
    save-IsTable old c y db mine (λ k v. ground (arith, one k v, e, e')) (one, keys)

-- no row has the key of a new row
abbrev pub IsFresh : Request → Db → Type 0
IsFresh rq db = count (λ x. x.id == rq.fresh) db.collaborations ≡ 0

pub create-OneKey :
    (rq : Request) (i : Incident) (c : Collaboration) (db : Db)
    → count (λ x. x.id == c.id) db.collaborations ≡ 0
    → OneKey db
    → OneKey (create_collaboration rq i c db)
unfolding create_collaboration notify_organisation_on_collaboration delete_collaboration
create-OneKey rq i c db free keys k = elim (Bool-cases (c.id == k)) [
  | inl t ↦
      let same : c.id ≡ k = ground arith in
      let none_yet : count (λ x. x.id == k) db.collaborations ≡ 0 =
        subst (λ j. count (λ x. x.id == j) db.collaborations ≡ 0) same free in
      ground (
        arith,
        none_yet,
        count-append (λ x. x.id == k) db.collaborations (c ∷ []),
        count-filter (λ x. x.id == k) (λ x. not (x.id == c.id)) (db.collaborations ++ c ∷ []),
      )
  | inr t ↦ ground (
    arith,
    t,
    keys k,
    count-append (λ x. x.id == k) db.collaborations (c ∷ []),
    count-filter (λ x. x.id == k) (λ x. not (x.id == c.id)) (db.collaborations ++ c ∷ []),
  )
]

store_request-OneKey :
    (b : CollaborationBody) (rq : Request) (u : User) (i : Incident) (db : Db)
    → IsFresh rq db
    → OneKey db
    → OneKey (store_request b rq u i db)
unfolding store_request save_incident
store_request-OneKey b rq u i db free keys k =
    ground (arith, create-OneKey rq i (requested_row b rq u i) db free keys k)

delete-OneKey : (c : Collaboration) (db : Db) → OneKey db → OneKey (delete_collaboration c db)
unfolding delete_collaboration
delete-OneKey c db keys k =
    ground
      (arith, keys k, count-filter (λ x. x.id == k) (λ x. not (x.id == c.id)) db.collaborations)

delete-OnePair : (c : Collaboration) (db : Db) → OnePair db → OnePair (delete_collaboration c db)
unfolding delete_collaboration
delete-OnePair c db one k v =
    ground (arith, one k v, count-filter (is_pair k v) (λ x. not (x.id == c.id)) db.collaborations)

delete-free :
    (c : Collaboration) (k : ℕ) (db : Db)
    → count (λ x. x.id == k) db.collaborations ≡ 0
    → count (λ x. x.id == k) (delete_collaboration c db).collaborations ≡ 0
unfolding delete_collaboration
delete-free c k db free =
    ground (arith, count-filter (λ x. x.id == k) (λ x. not (x.id == c.id)) db.collaborations)

post_collaboration-OneKey :
    (b : CollaborationBody) (rq : Request) (u : User) (i : Incident) (db : Db)
    → IsFresh rq db
    → OneKey db
    → OneKey (post_collaboration b rq u i db).1
unfolding post_collaboration
post_collaboration-OneKey b rq u i db free keys k =
    elim (Option-cases (collaboration_error b i rq)) [
      | inr (x, e) ↦ ground (arith, e, keys k)
      | inl e ↦ elim (Option-cases (find (is_pair i.id u.id) db.collaborations)) [
        | inl n ↦ ground (arith, e, n, store_request-OneKey b rq u i db free keys k)
        | inr (old, s) ↦ ground (
          arith,
          e,
          s,
          keys k,
          store_request-OneKey b rq u i (delete_collaboration old db)
              (delete-free old rq.fresh db free) (delete-OneKey old db keys) k,
        )
      ]
    ]

request-OneKey :
    (b : CollaborationBody) (rq : Request) (db : Db)
    → IsFresh rq db
    → OneKey db
    → OneKey (request_collaboration b rq db).1
unfolding request_collaboration
request-OneKey b rq db free keys =
    holds-as_user _ rq db (λ x. OneKey x.1) _ (λ _. keys)
      λ u. elim (Option-cases b.incident) [
        | inl e ↦ λ k. ground (arith, e, keys k)
        | inr (j, e) ↦ elim (Option-cases (get_incident j db)) [
          | inl e' ↦ λ k. ground (arith, e, e', keys k)
          | inr (i, e') ↦
              λ k. ground (arith, e, e', post_collaboration-OneKey b rq u i db free keys k)
        ]
      ]
