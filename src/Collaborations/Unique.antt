-- ===== src/Collaborations/Unique.antt =====
-- The unique constraint of the table Collaboration, one row at most for an incident and a user,
-- against the views that create a row.
use mapapi.Prelude.{
  ℕ, ◌+◌, ◌≤◌, ◌≡◌, refl, not, Option, none, some, [], ◌∷◌, ◌++◌, arith, inl, inr, Bool-cases,
  Option-cases, if◌then◌else◌, ◌==◌, subst,
}
use mapapi.Orm.{
  find, count, count-append, count-not_found, count-filter, count-delete, count-update_same,
}
use mapapi.Models.{
  User, Incident, Collaboration, Db, Mode, internal, CollabRole, leader, contributor, observer,
  CollabStatus, is_pair, save_incident, get_incident,
}
use mapapi.Http.{Request}
use mapapi.Views.Keeps.{holds-as_user, holds-view}
use mapapi.Signals.{
  create_collaboration, notify_organisation_on_collaboration, delete_collaboration,
}
use mapapi.Collaborations.{
  CollaborationBody, collaboration_error, requested_row, store_request, post_collaboration,
  request_collaboration,
}
use mapapi.Incidents.TakeInCharge.{
  new_collaboration, taken_row, take_internal, to_reset, led_row, take_as_leader, joined_status,
  take_as_other, take_collaborative, take_in_charge,
}

-- the constraint
abbrev pub OnePair : Db → Type 0
OnePair db = (k v : ℕ) → count (is_pair k v) db.collaborations ≤ 1

count-create :
    (rq : Request) (i : Incident) (c : Collaboration) (db : Db) (k v : ℕ)
    → count (is_pair k v) (create_collaboration rq i c db).collaborations
      ≤ count (is_pair k v) db.collaborations + (if is_pair k v c then 1 else 0)
unfolding create_collaboration notify_organisation_on_collaboration delete_collaboration
count-create rq i c db k v = ground (
  arith,
  count-append (is_pair k v) db.collaborations (c ∷ []),
  count-filter (is_pair k v) (λ x. not (x.id == c.id)) (db.collaborations ++ c ∷ []),
)

-- A row may be created for a pair that has none.
pub create-OnePair :
    (rq : Request) (i : Incident) (c : Collaboration) (db : Db)
    → count (is_pair c.incident c.user) db.collaborations ≡ 0
    → OnePair db
    → OnePair (create_collaboration rq i c db)
create-OnePair rq i c db free one k v = elim (Bool-cases (is_pair k v c)) [
  | inl t ↦
      let same_incident : c.incident ≡ k = ground arith in
      let same_user : c.user ≡ v = ground arith in
      let none_yet : count (is_pair k v) db.collaborations ≡ 0 =
        subst (λ x. count (is_pair x v) db.collaborations ≡ 0) same_incident
          (subst (λ y. count (is_pair c.incident y) db.collaborations ≡ 0) same_user free) in
      ground (arith, count-create rq i c db k v)
  | inr t ↦ ground (arith, count-create rq i c db k v, one k v)
]

store_request-OnePair :
    (b : CollaborationBody) (rq : Request) (u : User) (i : Incident) (db : Db)
    → count (is_pair i.id u.id) db.collaborations ≡ 0
    → OnePair db
    → OnePair (store_request b rq u i db)
unfolding store_request save_incident
store_request-OnePair b rq u i db free one k v =
    ground (arith, create-OnePair rq i (requested_row b rq u i) db free one k v)

post_collaboration-OnePair :
    (b : CollaborationBody) (rq : Request) (u : User) (i : Incident) (db : Db)
    → OnePair db
    → OnePair (post_collaboration b rq u i db).1
unfolding post_collaboration delete_collaboration
post_collaboration-OnePair b rq u i db one = elim (Option-cases (collaboration_error b i rq)) [
  | inr (x, e) ↦ λ k v. ground (arith, e, one k v)
  | inl e ↦ elim (Option-cases (find (is_pair i.id u.id) db.collaborations)) [
    | inl n ↦ λ k v. ground (
      arith,
      e,
      n,
      store_request-OnePair b rq u i db (count-not_found (is_pair i.id u.id) db.collaborations n)
          one k v,
    )
    | inr (old, s) ↦
        let fewer : count (is_pair i.id u.id) (delete_collaboration old db).collaborations ≡ 0 =
          ground (
            arith,
            one i.id u.id,
            count-delete (is_pair i.id u.id) (λ x. not (x.id == old.id)) db.collaborations s
                (ground arith),
          ) in
        λ k v. ground (
          arith,
          e,
          s,
          one k v,
          store_request-OnePair b rq u i (delete_collaboration old db) fewer
              (λ j w. ground (
                arith,
                one j w,
                count-filter (is_pair j w) (λ x. not (x.id == old.id)) db.collaborations,
              ))
              k v,
        )
  ]
]

-- A request for a collaboration, which deletes an old row of the same pair first, leaves one row
-- at most for an incident and a user.
pub request_collaboration-OnePair :
    (b : CollaborationBody) (rq : Request) (db : Db)
    → OnePair db
    → OnePair (request_collaboration b rq db).1
unfolding request_collaboration
request_collaboration-OnePair b rq db one =
    holds-as_user _ rq db (λ x. OnePair x.1) _ (λ _. one)
      λ u. elim (Option-cases b.incident) [
        | inl e ↦ λ k v. ground (arith, e, one k v)
        | inr (j, e) ↦ elim (Option-cases (get_incident j db)) [
          | inl e' ↦ λ k v. ground (arith, e, e', one k v)
          | inr (i, e') ↦
              λ k v. ground (arith, e, e', post_collaboration-OnePair b rq u i db one k v)
        ]
      ]

module _ (rq : Request) (u : User) (i : Incident) (db : Db) (one : OnePair db) where
  joined-OnePair :
      (i' : Incident) (role : CollabRole) (status : CollabStatus) (new : Db)
      → new.collaborations ≡ db.collaborations
      → i'.id ≡ i.id
      → find (is_pair i.id u.id) db.collaborations ≡ none
      → OnePair (create_collaboration rq i' (new_collaboration rq i u role status) new)
  joined-OnePair i' role status new e same n =
      create-OnePair rq i' (new_collaboration rq i u role status) new
        (ground (arith, e, count-not_found (is_pair i.id u.id) db.collaborations n))
        (λ k v. ground (arith, e, one k v))

  take_internal-OnePair : OnePair (take_internal rq u i db).1
  unfolding take_internal save_incident
  take_internal-OnePair k v = elim (Option-cases (find (is_pair i.id u.id) db.collaborations)) [
    | inl n ↦
        let i' : Incident = taken_row rq u internal i in
        ground (
          arith,
          n,
          one k v,
          joined-OnePair i' leader CollabStatus.accepted (save_incident i' db) refl refl n k v,
        )
    | inr (c, s) ↦ ground (arith, s, one k v)
  ]

  take_as_leader-OnePair :
      find (is_pair i.id u.id) db.collaborations ≡ none → OnePair (take_as_leader rq u i db).1
  unfolding take_as_leader save_incident
  take_as_leader-OnePair n k v =
      let i' : Incident = led_row rq u i in
      let new : Db =
        create_collaboration rq i' (new_collaboration rq i u leader CollabStatus.accepted)
          (save_incident i' db) in
      ground (
        arith,
        one k v,
        count-update_same (is_pair k v) (to_reset i u)
            (λ c. record c { status = CollabStatus.pending }) new.collaborations (λ c. refl),
        joined-OnePair i' leader CollabStatus.accepted (save_incident i' db) refl (ground arith) n k
            v,
      )

  take_as_other-OnePair :
      (role : CollabRole)
      → find (is_pair i.id u.id) db.collaborations ≡ none
      → OnePair (take_as_other role rq u i db).1
  unfolding take_as_other save_incident
  take_as_other-OnePair role n k v =
      ground (arith, one k v, joined-OnePair i role (joined_status role i) db refl refl n k v)

  take_collaborative-OnePair :
      (role : Option CollabRole) → OnePair (take_collaborative role rq u i db).1
  unfolding take_collaborative
  take_collaborative-OnePair none k v = one k v
  take_collaborative-OnePair (some r) k v =
      elim (Option-cases (find (is_pair i.id u.id) db.collaborations)) [
        | inr (c, s) ↦ ground (arith, s, one k v)
        | inl n ↦ ground (
          arith,
          n,
          one k v,
          take_as_leader-OnePair n k v,
          take_as_other-OnePair contributor n k v,
          take_as_other-OnePair observer n k v,
        )
      ]

-- A request to take an incident in charge leaves one collaboration at most for an incident and a
-- user.
pub take_in_charge-OnePair :
    (mode : Option Mode) (role : Option CollabRole) (rq : Request) (db : Db)
    → OnePair db
    → OnePair (take_in_charge mode role rq db).1
unfolding take_in_charge
take_in_charge-OnePair mode role rq db one =
    holds-view _ rq db (λ x. OnePair x.1) _ (λ _. one)
      λ u i here k v. ground (
        arith,
        one k v,
        take_internal-OnePair rq u i db one k v,
        take_collaborative-OnePair rq u i db one role k v,
      )
