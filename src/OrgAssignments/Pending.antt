-- ===== src/OrgAssignments/Pending.antt =====
-- How many assignments of an incident wait for an answer.
use mapapi.Prelude.{
  ℕ, ◌≤◌, String, ◌≡◌, refl, false, Option, List, [], ◌∷◌, ◌++◌, arith, inl, inr, Bool-cases,
  Option-cases, ◌==◌, subst, ==→eq,
}
use mapapi.Orm.{find, count, exists, count-append, count-none, count-update}
use mapapi.Models.{
  User, Incident, IncidentOrgAssignment, Db, get_incident, is_unanswered, save_incident,
}
use mapapi.Http.{Request}
use mapapi.Views.{Outcome}
use mapapi.Views.Keeps.{holds-as_user, holds-view}
use mapapi.OrgAssignments.{
  is_pending_on, assign_incident, with_assignment, accept_assignment, decline_assignment,
  save_assignment, accepted_row, declined_row, new_assignment, engage_incident, get_organisation,
}

-- the invariant
abbrev pub OnePending : Db → Type 0
OnePending db = (k : ℕ) → count (is_pending_on k) db.org_assignments ≤ 1

module _ (db : Db) (one : OnePending db) where
  answered-OnePending :
      (a : IncidentOrgAssignment)
      → is_unanswered a.status ≡ false
      → OnePending (save_assignment a db)
  answered-OnePending a e k = ground (
    arith,
    count-update (is_pending_on k) (λ b. b.id == a.id) (λ _. a) db.org_assignments
        (λ _. ground arith),
    one k,
  )

  with_assignment-OnePending :
      (pk : ℕ) (rq : Request) (body : User → IncidentOrgAssignment → Outcome)
      → ((u : User) (a : IncidentOrgAssignment) → OnePending (body u a).1)
      → OnePending (with_assignment pk rq db body).1
  with_assignment-OnePending pk rq body step =
      holds-as_user _ rq db (λ x. OnePending x.1) _ (λ _. one)
        λ u k. elim (Option-cases (find (λ a. a.id == pk) db.org_assignments)) [
          | inl e ↦ ground (arith, e, one k)
          | inr (a, e) ↦ ground (arith, e, one k, step u a k)
        ]

pub assignments-engage :
    (rq : Request) (i : Incident) (u : User) (db : Db)
    → (engage_incident rq i u db).org_assignments ≡ db.org_assignments
unfolding engage_incident save_incident
assignments-engage rq i u db = ground arith

-- the requests on assignments
pub data AssignmentEvent : Type 0 where
  assign : Option ℕ → Request → AssignmentEvent
  accept : ℕ → Request → AssignmentEvent
  decline : Option String → ℕ → Request → AssignmentEvent

unfoldable pub apply_assignment : AssignmentEvent → Db → Outcome
apply_assignment (assign org rq) db = assign_incident org rq db
apply_assignment (accept pk rq) db = accept_assignment pk rq db
apply_assignment (decline reason pk rq) db = decline_assignment reason pk rq db

assign-OnePending :
    (rq : Request) (u : User) (i : Incident) (o : ℕ) (rows : List IncidentOrgAssignment) (k : ℕ)
    → exists (is_pending_on i.id) rows ≡ false
    → count (is_pending_on k) rows ≤ 1
    → count (is_pending_on k) (rows ++ new_assignment rq u i o ∷ []) ≤ 1
assign-OnePending rq u i o rows k e one = elim (Bool-cases (i.id == k)) [
  | inl same ↦
      let free : count (is_pending_on k) rows ≡ 0 =
        subst (λ x. count (is_pending_on x) rows ≡ 0) (==→eq i.id k same)
          (count-none (is_pending_on i.id) rows e) in
      ground (arith, count-append (is_pending_on k) rows (new_assignment rq u i o ∷ []), free, same)
  | inr other ↦
      ground (arith, count-append (is_pending_on k) rows (new_assignment rq u i o ∷ []), other)
]

-- No incident has two assignments waiting for an answer, and every request on assignments keeps
-- this.
pub apply_assignment-OnePending :
    (e : AssignmentEvent) (db : Db) → OnePending db → OnePending (apply_assignment e db).1
unfolding apply_assignment assign_incident accept_assignment decline_assignment
apply_assignment-OnePending (assign org rq) db one =
    holds-view _ rq db (λ x. OnePending x.1) _ (λ _. one)
      λ u i here k. elim (Option-cases (get_organisation org db)) [
        | inl e ↦ ground (arith, e, one k)
        | inr (o, e) ↦ ground (arith, e, one k, assign-OnePending rq u i o db.org_assignments k)
      ]
apply_assignment-OnePending (accept pk rq) db one =
    with_assignment-OnePending db one pk rq _ λ u a k.
      let done_ : count (is_pending_on k) (save_assignment (accepted_row rq a) db).org_assignments
          ≤ 1 =
        answered-OnePending db one (accepted_row rq a) refl k in
      elim (Option-cases (get_incident a.incident db)) [
        | inl e ↦ ground (arith, e, done_)
        | inr (i, e) ↦
            ground
              (arith, e, done_, assignments-engage rq i u (save_assignment (accepted_row rq a) db))
      ]
apply_assignment-OnePending (decline reason pk rq) db one =
    with_assignment-OnePending db one pk rq _
      λ u a. answered-OnePending db one (declined_row rq reason a) refl
