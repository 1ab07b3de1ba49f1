-- ===== src/OrgAssignments/Answers.antt =====
-- What an organisation's answer to an assignment leaves.
use mapapi.Prelude.{
  ℕ, String, ◌≡◌, refl, Bool, true, false, not, Option, none, some, List, [], ◌∷◌, arith, inl, inr,
  Option-cases, if◌then◌else◌, ◌==◌,
}
use mapapi.Orm.{find, update, find-sat}
use mapapi.Models.{
  User, Incident, IncidentOrgAssignment, Db, get_incident, is_unanswered, is_declared, get-save,
  settle,
}
use mapapi.Http.{Request, is_refused}
use mapapi.Views.{Outcome}
use mapapi.OrgAssignments.Pending.{assignments-engage}
use mapapi.OrgAssignments.{
  accept_assignment, decline_assignment, save_assignment, accepted_row, declined_row,
  engage_incident, engaged_row,
}

-- `assignment` with this key, as stored
abbrev pub get_assignment : ℕ → Db → Option IncidentOrgAssignment
get_assignment pk db = find (λ a. a.id == pk) db.org_assignments

get-answered :
    (a : IncidentOrgAssignment) (pk : ℕ) (rows : List IncidentOrgAssignment)
    → (a.id == pk) ≡ true
    → find (λ x. x.id == pk) (update (λ b. b.id == a.id) (λ _. a) rows)
      ≡ elim (find (λ x. x.id == pk) rows) [ none ↦ none | some _ ↦ some a ]
get-answered a pk [] e = refl
get-answered a pk (b ∷ rows) e = ground (arith, get-answered a pk rows e)

-- the two answers
pub data Answer : Type 0 where
  accept : Answer
  decline : Option String → Answer

unfoldable pub answer : Answer → ℕ → Request → Db → Outcome
answer accept pk rq db = accept_assignment pk rq db
answer (decline reason) pk rq db = decline_assignment reason pk rq db

-- whether the assignment with a key has been answered
abbrev pub is_answered : ℕ → Db → Bool
is_answered pk db = elim (get_assignment pk db) [
  | none ↦ false
  | some a ↦ not (is_unanswered a.status)
]

answer-answered :
    (x : Answer) (pk : ℕ) (rq : Request) (db : Db)
    → is_refused (answer x pk rq db).0 ≡ false
    → is_answered pk (answer x pk rq db).1 ≡ true
unfolding answer accept_assignment decline_assignment
answer-answered accept pk rq db h = elim (Option-cases rq.user) [
  | inl e ↦ ground (arith, e)
  | inr (u, e) ↦ elim (Option-cases (get_assignment pk db)) [
    | inl e' ↦ ground (arith, e, e')
    | inr (a, e') ↦
        let own : (a.id == pk) ≡ true = find-sat (λ x. x.id == pk) db.org_assignments e' in
        let stored : get_assignment pk (save_assignment (accepted_row rq a) db)
            ≡ some (accepted_row rq a) =
          ground (arith, e', own, get-answered (accepted_row rq a) pk db.org_assignments) in
        elim (Option-cases (get_incident a.incident db)) [
          | inl n ↦ ground (arith, e, e', n, stored)
          | inr (i, n) ↦ ground (
            arith,
            e,
            e',
            n,
            stored,
            assignments-engage rq i u (save_assignment (accepted_row rq a) db),
          )
        ]
  ]
]
answer-answered (decline reason) pk rq db h = elim (Option-cases rq.user) [
  | inl e ↦ ground (arith, e)
  | inr (u, e) ↦ elim (Option-cases (get_assignment pk db)) [
    | inl e' ↦ ground (arith, e, e')
    | inr (a, e') ↦ ground (
      arith,
      e,
      e',
      find-sat (λ x. x.id == pk) db.org_assignments e',
      get-answered (declined_row rq reason a) pk db.org_assignments,
    )
  ]
]

answered_refused :
    (x : Answer) (pk : ℕ) (rq : Request) (db : Db)
    → is_answered pk db ≡ true
    → is_refused (answer x pk rq db).0 ≡ true
unfolding answer accept_assignment decline_assignment
answered_refused accept pk rq db h = ground arith
answered_refused (decline reason) pk rq db h = ground arith

-- An assignment is answered once: when an answer has been taken, any later one, of whoever and of
-- either kind, is refused.
answer-once :
    (x y : Answer) (pk : ℕ) (rq rq' : Request) (db : Db)
    → is_refused (answer x pk rq db).0 ≡ false
    → is_refused (answer y pk rq' (answer x pk rq db).1).0 ≡ true
answer-once x y pk rq rq' db h =
    answered_refused y pk rq' (answer x pk rq db).1 (answer-answered x pk rq db h)

-- When an administrator accepts the assignment of a declared incident, the incident is taken and
-- the administrator leads it; an incident in any other state keeps its state and its leader.
pub accept-engages :
    (pk : ℕ) (rq : Request) (db : Db) {u : User} {a : IncidentOrgAssignment} {i : Incident}
    → rq.user ≡ some u
    → get_assignment pk db ≡ some a
    → get_incident a.incident db ≡ some i
    → is_refused (accept_assignment pk rq db).0 ≡ false
    → get_incident a.incident (accept_assignment pk rq db).1
      ≡ some (if is_declared i.etat then engaged_row rq u i else i)
unfolding accept_assignment engage_incident settle
accept-engages pk rq db {u} {a} {i} hu ha hi h =
    let own : (i.id == a.incident) ≡ true = find-sat (λ x. x.id == a.incident) db.incidents hi in
    ground (
      arith,
      own,
      get-save (engaged_row rq u i) a.incident (save_assignment (accepted_row rq a) db),
    )
