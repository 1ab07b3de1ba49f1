-- ===== src/Tasks/Requests.antt =====
-- The requests to the views of tasks, and what holds of a view if it holds of its body.
use mapapi.Prelude.{
  ℕ, String, ◌≡◌, Option, some, List, ◌⊎◌, inl, inr, arith, Option-cases, subst, sym,
}
use mapapi.Models.{IncidentTask, Db}
use mapapi.Http.{Request, Error, not_found}
use mapapi.Permissions.{Permission}
use mapapi.Views.{Outcome, as_user, refuse}
use mapapi.Views.Keeps.{holds-as_user}
use mapapi.Tasks.{
  TaskBody, task_in, with_task, create_task, patch_task, destroy_task, confirm_task, complete_task,
  fail_task, relaunch_task,
}

-- a request to one of the views of tasks
pub data TaskEvent : Type 0 where
  create : TaskBody → Request → TaskEvent
  patch : TaskBody → ℕ → Request → TaskEvent
  destroy confirm relaunch : ℕ → Request → TaskEvent
  complete : Option String → Option String → ℕ → Request → TaskEvent
  fail : Option String → ℕ → Request → TaskEvent

unfoldable pub apply_task : TaskEvent → Db → Outcome
apply_task (create b rq) db = create_task b rq db
apply_task (patch b pk rq) db = patch_task b pk rq db
apply_task (destroy pk rq) db = destroy_task pk rq db
apply_task (confirm pk rq) db = confirm_task pk rq db
apply_task (relaunch pk rq) db = relaunch_task pk rq db
apply_task (complete image video pk rq) db = complete_task image video pk rq db
apply_task (fail reason pk rq) db = fail_task reason pk rq db

abbrev pub request_of : TaskEvent → Request
request_of (create b rq) = rq
request_of (patch b pk rq) = rq
request_of (destroy pk rq) = rq
request_of (confirm pk rq) = rq
request_of (relaunch pk rq) = rq
request_of (complete image video pk rq) = rq
request_of (fail reason pk rq) = rq

with_task-cases :
    (pk : ℕ) (rq : Request) (db : Db) (body : IncidentTask → Outcome)
    → (with_task pk rq db body ≡ refuse not_found db)
      ⊎ ((t : IncidentTask) × (task_in pk rq.incident_id db ≡ some t)
          × (with_task pk rq db body ≡ body t))
with_task-cases pk rq db body = elim (Option-cases (task_in pk rq.incident_id db)) [
  | inl e ↦ inl (ground (arith, e))
  | inr (t, e) ↦ inr (t, e, ground (arith, e))
]

pub holds-with_task :
    (classes : List Permission) (rq : Request) (db : Db) (Q : Outcome → Type 0) (pk : ℕ)
    (body : IncidentTask → Outcome)
    → ((e : Error) → Q (refuse e db))
    → ((t : IncidentTask) → task_in pk rq.incident_id db ≡ some t → Q (body t))
    → Q (as_user classes rq db λ u. with_task pk rq db body)
holds-with_task classes rq db Q pk body h step =
    holds-as_user classes rq db Q (λ u. with_task pk rq db body) h
      λ u. elim (with_task-cases pk rq db body) [
        | inl e ↦ subst Q (sym e) (h not_found)
        | inr (t, here, e) ↦ subst Q (sym e) (step t here)
      ]
