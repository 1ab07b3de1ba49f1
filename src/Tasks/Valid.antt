-- ===== src/Tasks/Valid.antt =====
-- The checks of the serializer on the stored tasks.
use mapapi.Prelude.{
  ℕ, String, ◌≤◌, ◌≡◌, refl, Bool, true, false, Option, none, some, List, [], ◌∷◌, arith,
  if◌then◌else◌, ◌||◌, is_some, ◌==◌, ◌&&◌, refers, not,
}
use mapapi.Orm.{All, All-update, All-filter, All-append, All-find}
use mapapi.Models.{
  User, Incident, IncidentTask, Db, TaskState, is_closed, is_done, is_failed, pending, in_progress,
  done, failed,
}
use mapapi.Http.{Request, Error, ok, not_failed, proof_required}
use mapapi.Permissions.{Permission, incident_of_view}
use mapapi.Views.{Outcome, refuse, as_user}
use mapapi.Views.Keeps.{holds-as_user}
use mapapi.Tasks.Requests.{
  TaskEvent, apply_task, create, patch, destroy, confirm, relaunch, complete, fail, holds-with_task,
}
use mapapi.Tasks.{
  TaskBody, task_error, unless_error, task_in, with_task, save_task, insert_task, delete_task,
  update_progress, auto_confirmed, create_task, perform_create, on_closed, patch_task, destroy_task,
  confirm_task, complete_task, fail_task, relaunch_task, merged, new_task, completed, task_failed,
  relaunched,
}

-- What the state of a task asks of its proofs and of its reason.
abbrev Backed : TaskState → Option String → Option String → Option String → Type 0
Backed pending image video reason = Unit
Backed in_progress image video reason = Unit
Backed done image video reason = (is_some image || is_some video) ≡ true
Backed failed image video reason = is_some reason ≡ true

-- The dates are in order, what is done has a proof and what has failed a reason.
abbrev pub IsValidTask : IncidentTask → Type 0
IsValidTask t =
    (t.start_date ≤ t.end_date) × Backed t.state t.proof_image t.proof_video t.failure_reason

abbrev pub AllValid : Db → Type 0
AllValid db = All IsValidTask db.tasks

Backed-lem :
    (x : TaskState) (image video reason : Option String)
    → (is_done x && not (is_some image || is_some video)) ≡ false
    → (is_failed x && not (is_some reason)) ≡ false
    → Backed x image video reason
Backed-lem pending image video reason p r = tt
Backed-lem in_progress image video reason p r = tt
Backed-lem done image video reason p r = ground (arith, p)
Backed-lem failed image video reason p r = ground (arith, r)

-- What the serializer takes is valid.
task_error-IsValid : (t : IncidentTask) → task_error t ≡ none → IsValidTask t
unfolding task_error
task_error-IsValid t e = (
  ground (arith, e),
  Backed-lem t.state t.proof_image t.proof_video t.failure_reason (ground (arith, e))
      (ground (arith, e)),
)

module _ (db : Db) (valid : AllValid db) where
  save-AllValid : (t : IncidentTask) → IsValidTask t → AllValid (save_task t db)
  unfolding save_task auto_confirmed update_progress
  save-AllValid t h =
      All-update IsValidTask (λ x. x.id == t.id) (λ _. t) db.tasks (λ _ _ _. h) valid

  insert-AllValid : (t : IncidentTask) → IsValidTask t → AllValid (insert_task t db)
  unfolding insert_task auto_confirmed update_progress
  insert-AllValid t h = All-append IsValidTask db.tasks (t ∷ []) valid (h, tt)

  delete-AllValid : (t : IncidentTask) → AllValid (delete_task t db)
  unfolding delete_task update_progress
  delete-AllValid t = All-filter IsValidTask _ db.tasks valid

  found-IsValid :
      (pk : ℕ) (k : Option ℕ) {t : IncidentTask} → task_in pk k db ≡ some t → IsValidTask t
  found-IsValid pk k e =
      All-find IsValidTask (λ t. t.id == pk && refers k t.incident) db.tasks valid e

module _ (t : IncidentTask) (h : IsValidTask t) where
  confirmed-IsValid : IsValidTask (record t { is_confirmed = true })
  confirmed-IsValid = h

  relaunched-IsValid : IsValidTask (relaunched t)
  relaunched-IsValid = (h.0, tt)

  failed-IsValid : (m : String) → IsValidTask (task_failed m t)
  failed-IsValid m = (h.0, refl)

  completed-IsValid :
      (image video : Option String)
      → (is_some image || is_some video) ≡ true
      → IsValidTask (completed image video t)
  completed-IsValid none none e = cc
  completed-IsValid none (some v) e = (h.0, ground arith)
  completed-IsValid (some f) none e = (h.0, refl)
  completed-IsValid (some f) (some v) e = (h.0, refl)

keeps-with_task :
    (classes : List Permission) (rq : Request) (db : Db) (P : Db → Type 0) (pk : ℕ)
    (body : IncidentTask → Outcome)
    → P db
    → ((t : IncidentTask) → task_in pk rq.incident_id db ≡ some t → P (body t).1)
    → P (as_user classes rq db λ u. with_task pk rq db body).1
keeps-with_task classes rq db P pk body h step =
    holds-with_task classes rq db (λ x. P x.1) pk body (λ _. h) step

keeps-if :
    (P : Db → Type 0) (b : Bool) (x y : Outcome)
    → (b ≡ true → P x.1)
    → (b ≡ false → P y.1)
    → P (if b then x else y).1
keeps-if P true x y f g = f refl
keeps-if P false x y f g = g refl

keeps-unless :
    (P : Db → Type 0) (db : Db) (o : Option Error) (x : Outcome)
    → P db
    → (o ≡ none → P x.1)
    → P (unless_error o db x).1
keeps-unless P db none x h f = f refl
keeps-unless P db (some e) x h f = h

-- the views that write a row only when the serializer takes it
perform_create-AllValid :
    (start end_ : Option ℕ) (i : Option Incident) (b : TaskBody) (rq : Request) (u : User) (db : Db)
    → AllValid db
    → AllValid (perform_create start end_ i b rq u db).1
unfolding perform_create
perform_create-AllValid none end_ i b rq u db h = h
perform_create-AllValid (some s) none i b rq u db h = h
perform_create-AllValid (some s) (some e) none b rq u db h = h
perform_create-AllValid (some s) (some e) (some i) b rq u db h =
    keeps-unless AllValid db (task_error (new_task rq u s e i b)) _ h λ a.
      keeps-if AllValid (is_closed i.etat) _ _ (λ _. h)
        (λ _.
          insert-AllValid db h (new_task rq u s e i b)
            (task_error-IsValid (new_task rq u s e i b) a))

create-AllValid :
    (b : TaskBody) (rq : Request) (db : Db) → AllValid db → AllValid (create_task b rq db).1
unfolding create_task
create-AllValid b rq db h =
    holds-as_user _ rq db (λ x. AllValid x.1) _ (λ _. h)
      λ u. perform_create-AllValid b.start_date b.end_date (incident_of_view rq db) b rq u db h

patch-AllValid :
    (b : TaskBody) (pk : ℕ) (rq : Request) (db : Db)
    → AllValid db
    → AllValid (patch_task b pk rq db).1
unfolding patch_task
patch-AllValid b pk rq db h = keeps-with_task _ rq db AllValid pk _ h λ t here.
    keeps-if AllValid (on_closed t db) _ _ (λ _. h)
      (λ _.
        keeps-unless AllValid db (task_error (merged b t)) _ h
          λ a. save-AllValid db h (merged b t) (task_error-IsValid (merged b t) a))

-- If every stored task has its dates in order, a proof if it is done and a reason if it has failed, this
-- is so after every request to a view of tasks.
pub apply_task-AllValid : (e : TaskEvent) (db : Db) → AllValid db → AllValid (apply_task e db).1
unfolding apply_task destroy_task confirm_task relaunch_task complete_task fail_task
apply_task-AllValid (create b rq) db h = create-AllValid b rq db h
apply_task-AllValid (patch b pk rq) db h = patch-AllValid b pk rq db h
apply_task-AllValid (destroy pk rq) db h =
    keeps-with_task _ rq db AllValid pk _ h λ t here. delete-AllValid db h t
apply_task-AllValid (confirm pk rq) db h =
    keeps-with_task _ rq db AllValid pk _ h λ t here.
      save-AllValid db h _ (confirmed-IsValid t (found-IsValid db h pk rq.incident_id here))
apply_task-AllValid (relaunch pk rq) db h = keeps-with_task _ rq db AllValid pk _ h λ t here.
    keeps-if AllValid (not (is_failed t.state)) (refuse not_failed db)
      (ok, save_task (relaunched t) db) (λ _. h)
      (λ _. save-AllValid db h _ (relaunched-IsValid t (found-IsValid db h pk rq.incident_id here)))
apply_task-AllValid (complete image video pk rq) db h =
    keeps-with_task _ rq db AllValid pk _ h λ t here.
      keeps-if AllValid (not (is_some image) && not (is_some video)) (refuse proof_required db)
        (ok, save_task (completed image video t) db) (λ _. h)
        (λ p. save-AllValid db h _ (
          completed-IsValid t (found-IsValid db h pk rq.incident_id here) image video
            (ground (arith, p))))
apply_task-AllValid (fail none pk rq) db h = keeps-with_task _ rq db AllValid pk _ h λ t here. h
apply_task-AllValid (fail (some m) pk rq) db h =
    keeps-with_task _ rq db AllValid pk _ h λ t here.
      save-AllValid db h _ (failed-IsValid t (found-IsValid db h pk rq.incident_id here) m)
