-- ===== src/Tasks/Current.antt =====
-- The stored progress of an incident after a request to a view of tasks.
use mapapi.Prelude.{
  ℕ, ◌≡◌, refl, Bool, true, false, Option, none, some, List, arith, if◌then◌else◌, is_some, not,
  refers, ◌==◌, ◌&&◌, subst,
}
use mapapi.Orm.{find-sat}
use mapapi.Models.{User, Incident, IncidentTask, Db, is_closed, is_failed}
use mapapi.Http.{
  Request, Reply, Error, is_refused, ok, created, closed, bad_dates, server_error, not_failed,
  proof_required, reason_required,
}
use mapapi.Permissions.{Permission, incident_of_view}
use mapapi.Views.{Outcome, refuse, as_user}
use mapapi.Views.Keeps.{holds-as_user}
use mapapi.Views.Loaded.{loaded-id}
use mapapi.Tasks.{
  TaskBody, task_error, unless_error, task_in, with_task, update_progress, save_task, insert_task,
  delete_task, perform_create, create_task, patch_task, destroy_task, confirm_task, complete_task,
  fail_task, relaunch_task, new_task, merged, completed, task_failed, relaunched, on_closed,
}
use mapapi.Tasks.Progress.{IsCurrent, update_progress-IsCurrent}
use mapapi.Tasks.Requests.{
  TaskEvent, apply_task, request_of, create, patch, destroy, confirm, relaunch, complete, fail,
  holds-with_task,
}

-- an outcome that is refused, or leaves the progress of the incident up to date
abbrev UpToDate : ℕ → Outcome → Type 0
UpToDate k x = is_refused x.0 ≡ false → IsCurrent k x.1

refused-UpToDate : (k : ℕ) (db : Db) (e : Error) → UpToDate k (refuse e db)
refused-UpToDate k db e h = cc

if-UpToDate :
    (k : ℕ) (b : Bool) (e : Error) (db : Db) (x : Outcome)
    → UpToDate k x
    → UpToDate k (if b then refuse e db else x)
if-UpToDate k true e db x f = refused-UpToDate k db e
if-UpToDate k false e db x f = f

unless-UpToDate :
    (k : ℕ) (o : Option Error) (db : Db) (x : Outcome)
    → UpToDate k x
    → UpToDate k (unless_error o db x)
unless-UpToDate k none db x f = f
unless-UpToDate k (some e) db x f = refused-UpToDate k db e

module _ (k : ℕ) (rq : Request) (db : Db) (here : rq.incident_id ≡ some k) where
  of_key : (pk : ℕ) {t : IncidentTask} → task_in pk rq.incident_id db ≡ some t → t.incident ≡ k
  of_key pk {t} e =
      let own : (t.id == pk && refers rq.incident_id t.incident) ≡ true =
        find-sat (λ t. t.id == pk && refers rq.incident_id t.incident) db.tasks e in
      ground arith

  written : (r : Reply) (j : ℕ) (new : Db) → j ≡ k → UpToDate k (r, update_progress j new)
  written r j new e h =
      subst (λ x. IsCurrent x (update_progress j new)) e (update_progress-IsCurrent j new)

  save-UpToDate : (r : Reply) (t : IncidentTask) → t.incident ≡ k → UpToDate k (r, save_task t db)
  unfolding save_task
  save-UpToDate r t e = written r t.incident _ e

  delete-UpToDate :
      (r : Reply) (t : IncidentTask) → t.incident ≡ k → UpToDate k (r, delete_task t db)
  unfolding delete_task
  delete-UpToDate r t e = written r t.incident _ e

  insert-UpToDate :
      (r : Reply) (t : IncidentTask) → t.incident ≡ k → UpToDate k (r, insert_task t db)
  unfolding insert_task
  insert-UpToDate r t e = written r t.incident _ e

  create-UpToDate :
      (start end_ : Option ℕ) (i : Option Incident) (b : TaskBody) (u : User)
      → incident_of_view rq db ≡ i
      → UpToDate k (perform_create start end_ i b rq u db)
  unfolding perform_create
  create-UpToDate none end_ i b u e = refused-UpToDate k db bad_dates
  create-UpToDate (some s) none i b u e = refused-UpToDate k db bad_dates
  create-UpToDate (some s) (some f) none b u e = refused-UpToDate k db server_error
  create-UpToDate (some s) (some f) (some i) b u e =
      let own : i.id ≡ k = cc (loaded-id rq db e, here) in
      unless-UpToDate k (task_error (new_task rq u s f i b)) db _ (
        if-UpToDate k (is_closed i.etat) closed db _
          (insert-UpToDate created (new_task rq u s f i b) own))

  on_task :
      (pk : ℕ) (body : IncidentTask → Outcome)
      → ((t : IncidentTask) → t.incident ≡ k → UpToDate k (body t))
      → (classes : List Permission)
      → UpToDate k (as_user classes rq db λ u. with_task pk rq db body)
  on_task pk body step classes =
      holds-with_task classes rq db (UpToDate k) pk body (refused-UpToDate k db)
        λ t e. step t (of_key pk e)

-- A request to a view of tasks that is not refused leaves the stored progress of the incident in its URL
-- at 100 if the incident is final, at 0 if it is not and has no confirmed task, and else at the share of
-- its confirmed tasks that are done, up to half a percent.
pub apply_task-IsCurrent :
    (e : TaskEvent) (db : Db) (k : ℕ)
    → (request_of e).incident_id ≡ some k
    → is_refused (apply_task e db).0 ≡ false
    → IsCurrent k (apply_task e db).1
unfolding apply_task create_task patch_task destroy_task confirm_task relaunch_task complete_task
    fail_task
apply_task-IsCurrent (create b rq) db k here =
    holds-as_user _ rq db (UpToDate k) _ (refused-UpToDate k db)
      λ u. create-UpToDate k rq db here b.start_date b.end_date (incident_of_view rq db) b u refl
apply_task-IsCurrent (patch b pk rq) db k here =
    on_task k rq db here pk _
      (λ t own. if-UpToDate k (on_closed t db) closed db _ (
        unless-UpToDate k (task_error (merged b t)) db _
          (save-UpToDate k rq db here ok (merged b t) own)))
      _
apply_task-IsCurrent (destroy pk rq) db k here =
    on_task k rq db here pk _ (λ t own. delete-UpToDate k rq db here ok t own) _
apply_task-IsCurrent (confirm pk rq) db k here =
    on_task k rq db here pk _
      (λ t own. save-UpToDate k rq db here ok (record t { is_confirmed = true }) own) _
apply_task-IsCurrent (relaunch pk rq) db k here =
    on_task k rq db here pk _
      (λ t own.
        if-UpToDate k (not (is_failed t.state)) not_failed db _
          (save-UpToDate k rq db here ok (relaunched t) own))
      _
apply_task-IsCurrent (complete image video pk rq) db k here =
    on_task k rq db here pk _
      (λ t own.
        if-UpToDate k (not (is_some image) && not (is_some video)) proof_required db _
          (save-UpToDate k rq db here ok (completed image video t) own))
      _
apply_task-IsCurrent (fail none pk rq) db k here =
    on_task k rq db here pk _ (λ t own. refused-UpToDate k db reason_required) _
apply_task-IsCurrent (fail (some m) pk rq) db k here =
    on_task k rq db here pk _ (λ t own. save-UpToDate k rq db here ok (task_failed m t) own) _
