-- ===== src/Tasks.antt =====
-- The tasks of an incident: IncidentTask of models.py with its serializer, and views/task.py.
-- A file is its name; an empty file or text is `none`.
pub mod Requests
pub mod Progress
pub mod Rounding
pub mod Current
pub mod Valid
use mapapi.Prelude.{
  ℕ, ◌+◌, ◌*◌, ◌/◌, ◌%◌, String, Bool, true, false, not, ◌&&◌, ◌||◌, Option, none, some, [], ◌∷◌,
  ◌++◌, if◌then◌else◌, is_some, ltb, ◌==◌, refers,
}
use mapapi.Orm.{find, filter, update, count, exists}
use mapapi.Models.{
  User, Incident, IncidentTask, Db, TaskState, is_final, is_closed, is_done, is_failed, is_leader,
  is_accepted, is_pair, get_incident,
}
use mapapi.Http.{
  Request, Error, ok, created, not_found, closed, bad_dates, proof_required, reason_required,
  not_failed, server_error,
}
use mapapi.Permissions.{
  is_authenticated, incident_leader_class, leader_or_contributor_class, incident_of_view,
}
use mapapi.Views.{Outcome, refuse, as_user}

-- Python's `round(a * 100 / b)`: to the nearest, and a half to the even neighbour
unfoldable pub percent : ℕ → ℕ → ℕ
percent a b =
    let q : ℕ = a * 100 / b in
    let r : ℕ = 2 * (a * 100 % b) in if ltb r b then q else if ltb b r then q + 1 else q + q % 2

-- the tasks of an incident that count: those that its leader has confirmed
abbrev pub is_confirmed_of : Incident → IncidentTask → Bool
is_confirmed_of i t = t.incident == i.id && t.is_confirmed

-- `Incident.update_progress`: the value that it stores
unfoldable pub progress_of : Incident → Db → ℕ
progress_of i db =
    if is_final i.etat
    then 100
    else let total : ℕ = count (is_confirmed_of i) db.tasks in
      let done_ : ℕ = count (λ t. is_confirmed_of i t && is_done t.state) db.tasks in
      if total == 0 then 0 else percent done_ total

-- `incident.update_progress()` on the row with a key: it writes the field `progress` alone
unfoldable pub update_progress : ℕ → Db → Db
unfolding progress_of
update_progress k db = record db {
  incidents = update (λ i. i.id == k) (λ i. record i { progress = progress_of i db }) db.incidents;
}

-- `self.pk` is set before the first save: `UUIDModel` draws the key when the object is made
abbrev pk_is_set : IncidentTask → Bool
pk_is_set t = true

-- `_is_creator_leader`
abbrev pub is_creator_leader : IncidentTask → Db → Bool
is_creator_leader t db =
    exists (λ c. is_pair t.incident t.created_by c && is_leader c.role && is_accepted c.status)
      db.collaborations
    || elim (get_incident t.incident db) [ none ↦ false | some i ↦ refers i.taken_by t.created_by ]

-- the row that `IncidentTask.save` writes
unfoldable pub auto_confirmed : IncidentTask → Db → IncidentTask
auto_confirmed t db =
    if not (pk_is_set t) && not t.is_confirmed && is_creator_leader t db
    then record t { is_confirmed = true }
    else t

-- `task.save()` on a new row
unfoldable pub insert_task : IncidentTask → Db → Db
insert_task t db =
    update_progress t.incident (record db { tasks = db.tasks ++ auto_confirmed t db ∷ [] })

-- `task.save()` on a loaded row
unfoldable pub save_task : IncidentTask → Db → Db
save_task t db =
    update_progress t.incident
      (record db { tasks = update (λ x. x.id == t.id) (λ _. auto_confirmed t db) db.tasks })

-- `task.delete()`
unfoldable pub delete_task : IncidentTask → Db → Db
delete_task t db =
    update_progress t.incident (record db { tasks = filter (λ x. not (x.id == t.id)) db.tasks })

-- `IncidentTaskSerializer.validate` on the row that would be written, its incident aside
unfoldable pub task_error : IncidentTask → Option Error
task_error t =
    if ltb t.end_date t.start_date
    then some bad_dates
    else if is_done t.state && not (is_some t.proof_image || is_some t.proof_video)
    then some proof_required
    else if is_failed t.state && not (is_some t.failure_reason)
    then some reason_required
    else none

-- `is_valid(raise_exception=True)` before the rest of a handler
abbrev pub unless_error : Option Error → Db → Outcome → Outcome
unless_error none db x = x
unless_error (some e) db x = refuse e db

-- the data of a request; a field that is not sent is `none`
pub record TaskBody : Type 0 where
  pub start_date : Option ℕ
  pub end_date : Option ℕ
  pub state : Option TaskState
  pub proof_image : Option (Option String)
  pub proof_video : Option (Option String)
  pub failure_reason : Option (Option String)

-- `data.get(field, default)`
abbrev or_else : {A : Type 0} → Option A → A → A
or_else none d = d
or_else (some a) d = a

abbrev pub merged : TaskBody → IncidentTask → IncidentTask
merged b t = record t {
  start_date = or_else b.start_date t.start_date;
  end_date = or_else b.end_date t.end_date;
  state = or_else b.state t.state;
  proof_image = or_else b.proof_image t.proof_image;
  proof_video = or_else b.proof_video t.proof_video;
  failure_reason = or_else b.failure_reason t.failure_reason;
}

abbrev pub new_task : Request → User → ℕ → ℕ → Incident → TaskBody → IncidentTask
new_task rq u start end_ i b = merged b (record {
  id = rq.fresh;
  incident = i.id;
  start_date = start;
  end_date = end_;
  state = TaskState.pending;
  proof_image = none;
  proof_video = none;
  failure_reason = none;
  created_by = u.id;
  is_confirmed = false;
})

-- the serializer, and `perform_create`; the two dates are required
unfoldable pub perform_create :
    Option ℕ → Option ℕ → Option Incident → TaskBody → Request → User → Db → Outcome
perform_create none end_ i b rq u db = refuse bad_dates db
perform_create (some start) none i b rq u db = refuse bad_dates db
perform_create (some start) (some end_) none b rq u db = refuse server_error db
perform_create (some start) (some end_) (some i) b rq u db =
    unless_error (task_error (new_task rq u start end_ i b)) db (
      if is_closed i.etat
      then refuse closed db
      else (created, insert_task (new_task rq u start end_ i b) db))

-- `IncidentTaskListCreateView.post`
unfoldable pub create_task : TaskBody → Request → Db → Outcome
create_task b rq db =
    as_user (is_authenticated ∷ leader_or_contributor_class ∷ []) rq db
      λ u. perform_create b.start_date b.end_date (incident_of_view rq db) b rq u db

-- `IncidentTask.objects.get(pk=pk, incident_id=incident_id)` and its 404
abbrev pub task_in : ℕ → Option ℕ → Db → Option IncidentTask
task_in pk incident db = find (λ t. t.id == pk && refers incident t.incident) db.tasks

abbrev pub with_task : ℕ → Request → Db → (IncidentTask → Outcome) → Outcome
with_task pk rq db body = elim (task_in pk rq.incident_id db) [
  | none ↦ refuse not_found db
  | some t ↦ body t
]

-- whether the incident of a task is closed
abbrev pub on_closed : IncidentTask → Db → Bool
on_closed t db = elim (get_incident t.incident db) [ none ↦ false | some i ↦ is_closed i.etat ]

-- `IncidentTaskDetailView.patch`, and `put` when every field is sent
unfoldable pub patch_task : TaskBody → ℕ → Request → Db → Outcome
patch_task b pk rq db = as_user (is_authenticated ∷ leader_or_contributor_class ∷ []) rq db λ u.
    with_task pk rq db λ t.
      if on_closed t db
      then refuse closed db
      else unless_error (task_error (merged b t)) db (ok, save_task (merged b t) db)

-- `IncidentTaskDetailView.delete`
unfoldable pub destroy_task : ℕ → Request → Db → Outcome
destroy_task pk rq db =
    as_user (is_authenticated ∷ leader_or_contributor_class ∷ []) rq db
      λ u. with_task pk rq db λ t. (ok, delete_task t db)

unfoldable pub confirm_task : ℕ → Request → Db → Outcome
confirm_task pk rq db =
    as_user (is_authenticated ∷ incident_leader_class ∷ []) rq db
      λ u. with_task pk rq db λ t. (ok, save_task (record t { is_confirmed = true }) db)

-- `if proof: task.proof = proof`
abbrev replaced : Option String → Option String → Option String
replaced none old = old
replaced (some f) old = some f

abbrev pub completed : Option String → Option String → IncidentTask → IncidentTask
completed image video t = record t {
  state = TaskState.done;
  proof_image = replaced image t.proof_image;
  proof_video = replaced video t.proof_video;
}

unfoldable pub complete_task : Option String → Option String → ℕ → Request → Db → Outcome
complete_task image video pk rq db =
    as_user (is_authenticated ∷ leader_or_contributor_class ∷ []) rq db λ u. with_task pk rq db λ t.
      if not (is_some image) && not (is_some video)
      then refuse proof_required db
      else (ok, save_task (completed image video t) db)

abbrev pub task_failed : String → IncidentTask → IncidentTask
task_failed reason t = record t { state = TaskState.failed; failure_reason = some reason }

unfoldable pub fail_task : Option String → ℕ → Request → Db → Outcome
fail_task reason pk rq db = as_user (is_authenticated ∷ leader_or_contributor_class ∷ []) rq db λ u.
    with_task pk rq db λ t. elim reason [
      | none ↦ refuse reason_required db
      | some m ↦ (ok, save_task (task_failed m t) db)
    ]

-- the reason of the failure stays
abbrev pub relaunched : IncidentTask → IncidentTask
relaunched t = record t { state = TaskState.pending }

unfoldable pub relaunch_task : ℕ → Request → Db → Outcome
relaunch_task pk rq db = as_user (is_authenticated ∷ incident_leader_class ∷ []) rq db λ u.
    with_task pk rq db λ t.
      if not (is_failed t.state) then refuse not_failed db else (ok, save_task (relaunched t) db)
