-- ===== src/Incidents/Resolution.antt =====
-- The views that move an incident towards its resolution: HandleIncidentView, CloseIncidentView,
-- PrepareResolutionView, ReturnForCompletionView, DeclareResolvedView, ValidateResolutionView and
-- RejectResolutionView.
use mapapi.Prelude.{
  ℕ, ◌+◌, ◌*◌, String, Bool, not, ◌&&◌, ◌||◌, Option, none, some, [], ◌∷◌, if◌then◌else◌, ◌==◌,
}
use mapapi.Orm.{exists, update}
use mapapi.Models.{
  User, Incident, Db, Etat, CollabStatus, is_declared, is_taken, is_prepared, is_in_validation,
  is_closed, is_accepted, is_done, is_failed, save_incident,
}
use mapapi.Http.{
  Request, ok, closed, wrong_etat, dates_required, open_tasks, motif_required, invalid_action,
}
use mapapi.Permissions.{
  is_authenticated, org_admin_role, org_operative, super_admin_role, incident_leader_class,
}
use mapapi.Views.{Outcome, refuse, as_user, with_incident}
use mapapi.Signals.{log_action}

-- the rows that the views save
abbrev pub handled_row : User → Incident → Incident
handled_row u i = record i { etat = Etat.taken; taken_by = some u.id }

abbrev pub resolved_row : Incident → Incident
resolved_row i = record i { etat = Etat.resolved }

abbrev pub closed_row : ℕ → ℕ → Incident → Incident
closed_row start end_ i = record i {
  etat = Etat.resolved;
  resolution_start_date = some start;
  resolution_end_date = some end_;
}

abbrev pub prepared_row : Request → User → Incident → Incident
prepared_row rq u i = record i {
  etat = Etat.resolution_prepared;
  resolution_submitted_by = some u.id;
  resolution_submitted_at = some rq.now;
}

-- also the row of a resolution that is sent back
abbrev pub returned_row : Incident → Incident
returned_row i = record i { etat = Etat.taken }

-- `timedelta(hours=72)`
abbrev pub hours_72 : ℕ
hours_72 = 72 * 3600

abbrev pub submitted_row : Request → Incident → Incident
submitted_row rq i = record i {
  etat = Etat.in_validation;
  validation_deadline = some (rq.now + hours_72);
}

abbrev pub definitive_row : Incident → Incident
definitive_row i = record i { etat = Etat.resolved_definitive }

abbrev pub rejected_row : String → Incident → Incident
rejected_row motif i = record i { etat = Etat.taken; rejection_reason = some motif }

-- `action` of HandleIncidentView, `none` for any other text
pub data Handling : Type 0 where
  take_into_account resolve : Handling

unfoldable pub handle_incident : Option Handling → Request → Db → Outcome
handle_incident action rq db = as_user (is_authenticated ∷ []) rq db λ u. with_incident rq db λ i.
    elim action [
      | none ↦ refuse invalid_action db
      | some a ↦ elim a [
        | take_into_account ↦
            if is_declared i.etat
            then (ok, log_action u.id (save_incident (handled_row u i) db))
            else refuse wrong_etat db
        | resolve ↦
            if is_taken i.etat
            then (ok, log_action u.id (save_incident (resolved_row i) db))
            else refuse wrong_etat db
      ]
    ]

-- the tasks that are neither done nor failed
abbrev pub has_open_task : Incident → Db → Bool
has_open_task i db =
    exists (λ t. t.incident == i.id && not (is_done t.state || is_failed t.state)) db.tasks

-- the two dates of the body, `none` for an empty or missing one; a malformed text is not covered
unfoldable pub close_incident : Option ℕ → Option ℕ → Request → Db → Outcome
close_incident start end_ rq db =
    as_user (is_authenticated ∷ org_admin_role ∷ incident_leader_class ∷ []) rq db λ u.
      with_incident rq db λ i. if is_closed i.etat then refuse closed db else elim start [
        | none ↦ refuse dates_required db
        | some s ↦ elim end_ [
          | none ↦ refuse dates_required db
          | some e ↦
              if has_open_task i db
              then refuse open_tasks db
              else (ok, save_incident (closed_row s e i) db)
        ]
      ]

unfoldable pub prepare_resolution : Request → Db → Outcome
prepare_resolution rq db = as_user (is_authenticated ∷ org_operative ∷ []) rq db λ u.
    with_incident rq db λ i.
      if not (is_taken i.etat)
      then refuse wrong_etat db
      else (ok, save_incident (prepared_row rq u i) db)

unfoldable pub return_for_completion : Request → Db → Outcome
return_for_completion rq db = as_user (is_authenticated ∷ org_admin_role ∷ []) rq db λ u.
    with_incident rq db λ i.
      if not (is_prepared i.etat)
      then refuse wrong_etat db
      else (ok, save_incident (returned_row i) db)

unfoldable pub declare_resolved : Request → Db → Outcome
declare_resolved rq db = as_user (is_authenticated ∷ org_admin_role ∷ []) rq db λ u.
    with_incident rq db λ i.
      if not (is_taken i.etat || is_prepared i.etat)
      then refuse wrong_etat db
      else (ok, save_incident (submitted_row rq i) db)

-- `filter(incident=…, status='accepted').update(status='terminated')`
unfoldable pub terminate_active_collaborations : ℕ → Db → Db
terminate_active_collaborations pk db = record db {
  collaborations =
      update (λ c. c.incident == pk && is_accepted c.status)
        (λ c. record c { status = CollabStatus.terminated }) db.collaborations;
}

unfoldable pub validate_resolution : Request → Db → Outcome
validate_resolution rq db = as_user (is_authenticated ∷ super_admin_role ∷ []) rq db λ u.
    with_incident rq db λ i.
      if not (is_in_validation i.etat)
      then refuse wrong_etat db
      else (ok, terminate_active_collaborations i.id (save_incident (definitive_row i) db))

-- `motif` of the body after `strip()`, `none` for an empty one
unfoldable pub reject_resolution : Option String → Request → Db → Outcome
reject_resolution motif rq db = as_user (is_authenticated ∷ super_admin_role ∷ []) rq db λ u.
    with_incident rq db λ i.
      if not (is_in_validation i.etat) then refuse wrong_etat db else elim motif [
        | none ↦ refuse motif_required db
        | some m ↦ (ok, save_incident (rejected_row m i) db)
      ]
