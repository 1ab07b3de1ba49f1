-- ===== src/Incidents/Intake.antt =====
-- The report of an incident over the web: `post` of IncidentAPIView in views/incident.py, and the analysis
-- jobs that it queues, which are those of Predictions. Pictures, places and the video are left out.
pub mod Reported
pub mod Analysed
use mapapi.Prelude.{
  ℕ, suc, Bool, true, false, not, ◌&&◌, ◌||◌, Option, none, some, List, [], ◌∷◌, ◌++◌,
  if◌then◌else◌, ◌==◌,
}
use mapapi.Orm.{find, exists, update}
use mapapi.Models.{Incident, Db, settle, is_closed}
use mapapi.Http.{Error, Reply, created, fields_required, unknown_user, server_error}
use mapapi.Incidents.Reports.{IncidentData, overwritten, is_unknown_user, dates_error}
use mapapi.Ivr.{new_incident}
use mapapi.Predictions.{
  Prediction, ServiceResult, pending, failed, fresh_prediction, with_status, analyze_incident,
}

-- the body: of the files only whether there is a photograph counts
pub record Report : Type 0 where
  pub body : IncidentData
  -- the raw name of the zone
  pub zone_name : ℕ
  -- `user_id` is there as an empty text, which the serializer reads as null
  pub blank_user : Bool
  pub photo : Bool

pub record Intake : Type 0 where
  pub db : Db
  -- the names of the zones
  pub zones : List ℕ
  -- `points` of a user, which may be null
  pub points : ℕ → Option ℕ
  -- each with the key of its incident
  pub predictions : List (ℕ × Prediction)
  -- which incidents have a photograph
  pub photos : ℕ → Bool
  -- the incidents whose analysis is queued
  pub queue : List ℕ

-- the row with the defaults under the body
abbrev pub reported : Report → ℕ → Incident
reported r fresh = overwritten r.body (record (new_incident fresh 0) { user_id = none })

-- `serializer.is_valid()` on a new row, which has no tasks
unfoldable pub report_error : Report → ℕ → Db → Option Error
report_error r fresh db =
    if not r.body.zone
    then some fields_required
    else if is_unknown_user r.body.user_id db
        || is_unknown_user r.body.taken_by db
        || is_unknown_user r.body.resolution_submitted_by db
    then some unknown_user
    else if is_closed (reported r fresh).etat
    then dates_error (reported r fresh).resolution_start_date (reported r fresh).resolution_end_date
    else none

-- `Zone.objects.get_or_create(name=zone_name)` and `serializer.save()`
abbrev pub store_report : Report → ℕ → Intake → Intake
store_report r fresh s = record s {
  db = record s.db { incidents = s.db.incidents ++ settle (reported r fresh) ∷ [] };
  zones = if exists (λ z. z == r.zone_name) s.zones then s.zones else s.zones ++ r.zone_name ∷ [];
  photos = λ k. if k == fresh then r.photo else s.photos k;
}

-- `user.points += 1`: `none` when it raises, on a blank key and on a user without points
unfoldable pub award : Report → Intake → Option Intake
award r s = elim r.body.user_id [
  | none ↦ some s
  | some none ↦ if r.blank_user then none else some s
  | some (some k) ↦ elim (s.points k) [
    | none ↦ none
    | some n ↦ some (record s { points = λ j. if j == k then some (suc n) else s.points j })
  ]
]

-- `Prediction.objects.get_or_create(incident=…)`
abbrev pub with_prediction : ℕ → List (ℕ × Prediction) → List (ℕ × Prediction)
with_prediction k ps = if exists (λ e. e.0 == k) ps then ps else ps ++ (k, fresh_prediction) ∷ []

abbrev pub revise : ℕ → (Prediction → Prediction) → List (ℕ × Prediction) → List (ℕ × Prediction)
revise k f ps = update (λ e. e.0 == k) (λ e. (e.0, f e.1)) ps

-- the prediction, and the job of its analysis if there is a photograph and the broker takes it
unfoldable pub open_prediction : Bool → Bool → ℕ → Intake → Intake
open_prediction photo broker_up k s =
    let ps : List (ℕ × Prediction) = with_prediction k s.predictions in
    if photo
    then record s { predictions = ps; queue = if broker_up then s.queue ++ k ∷ [] else s.queue }
    else record s { predictions = revise k (with_status failed) ps }

-- `post` of IncidentAPIView, with the key of the new incident
unfoldable pub create_incident : Report → ℕ → Bool → Intake → Reply × Intake
create_incident r fresh broker_up s = elim (report_error r fresh s.db) [
  | some e ↦ (Reply.refused e, s)
  | none ↦ elim (award r (store_report r fresh s)) [
    | none ↦ (Reply.refused server_error, store_report r fresh s)
    | some t ↦ (created, open_prediction r.photo broker_up fresh t)
  ]
]

-- The worker runs a queued analysis, with what the call of the service comes to.
unfoldable pub run_job : ServiceResult → ℕ → Intake → Intake
run_job result k s = record s {
  predictions = revise k (λ p. (analyze_incident (s.photos k) result p).1) s.predictions;
}

-- the queued jobs in turn
unfoldable pub run_jobs : (ℕ → ServiceResult) → List ℕ → Intake → Intake
run_jobs service [] s = s
run_jobs service (k ∷ ks) s = run_jobs service ks (run_job (service k) k s)

-- the prediction of an incident
abbrev pub prediction_of : ℕ → Intake → Option (ℕ × Prediction)
prediction_of k s = find (λ e. e.0 == k) s.predictions
