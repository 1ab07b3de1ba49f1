-- ===== src/Predictions.antt =====
-- The analysis of an incident's photograph: analyze_incident_with_model_task of tasks.py,
-- services/prediction_mapper.py and RetryIncidentPredictionView. The answer of the model service is an
-- argument. Of the fields that the mapper copies as they are, the texts that are read again are kept.
pub mod Status
use text.Mathlib.Text.{◌==◌ as same_string}
use mapapi.Prelude.{
  String, Bool, true, false, not, ◌&&◌, Option, none, some, [], ◌∷◌, if◌then◌else◌,
}
use mapapi.Models.{Db}
use mapapi.Http.{Request, Reply, ok, not_found, fields_required, server_error, permission_denied}
use mapapi.Permissions.{is_authenticated, superuser, permitted, incident_of_view}

-- PredictionStatus
pub data PredictionStatus : Type 0 where
  pending processing completed completed_with_warning failed : PredictionStatus

pub record Prediction : Type 0 where
  pub status : PredictionStatus
  -- whether it has an incident
  pub incident : Bool
  pub macro_category : String
  pub sub_category : String
  pub description : String
  pub recommendation : String
  -- the fields of the old shape
  pub incident_type : String
  pub piste_solution : String
  pub analysis : String

-- `data` of the mapper, with '' for what is missing
pub record ModelResponse : Type 0 where
  pub macro_category : String
  pub sub_category : String
  pub description : String
  pub recommendation : String

-- `if not old: old = new or ''`
abbrev kept_or : String → String → String
kept_or old new = if same_string old "" then new else old

-- the fields that are copied
abbrev copied : ModelResponse → Prediction → Prediction
copied d p = record p {
  macro_category = d.macro_category;
  sub_category = d.sub_category;
  description = d.description;
  recommendation = d.recommendation;
}

-- the status that a response leads to
abbrev status_of : ModelResponse → PredictionStatus
status_of d =
    if same_string d.macro_category "Autre" && same_string d.sub_category "Incident non répertorié"
    then completed_with_warning
    else completed

-- `fill_prediction_from_model_response`
unfoldable pub fill_prediction : ModelResponse → Prediction → Prediction
fill_prediction d p = record (copied d p) {
  incident_type = kept_or p.incident_type d.macro_category;
  piste_solution = kept_or p.piste_solution d.recommendation;
  analysis = kept_or p.analysis d.description;
  status = status_of d;
}

-- What the call of the service comes to: an answer, a failure that Celery retries, or another error.
pub data ServiceResult : Type 0 where
  answered : ModelResponse → ServiceResult
  unreachable raised : ServiceResult

-- what a run of the task ends with
pub data TaskEnd : Type 0 where
  skipped returned retried error : TaskEnd

abbrev pub with_status : PredictionStatus → Prediction → Prediction
with_status s p = record p { status = s }

-- the call of the service, once the prediction is PROCESSING
abbrev call_service : ServiceResult → Prediction → TaskEnd × Prediction
call_service (answered d) p = (returned, fill_prediction d p)
call_service unreachable p = (retried, with_status failed p)
call_service raised p = (error, with_status failed p)

abbrev pub is_completed : PredictionStatus → Bool
is_completed completed = true
is_completed completed_with_warning = true
is_completed _ = false

-- `analyze_incident_with_model_task`, with whether the incident has a photograph
unfoldable pub analyze_incident : Bool → ServiceResult → Prediction → TaskEnd × Prediction
analyze_incident photo result p =
    if is_completed p.status
    then (skipped, p)
    else if not p.incident
    then (returned, with_status failed p)
    else if not photo
    then (returned, with_status failed p)
    else call_service result (with_status processing p)

-- a new prediction of an incident
abbrev pub fresh_prediction : Prediction
fresh_prediction = record {
  status = pending;
  incident = true;
  macro_category = "";
  sub_category = "";
  description = "";
  recommendation = "";
  incident_type = "";
  piste_solution = "";
  analysis = "";
}

abbrev or_fresh : Option Prediction → Prediction
or_fresh none = fresh_prediction
or_fresh (some p) = p

-- `RetryIncidentPredictionView.post`, on the prediction of the incident if there is one; when the job
-- cannot be queued the row is saved and the reply is an error
unfoldable retry_prediction : Bool → Request → Db → Option Prediction → Reply × Option Prediction
retry_prediction photo rq db p =
    if not (permitted (is_authenticated ∷ superuser ∷ []) rq db)
    then (Reply.refused permission_denied, p)
    else elim (incident_of_view rq db) [
      | none ↦ (Reply.refused not_found, p)
      | some i ↦ if not photo then (Reply.refused fields_required, p) else (
        if rq.broker_up then ok else Reply.refused server_error,
        some (with_status pending (or_fresh p)),
      )
    ]
