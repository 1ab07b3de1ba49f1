-- ===== src/Predictions/Status.antt =====
-- How a run of the analysis leaves a prediction.
use mapapi.Prelude.{◌≡◌, refl, Bool, true, false, ◌||◌, arith, if◌then◌else◌, inl, inr, Bool-cases}
use mapapi.Predictions.{
  Prediction, PredictionStatus, processing, failed, ServiceResult, answered, unreachable, raised,
  is_completed, call_service, analyze_incident, fill_prediction,
}

abbrev pub is_failed : PredictionStatus → Bool
is_failed failed = true
is_failed _ = false

abbrev pub settled : PredictionStatus → Bool
settled s = is_completed s || is_failed s

call_service-settled :
    (r : ServiceResult) (p : Prediction) → settled (call_service r p).1.status ≡ true
unfolding fill_prediction
call_service-settled (answered d) p = ground arith
call_service-settled unreachable p = refl
call_service-settled raised p = refl

pub analyze_incident-settled :
    (photo : Bool) (r : ServiceResult) (p : Prediction)
    → settled (analyze_incident photo r p).1.status ≡ true
unfolding analyze_incident
analyze_incident-settled photo r p = elim (Bool-cases (is_completed p.status)) [
  | inl e ↦ rw e (rw e refl)
  | inr e ↦ elim (Bool-cases p.incident) [
    | inr n ↦ rw (e, n) refl
    | inl n ↦ elim (Bool-cases photo) [
      | inr q ↦ rw (e, n, q) refl
      | inl q ↦
          rw (e, n, q) (call_service-settled r (record p { status = processing; incident = true }))
    ]
  ]
]

skip_completed :
    (photo : Bool) (r : ServiceResult) (p : Prediction)
    → (if is_completed p.status then (analyze_incident photo r p).1 else p) ≡ p
unfolding analyze_incident
skip_completed photo r p = elim (Bool-cases (is_completed p.status)) [
  | inl e ↦ rw e refl
  | inr e ↦ rw e refl
]

-- Whatever the service does, a run of the analysis leaves the prediction completed, with or without
-- a warning, or failed; and when it is completed, a further run leaves it as it is.
pub analyze_incident_settles :
    (photo photo' : Bool) (r r' : ServiceResult) (p : Prediction)
    → (let p' = (analyze_incident photo r p).1 in
        ((is_completed p'.status || is_failed p'.status) ≡ true)
        × ((if is_completed p'.status then (analyze_incident photo' r' p').1 else p') ≡ p'))
analyze_incident_settles photo photo' r r' p =
    (analyze_incident-settled photo r p, skip_completed photo' r' (analyze_incident photo r p).1)
