-- ===== src/Cases/Intake.antt =====
-- The report of an incident at a concrete state.
use mapapi.Prelude.{◌≡◌, refl, true, false, not, ◌||◌, some, [], ◌∷◌}
use mapapi.Models.{Etat}
use mapapi.Http.{created}
use mapapi.Predictions.{unreachable}
use mapapi.Incidents.Reports.Put.{only_etat}
use mapapi.Incidents.Intake.{
  Report, Intake, report_error, award, open_prediction, create_incident, run_jobs,
}
use mapapi.Incidents.Intake.Analysed.{is_settled_in, create_incident-settles}
use mapapi.Cases.Sample.{sample}

-- alice reports an incident with a photograph
abbrev report : Report
report = record {
  body = record (only_etat Etat.declared) { user_id = some (some 1) };
  zone_name = 4;
  blank_user = false;
  photo = true;
}

abbrev intake : Intake
intake = record {
  db = sample;
  zones = 3 ∷ [];
  points = λ k. some 5;
  predictions = [];
  photos = λ k. false;
  queue = 2 ∷ [];
}

report-created : (create_incident report 77 false intake).0 ≡ created
unfolding create_incident report_error award open_prediction
report-created = refl

create_incident-settles_example :
    is_settled_in 77
      (run_jobs
        (λ k. unreachable)
        (create_incident report 77 false intake).1.queue
        (create_incident report 77 false intake).1).predictions
    ≡ (false || not true)
create_incident-settles_example =
    create_incident-settles report 77 false intake (λ k. unreachable) report-created refl refl
