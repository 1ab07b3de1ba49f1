-- ===== src/Incidents/Reports/Put.antt =====
-- PUT on an incident beside the workflow.
use mapapi.Prelude.{ℕ, ◌≡◌, refl, Bool, true, false, none, some, ◌==◌, ◌∙◌}
use mapapi.Orm.{find-sat}
use mapapi.Models.{Incident, Db, Etat, get_incident, settle, is_closed}
use mapapi.Views.Loaded.{with_incident-loaded}
use mapapi.Http.{Request}
use mapapi.Permissions.{incident_of_view}
use mapapi.Incidents.Reports.{
  IncidentData, put_incident, put_found, incident_error, closing_error, overwritten,
}
use mapapi.Flow.{etat_of, etat-save}

-- a body with a zone and a state
abbrev pub only_etat : Etat → IncidentData
only_etat e = record {
  zone = true;
  user_id = none;
  etat = some e;
  taken_by = none;
  take_in_charge_mode = none;
  resolution_start_date = none;
  resolution_end_date = none;
  is_public = none;
  is_deleted = none;
  deleted_at = none;
  taken_in_charge_at = none;
  severity = none;
  antigel_warned_75 = none;
  antigel_warned_90 = none;
  resolution_submitted_by = none;
  resolution_submitted_at = none;
  validation_deadline = none;
  rejection_reason = none;
}

-- Whoever sends it, signed in or not, a PUT with a zone and any state but RESOLVED leaves the incident
-- in that state, whatever its state was.
pub put_incident_sets :
    (e : Etat) (mail_sent : Bool) (k : ℕ) (i : Incident) (rq : Request) (db : Db)
    → rq.incident_id ≡ some k
    → get_incident k db ≡ some i
    → is_closed e ≡ false
    → etat_of k (put_incident (only_etat e) mail_sent rq db).1 ≡ some e
unfolding put_incident put_found incident_error closing_error settle
put_incident_sets e mail_sent k i rq db url here unclosed =
    let own : (i.id == k) ≡ true = find-sat (λ x. x.id == k) db.incidents here in
    let found : incident_of_view rq db ≡ some i = cc in
    rw (with_incident-loaded rq db (λ j. put_found (only_etat e) mail_sent j db) found)
      (rw unclosed (etat-save (overwritten (only_etat e) i) k db ∙ rw (own, here) refl))
