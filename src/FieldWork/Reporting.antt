-- ===== src/FieldWork/Reporting.antt =====
-- What a field report does.
use mapapi.Prelude.{ℕ, ◌≡◌, some, [], ◌∷◌, ◌++◌, arith, Option, if◌then◌else◌, ◌&&◌}
use mapapi.Orm.{exists, update}
use mapapi.Models.{User, Incident, get_incident, is_field_role}
use mapapi.Http.{Request}
use mapapi.FieldWork.{
  Field, is_mission, reported_row, report_row, report_error, store_report, create_report,
}

-- A field report on an incident changes something exactly when a field agent with a mission there
-- sends it, from whatever distance: it is stored, and the mission is reported.
create_report_lem :
    (k : ℕ) (sent d : Option ℕ) (u : User) (i : Incident) (rq : Request) (s : Field)
    → rq.user ≡ some u
    → get_incident k s.db ≡ some i
    → (create_report k sent d rq s).1 ≡ (
        if is_field_role u.org_role && exists (is_mission i.id u.id) s.assignments
        then record s {
          reports = s.reports ++ report_row u i sent ∷ [];
          assignments = update (is_mission i.id u.id) reported_row s.assignments;
        }
        else s)
unfolding create_report store_report report_error
create_report_lem k sent d u i rq s me here = ground (arith, me, here)
