-- ===== src/Cases/Reports.antt =====
-- Incidents beside the workflow, the trash, the acting organisations and the field reports.
use mapapi.Prelude.{◌≡◌, ◌≤◌, ◌==◌, refl, ℕ, true, none, some, [], ◌∷◌}
use mapapi.Models.{Db, Etat, OrgAssignmentStatus, get_incident}
use mapapi.Orm.{count}
use mapapi.Http.{Request}
use mapapi.Roles.{is_super_admin, get_web_role}
use mapapi.Flow.{etat_of}
use mapapi.Incidents.Reports.{put_incident}
use mapapi.Incidents.Reports.Put.{only_etat, put_incident_sets}
use mapapi.Trash.{bulk_delete, restore_incident}
use mapapi.Trash.Restore.{back, restore-bulk_delete}
use mapapi.ActingOrgs.{acting_organisations, assigned}
use mapapi.ActingOrgs.Strongest.{relation_in, acting_organisations_lem}
use mapapi.Cases.Sample.{alice, root, fresh_one, led_one, assigned as asked, sample, request_by}

abbrev anonymous : ℕ → Request
anonymous k = record (request_by alice k) { user = none }

put_incident_sets_example :
    etat_of 1 (put_incident (only_etat Etat.resolved_definitive) true (anonymous 1) sample).1
    ≡ some Etat.resolved_definitive
put_incident_sets_example =
    put_incident_sets Etat.resolved_definitive true 1 fresh_one (anonymous 1) sample refl refl refl

restore-bulk_delete_example :
    get_incident 1
      (restore_incident 1
        (request_by root 1)
        (bulk_delete (1 ∷ []) (request_by root 1) sample).0.1).1
    ≡ some (back (request_by root 1) fresh_one)
unfolding is_super_admin get_web_role
restore-bulk_delete_example =
    restore-bulk_delete 1 1 fresh_one root root (request_by root 1) (request_by root 1) sample refl
      refl refl refl refl refl

-- bob's organisation is assigned to the incident that alice leads
abbrev shared : Db
shared = record sample {
  org_assignments =
      record asked { incident = 2; organisation = 20; status = OrgAssignmentStatus.accepted } ∷ [];
}

acting_organisations_lem_example :
    (relation_in 20 (acting_organisations led_one shared) ≡ some assigned)
    × (count (λ e. e.0 == 20) (acting_organisations led_one shared) ≤ 1)
acting_organisations_lem_example = acting_organisations_lem led_one shared 20
