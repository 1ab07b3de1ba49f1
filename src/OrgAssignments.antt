-- ===== src/OrgAssignments.antt =====
-- The assignment of an incident to an organisation: AssignIncidentToOrganisationView,
-- AcceptOrgAssignmentView, DeclineOrgAssignmentView and `engage_incident` of views/incident.py.
pub mod Pending
pub mod Answers
use mapapi.Prelude.{
  ℕ, ◌+◌, String, Bool, true, false, not, ◌&&◌, Option, none, some, List, [], ◌∷◌, ◌++◌, map,
  if◌then◌else◌, same_ref, refers, ◌==◌,
}
use mapapi.Orm.{find, filter, update, exists}
use mapapi.Models.{
  User, Incident, IncidentOrgAssignment, Notification, Db, Etat, OrgAssignmentStatus,
  incident_assignment, is_declared, is_unanswered, is_admin_role, get_incident, save_incident,
}
use mapapi.Http.{
  Request, ok, created, not_found, unknown_organisation, already_assigned, other_organisation,
  already_answered,
}
use mapapi.Permissions.{is_authenticated, super_admin_role, org_admin_role}
use mapapi.Views.{Outcome, refuse, as_user, with_incident}
use mapapi.Incidents.Resolution.{hours_72}

abbrev pub engaged_row : Request → User → Incident → Incident
engaged_row rq leader i = record i {
  etat = Etat.taken;
  taken_by = some leader.id;
  taken_in_charge_at = some rq.now;
  antigel_warned_75 = false;
  antigel_warned_90 = false;
}

-- an incident that is not declared stays as it is
unfoldable pub engage_incident : Request → Incident → User → Db → Db
engage_incident rq i leader db =
    if is_declared i.etat then save_incident (engaged_row rq leader i) db else db

-- `IncidentOrgAssignment.objects.filter(incident=…, status=ORG_ASSIGNMENT_PENDING)`
abbrev pub is_pending_on : ℕ → IncidentOrgAssignment → Bool
is_pending_on k a = a.incident == k && is_unanswered a.status

-- the notifications for the administrators of an organisation
abbrev pub assignment_notices : ℕ → Incident → Db → List Notification
assignment_notices org i db =
    map
      (λ u. record {
        user = u.id;
        notif_type = incident_assignment;
        colaboration = none;
        incident = some i.id;
      })
      (filter (λ u. refers u.organisation_member org && is_admin_role u.org_role) db.users)

abbrev pub new_assignment : Request → User → Incident → ℕ → IncidentOrgAssignment
new_assignment rq u i org = record {
  id = rq.fresh;
  incident = i.id;
  organisation = org;
  assigned_by = some u.id;
  status = OrgAssignmentStatus.pending;
  decline_reason = none;
  deadline = rq.now + hours_72;
  responded_at = none;
}

-- an organisation of the table, or else the 400 of the view
abbrev pub get_organisation : Option ℕ → Db → Option ℕ
get_organisation none db = none
get_organisation (some k) db = find (λ o. o == k) db.organisations

unfoldable pub assign_incident : Option ℕ → Request → Db → Outcome
assign_incident organisation_id rq db =
    as_user (is_authenticated ∷ super_admin_role ∷ []) rq db λ u. with_incident rq db λ i.
      elim (get_organisation organisation_id db) [
        | none ↦ refuse unknown_organisation db
        | some org ↦
            if exists (is_pending_on i.id) db.org_assignments then refuse already_assigned db else (
              created,
              record db {
                org_assignments = db.org_assignments ++ new_assignment rq u i org ∷ [];
                notifications = db.notifications ++ assignment_notices org i db;
              },
            )
      ]

-- the assignment in the URL, and what both answers to it begin with
abbrev pub with_assignment : ℕ → Request → Db → (User → IncidentOrgAssignment → Outcome) → Outcome
with_assignment pk rq db body = as_user (is_authenticated ∷ org_admin_role ∷ []) rq db λ u.
    elim (find (λ a. a.id == pk) db.org_assignments) [
      | none ↦ refuse not_found db
      | some a ↦
          if not (refers u.organisation_member a.organisation)
          then refuse other_organisation db
          else if not (is_unanswered a.status)
          then refuse already_answered db
          else body u a
    ]

-- `assignment.save(…)`
abbrev pub save_assignment : IncidentOrgAssignment → Db → Db
save_assignment a db = record db {
  org_assignments = update (λ b. b.id == a.id) (λ _. a) db.org_assignments;
}

abbrev pub accepted_row : Request → IncidentOrgAssignment → IncidentOrgAssignment
accepted_row rq a = record a { status = OrgAssignmentStatus.accepted; responded_at = some rq.now }

unfoldable pub accept_assignment : ℕ → Request → Db → Outcome
accept_assignment pk rq db = with_assignment pk rq db λ u a.
    let db' : Db = save_assignment (accepted_row rq a) db in
    elim (get_incident a.incident db) [
      | none ↦ (ok, db')
      | some i ↦ (ok, engage_incident rq i u db')
    ]

abbrev pub declined_row : Request → Option String → IncidentOrgAssignment → IncidentOrgAssignment
declined_row rq reason a = record a {
  status = OrgAssignmentStatus.declined;
  decline_reason = reason;
  responded_at = some rq.now;
}

-- the reason comes stripped, `none` when it is empty
unfoldable pub decline_assignment : Option String → ℕ → Request → Db → Outcome
decline_assignment reason pk rq db =
    with_assignment pk rq db λ u a. (ok, save_assignment (declined_row rq reason a) db)
