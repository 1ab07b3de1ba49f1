-- ===== src/FieldWork.antt =====
-- Missions of field agents: IncidentAssignmentListCreateView, IncidentAssignmentDetailView and the
-- field reports of views/incident.py, with their serializers.
pub mod Reporting
use mapapi.Prelude.{
  ℕ, Bool, true, false, not, ◌&&◌, ◌||◌, Option, none, some, List, [], ◌∷◌, ◌++◌, if◌then◌else◌,
  ltb, ◌==◌, refers, same_ref, is_some, given,
}
use mapapi.Orm.{find, exists, filter, update}
use mapapi.Models.{
  User, Incident, Db, get_incident, get_user, is_admin_role, is_bureau_role, is_field_role,
}
use mapapi.Http.{
  Request, Reply, Error, ok, created, not_found, permission_denied, fields_required, invalid_role,
  duplicate, other_organisation, unknown_user, too_far,
}
use mapapi.Permissions.{owner_org}

-- ASSIGNMENT_STATUSES
pub data AssignmentStatus : Type 0 where
  pending in_progress reported cancelled : AssignmentStatus

pub record IncidentAssignment : Type 0 where
  pub id : ℕ
  pub incident : ℕ
  pub agent : ℕ
  pub assigned_by : Option ℕ
  pub deadline : ℕ
  pub status : AssignmentStatus

pub record FieldReport : Type 0 where
  pub agent : ℕ
  pub incident : ℕ
  pub distance_meters : Option ℕ

-- the two tables beside the others
pub record Field : Type 0 where
  pub assignments : List IncidentAssignment
  pub reports : List FieldReport
  pub db : Db

abbrev pub Answer : Type 0
Answer = Reply × Field

abbrev deny : Error → Field → Answer
deny e s = (Reply.refused e, s)

-- `incident.user_id.organisation_member`
abbrev reporter_org : Incident → Db → Option ℕ
reporter_org i db = elim i.user_id [
  | none ↦ none
  | some k ↦ elim (get_user k db) [ none ↦ none | some u ↦ u.organisation_member ]
]

-- `_can_manage_assignment`
unfoldable pub can_manage_assignment : User → Incident → Db → Bool
can_manage_assignment u i db =
    if u.is_staff || u.is_superuser
    then true
    else if not (is_admin_role u.org_role || is_bureau_role u.org_role)
    then false
    else elim u.organisation_member [
      | none ↦ false
      | some org ↦
          refers (reporter_org i db) org
          || refers (owner_org i db) org
          || (i.is_public && not (is_some i.taken_by))
    ]

-- the organisation that an incident is of, for its agents
abbrev incident_owner_org : Incident → Db → Option ℕ
incident_owner_org i db = elim (reporter_org i db) [ none ↦ owner_org i db | some org ↦ some org ]

-- both are there and differ
abbrev differs : Option ℕ → Option ℕ → Bool
differs (some a) (some b) = not (a == b)
differs _ _ = false

-- `IncidentAssignmentSerializer.validate`, with the deadline that the field demands
unfoldable assignment_error : User → Incident → Db → Option Error
assignment_error agent i db =
    if not (is_field_role agent.org_role)
    then some invalid_role
    else if differs agent.organisation_member (incident_owner_org i db)
    then some other_organisation
    else none

abbrev pub is_mission : ℕ → ℕ → IncidentAssignment → Bool
is_mission incident agent a = a.incident == incident && a.agent == agent

-- The body of a request on assignments, `none` for an absent field.
pub record AssignmentData : Type 0 where
  pub incident : Option ℕ
  pub agent : Option ℕ
  pub deadline : Option ℕ
  pub status : Option AssignmentStatus

abbrev stored : Option Error → Field → Answer → Answer
stored none s x = x
stored (some e) s x = deny e s

-- the rest of `create`, from the serializer on; the unique pair is tested before `validate`
unfoldable create_mission : AssignmentData → Request → User → Incident → Field → Answer
create_mission d rq u i s = elim d.agent [
  | none ↦ deny fields_required s
  | some k ↦ elim d.deadline [
    | none ↦ deny fields_required s
    | some deadline ↦ elim (get_user k s.db) [
      | none ↦ deny unknown_user s
      | some agent ↦
          if exists (is_mission i.id agent.id) s.assignments
          then deny duplicate s
          else stored (assignment_error agent i s.db) s (
            created,
            record s {
              assignments =
                  s.assignments
                  ++ record {
                    id = rq.fresh;
                    incident = i.id;
                    agent = agent.id;
                    assigned_by = some u.id;
                    deadline = deadline;
                    status = given d.status AssignmentStatus.pending;
                  }
                    ∷ [];
            },
          )
    ]
  ]
]

-- what the views on assignments and reports begin with: IsAuthenticated
abbrev signed_in : Request → Field → (User → Answer) → Answer
signed_in rq s body = elim rq.user [ none ↦ deny permission_denied s | some u ↦ body u ]

-- `IncidentAssignmentListCreateView.create`
unfoldable create_assignment : ℕ → AssignmentData → Request → Field → Answer
create_assignment incident_id d rq s = signed_in rq s λ u. elim (get_incident incident_id s.db) [
  | none ↦ deny not_found s
  | some i ↦
      if not (can_manage_assignment u i s.db)
      then deny permission_denied s
      else create_mission d rq u i s
]

-- `get_object` of the detail view, with the incident of the row
abbrev pub with_assignment :
    ℕ → ℕ → Request → Field → (IncidentAssignment → Incident → Answer) → Answer
with_assignment incident_id pk rq s body = signed_in rq s λ u.
    elim (find (λ a. a.id == pk && a.incident == incident_id) s.assignments) [
      | none ↦ deny not_found s
      | some a ↦ elim (get_incident a.incident s.db) [
        | none ↦ deny not_found s
        | some i ↦
            if not (can_manage_assignment u i s.db) then deny permission_denied s else body a i
      ]
    ]

abbrev patched : AssignmentData → IncidentAssignment → IncidentAssignment
patched d a = record a {
  incident = given d.incident a.incident;
  agent = given d.agent a.agent;
  deadline = given d.deadline a.deadline;
  status = given d.status a.status;
}

abbrev pub save_assignment : IncidentAssignment → Field → Field
save_assignment a s = record s { assignments = update (λ x. x.id == a.id) (λ _. a) s.assignments }

-- the rest of PATCH, on the row as the body leaves it
unfoldable patch_mission : IncidentAssignment → Field → Answer
patch_mission a s = elim (get_incident a.incident s.db) [
  | none ↦ deny not_found s
  | some i ↦ elim (get_user a.agent s.db) [
    | none ↦ deny unknown_user s
    | some agent ↦
        if exists (λ x. not (x.id == a.id) && is_mission a.incident a.agent x) s.assignments
        then deny duplicate s
        else stored (assignment_error agent i s.db) s (ok, save_assignment a s)
  ]
]

-- PATCH of `IncidentAssignmentDetailView`
unfoldable patch_assignment : ℕ → ℕ → AssignmentData → Request → Field → Answer
patch_assignment incident_id pk d rq s =
    with_assignment incident_id pk rq s λ a i. patch_mission (patched d a) s

-- DELETE of `IncidentAssignmentDetailView`
unfoldable delete_assignment : ℕ → ℕ → Request → Field → Answer
delete_assignment incident_id pk rq s =
    with_assignment incident_id pk rq s
      λ a i. (ok, record s { assignments = filter (λ x. not (x.id == a.id)) s.assignments })

-- `AgentAssignedIncidentsView.get_queryset`
unfoldable assigned_to : User → List IncidentAssignment → List IncidentAssignment
assigned_to u rows = if is_field_role u.org_role then filter (λ a. a.agent == u.id) rows else []

-- the test on the distance, of an agent and an incident with coordinates
abbrev distance_error : Option ℕ → Option Error
distance_error none = none
distance_error (some meters) = if ltb 100 meters then some too_far else none

-- `FieldReportSerializer.validate`; `incident` is what `data` or the row to change has, and
-- `distance` is computed from the coordinates, `none` when one is missing
unfoldable pub report_error : User → Option Incident → Option ℕ → Field → Option Error
report_error agent incident distance s =
    if not (is_field_role agent.org_role) then some invalid_role else elim incident [
      | none ↦ none
      | some i ↦
          if not (exists (is_mission i.id agent.id) s.assignments)
          then some permission_denied
          else distance_error distance
    ]

abbrev pub reported_row : IncidentAssignment → IncidentAssignment
reported_row a = record a { status = AssignmentStatus.reported }

-- the row that `save` writes, with the distance of the body: `validate` replaces it only when it has
-- an incident
abbrev pub report_row : User → Incident → Option ℕ → FieldReport
report_row u i sent = record { agent = u.id; incident = i.id; distance_meters = sent }

-- The rest of `create`, for an agent with the mission: `incident` is a read-only field of the
-- serializer, so `validate` gets none on a creation.
unfoldable pub store_report : User → Incident → Option ℕ → Option ℕ → Field → Answer
store_report u i sent distance s = stored (report_error u none distance s) s (
  created,
  record s {
    reports = s.reports ++ report_row u i sent ∷ [];
    assignments = update (is_mission i.id u.id) reported_row s.assignments;
  },
)

-- `create` of the field reports
unfoldable pub create_report : ℕ → Option ℕ → Option ℕ → Request → Field → Answer
create_report incident_id sent distance rq s = signed_in rq s λ u.
    elim (get_incident incident_id s.db) [
      | none ↦ deny not_found s
      | some i ↦
          if not (is_field_role u.org_role)
          then deny permission_denied s
          else if not (exists (is_mission i.id u.id) s.assignments)
          then deny permission_denied s
          else store_report u i sent distance s
    ]

abbrev agent_org : ℕ → Db → Option ℕ
agent_org k db = elim (get_user k db) [ none ↦ none | some u ↦ u.organisation_member ]

-- `get_queryset` of the field reports, with the incident to filter by
unfoldable readable_reports : Option ℕ → User → Field → List FieldReport
readable_reports incident u s =
    filter (λ r. elim incident [ none ↦ true | some k ↦ r.incident == k ])
      (if u.is_staff || u.is_superuser
        then s.reports
        else if is_field_role u.org_role
        then filter (λ r. r.agent == u.id) s.reports
        else elim u.organisation_member [
          | none ↦ []
          | some org ↦ filter (λ r. same_ref (some org) (agent_org r.agent s.db)) s.reports
        ])
