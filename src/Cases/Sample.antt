-- ===== src/Cases/Sample.antt =====
-- A database with an incident in each situation that the cases need.
use mapapi.Prelude.{refl, ℕ, true, false, Option, none, some, [], ◌∷◌}
use mapapi.Models.{
  User, Incident, Collaboration, IncidentTask, IncidentOrgAssignment, Db, Etat, collaborative,
  CollabRole, leader, contributor, CollabStatus, TaskState, OrgRole, OrgAssignmentStatus,
}
use mapapi.Http.{Request}
use mapapi.Beat.Loop.{Distinct}

abbrev member : ℕ → ℕ → User
member k org = record {
  id = k;
  email = some k;
  phone = some k;
  is_active = true;
  is_staff = false;
  is_superuser = false;
  organisation_member = some org;
  org_role = some OrgRole.org_admin;
  agent_code = none;
  pin_code = none;
  must_change_pin = false;
}

abbrev pub alice : User
alice = member 1 10

abbrev pub bob : User
bob = member 2 20

abbrev pub root : User
root = record {
  id = 9;
  email = some 9;
  phone = some 9;
  is_active = true;
  is_staff = true;
  is_superuser = true;
  organisation_member = none;
  org_role = none;
  agent_code = none;
  pin_code = none;
  must_change_pin = false;
}

abbrev pub incident_in : ℕ → Etat → Option ℕ → Incident
incident_in k e by = record {
  id = k;
  user_id = none;
  etat = e;
  taken_by = by;
  take_in_charge_mode = none;
  resolution_start_date = none;
  resolution_end_date = none;
  progress = 0;
  is_public = true;
  is_deleted = false;
  deleted_at = none;
  taken_in_charge_at = none;
  severity = none;
  antigel_warned_75 = false;
  antigel_warned_90 = false;
  resolution_submitted_by = none;
  resolution_submitted_at = none;
  validation_deadline = none;
  rejection_reason = none;
}

-- 1 is declared, 2 taken by alice with others, 3 closed, 4 in validation, 5 in the trash
abbrev pub fresh_one : Incident
fresh_one = incident_in 1 Etat.declared none

abbrev pub led_one : Incident
led_one = record (incident_in 2 Etat.taken (some 1)) {
  take_in_charge_mode = some collaborative;
  taken_in_charge_at = some 0;
}

abbrev pub closed_one : Incident
closed_one = incident_in 3 Etat.resolved (some 1)

abbrev pub waiting_one : Incident
waiting_one = record (incident_in 4 Etat.in_validation (some 1)) { validation_deadline = some 10 }

abbrev pub trashed_one : Incident
trashed_one = record (incident_in 5 Etat.declared none) { is_deleted = true; deleted_at = some 0 }

abbrev pub collaboration_of : ℕ → ℕ → CollabRole → CollabStatus → Collaboration
collaboration_of k user role status = record {
  id = k;
  incident = 2;
  user = user;
  end_date = none;
  status = status;
  role = role;
}

abbrev pub led_by_alice : Collaboration
led_by_alice = collaboration_of 31 1 leader CollabStatus.accepted

abbrev pub asked_by_bob : Collaboration
asked_by_bob = collaboration_of 32 2 contributor CollabStatus.pending

abbrev pub repair : IncidentTask
repair = record {
  id = 41;
  incident = 2;
  start_date = 1;
  end_date = 2;
  state = TaskState.pending;
  proof_image = none;
  proof_video = none;
  failure_reason = none;
  created_by = 1;
  is_confirmed = true;
}

abbrev pub assigned : IncidentOrgAssignment
assigned = record {
  id = 51;
  incident = 1;
  organisation = 10;
  assigned_by = some 9;
  status = OrgAssignmentStatus.pending;
  decline_reason = none;
  deadline = 100;
  responded_at = none;
}

abbrev pub sample : Db
sample = record {
  organisations = 10 ∷ 20 ∷ [];
  users = alice ∷ bob ∷ root ∷ [];
  incidents = fresh_one ∷ led_one ∷ closed_one ∷ waiting_one ∷ trashed_one ∷ [];
  collaborations = led_by_alice ∷ asked_by_bob ∷ [];
  tasks = repair ∷ [];
  org_assignments = assigned ∷ [];
  suggestions = [];
  notifications = [];
  user_actions = [];
}

abbrev pub request_by : User → ℕ → Request
request_by u k = record {
  user = some u;
  safe = false;
  incident_id = some k;
  now = 1000;
  fresh = 77;
  broker_up = true;
}

pub sample-Distinct : Distinct sample.incidents
sample-Distinct = (refl, (refl, (refl, (refl, (refl, tt)))))
