-- ===== src/Models/Rows.antt =====
-- The tables, and `Incident.save`.
use mapapi.Prelude.{ℕ, String, Bool, Option, none, some, List, if◌then◌else◌, ◌==◌, ◌&&◌}
use mapapi.Models.Choices.{
  Etat, Mode, Severity, CollabRole, CollabStatus, TaskState, OrgRole, OrgAssignmentStatus,
  SuggestionStatus, is_final,
}
use mapapi.Orm.{find, update}

pub record User : Type 0 where
  pub id : ℕ
  -- addresses, numbers and codes are only compared; `none` is an empty or missing one
  pub email : Option ℕ
  pub phone : Option ℕ
  pub is_active : Bool
  pub is_staff : Bool
  pub is_superuser : Bool
  pub organisation_member : Option ℕ
  pub org_role : Option OrgRole
  pub agent_code : Option ℕ
  -- a hash
  pub pin_code : Option ℕ
  pub must_change_pin : Bool

pub record Incident : Type 0 where
  pub id : ℕ
  pub user_id : Option ℕ
  pub etat : Etat
  pub taken_by : Option ℕ
  pub take_in_charge_mode : Option Mode
  pub resolution_start_date : Option ℕ
  pub resolution_end_date : Option ℕ
  pub progress : ℕ
  pub is_public : Bool
  pub is_deleted : Bool
  pub deleted_at : Option ℕ
  pub taken_in_charge_at : Option ℕ
  pub severity : Option Severity
  pub antigel_warned_75 : Bool
  pub antigel_warned_90 : Bool
  pub resolution_submitted_by : Option ℕ
  pub resolution_submitted_at : Option ℕ
  pub validation_deadline : Option ℕ
  pub rejection_reason : Option String

pub record Collaboration : Type 0 where
  pub id : ℕ
  pub incident : ℕ
  pub user : ℕ
  pub end_date : Option ℕ
  pub status : CollabStatus
  pub role : CollabRole

pub record IncidentTask : Type 0 where
  pub id : ℕ
  pub incident : ℕ
  pub start_date : ℕ
  pub end_date : ℕ
  pub state : TaskState
  -- a name of a stored file, `none` for an empty field
  pub proof_image : Option String
  pub proof_video : Option String
  pub failure_reason : Option String
  pub created_by : ℕ
  pub is_confirmed : Bool

pub record IncidentOrgAssignment : Type 0 where
  pub id : ℕ
  pub incident : ℕ
  pub organisation : ℕ
  pub assigned_by : Option ℕ
  pub status : OrgAssignmentStatus
  pub decline_reason : Option String
  pub deadline : ℕ
  pub responded_at : Option ℕ

pub record PartnerSuggestion : Type 0 where
  pub id : ℕ
  pub incident : ℕ
  pub suggested_by : ℕ
  pub suggested_partner : ℕ
  pub suggested_role : CollabRole
  pub status : SuggestionStatus

-- `notif_type` of a notification
pub data NotifType : Type 0 where
  collaboration_request collaboration_declined incident_report incident_assignment : NotifType
  deadline_warning : NotifType

pub record Notification : Type 0 where
  pub user : ℕ
  pub notif_type : NotifType
  pub colaboration : Option ℕ
  pub incident : Option ℕ

pub record Db : Type 0 where
  -- the keys of the table Organisation
  pub organisations : List ℕ
  pub users : List User
  pub incidents : List Incident
  pub collaborations : List Collaboration
  pub tasks : List IncidentTask
  pub org_assignments : List IncidentOrgAssignment
  pub suggestions : List PartnerSuggestion
  pub notifications : List Notification
  -- the users of the rows of UserAction, whose text is left out
  pub user_actions : List ℕ

-- `Incident.objects.get(pk=pk)`
abbrev pub get_incident : ℕ → Db → Option Incident
get_incident pk db = find (λ i. i.id == pk) db.incidents

-- `User.objects.get(pk=pk)`, and the row behind a foreign key to User
abbrev pub get_user : ℕ → Db → Option User
get_user pk db = find (λ u. u.id == pk) db.users

-- `user.organisation_member` behind a key
abbrev pub org_of_user : ℕ → Db → Option ℕ
org_of_user k db = elim (get_user k db) [ none ↦ none | some u ↦ u.organisation_member ]

abbrev pub get_collaboration : ℕ → Db → Option Collaboration
get_collaboration pk db = find (λ c. c.id == pk) db.collaborations

-- `Collaboration.objects.filter(incident=…, user=…)`
abbrev pub is_pair : ℕ → ℕ → Collaboration → Bool
is_pair incident user c = c.incident == incident && c.user == user

-- the first statements of `Incident.save`: what is resolved is at 100 %
unfoldable pub settle : Incident → Incident
settle i = if is_final i.etat then record i { progress = 100 } else i

-- `incident.save()` on a row that was loaded in the same request
unfoldable pub save_incident : Incident → Db → Db
unfolding settle
save_incident i db = record db {
  incidents = update (λ j. j.id == i.id) (λ _. settle i) db.incidents;
}
