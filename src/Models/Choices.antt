-- ===== src/Models/Choices.antt =====
-- The `choices` of models.py, with the tests that the views make on them.
use mapapi.Prelude.{Bool, true, false, Option, some}

-- ETAT_INCIDENT; `taken` is TAKEN, 'taken_into_account'
pub data Etat : Type 0 where
  declared resolved in_progress taken resolution_prepared in_validation resolved_definitive : Etat

-- Incident.TAKE_IN_CHARGE_MODES
pub data Mode : Type 0 where
  internal collaborative : Mode

-- SEVERITY_CHOICES
pub data Severity : Type 0 where
  high medium low : Severity

-- COLLAB_ROLES
pub data CollabRole : Type 0 where
  leader contributor observer : CollabRole

-- COLLAB_STATUSES
pub data CollabStatus : Type 0 where
  pending accepted declined terminated refused : CollabStatus

-- TASK_STATES
pub data TaskState : Type 0 where
  pending in_progress done failed : TaskState

-- ORG_ROLES
pub data OrgRole : Type 0 where
  org_admin bureau_agent field_agent : OrgRole

-- ORG_ASSIGNMENT_STATUSES
pub data OrgAssignmentStatus : Type 0 where
  pending accepted declined : OrgAssignmentStatus

-- SUGGESTION_STATUSES
pub data SuggestionStatus : Type 0 where
  pending accepted rejected : SuggestionStatus

abbrev pub is_declared : Etat → Bool
is_declared declared = true
is_declared _ = false

abbrev pub is_taken : Etat → Bool
is_taken taken = true
is_taken _ = false

abbrev pub is_in_progress : Etat → Bool
is_in_progress in_progress = true
is_in_progress _ = false

abbrev pub is_prepared : Etat → Bool
is_prepared resolution_prepared = true
is_prepared _ = false

abbrev pub is_in_validation : Etat → Bool
is_in_validation in_validation = true
is_in_validation _ = false

-- `etat in (RESOLVED, RESOLVED_DEFINITIVE)`
abbrev pub is_final : Etat → Bool
is_final resolved = true
is_final resolved_definitive = true
is_final _ = false

-- `etat == RESOLVED`
abbrev pub is_closed : Etat → Bool
is_closed resolved = true
is_closed _ = false

abbrev pub is_internal : Option Mode → Bool
is_internal (some internal) = true
is_internal _ = false

abbrev pub is_leader : CollabRole → Bool
is_leader leader = true
is_leader _ = false

abbrev pub is_contributor : CollabRole → Bool
is_contributor contributor = true
is_contributor _ = false

abbrev pub is_observer : CollabRole → Bool
is_observer observer = true
is_observer _ = false

abbrev pub is_accepted : CollabStatus → Bool
is_accepted CollabStatus.accepted = true
is_accepted _ = false

abbrev pub is_pending : CollabStatus → Bool
is_pending CollabStatus.pending = true
is_pending _ = false

abbrev pub is_done : TaskState → Bool
is_done done = true
is_done _ = false

abbrev pub is_failed : TaskState → Bool
is_failed failed = true
is_failed _ = false

abbrev pub is_assignment_accepted : OrgAssignmentStatus → Bool
is_assignment_accepted OrgAssignmentStatus.accepted = true
is_assignment_accepted _ = false

abbrev pub is_unanswered : OrgAssignmentStatus → Bool
is_unanswered OrgAssignmentStatus.pending = true
is_unanswered _ = false

abbrev pub is_open : SuggestionStatus → Bool
is_open SuggestionStatus.pending = true
is_open _ = false

abbrev pub is_admin_role : Option OrgRole → Bool
is_admin_role (some org_admin) = true
is_admin_role _ = false

abbrev pub is_bureau_role : Option OrgRole → Bool
is_bureau_role (some bureau_agent) = true
is_bureau_role _ = false

abbrev pub is_field_role : Option OrgRole → Bool
is_field_role (some field_agent) = true
is_field_role _ = false
