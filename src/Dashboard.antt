-- ===== src/Dashboard.antt =====
-- The counters of the dashboards: IncidentDashboardStatsView of views/incident.py, and
-- OrganisationStatsView, AgentListView and AgentStatsView of views/organisation.py. The groups by
-- zone and by category, the recent activity and the search by text are left out.
pub mod Shares
pub mod Counts
use mapapi.Prelude.{
  same_flag, ℕ, ◌+◌, ◌-◌, Bool, true, false, not, ◌&&◌, ◌||◌, Option, none, some, List, [],
  if◌then◌else◌, ◌==◌, refers, is_some,
}
use mapapi.Orm.{filter, count, length}
use mapapi.Models.{
  User, Incident, Db, Severity, OrgRole, high, medium, low, is_final, is_taken, is_prepared,
  is_in_validation, is_in_progress, is_admin_role, is_bureau_role, is_field_role,
}
use mapapi.Permissions.{owner_org}
use mapapi.Roles.{is_super_admin}
use mapapi.Tasks.{percent}

abbrev pub has_severity : Severity → Incident → Bool
has_severity high i = elim i.severity [ some high ↦ true | _ ↦ false ]
has_severity medium i = elim i.severity [ some medium ↦ true | _ ↦ false ]
has_severity low i = elim i.severity [ some low ↦ true | _ ↦ false ]

-- the states of `active`
abbrev pub is_active_etat : Incident → Bool
is_active_etat i =
    is_taken i.etat || is_prepared i.etat || is_in_validation i.etat || is_in_progress i.etat

pub record Dashboard : Type 0 where
  pub total_alerts : ℕ
  pub active_responses : ℕ
  pub resolved_incidents : ℕ
  -- `count` and `percentage` of `by_severity`
  pub severity_count : Severity → ℕ
  pub severity_percentage : Severity → ℕ

-- `sev_total`
abbrev pub severity_total : List Incident → ℕ
severity_total qs =
    let n : ℕ =
      count (has_severity high) qs + count (has_severity medium) qs + count (has_severity low) qs in
    if n == 0 then 1 else n

-- `get` of IncidentDashboardStatsView
unfoldable pub dashboard : Db → Dashboard
dashboard db =
    let qs : List Incident = filter (λ i. not i.is_deleted) db.incidents in
    record {
      total_alerts = length qs;
      active_responses = count is_active_etat qs;
      resolved_incidents = count (λ i. is_final i.etat) qs;
      severity_count = λ l. count (has_severity l) qs;
      severity_percentage = λ l. percent (count (has_severity l) qs) (severity_total qs);
    }

-- `org_role__in=_AGENT_ROLES`
abbrev pub is_agent : User → Bool
is_agent u = is_some u.org_role

-- the scope that the list and the counters of agents share
unfoldable pub agents_for : User → Db → List User
agents_for viewer db =
    let agents : List User = filter is_agent db.users in
    if is_super_admin (some viewer) then agents else elim viewer.organisation_member [
      | none ↦ []
      | some org ↦ filter (λ u. refers u.organisation_member org) agents
    ]

abbrev pub has_role : OrgRole → User → Bool
has_role OrgRole.org_admin u = is_admin_role u.org_role
has_role OrgRole.bureau_agent u = is_bureau_role u.org_role
has_role OrgRole.field_agent u = is_field_role u.org_role

abbrev with_role : Option OrgRole → List User → List User
with_role none us = us
with_role (some r) us = filter (has_role r) us

abbrev with_status : Option Bool → List User → List User
with_status none us = us
with_status (some b) us = filter (λ u. same_flag b u.is_active) us

-- AgentListView, with `role` and whether `status` is one of the texts for active
unfoldable pub agent_list : User → Option OrgRole → Option Bool → Db → List User
unfolding agents_for
agent_list viewer role statut db = with_status statut (with_role role (agents_for viewer db))

pub record AgentStats : Type 0 where
  pub total : ℕ
  pub active : ℕ
  pub admins : ℕ
  pub bureau_agents : ℕ
  pub field_agents : ℕ

-- AgentStatsView
unfoldable pub agent_stats : User → Db → AgentStats
unfolding agents_for
agent_stats viewer db =
    let agents : List User = agents_for viewer db in
    record {
      total = length agents;
      active = count (λ u. u.is_active) agents;
      admins = count (λ u. is_admin_role u.org_role) agents;
      bureau_agents = count (λ u. is_bureau_role u.org_role) agents;
      field_agents = count (λ u. is_field_role u.org_role) agents;
    }
