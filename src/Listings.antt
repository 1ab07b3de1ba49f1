-- ===== src/Listings.antt =====
-- Lists of incidents of views/incident.py: `org_own_work_q`, OrgIncidentsView, the lists of resolved and
-- unresolved incidents, and the map of IncidentFilterView. The order, the pages, the search by text and
-- the filter by country are left out.
pub mod Split
use mapapi.Prelude.{
  ℕ, Bool, true, false, not, ◌&&◌, ◌||◌, Option, none, some, List, [], if◌then◌else◌, leb, ◌-◌,
  ◌==◌, refers,
}
use mapapi.Orm.{exists, filter}
use mapapi.Models.{User, Incident, Db, Etat, is_final, is_in_validation, is_internal, is_field_role}
use mapapi.Permissions.{owner_org}
use mapapi.ActingOrgs.{org_acting}
use mapapi.Impact.{Calendar, Period, month_before, in_period}
use mapapi.Impact

-- `org_own_work_q`: `agents_q`, `user_id__in=agent_ids` with the field agents of an organisation
abbrev pub by_agent : ℕ → Db → Incident → Bool
by_agent org db i =
    exists
      (λ u. refers i.user_id u.id && refers u.organisation_member org && is_field_role u.org_role)
      db.users

-- `org_own_work_q`: `internal_q`
abbrev pub kept_internal : ℕ → Db → Incident → Bool
kept_internal org db i = is_internal i.take_in_charge_mode && refers (owner_org i db) org

unfoldable pub org_own_work : User → Db → Incident → Bool
org_own_work u db i = elim u.organisation_member [
  | none ↦ false
  | some org ↦ kept_internal org db i || by_agent org db i
]

-- OrgIncidentsView writes the two queries a second time: `agents_q`
abbrev pub intervention_by_agent : ℕ → Db → Incident → Bool
intervention_by_agent org db i =
    exists
      (λ u. refers i.user_id u.id && refers u.organisation_member org && is_field_role u.org_role)
      db.users

-- OrgIncidentsView: `internal_q`
abbrev pub internal_intervention : ℕ → Db → Incident → Bool
internal_intervention org db i = is_internal i.take_in_charge_mode && refers (owner_org i db) org

-- `source`, or `internal` by `mode`; any other text is the union
pub data Origin : Type 0 where
  internal agents citizens agents_or_internal : Origin

abbrev from_origin : Origin → ℕ → Db → Incident → Bool
from_origin internal org db i = internal_intervention org db i
from_origin agents org db i = intervention_by_agent org db i
from_origin citizens org db i =
    internal_intervention org db i && not (intervention_by_agent org db i)
from_origin agents_or_internal org db i =
    internal_intervention org db i || intervention_by_agent org db i

-- OrgIncidentsView
unfoldable pub org_incidents : User → Origin → Db → List Incident
org_incidents u o db = elim u.organisation_member [
  | none ↦ []
  | some org ↦ filter (λ i. not i.is_deleted) (filter (from_origin o org db) db.incidents)
]

-- IncidentResolvedAPIListView
unfoldable pub resolved_list : User → Db → List Incident
unfolding org_own_work
resolved_list u db =
    filter (λ i. not i.is_deleted)
      (filter (λ i. not (org_own_work u db i)) (filter (λ i. is_final i.etat) db.incidents))

-- IncidentNotResolvedAPIListView
unfoldable pub unresolved_list : User → Db → List Incident
unfolding org_own_work
unresolved_list u db =
    filter (λ i. not i.is_deleted)
      (filter (λ i. not (org_own_work u db i)) (filter (λ i. not (is_final i.etat)) db.incidents))

-- `scope` of IncidentFilterView
pub data MapScope : Type 0 where
  mine resolved unresolved all : MapScope

-- `etat in resolved_states`
abbrev pub is_resolved_on_map : Etat → Bool
is_resolved_on_map e = is_final e || is_in_validation e

-- the row under the scope; `assigned` gives the agents who are assigned to an incident
unfoldable pub on_map : (ℕ → List ℕ) → Option User → MapScope → Db → Incident → Bool
on_map assigned none mine db i = false
on_map assigned (some u) mine db i = org_acting (assigned i.id) u i db
on_map assigned u resolved db i = is_resolved_on_map i.etat
on_map assigned u unresolved db i = not (is_resolved_on_map i.etat)
on_map assigned u all db i = true

-- the date filter of the map: the months are those of any year
unfoldable pub map_period : Calendar → Period → ℕ → ℕ → Bool
map_period c Period.today now d = d == now
map_period c Period.yesterday now d = d == now - 1
map_period c Period.last_7_days now d = leb (now - 7) d
map_period c Period.last_30_days now d = leb (now - 30) d
map_period c Period.this_month now d = c.month d == c.month now
map_period c Period.last_month now d = c.month d == month_before (c.month now)
map_period c (Period.custom_range start end) now d = leb start d && leb d end
map_period c Period.other now d = true

module _ (c : Calendar) (created : ℕ → ℕ) (assigned : ℕ → List ℕ) where
  -- `get` of IncidentFilterView
  unfoldable pub filter_incidents : Option User → MapScope → Period → ℕ → Db → List Incident
  unfolding on_map map_period
  filter_incidents u scope p now db =
      filter (λ i. map_period c p now (created i.id))
        (filter (λ i. on_map assigned u scope db i) db.incidents)
