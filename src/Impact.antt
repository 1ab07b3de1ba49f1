-- ===== src/Impact.antt =====
-- views/impact.py: what was achieved on the incidents that are resolved, or taken in charge with a task
-- done, in a period. The calendar of the server (UTC) is an argument, a day the number of the day. The
-- mean of the durations, the rate and the area, which are floating-point numbers, are left out.
pub mod Totals
pub mod Periods
pub mod Partition
pub mod Bounds
use mapapi.Prelude.{
  ℕ, ◌-◌, map, Bool, true, false, not, ◌&&◌, ◌||◌, Option, none, some, List, [], ◌∷◌, ◌++◌,
  if◌then◌else◌, ltb, leb, ◌==◌, refers, is_some,
}
use mapapi.Orm.{find, exists, filter, count, length}
use mapapi.Models.{
  org_of_user, User, Incident, Collaboration, Mode, Db, Etat, get_user, is_final, is_declared,
  is_done, is_accepted, is_field_role, is_internal,
}
use mapapi.Permissions.{owner_org}
use mapapi.Roles.{is_super_admin, is_org_admin, is_bureau_agent}
use mapapi.FieldWork.{IncidentAssignment}
use mapapi.Impact.Totals.{Analysis, Figures, figures}

-- the year and the month, from 1 to 12, of a day
pub record Calendar : Type 0 where
  pub year : ℕ → ℕ
  pub month : ℕ → ℕ

-- `filter_type`; the range with both of its days; `other` is absent or unknown
pub data Period : Type 0 where
  today yesterday last_7_days last_30_days this_month last_month other : Period
  custom_range : ℕ → ℕ → Period

-- `now.month - 1 or 12`
abbrev pub month_before : ℕ → ℕ
month_before m = if m - 1 == 0 then 12 else m - 1

-- `now.year if now.month > 1 else now.year - 1`
abbrev year_before : ℕ → ℕ → ℕ
year_before m y = if ltb 1 m then y else y - 1

-- `_apply_period` on a row of the day `d`, on the day `now`
unfoldable pub in_period : Calendar → Period → ℕ → ℕ → Bool
in_period c today now d = d == now
in_period c yesterday now d = d == now - 1
in_period c last_7_days now d = leb (now - 7) d
in_period c last_30_days now d = leb (now - 30) d
in_period c this_month now d = c.year d == c.year now && c.month d == c.month now
in_period c last_month now d =
    c.year d == year_before (c.month now) (c.year now) && c.month d == month_before (c.month now)
in_period c (custom_range start end) now d = leb start d && leb d end
in_period c other now d = true

-- `impact_role`
pub data Role : Type 0 where
  platform no_organisation reserved : Role
  organisation : ℕ → Role

unfoldable pub impact_role : User → Role
impact_role u =
    if is_super_admin (some u)
    then platform
    else if is_org_admin (some u) || is_bureau_agent (some u)
    then elim u.organisation_member [ none ↦ no_organisation | some o ↦ organisation o ]
    else reserved

-- `statut`
pub data Statut : Type 0 where
  resolved taken_action all : Statut

-- what the view reads: the tables, and the day on which each incident was created
pub record Source : Type 0 where
  pub db : Db
  pub analyses : List Analysis
  pub assignments : List IncidentAssignment
  pub created : ℕ → ℕ

-- `id in acted_ids`
abbrev acted : Db → Incident → Bool
acted db i = exists (λ t. t.incident == i.id && is_done t.state) db.tasks

-- `resolved_q` and `taken_action_q`
unfoldable pub in_statut : Db → Statut → Incident → Bool
in_statut db resolved i = is_final i.etat
in_statut db taken_action i = not (is_final i.etat) && is_some i.taken_by && acted db i
in_statut db all i = is_final i.etat || (not (is_final i.etat) && is_some i.taken_by && acted db i)

-- `taken_by__organisation_member=org`, for an organisation
abbrev of_org : Option ℕ → Db → Incident → Bool
of_org none db i = true
of_org (some org) db i = refers (owner_org i db) org

module _ (c : Calendar) (now : ℕ) where
  -- `base` of `impact_scope`
  unfoldable pub impact_base : Source → Option ℕ → Period → List Incident
  impact_base s org p =
      filter (λ i. not i.is_deleted && in_period c p now (s.created i.id) && of_org org s.db i)
        s.db.incidents

  -- `scope` of `impact_scope`
  unfoldable pub impact_scope : Source → Option ℕ → Period → Statut → List Incident
  impact_scope s org p st = filter (in_statut s.db st) (impact_base s org p)

-- `[f(x) for x in xs if f(x)]`
abbrev pub collect {ℓ} : {A : Type ℓ} → (A → Option ℕ) → List A → List ℕ
collect f [] = []
collect f (x ∷ xs) = let rest = collect f xs in elim (f x) [ none ↦ rest | some k ↦ k ∷ rest ]

-- `set(…)`
abbrev pub distinct : List ℕ → List ℕ
distinct [] = []
distinct (x ∷ xs) = let rest = distinct xs in if exists (λ y. y == x) rest then rest else x ∷ rest

-- the days from the creation to the end of the resolution, if that is not earlier
abbrev duration : Source → Incident → Option ℕ
duration s i = elim i.resolution_end_date [
  | none ↦ none
  | some e ↦ if is_final i.etat && leb (s.created i.id) e then some (e - s.created i.id) else none
]

-- a reporter who is not a field agent
abbrev pub citizen : Db → Incident → Option ℕ
citizen db i = elim i.user_id [
  | none ↦ none
  | some k ↦ elim (get_user k db) [
    | none ↦ none
    | some u ↦ if is_field_role u.org_role then none else some k
  ]
]

abbrev pub is_collaborative : Option Mode → Bool
is_collaborative (some Mode.collaborative) = true
is_collaborative _ = false

abbrev among : List Incident → ℕ → Bool
among scope k = exists (λ i. i.id == k) scope

-- the sections for the super admin
pub record Platform : Type 0 where
  pub durations : List ℕ
  pub resolved_total : ℕ
  pub reported_total : ℕ
  pub organisations_involved : ℕ
  pub field_agents_mobilized : ℕ
  pub collaborations_created : ℕ
  pub incidents_collaborative : ℕ
  pub incidents_individual : ℕ
  pub reports_verified : ℕ
  pub reports_led_to_action : ℕ
  pub active_citizens : ℕ

-- the sections from the base and the scope
unfoldable pub platform_of : Source → List Incident → List Incident → Platform
platform_of s base scope =
    let collabs : List Collaboration = filter (λ c. among scope c.incident) s.db.collaborations in
    record {
      durations = collect (duration s) scope;
      resolved_total = count (λ i. is_final i.etat) base;
      reported_total = length base;
      organisations_involved = length (
          distinct (
            collect (λ i. owner_org i s.db) scope
            ++ collect (λ c. org_of_user c.user s.db)
                (filter (λ c. is_accepted c.status) collabs)));
      field_agents_mobilized =
          length
            (distinct (map (λ a. a.agent) (filter (λ a. among scope a.incident) s.assignments)));
      collaborations_created = length collabs;
      incidents_collaborative = count (λ i. is_collaborative i.take_in_charge_mode) scope;
      incidents_individual = count (λ i. is_internal i.take_in_charge_mode) scope;
      reports_verified = count (λ i. not (is_declared i.etat)) base;
      reports_led_to_action = count (acted s.db) base;
      active_citizens = length (distinct (collect (citizen s.db) base));
    }

pub data Reply : Type 0 where
  -- 403
  forbidden : Reply
  impact : Figures → Option Platform → Reply

module _ (c : Calendar) (now : ℕ) where
  -- `get` of ImpactView
  unfoldable pub impact_view : User → Source → Period → Statut → Reply
  impact_view u s p st = elim (impact_role u) [
    | no_organisation ↦ forbidden
    | reserved ↦ forbidden
    | organisation o ↦ impact (figures (impact_scope c now s (some o) p st) s.analyses) none
    | platform ↦
        let scope : List Incident = impact_scope c now s none p st in
        impact (figures scope s.analyses) (some (platform_of s (impact_base c now s none p) scope))
  ]
