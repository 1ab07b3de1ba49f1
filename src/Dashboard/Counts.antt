-- ===== src/Dashboard/Counts.antt =====
-- The counters against the lists that they stand for.
use mapapi.Prelude.{
  ◌+◌, ◌≡◌, refl, Bool, true, not, ◌&&◌, none, some, List, [], ◌∷◌, arith, inl, inr, Bool-cases,
  Option-cases, sym, refers,
}
use mapapi.Orm.{filter, count, length}
use mapapi.Models.{
  User, Incident, Db, OrgRole, is_final, is_declared, is_admin_role, is_bureau_role, is_field_role,
}
use mapapi.Dashboard.{
  dashboard, is_active_etat, is_agent, has_role, agents_for, agent_list, AgentStats, agent_stats,
  Dashboard,
}
use mapapi.Roles.{is_super_admin}
use mapapi.Listings.{agents_or_internal, org_incidents, resolved_list, unresolved_list}
use mapapi.Listings.Split.{lists_partition}

length-filter : {A : Type 0} (p : A → Bool) (xs : List A) → length (filter p xs) ≡ count p xs
length-filter p [] = refl
length-filter p (x ∷ xs) = ground (arith, length-filter p xs)

etats_add :
    (is : List Incident)
    → length is
      ≡ count is_active_etat is
        + count (λ i. is_final i.etat) is
        + count (λ i. is_declared i.etat) is
etats_add [] = refl
etats_add (i ∷ is) = ground (arith, etats_add is)

count_all : {A : Type 0} (xs : List A) → count (λ x. true) xs ≡ length xs
count_all [] = refl
count_all (x ∷ xs) = ground (arith, count_all xs)

count-not :
    {A : Type 0} (p : A → Bool) (xs : List A)
    → count (λ x. true && not (p x)) xs ≡ length (filter (λ x. not (p x)) xs)
count-not p [] = refl
count-not p (x ∷ xs) = ground (arith, count-not p xs)

-- The total of the dashboard is the number of incidents in the three lists of whoever looks, and that of
-- the active, the resolved and the declared ones.
pub dashboard_total :
    (u : User) (db : Db)
    → let d : Dashboard = dashboard db in
      (d.total_alerts
        ≡ length (org_incidents u agents_or_internal db)
          + length (resolved_list u db)
          + length (unresolved_list u db))
      × (d.total_alerts
          ≡ d.active_responses
            + d.resolved_incidents
            + count (λ i. is_declared i.etat) (filter (λ i. not i.is_deleted) db.incidents))
unfolding dashboard
dashboard_total u db = (
  omega (
    arith,
    lists_partition (λ i. true) u db,
    count-not (λ i. i.is_deleted) db.incidents,
    count_all (org_incidents u agents_or_internal db),
    count_all (resolved_list u db),
    count_all (unresolved_list u db),
  ),
  etats_add (filter (λ i. not i.is_deleted) db.incidents),
)

-- The roles of a list of agents add up.
abbrev Roles : List User → Type 0
Roles us =
    length us
    ≡ count (λ u. is_admin_role u.org_role) us
      + count (λ u. is_bureau_role u.org_role) us
      + count (λ u. is_field_role u.org_role) us

filter-Roles : (p : User → Bool) (us : List User) → Roles (filter p (filter is_agent us))
filter-Roles p [] = refl
filter-Roles p (u ∷ us) = ground (arith, filter-Roles p us)

agents-Roles : (us : List User) → Roles (filter is_agent us)
agents-Roles [] = refl
agents-Roles (u ∷ us) = ground (arith, agents-Roles us)

agents_for-Roles : (viewer : User) (db : Db) → Roles (agents_for viewer db)
unfolding agents_for
agents_for-Roles viewer db = elim (Bool-cases (is_super_admin (some viewer))) [
  | inl e ↦ rw e (agents-Roles db.users)
  | inr e ↦ elim (Option-cases viewer.organisation_member) [
    | inl f ↦ rw (e, f) refl
    | inr w ↦ rw (e, w.1) (filter-Roles (λ u. refers u.organisation_member w.0) db.users)
  ]
]

-- Each counter of agents is the length of the list of agents under the filter that it stands for, with
-- the same scope, and the three roles add up to the total.
pub agent_stats_lem :
    (viewer : User) (db : Db)
    → let s : AgentStats = agent_stats viewer db in
      (s.total ≡ length (agent_list viewer none none db))
      × (s.active ≡ length (agent_list viewer none (some true) db))
      × (s.admins ≡ length (agent_list viewer (some OrgRole.org_admin) none db))
      × (s.bureau_agents ≡ length (agent_list viewer (some OrgRole.bureau_agent) none db))
      × (s.field_agents ≡ length (agent_list viewer (some OrgRole.field_agent) none db))
      × (s.total ≡ s.admins + s.bureau_agents + s.field_agents)
unfolding agent_stats agent_list
agent_stats_lem viewer db =
    let of : (p : User → Bool)
        → count p (agents_for viewer db) ≡ length (filter p (agents_for viewer db)) =
      λ p. sym (length-filter p (agents_for viewer db)) in
    (
      refl,
      of (λ u. u.is_active),
      of (has_role OrgRole.org_admin),
      of (has_role OrgRole.bureau_agent),
      of (has_role OrgRole.field_agent),
      agents_for-Roles viewer db,
    )
