-- ===== src/ActingOrgs.antt =====
-- services/incident_orgs.py: which organisations act on an incident, and on which incidents a user
-- acts. An entry is kept without the name of its organisation.
pub mod Strongest
use mapapi.Prelude.{
  ℕ, Bool, true, false, ◌&&◌, ◌||◌, Option, none, some, List, [], ◌∷◌, ◌++◌, if◌then◌else◌, ltb,
  ◌==◌, refers,
}
use mapapi.Orm.{find, exists, filter, update}
use mapapi.Models.{
  org_of_user, User, Incident, Collaboration, IncidentOrgAssignment, Db, get_user, is_accepted,
  is_assignment_accepted,
}
use mapapi.Permissions.{owner_org}

-- RELATION_LEADER and the others
pub data Relation : Type 0 where
  leader assigned collaborator : Relation

-- `_RANK`
abbrev rank : Relation → ℕ
rank leader = 0
rank assigned = 1
rank collaborator = 2

-- The dictionary `found`, in the order of insertion.
abbrev pub Found : Type 0
Found = List (ℕ × Relation)

-- `found.get(org.id)`
abbrev entry_of : ℕ → Found → Option (ℕ × Relation)
entry_of org found = find (λ e. e.0 == org) found

-- the inner function `add`
unfoldable pub add : Option ℕ → Relation → Found → Found
add none relation found = found
add (some org) relation found = elim (entry_of org found) [
  | none ↦ found ++ (org, relation) ∷ []
  | some existing ↦
      if ltb (rank relation) (rank existing.1)
      then update (λ e. e.0 == org) (λ e. (e.0, relation)) found
      else found
]

-- `for row in rows: add(org_of_row, relation)`
unfoldable pub add_each : {A : Type 0} → (A → Option ℕ) → Relation → List A → Found → Found
add_each org relation [] found = found
add_each org relation (x ∷ xs) found = add_each org relation xs (add (org x) relation found)

-- the assignments, and the collaborations, of an incident that were accepted
abbrev accepted_assignments : Incident → Db → List IncidentOrgAssignment
accepted_assignments i db =
    filter (λ a. a.incident == i.id && is_assignment_accepted a.status) db.org_assignments

abbrev accepted_collaborations : Incident → Db → List Collaboration
accepted_collaborations i db =
    filter (λ c. c.incident == i.id && is_accepted c.status) db.collaborations

-- `taken_by_organisation`
abbrev taken_by_organisation : Incident → Db → Option ℕ
taken_by_organisation i db = owner_org i db

unfoldable pub acting_organisations : Incident → Db → Found
acting_organisations i db =
    add_each (λ c. org_of_user c.user db) collaborator (accepted_collaborations i db)
      (add_each (λ a. some a.organisation) assigned (accepted_assignments i db)
        (add (taken_by_organisation i db) leader []))

-- `org_acting_q` on one incident; `agents` are the agents that are assigned to it
unfoldable pub org_acting : List ℕ → User → Incident → Db → Bool
org_acting agents u i db =
    refers i.taken_by u.id || exists (λ k. k == u.id) agents || elim u.organisation_member [
      | none ↦ false
      | some org ↦
          refers (taken_by_organisation i db) org
          || exists (λ a. a.organisation == org) (accepted_assignments i db)
          || exists (λ c. refers (org_of_user c.user db) org) (accepted_collaborations i db)
    ]
