-- ===== src/Permissions.antt =====
-- permissions.py: the permission classes of the incident workflow. The theorems are in Permissions/Order.
pub mod Order
use mapapi.Prelude.{
  ℕ, Bool, true, false, not, ◌&&◌, ◌||◌, Option, none, some, List, [], ◌∷◌, if◌then◌else◌, is_some,
  refers, same_ref,
}
use mapapi.Orm.{find, exists}
use mapapi.Models.{
  User, Incident, Collaboration, Db, get_incident, get_user, is_pair, is_internal, is_leader,
  is_contributor, is_accepted,
}
use mapapi.Http.{Request}
use mapapi.Roles.{is_super_admin, is_org_admin, is_bureau_agent}

-- `getattr(incident.taken_by, 'organisation_member_id', None)`
abbrev pub owner_org : Incident → Db → Option ℕ
owner_org i db = elim i.taken_by [
  | none ↦ none
  | some k ↦ elim (get_user k db) [ none ↦ none | some owner ↦ owner.organisation_member ]
]

unfoldable pub is_internal_org_member : Incident → User → Db → Bool
is_internal_org_member i u db =
    is_internal i.take_in_charge_mode && same_ref (owner_org i db) u.organisation_member

-- the collaborations of a user on an incident that are accepted and pass a further test
unfoldable pub has_accepted : (Collaboration → Bool) → Incident → User → Db → Bool
has_accepted p i u db =
    exists (λ c. is_pair i.id u.id c && is_accepted c.status && p c) db.collaborations

-- The leader: by an accepted collaboration of that role, or by having taken the incident.
unfoldable pub leads : Incident → User → Db → Bool
leads i u db = has_accepted (λ c. is_leader c.role) i u db || refers i.taken_by u.id

unfoldable pub collaborates : Incident → User → Db → Bool
collaborates i u db =
    refers i.taken_by u.id || is_internal_org_member i u db || has_accepted (λ _. true) i u db

unfoldable pub contributes : Incident → User → Db → Bool
contributes i u db =
    is_internal_org_member i u db || has_accepted (λ c. is_contributor c.role) i u db

-- the leader or a contributor; a leader counts here only as `taken_by`
unfoldable pub leads_or_contributes : Incident → User → Db → Bool
leads_or_contributes i u db = refers i.taken_by u.id || contributes i u db

-- `_get_incident_from_view`
abbrev pub incident_of_view : Request → Db → Option Incident
incident_of_view rq db = elim rq.incident_id [ none ↦ none | some pk ↦ get_incident pk db ]

-- What the classes on an incident share: nobody anonymous, a super admin always, and without an
-- incident in the URL the decision is left to the object.
abbrev pub on_incident : (Incident → User → Db → Bool) → Request → Db → Bool
on_incident test rq db = elim rq.user [
  | none ↦ false
  | some u ↦
      if is_super_admin (some u)
      then true
      else elim (incident_of_view rq db) [ none ↦ true | some i ↦ test i u db ]
]

unfoldable pub incident_leader : Request → Db → Bool
incident_leader = on_incident leads

unfoldable pub incident_collaborator : Request → Db → Bool
incident_collaborator = on_incident collaborates

unfoldable pub incident_contributor : Request → Db → Bool
incident_contributor rq db =
    if rq.safe then incident_collaborator rq db else on_incident contributes rq db

unfoldable pub incident_leader_or_contributor : Request → Db → Bool
incident_leader_or_contributor rq db =
    if rq.safe then incident_collaborator rq db else on_incident leads_or_contributes rq db

unfoldable pub leader_or_read_only : Request → Db → Bool
leader_or_read_only rq db = if rq.safe then incident_collaborator rq db else incident_leader rq db

-- The classes, by name; `IsSuperAdmin` tests the flag and `IsSuperAdminRole` the web role.
pub data Permission : Type 0 where
  is_authenticated incident_leader_class incident_collaborator_class : Permission
  incident_contributor_class leader_or_contributor_class leader_or_read_only_class : Permission
  superuser super_admin_role org_admin_role agent_bureau_role org_operative : Permission

unfoldable pub has_permission : Permission → Request → Db → Bool
has_permission is_authenticated rq db = is_some rq.user
has_permission incident_leader_class rq db = incident_leader rq db
has_permission incident_collaborator_class rq db = incident_collaborator rq db
has_permission incident_contributor_class rq db = incident_contributor rq db
has_permission leader_or_contributor_class rq db = incident_leader_or_contributor rq db
has_permission leader_or_read_only_class rq db = leader_or_read_only rq db
has_permission superuser rq db = elim rq.user [ none ↦ false | some u ↦ u.is_superuser ]
has_permission super_admin_role rq db = is_super_admin rq.user
has_permission org_admin_role rq db = is_org_admin rq.user
has_permission agent_bureau_role rq db = is_bureau_agent rq.user
has_permission org_operative rq db = is_org_admin rq.user || is_bureau_agent rq.user

-- `permission_classes = [IsAuthenticated, …]`: every class of a view is asked.
unfoldable pub permitted : List Permission → Request → Db → Bool
permitted [] rq db = true
permitted (p ∷ ps) rq db = has_permission p rq db && permitted ps rq db
