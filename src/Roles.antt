-- ===== src/Roles.antt =====
-- roles.py: the web role of a user.
use mapapi.Prelude.{Bool, true, false, Option, none, some, if◌then◌else◌}
use mapapi.Models.{User, OrgRole}

pub data WebRole : Type 0 where
  super_admin org_admin bureau_agent field_agent : WebRole

-- an org_role as the string that it is
abbrev to_web_role : Option OrgRole → Option WebRole
to_web_role none = none
to_web_role (some OrgRole.org_admin) = some WebRole.org_admin
to_web_role (some OrgRole.bureau_agent) = some WebRole.bureau_agent
to_web_role (some OrgRole.field_agent) = some WebRole.field_agent

unfoldable pub get_web_role : Option User → Option WebRole
get_web_role none = none
get_web_role (some u) = if u.is_superuser then some super_admin else to_web_role u.org_role

unfoldable pub is_super_admin : Option User → Bool
unfolding get_web_role
is_super_admin u = elim (get_web_role u) [
  | none ↦ false
  | some r ↦ elim r [ super_admin ↦ true | _ ↦ false ]
]

unfoldable pub is_org_admin : Option User → Bool
unfolding get_web_role
is_org_admin u = elim (get_web_role u) [
  | none ↦ false
  | some r ↦ elim r [ WebRole.org_admin ↦ true | _ ↦ false ]
]

unfoldable pub is_bureau_agent : Option User → Bool
unfolding get_web_role
is_bureau_agent u = elim (get_web_role u) [
  | none ↦ false
  | some r ↦ elim r [ WebRole.bureau_agent ↦ true | _ ↦ false ]
]

unfoldable pub has_web_access : Option User → Bool
unfolding get_web_role
has_web_access u = elim (get_web_role u) [
  | none ↦ false
  | some r ↦ elim r [ WebRole.field_agent ↦ false | _ ↦ true ]
]
