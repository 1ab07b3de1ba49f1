-- ===== src/Members.antt =====
-- Members of an organisation: OrganisationMemberDetailView and OrganisationMemberCreateView of
-- views/organisation.py.
pub mod Others
pub mod LastAdmin
use mapapi.Prelude.{
  ℕ, Bool, true, false, not, ◌&&◌, ◌||◌, Option, none, some, List, [], ◌∷◌, ◌++◌, if◌then◌else◌,
  ◌==◌, refers, is_some, given,
}
use mapapi.Orm.{find, exists, filter, update, count}
use mapapi.Models.{User, Notification, OrgRole, Db, is_admin_role, is_field_role, get_user}
use mapapi.Http.{
  Request, Error, ok, created, invalid_role, bureau_limits, permission_denied, fields_required,
  not_found, last_admin, duplicate,
}
use mapapi.Roles.{is_super_admin, is_org_admin, is_bureau_agent}
use mapapi.Permissions.{is_authenticated}
use mapapi.Views.{Outcome, refuse, as_user}
use mapapi.Beat.{delete_incident, for_each}

-- `member.save()` on a row that was loaded in the same request
unfoldable pub save_user : User → Db → Db
save_user u db = record db { users = update (λ x. x.id == u.id) (λ _. u) db.users }

-- an active administrator of an organisation
abbrev is_active_admin : ℕ → User → Bool
is_active_admin org u = refers u.organisation_member org && is_admin_role u.org_role && u.is_active

-- `_active_admin_count`, with the user that it leaves out
unfoldable pub active_admin_count : ℕ → ℕ → Db → ℕ
active_admin_count org exclude_user_id db =
    count (λ u. not (u.id == exclude_user_id) && is_active_admin org u) db.users

-- `OrganisationMemberDetailView._check_permission`
unfoldable pub check_permission : ℕ → User → Bool
check_permission pk u =
    is_super_admin (some u) || (refers u.organisation_member pk && is_org_admin (some u))

-- `is_bureau_same_org`
abbrev is_bureau_same_org : ℕ → User → Bool
is_bureau_same_org pk u = is_bureau_agent (some u) && refers u.organisation_member pk

-- `User.objects.get(pk=user_id, organisation_member_id=pk)`
abbrev get_member : ℕ → ℕ → Db → Option User
get_member pk user_id db = find (λ u. u.id == user_id && refers u.organisation_member pk) db.users

-- `email == other` for addresses, where `none` is the empty one
abbrev pub same_email : Option ℕ → Option ℕ → Bool
same_email none none = true
same_email (some a) (some b) = a == b
same_email _ _ = false

-- a field agent with a number
abbrev pub is_agent_at : ℕ → User → Bool
is_agent_at phone u = refers u.phone phone && is_field_role u.org_role

-- The body of PATCH: an absent field is `none`; a blank address or number, and a role that is none
-- of the three, is `some none`. Names are left out.
pub record MemberPatch : Type 0 where
  pub email : Option (Option ℕ)
  pub phone : Option (Option ℕ)
  pub org_role : Option (Option OrgRole)

abbrev email_taken : ℕ → Option (Option ℕ) → Db → Bool
email_taken user_id none db = false
email_taken user_id (some e) db =
    exists (λ u. not (u.id == user_id) && same_email u.email e) db.users

abbrev phone_taken : ℕ → Option (Option ℕ) → Db → Bool
phone_taken user_id (some (some n)) db =
    exists (λ u. not (u.id == user_id) && is_agent_at n u) db.users
phone_taken user_id _ db = false

abbrev edited : MemberPatch → User → User
edited p m = record m { email = given p.email m.email; phone = given p.phone m.phone }

-- the role of the body is another one than field agent
abbrev asks_other_role : Option (Option OrgRole) → Bool
asks_other_role none = false
asks_other_role (some r) = not (is_field_role r)

-- `member.org_role = new_role`, with an agent code for a field agent without one
abbrev with_role : OrgRole → ℕ → User → User
with_role r code m = record m {
  org_role = some r;
  agent_code =
      if is_field_role (some r) && not (is_some m.agent_code) then some code else m.agent_code;
}

-- what joining an organisation sets on a user; `code` and `pin_hash` are what `generate_agent_code`
-- and `generate_and_set_pin` store
abbrev joined : ℕ → OrgRole → ℕ → ℕ → User → User
joined pk r code pin_hash m =
    let needs_pin = is_field_role (some r) && not (is_some m.pin_code) in
    record (with_role r code m) {
      organisation_member = some pk;
      pin_code = if needs_pin then some pin_hash else m.pin_code;
      must_change_pin = if needs_pin then true else m.must_change_pin;
    }

-- the rest of POST, from the fields of the body on
unfoldable pub add_found : ℕ → Option ℕ → Option (Option OrgRole) → ℕ → ℕ → Db → Outcome
add_found pk (some k) (some none) code pin_hash db = refuse invalid_role db
add_found pk (some k) (some (some r)) code pin_hash db = elim (get_user k db) [
  | none ↦ refuse not_found db
  | some m ↦ (created, save_user (joined pk r code pin_hash m) db)
]
add_found pk _ _ code pin_hash db = refuse fields_required db

-- `OrganisationMemberCreateView.post`; a role that is none of the three is `some none`
unfoldable pub add_member : ℕ → Option ℕ → Option (Option OrgRole) → ℕ → ℕ → Request → Db → Outcome
add_member pk user_id role code pin_hash rq db = as_user (is_authenticated ∷ []) rq db λ u.
    if not (check_permission pk u)
    then refuse permission_denied db
    else if not (exists (λ o. o == pk) db.organisations)
    then refuse not_found db
    else add_found pk user_id role code pin_hash db

-- `member` is the only active administrator of the organisation, and `user` is not a super admin
abbrev is_last_admin : ℕ → User → User → Db → Bool
unfolding active_admin_count
is_last_admin pk u m db =
    not (is_super_admin (some u))
    && is_admin_role m.org_role
    && m.is_active
    && active_admin_count pk m.id db == 0

-- the end of PATCH, from `new_role` on; `code` is what `generate_agent_code` comes to
unfoldable patch_role : ℕ → User → User → MemberPatch → ℕ → Option (Option OrgRole) → Db → Outcome
patch_role pk u m p code none db = (ok, save_user (edited p m) db)
patch_role pk u m p code (some none) db = refuse invalid_role db
patch_role pk u m p code (some (some r)) db =
    if not (is_admin_role (some r)) && is_last_admin pk u m db
    then refuse last_admin db
    else (ok, save_user (with_role r code (edited p m)) db)

-- the rest of PATCH, on the member that was found
unfoldable patch_found : ℕ → User → User → MemberPatch → ℕ → Db → Outcome
patch_found pk u m p code db =
    if is_bureau_same_org pk u
      && not (check_permission pk u)
      && (not (is_field_role m.org_role) || asks_other_role p.org_role)
    then refuse bureau_limits db
    else if email_taken m.id p.email db || phone_taken m.id p.phone db
    then refuse duplicate db
    else patch_role pk u m p code p.org_role db

-- what PATCH and DELETE begin with
abbrev with_member : ℕ → ℕ → User → Db → (User → Outcome) → Outcome
with_member pk user_id u db body =
    if not (check_permission pk u) && not (is_bureau_same_org pk u)
    then refuse permission_denied db
    else elim (get_member pk user_id db) [ none ↦ refuse not_found db | some m ↦ body m ]

-- `OrganisationMemberDetailView.patch`
unfoldable patch_member : ℕ → ℕ → MemberPatch → ℕ → Request → Db → Outcome
patch_member pk user_id p code rq db =
    as_user (is_authenticated ∷ []) rq db
      λ u. with_member pk user_id u db λ m. patch_found pk u m p code db

-- a notification about a collaboration of a user
abbrev about_collaboration_of : ℕ → Db → Notification → Bool
about_collaboration_of k db n = elim n.colaboration [
  | none ↦ false
  | some x ↦ exists (λ c. c.id == x && c.user == k) db.collaborations
]

-- what SET_NULL leaves of a foreign key to a deleted row
abbrev unset : ℕ → Option ℕ → Option ℕ
unset k x = if refers x k then none else x

-- `user.delete()`, with the rows that cascade or lose their reference
unfoldable pub delete_user : ℕ → Db → Db
delete_user k db =
    let rest =
      for_each (λ i. delete_incident i.id) (filter (λ i. refers i.user_id k) db.incidents) db in
    record rest {
      users = filter (λ u. not (u.id == k)) rest.users;
      incidents =
          update (λ _. true)
            (λ i. record i {
              taken_by = unset k i.taken_by;
              resolution_submitted_by = unset k i.resolution_submitted_by;
            })
            rest.incidents;
      collaborations = filter (λ c. not (c.user == k)) rest.collaborations;
      tasks = filter (λ t. not (t.created_by == k)) rest.tasks;
      org_assignments =
          update (λ _. true) (λ a. record a { assigned_by = unset k a.assigned_by })
            rest.org_assignments;
      suggestions =
          filter (λ s. not (s.suggested_by == k) && not (s.suggested_partner == k))
            rest.suggestions;
      notifications =
          filter (λ n. not (n.user == k) && not (about_collaboration_of k rest n))
            rest.notifications;
      user_actions = filter (λ a. not (a == k)) rest.user_actions;
    }

-- the rest of DELETE, on the member that was found
unfoldable delete_found : ℕ → User → User → Db → Outcome
delete_found pk u m db =
    if is_bureau_same_org pk u && not (check_permission pk u) && not (is_field_role m.org_role)
    then refuse bureau_limits db
    else if is_last_admin pk u m db
    then refuse last_admin db
    else (ok, delete_user m.id db)

-- `OrganisationMemberDetailView.delete`
unfoldable delete_member : ℕ → ℕ → Request → Db → Outcome
delete_member pk user_id rq db =
    as_user (is_authenticated ∷ []) rq db
      λ u. with_member pk user_id u db λ m. delete_found pk u m db
