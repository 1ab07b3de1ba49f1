-- ===== src/Profiles.antt =====
-- The accounts as views/user.py edits them: user_api_view and POST of UserAPIListView, with
-- UserPutSerializer and UserSerializer. The columns of the table User are those of Models; passwords
-- are in SignIn.
pub mod Escalation
use mapapi.Prelude.{
  ℕ, Bool, true, false, not, ◌&&◌, ◌||◌, Option, none, some, List, [], ◌∷◌, ◌++◌, if◌then◌else◌,
  ◌==◌, given, refers, is_some,
}
use mapapi.Orm.{find, exists}
use mapapi.Models.{User, OrgRole, Db, get_user}
use mapapi.Http.{
  Request, Error, ok, created, permission_denied, not_found, duplicate, unknown_organisation,
  invalid_role, fields_required, server_error,
}
use mapapi.Accounts.{can_edit_user, can_delete_user}
use mapapi.Members.{save_user, delete_user}
use mapapi.Permissions.{is_authenticated}
use mapapi.Views.{Outcome, refuse, as_user}

-- The body of PUT, `none` for an absent field and `some none` for null; UserPutSerializer leaves out
-- the secrets only.
pub record ProfilePatch : Type 0 where
  pub email : Option ℕ
  pub phone : Option (Option ℕ)
  pub is_active : Option Bool
  pub is_staff : Option Bool
  pub is_superuser : Option Bool
  pub organisation_member : Option (Option ℕ)
  pub org_role : Option (Option OrgRole)
  pub agent_code : Option (Option ℕ)
  pub must_change_pin : Option Bool

abbrev pub empty_patch : ProfilePatch
empty_patch = record {
  email = none;
  phone = none;
  is_active = none;
  is_staff = none;
  is_superuser = none;
  organisation_member = none;
  org_role = none;
  agent_code = none;
  must_change_pin = none;
}

abbrev pub edited_profile : ProfilePatch → User → User
edited_profile p u = record u {
  email = elim p.email [ none ↦ u.email | some e ↦ some e ];
  phone = given p.phone u.phone;
  is_active = given p.is_active u.is_active;
  is_staff = given p.is_staff u.is_staff;
  is_superuser = given p.is_superuser u.is_superuser;
  organisation_member = given p.organisation_member u.organisation_member;
  org_role = given p.org_role u.org_role;
  agent_code = given p.agent_code u.agent_code;
  must_change_pin = given p.must_change_pin u.must_change_pin;
}

-- whether another user has a unique value
abbrev taken_by_other : ℕ → (User → Option ℕ) → Option ℕ → Db → Bool
taken_by_other k field none db = false
taken_by_other k field (some x) db = exists (λ u. not (u.id == k) && refers (field u) x) db.users

abbrev knows_organisation : Option ℕ → Db → Bool
knows_organisation none db = true
knows_organisation (some o) db = exists (λ x. x == o) db.organisations

-- `UserPutSerializer(item, data=…, partial=True).is_valid()`
unfoldable pub profile_error : ℕ → ProfilePatch → Db → Option Error
profile_error k p db =
    if taken_by_other k (λ u. u.email) p.email db
      || taken_by_other k (λ u. u.agent_code) (given p.agent_code none) db
    then some duplicate
    else if not (knows_organisation (given p.organisation_member none) db)
    then some unknown_organisation
    else none

-- PUT of `user_api_view`
unfoldable pub put_user : ℕ → ProfilePatch → Request → Db → Outcome
put_user pk p rq db = as_user (is_authenticated ∷ []) rq db λ actor. elim (get_user pk db) [
  | none ↦ refuse not_found db
  | some item ↦
      if not (can_edit_user actor item)
      then refuse permission_denied db
      else elim (profile_error item.id p db) [
        | some e ↦ refuse e db
        | none ↦ (ok, save_user (edited_profile p item) db)
      ]
]

-- DELETE of `user_api_view`
unfoldable remove_user : ℕ → Request → Db → Outcome
remove_user pk rq db = as_user (is_authenticated ∷ []) rq db λ actor. elim (get_user pk db) [
  | none ↦ refuse not_found db
  | some item ↦
      if not (can_delete_user actor item)
      then refuse permission_denied db
      else (ok, delete_user item.id db)
]

-- The body of POST: UserSerializer leaves out the secrets, the flags and the permissions.
pub record SignUpData : Type 0 where
  pub email : Option ℕ
  -- whether both names and a password are there
  pub names : Bool
  pub phone : Option ℕ
  pub organisation_member : Option ℕ
  -- `some none` is a role that is none of the three
  pub org_role : Option (Option OrgRole)
  pub agent_code : Option ℕ
  pub must_change_pin : Bool
  -- whether a `user_type` is given
  pub user_type : Bool

abbrev pub signed_up : ℕ → SignUpData → Option OrgRole → User
signed_up id d role = record {
  id = id;
  email = d.email;
  phone = d.phone;
  is_active = true;
  is_staff = false;
  is_superuser = false;
  organisation_member = d.organisation_member;
  org_role = role;
  agent_code = d.agent_code;
  pin_code = none;
  must_change_pin = d.must_change_pin;
}

abbrev has_value : (User → Option ℕ) → Option ℕ → Db → Bool
has_value field none db = false
has_value field (some x) db = exists (λ u. refers (field u) x) db.users

-- the role of the body, or why there is none
abbrev role_of : Option (Option OrgRole) → Option (Option OrgRole)
role_of none = some none
role_of (some none) = none
role_of (some (some r)) = some (some r)

-- `UserSerializer(data=data).is_valid()`, apart from the role
unfoldable pub sign_up_error : SignUpData → Db → Option Error
sign_up_error d db =
    if not (is_some d.email && d.names)
    then some fields_required
    else if has_value (λ u. u.email) d.email db || has_value (λ u. u.agent_code) d.agent_code db
    then some duplicate
    else if not (knows_organisation d.organisation_member db)
    then some unknown_organisation
    else none

-- POST of `UserAPIListView`, which anybody may send; the user is saved before the e-mail is queued
unfoldable pub create_user : SignUpData → Request → Db → Outcome
create_user d rq db = elim (sign_up_error d db) [
  | some e ↦ refuse e db
  | none ↦ elim (role_of d.org_role) [
    | none ↦ refuse invalid_role db
    | some role ↦
        let db' : Db = record db { users = db.users ++ signed_up rq.fresh d role ∷ [] } in
        if d.user_type && not rq.broker_up then refuse server_error db' else (created, db')
  ]
]
