-- ===== src/Accounts.antt =====
-- Accounts: who may edit or delete a user, of views/user.py, and the one-time code of models.py.
pub mod Rights
use mapapi.Prelude.{
  ℕ, ◌+◌, ◌-◌, String, Bool, true, false, not, ◌&&◌, ◌||◌, Option, none, some, if◌then◌else◌, ltb,
  same_ref, ◌==◌,
}
use mapapi.Models.{User, is_bureau_role, is_field_role}
use mapapi.Roles.{is_super_admin, is_org_admin}

-- `_can_edit_user`
unfoldable pub can_edit_user : User → User → Bool
can_edit_user actor target =
    if is_super_admin (some actor)
    then true
    else if actor.id == target.id
    then true
    else same_ref actor.organisation_member target.organisation_member
      && is_org_admin (some actor)
      && not target.is_superuser

-- `_can_delete_user`
unfoldable pub can_delete_user : User → User → Bool
can_delete_user actor target =
    if is_super_admin (some actor)
    then true
    else if target.is_superuser
    then false
    else if not (same_ref actor.organisation_member target.organisation_member)
    then false
    else if is_org_admin (some actor)
    then true
    else if is_bureau_role actor.org_role
    then is_field_role target.org_role
    else false

-- the fields `otp` and `otp_expiration` of a user
pub record OneTimeCode : Type 0 where
  pub otp : Option String
  pub otp_expiration : Option ℕ

-- `generate_otp`, with the code that was drawn; five minutes are 300 seconds
unfoldable pub generate_otp : String → ℕ → OneTimeCode
generate_otp code now = record { otp = some code; otp_expiration = some (now + 300) }

-- `is_otp_valid`; before the expiration the difference is not positive, and 0 here
unfoldable pub is_otp_valid : ℕ → OneTimeCode → Bool
is_otp_valid now c = elim c.otp [
  | none ↦ false
  | some code ↦ elim c.otp_expiration [
    | none ↦ false
    | some expiration ↦ if ltb 300 (now - expiration) then false else true
  ]
]
