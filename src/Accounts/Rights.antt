-- ===== src/Accounts/Rights.antt =====
-- How the right to delete a user relates to the right to edit one, and how long a code lives.
use mapapi.Prelude.{ℕ, ◌+◌, String, ◌≡◌, true, false, ◌||◌, ◌&&◌, some, arith, leb}
use mapapi.Models.{User, is_bureau_role, is_field_role}
use mapapi.Roles.{get_web_role, is_super_admin}
use mapapi.Accounts.{can_edit_user, can_delete_user, generate_otp, is_otp_valid}

-- Who may delete a user may also edit that user, or is an office agent and the user a field agent.
can_delete_covers :
    (actor target : User)
    → can_delete_user actor target ≡ true
    → (can_edit_user actor target
        || (is_bureau_role actor.org_role && is_field_role target.org_role))
      ≡ true
unfolding can_delete_user can_edit_user
can_delete_covers actor target h = ground arith

-- A super admin can be deleted by a super admin only.
super_admin_protected :
    (actor target : User)
    → is_super_admin (some actor) ≡ false
    → is_super_admin (some target) ≡ true
    → can_delete_user actor target ≡ false
unfolding can_delete_user is_super_admin get_web_role
super_admin_protected actor target h t = ground arith

-- A code that is drawn at a time is accepted at any later time up to ten minutes, and at none after
-- that.
pub otp_lifetime :
    (code : String) (now later : ℕ)
    → is_otp_valid later (generate_otp code now) ≡ leb later (now + 600)
unfolding is_otp_valid generate_otp
otp_lifetime code now later = ground arith
