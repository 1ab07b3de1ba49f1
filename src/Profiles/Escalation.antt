-- ===== src/Profiles/Escalation.antt =====
-- What the serializers of the accounts let a request take.
use mapapi.Prelude.{ℕ, ◌≡◌, Bool, true, ◌&&◌, none, some, List, [], ◌∷◌, ◌++◌, arith, refers, ◌==◌}
use mapapi.Orm.{find, exists, update}
use mapapi.Models.{User, OrgRole, Db, get_user}
use mapapi.Http.{Request}
use mapapi.Roles.{is_super_admin, is_org_admin, get_web_role}
use mapapi.Accounts.{can_edit_user}
use mapapi.Members.{save_user}
use mapapi.Permissions.{permitted, has_permission}
use mapapi.Profiles.{
  ProfilePatch, empty_patch, put_user, edited_profile, profile_error, SignUpData, create_user,
  signed_up, sign_up_error,
}

-- a body that sets the flag only
abbrev pub as_superuser : ProfilePatch
as_superuser = record empty_patch { is_superuser = some true }

find-saved :
    (y : User) (us : List User) {u : User}
    → find (λ x. x.id == y.id) us ≡ some u
    → find (λ x. x.id == y.id) (update (λ x. x.id == y.id) (λ _. y) us) ≡ some y
find-saved y [] h = cc
find-saved y (x ∷ us) {u} h = ground (arith, find-saved y us {u = u})

-- Any user who is signed in makes himself a super admin with a PUT of his own account.
pub put_user_escalates :
    (rq : Request) (db : Db) {u : User}
    → rq.user ≡ some u
    → get_user u.id db ≡ some u
    → is_super_admin (get_user u.id (put_user u.id as_superuser rq db).1) ≡ true
unfolding put_user profile_error can_edit_user save_user is_super_admin get_web_role permitted
    has_permission
put_user_escalates rq db {u} me mine =
    ground (arith, me, mine, find-saved (edited_profile as_superuser u) db.users mine)

-- the members of an organisation that administer it
abbrev pub administers : ℕ → User → Bool
administers org u = refers u.organisation_member org && is_org_admin (some u)

exists-new :
    (p : User → Bool) (us : List User) (u : User) → p u ≡ true → exists p (us ++ u ∷ []) ≡ true
exists-new p [] u h = ground (arith, h)
exists-new p (x ∷ us) u h = ground (arith, exists-new p us u h)

-- A sign-up that the serializer accepts makes its account an administrator of any organisation that
-- it names, whoever sends it.
create_user-administers :
    (d : SignUpData) (org : ℕ) (rq : Request) (db : Db)
    → sign_up_error d db ≡ none
    → d.org_role ≡ some (some OrgRole.org_admin)
    → d.organisation_member ≡ some org
    → exists (λ u. u.id == rq.fresh && administers org u) (create_user d rq db).1.users ≡ true
unfolding create_user is_org_admin get_web_role
create_user-administers d org rq db valid role at =
    let new : User = signed_up rq.fresh d (some OrgRole.org_admin) in
    ground (
      arith,
      valid,
      role,
      exists-new (λ u. u.id == rq.fresh && administers org u) db.users new (ground (arith, at)),
    )
