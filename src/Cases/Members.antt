-- ===== src/Cases/Members.antt =====
-- The members of an organisation at concrete values.
use mapapi.Prelude.{◌≡◌, refl, true}
use mapapi.Roles.{get_web_role, is_super_admin}
use mapapi.Cases.Sample.{alice, sample, request_by}
use mapapi.Members.Others.{DistinctUsers}
use mapapi.Members.LastAdmin.{has_admin, delete, apply_member, apply_member-has_admin}

pub sample-DistinctUsers : DistinctUsers sample.users
sample-DistinctUsers = (refl, (refl, (refl, tt)))

apply_member-has_admin_example :
    has_admin 10 (apply_member 10 1 delete (request_by alice 1) sample).1 ≡ true
unfolding is_super_admin get_web_role
apply_member-has_admin_example =
    apply_member-has_admin 10 1 10 delete (request_by alice 1) sample sample-DistinctUsers refl refl
