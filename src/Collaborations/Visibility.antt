-- ===== src/Collaborations/Visibility.antt =====
-- The tabs of the lists of collaborations, and who may read and write one.
use mapapi.Prelude.{◌≡◌, true, false, ◌&&◌, ◌||◌, some, arith}
use mapapi.Models.{User, Collaboration, Db}
use mapapi.Roles.{is_super_admin, get_web_role}
use mapapi.Collaborations.{Scope, self, received, everything, in_scope, readable, writable}

-- For a user who is not a super admin, the tabs `self` and `received` share no collaboration and
-- make up the whole list.
scope_partition :
    (u : User) (db : Db) (c : Collaboration)
    → is_super_admin (some u) ≡ false
    → (in_scope u everything db c ≡ (in_scope u self db c || in_scope u received db c))
      × ((in_scope u self db c && in_scope u received db c) ≡ false)
unfolding in_scope
scope_partition u db c h = (ground arith, ground arith)

-- A user who is not of the staff may read every collaboration that the user may write or finds
-- in one of the tabs.
readable_covers :
    (u : User) (s : Scope) (db : Db) (c : Collaboration)
    → u.is_staff ≡ false
    → (writable u db c || in_scope u s db c) ≡ true
    → readable u db c ≡ true
unfolding in_scope readable writable is_super_admin get_web_role
readable_covers u s db c staff h = ground arith
