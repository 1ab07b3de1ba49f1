-- ===== src/Members/LastAdmin.antt =====
-- The rule on the last active administrator, over the requests to OrganisationMemberDetailView and
-- OrganisationMemberCreateView.
use mapapi.Prelude.{
  ℕ, ◌≡◌, refl, Bool, true, false, not, ◌&&◌, none, some, List, [], ◌∷◌, arith, inl, inr, ◌==◌,
  Option, refers, Bool-cases, Option-cases, subst, sym, ==→eq, ◌⊎◌, ◌∙◌,
}
use mapapi.Orm.{find, find-sat, exists, filter}
use mapapi.Beat.{for_each, delete_incident}
use mapapi.Models.{Incident, User, Db, is_admin_role}
use mapapi.Http.{Request, Reply, ok, created}
use mapapi.Views.{Outcome, as_user}
use mapapi.Permissions.{is_authenticated, has_permission, permitted}
use mapapi.Members.{
  is_active_admin, save_user, get_member, is_last_admin, active_admin_count, delete_user,
  delete_found, patch_role, patch_found, patch_member, delete_member, with_member, MemberPatch,
  edited, with_role, add_member, add_found, joined, check_permission,
}
use mapapi.Models.{OrgRole, get_user}
use mapapi.Roles.{is_super_admin}
use mapapi.Members.Others.{
  DistinctUsers, other, other-found, exists-update, exists-delete, exists-replaced, count-other,
  exists-no_other,
}

-- the organisation has an active administrator
abbrev pub has_admin : ℕ → Db → Bool
has_admin org db = exists (is_active_admin org) db.users

left_of : {a b : Bool} → (a ≡ true) ⊎ (b ≡ true) → a ≡ false → b ≡ true
left_of (inl y) n = cc
left_of (inr o) n = o

-- the invariant of a request: it leaves an administrator to every organisation that had one
abbrev KeepsAdmin : Db → Outcome → Type 0
KeepsAdmin db o = (org : ℕ) → has_admin org db ≡ true → has_admin org o.1 ≡ true

same_key :
    (pk k : ℕ) (us : List User) {m : User}
    → find (λ u. u.id == k && refers u.organisation_member pk) us ≡ some m
    → k ≡ m.id
same_key pk k us {m} h = sym (
    ==→eq m.id k
      (ground (arith, find-sat (λ u. u.id == k && refers u.organisation_member pk) us h)))

-- Somebody else is left, if the row that was found does not count or another one does.
other-left :
    (pk k org : ℕ) (m : User) (db : Db)
    → DistinctUsers db.users
    → get_member pk k db ≡ some m
    → (is_active_admin org m ≡ true → other (is_active_admin org) m.id db.users ≡ true)
    → has_admin org db ≡ true
    → other (is_active_admin org) m.id db.users ≡ true
other-left pk k org m db d found step h = elim (Bool-cases (is_active_admin org m)) [
  | inl t ↦ step t
  | inr f ↦
      other-found (is_active_admin org) m.id (λ u. refers u.organisation_member pk) db.users d
        (subst (λ x. find (λ u. u.id == x && refers u.organisation_member pk) db.users ≡ some m)
          (same_key pk k db.users found) found)
        f h
]

-- A found member may be replaced by a row that counts as before, or when somebody else counts.
KeepsAdmin-save :
    (pk k : ℕ) (m v : User) (db : Db)
    → DistinctUsers db.users
    → get_member pk k db ≡ some m
    → v.id ≡ m.id
    → ((org : ℕ)
        → is_active_admin org m ≡ true
        → (is_active_admin org v ≡ true) ⊎ (other (is_active_admin org) m.id db.users ≡ true))
    → (r : Reply) → KeepsAdmin db (r, save_user v db)
unfolding save_user
KeepsAdmin-save pk k m v db d found same step r org h = elim (Bool-cases (is_active_admin org v)) [
  | inl y ↦
      exists-replaced (is_active_admin org) v.id (λ u. refers u.organisation_member pk) v db.users
        (subst (λ x. find (λ u. u.id == x && refers u.organisation_member pk) db.users ≡ some m)
          (same_key pk k db.users found ∙ sym same) found)
        y
  | inr n ↦ exists-update (is_active_admin org) v.id v db.users (
      subst (λ x. other (is_active_admin org) x db.users ≡ true) (sym same)
        (other-left pk k org m db d found (λ t. left_of (step org t) n) h))
]

refers_once : (x : Option ℕ) (j k : ℕ) → refers x j ≡ true → refers x k ≡ true → j ≡ k
refers_once none j k h i = cc
refers_once (some x) j k h i = sym (==→eq x j h) ∙ ==→eq x k i

same_org :
    (pk k org : ℕ) (us : List User) {m : User}
    → find (λ u. u.id == k && refers u.organisation_member pk) us ≡ some m
    → is_active_admin org m ≡ true
    → pk ≡ org
same_org pk k org us {m} h t =
    refers_once m.organisation_member pk org
      (ground (arith, find-sat (λ u. u.id == k && refers u.organisation_member pk) us h))
      (ground (arith, t))

-- The guard on the last administrator lets pass only when another one is left.
guard-other :
    (pk k org : ℕ) (u m : User) (db : Db)
    → get_member pk k db ≡ some m
    → is_super_admin (some u) ≡ false
    → is_last_admin pk u m db ≡ false
    → is_active_admin org m ≡ true
    → other (is_active_admin org) m.id db.users ≡ true
unfolding active_admin_count
guard-other pk k org u m db found s g t =
    subst (λ o. other (is_active_admin o) m.id db.users ≡ true) (same_org pk k org db.users found t)
      (count-other (is_active_admin pk) m.id db.users (ground (arith, s, g, t)))

users-delete_each :
    (is : List Incident) (db : Db) → (for_each (λ i. delete_incident i.id) is db).users ≡ db.users
unfolding for_each delete_incident
users-delete_each [] db = refl
users-delete_each (i ∷ is) db = users-delete_each is (delete_incident i.id db)

KeepsAdmin-delete :
    (pk k : ℕ) (m : User) (db : Db)
    → DistinctUsers db.users
    → get_member pk k db ≡ some m
    → ((org : ℕ) → is_active_admin org m ≡ true → other (is_active_admin org) m.id db.users ≡ true)
    → (r : Reply) → KeepsAdmin db (r, delete_user m.id db)
unfolding delete_user
KeepsAdmin-delete pk k m db d found step r org h =
    rw (users-delete_each (filter (λ i. refers i.user_id m.id) db.incidents) db) (
      exists-delete (is_active_admin org) m.id db.users
        (other-left pk k org m db d found (step org) h))

patch_role-KeepsAdmin :
    (pk k : ℕ) (u m : User) (p : MemberPatch) (code : ℕ) (r : Option (Option OrgRole)) (db : Db)
    → DistinctUsers db.users
    → get_member pk k db ≡ some m
    → is_super_admin (some u) ≡ false
    → KeepsAdmin db (patch_role pk u m p code r db)
unfolding patch_role
patch_role-KeepsAdmin pk k u m p code none db d found s =
    KeepsAdmin-save pk k m (edited p m) db d found refl (λ org t. inl t) ok
patch_role-KeepsAdmin pk k u m p code (some none) db d found s = λ org h. h
patch_role-KeepsAdmin pk k u m p code (some (some r)) db d found s =
    elim (Bool-cases (not (is_admin_role (some r)) && is_last_admin pk u m db)) [
      | inl g ↦ rw g (λ org h. h)
      | inr g ↦ rw g (
          KeepsAdmin-save pk k m (with_role r code (edited p m)) db d found refl
            (λ org t. elim (Bool-cases (is_admin_role (some r))) [
              | inl a ↦ inl (ground (arith, a, t))
              | inr n ↦ inr (guard-other pk k org u m db found s (ground (arith, g, n)) t)
            ])
            ok)
    ]

patch_found-KeepsAdmin :
    (pk k : ℕ) (u m : User) (p : MemberPatch) (code : ℕ) (db : Db)
    → DistinctUsers db.users
    → get_member pk k db ≡ some m
    → is_super_admin (some u) ≡ false
    → KeepsAdmin db (patch_found pk u m p code db)
unfolding patch_found
patch_found-KeepsAdmin pk k u m p code db d found s =
    λ org h. ground (arith, h, patch_role-KeepsAdmin pk k u m p code p.org_role db d found s org h)

with_member-KeepsAdmin :
    (pk k : ℕ) (u : User) (db : Db) (body : User → Outcome)
    → ((m : User) → get_member pk k db ≡ some m → KeepsAdmin db (body m))
    → KeepsAdmin db (with_member pk k u db body)
with_member-KeepsAdmin pk k u db body step = λ org h. elim (Option-cases (get_member pk k db)) [
  | inl e ↦ ground (arith, h, e)
  | inr (m, e) ↦ ground (arith, h, e, step m e org h)
]

delete_found-KeepsAdmin :
    (pk k : ℕ) (u m : User) (db : Db)
    → DistinctUsers db.users
    → get_member pk k db ≡ some m
    → is_super_admin (some u) ≡ false
    → KeepsAdmin db (delete_found pk u m db)
unfolding delete_found
delete_found-KeepsAdmin pk k u m db d found s = elim (Bool-cases (is_last_admin pk u m db)) [
  | inl g ↦ λ org h. ground (arith, h, g)
  | inr g ↦ λ org h. ground (
    arith,
    h,
    g,
    KeepsAdmin-delete pk k m db d found (λ o t. guard-other pk k o u m db found s g t) ok org h,
  )
]

as_user-KeepsAdmin :
    (rq : Request) (db : Db) (body : User → Outcome)
    → is_super_admin rq.user ≡ false
    → ((u : User) → is_super_admin (some u) ≡ false → KeepsAdmin db (body u))
    → KeepsAdmin db (as_user (is_authenticated ∷ []) rq db body)
as_user-KeepsAdmin rq db body s step = λ org h. elim (Option-cases rq.user) [
  | inl e ↦ ground (arith, h, e)
  | inr (u, e) ↦ ground (arith, h, e, step u (rw e at s) org h)
]

-- A request to change or delete a member.
pub data MemberRequest : Type 0 where
  patch : MemberPatch → ℕ → MemberRequest
  delete : MemberRequest

unfoldable pub apply_member : ℕ → ℕ → MemberRequest → Request → Db → Outcome
apply_member pk user_id (patch p code) rq db = patch_member pk user_id p code rq db
apply_member pk user_id delete rq db = delete_member pk user_id rq db

member-KeepsAdmin :
    (pk user_id : ℕ) (x : MemberRequest) (rq : Request) (db : Db)
    → DistinctUsers db.users
    → is_super_admin rq.user ≡ false
    → KeepsAdmin db (apply_member pk user_id x rq db)
unfolding apply_member patch_member delete_member
member-KeepsAdmin pk user_id (patch p code) rq db d s =
    as_user-KeepsAdmin rq db (λ u. with_member pk user_id u db λ m. patch_found pk u m p code db) s
      λ u t.
        with_member-KeepsAdmin pk user_id u db (λ m. patch_found pk u m p code db)
          λ m e. patch_found-KeepsAdmin pk user_id u m p code db d e t
member-KeepsAdmin pk user_id delete rq db d s =
    as_user-KeepsAdmin rq db (λ u. with_member pk user_id u db λ m. delete_found pk u m db) s
      λ u t.
        with_member-KeepsAdmin pk user_id u db (λ m. delete_found pk u m db)
          λ m e. delete_found-KeepsAdmin pk user_id u m db d e t

-- When no two users share a key, a request to change or delete a member that does not come from a
-- super admin leaves an active administrator to every organisation that had one.
pub apply_member-has_admin :
    (pk user_id org : ℕ) (x : MemberRequest) (rq : Request) (db : Db)
    → DistinctUsers db.users
    → is_super_admin rq.user ≡ false
    → has_admin org db ≡ true
    → has_admin org (apply_member pk user_id x rq db).1 ≡ true
apply_member-has_admin pk user_id org x rq db d s = member-KeepsAdmin pk user_id x rq db d s org

-- An administrator who adds himself again, in another role, leaves the organisation without one
-- when he is its only active one: OrganisationMemberCreateView does not make the test of PATCH.
add_member_locks_out :
    (pk code pin_hash : ℕ) (r : OrgRole) (u : User) (rq : Request) (db : Db)
    → rq.user ≡ some u
    → get_user u.id db ≡ some u
    → exists (λ o. o == pk) db.organisations ≡ true
    → check_permission pk u ≡ true
    → is_active_admin pk u ≡ true
    → active_admin_count pk u.id db ≡ 0
    → is_admin_role (some r) ≡ false
    → has_admin pk (add_member pk (some u.id) (some (some r)) code pin_hash rq db).1 ≡ false
unfolding add_member add_found save_user active_admin_count has_permission permitted
add_member_locks_out pk code pin_hash r u rq db me here org may active alone other_role =
    let added : add_found pk (some u.id) (some (some r)) code pin_hash db
        ≡ (created, save_user (joined pk r code pin_hash u) db) =
      ground (arith, here) in
    rw (me, may, org, added)
      (exists-no_other (is_active_admin pk) u.id (joined pk r code pin_hash u) db.users alone
        (ground (arith, other_role)))
