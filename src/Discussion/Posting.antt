-- ===== src/Discussion/Posting.antt =====
-- Who takes part in a discussion, and who can post to it.
use mapapi.Prelude.{
  ℕ, ◌≡◌, refl, Bool, true, false, ◌&&◌, Option, some, List, [], ◌∷◌, arith, inl, inr, Option-cases,
  Bool-cases, if◌then◌else◌, is_some,
}
use mapapi.Orm.{find, exists}
use mapapi.Models.{User, Incident, Collaboration, Db, is_internal, is_accepted, is_pair}
use mapapi.Http.{Request, is_refused}
use mapapi.Roles.{is_super_admin}
use mapapi.Permissions.{collaborates, has_accepted, is_internal_org_member}
use mapapi.Discussion.{Forum, post_message, perform_post, user_collaboration, open_collaboration}

-- A post of a super admin is refused, whatever the incident and the message, and changes nothing.
super_admin_cannot_post :
    (key : ℕ) (payload : Bool) (recipient : Option ℕ) (rq : Request) (f : Forum) {u : User}
    → rq.user ≡ some u
    → is_super_admin (some u) ≡ true
    → (is_refused (post_message key payload recipient rq f).0 ≡ true)
      × ((post_message key payload recipient rq f).1 ≡ f)
unfolding post_message perform_post
super_admin_cannot_post key payload recipient rq f me admin =
    (ground (arith, me, admin), ground (arith, me, admin))

found-accepted :
    (i : Incident) (u : User) (cs : List Collaboration)
    → is_some (find (λ c. is_pair i.id u.id c && is_accepted c.status) cs)
      ≡ exists (λ c. is_pair i.id u.id c && is_accepted c.status && true) cs
found-accepted i u [] = refl
found-accepted i u (c ∷ cs) = ground (arith, found-accepted i u cs)

open_collaboration_lem :
    (rq : Request) (u : User) (i : Incident) (db : Db)
    → is_internal i.take_in_charge_mode ≡ false
    → is_some (open_collaboration rq u i db).0 ≡ collaborates i u db
unfolding open_collaboration collaborates has_accepted is_internal_org_member
open_collaboration_lem rq u i db out =
    elim (Option-cases
      (find (λ c. is_pair i.id u.id c && is_accepted c.status) db.collaborations)) [
        | inl e ↦ ground (arith, e, out, found-accepted i u db.collaborations)
        | inr (c, e) ↦ ground (arith, e, out, found-accepted i u db.collaborations)
      ]

-- In internal mode the discussion is open to exactly the members of the organisation that has the
-- incident, and else to exactly those who pass the test of IsIncidentCollaborator.
pub user_collaboration_lem :
    (rq : Request) (u : User) (i : Incident) (db : Db)
    → is_some (user_collaboration rq u i db).0 ≡ (
        if is_internal i.take_in_charge_mode
        then is_internal_org_member i u db
        else collaborates i u db)
unfolding user_collaboration is_internal_org_member
user_collaboration_lem rq u i db = elim (Bool-cases (is_internal i.take_in_charge_mode)) [
  | inl e ↦ ground (arith, e)
  | inr e ↦ ground (arith, e, open_collaboration_lem rq u i db e)
]
