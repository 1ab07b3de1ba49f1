-- ===== src/Discussion/Opening.antt =====
-- What opening the discussion of an incident does to the collaborations.
use mapapi.Prelude.{◌≡◌, Bool, true, false, ◌&&◌, none, some, List, [], ◌∷◌, ◌++◌, arith, same_ref}
use mapapi.Orm.{find, exists}
use mapapi.Models.{User, Incident, Collaboration, Db, is_pair, is_internal, is_accepted, is_leader}
use mapapi.Http.{Request}
use mapapi.Roles.{is_super_admin}
use mapapi.Permissions.{leads, has_accepted, owner_org, incident_of_view}
use mapapi.Signals.{create_collaboration, notify_organisation_on_collaboration, taker}
use mapapi.Chat.{LimitParam, BeforeParam}
use mapapi.Discussion.{
  DiscussionMessage, Forum, list_messages, user_collaboration, join_as_leader, leader_row,
}

exists-last :
    (p : Collaboration → Bool) (cs : List Collaboration) (c : Collaboration)
    → p c ≡ true
    → exists p (cs ++ c ∷ []) ≡ true
exists-last p [] c h = ground (arith, h)
exists-last p (x ∷ cs) c h = ground (arith, exists-last p cs c h)

-- The row of a leader that is created on an incident with a leader stays.
leads-create :
    (rq : Request) (u : User) (i : Incident) (db : Db) {owner : User}
    → taker i db ≡ some owner
    → leads i u (create_collaboration rq i (leader_row rq u i) db) ≡ true
unfolding create_collaboration notify_organisation_on_collaboration leads has_accepted
leads-create rq u i db owns = ground (
  arith,
  owns,
  exists-last (λ c. is_pair i.id u.id c && is_accepted c.status && is_leader c.role)
      db.collaborations (leader_row rq u i) (ground arith),
)

owner_org-taker :
    (i : Incident) (db : Db) {owner : User}
    → taker i db ≡ some owner
    → owner_org i db ≡ owner.organisation_member
owner_org-taker i db owns = ground (arith, owns)

-- Any member, not a super admin, of the organisation that has taken an incident in internal mode, of
-- whatever role in it, who has no collaboration on it and opens its discussion, leads the incident from
-- then on.
pub list_messages_promotes :
    (by_created_at : List DiscussionMessage → List DiscussionMessage) (l : LimitParam)
    (b : BeforeParam) (rq : Request) (f : Forum) {u owner : User} {i : Incident}
    → rq.user ≡ some u
    → is_super_admin (some u) ≡ false
    → incident_of_view rq f.db ≡ some i
    → is_internal i.take_in_charge_mode ≡ true
    → taker i f.db ≡ some owner
    → same_ref owner.organisation_member u.organisation_member ≡ true
    → find (is_pair i.id u.id) f.db.collaborations ≡ none
    → leads i u (list_messages by_created_at l b rq f).1.db ≡ true
unfolding list_messages user_collaboration join_as_leader
list_messages_promotes by_created_at l b rq f {u} {owner} {i} me plain here inside owns same new =
    let org : owner_org i f.db ≡ owner.organisation_member = owner_org-taker i f.db owns in
    ground (arith, me, plain, here, inside, same, new, org, leads-create rq u i f.db owns)
