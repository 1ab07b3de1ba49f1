-- ===== src/Channels/Overheard.antt =====
-- Who gets a push to the group of an incident.
use mapapi.Prelude.{
  ℕ, ◌≡◌, refl, Bool, true, false, ◌&&◌, none, some, List, [], ◌∷◌, ◌++◌, arith, ◌==◌,
}
use mapapi.Orm.{exists, filter}
use mapapi.Models.{User, Incident, Db, get_user}
use mapapi.Http.{Request, not_found}
use mapapi.Roles.{is_super_admin}
use mapapi.Permissions.{incident_of_view}
use mapapi.Chat.{LimitParam, BeforeParam}
use mapapi.Discussion.{DiscussionMessage, Forum, denied, list_messages, user_collaboration}
use mapapi.Channels.{
  Connection, discussion, discussion_of, message_created, connect, pushed, scope_user,
  resolve_group,
}

exists_last :
    (p q : Connection → Bool) (c : Connection) (cs : List Connection)
    → q c ≡ true
    → p c ≡ true
    → exists p (filter q (cs ++ c ∷ []) ++ []) ≡ true
exists_last p q c [] h k = ground (arith, h, k)
exists_last p q c (x ∷ xs) h k = ground (arith, exists_last p q c xs h k)

-- the connection of a user to the discussion of an incident
abbrev listener : ℕ → User → ℕ → Connection
listener channel u k = record {
  channel = channel;
  user = u;
  route = discussion k;
  group = discussion_of k;
}

connect-listener :
    (channel : ℕ) (u : User) (k : ℕ) (db : Db) (cs : List Connection)
    → get_user u.id db ≡ some u
    → connect channel (some u.id) (discussion k) db cs ≡ cs ++ listener channel u k ∷ []
unfolding connect scope_user resolve_group
connect-listener channel u k db cs known = rw (known, connect) refl

-- A user who takes no part in the discussion of an incident, so that a GET of it is refused, connects to
-- its WebSocket with his token and gets every message that is posted from then on.
pub list_messages-pushed :
    (by_created_at : List DiscussionMessage → List DiscussionMessage) (l : LimitParam)
    (b : BeforeParam) (rq : Request) (f : Forum) (channel : ℕ) (cs : List Connection) (u : User)
    (i : Incident) (m : DiscussionMessage)
    → rq.user ≡ some u
    → is_super_admin (some u) ≡ false
    → incident_of_view rq f.db ≡ some i
    → (user_collaboration rq u i f.db).0 ≡ none
    → get_user u.id f.db ≡ some u
    → m.incident ≡ i.id
    → ((list_messages by_created_at l b rq f).0 ≡ denied not_found)
      × (exists
            (λ c. c.channel == channel && c.user.id == u.id)
            (pushed
              (message_created m)
              f.db
              (connect channel (some u.id) (discussion i.id) f.db cs))
          ≡ true)
unfolding list_messages pushed
list_messages-pushed by_created_at l b rq f channel cs u i m me plain here out known about = (
  ground (arith, me, plain, here, out),
  rw (connect-listener channel u i.id f.db cs known)
      (exists_last _ _ (listener channel u i.id) cs (ground (arith, about)) (ground arith)),
)
