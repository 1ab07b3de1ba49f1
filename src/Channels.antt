-- ===== src/Channels.antt =====
-- The WebSockets: consumers.py, ws_auth.py and the pushes of signals.py. The channel layer (Channels)
-- keeps which connection is in which group; that it hands a broadcast to the members of the group is
-- what it documents. A token is read by its library: here it is the user that it names, if it is valid.
pub mod Private
pub mod Overheard
use mapapi.Prelude.{
  ℕ, Bool, true, false, not, ◌&&◌, Option, none, some, List, [], ◌∷◌, ◌++◌, if◌then◌else◌, ◌==◌,
  same_ref,
}
use mapapi.Orm.{filter}
use mapapi.Models.{
  org_of_user, User, Collaboration, IncidentTask, Notification, Db, get_user, leader_of,
}
use mapapi.Discussion.{DiscussionMessage}

-- the routes of routing.py
pub data Route : Type 0 where
  notifications collaborations activity_feed : Route
  discussion tasks : ℕ → Route

pub data Group : Type 0 where
  notifications_of collaborations_of discussion_of tasks_of : ℕ → Group
  everybody : Group

abbrev pub same_group : Group → Group → Bool
same_group (notifications_of a) (notifications_of b) = a == b
same_group (collaborations_of a) (collaborations_of b) = a == b
same_group (discussion_of a) (discussion_of b) = a == b
same_group (tasks_of a) (tasks_of b) = a == b
same_group everybody everybody = true
same_group _ _ = false

-- `resolve_group` of the consumer of a route; the URL of a route always has its incident, so that no
-- connection is closed with 4403
unfoldable pub resolve_group : Route → User → Group
resolve_group notifications u = notifications_of u.id
resolve_group collaborations u = collaborations_of u.id
resolve_group activity_feed u = everybody
resolve_group (discussion incident) u = discussion_of incident
resolve_group (tasks incident) u = tasks_of incident

-- a connection, with the user of its scope
pub record Connection : Type 0 where
  pub channel : ℕ
  pub user : User
  pub route : Route
  pub group : Group

-- JWTCookieAuthMiddleware
unfoldable pub scope_user : Option ℕ → Db → Option User
scope_user none db = none
scope_user (some k) db = get_user k db

-- `connect` of `_GroupConsumer`: a visitor is closed with 4401
unfoldable pub connect : ℕ → Option ℕ → Route → Db → List Connection → List Connection
unfolding scope_user resolve_group
connect channel token route db cs = elim (scope_user token db) [
  | none ↦ cs
  | some u ↦
      cs
      ++ record { channel = channel; user = u; route = route; group = resolve_group route u } ∷ []
]

-- `disconnect`
unfoldable pub disconnect : ℕ → List Connection → List Connection
disconnect channel cs = filter (λ c. not (c.channel == channel)) cs

-- the saves that push
pub data Event : Type 0 where
  notification_created : Notification → Event
  message_created : DiscussionMessage → Event
  task_saved task_deleted : IncidentTask → Event
  collaboration_saved : Collaboration → Event
  -- the user of a new UserAction
  action_logged : Option ℕ → Event

-- the set of a user and the leader
abbrev pub two_users : ℕ → Option ℕ → List Group
two_users u none = collaborations_of u ∷ []
two_users u (some l) =
    if u == l then collaborations_of u ∷ [] else collaborations_of u ∷ collaborations_of l ∷ []

-- the groups that the receiver of a save broadcasts to
unfoldable pub groups_of : Event → Db → List Group
groups_of (notification_created n) db = notifications_of n.user ∷ []
groups_of (message_created m) db = discussion_of m.incident ∷ []
groups_of (task_saved t) db = tasks_of t.incident ∷ []
groups_of (task_deleted t) db = tasks_of t.incident ∷ []
groups_of (collaboration_saved c) db = two_users c.user (leader_of c.incident db)
groups_of (action_logged u) db = everybody ∷ []

abbrev org_of : Option ℕ → Db → Option ℕ
org_of none db = none
org_of (some k) db = org_of_user k db

-- `broadcast` of ActivityFeedConsumer keeps back what the own organisation did; the others hand on all
abbrev pub hands_on : Connection → Event → Db → Bool
hands_on c (action_logged u) db = elim c.route [
  | activity_feed ↦ not (same_ref c.user.organisation_member (org_of u db))
  | _ ↦ true
]
hands_on c _ db = true

-- the connections to which a broadcast to a group is sent on
abbrev sent_to : Group → Event → Db → List Connection → List Connection
sent_to g e db cs = filter (λ c. same_group c.group g && hands_on c e db) cs

abbrev sent_to_all : List Group → Event → Db → List Connection → List Connection
sent_to_all [] e db cs = []
sent_to_all (g ∷ gs) e db cs = sent_to g e db cs ++ sent_to_all gs e db cs

-- the connections that get the push of a save, once for each broadcast
unfoldable pub pushed : Event → Db → List Connection → List Connection
unfolding groups_of
pushed e db cs = sent_to_all (groups_of e db) e db cs

-- what happens to connections; the tables may change between the steps
pub data Step : Type 0 where
  connecting : ℕ → Option ℕ → Route → Db → Step
  disconnecting : ℕ → Step

unfoldable pub step : Step → List Connection → List Connection
unfolding connect disconnect
step (connecting channel token route db) cs = connect channel token route db cs
step (disconnecting channel) cs = disconnect channel cs

unfoldable pub steps : List Step → List Connection → List Connection
unfolding step
steps [] cs = cs
steps (s ∷ ss) cs = steps ss (step s cs)
