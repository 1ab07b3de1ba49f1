-- ===== src/Channels/Private.antt =====
-- Who gets a push to a group of one user.
use mapapi.Prelude.{
  ℕ, ◌≡◌, refl, Bool, true, not, ◌&&◌, ◌||◌, Option, some, List, [], ◌∷◌, arith, inl, inr,
  Bool-cases, Option-cases, ◌==◌, ==_self, same_ref,
}
use mapapi.Orm.{All, All-append, All-filter, filter}
use mapapi.Models.{User, Collaboration, Notification, Db, leader_of}
use mapapi.Channels.{
  Connection, Group, notifications_of, collaborations_of, discussion_of, tasks_of, everybody, Route,
  Event, notification_created, collaboration_saved, resolve_group, connect, disconnect, Step,
  connecting, disconnecting, step, steps, scope_user, pushed, hands_on, same_group, sent_to,
}

-- whether a user may be in a group: only he is in a group of his
abbrev admits : Group → ℕ → Bool
admits (notifications_of k) u = u == k
admits (collaborations_of k) u = u == k
admits _ u = true

abbrev Own : Connection → Type 0
Own c = admits c.group c.user.id ≡ true

resolve-Own : (r : Route) (u : User) → admits (resolve_group r u) u.id ≡ true
unfolding resolve_group
resolve-Own Route.notifications u = ==_self u.id
resolve-Own Route.collaborations u = ==_self u.id
resolve-Own Route.activity_feed u = refl
resolve-Own (Route.discussion k) u = refl
resolve-Own (Route.tasks k) u = refl

connect-Own :
    (channel : ℕ) (token : Option ℕ) (r : Route) (db : Db) (cs : List Connection)
    → All Own cs
    → All Own (connect channel token r db cs)
unfolding connect
connect-Own channel token r db cs h = elim (Option-cases (scope_user token db)) [
  | inl e ↦ rw (e, connect) h
  | inr w ↦ rw (w.1, connect) (All-append Own cs _ h (resolve-Own r w.0, tt))
]

step-Own : (s : Step) (cs : List Connection) → All Own cs → All Own (step s cs)
unfolding step disconnect
step-Own (connecting channel token r db) cs h = connect-Own channel token r db cs h
step-Own (disconnecting channel) cs h = All-filter Own (λ c. not (c.channel == channel)) cs h

steps-Own : (ss : List Step) (cs : List Connection) → All Own cs → All Own (steps ss cs)
unfolding steps
steps-Own [] cs h = h
steps-Own (s ∷ ss) cs h = steps-Own ss (step s cs) (step-Own s cs h)

All-filter_to :
    (P Q : Connection → Type 0) (q : Connection → Bool) (cs : List Connection)
    → ((c : Connection) → q c ≡ true → P c → Q c)
    → All P cs
    → All Q (filter q cs)
All-filter_to P Q q [] f h = tt
All-filter_to P Q q (c ∷ cs) f h = elim (Bool-cases (q c)) [
  | inl e ↦ rw e (f c e h.0, All-filter_to P Q q cs f h.1)
  | inr e ↦ rw e (All-filter_to P Q q cs f h.1)
]

-- the connection of a user
abbrev pub Of : ℕ → Connection → Type 0
Of k c = (c.user.id == k) ≡ true

admits_notified :
    (g : Group) (u k : ℕ) (b : Bool)
    → (same_group g (notifications_of k) && b) ≡ true
    → admits g u ≡ true
    → (u == k) ≡ true
admits_notified (notifications_of j) u k b h o = ground arith
admits_notified (collaborations_of j) u k b h o = cc
admits_notified (discussion_of j) u k b h o = cc
admits_notified (tasks_of j) u k b h o = cc
admits_notified everybody u k b h o = cc

admits_partner :
    (g : Group) (u k : ℕ) (b : Bool)
    → (same_group g (collaborations_of k) && b) ≡ true
    → admits g u ≡ true
    → (u == k) ≡ true
admits_partner (collaborations_of j) u k b h o = ground arith
admits_partner (notifications_of j) u k b h o = cc
admits_partner (discussion_of j) u k b h o = cc
admits_partner (tasks_of j) u k b h o = cc
admits_partner everybody u k b h o = cc

sent-partner :
    (P : Connection → Type 0) (k : ℕ) (e : Event) (db : Db) (cs : List Connection)
    → ((c : Connection) → Of k c → P c)
    → All Own cs
    → All P (sent_to (collaborations_of k) e db cs)
sent-partner P k e db cs f h =
    All-filter_to Own P _ cs
      (λ c t o. f c (admits_partner c.group c.user.id k (hands_on c e db) t o)) h

-- the connection of the user of a collaboration, or of the leader of its incident
abbrev pub OfParty : Collaboration → Db → Connection → Type 0
OfParty x db c = (c.user.id == x.user || same_ref (leader_of x.incident db) (some c.user.id)) ≡ true

pushed-collaboration :
    (x : Collaboration) (db : Db) (cs : List Connection)
    → All Own cs
    → All (OfParty x db) (pushed (collaboration_saved x) db cs)
unfolding pushed
pushed-collaboration x db cs h =
    let e : Event = collaboration_saved x in
    let mine : All (OfParty x db) (sent_to (collaborations_of x.user) e db cs) =
      sent-partner (OfParty x db) x.user e db cs (λ c o. rw o refl) h in
    elim (Option-cases (leader_of x.incident db)) [
      | inl f ↦ rw f (All-append (OfParty x db) _ [] mine tt)
      | inr w ↦
          let other : All (OfParty x db) (sent_to (collaborations_of w.0) e db cs) =
            sent-partner (OfParty x db) w.0 e db cs (λ c o. ground (arith, w.1, o)) h in
          rw w.1 (elim (Bool-cases (x.user == w.0)) [
            | inl t ↦ rw t (All-append (OfParty x db) _ [] mine tt)
            | inr t ↦
                rw t (All-append (OfParty x db) _ _ mine (All-append (OfParty x db) _ [] other tt))
          ])
    ]

-- Whatever connected and disconnected before, the push of a new notification goes to connections of its
-- user alone, and that of a saved collaboration to those of its user and of the leader of its incident.
pub pushed_to_owners :
    (ss : List Step) (n : Notification) (x : Collaboration) (db : Db)
    → All (Of n.user) (pushed (notification_created n) db (steps ss []))
      × All (OfParty x db) (pushed (collaboration_saved x) db (steps ss []))
unfolding pushed
pushed_to_owners ss n x db = (
  All-append (Of n.user) _ []
      (All-filter_to Own (Of n.user) _ (steps ss [])
        (λ c t o. admits_notified c.group c.user.id n.user true t o) (steps-Own ss [] tt))
      tt,
  pushed-collaboration x db (steps ss []) (steps-Own ss [] tt),
)
