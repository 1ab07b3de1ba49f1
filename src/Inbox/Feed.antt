-- ===== src/Inbox/Feed.antt =====
-- The feed against the pushes, and its counters.
use mapapi.Prelude.{
  ℕ, ◌+◌, ◌≤◌, ◌≡◌, refl, Bool, false, Option, none, some, List, [], ◌∷◌, arith, if◌then◌else◌,
}
use mapapi.Orm.{All, count, length}
use mapapi.Models.{User, Db}
use mapapi.Channels.{Connection, Route, action_logged, hands_on}
use mapapi.Inbox.{Action, feed, is_after, FeedCounts, feed_counts, mark_seen}

-- A new action is pushed to a connection of the feed exactly when the feed of its user lists it.
feed-pushed :
    (c : Connection) (a : Action) (db : Db) (actions : List Action)
    → c.route ≡ Route.activity_feed
    → feed c.user db (a ∷ actions) ≡ (
        if hands_on c (action_logged (some a.user)) db
        then a ∷ feed c.user db actions
        else feed c.user db actions)
unfolding feed
feed-pushed c a db actions at_feed = ground (arith, at_feed)

count-le : (p : Action → Bool) (xs : List Action) → count p xs ≤ length xs
count-le p [] = omega arith
count-le p (x ∷ xs) = ground (arith, count-le p xs)

-- created by this time, or at an unknown one
abbrev Past : ℕ → Action → Type 0
Past now a = is_after now a ≡ false

none_after :
    (now : ℕ) (u : User) (db : Db) (actions : List Action)
    → All (Past now) actions
    → count (is_after now) (feed u db actions) ≡ 0
unfolding feed
none_after now u db [] h = refl
none_after now u db (a ∷ actions) h = ground (arith, h.0, none_after now u db actions h.1)

-- The counters of the feed add up; once it is marked as seen, with no action later than that, nothing is
-- unseen.
feed_counts-mark_seen :
    (now : ℕ) (u : User) (seen_at : Option ℕ) (db : Db) (actions : List Action)
    → All (Past now) actions
    → let f : FeedCounts = feed_counts u seen_at db actions in
      (f.unseen_count + f.seen_count ≡ f.total_count)
      × ((feed_counts u (mark_seen now) db actions).unseen_count ≡ 0)
unfolding feed_counts mark_seen
feed_counts-mark_seen now u none db actions h = (omega arith, none_after now u db actions h)
feed_counts-mark_seen now u (some t) db actions h =
    (omega (arith, count-le (is_after t) (feed u db actions)), none_after now u db actions h)
