-- ===== src/Inbox.antt =====
-- views/notification.py: the notifications of a user with what he has read, and the feed of activity.
-- Order, pages and texts are left out.
pub mod Reading
pub mod Feed
use mapapi.Prelude.{
  same_flag, ℕ, ◌+◌, ◌-◌, Bool, true, false, not, ◌&&◌, Option, none, some, List, [], ◌∷◌,
  if◌then◌else◌, ltb, ◌==◌, same_ref,
}
use mapapi.Orm.{find, filter, update, count, length}
use mapapi.Models.{org_of_user, User, Db, get_user}
use mapapi.Http.{Reply, ok, refused, not_found}

-- a row of Notification
pub record Note : Type 0 where
  pub id : ℕ
  pub user : ℕ
  pub read : Bool

-- `Notification.objects.filter(user=…)`
abbrev pub own : ℕ → List Note → List Note
own u ns = filter (λ n. n.user == u) ns

-- `get_queryset`, with the parameter `read`
unfoldable pub notes_of : ℕ → Option Bool → List Note → List Note
notes_of u none ns = own u ns
notes_of u (some b) ns = filter (λ n. same_flag b n.read) (own u ns)

pub record Inbox : Type 0 where
  pub results : List Note
  pub unread_count : ℕ
  pub read_count : ℕ
  pub total_count : ℕ

-- `list`
unfoldable pub list_notes : ℕ → Option Bool → List Note → Inbox
unfolding notes_of
list_notes u p ns = record {
  results = notes_of u p ns;
  unread_count = count (λ n. not n.read) (own u ns);
  read_count = count (λ n. n.read) (own u ns);
  total_count = count (λ n. not n.read) (own u ns) + count (λ n. n.read) (own u ns);
}

-- `read` of the body: absent, null, a Boolean, or whether the text is one of those for true
pub data ReadValue : Type 0 where
  absent null : ReadValue
  boolean text : Bool → ReadValue

-- `_as_bool`
abbrev pub as_bool : ReadValue → Bool
as_bool absent = true
as_bool null = true
as_bool (boolean b) = b
as_bool (text b) = b

-- `partial_update` on the notification with a key
unfoldable pub patch_note : ℕ → Option Bool → ℕ → ReadValue → List Note → Reply × List Note
unfolding notes_of
patch_note u p k v ns = elim (find (λ n. n.id == k) (notes_of u p ns)) [
  | none ↦ (refused not_found, ns)
  | some n ↦ (ok, update (λ x. x.id == n.id) (λ x. record x { read = as_bool v }) ns)
]

-- `mark_all_read`, with `marked_read`
unfoldable pub mark_all_read : ℕ → List Note → ℕ × List Note
mark_all_read u ns = (
  count (λ n. n.user == u && not n.read) ns,
  update (λ n. n.user == u && not n.read) (λ n. record n { read = true }) ns,
)

-- a row of UserAction; old rows have no time of creation
pub record Action : Type 0 where
  pub user : ℕ
  pub created_at : Option ℕ

-- `get_queryset` of ActivityFeedView
unfoldable pub feed : User → Db → List Action → List Action
feed u db actions =
    filter (λ a. not (same_ref u.organisation_member (org_of_user a.user db))) actions

abbrev pub is_after : ℕ → Action → Bool
is_after t a = elim a.created_at [ none ↦ false | some c ↦ ltb t c ]

pub record FeedCounts : Type 0 where
  pub total_count : ℕ
  pub unseen_count : ℕ
  pub seen_count : ℕ

-- `list` of ActivityFeedView, with `activity_seen_at` of the user
unfoldable pub feed_counts : User → Option ℕ → Db → List Action → FeedCounts
unfolding feed
feed_counts u seen_at db actions =
    let total : ℕ = length (feed u db actions) in
    let unseen : ℕ = elim seen_at [
      | none ↦ total
      | some t ↦ count (is_after t) (feed u db actions)
    ] in
    record { total_count = total; unseen_count = unseen; seen_count = total - unseen }

-- `post` of ActivityFeedMarkSeenView: the new `activity_seen_at`
unfoldable pub mark_seen : ℕ → Option ℕ
mark_seen now = some now
