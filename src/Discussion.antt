-- ===== src/Discussion.antt =====
-- DiscussionMessageView of views/message.py: the discussion of an incident, which its accepted
-- collaborators share. Texts, audio and attachments are left out of a message.
pub mod Opening
pub mod Posting
use mapapi.Prelude.{
  ℕ, Bool, true, false, not, ◌&&◌, Option, none, some, List, [], ◌∷◌, ◌++◌, if◌then◌else◌, is_some,
  same_ref, refers, ◌==◌,
}
use mapapi.Orm.{find, filter}
use mapapi.Models.{
  User, Incident, Collaboration, Db, leader, CollabStatus, is_pair, is_internal, is_accepted,
  is_closed, get_incident, get_user,
}
use mapapi.Http.{
  Request, Reply, Error, ok, created, refused, permission_denied, not_found, closed,
  fields_required, server_error,
}
use mapapi.Roles.{is_super_admin}
use mapapi.Permissions.{is_authenticated, permitted, owner_org, incident_of_view}
use mapapi.Signals.{create_collaboration, save_collaboration}
use mapapi.Chat.{Stamped, LimitParam, BeforeParam, load}
use mapapi.Chat

pub record DiscussionMessage : Type 0 where
  pub id : ℕ
  pub incident : ℕ
  pub collaboration : ℕ
  pub sender : ℕ
  pub recipient : Option ℕ
  pub created_at : ℕ

abbrev pub stamps : Stamped DiscussionMessage
stamps = record { id = λ m. m.id; created_at = λ m. m.created_at }

-- the tables, with the one of the discussion
pub record Forum : Type 0 where
  pub db : Db
  pub messages : List DiscussionMessage

-- the collaboration that `get_or_create` makes
abbrev pub leader_row : Request → User → Incident → Collaboration
leader_row rq u i = record {
  id = rq.fresh;
  incident = i.id;
  user = u.id;
  end_date = none;
  status = CollabStatus.accepted;
  role = leader;
}

abbrev pub accepted_row : Collaboration → Collaboration
accepted_row c = record c { status = CollabStatus.accepted }

-- `get_or_create` and the status that is set to accepted
unfoldable pub join_as_leader : Request → User → Incident → Db → Collaboration × Db
join_as_leader rq u i db = elim (find (is_pair i.id u.id) db.collaborations) [
  | none ↦ (leader_row rq u i, create_collaboration rq i (leader_row rq u i) db)
  | some c ↦
      if is_accepted c.status
      then (c, db)
      else (accepted_row c, save_collaboration c.status (accepted_row c) db)
]

-- the end of `_get_user_collaboration`, for an incident that is not internal
unfoldable pub open_collaboration : Request → User → Incident → Db → Option Collaboration × Db
open_collaboration rq u i db =
    elim (find (λ c. is_pair i.id u.id c && is_accepted c.status) db.collaborations) [
      | some c ↦ (some c, db)
      | none ↦
          if refers i.taken_by u.id
          then (some (join_as_leader rq u i db).0, (join_as_leader rq u i db).1)
          else (none, db)
    ]

-- `_get_user_collaboration`, with `none` for NotFound
unfoldable pub user_collaboration : Request → User → Incident → Db → Option Collaboration × Db
user_collaboration rq u i db =
    if is_internal i.take_in_charge_mode
    then if same_ref (owner_org i db) u.organisation_member
      then (some (join_as_leader rq u i db).0, (join_as_leader rq u i db).1)
      else (none, db)
    else open_collaboration rq u i db

-- What a GET replies.
pub data Listed : Type 0 where
  denied : Error → Listed
  listed : Chat.Reply DiscussionMessage → Listed

-- `DiscussionMessage.objects.filter(incident__id=…)`
abbrev pub messages_of : Option ℕ → List DiscussionMessage → List DiscussionMessage
messages_of k ms = filter (λ m. refers k m.incident) ms

-- `list`; `by_created_at` is `order_by('created_at')` of the database, which leaves the order of messages
-- of the same time open
unfoldable pub list_messages :
    (List DiscussionMessage → List DiscussionMessage)
    → LimitParam
    → BeforeParam
    → Request
    → Forum
    → Listed × Forum
list_messages by_created_at l b rq f = elim rq.user [
  | none ↦ (denied permission_denied, f)
  | some u ↦
      let reply : Listed =
        listed (load stamps by_created_at l b (messages_of rq.incident_id f.messages)) in
      if is_super_admin (some u) then (reply, f) else elim (incident_of_view rq f.db) [
        | none ↦ (denied not_found, f)
        | some i ↦
            let r : Option Collaboration × Db = user_collaboration rq u i f.db in
            (if is_some r.0 then reply else denied not_found, record f { db = r.1 })
      ]
]

-- `User.objects.get(pk=recipient_id)`, or nobody
abbrev recipient_of : Option ℕ → Db → Option ℕ
recipient_of none db = none
recipient_of (some k) db = elim (get_user k db) [ none ↦ none | some u ↦ some u.id ]

abbrev pub posted :
    ℕ → Option ℕ → Request → User → Incident → Collaboration → Db → DiscussionMessage
posted key recipient rq u i c db = record {
  id = key;
  incident = i.id;
  collaboration = c.id;
  sender = u.id;
  recipient = recipient_of recipient db;
  created_at = rq.now;
}

-- `perform_create`, once the serializer has found a text, an audio or an attachment. For a super
-- admin the name `collaboration` is never bound, which ends in a server error.
unfoldable pub perform_post : ℕ → Option ℕ → Request → User → Forum → Reply × Forum
perform_post key recipient rq u f = elim (incident_of_view rq f.db) [
  | none ↦ (Reply.refused (if is_super_admin (some u) then server_error else not_found), f)
  | some i ↦
      if is_super_admin (some u)
      then (Reply.refused (if is_closed i.etat then closed else server_error), f)
      else let r : Option Collaboration × Db = user_collaboration rq u i f.db in
        elim r.0 [
          | none ↦ (Reply.refused not_found, record f { db = r.1 })
          | some c ↦ if is_closed i.etat then (Reply.refused closed, record f { db = r.1 }) else (
            created,
            record { db = r.1; messages = f.messages ++ posted key recipient rq u i c r.1 ∷ [] },
          )
        ]
]

-- POST, with the key that the message gets, whether there is a payload, and the recipient
unfoldable pub post_message : ℕ → Bool → Option ℕ → Request → Forum → Reply × Forum
post_message key payload recipient rq f = elim rq.user [
  | none ↦ (Reply.refused permission_denied, f)
  | some u ↦
      if not payload then (Reply.refused fields_required, f) else perform_post key recipient rq u f
]
