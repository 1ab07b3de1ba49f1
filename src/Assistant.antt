-- ===== src/Assistant.antt =====
-- IncidentChatView of views/incident.py: the conversation of a user with the assistant about an
-- incident. The answer of the chat service (services/model_chat_client.py) is a parameter, a function
-- of the messages that it is sent, `none` where the call raises.
pub mod Threads
use mapapi.Prelude.{
  ℕ, String, Bool, true, false, not, ◌&&◌, ◌||◌, Option, none, some, List, [], ◌∷◌, ◌++◌, map,
  if◌then◌else◌, refers, ◌==◌,
}
use mapapi.Orm.{filter}
use mapapi.Models.{User, Db}
use mapapi.Http.{Request, Error, permission_denied, not_found, fields_required}
use mapapi.Permissions.{incident_of_view}
use mapapi.Chat.{Stamped, LimitParam, BeforeParam, load, oldest_first}
use mapapi.Chat

-- CHAT_ROLES
pub data ChatRole : Type 0 where
  user assistant system : ChatRole

pub record ChatHistory : Type 0 where
  pub id : ℕ
  pub incident : Option ℕ
  pub user : Option ℕ
  pub role : ChatRole
  pub content : String
  pub created_at : ℕ

abbrev pub stamps : Stamped ChatHistory
stamps = record { id = λ m. m.id; created_at = λ m. m.created_at }

abbrev is_shown : ChatRole → Bool
is_shown ChatRole.user = true
is_shown assistant = true
is_shown system = false

-- `incident.chat_messages.filter(user=…, role__in=…)`
abbrev pub thread : ℕ → ℕ → List ChatHistory → List ChatHistory
thread incident u rows =
    filter (λ m. refers m.incident incident && refers m.user u && is_shown m.role) rows

-- what the service is sent of a row
abbrev pub said : ChatHistory → ChatRole × String
said m = (m.role, m.content)

pub data ChatReply : Type 0 where
  denied : Error → ChatReply
  -- 400 without a prediction, or with an analysis that is not completed
  no_context : ChatReply
  -- 502
  service_failed : ChatReply
  -- `message` and `history`
  answered : String → List (ChatRole × String) → ChatReply

-- the prediction of the incident, as the view reads it
pub data Context : Type 0 where
  no_prediction empty_response full_response : Context

-- the rows that a post writes, with the keys and the times that they get
abbrev pub question : ℕ → ℕ → String → ℕ → ℕ → ChatHistory
question incident u text key now = record {
  id = key;
  incident = some incident;
  user = some u;
  role = ChatRole.user;
  content = text;
  created_at = now;
}

abbrev pub answer : ℕ → ℕ → String → ℕ → ℕ → ChatHistory
answer incident u text key now = record (question incident u text key now) { role = assistant }

-- `messages`, with the new question
abbrev pub conversation : ℕ → ℕ → String → List ChatHistory → List (ChatRole × String)
conversation incident u text rows =
    map said (oldest_first stamps (thread incident u rows)) ++ (ChatRole.user, text) ∷ []

module _ (ask : List (ChatRole × String) → Option String) where
  -- the rest of `post`, once the question is checked; `later` is the clock at the answer
  unfoldable pub ask_assistant :
      ℕ → ℕ → ℕ → String → Request → List ChatHistory → ℕ → ChatReply × List ChatHistory
  ask_assistant incident u key text rq rows later =
      let messages : List (ChatRole × String) = conversation incident u text rows in
      let asked : List ChatHistory = rows ++ question incident u text rq.fresh rq.now ∷ [] in
      elim (ask messages) [
        | none ↦ (service_failed, asked)
        | some reply ↦ (
          answered reply (messages ++ (assistant, reply) ∷ []),
          asked ++ answer incident u reply key later ∷ [],
        )
      ]

  -- `IncidentChatView.post`; the message is `none` when it is blank
  unfoldable pub post_chat :
      Context
      → Option String
      → ℕ
      → ℕ
      → Request
      → Db
      → List ChatHistory
      → ChatReply × List ChatHistory
  post_chat context message key later rq db rows = elim rq.user [
    | none ↦ (denied permission_denied, rows)
    | some u ↦ elim (incident_of_view rq db) [
      | none ↦ (denied not_found, rows)
      | some i ↦ elim context [
        | no_prediction ↦ (no_context, rows)
        | empty_response ↦ (no_context, rows)
        | full_response ↦ elim message [
          | none ↦ (denied fields_required, rows)
          | some text ↦ ask_assistant i.id u.id key text rq rows later
        ]
      ]
    ]
  ]

-- What a GET replies.
pub data History : Type 0 where
  denied : Error → History
  history : Chat.Reply ChatHistory → History

-- `IncidentChatView.get`
unfoldable pub get_chat : LimitParam → BeforeParam → Request → Db → List ChatHistory → History
get_chat l b rq db rows = elim rq.user [
  | none ↦ History.denied permission_denied
  | some u ↦ elim (incident_of_view rq db) [
    | none ↦ History.denied not_found
    | some i ↦ history (load stamps (oldest_first stamps) l b (thread i.id u.id rows))
  ]
]
