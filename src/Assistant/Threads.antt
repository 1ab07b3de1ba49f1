-- ===== src/Assistant/Threads.antt =====
-- What a post to the assistant does to the conversations.
use mapapi.Prelude.{
  ℕ, String, ◌≡◌, refl, ap, ◌∙◌, map, Bool, true, false, ◌&&◌, Option, none, some, List, [], ◌∷◌,
  ◌++◌, inl, inr, Option-cases, ◌==◌, append-nil, append_assoc, if◌then◌else◌,
}
use mapapi.Orm.{filter-append}
use mapapi.Chat.{oldest_first}
use mapapi.Models.{User, Incident, Db}
use mapapi.Http.{Request}
use mapapi.Permissions.{incident_of_view}
use mapapi.Assistant.{
  ChatRole, ChatHistory, stamps, assistant, thread, full_response, question, answer, conversation,
  ask_assistant, post_chat,
}

thread-append :
    (rows : List ChatHistory) (incident who : ℕ) (new : List ChatHistory)
    → thread incident who (rows ++ new) ≡ thread incident who rows ++ thread incident who new
thread-append rows incident who new = filter-append _ rows new

thread-two :
    (mine theirs : Bool) (q a : ChatHistory) (old : List ChatHistory)
    → (old ++ (if mine && theirs && true then q ∷ [] else []))
        ++ (if mine && theirs && true then a ∷ [] else [])
      ≡ old ++ (if mine && theirs then q ∷ a ∷ [] else [])
thread-two true true q a old = append_assoc old (q ∷ []) (a ∷ [])
thread-two true false q a old = append-nil (old ++ [])
thread-two false theirs q a old = append-nil (old ++ [])

thread-one :
    (mine theirs : Bool) (q : ChatHistory) (old : List ChatHistory)
    → old ++ (if mine && theirs && true then q ∷ [] else [])
      ≡ old ++ (if mine && theirs then q ∷ [] else [])
thread-one true true q old = refl
thread-one true false q old = refl
thread-one false theirs q old = refl

module _ (ask : List (ChatRole × String) → Option String) (rq : Request) (db : Db)
    (rows : List ChatHistory) (key later : ℕ) where
  -- the rows that a question leaves: one of the user, and one of the assistant if there is an answer
  abbrev pub after : Option String → ℕ → ℕ → String → List ChatHistory
  after reply incident u text =
      record {
        id = rq.fresh;
        incident = some incident;
        user = some u;
        role = ChatRole.user;
        content = text;
        created_at = rq.now;
      }
      ∷ elim reply [
        | none ↦ []
        | some r ↦
            record {
              id = key;
              incident = some incident;
              user = some u;
              role = assistant;
              content = r;
              created_at = later;
            }
            ∷ []
      ]

  -- what the service is sent: the roles and the texts of the conversation, from the oldest on, and the
  -- new question of the user
  abbrev pub sent : ℕ → ℕ → String → List (ChatRole × String)
  sent incident u text =
      map (λ m. (m.role, m.content)) (oldest_first stamps (thread incident u rows))
      ++ (ChatRole.user, text) ∷ []

  -- A question of a user on an incident of the view, whose analysis has a full response, is stored in
  -- the conversation of the user on the incident, with the answer that the service gives to this
  -- conversation and the question, or alone where the call fails, and no other conversation changes.
  pub post_chat_lem :
      (text : String) (incident who : ℕ) {u : User} {i : Incident}
      → rq.user ≡ some u
      → incident_of_view rq db ≡ some i
      → thread incident who (post_chat ask full_response (some text) key later rq db rows).1
        ≡ thread incident who rows
          ++ (if i.id == incident && u.id == who
              then after (ask (sent i.id u.id text)) i.id u.id text
              else [])
  unfolding post_chat ask_assistant
  post_chat_lem text incident who {u} {i} me here =
      let asked : List ChatHistory = rows ++ question i.id u.id text rq.fresh rq.now ∷ [] in
      elim (Option-cases (ask (conversation i.id u.id text rows))) [
        | inl e ↦
            rw (me, here, e, post_chat, ask_assistant)
              (thread-append rows incident who (question i.id u.id text rq.fresh rq.now ∷ [])
                ∙ thread-one (i.id == incident) (u.id == who)
                    (question i.id u.id text rq.fresh rq.now) (thread incident who rows))
        | inr (r, e) ↦
            rw (me, here, e, post_chat, ask_assistant)
              (thread-append asked incident who (answer i.id u.id r key later ∷ [])
                ∙ ap (λ l. l ++ thread incident who (answer i.id u.id r key later ∷ []))
                    (thread-append rows incident who (question i.id u.id text rq.fresh rq.now ∷ []))
                ∙ thread-two (i.id == incident) (u.id == who)
                    (question i.id u.id text rq.fresh rq.now) (answer i.id u.id r key later)
                    (thread incident who rows))
      ]
