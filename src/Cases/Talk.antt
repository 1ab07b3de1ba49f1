-- ===== src/Cases/Talk.antt =====
-- Conversations, the discussion and the assistant at concrete values.
use mapapi.Prelude.{
  ℕ, ◌≤◌, String, ◌≡◌, refl, true, Option, none, some, List, [], ◌∷◌, ◌++◌, ◌==◌, ◌&&◌,
  if◌then◌else◌,
}
use mapapi.Models.{internal, OrgRole, User, Incident}
use mapapi.Roles.{is_super_admin, get_web_role}
use mapapi.Permissions.{leads}
use mapapi.Chat.{plus, BeforeParam, before, load, oldest_first, reverse, scroll_back}
use mapapi.Chat.Order.{Distinct}
use mapapi.Chat.Pages.{scroll_back_lem}
use mapapi.Chat.Bounds.{Fits, rows_before, limit_of, load-Fits}
use mapapi.Discussion.{DiscussionMessage, Forum, stamps, list_messages}
use mapapi.Discussion.Opening.{list_messages_promotes}
use mapapi.Assistant.{ChatRole, thread, full_response, post_chat}
use mapapi.Assistant.Threads.{after, post_chat_lem}
use mapapi.Cases.Sample.{alice, root, sample, request_by, led_one}

abbrev message : ℕ → ℕ → DiscussionMessage
message k t = record {
  id = k;
  incident = 2;
  collaboration = 31;
  sender = 1;
  recipient = none;
  created_at = t;
}

-- the second and the third at the same time
abbrev three : List DiscussionMessage
three = message 5 10 ∷ message 8 20 ∷ message 7 20 ∷ []

three-Distinct : Distinct stamps three
three-Distinct = ((refl, (refl, tt)), ((refl, tt), (tt, tt)))

scroll_back_lem_example :
    scroll_back stamps reverse 4 2 BeforeParam.absent three ≡ oldest_first stamps three
scroll_back_lem_example = scroll_back_lem stamps reverse 2 three three-Distinct

load-Fits_example :
    Fits
      (limit_of (plus 200))
      (rows_before stamps (before 8) three)
      (load stamps reverse (plus 200) (before 8) three)
    × (limit_of (plus 200) ≤ 100)
load-Fits_example = load-Fits stamps reverse (plus 200) (before 8) three

-- a field agent of alice's organisation, which works on incident 2 alone
abbrev carol : User
carol = record alice { id = 3; org_role = some OrgRole.field_agent }

abbrev kept_inside : Incident
kept_inside = record led_one { take_in_charge_mode = some internal }

abbrev forum : Forum
forum = record {
  db = record sample { users = alice ∷ root ∷ carol ∷ []; incidents = kept_inside ∷ [] };
  messages = three;
}

list_messages_promotes_example :
    leads kept_inside carol
      (list_messages reverse (plus 10) BeforeParam.absent (request_by carol 2) forum).1.db
    ≡ true
unfolding is_super_admin get_web_role
list_messages_promotes_example =
    list_messages_promotes reverse (plus 10) BeforeParam.absent (request_by carol 2) forum
      {owner = alice} refl refl refl refl refl refl refl

-- a service that answers nothing but the first question
abbrev service : List (ChatRole × String) → Option String
service (_ ∷ []) = some "Oui."
service _ = none

post_chat_lem_example :
    thread 2 1
      (post_chat service full_response (some "Danger ?") 61 5 (request_by alice 2) sample []).1
    ≡ []
      ++ (if 2 == 2 && 1 == 1
          then after service
              (request_by alice 2)
              sample
              []
              61
              5
              (service ((ChatRole.user, "Danger ?") ∷ []))
              2
              1
              "Danger ?"
          else [])
post_chat_lem_example =
    post_chat_lem service (request_by alice 2) sample [] 61 5 "Danger ?" 2 1 refl refl
