-- ===== src/Cases/Sockets.antt =====
-- WebSockets at concrete connections.
use mapapi.Prelude.{◌≡◌, refl, true, false, none, some, List, [], ◌∷◌, ◌==◌, ◌&&◌}
use mapapi.Orm.{All, exists}
use mapapi.Models.{Notification, collaboration_request}
use mapapi.Roles.{is_super_admin, get_web_role}
use mapapi.Chat.{LimitParam, BeforeParam, oldest_first}
use mapapi.Discussion.{
  DiscussionMessage, Forum, stamps, denied, list_messages, user_collaboration, open_collaboration,
}
use mapapi.Http.{not_found}
use mapapi.Channels.{
  Step, connecting, disconnecting, Route, discussion, notification_created, message_created,
  collaboration_saved, steps, connect, pushed,
}
use mapapi.Channels.Private.{Of, OfParty, pushed_to_owners}
use mapapi.Channels.Overheard.{list_messages-pushed}
use mapapi.Cases.Sample.{bob, led_one, asked_by_bob, sample, request_by}

abbrev notice : Notification
notice = record {
  user = 1;
  notif_type = collaboration_request;
  colaboration = none;
  incident = some 2;
}

-- alice on two devices and bob; one device leaves
abbrev history : List Step
history =
    connecting 50 (some 1) Route.notifications sample
    ∷ connecting 51 (some 2) Route.collaborations sample
    ∷ connecting 52 (some 1) Route.collaborations sample
    ∷ disconnecting 50
    ∷ []

pushed_to_owners_example :
    All (Of 1) (pushed (notification_created notice) sample (steps history []))
    × All
        (OfParty asked_by_bob sample)
        (pushed (collaboration_saved asked_by_bob) sample (steps history []))
pushed_to_owners_example = pushed_to_owners history notice asked_by_bob sample

abbrev posted : DiscussionMessage
posted = record {
  id = 90;
  incident = 2;
  collaboration = 31;
  sender = 1;
  recipient = none;
  created_at = 5;
}

abbrev forum : Forum
forum = record { db = sample; messages = posted ∷ [] }

bob-outside : (user_collaboration (request_by bob 2) bob led_one sample).0 ≡ none
unfolding user_collaboration open_collaboration
bob-outside = refl

bob-plain : is_super_admin (some bob) ≡ false
unfolding is_super_admin get_web_role
bob-plain = refl

list_messages-pushed_example :
    ((list_messages
        (oldest_first stamps)
        LimitParam.absent
        BeforeParam.absent
        (request_by bob 2)
        forum).0
      ≡ denied not_found)
    × (exists
          (λ c. c.channel == 60 && c.user.id == 2)
          (pushed (message_created posted) sample (connect 60 (some 2) (discussion 2) sample []))
        ≡ true)
list_messages-pushed_example =
    list_messages-pushed (oldest_first stamps) LimitParam.absent BeforeParam.absent
      (request_by bob 2) forum 60 [] bob led_one posted refl bob-plain refl bob-outside refl refl
