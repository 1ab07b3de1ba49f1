-- ===== src/Signals.antt =====
-- signals.py: what a write to the table Collaboration sets off. The WebSocket pushes change no row;
-- they stand in Channels.
pub mod Effects
use mapapi.Prelude.{
  ℕ, Bool, true, false, not, ◌&&◌, ◌||◌, Option, none, some, [], ◌∷◌, ◌++◌, if◌then◌else◌, ◌==◌,
  refers, is_some,
}
use mapapi.Orm.{filter, update}
use mapapi.Models.{
  User, Incident, Collaboration, Notification, Db, CollabStatus, CollabRole, collaboration_request,
  get_incident, get_user, get_collaboration, is_leader,
}
use mapapi.Http.{Request}

-- `incident.taken_by`, the row
abbrev pub taker : Incident → Db → Option User
taker i db = elim i.taken_by [ none ↦ none | some k ↦ get_user k db ]

-- `collaboration.delete()`, with the notifications that cascade
unfoldable pub delete_collaboration : Collaboration → Db → Db
delete_collaboration c db = record db {
  collaborations = filter (λ x. not (x.id == c.id)) db.collaborations;
  notifications = filter (λ n. not (refers n.colaboration c.id)) db.notifications;
}

-- `ws_push_collaboration` on a new row: the activity log
abbrev pub log_action : ℕ → Db → Db
log_action user db = record db { user_actions = db.user_actions ++ user ∷ [] }

-- `notify_organisation_on_collaboration`: a new row on an incident that nobody leads, or whose
-- leader has no address, is deleted again. When the e-mail cannot be queued the notification is
-- not written either.
unfoldable pub notify_organisation_on_collaboration : Request → Incident → Collaboration → Db → Db
unfolding delete_collaboration
notify_organisation_on_collaboration rq i c db = elim (taker i db) [
  | none ↦ delete_collaboration c db
  | some user ↦
      if c.user == user.id || is_leader c.role
      then db
      else if not (is_some user.email)
      then delete_collaboration c db
      else if rq.broker_up
      then record db {
        notifications =
            db.notifications
            ++ (record {
              user = user.id;
              notif_type = collaboration_request;
              colaboration = some c.id;
              incident = some i.id;
            }
                ∷ []);
      }
      else db
]

-- `Collaboration.objects.create(…)`, with its post_save receivers
unfoldable pub create_collaboration : Request → Incident → Collaboration → Db → Db
unfolding notify_organisation_on_collaboration
create_collaboration rq i c db =
    notify_organisation_on_collaboration rq i c
      (log_action c.user (record db { collaborations = db.collaborations ++ c ∷ [] }))

abbrev same_status : CollabStatus → CollabStatus → Bool
same_status CollabStatus.pending CollabStatus.pending = true
same_status CollabStatus.accepted CollabStatus.accepted = true
same_status CollabStatus.declined CollabStatus.declined = true
same_status CollabStatus.terminated CollabStatus.terminated = true
same_status CollabStatus.refused CollabStatus.refused = true
same_status _ _ = false

abbrev is_answer : CollabStatus → Bool
is_answer CollabStatus.accepted = true
is_answer CollabStatus.declined = true
is_answer _ = false

-- `incident.taken_by or instance.user`, by key
abbrev actor : Collaboration → Db → ℕ
actor c db = elim (get_incident c.incident db) [
  | none ↦ c.user
  | some i ↦ elim i.taken_by [ none ↦ c.user | some k ↦ k ]
]

-- `collaboration.save()` on a row that was loaded with status `old`: a new accepted or declined
-- status is logged
unfoldable pub save_collaboration : CollabStatus → Collaboration → Db → Db
save_collaboration old c db =
    let db' : Db = record db {
      collaborations = update (λ x. x.id == c.id) (λ _. c) db.collaborations;
    } in
    if not (same_status old c.status) && is_answer c.status
    then log_action (actor c db) db'
    else db'
