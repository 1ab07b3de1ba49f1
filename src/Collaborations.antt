-- ===== src/Collaborations.antt =====
-- views/collaboration.py: who sees a collaboration, asking for one, and the answers of the leader.
-- The filters of the lists by status, role, date and text, and their pages, are left out.
pub mod Visibility
pub mod Unique
pub mod Answers
pub mod Edits
pub mod Table
use mapapi.Prelude.{
  ℕ, ◌≤◌, Bool, true, false, not, ◌&&◌, ◌||◌, Option, none, some, List, [], ◌∷◌, if◌then◌else◌,
  is_some, refers, same_ref, leb, ◌==◌,
}
use mapapi.Orm.{find, filter}
use mapapi.Models.{
  User, Incident, Collaboration, Db, Mode, collaborative, CollabRole, contributor, CollabStatus,
  is_closed, is_internal, is_leader, is_contributor, is_observer, is_accepted, is_pending, is_pair,
  get_incident, get_collaboration, get_user, leader_of, save_incident,
}
use mapapi.Http.{
  Request, Error, ok, created, not_found, not_leader, invalid_action, leader_role, past_end_date,
  closed, unknown_incident, duplicate, already_accepted, expired, server_error, today,
}
use mapapi.Roles.{is_super_admin, is_org_admin, is_bureau_agent}
use mapapi.Permissions.{is_authenticated, org_admin_role, org_operative, leads}
use mapapi.Views.{Outcome, refuse, as_user}
use mapapi.Signals.{delete_collaboration, create_collaboration, save_collaboration}

-- `?scope=`; any other text, or none, is `everything`
pub data Scope : Type 0 where
  self received everything : Scope

-- `collaboration_scope_q`
unfoldable pub in_scope : User → Scope → Db → Collaboration → Bool
in_scope u self db c = is_super_admin (some u) || c.user == u.id
in_scope u received db c =
    is_super_admin (some u) || refers (leader_of c.incident db) u.id && not (c.user == u.id)
in_scope u everything db c =
    is_super_admin (some u) || c.user == u.id || refers (leader_of c.incident db) u.id

-- `user__organisation_member_id` of a foreign key to User
abbrev pub org_of : Option ℕ → Db → Option ℕ
org_of none db = none
org_of (some k) db = elim (get_user k db) [ none ↦ none | some u ↦ u.organisation_member ]

-- `collaboration_read_visibility_q`
unfoldable pub readable : User → Db → Collaboration → Bool
readable u db c =
    is_super_admin (some u)
    || c.user == u.id
    || refers (leader_of c.incident db) u.id
    || is_some u.organisation_member
      && (is_org_admin (some u) || is_bureau_agent (some u))
      && (same_ref (org_of (some c.user) db) u.organisation_member
          || same_ref (org_of (leader_of c.incident db) db) u.organisation_member)

-- `CollaborationDetailView.get_queryset` for a method that writes
unfoldable pub writable : User → Db → Collaboration → Bool
writable u db c =
    u.is_staff || u.is_superuser || c.user == u.id || refers (leader_of c.incident db) u.id

-- the data of a request for a collaboration
pub record CollaborationBody : Type 0 where
  pub incident : Option ℕ
  pub role : Option CollabRole
  pub end_date : Option ℕ

-- `CollaborationSerializer.validate_role` and `validate`, on the incident that was found
unfoldable pub collaboration_error : CollaborationBody → Incident → Request → Option Error
collaboration_error b i rq =
    if elim b.role [ none ↦ false | some r ↦ is_leader r ]
    then some leader_role
    else if elim b.end_date [ none ↦ false | some d ↦ leb d (today rq) ]
    then some past_end_date
    else if is_closed i.etat
    then some closed
    else none

-- the status in which a request starts
unfoldable pub initial_status : Option CollabRole → Incident → CollabStatus
initial_status role i =
    if is_internal i.take_in_charge_mode then CollabStatus.pending else elim role [
      | none ↦ CollabStatus.pending
      | some r ↦
          if is_observer r
          then CollabStatus.accepted
          else if is_contributor r
          then if is_some i.taken_by then CollabStatus.pending else CollabStatus.accepted
          else CollabStatus.pending
    ]

-- the default of the model's field
abbrev role_or_default : Option CollabRole → CollabRole
role_or_default none = contributor
role_or_default (some r) = r

abbrev pub requested_row : CollaborationBody → Request → User → Incident → Collaboration
requested_row b rq u i = record {
  id = rq.fresh;
  incident = i.id;
  user = u.id;
  end_date = b.end_date;
  status = initial_status b.role i;
  role = role_or_default b.role;
}

-- the rest of `post`, once an old row of the same pair is gone
unfoldable pub store_request : CollaborationBody → Request → User → Incident → Db → Db
store_request b rq u i db =
    let db' : Db = create_collaboration rq i (requested_row b rq u i) db in
    if not (is_some i.take_in_charge_mode) && is_accepted (initial_status b.role i)
    then save_incident (record i { take_in_charge_mode = some collaborative }) db'
    else db'

unfoldable pub post_collaboration : CollaborationBody → Request → User → Incident → Db → Outcome
post_collaboration b rq u i db = elim (collaboration_error b i rq) [
  | some e ↦ refuse e db
  | none ↦ elim (find (is_pair i.id u.id) db.collaborations) [
    | none ↦ (created, store_request b rq u i db)
    | some old ↦
        if is_pending old.status || is_accepted old.status
        then refuse duplicate db
        else (created, store_request b rq u i (delete_collaboration old db))
  ]
]

-- `CollaborationView.post`
unfoldable pub request_collaboration : CollaborationBody → Request → Db → Outcome
request_collaboration b rq db = as_user (is_authenticated ∷ org_operative ∷ []) rq db λ u.
    elim b.incident [
      | none ↦ refuse unknown_incident db
      | some k ↦ elim (get_incident k db) [
        | none ↦ refuse unknown_incident db
        | some i ↦ post_collaboration b rq u i db
      ]
    ]

-- the collaboration with a key, and its incident
abbrev pub with_collaboration : ℕ → Db → (Collaboration → Incident → Outcome) → Outcome
with_collaboration pk db body = elim (get_collaboration pk db) [
  | none ↦ refuse not_found db
  | some c ↦ elim (get_incident c.incident db) [ none ↦ refuse not_found db | some i ↦ body c i ]
]

abbrev pub accepted_collaboration : Collaboration → Collaboration
accepted_collaboration c = record c { status = CollabStatus.accepted }

abbrev pub declined_collaboration : Collaboration → Collaboration
declined_collaboration c = record c { status = CollabStatus.declined }

-- accepting someone from outside opens an internal incident
unfoldable pub open_incident : Incident → Db → Db
open_incident i db =
    if is_internal i.take_in_charge_mode
    then save_incident (record i { take_in_charge_mode = some collaborative }) db
    else db

unfoldable pub store_accepted : Collaboration → Incident → Db → Db
store_accepted c i db = open_incident i (save_collaboration c.status (accepted_collaboration c) db)

-- `action` of HandleCollaborationRequestView
pub data CollabAction : Type 0 where
  accept reject : CollabAction

-- `HandleCollaborationRequestView.post`
unfoldable pub handle_collaboration : Option CollabAction → ℕ → Request → Db → Outcome
handle_collaboration action pk rq db = as_user (is_authenticated ∷ org_admin_role ∷ []) rq db λ u.
    with_collaboration pk db λ c i. elim action [
      | none ↦ refuse invalid_action db
      | some a ↦ if not (leads i u db) then refuse not_leader db else elim a [
        | accept ↦ (ok, store_accepted c i db)
        | reject ↦ (ok, save_collaboration c.status (declined_collaboration c) db)
      ]
    ]

-- `AcceptCollaborationView.post`
unfoldable pub accept_collaboration : ℕ → Request → Db → Outcome
accept_collaboration pk rq db = as_user (is_authenticated ∷ org_admin_role ∷ []) rq db λ u.
    with_collaboration pk db λ c i.
      if not (leads i u db)
      then refuse not_leader db
      else if is_accepted c.status
      then refuse already_accepted db
      else if elim c.end_date [ none ↦ false | some d ↦ leb d (today rq) ]
      then refuse expired db
      else (ok, store_accepted c i db)

-- `DeclineCollaborationView.post`. The notification that it creates it deletes at once. When the
-- e-mail cannot be queued the reply is the 500 of the last `except`, and the row is saved already.
unfoldable pub decline_collaboration : ℕ → Request → Db → Outcome
decline_collaboration pk rq db = as_user (is_authenticated ∷ org_admin_role ∷ []) rq db λ u.
    with_collaboration pk db λ c i.
      if not (leads i u db)
      then refuse not_leader db
      else let db' : Db = save_collaboration c.status (declined_collaboration c) db in
        if rq.broker_up then (ok, db') else refuse server_error db'
