-- ===== src/Incidents/Reports.antt =====
-- views/incident.py: what an incident is outside the workflow: `visible_incidents_qs`, IncidentAPIView
-- with IncidentSerializer, ToggleIncidentPublicView.
pub mod Visible
pub mod Put
use mapapi.Prelude.{
  ℕ, String, Bool, true, false, not, ◌&&◌, ◌||◌, Option, none, some, List, [], ◌∷◌, if◌then◌else◌,
  ltb, is_some, refers, same_ref, given,
}
use mapapi.Orm.{filter, exists}
use mapapi.Models.{
  User, Incident, Db, Etat, Mode, Severity, get_incident, get_user, save_incident, is_closed,
  is_in_progress, is_admin_role, is_bureau_role,
}
use mapapi.Http.{
  Request, Error, Reply, ok, not_found, permission_denied, fields_required, dates_required,
  bad_dates, open_tasks, server_error, unknown_user,
}
use mapapi.Roles.{is_super_admin}
use mapapi.Permissions.{is_authenticated}
use mapapi.Views.{Outcome, refuse, as_user, with_incident}
use mapapi.Incidents.Resolution.{has_open_task}

-- `visible_incidents_qs` on a queryset
unfoldable visible_incidents : Option User → List Incident → List Incident
visible_incidents none base_qs = filter (λ i. i.is_public) (filter (λ i. not i.is_deleted) base_qs)
visible_incidents (some u) base_qs = filter (λ i. not i.is_deleted) base_qs

-- The body of PUT: an absent field is `none`, a null one `some none`. Of the fields that no
-- operation reads only the required one is kept.
pub record IncidentData : Type 0 where
  -- the zone is there and not blank
  pub zone : Bool
  pub user_id : Option (Option ℕ)
  pub etat : Option Etat
  pub taken_by : Option (Option ℕ)
  pub take_in_charge_mode : Option (Option Mode)
  pub resolution_start_date : Option (Option ℕ)
  pub resolution_end_date : Option (Option ℕ)
  pub is_public : Option Bool
  pub is_deleted : Option Bool
  pub deleted_at : Option (Option ℕ)
  pub taken_in_charge_at : Option (Option ℕ)
  pub severity : Option (Option Severity)
  pub antigel_warned_75 : Option Bool
  pub antigel_warned_90 : Option Bool
  pub resolution_submitted_by : Option (Option ℕ)
  pub resolution_submitted_at : Option (Option ℕ)
  pub validation_deadline : Option (Option ℕ)
  pub rejection_reason : Option (Option String)

-- the row with the fields of the body; `progress` is read-only
abbrev pub overwritten : IncidentData → Incident → Incident
overwritten d i = record i {
  user_id = given d.user_id i.user_id;
  etat = given d.etat i.etat;
  taken_by = given d.taken_by i.taken_by;
  take_in_charge_mode = given d.take_in_charge_mode i.take_in_charge_mode;
  resolution_start_date = given d.resolution_start_date i.resolution_start_date;
  resolution_end_date = given d.resolution_end_date i.resolution_end_date;
  is_public = given d.is_public i.is_public;
  is_deleted = given d.is_deleted i.is_deleted;
  deleted_at = given d.deleted_at i.deleted_at;
  taken_in_charge_at = given d.taken_in_charge_at i.taken_in_charge_at;
  severity = given d.severity i.severity;
  antigel_warned_75 = given d.antigel_warned_75 i.antigel_warned_75;
  antigel_warned_90 = given d.antigel_warned_90 i.antigel_warned_90;
  resolution_submitted_by = given d.resolution_submitted_by i.resolution_submitted_by;
  resolution_submitted_at = given d.resolution_submitted_at i.resolution_submitted_at;
  validation_deadline = given d.validation_deadline i.validation_deadline;
  rejection_reason = given d.rejection_reason i.rejection_reason;
}

-- a key of a user in the body that no row has
abbrev pub is_unknown_user : Option (Option ℕ) → Db → Bool
is_unknown_user (some (some k)) db = not (is_some (get_user k db))
is_unknown_user _ db = false

-- the dates of a closed incident
abbrev pub dates_error : Option ℕ → Option ℕ → Option Error
dates_error none _ = some dates_required
dates_error (some s) none = some dates_required
dates_error (some s) (some e) = if ltb e s then some bad_dates else none

-- `IncidentSerializer.validate`, on the row as the body would leave it
unfoldable pub closing_error : Incident → Db → Option Error
closing_error i db =
    if is_closed i.etat
    then elim (dates_error i.resolution_start_date i.resolution_end_date) [
      | some e ↦ some e
      | none ↦ if has_open_task i db then some open_tasks else none
    ]
    else none

-- `serializer.is_valid()`
unfoldable pub incident_error : IncidentData → Incident → Db → Option Error
incident_error d i db =
    if not d.zone
    then some fields_required
    else if is_unknown_user d.user_id db
        || is_unknown_user d.taken_by db
        || is_unknown_user d.resolution_submitted_by db
    then some unknown_user
    else closing_error (overwritten d i) db

-- What the end of PUT answers: `request.data['etat']` raises KeyError when the field is absent, and a
-- mail that fails raises too; the row is saved by then.
abbrev put_reply : IncidentData → Bool → Incident → Reply
put_reply d mail_sent i = elim d.etat [
  | none ↦ Reply.refused server_error
  | some e ↦
      if (is_closed e || is_in_progress e) && is_some i.user_id && not mail_sent
      then Reply.refused server_error
      else ok
]

-- the rest of PUT, on the incident that was found
unfoldable pub put_found : IncidentData → Bool → Incident → Db → Outcome
put_found d mail_sent i db = elim (incident_error d i db) [
  | some e ↦ refuse e db
  | none ↦ (put_reply d mail_sent (overwritten d i), save_incident (overwritten d i) db)
]

-- `IncidentAPIView.put`; the view has no permission class
unfoldable pub put_incident : IncidentData → Bool → Request → Db → Outcome
put_incident d mail_sent rq db = with_incident rq db λ i. put_found d mail_sent i db

-- `IncidentAPIView.delete`
unfoldable destroy_incident : Request → Db → Outcome
destroy_incident rq db = with_incident rq db λ i.
    if not (is_super_admin rq.user)
    then refuse permission_denied db
    else (ok, save_incident (record i { is_deleted = true; deleted_at = some rq.now }) db)

-- `ToggleIncidentPublicView.post`, once the reporter is known
abbrev may_toggle : User → Option User → Bool
may_toggle u none = u.is_staff
may_toggle u (some reporter) =
    if same_ref u.organisation_member reporter.organisation_member
    then is_admin_role u.org_role || is_bureau_role u.org_role
    else u.is_staff

abbrev reporter_of : Incident → Db → Option User
reporter_of i db = elim i.user_id [ none ↦ none | some k ↦ get_user k db ]

unfoldable toggle_incident_public : Request → Db → Outcome
toggle_incident_public rq db = as_user (is_authenticated ∷ []) rq db λ u. with_incident rq db λ i.
    if not (may_toggle u (reporter_of i db))
    then refuse permission_denied db
    else (ok, save_incident (record i { is_public = not i.is_public }) db)
