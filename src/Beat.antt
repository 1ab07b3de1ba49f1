-- ===== src/Beat.antt =====
-- tasks.py: the jobs that Celery Beat runs on the incident workflow. A job reads its rows once, and
-- then treats them one by one. The counts that a job returns and its log lines are left out.
pub mod Loop
pub mod Effects
pub mod Warnings
use mapapi.Prelude.{
  ℕ, ◌+◌, ◌-◌, ◌*◌, Bool, true, false, not, ◌&&◌, Option, none, some, List, [], ◌∷◌, ◌++◌, map,
  if◌then◌else◌, is_some, refers, ltb, leb, ◌==◌,
}
use mapapi.Orm.{find, filter, update, exists}
use mapapi.Models.{
  Incident, IncidentOrgAssignment, Notification, Db, Etat, OrgAssignmentStatus, high, medium, low,
  deadline_warning, is_taken, is_declared, is_in_validation, is_unanswered, is_admin_role,
  save_incident, get_incident,
}
use mapapi.Signals.{taker}
use mapapi.Incidents.Resolution.{terminate_active_collaborations}

-- `for row in rows: …`
unfoldable pub for_each : {A : Type 0} → (A → Db → Db) → List A → Db → Db
for_each body [] db = db
for_each body (x ∷ xs) db = for_each body xs (body x db)

-- the rows of `auto_validate_overdue_resolutions`
abbrev pub is_overdue : ℕ → Incident → Bool
is_overdue now i =
    is_in_validation i.etat && elim i.validation_deadline [ none ↦ false | some d ↦ ltb d now ]

abbrev pub validated : Incident → Incident
validated i = record i { etat = Etat.resolved_definitive }

unfoldable pub validate_tacitly : Incident → Db → Db
validate_tacitly i db = terminate_active_collaborations i.id (save_incident (validated i) db)

unfoldable pub auto_validate_overdue_resolutions : ℕ → Db → Db
auto_validate_overdue_resolutions now db =
    for_each validate_tacitly (filter (is_overdue now) db.incidents) db

-- `_antigel_deadline_days`, with ANTI_GEL_DEFAULT_DAYS
unfoldable pub antigel_deadline_days : Incident → ℕ
antigel_deadline_days i = elim i.severity [
  | none ↦ 60
  | some s ↦ elim s [ high ↦ 30 | medium ↦ 60 | low ↦ 90 ]
]

abbrev pub day : ℕ
day = 86400

-- `_notify_antigel_leader`
abbrev pub notify_antigel_leader : Incident → Db → Db
notify_antigel_leader i db = elim (taker i db) [
  | none ↦ db
  | some leader ↦ record db {
    notifications =
        db.notifications
        ++ (record {
          user = leader.id;
          notif_type = deadline_warning;
          colaboration = none;
          incident = some i.id;
        }
            ∷ []);
  }
]

abbrev pub reverted : Incident → Incident
reverted i = record i {
  etat = Etat.declared;
  taken_by = none;
  take_in_charge_mode = none;
  taken_in_charge_at = none;
  antigel_warned_75 = false;
  antigel_warned_90 = false;
}

-- The body of `revert_stale_taken_incidents`, for a row taken at `at`. The thresholds
-- `0.90 * deadline` and `0.75 * deadline` of d days are d * 77760 and d * 64800 seconds.
unfoldable pub revert_stale : ℕ → ℕ → Incident → Db → Db
unfolding antigel_deadline_days
revert_stale now at i db =
    let elapsed : ℕ = now - at in
    let days : ℕ = antigel_deadline_days i in
    if leb (days * day) elapsed
    then save_incident (reverted i) db
    else if leb (days * 77760) elapsed && not i.antigel_warned_90
    then save_incident (record i { antigel_warned_90 = true; antigel_warned_75 = true })
        (notify_antigel_leader i db)
    else if leb (days * 64800) elapsed && not i.antigel_warned_75
    then save_incident (record i { antigel_warned_75 = true }) (notify_antigel_leader i db)
    else db

unfoldable pub revert_stale_one : ℕ → Incident → Db → Db
unfolding revert_stale
revert_stale_one now i db = elim i.taken_in_charge_at [
  | none ↦ db
  | some at ↦ revert_stale now at i db
]

unfoldable pub revert_stale_taken_incidents : ℕ → Db → Db
unfolding revert_stale_one
revert_stale_taken_incidents now db =
    for_each (revert_stale_one now)
      (filter (λ i. is_taken i.etat && is_some i.taken_in_charge_at) db.incidents) db

-- `organisation.members.filter(org_role=ORG_ROLE_ADMIN).first()`
abbrev pub first_admin : ℕ → Db → Option ℕ
first_admin org db =
    elim (find (λ u. refers u.organisation_member org && is_admin_role u.org_role) db.users) [
      | none ↦ none
      | some u ↦ some u.id
    ]

-- `save(update_fields=['etat', 'taken_by', 'taken_in_charge_at'])` writes these fields alone
abbrev pub engaged_by : ℕ → Option ℕ → Incident → Incident
engaged_by now admin i = record i {
  etat = Etat.taken;
  taken_by = admin;
  taken_in_charge_at = some now;
}

-- One assignment, with its incident as it was when the job read its rows.
unfoldable pub accept_tacitly : ℕ → IncidentOrgAssignment × Option Incident → Db → Db
accept_tacitly now (a, loaded) db =
    let db' : Db = record db {
      org_assignments =
          update (λ b. b.id == a.id)
            (λ b. record b { status = OrgAssignmentStatus.accepted; responded_at = some now })
            db.org_assignments;
    } in
    elim loaded [
      | none ↦ db'
      | some i ↦
          if is_declared i.etat
          then record db' {
            incidents =
                update (λ j. j.id == i.id) (engaged_by now (first_admin a.organisation db))
                  db'.incidents;
          }
          else db'
    ]

unfoldable pub auto_accept_overdue_assignments : ℕ → Db → Db
auto_accept_overdue_assignments now db =
    for_each (accept_tacitly now)
      (map (λ a. (a, get_incident a.incident db))
        (filter (λ a. is_unanswered a.status && ltb a.deadline now) db.org_assignments))
      db

-- a notification about a collaboration on an incident
abbrev about_collaboration_on : ℕ → Db → Notification → Bool
about_collaboration_on pk db n = elim n.colaboration [
  | none ↦ false
  | some k ↦ exists (λ c. c.id == k && c.incident == pk) db.collaborations
]

-- `incident.delete()`, with the rows that cascade
unfoldable pub delete_incident : ℕ → Db → Db
delete_incident pk db = record db {
  incidents = filter (λ i. not (i.id == pk)) db.incidents;
  collaborations = filter (λ c. not (c.incident == pk)) db.collaborations;
  tasks = filter (λ t. not (t.incident == pk)) db.tasks;
  org_assignments = filter (λ a. not (a.incident == pk)) db.org_assignments;
  suggestions = filter (λ s. not (s.incident == pk)) db.suggestions;
  notifications =
      filter (λ n. not (refers n.incident pk) && not (about_collaboration_on pk db n))
        db.notifications;
}

abbrev pub is_expired_trash : ℕ → Incident → Bool
is_expired_trash now i =
    i.is_deleted && elim i.deleted_at [ none ↦ false | some d ↦ ltb (d + 30 * day) now ]

unfoldable pub purge_expired_trash : ℕ → Db → Db
purge_expired_trash now db =
    for_each (λ i. delete_incident i.id) (filter (is_expired_trash now) db.incidents) db
