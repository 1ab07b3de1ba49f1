-- ===== src/Incidents/TakeInCharge.antt =====
-- TakeInChargeView: an organisation takes an incident, alone or with others. The strings `mode` and
-- `role` of the body arrive parsed, `none` for any other text.
pub mod Leadership
pub mod Exclusive
use mapapi.Prelude.{
  Bool, false, not, ◌&&◌, ◌||◌, Option, none, some, [], ◌∷◌, if◌then◌else◌, is_some, ◌==◌,
}
use mapapi.Orm.{find, update}
use mapapi.Models.{
  User, Incident, Collaboration, Db, Etat, Mode, internal, collaborative, CollabRole, leader,
  contributor, observer, CollabStatus, is_declared, is_closed, is_internal, is_contributor,
  is_accepted, is_pair, save_incident,
}
use mapapi.Http.{
  Request, ok, closed, mode_required, already_taken, wrong_etat, role_required, internal_mode,
  duplicate, leader_exists,
}
use mapapi.Permissions.{is_authenticated, org_admin_role}
use mapapi.Views.{Outcome, refuse, as_user, with_incident}
use mapapi.Signals.{create_collaboration, log_action}

-- a new row of Collaboration
abbrev pub new_collaboration : Request → Incident → User → CollabRole → CollabStatus → Collaboration
new_collaboration rq i u role status = record {
  id = rq.fresh;
  incident = i.id;
  user = u.id;
  end_date = none;
  status = status;
  role = role;
}

-- the row once it is taken, with its warnings re-armed
abbrev pub taken_row : Request → User → Mode → Incident → Incident
taken_row rq u mode i = record i {
  taken_by = some u.id;
  etat = Etat.taken;
  take_in_charge_mode = some mode;
  taken_in_charge_at = some rq.now;
  antigel_warned_75 = false;
  antigel_warned_90 = false;
}

-- `mode == 'internal'`; `get_or_create` leaves an existing collaboration as it is
unfoldable pub take_internal : Request → User → Incident → Db → Outcome
take_internal rq u i db =
    if is_some i.taken_by || is_some i.take_in_charge_mode
    then refuse already_taken db
    else if not (is_declared i.etat)
    then refuse wrong_etat db
    else let i' : Incident = taken_row rq u internal i in
      let db' : Db = save_incident i' db in
      let db'' : Db = elim (find (is_pair i.id u.id) db.collaborations) [
        | none ↦
            create_collaboration rq i' (new_collaboration rq i u leader CollabStatus.accepted) db'
        | some _ ↦ db'
      ] in
      (ok, log_action u.id db'')

-- the contributors that the new leader has to accept again
abbrev pub to_reset : Incident → User → Collaboration → Bool
to_reset i u c =
    c.incident == i.id && is_contributor c.role && is_accepted c.status && not (c.user == u.id)

-- the row that a leader saves in collaborative mode: only a declared incident changes state
abbrev pub led_row : Request → User → Incident → Incident
led_row rq u i =
    if is_declared i.etat
    then taken_row rq u collaborative i
    else record i { taken_by = some u.id; take_in_charge_mode = some collaborative }

unfoldable pub take_as_leader : Request → User → Incident → Db → Outcome
take_as_leader rq u i db =
    if is_some i.taken_by
    then refuse leader_exists db
    else let i' : Incident = led_row rq u i in
      let db' : Db =
        create_collaboration rq i' (new_collaboration rq i u leader CollabStatus.accepted)
          (save_incident i' db) in
      (
        ok,
        log_action u.id (record db' {
          collaborations =
              update (to_reset i u) (λ c. record c { status = CollabStatus.pending })
                db'.collaborations;
        }),
      )

-- the status with which a collaborator joins
abbrev pub joined_status : CollabRole → Incident → CollabStatus
joined_status observer i = CollabStatus.accepted
joined_status _ i = if is_some i.taken_by then CollabStatus.pending else CollabStatus.accepted

unfoldable pub take_as_other : CollabRole → Request → User → Incident → Db → Outcome
take_as_other role rq u i db =
    let db' : Db =
      create_collaboration rq i (new_collaboration rq i u role (joined_status role i)) db in
    let db'' : Db =
      if is_some i.take_in_charge_mode
      then db'
      else save_incident (record i { take_in_charge_mode = some collaborative }) db' in
    (ok, log_action u.id db'')

-- `mode == 'collaborative'`
unfoldable pub take_collaborative : Option CollabRole → Request → User → Incident → Db → Outcome
take_collaborative none rq u i db = refuse role_required db
take_collaborative (some role) rq u i db =
    if is_internal i.take_in_charge_mode
    then refuse internal_mode db
    else elim (find (is_pair i.id u.id) db.collaborations) [
      | some _ ↦ refuse duplicate db
      | none ↦ elim role [
        | leader ↦ take_as_leader rq u i db
        | contributor ↦ take_as_other contributor rq u i db
        | observer ↦ take_as_other observer rq u i db
      ]
    ]

unfoldable pub take_in_charge : Option Mode → Option CollabRole → Request → Db → Outcome
take_in_charge mode role rq db = as_user (is_authenticated ∷ org_admin_role ∷ []) rq db λ u.
    with_incident rq db λ i. if is_closed i.etat then refuse closed db else elim mode [
      | none ↦ refuse mode_required db
      | some m ↦ elim m [
        | internal ↦ take_internal rq u i db
        | collaborative ↦ take_collaborative role rq u i db
      ]
    ]
