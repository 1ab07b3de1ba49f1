-- ===== src/Flow/Soundness.antt =====
-- The views of the workflow and the soundness of incidents, one by one.
use mapapi.Prelude.{
  ℕ, String, ◌≡◌, refl, Bool, true, false, not, ◌&&◌, ◌||◌, Option, none, some, List, ◌==◌, arith,
  inl, inr, ◌⊎◌, Bool-cases, Option-cases, if◌then◌else◌, subst, sym,
}
use mapapi.Orm.{exists, update, All, find}
use mapapi.Models.{
  User, Incident, Db, Mode, internal, collaborative, CollabRole, leader, contributor, observer,
  is_declared, is_taken, is_prepared, is_internal, is_in_validation, is_closed, is_accepted,
  is_pair, get_incident, save_incident, settle,
}
use mapapi.Http.{
  Request, Error, wrong_etat, motif_required, closed, ok, dates_required, open_tasks, duplicate,
  mode_required, role_required, internal_mode,
}
use mapapi.Permissions.{Permission}
use mapapi.Views.{Outcome, refuse, as_user, with_incident}
use mapapi.Views.Keeps.{holds-view}
use mapapi.Incidents.TakeInCharge.{
  take_internal, take_as_leader, take_as_other, take_collaborative, take_in_charge, taken_row,
  led_row,
}
use mapapi.Incidents.TakeInCharge.Leadership.{
  incidents-take_internal, incidents-take_as_leader, incidents-take_as_other,
}
use mapapi.Incidents.Resolution.{
  Handling, take_into_account, resolve, handle_incident, close_incident, prepare_resolution,
  return_for_completion, declare_resolved, validate_resolution, reject_resolution,
  terminate_active_collaborations, handled_row, resolved_row, closed_row, prepared_row,
  returned_row, submitted_row, definitive_row, rejected_row, has_open_task,
}
use mapapi.Incidents.Disengage.{disengage, released, abandoned, to_propose, proposed, ended}
use mapapi.Flow.Run.{
  Event, take, handle, close, prepare, return_back, declare_done, validate, leave, reject, apply,
}
use mapapi.Flow.Sound.{
  IsSound, AllSound, save-AllSound, if-AllSound, when-AllSound, loaded-IsSound, taken_row-IsSound,
  handled_row-IsSound, resolved_row-IsSound, closed_row-IsSound, prepared_row-IsSound,
  returned_row-IsSound, submitted_row-IsSound, definitive_row-IsSound, rejected_row-IsSound,
  released-IsSound, abandoned-IsSound, led_row-IsSound, opened-IsSound,
}

module _ (rq : Request) (db : Db) (h : AllSound db) where
  resolution-AllSound :
      (e : Error) (b : User → Incident → Bool) (row : User → Incident → Incident)
      → ((u : User) (i : Incident) → IsSound (settle (row u i)))
      → (classes : List Permission)
      → AllSound
          (as_user classes rq db λ u.
            with_incident rq db
              λ i. if b u i then refuse e db else (ok, save_incident (row u i) db)).1
  resolution-AllSound e b row s classes =
      holds-view classes rq db (λ x. AllSound x.1) _ (λ _. h)
        λ u i here. if-AllSound db h (b u i) e _ (λ _. save-AllSound db h (row u i) (s u i))

  prepare-AllSound : AllSound (prepare_resolution rq db).1
  unfolding prepare_resolution
  prepare-AllSound =
      resolution-AllSound wrong_etat (λ u i. not (is_taken i.etat)) (prepared_row rq)
        (λ u i. prepared_row-IsSound rq u i) _

  return-AllSound : AllSound (return_for_completion rq db).1
  unfolding return_for_completion
  return-AllSound =
      resolution-AllSound wrong_etat (λ u i. not (is_prepared i.etat)) (λ u i. returned_row i)
        (λ u i. returned_row-IsSound rq u i) _

  declare-AllSound : AllSound (declare_resolved rq db).1
  unfolding declare_resolved
  declare-AllSound =
      resolution-AllSound wrong_etat (λ u i. not (is_taken i.etat || is_prepared i.etat))
        (λ u i. submitted_row rq i) (λ u i. submitted_row-IsSound rq u i) _

  validate-AllSound : AllSound (validate_resolution rq db).1
  unfolding validate_resolution terminate_active_collaborations
  validate-AllSound =
      holds-view _ rq db (λ x. AllSound x.1) _ (λ _. h)
        λ u i here.
          if-AllSound db h (not (is_in_validation i.etat)) wrong_etat _
            (λ _. save-AllSound db h (definitive_row i) (definitive_row-IsSound rq u i))

  handle-AllSound : (a : Option Handling) → AllSound (handle_incident a rq db).1
  unfolding handle_incident
  handle-AllSound none = holds-view _ rq db (λ x. AllSound x.1) _ (λ _. h) λ u i here. h
  handle-AllSound (some take_into_account) =
      holds-view _ rq db (λ x. AllSound x.1) _ (λ _. h)
        λ u i here.
          when-AllSound db h (is_declared i.etat) wrong_etat _
            (λ _. save-AllSound db h (handled_row u i) (handled_row-IsSound rq u i))
  handle-AllSound (some resolve) =
      holds-view _ rq db (λ x. AllSound x.1) _ (λ _. h)
        λ u i here.
          when-AllSound db h (is_taken i.etat) wrong_etat _
            (λ _. save-AllSound db h (resolved_row i) (resolved_row-IsSound rq u i))

  reject-AllSound : (m : Option String) → AllSound (reject_resolution m rq db).1
  unfolding reject_resolution
  reject-AllSound none =
      holds-view _ rq db (λ x. AllSound x.1) _ (λ _. h)
        λ u i here.
          if-AllSound db h (not (is_in_validation i.etat)) wrong_etat (refuse motif_required db)
            (λ _. h)
  reject-AllSound (some m) =
      holds-view _ rq db (λ x. AllSound x.1) _ (λ _. h)
        λ u i here.
          if-AllSound db h (not (is_in_validation i.etat)) wrong_etat _
            (λ _. save-AllSound db h (rejected_row m i) (rejected_row-IsSound rq u i m))

  close-AllSound : (s e : Option ℕ) → AllSound (close_incident s e rq db).1
  unfolding close_incident
  close-AllSound none e =
      holds-view _ rq db (λ x. AllSound x.1) _ (λ _. h)
        λ u i here. if-AllSound db h (is_closed i.etat) closed (refuse dates_required db) (λ _. h)
  close-AllSound (some s) none =
      holds-view _ rq db (λ x. AllSound x.1) _ (λ _. h)
        λ u i here. if-AllSound db h (is_closed i.etat) closed (refuse dates_required db) (λ _. h)
  close-AllSound (some s) (some e) =
      holds-view _ rq db (λ x. AllSound x.1) _ (λ _. h)
        λ u i here. if-AllSound db h (is_closed i.etat) closed _ λ _.
          if-AllSound db h (has_open_task i db) open_tasks _
            (λ _. save-AllSound db h (closed_row s e i) (closed_row-IsSound rq u i s e))

  disengage-AllSound : AllSound (disengage rq db).1
  unfolding disengage
  disengage-AllSound =
      holds-view _ rq db (λ x. AllSound x.1) _ (λ _. h)
        λ u i here.
          let ended_db : Db = record db {
            collaborations = update (is_pair i.id u.id) ended db.collaborations;
          } in
          let proposed_db : Db = record db {
            collaborations = update (to_propose i u) proposed ended_db.collaborations;
          } in
          let ended_all : Db = record db {
            collaborations =
                update (λ c. c.incident == i.id && is_accepted c.status) ended
                  ended_db.collaborations;
          } in
          if-AllSound db h (not (is_taken i.etat)) wrong_etat _ λ t.
            elim (Bool-cases (exists (to_propose i u) ended_db.collaborations)) [
              | inl p ↦ rw p (
                  save-AllSound proposed_db h (released i) (released-IsSound rq u i (ground arith)))
              | inr p ↦ rw p (save-AllSound ended_all h (abandoned i) (abandoned-IsSound rq u i))
            ]

  module _ (u : User) (i : Incident) (here : get_incident i.id db ≡ some i) where
    saved-AllSound :
        (x : Outcome) (b : Bool) (row : Incident)
        → x.1.incidents ≡ (if b then db.incidents else (save_incident row db).incidents)
        → IsSound (settle row)
        → AllSound x.1
    saved-AllSound x true row e s = subst (All IsSound) (sym e) h
    saved-AllSound x false row e s = subst (All IsSound) (sym e) (save-AllSound db h row s)

    own : IsSound i
    own = loaded-IsSound db h i here

    internal-AllSound : AllSound (take_internal rq u i db).1
    internal-AllSound =
        saved-AllSound (take_internal rq u i db) _ (taken_row rq u internal i)
          (incidents-take_internal rq u i db) (taken_row-IsSound rq u i internal)

    led-AllSound : AllSound (take_as_leader rq u i db).1
    led-AllSound =
        saved-AllSound (take_as_leader rq u i db) _ (led_row rq u i)
          (incidents-take_as_leader rq u i db) (led_row-IsSound rq u i own)

    other-AllSound : (role : CollabRole) → AllSound (take_as_other role rq u i db).1
    other-AllSound role =
        saved-AllSound (take_as_other role rq u i db) _
          (record i { take_in_charge_mode = some collaborative })
          (incidents-take_as_other rq u i db role) (opened-IsSound rq u i own)

    -- what a collaborative request comes to
    take-cases :
        (role : Option CollabRole)
        → ((e : Error) × (take_collaborative role rq u i db ≡ refuse e db))
          ⊎ ((take_collaborative role rq u i db ≡ take_as_leader rq u i db)
              ⊎ ((r : CollabRole) × (take_collaborative role rq u i db
                    ≡ take_as_other r rq u i db)))
    unfolding take_collaborative
    take-cases none = inl (role_required, refl)
    take-cases (some r) = elim (Bool-cases (is_internal i.take_in_charge_mode)) [
      | inl m ↦ inl (internal_mode, ground (arith, m))
      | inr m ↦ elim (Option-cases (find (is_pair i.id u.id) db.collaborations)) [
        | inr (c, f) ↦ inl (duplicate, ground (arith, m, f))
        | inl f ↦
            elim r
              as (λ x.
                ((e : Error) × (take_collaborative (some x) rq u i db ≡ refuse e db))
                ⊎ ((take_collaborative (some x) rq u i db ≡ take_as_leader rq u i db)
                    ⊎ ((y : CollabRole) × (take_collaborative (some x) rq u i db
                          ≡ take_as_other y rq u i db)))) [
                            | leader ↦ inr (inl (ground (arith, m, f)))
                            | contributor ↦ inr (inr (contributor, ground (arith, m, f)))
                            | observer ↦ inr (inr (observer, ground (arith, m, f)))
                          ]
      ]
    ]

    collaborative-AllSound :
        (role : Option CollabRole) → AllSound (take_collaborative role rq u i db).1
    collaborative-AllSound role = elim (take-cases role) [
      | inl (e, t) ↦ subst (λ x. AllSound x.1) (sym t) h
      | inr (inl t) ↦ subst (λ x. AllSound x.1) (sym t) led-AllSound
      | inr (inr (r, t)) ↦ subst (λ x. AllSound x.1) (sym t) (other-AllSound r)
    ]

  take-AllSound :
      (mode : Option Mode) (role : Option CollabRole) → AllSound (take_in_charge mode role rq db).1
  unfolding take_in_charge
  take-AllSound none role =
      holds-view _ rq db (λ x. AllSound x.1) _ (λ _. h)
        λ u i here. if-AllSound db h (is_closed i.etat) closed (refuse mode_required db) (λ _. h)
  take-AllSound (some internal) role =
      holds-view _ rq db (λ x. AllSound x.1) _ (λ _. h)
        λ u i here.
          if-AllSound db h (is_closed i.etat) closed (take_internal rq u i db)
            (λ _. internal-AllSound u i here)
  take-AllSound (some collaborative) role =
      holds-view _ rq db (λ x. AllSound x.1) _ (λ _. h)
        λ u i here.
          if-AllSound db h (is_closed i.etat) closed (take_collaborative role rq u i db)
            (λ _. collaborative-AllSound u i here role)

-- Every request to a view of the workflow keeps every incident sound: a declared incident has no
-- leader, one in validation has a deadline for the tacit validation, and one that is resolved,
-- closed or for good, is at 100 %.
pub apply-AllSound : (e : Event) (db : Db) → AllSound db → AllSound (apply e db).1
unfolding apply
apply-AllSound (take mode role rq) db h = take-AllSound rq db h mode role
apply-AllSound (handle action rq) db h = handle-AllSound rq db h action
apply-AllSound (close s e rq) db h = close-AllSound rq db h s e
apply-AllSound (prepare rq) db h = prepare-AllSound rq db h
apply-AllSound (return_back rq) db h = return-AllSound rq db h
apply-AllSound (declare_done rq) db h = declare-AllSound rq db h
apply-AllSound (validate rq) db h = validate-AllSound rq db h
apply-AllSound (leave rq) db h = disengage-AllSound rq db h
apply-AllSound (reject motif rq) db h = reject-AllSound rq db h motif
