-- ===== src/Flow/Run.antt =====
-- The workflow as a run of requests, one after the other, of any users and on any incidents.
use mapapi.Prelude.{
  ℕ, String, ◌≡◌, refl, Bool, true, false, Option, none, some, List, [], ◌∷◌, arith,
}
use mapapi.Models.{
  Db, Etat, declared, resolved, in_progress, taken, resolution_prepared, in_validation,
  resolved_definitive, Mode, CollabRole, is_final,
}
use mapapi.Http.{Request}
use mapapi.Views.{Outcome}
use mapapi.Incidents.TakeInCharge.{take_in_charge}
use mapapi.Incidents.Resolution.{
  Handling, handle_incident, close_incident, prepare_resolution, return_for_completion,
  declare_resolved, validate_resolution, reject_resolution,
}
use mapapi.Incidents.Disengage.{disengage}
use mapapi.Flow.{follows, etat_of}
use mapapi.Flow.Requests.{
  Follows-prepare_resolution, Follows-return_for_completion, Follows-declare_resolved,
  Follows-validate_resolution, Follows-reject_resolution, Follows-handle_incident,
  Follows-close_incident, Follows-disengage,
}
use mapapi.Flow.Taking.{Follows-take_in_charge}

-- a request to one of the views of the workflow, with what its body says
pub data Event : Type 0 where
  take : Option Mode → Option CollabRole → Request → Event
  handle : Option Handling → Request → Event
  close : Option ℕ → Option ℕ → Request → Event
  prepare return_back declare_done validate leave : Request → Event
  reject : Option String → Request → Event

unfoldable pub apply : Event → Db → Outcome
apply (take mode role rq) db = take_in_charge mode role rq db
apply (handle action rq) db = handle_incident action rq db
apply (close start end_ rq) db = close_incident start end_ rq db
apply (prepare rq) db = prepare_resolution rq db
apply (return_back rq) db = return_for_completion rq db
apply (declare_done rq) db = declare_resolved rq db
apply (validate rq) db = validate_resolution rq db
apply (leave rq) db = disengage rq db
apply (reject motif rq) db = reject_resolution motif rq db

-- the database after the requests of a list
unfoldable pub run : List Event → Db → Db
unfolding apply
run [] db = db
run (e ∷ es) db = run es (apply e db).1

-- Every request to a view of the workflow, whoever sends it and whatever it says, leaves each
-- incident in its state or moves it along an edge of the life cycle; none appears or goes away.
pub apply-follows :
    (e : Event) (db : Db) (k : ℕ) → follows (etat_of k db) (etat_of k (apply e db).1) ≡ true
unfolding apply
apply-follows (take mode role rq) db k = Follows-take_in_charge mode role rq db k
apply-follows (handle action rq) db k = Follows-handle_incident rq db k action
apply-follows (close s e rq) db k = Follows-close_incident rq db k s e
apply-follows (prepare rq) db k = Follows-prepare_resolution rq db k
apply-follows (return_back rq) db k = Follows-return_for_completion rq db k
apply-follows (declare_done rq) db k = Follows-declare_resolved rq db k
apply-follows (validate rq) db k = Follows-validate_resolution rq db k
apply-follows (leave rq) db k = Follows-disengage rq db k
apply-follows (reject motif rq) db k = Follows-reject_resolution rq db k motif

-- what a step can make of a closed incident, and of one that is resolved in either way
from_closed : (o : Option Etat) → follows (some resolved) o ≡ true → o ≡ some resolved
from_closed none h = cc
from_closed (some declared) h = cc
from_closed (some resolved) h = refl
from_closed (some in_progress) h = cc
from_closed (some taken) h = cc
from_closed (some resolution_prepared) h = cc
from_closed (some in_validation) h = cc
from_closed (some resolved_definitive) h = cc

-- `is_final` of a state that may be missing
abbrev pub final_in : Option Etat → Bool
final_in none = false
final_in (some e) = is_final e

from_final : (a b : Option Etat) → final_in a ≡ true → follows a b ≡ true → final_in b ≡ true
from_final a b f h = ground arith

-- A closed incident stays closed, whatever requests follow.
run-closed :
    (es : List Event) (db : Db) (k : ℕ)
    → etat_of k db ≡ some resolved
    → etat_of k (run es db) ≡ some resolved
unfolding run
run-closed [] db k h = h
run-closed (e ∷ es) db k h =
    run-closed es (apply e db).1 k
      (from_closed (etat_of k (apply e db).1) (rw h at (apply-follows e db k)))

-- An incident that is resolved, closed or for good, stays so whatever requests follow: no view
-- takes it up again.
pub run-final :
    (es : List Event) (db : Db) (k : ℕ)
    → final_in (etat_of k db) ≡ true
    → final_in (etat_of k (run es db)) ≡ true
unfolding run
run-final [] db k h = h
run-final (e ∷ es) db k h =
    run-final es (apply e db).1 k (from_final (etat_of k db) _ h (apply-follows e db k))
