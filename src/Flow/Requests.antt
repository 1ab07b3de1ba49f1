-- ===== src/Flow/Requests.antt =====
-- The views of the workflow against the life cycle, one by one.
use mapapi.Prelude.{
  ℕ, ◌≡◌, refl, Bool, true, false, Option, none, some, List, ◌==◌, ◌&&◌, String, arith, inl, inr,
  Bool-cases, Option-cases, if◌then◌else◌,
}
use mapapi.Orm.{exists, update}
use mapapi.Models.{is_accepted, is_pair, resolved, User, Incident, Db, is_taken, get_incident}
use mapapi.Http.{Request}
use mapapi.Permissions.{Permission, incident_of_view}
use mapapi.Views.{Outcome, as_user, with_incident}
use mapapi.Views.Loaded.{loaded}
use mapapi.Incidents.Resolution.{
  Handling, take_into_account, resolve, handle_incident, close_incident, prepare_resolution,
  return_for_completion, declare_resolved, validate_resolution, reject_resolution,
  terminate_active_collaborations, handled_row, resolved_row, closed_row, prepared_row,
  returned_row, submitted_row, definitive_row, rejected_row,
}
use mapapi.Incidents.Disengage.{disengage, released, abandoned, to_propose, proposed, ended}
use mapapi.Flow.{flows, follows, etat_of, follows_refl, follows-save}

-- A view follows the life cycle if its body does on the row it loads.
module _ (classes : List Permission) (rq : Request) (db : Db) (k : ℕ) where
  pub follows-view :
      (body : User → Incident → Outcome)
      → ((u : User) (i : Incident)
          → get_incident i.id db ≡ some i
          → follows (etat_of k db) (etat_of k (body u i).1) ≡ true)
      → follows
          (etat_of k db)
          (etat_of k (as_user classes rq db λ u. with_incident rq db λ i. body u i).1)
        ≡ true
  follows-view body step = elim (Option-cases rq.user) [
    | inl e ↦ ground (arith, e, follows_refl (etat_of k db))
    | inr (u, e) ↦ elim (Option-cases (incident_of_view rq db)) [
      | inl e' ↦ ground (arith, e, e', follows_refl (etat_of k db))
      | inr (i, e') ↦ ground (arith, e, e', step u i (loaded rq db e'), follows_refl (etat_of k db))
    ]
  ]

-- the body of a view: what is refused leaves the database as it was
module _ (db : Db) (k : ℕ) where
  follows-if :
      (b : Bool) (x y : Outcome)
      → (b ≡ true → follows (etat_of k db) (etat_of k x.1) ≡ true)
      → (b ≡ false → follows (etat_of k db) (etat_of k y.1) ≡ true)
      → follows (etat_of k db) (etat_of k (if b then x else y).1) ≡ true
  follows-if true x y f g = f refl
  follows-if false x y f g = g refl

  same : follows (etat_of k db) (etat_of k db) ≡ true
  same = follows_refl (etat_of k db)

-- `Follows o k`: the outcome follows the life cycle at the key
abbrev pub Follows : Db → ℕ → Outcome → Type 0
Follows db k x = follows (etat_of k db) (etat_of k x.1) ≡ true

module _ (rq : Request) (db : Db) (k : ℕ) where
  pub Follows-prepare_resolution : Follows db k (prepare_resolution rq db)
  unfolding prepare_resolution
  Follows-prepare_resolution = follows-view _ rq db k _ λ u i here.
      follows-if db k _ _ _ (λ _. same db k)
        (λ g. follows-save i (prepared_row rq u i) k db here refl (ground arith))

  pub Follows-return_for_completion : Follows db k (return_for_completion rq db)
  unfolding return_for_completion
  Follows-return_for_completion = follows-view _ rq db k _ λ u i here.
      follows-if db k _ _ _ (λ _. same db k)
        (λ g. follows-save i (returned_row i) k db here refl (ground arith))

  pub Follows-declare_resolved : Follows db k (declare_resolved rq db)
  unfolding declare_resolved
  Follows-declare_resolved = follows-view _ rq db k _ λ u i here.
      follows-if db k _ _ _ (λ _. same db k)
        (λ g. follows-save i (submitted_row rq i) k db here refl (ground arith))

  pub Follows-validate_resolution : Follows db k (validate_resolution rq db)
  unfolding validate_resolution terminate_active_collaborations
  Follows-validate_resolution = follows-view _ rq db k _ λ u i here.
      follows-if db k _ _ _ (λ _. same db k)
        (λ g. follows-save i (definitive_row i) k db here refl (ground arith))

  pub Follows-reject_resolution :
      (motif : Option String) → Follows db k (reject_resolution motif rq db)
  unfolding reject_resolution
  Follows-reject_resolution none =
      follows-view _ rq db k _ λ u i here. follows-if db k _ _ _ (λ _. same db k) (λ _. same db k)
  Follows-reject_resolution (some m) = follows-view _ rq db k _ λ u i here.
      follows-if db k _ _ _ (λ _. same db k)
        (λ g. follows-save i (rejected_row m i) k db here refl (ground arith))

  pub Follows-handle_incident : (a : Option Handling) → Follows db k (handle_incident a rq db)
  unfolding handle_incident
  Follows-handle_incident none = follows-view _ rq db k _ λ u i here. same db k
  Follows-handle_incident (some take_into_account) = follows-view _ rq db k _ λ u i here.
      follows-if db k _ _ _ (λ g. follows-save i (handled_row u i) k db here refl (ground arith))
        (λ _. same db k)
  Follows-handle_incident (some resolve) = follows-view _ rq db k _ λ u i here.
      follows-if db k _ _ _ (λ g. follows-save i (resolved_row i) k db here refl (ground arith))
        (λ _. same db k)

  pub Follows-close_incident : (s e : Option ℕ) → Follows db k (close_incident s e rq db)
  unfolding close_incident
  Follows-close_incident none e = follows-view _ rq db k _ λ u i here. ground (arith, same db k)
  Follows-close_incident (some s) none =
      follows-view _ rq db k _ λ u i here. ground (arith, same db k)
  Follows-close_incident (some s) (some e) = follows-view _ rq db k _ λ u i here.
      let step : flows i.etat resolved ≡ true = ground arith in
      ground (arith, same db k, follows-save i (closed_row s e i) k db here refl step)

  pub Follows-disengage : Follows db k (disengage rq db)
  unfolding disengage
  Follows-disengage = follows-view _ rq db k _ λ u i here. elim (Bool-cases (is_taken i.etat)) [
    | inl t ↦
        let ended_db : Db = record db {
          collaborations = update (is_pair i.id u.id) ended db.collaborations;
        } in
        let proposed_db : Db = record db {
          collaborations = update (to_propose i u) proposed ended_db.collaborations;
        } in
        let ended_all : Db = record db {
          collaborations =
              update (λ c. c.incident == i.id && is_accepted c.status) ended
                ended_db.collaborations;
        } in
        elim (Bool-cases (exists (to_propose i u) ended_db.collaborations)) [
          | inl p ↦ rw t (rw p (follows-save i (released i) k proposed_db here refl (ground arith)))
          | inr p ↦ rw t (rw p (follows-save i (abandoned i) k ended_all here refl (ground arith)))
        ]
    | inr t ↦ rw t (same db k)
  ]
