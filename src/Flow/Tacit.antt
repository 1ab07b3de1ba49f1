-- ===== src/Flow/Tacit.antt =====
-- The tacit validation, from the declaration to the job.
use mapapi.Prelude.{
  ℕ, ◌+◌, ◌≡◌, false, some, arith, inl, inr, Option-cases, if◌then◌else◌, ltb, subst, sym,
}
use mapapi.Models.{Incident, Db, Etat, get_incident, get-save, save_incident, settle}
use mapapi.Http.{Request, is_refused}
use mapapi.Permissions.{incident_of_view}
use mapapi.Views.Loaded.{loaded, loaded-id}
use mapapi.Incidents.Resolution.{declare_resolved, submitted_row, hours_72}
use mapapi.Beat.{auto_validate_overdue_resolutions}
use mapapi.Beat.Loop.{Distinct, Distinct-save}
use mapapi.Beat.Effects.{get-auto_validate}
use mapapi.Flow.{etat_of}

-- what a declaration that succeeds has saved
declare-saves :
    (rq : Request) (db : Db)
    → is_refused (declare_resolved rq db).0 ≡ false
    → (i : Incident) × (incident_of_view rq db ≡ some i)
      × ((declare_resolved rq db).1 ≡ save_incident (submitted_row rq i) db)
unfolding declare_resolved
declare-saves rq db h = elim (Option-cases rq.user) [
  | inl e ↦ cc (rw e at h)
  | inr (u, e) ↦ elim (Option-cases (incident_of_view rq db)) [
    | inl n ↦ ground (arith, e, n)
    | inr (i, n) ↦ (i, n, ground (arith, e, n))
  ]
]

get-submitted :
    (rq : Request) (i : Incident) (k : ℕ) (db : Db)
    → i.id ≡ k
    → get_incident k db ≡ some i
    → get_incident k (save_incident (submitted_row rq i) db) ≡ some (submitted_row rq i)
unfolding settle
get-submitted rq i k db e h = ground (arith, get-save (submitted_row rq i) k db)

-- An incident whose resolution has been declared, and on which nobody acts, is resolved for good by
-- the next run of the tacit validation that comes later than 72 hours; any earlier run leaves it in
-- validation.
pub tacit_validation :
    (rq : Request) (db : Db) (later k : ℕ)
    → Distinct db.incidents
    → rq.incident_id ≡ some k
    → is_refused (declare_resolved rq db).0 ≡ false
    → etat_of k (auto_validate_overdue_resolutions later (declare_resolved rq db).1)
      ≡ some
          (if ltb (rq.now + hours_72) later then Etat.resolved_definitive else Etat.in_validation)
tacit_validation rq db later k d hk h =
    let (i, n, e) = declare-saves rq db h in
    let own : i.id ≡ k = cc (loaded-id rq db n, hk) in
    let here : get_incident k db ≡ some i =
      subst (λ x. get_incident x db ≡ some i) own (loaded rq db n) in
    subst
      (λ x.
        etat_of k (auto_validate_overdue_resolutions later x)
        ≡ some (
            if ltb (rq.now + hours_72) later then Etat.resolved_definitive else Etat.in_validation))
      (sym e)
      (ground (
        arith,
        get-auto_validate later (save_incident (submitted_row rq i) db) k
            (Distinct-save (submitted_row rq i) db d),
        get-submitted rq i k db own here,
      ))
