-- ===== src/Incidents/Intake/Analysed.antt =====
-- What becomes of the analysis of a reported incident.
use mapapi.Prelude.{
  ℕ, ◌≡◌, refl, Bool, true, false, not, ◌&&◌, ◌||◌, none, some, List, [], ◌∷◌, ◌++◌, arith, inl,
  inr, Bool-cases, Option-cases, if◌then◌else◌, ◌==◌, ==_self, ◌∙◌, sym, ap, suc,
}
use mapapi.Orm.{find, exists}
use mapapi.Http.{created, refused, server_error}
use mapapi.Predictions.{
  Prediction, ServiceResult, fresh_prediction, analyze_incident, failed, with_status,
}
use mapapi.Predictions.Status.{settled, analyze_incident-settled}
use mapapi.Incidents.Intake.Reported.{award-known}
use mapapi.Incidents.Intake.{
  Report, Intake, report_error, store_report, award, open_prediction, create_incident, run_job,
  run_jobs, revise,
}

-- whether the prediction of an incident is there, and completed or failed
abbrev pub is_settled_in : ℕ → List (ℕ × Prediction) → Bool
is_settled_in k ps = elim (find (λ e. e.0 == k) ps) [ none ↦ false | some e ↦ settled e.1.status ]

abbrev has_prediction : ℕ → List (ℕ × Prediction) → Bool
has_prediction k ps = exists (λ e. e.0 == k) ps

has-revise :
    (k j : ℕ) (f : Prediction → Prediction) (ps : List (ℕ × Prediction))
    → has_prediction k (revise j f ps) ≡ has_prediction k ps
has-revise k j f [] = refl
has-revise k j f (e ∷ ps) = ground (arith, has-revise k j f ps)

-- A revision that settles whatever it is given settles its own prediction.
settled-revise :
    (k j : ℕ) (f : Prediction → Prediction) (ps : List (ℕ × Prediction))
    → ((p : Prediction) → settled (f p).status ≡ true)
    → has_prediction k ps ≡ true
    → is_settled_in k (revise j f ps) ≡ (j == k || is_settled_in k ps)
settled-revise k j f [] h here = cc
settled-revise k j f (e ∷ ps) h here = ground (arith, h e.1, settled-revise k j f ps h)

run_jobs-settled :
    (service : ℕ → ServiceResult) (ks : List ℕ) (k : ℕ) (s : Intake)
    → has_prediction k s.predictions ≡ true
    → is_settled_in k (run_jobs service ks s).predictions
      ≡ (exists (λ j. j == k) ks || is_settled_in k s.predictions)
unfolding run_jobs run_job
run_jobs-settled service [] k s here = refl
run_jobs-settled service (j ∷ ks) k s here =
    let f : Prediction → Prediction = λ p. (analyze_incident (s.photos j) (service j) p).1 in
    run_jobs-settled service ks k (run_job (service j) j s) (has-revise k j f s.predictions ∙ here)
    ∙ ground (
      arith,
      settled-revise k j f s.predictions (λ p. analyze_incident-settled (s.photos j) (service j) p)
          here,
    )

abbrev Kept : Intake → Intake → Type 0
Kept s t = (t.predictions ≡ s.predictions) × (t.queue ≡ s.queue)

same-Kept : (s t : Intake) → some s ≡ some t → Kept s t
same-Kept s t h = let e : t ≡ s = cc in (ap (λ x. x.predictions) e, ap (λ x. x.queue) e)

award-Kept : (r : Report) (s t : Intake) → award r s ≡ some t → Kept s t
unfolding award
award-Kept r s t h = elim (Option-cases r.body.user_id) [
  | inl e ↦ same-Kept s t (rw (e, award) at h)
  | inr w ↦ elim (Option-cases w.0) [
    | inl e ↦ elim (Bool-cases r.blank_user) [
      | inl b ↦ let dead : award r s ≡ none = rw (w.1, award) (rw e (rw b refl)) in cc
      | inr b ↦
          let kept : award r s ≡ some s = rw (w.1, award) (rw e (rw b refl)) in
          same-Kept s t (sym kept ∙ h)
    ]
    | inr v ↦ elim (Option-cases (s.points v.0)) [
      | inl e ↦ let dead : award r s ≡ none = rw (w.1, award) (rw v.1 (rw e refl)) in cc
      | inr n ↦
          same-Kept (record s { points = λ j. if j == v.0 then some (suc n.0) else s.points j }) t
            (sym (award-known r s v.0 n.0 (w.1 ∙ ap some v.1) n.1) ∙ h)
    ]
  ]
]

has-added :
    (k : ℕ) (p : Prediction) (ps : List (ℕ × Prediction))
    → has_prediction k (ps ++ (k, p) ∷ []) ≡ true
has-added k p [] = rw (==_self k) refl
has-added k p (e ∷ ps) = ground (arith, has-added k p ps)

settled-added :
    (k : ℕ) (p : Prediction) (ps : List (ℕ × Prediction))
    → has_prediction k ps ≡ false
    → is_settled_in k (ps ++ (k, p) ∷ []) ≡ settled p.status
settled-added k p [] new = rw (==_self k, is_settled_in) refl
settled-added k p (e ∷ ps) new = ground (arith, settled-added k p ps)

queued-added : (k : ℕ) (ks : List ℕ) → exists (λ j. j == k) (ks ++ k ∷ []) ≡ true
queued-added k [] = rw (==_self k) refl
queued-added k (j ∷ ks) = ground (arith, queued-added k ks)

settled-open :
    (photo broker_up : Bool) (k : ℕ) (t : Intake)
    → has_prediction k t.predictions ≡ false
    → exists (λ j. j == k) t.queue ≡ false
    → let o : Intake = open_prediction photo broker_up k t in
      (has_prediction k o.predictions ≡ true)
      × (is_settled_in k o.predictions ≡ not photo)
      × (exists (λ j. j == k) o.queue ≡ (photo && broker_up))
unfolding open_prediction
settled-open true true k t new unqueued = rw new (
  has-added k fresh_prediction t.predictions,
  settled-added k fresh_prediction t.predictions new,
  queued-added k t.queue,
)
settled-open true false k t new unqueued = rw new (
  has-added k fresh_prediction t.predictions,
  settled-added k fresh_prediction t.predictions new,
  unqueued,
)
settled-open false b k t new unqueued =
    let ps : List (ℕ × Prediction) = t.predictions ++ (k, fresh_prediction) ∷ [] in
    let here : has_prediction k ps ≡ true = has-added k fresh_prediction t.predictions in
    rw new (
      has-revise k k (with_status failed) ps ∙ here,
      settled-revise k k (with_status failed) ps (λ p. refl) here ∙ rw (==_self k) refl,
      unqueued,
    )

either : (p b : Bool) → (p && b || not p) ≡ (b || not p)
either true b = ground arith
either false b = ground arith

-- what a report that succeeds does
created-open :
    (r : Report) (fresh : ℕ) (broker_up : Bool) (s : Intake)
    → (create_incident r fresh broker_up s).0 ≡ created
    → (t : Intake) × Kept s t
      × (create_incident r fresh broker_up s ≡ (created, open_prediction r.photo broker_up fresh t))
unfolding create_incident
created-open r fresh broker_up s ok = elim (Option-cases (report_error r fresh s.db)) [
  | inr w ↦
      let dead : (create_incident r fresh broker_up s).0 ≡ refused w.0 =
        rw (w.1, create_incident) refl in
      cc
  | inl e ↦ elim (Option-cases (award r (store_report r fresh s))) [
    | inl f ↦
        let dead : (create_incident r fresh broker_up s).0 ≡ refused server_error =
          rw (e, create_incident) (rw f refl) in
        cc
    | inr w ↦
        (w.0, award-Kept r (store_report r fresh s) w.0 w.1, rw (e, create_incident) (rw w.1 refl))
  ]
]

-- Once the queued jobs have run, whatever the service does, the prediction of an incident that was just
-- reported is completed or failed, unless it has a photograph and the broker did not take the job: then
-- it is pending and nothing is queued for it.
pub create_incident-settles :
    (r : Report) (fresh : ℕ) (broker_up : Bool) (s : Intake) (service : ℕ → ServiceResult)
    → (create_incident r fresh broker_up s).0 ≡ created
    → exists (λ e. e.0 == fresh) s.predictions ≡ false
    → exists (λ j. j == fresh) s.queue ≡ false
    → let t : Intake = (create_incident r fresh broker_up s).1 in
      is_settled_in fresh (run_jobs service t.queue t).predictions ≡ (broker_up || not r.photo)
create_incident-settles r fresh broker_up s service ok new unqueued =
    let w : (t : Intake) × Kept s t
        × (create_incident r fresh broker_up s
            ≡ (created, open_prediction r.photo broker_up fresh t)) =
      created-open r fresh broker_up s ok in
    let o : Intake = open_prediction r.photo broker_up fresh w.0 in
    let l : (has_prediction fresh o.predictions ≡ true)
        × (is_settled_in fresh o.predictions ≡ not r.photo)
        × (exists (λ j. j == fresh) o.queue ≡ (r.photo && broker_up)) =
      settled-open r.photo broker_up fresh w.0 (rw w.1.0 new) (rw w.1.1 unqueued) in
    rw w.2 (run_jobs-settled service o.queue fresh o l.0 ∙ rw (l.1, l.2) (either r.photo broker_up))
