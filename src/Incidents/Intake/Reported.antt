-- ===== src/Incidents/Intake/Reported.antt =====
-- What a report leaves in the tables.
use mapapi.Prelude.{
  ℕ, suc, ◌≡◌, refl, Bool, true, false, ◌||◌, Option, given, none, some, if◌then◌else◌, ◌==◌,
}
use mapapi.Orm.{exists}
use mapapi.Models.{Incident, Etat, medium, is_final, get_incident}
use mapapi.Incidents.Reports.{IncidentData}
use mapapi.Http.{Reply, Error, created, server_error}
use mapapi.Incidents.Intake.{Report, Intake, store_report, award, open_prediction}

-- the row as the request sends it: each field of the body, or its default; a final one is at 100
abbrev pub as_sent : Report → ℕ → Incident
as_sent r fresh =
    let b : IncidentData = r.body in
    let etat : Etat = given b.etat Etat.declared in
    record {
      id = fresh;
      user_id = given b.user_id none;
      etat = etat;
      taken_by = given b.taken_by none;
      take_in_charge_mode = given b.take_in_charge_mode none;
      resolution_start_date = given b.resolution_start_date none;
      resolution_end_date = given b.resolution_end_date none;
      progress = if is_final etat then 100 else 0;
      is_public = given b.is_public true;
      is_deleted = given b.is_deleted false;
      deleted_at = given b.deleted_at none;
      taken_in_charge_at = given b.taken_in_charge_at none;
      severity = given b.severity (some medium);
      antigel_warned_75 = given b.antigel_warned_75 false;
      antigel_warned_90 = given b.antigel_warned_90 false;
      resolution_submitted_by = given b.resolution_submitted_by none;
      resolution_submitted_at = given b.resolution_submitted_at none;
      validation_deadline = given b.validation_deadline none;
      rejection_reason = given b.rejection_reason none;
    }

-- the reply to a stored report and the points after it: a point for the user, and a server error on an
-- empty key and on a user without points
abbrev pub rewarded : Report → (ℕ → Option ℕ) → Reply × (ℕ → Option ℕ)
rewarded r points = elim r.body.user_id [
  | none ↦ (created, points)
  | some none ↦ (if r.blank_user then Reply.refused server_error else created, points)
  | some (some k) ↦ elim (points k) [
    | none ↦ (Reply.refused server_error, points)
    | some n ↦ (created, λ j. if j == k then some (suc n) else points j)
  ]
]

-- What a report comes to, by the error of its body.
abbrev pub Comes : Report → ℕ → Intake → Option Error → Reply × Intake → Type 0
Comes r fresh s (some e) o = o ≡ (Reply.refused e, s)
Comes r fresh s none o =
    (o.0 ≡ (rewarded r s.points).0)
    × ((j : ℕ)
        → get_incident j o.1.db
          ≡ (if fresh == j then some (as_sent r fresh) else get_incident j s.db))
    × ((z : ℕ)
        → exists (λ y. y == z) o.1.zones ≡ (z == r.zone_name || exists (λ y. y == z) s.zones))
    × ((j : ℕ) → o.1.points j ≡ (rewarded r s.points).1 j)

-- what the award comes to
abbrev finished : Report → ℕ → Bool → Intake → Option Intake → Reply × Intake
finished r fresh broker_up s none = (Reply.refused server_error, store_report r fresh s)
finished r fresh broker_up s (some t) = (created, open_prediction r.photo broker_up fresh t)

pub award-known :
    (r : Report) (t : Intake) (k n : ℕ)
    → r.body.user_id ≡ some (some k)
    → t.points k ≡ some n
    → award r t ≡ some (record t { points = λ j. if j == k then some (suc n) else t.points j })
unfolding award
award-known r t k n user points = rw (user, award) (rw (points, award) refl)

module _ (r : Report) (fresh : ℕ) (broker_up : Bool) (s : Intake)
    (new : get_incident fresh s.db ≡ none) where
  abbrev stored : Intake
  stored = store_report r fresh s
