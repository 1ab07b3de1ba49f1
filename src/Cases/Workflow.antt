-- ===== src/Cases/Workflow.antt =====
-- The workflow, the timers and the taking in charge at concrete requests.
use mapapi.Prelude.{◌≡◌, refl, true, none, some, [], ◌∷◌, ◌++◌, ℕ, if◌then◌else◌}
use mapapi.Models.{
  Etat, is_taken, internal, collaborative, leader, contributor, leader_of, get_incident,
}
use mapapi.Http.{is_refused}
use mapapi.Roles.{get_web_role, is_org_admin}
use mapapi.Permissions.{permitted, has_permission}
use mapapi.Incidents.TakeInCharge.{take_in_charge, take_internal, take_collaborative, take_as_other}
use mapapi.Incidents.TakeInCharge.Exclusive.{
  take_all, second_claim_refused, join_without_leader_lost,
}
use mapapi.Flow.{follows, etat_of}
use mapapi.Flow.Run.{declare_done, apply, apply-follows}
use mapapi.Beat.{
  auto_validate_overdue_resolutions, revert_stale_taken_incidents, antigel_deadline_days,
}
use mapapi.Beat.Effects.{get-auto_validate, finalised, thawed}
use mapapi.Beat.Warnings.{warnings, revert_stale_taken_incidents_lem}
use mapapi.Flow.Sound.{AllSound}
use mapapi.Flow.Soundness.{apply-AllSound}
use mapapi.Flow.Tacit.{tacit_validation}
use mapapi.Flow.Freeze.{freeze_reverts}
use mapapi.Incidents.Resolution.{declare_resolved}
use mapapi.Cases.Sample.{sample-Distinct, alice, bob, sample, request_by, led_one, waiting_one}

apply-follows_example :
    follows (etat_of 2 sample) (etat_of 2 (apply (declare_done (request_by alice 2)) sample).1)
    ≡ true
apply-follows_example = apply-follows (declare_done (request_by alice 2)) sample 2

second_claim_refused_example :
    is_refused
      (take_in_charge (some collaborative) (some leader) (request_by alice 1) (
        take_all
          ((some internal, none, request_by alice 1) ∷ [])
          (take_in_charge (some internal) none (request_by bob 1) sample).1)).0
    ≡ true
unfolding take_in_charge take_internal permitted has_permission is_org_admin get_web_role
second_claim_refused_example =
    second_claim_refused (some internal) (some collaborative) none (some leader) (request_by bob 1)
      (request_by alice 1) ((some internal, none, request_by alice 1) ∷ []) sample refl refl refl
      refl refl refl

join_without_leader_lost_example :
    (take_in_charge
      (some collaborative)
      (some contributor)
      (request_by bob 1)
      sample).1.collaborations
    ≡ sample.collaborations
unfolding take_in_charge take_collaborative take_as_other permitted has_permission is_org_admin
    get_web_role
join_without_leader_lost_example =
    join_without_leader_lost contributor (request_by bob 1) sample refl refl refl refl refl refl

get-auto_validate_example :
    get_incident 4 (auto_validate_overdue_resolutions 1000 sample) ≡ some (finalised waiting_one)
get-auto_validate_example = get-auto_validate 1000 sample 4 sample-Distinct

-- after 55 days of the 60
revert_stale_taken_incidents_lem_example :
    ((k : ℕ)
      → get_incident k (revert_stale_taken_incidents 4752000 sample)
        ≡ elim (get_incident k sample) [
          | none ↦ none
          | some i ↦ some (
              if is_taken i.etat
              then elim i.taken_in_charge_at [ none ↦ i | some at ↦ thawed 4752000 at i ]
              else i)
        ])
    × ((revert_stale_taken_incidents 4752000 sample).notifications
        ≡ sample.notifications ++ warnings 4752000 sample.users sample.incidents)
revert_stale_taken_incidents_lem_example =
    revert_stale_taken_incidents_lem 4752000 sample sample-Distinct

sample-AllSound : AllSound (record sample { incidents = led_one ∷ waiting_one ∷ [] })
sample-AllSound = (refl, (refl, tt))

apply-AllSound_example :
    AllSound
      (apply
        (declare_done (request_by alice 2))
        (record sample { incidents = led_one ∷ waiting_one ∷ [] })).1
apply-AllSound_example =
    apply-AllSound (declare_done (request_by alice 2))
      (record sample { incidents = led_one ∷ waiting_one ∷ [] }) sample-AllSound

tacit_validation_example :
    etat_of 2
      (auto_validate_overdue_resolutions 300000 (declare_resolved (request_by alice 2) sample).1)
    ≡ some Etat.resolved_definitive
unfolding declare_resolved permitted has_permission is_org_admin get_web_role
tacit_validation_example =
    tacit_validation (request_by alice 2) sample 300000 2 sample-Distinct refl refl

freeze_reverts_example :
    (etat_of 1 (
        revert_stale_taken_incidents 6000000
          (take_in_charge (some internal) none (request_by bob 1) sample).1)
      ≡ some Etat.declared)
    × (leader_of 1 (
          revert_stale_taken_incidents 6000000
            (take_in_charge (some internal) none (request_by bob 1) sample).1)
        ≡ none)
unfolding take_in_charge take_internal permitted has_permission is_org_admin get_web_role
    antigel_deadline_days
freeze_reverts_example =
    freeze_reverts (request_by bob 1) sample 6000000 1 sample-Distinct refl refl refl refl
