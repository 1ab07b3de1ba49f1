-- ===== src/Cases/Records.antt =====
-- Tasks, assignments, collaborations and the trash at concrete requests.
use mapapi.Prelude.{ℕ, ◌≡◌, ◌+◌, ◌*◌, ◌&&◌, if◌then◌else◌, ltb, refl, none, some, arith}
use mapapi.Models.{get_incident}
use mapapi.Roles.{get_web_role, is_super_admin}
use mapapi.Permissions.{
  permitted, has_permission, incident_leader_or_contributor, leads, leads_or_contributes,
  has_accepted,
}
use mapapi.Tasks.{complete_task}
use mapapi.Tasks.Requests.{confirm, complete, apply_task}
use mapapi.Tasks.Current.{apply_task-IsCurrent}
use mapapi.Tasks.Progress.{IsCurrent}
use mapapi.Tasks.Valid.{AllValid, apply_task-AllValid}
use mapapi.OrgAssignments.Pending.{
  OnePending, assign, apply_assignment, apply_assignment-OnePending,
}
use mapapi.Collaborations.Answers.{accepting, answer_collaboration, answer_of_leader}
use mapapi.Beat.{purge_expired_trash}
use mapapi.Trash.Purge.{NoOrphan, purge_expired_trash_lem}
use mapapi.Cases.Sample.{sample-Distinct, alice, bob, root, sample, request_by}

apply_task-IsCurrent_example :
    IsCurrent 2 (apply_task (complete (some "proof.jpg") none 41 (request_by alice 2)) sample).1
unfolding apply_task complete_task permitted has_permission incident_leader_or_contributor
    leads_or_contributes is_super_admin get_web_role
apply_task-IsCurrent_example =
    apply_task-IsCurrent (complete (some "proof.jpg") none 41 (request_by alice 2)) sample 2 refl
      refl

apply_task-AllValid_example : AllValid (apply_task (confirm 41 (request_by alice 2)) sample).1
apply_task-AllValid_example =
    apply_task-AllValid (confirm 41 (request_by alice 2)) sample ((ground arith, tt), tt)

one_pending : OnePending sample
one_pending k = ground arith

apply_assignment-OnePending_example :
    OnePending (apply_assignment (assign (some 20) (request_by root 2)) sample).1
apply_assignment-OnePending_example =
    apply_assignment-OnePending (assign (some 20) (request_by root 2)) sample one_pending

answer_of_leader_example : (answer_collaboration accepting 32 (request_by bob 2) sample).1 ≡ sample
unfolding leads has_accepted
answer_of_leader_example =
    answer_of_leader accepting 32 (request_by bob 2) sample refl refl refl refl

no_orphan : NoOrphan sample
no_orphan =
    ((λ k e. ground arith), (λ k e. ground arith), (λ k e. ground arith), (λ k e. ground arith))

purge_expired_trash_lem_example :
    ((k : ℕ)
      → get_incident k (purge_expired_trash 2600000 sample) ≡ elim (get_incident k sample) [
        | none ↦ none
        | some i ↦ elim i.deleted_at [
          | none ↦ some i
          | some d ↦ if i.is_deleted && ltb (d + 30 * 86400) 2600000 then none else some i
        ]
      ])
    × NoOrphan (purge_expired_trash 2600000 sample)
purge_expired_trash_lem_example = purge_expired_trash_lem 2600000 sample sample-Distinct no_orphan
