-- ===== src/Collaborations/Table/Requests.antt =====
-- Requests to the views that write one row of the table Collaboration.
use mapapi.Prelude.{ℕ, Option, none, some, arith}
use mapapi.Models.{Db, CollabStatus, Mode, CollabRole}
use mapapi.Http.{Request}
use mapapi.Views.{Outcome}
use mapapi.Views.Keeps.{holds-as_user}
use mapapi.Collaborations.{
  CollaborationBody, CollabAction, accept, reject, request_collaboration, handle_collaboration,
  accept_collaboration, decline_collaboration,
}
use mapapi.Collaborations.Unique.{request_collaboration-OnePair}
use mapapi.Collaborations.Edits.{
  CollaborationPatch, patch_collaboration, put_collaboration, destroy_collaboration,
}
use mapapi.Collaborations.Answers.{CollabAnswer, handle, accepting, declining, answer_collaboration}
use mapapi.Incidents.TakeInCharge.{take_in_charge}
use mapapi.Suggestions.{accept_suggestion}
use mapapi.Collaborations.Table.Taking.{take_in_charge-IsTable, accept_suggestion-IsTable}
use mapapi.Collaborations.Table.{IsTable, IsFresh, request-OneKey, delete-OneKey, delete-OnePair}
use mapapi.Collaborations.Table.Saving.{
  holds-with_collaboration, save_answer-IsTable, store_accepted-IsTable, edit-IsTable,
  holds-with_writable,
}

-- a request
pub data CollabRequest : Type 0 where
  requesting : CollaborationBody → CollabRequest
  answering : CollabAnswer → ℕ → CollabRequest
  editing : ℕ → CollaborationPatch → CollabRequest
  replacing : ℕ → CollaborationPatch → CollabRequest
  destroying : ℕ → CollabRequest
  taking : Option Mode → Option CollabRole → CollabRequest
  engaging : ℕ → CollabRequest

unfoldable pub apply_collaboration : CollabRequest → Request → Db → Outcome
apply_collaboration (requesting b) rq db = request_collaboration b rq db
apply_collaboration (answering x pk) rq db = answer_collaboration x pk rq db
apply_collaboration (editing pk p) rq db = patch_collaboration pk p rq db
apply_collaboration (replacing pk p) rq db = put_collaboration pk p rq db
apply_collaboration (destroying pk) rq db = destroy_collaboration pk rq db
apply_collaboration (taking mode role) rq db = take_in_charge mode role rq db
apply_collaboration (engaging pk) rq db = accept_suggestion pk rq db

module _ (rq : Request) (db : Db) (t : IsTable db) where
  handle-IsTable :
      (action : Option CollabAction) (pk : ℕ) → IsTable (handle_collaboration action pk rq db).1
  unfolding handle_collaboration
  handle-IsTable none pk =
      holds-as_user _ rq db (λ x. IsTable x.1) _ (λ _. t)
        λ u. holds-with_collaboration pk db IsTable _ t λ c i mine. t
  handle-IsTable (some accept) pk =
      holds-as_user _ rq db (λ x. IsTable x.1) _ (λ _. t)
        λ u. holds-with_collaboration pk db IsTable _ t λ c i mine.
          let s = store_accepted-IsTable c i db mine t in
          ((λ k v. ground (arith, t.0 k v, s.0 k v)), (λ k. ground (arith, t.1 k, s.1 k)))
  handle-IsTable (some reject) pk =
      holds-as_user _ rq db (λ x. IsTable x.1) _ (λ _. t)
        λ u. holds-with_collaboration pk db IsTable _ t λ c i mine.
          let s = save_answer-IsTable CollabStatus.declined c db mine t in
          ((λ k v. ground (arith, t.0 k v, s.0 k v)), (λ k. ground (arith, t.1 k, s.1 k)))

  accept-IsTable : (pk : ℕ) → IsTable (accept_collaboration pk rq db).1
  unfolding accept_collaboration
  accept-IsTable pk =
      holds-as_user _ rq db (λ x. IsTable x.1) _ (λ _. t)
        λ u. holds-with_collaboration pk db IsTable _ t λ c i mine.
          let s = store_accepted-IsTable c i db mine t in
          ((λ k v. ground (arith, t.0 k v, s.0 k v)), (λ k. ground (arith, t.1 k, s.1 k)))

  decline-IsTable : (pk : ℕ) → IsTable (decline_collaboration pk rq db).1
  unfolding decline_collaboration
  decline-IsTable pk =
      holds-as_user _ rq db (λ x. IsTable x.1) _ (λ _. t)
        λ u. holds-with_collaboration pk db IsTable _ t λ c i mine.
          let s = save_answer-IsTable CollabStatus.declined c db mine t in
          ((λ k v. ground (arith, t.0 k v, s.0 k v)), (λ k. ground (arith, t.1 k, s.1 k)))

  -- Every request to a view that writes one row of the table Collaboration, be it a request, an
  -- answer, PATCH, PUT, DELETE, taking an incident in charge or the acceptance of a suggestion, keeps that
  -- there is one row at most for an incident and a user and one for a key, if no row has the key of
  -- a new one.
  pub apply_collaboration-IsTable :
      (x : CollabRequest) → IsFresh rq db → IsTable (apply_collaboration x rq db).1
  unfolding apply_collaboration answer_collaboration patch_collaboration put_collaboration
      destroy_collaboration
  apply_collaboration-IsTable (requesting b) free =
      (request_collaboration-OnePair b rq db t.0, request-OneKey b rq db free t.1)
  apply_collaboration-IsTable (answering (handle action) pk) free = handle-IsTable action pk
  apply_collaboration-IsTable (answering accepting pk) free = accept-IsTable pk
  apply_collaboration-IsTable (answering declining pk) free = decline-IsTable pk
  apply_collaboration-IsTable (editing pk p) free =
      holds-with_writable pk rq db _ t λ c mine. edit-IsTable p rq db c mine t
  apply_collaboration-IsTable (replacing pk p) free = holds-with_writable pk rq db _ t λ c mine.
      let s = edit-IsTable p rq db c mine t in
      ((λ k v. ground (arith, t.0 k v, s.0 k v)), (λ k. ground (arith, t.1 k, s.1 k)))
  apply_collaboration-IsTable (destroying pk) free =
      holds-with_writable pk rq db _ t λ c mine. (delete-OnePair c db t.0, delete-OneKey c db t.1)
  apply_collaboration-IsTable (taking mode role) free =
      take_in_charge-IsTable mode role rq db free t
  apply_collaboration-IsTable (engaging pk) free = accept_suggestion-IsTable pk rq db free t
