-- ===== src/Cases/Outside.antt =====
-- The analysis of a photograph, and what writes the table of collaborations, at concrete values.
use mapapi.Prelude.{arith, ◌≡◌, refl, true, [], ◌∷◌}
use mapapi.Models.{CollabStatus, Collaboration, Db, observer}
use mapapi.Permissions.{contributes}
use mapapi.Collaborations.Table.{IsTable}
use mapapi.Collaborations.Table.Requests.{editing, apply_collaboration, apply_collaboration-IsTable}
use mapapi.Collaborations.Edits.{patch_collaboration}
use mapapi.Collaborations.Edits.Moved.{moving, patch_collaboration_moves}
use mapapi.Cases.Sample.{bob, fresh_one, sample, request_by, asked_by_bob, led_by_alice}

-- bob observes the incident that alice leads
abbrev watching : Collaboration
watching = record asked_by_bob { status = CollabStatus.accepted; role = observer }

abbrev watched : Db
watched = record sample { collaborations = led_by_alice ∷ watching ∷ [] }

patch_collaboration_moves_example :
    contributes fresh_one bob (patch_collaboration 32 (moving 1) (request_by bob 2) watched).1
    ≡ true
patch_collaboration_moves_example =
    patch_collaboration_moves 1 bob fresh_one watching (request_by bob 2) watched refl refl refl
      refl refl refl refl

watched-IsTable : IsTable watched
watched-IsTable = ((λ k v. ground arith), (λ k. ground arith))

apply_collaboration-IsTable_example :
    IsTable (apply_collaboration (editing 32 (moving 1)) (request_by bob 2) watched).1
apply_collaboration-IsTable_example =
    apply_collaboration-IsTable (request_by bob 2) watched watched-IsTable (editing 32 (moving 1))
      refl
