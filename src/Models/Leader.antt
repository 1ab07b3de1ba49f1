-- ===== src/Models/Leader.antt =====
-- The row and the leader of an incident after a save.
use mapapi.Prelude.{ℕ, ◌≡◌, Option, none, some, List, [], ◌∷◌, arith, if◌then◌else◌, ◌==◌}
use mapapi.Orm.{find, update}
use mapapi.Models.Rows.{Incident, Db, get_incident, settle, save_incident}

-- `incident.taken_by_id` of the incident with this key
abbrev pub leader_in : ℕ → List Incident → Option ℕ
leader_in k is = elim (find (λ j. j.id == k) is) [ none ↦ none | some i ↦ i.taken_by ]

abbrev pub leader_of : ℕ → Db → Option ℕ
leader_of k db = leader_in k db.incidents

find-replace :
    (i : Incident) (k : ℕ) (is : List Incident)
    → find (λ j. j.id == k) (update (λ j. j.id == i.id) (λ _. settle i) is) ≡ (
        if i.id == k
        then elim (find (λ j. j.id == k) is) [ none ↦ none | some _ ↦ some (settle i) ]
        else find (λ j. j.id == k) is)
unfolding settle
find-replace i k [] = ground arith
find-replace i k (j ∷ is) = ground (arith, find-replace i k is)

pub get-save :
    (i : Incident) (k : ℕ) (db : Db)
    → get_incident k (save_incident i db) ≡ (
        if i.id == k
        then elim (get_incident k db) [ none ↦ none | some _ ↦ some (settle i) ]
        else get_incident k db)
unfolding save_incident
get-save i k db = find-replace i k db.incidents

-- A save sets the leader of its own incident and of no other.
pub leader-save :
    (i : Incident) (k : ℕ) (db : Db)
    → leader_of k (save_incident i db) ≡ (
        if i.id == k
        then elim (get_incident k db) [ none ↦ none | some _ ↦ i.taken_by ]
        else leader_of k db)
unfolding settle
leader-save i k db = ground (arith, get-save i k db)
