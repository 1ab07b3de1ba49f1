-- ===== src/Incidents/Reports/Visible.antt =====
-- Who finds which incident in a list: `visible_incidents_qs` against the trash and the public flag.
use mapapi.Prelude.{
  ℕ, ◌≡◌, refl, Bool, true, not, ◌&&◌, Option, none, some, List, [], ◌∷◌, arith, is_some, ◌==◌,
  if◌then◌else◌,
}
use mapapi.Orm.{find, filter}
use mapapi.Models.{User, Incident, Db, get_incident}
use mapapi.Beat.Loop.{Distinct, find-filter-Distinct}
use mapapi.Incidents.Reports.{visible_incidents}

-- outside the trash, and public unless somebody is signed in
abbrev is_visible : Option User → Incident → Bool
is_visible u i = not i.is_deleted && (if is_some u then true else i.is_public)

filter-filter :
    (p q : Incident → Bool) (is : List Incident)
    → filter p (filter q is) ≡ filter (λ i. q i && p i) is
filter-filter p q [] = refl
filter-filter p q (i ∷ is) = ground (arith, filter-filter p q is)

filter-same :
    (p q : Incident → Bool) (is : List Incident)
    → ((i : Incident) → p i ≡ q i)
    → filter p is ≡ filter q is
filter-same p q [] h = refl
filter-same p q (i ∷ is) h = ground (arith, h i, filter-same p q is h)

visible-filter :
    (u : Option User) (is : List Incident) → visible_incidents u is ≡ filter (is_visible u) is
unfolding visible_incidents
visible-filter none is = filter-filter (λ i. i.is_public) (λ i. not i.is_deleted) is
visible-filter (some u) is =
    filter-same (λ i. not i.is_deleted) (is_visible (some u)) is (λ i. ground arith)

-- When no two incidents share a key, the lists show a user an incident as it is stored exactly when
-- it is outside the trash, and public unless the user is signed in.
get-visible_incidents :
    (u : Option User) (db : Db) (k : ℕ)
    → Distinct db.incidents
    → find (λ j. j.id == k) (visible_incidents u db.incidents)
      ≡ elim (get_incident k db) [ none ↦ none | some i ↦ if is_visible u i then some i else none ]
get-visible_incidents u db k d =
    rw (visible-filter u db.incidents) (find-filter-Distinct (is_visible u) k db.incidents d)
