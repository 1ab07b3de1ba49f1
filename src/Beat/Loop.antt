-- ===== src/Beat/Loop.antt =====
-- The loop of a job over the rows of a table, compared with one simultaneous update.
use mapapi.Prelude.{
  ℕ, ◌≡◌, refl, Bool, none, some, List, [], ◌∷◌, arith, inl, inr, Bool-cases, if◌then◌else◌, subst,
  ◌∙◌, ◌==◌, ==_self, ==→eq,
}
use mapapi.Orm.{find, filter, update, All, All-filter}
use mapapi.Models.{Incident, Db, get_incident, save_incident, settle}
use mapapi.Beat.{for_each}

-- no key stands twice
abbrev pub Distinct : List Incident → Type 0
Distinct [] = Unit
Distinct (i ∷ is) = (find (λ j. j.id == i.id) is ≡ none) × Distinct is

-- each row is what its key finds
abbrev Current : List Incident → List Incident → Type 0
Current is js = All (λ j. find (λ x. x.id == j.id) is ≡ some j) js

find-filter_absent :
    (p : Incident → Bool) (k : ℕ) (is : List Incident)
    → find (λ j. j.id == k) is ≡ none
    → find (λ j. j.id == k) (filter p is) ≡ none
find-filter_absent p k [] h = refl
find-filter_absent p k (i ∷ is) h = ground (arith, find-filter_absent p k is)

pub Distinct-filter :
    (p : Incident → Bool) (is : List Incident) → Distinct is → Distinct (filter p is)
Distinct-filter p [] h = tt
Distinct-filter p (i ∷ is) h = elim (Bool-cases (p i)) [
  | inl e ↦ rw e (find-filter_absent p i.id is h.0, Distinct-filter p is h.1)
  | inr e ↦ rw e (Distinct-filter p is h.1)
]

pub find-filter-Distinct :
    (p : Incident → Bool) (k : ℕ) (is : List Incident)
    → Distinct is
    → find (λ j. j.id == k) (filter p is)
      ≡ elim (find (λ j. j.id == k) is) [ none ↦ none | some i ↦ if p i then some i else none ]
find-filter-Distinct p k [] h = refl
find-filter-Distinct p k (i ∷ is) h = elim (Bool-cases (i.id == k)) [
  | inl e ↦
      let other : find (λ j. j.id == k) is ≡ none =
        subst (λ x. find (λ j. j.id == x) is ≡ none) (==→eq i.id k e) h.0 in
      ground (arith, e, find-filter_absent p k is other)
  | inr e ↦ ground (arith, e, find-filter-Distinct p k is h.1)
]

-- A row whose key is not looked for may be put in front.
Current-cons :
    (i : Incident) (is js : List Incident)
    → find (λ j. j.id == i.id) js ≡ none
    → Current is js
    → Current (i ∷ is) js
Current-cons i is [] h c = tt
Current-cons i is (j ∷ js) h c = (ground arith, Current-cons i is js (ground arith) c.1)

pub Distinct-Current : (is : List Incident) → Distinct is → Current is is
Distinct-Current [] h = tt
Distinct-Current (i ∷ is) h =
    (rw (==_self i.id), Current-cons i is is h.0 (Distinct-Current is h.1))

find-replace_none :
    (k x : ℕ) (r : Incident) (is : List Incident)
    → r.id ≡ x
    → find (λ j. j.id == k) is ≡ none
    → find (λ j. j.id == k) (update (λ j. j.id == x) (λ _. r) is) ≡ none
find-replace_none k x r [] e h = refl
find-replace_none k x r (i ∷ is) e h = ground (arith, find-replace_none k x r is e)

-- A save keeps the keys apart.
Distinct-replace :
    (r : Incident) (is : List Incident)
    → Distinct is
    → Distinct (update (λ j. j.id == r.id) (λ _. r) is)
Distinct-replace r [] h = tt
Distinct-replace r (i ∷ is) h = elim (Bool-cases (i.id == r.id)) [
  | inl e ↦ rw e (
    find-replace_none r.id r.id r is refl
        (subst (λ x. find (λ j. j.id == x) is ≡ none) (==→eq i.id r.id e) h.0),
    Distinct-replace r is h.1,
  )
  | inr e ↦ rw e (find-replace_none i.id r.id r is refl h.0, Distinct-replace r is h.1)
]

settle-id : (i : Incident) → (settle i).id ≡ i.id
unfolding settle
settle-id i = ground arith

pub Distinct-save :
    (i : Incident) (db : Db) → Distinct db.incidents → Distinct (save_incident i db).incidents
unfolding save_incident
Distinct-save i db h =
    subst (λ x. Distinct (update (λ j. j.id == x) (λ _. settle i) db.incidents)) (settle-id i)
      (Distinct-replace (settle i) db.incidents h)

-- A body that is given the stored row sets this row, and no other.
abbrev pub SetsOwn : (Incident → Db → Db) → (Incident → Incident) → Type 0
SetsOwn body f =
    (i : Incident) (db : Db)
    → get_incident i.id db ≡ some i
    → (k : ℕ) → get_incident k (body i db) ≡ (if i.id == k then some (f i) else get_incident k db)

module _ (body : Incident → Db → Db) (f : Incident → Incident) (own : SetsOwn body f) where
  Current-body :
      (i : Incident) (db : Db) (js : List Incident)
      → get_incident i.id db ≡ some i
      → find (λ j. j.id == i.id) js ≡ none
      → Current db.incidents js
      → Current (body i db).incidents js
  Current-body i db [] here h c = tt
  Current-body i db (j ∷ js) here h c =
      (ground (arith, own i db here j.id, c.0), Current-body i db js here (ground arith) c.1)

  for_each_get :
      (qs : List Incident) (db : Db) (k : ℕ)
      → Distinct qs
      → Current db.incidents qs
      → get_incident k (for_each body qs db)
        ≡ elim (find (λ j. j.id == k) qs) [ none ↦ get_incident k db | some i ↦ some (f i) ]
  unfolding for_each
  for_each_get [] db k h c = refl
  for_each_get (i ∷ is) db k h c =
      for_each_get is (body i db) k h.1 (Current-body i db is c.0 h.0 c.1)
      ∙ elim (Bool-cases (i.id == k)) [
        | inl e ↦
            let other : find (λ j. j.id == k) is ≡ none =
              subst (λ x. find (λ j. j.id == x) is ≡ none) (==→eq i.id k e) h.0 in
            ground (arith, e, own i db c.0 k, other)
        | inr e ↦ ground (arith, e, own i db c.0 k)
      ]

  -- The loop over the rows that pass a test updates those rows, all at once.
  pub for_each-filter :
      (p : Incident → Bool) (db : Db) (k : ℕ)
      → Distinct db.incidents
      → get_incident k (for_each body (filter p db.incidents) db)
        ≡ elim (get_incident k db) [ none ↦ none | some i ↦ some (if p i then f i else i) ]
  for_each-filter p db k h =
      for_each_get (filter p db.incidents) db k (Distinct-filter p db.incidents h)
        (All-filter _ p db.incidents (Distinct-Current db.incidents h))
      ∙ ground (arith, find-filter-Distinct p k db.incidents h)

-- A loop keeps the keys apart, if its body does.
pub Distinct-for_each :
    (body : Incident → Db → Db)
    → ((i : Incident) (db : Db) → Distinct db.incidents → Distinct (body i db).incidents)
    → (qs : List Incident) (db : Db) → Distinct db.incidents
    → Distinct (for_each body qs db).incidents
unfolding for_each
Distinct-for_each body keep [] db h = h
Distinct-for_each body keep (i ∷ is) db h = Distinct-for_each body keep is (body i db) (keep i db h)
