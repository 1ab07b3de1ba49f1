-- ===== src/Trash/Purge.antt =====
-- What the purge deletes, and the rows that refer to it.
use mapapi.Prelude.{
  ℕ, ◌≡◌, ◌+◌, ◌*◌, ltb, ◌&&◌, Option-cases, refl, Bool, true, false, not, none, some, List, [],
  ◌∷◌, arith, inl, inr, is_some, Bool-cases, if◌then◌else◌, ◌==◌, ◌∙◌,
}
use mapapi.Orm.{find, exists, filter, find-filter, find-filter-none}
use mapapi.Models.{
  Incident, Collaboration, IncidentTask, IncidentOrgAssignment, PartnerSuggestion, Db, get_incident,
}
use mapapi.Beat.{for_each, delete_incident, is_expired_trash, purge_expired_trash}
use mapapi.Beat.Loop.{Distinct, find-filter-Distinct}

exists-filter :
    {A : Type 0} (p q : A → Bool) (xs : List A) → exists p (filter q xs) ≡ true → exists p xs ≡ true
exists-filter p q [] h = h
exists-filter p q (x ∷ xs) h = ground (arith, exists-filter p q xs)

exists-filter_kept :
    {A : Type 0} (p q : A → Bool) (xs : List A)
    → ((x : A) → p x ≡ true → q x ≡ true)
    → exists p xs ≡ true
    → exists p (filter q xs) ≡ true
exists-filter_kept p q [] sub h = h
exists-filter_kept p q (x ∷ xs) sub h = ground (arith, sub x, exists-filter_kept p q xs sub)

exists-filter_gone :
    {A : Type 0} (p q : A → Bool) (xs : List A)
    → ((x : A) → p x ≡ true → q x ≡ false)
    → exists p (filter q xs) ≡ false
exists-filter_gone p q [] sub = refl
exists-filter_gone p q (x ∷ xs) sub = ground (arith, sub x, exists-filter_gone p q xs sub)

-- every row's incident is in the table
abbrev pub Referred : {A : Type 0} → (A → ℕ) → List A → List Incident → Type 0
Referred f xs is = (k : ℕ) → exists (λ x. f x == k) xs ≡ true → exists (λ i. i.id == k) is ≡ true

-- The incident of every row that has one is in the table.
abbrev pub NoOrphan : Db → Type 0
NoOrphan db =
    Referred (λ (c : Collaboration). c.incident) db.collaborations db.incidents
    × Referred (λ (t : IncidentTask). t.incident) db.tasks db.incidents
    × Referred (λ (a : IncidentOrgAssignment). a.incident) db.org_assignments db.incidents
    × Referred (λ (s : PartnerSuggestion). s.incident) db.suggestions db.incidents

delete-Referred :
    {A : Type 0} (f : A → ℕ) (j : ℕ) (xs : List A) (is : List Incident)
    → Referred f xs is
    → Referred f (filter (λ x. not (f x == j)) xs) (filter (λ i. not (i.id == j)) is)
delete-Referred f j xs is h k e = elim (Bool-cases (k == j)) [
  | inl same ↦
      let gone : exists (λ x. f x == k) (filter (λ x. not (f x == j)) xs) ≡ false =
        exists-filter_gone (λ x. f x == k) (λ x. not (f x == j)) xs (λ x t. ground arith) in
      cc
  | inr other ↦
      exists-filter_kept (λ i. i.id == k) (λ i. not (i.id == j)) is (λ i t. ground arith)
        (h k (exists-filter (λ x. f x == k) (λ x. not (f x == j)) xs e))
]

delete-NoOrphan : (j : ℕ) (db : Db) → NoOrphan db → NoOrphan (delete_incident j db)
unfolding delete_incident
delete-NoOrphan j db h = (
  delete-Referred (λ (c : Collaboration). c.incident) j db.collaborations db.incidents h.0,
  delete-Referred (λ (t : IncidentTask). t.incident) j db.tasks db.incidents h.1,
  delete-Referred (λ (a : IncidentOrgAssignment). a.incident) j db.org_assignments db.incidents h.2,
  delete-Referred (λ (s : PartnerSuggestion). s.incident) j db.suggestions db.incidents h.3,
)

each-NoOrphan :
    (is : List Incident) (db : Db)
    → NoOrphan db
    → NoOrphan (for_each (λ i. delete_incident i.id) is db)
unfolding for_each
each-NoOrphan [] db h = h
each-NoOrphan (i ∷ is) db h = each-NoOrphan is (delete_incident i.id db) (delete-NoOrphan i.id db h)

-- whether one of the rows has the key
abbrev has_key : ℕ → List Incident → Bool
has_key k is = exists (λ i. i.id == k) is

get-delete :
    (j k : ℕ) (db : Db)
    → get_incident k (delete_incident j db) ≡ (if j == k then none else get_incident k db)
unfolding delete_incident
get-delete j k db = elim (Bool-cases (j == k)) [
  | inl e ↦
      rw e (
        find-filter-none (λ i. i.id == k) (λ i. not (i.id == j)) db.incidents (λ i t. ground arith))
  | inr e ↦
      rw e (find-filter (λ i. i.id == k) (λ i. not (i.id == j)) db.incidents (λ i t. ground arith))
]

get-delete_each :
    (is : List Incident) (k : ℕ) (db : Db)
    → get_incident k (for_each (λ i. delete_incident i.id) is db)
      ≡ (if has_key k is then none else get_incident k db)
unfolding for_each
get-delete_each [] k db = refl
get-delete_each (i ∷ is) k db =
    get-delete_each is k (delete_incident i.id db) ∙ ground (arith, get-delete i.id k db)

exists-find : {A : Type 0} (p : A → Bool) (xs : List A) → exists p xs ≡ is_some (find p xs)
exists-find p [] = refl
exists-find p (x ∷ xs) = ground (arith, exists-find p xs)

has_key-filter :
    (p : Incident → Bool) (k : ℕ) (is : List Incident)
    → Distinct is
    → has_key k (filter p is) ≡ elim (find (λ j. j.id == k) is) [ none ↦ false | some i ↦ p i ]
has_key-filter p k is h =
    exists-find (λ i. i.id == k) (filter p is) ∙ ground (arith, find-filter-Distinct p k is h)

-- The purge deletes exactly the incidents in the trash that were deleted more than thirty days ago; one
-- that is not in the trash or has no such date stays as it was. If every collaboration, task, assignment
-- and suggestion had its incident in the table, each that is left still has. No two incidents have the
-- same key.
pub purge_expired_trash_lem :
    (now : ℕ) (db : Db)
    → Distinct db.incidents
    → NoOrphan db
    → ((k : ℕ)
        → get_incident k (purge_expired_trash now db) ≡ elim (get_incident k db) [
          | none ↦ none
          | some i ↦ elim i.deleted_at [
            | none ↦ some i
            | some d ↦ if i.is_deleted && ltb (d + 30 * 86400) now then none else some i
          ]
        ])
      × NoOrphan (purge_expired_trash now db)
unfolding purge_expired_trash
purge_expired_trash_lem now db d h = (
  (λ k.
      get-delete_each (filter (is_expired_trash now) db.incidents) k db
      ∙ rw (has_key-filter (is_expired_trash now) k db.incidents d)
          (elim (Option-cases (get_incident k db)) [
            | inl e ↦ ground (arith, e)
            | inr (i, e) ↦ elim (Option-cases i.deleted_at) [
              | inl f ↦ ground (arith, e, f)
              | inr (t, f) ↦ ground (arith, e, f)
            ]
          ])),
  each-NoOrphan (filter (is_expired_trash now) db.incidents) db h,
)
