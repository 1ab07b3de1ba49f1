-- ===== src/Monthly/Totals.antt =====
-- The rows of the months against the incidents of the year.
use mapapi.Prelude.{
  ℕ, ◌+◌, ◌≡◌, refl, true, ◌||◌, List, [], ◌∷◌, map, arith, inl, inr, Bool-cases, if◌then◌else◌,
  ◌==◌, ==_self, ==→eq, subst, ap, ◌∙◌,
}
use mapapi.Orm.{All, exists, count, length}
use mapapi.Models.{Incident, Db}
use mapapi.Impact.{Calendar, distinct}
use mapapi.Impact.Totals.{sum}
use mapapi.Monthly.{month_of, year_items, month_row, monthly}

exists-distinct :
    (k : ℕ) (ks : List ℕ) → exists (λ j. j == k) (distinct ks) ≡ exists (λ j. j == k) ks
exists-distinct k [] = refl
exists-distinct k (x ∷ ks) = elim (Bool-cases (exists (λ y. y == x) (distinct ks))) [
  | inr e ↦ rw e (ap (λ b. x == k || b) (exists-distinct k ks))
  | inl e ↦ elim (Bool-cases (x == k)) [
    | inl t ↦
        let same : exists (λ j. j == k) (distinct ks) ≡ true =
          subst (λ z. exists (λ j. j == z) (distinct ks) ≡ true) (==→eq x k t) e in
        rw (e, t) same
    | inr t ↦ rw (e, t) (exists-distinct k ks)
  ]
]

count-distinct :
    (k : ℕ) (ks : List ℕ)
    → count (λ j. j == k) (distinct ks) ≡ (if exists (λ j. j == k) ks then 1 else 0)
count-distinct k [] = refl
count-distinct k (x ∷ ks) = elim (Bool-cases (x == k)) [
  | inr t ↦ ground (arith, t, count-distinct k ks)
  | inl t ↦
      let same : exists (λ j. j == x) (distinct ks) ≡ exists (λ j. j == k) ks =
        exists-distinct x ks ∙ ap (λ z. exists (λ j. j == z) ks) (==→eq x k t) in
      ground (arith, t, same, count-distinct k ks)
]

module _ {A : Type 0} (f : A → ℕ) where
  sum-count_cons :
      (x : A) (xs : List A) (ks : List ℕ)
      → sum (λ k. count (λ y. f y == k) (x ∷ xs)) ks
        ≡ count (λ j. j == f x) ks + sum (λ k. count (λ y. f y == k) xs) ks
  sum-count_cons x xs [] = refl
  sum-count_cons x xs (k ∷ ks) = ground (arith, sum-count_cons x xs ks)

  sum-count_nil : (ks : List ℕ) → sum (λ k. count (λ y. f y == k) []) ks ≡ 0
  sum-count_nil [] = refl
  sum-count_nil (k ∷ ks) = ground (arith, sum-count_nil ks)

  -- With each key once, the rows of the keys are all rows.
  sum-count :
      (xs : List A) (ks : List ℕ)
      → All (λ x. count (λ j. j == f x) ks ≡ 1) xs
      → sum (λ k. count (λ y. f y == k) xs) ks ≡ length xs
  sum-count [] ks h = sum-count_nil ks
  sum-count (x ∷ xs) ks h = ground (arith, sum-count_cons x xs ks, h.0, sum-count xs ks h.1)

  -- the keys of a part of a list are among the keys of the list
  All-among :
      (ks : List ℕ) (xs : List A)
      → ((k : ℕ) → exists (λ j. j == k) (map f xs) ≡ true → exists (λ j. j == k) ks ≡ true)
      → All (λ x. count (λ j. j == f x) (distinct ks) ≡ 1) xs
  All-among ks [] h = tt
  All-among ks (x ∷ xs) h =
      let here : exists (λ j. j == f x) ks ≡ true = h (f x) (rw (==_self (f x)) refl) in
      (count-distinct (f x) ks ∙ rw here refl, All-among ks xs (λ k e. h k (ground (arith, e))))

sum-map :
    {A B : Type 0} (g : A → B) (h : B → ℕ) (xs : List A) → sum h (map g xs) ≡ sum (λ x. h (g x)) xs
sum-map g h [] = refl
sum-map g h (x ∷ xs) = ground (arith, sum-map g h xs)

-- The totals of the months add up to the incidents of the zone in the year.
monthly_total :
    (c : Calendar) (created zone_of : ℕ → ℕ) (zone now : ℕ) (db : Db)
    → sum (λ r. r.total) (monthly c created zone_of zone now db)
      ≡ length (year_items c created zone_of zone now db)
unfolding monthly
monthly_total c created zone_of zone now db =
    let items : List Incident = year_items c created zone_of zone now db in
    let f : Incident → ℕ = month_of c created zone_of in
    sum-map (month_row c created zone_of items) (λ r. r.total) (distinct (map f items))
    ∙ sum-count f items (distinct (map f items)) (All-among f (map f items) items (λ k e. e))
