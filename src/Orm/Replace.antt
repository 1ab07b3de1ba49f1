-- ===== src/Orm/Replace.antt =====
-- How many rows a test has after the row of a key is replaced.
use mapapi.Prelude.{
  ◌+◌, ◌≤◌, ◌≡◌, refl, Bool, true, false, not, ◌&&◌, none, some, List, [], ◌∷◌, arith, inl, inr,
  Bool-cases, if◌then◌else◌,
}
use mapapi.Orm.Query.{find, exists, update, count}

module _ {A : Type 0} where
  update-absent :
      (key : A → Bool) (f : A → A) (xs : List A) → count key xs ≡ 0 → update key f xs ≡ xs
  update-absent key f [] h = refl
  update-absent key f (x ∷ xs) h = ground (arith, update-absent key f xs)

  -- One row leaves and one comes, if no two rows have the key.
  pub count-replace :
      (p key : A → Bool) (y : A) (xs : List A) {c : A}
      → find key xs ≡ some c
      → count key xs ≤ 1
      → count p (update key (λ _. y) xs) + (if p c then 1 else 0)
        ≡ count p xs + (if p y then 1 else 0)
  count-replace p key y [] h few = cc
  count-replace p key y (x ∷ xs) {c} h few = elim (Bool-cases (key x)) [
    | inl t ↦
        let gone : count key xs ≡ 0 = ground (arith, t, few) in
        let same : update key (λ _. y) xs ≡ xs = update-absent key (λ _. y) xs gone in
        let here : x ≡ c = cc (rw t at h) in ground (arith, t, same, here)
    | inr t ↦ ground (arith, t, few, count-replace p key y xs {c = c} (rw t at h))
  ]

  count-else :
      (p key : A → Bool) (xs : List A)
      → count key xs ≡ 0
      → exists (λ x. not (key x) && p x) xs ≡ false
      → count p xs ≡ 0
  count-else p key [] gone only = refl
  count-else p key (x ∷ xs) gone only = ground (arith, count-else p key xs)

  -- A test that no other row passes counts at most the row of the key.
  pub count-only :
      (p key : A → Bool) (xs : List A) {c : A}
      → find key xs ≡ some c
      → count key xs ≤ 1
      → exists (λ x. not (key x) && p x) xs ≡ false
      → count p xs ≤ (if p c then 1 else 0)
  count-only p key [] h few only = cc
  count-only p key (x ∷ xs) {c} h few only = elim (Bool-cases (key x)) [
    | inl t ↦
        let gone : count key xs ≡ 0 = ground (arith, t, few) in
        let none_left : count p xs ≡ 0 = count-else p key xs gone (ground (arith, only, t)) in
        let here : x ≡ c = cc (rw t at h) in ground (arith, none_left, here)
    | inr t ↦ ground (arith, t, few, only, count-only p key xs {c = c} (rw t at h))
  ]

  find-absent : (p q : A → Bool) (xs : List A) → count p xs ≡ 0 → find (λ x. p x && q x) xs ≡ none
  find-absent p q [] h = refl
  find-absent p q (x ∷ xs) h = ground (arith, find-absent p q xs)

  -- What a lookup finds with a further test it finds without it, if no two rows pass the first.
  pub find-first :
      (p q : A → Bool) (xs : List A) {c : A}
      → find (λ x. p x && q x) xs ≡ some c
      → count p xs ≤ 1
      → find p xs ≡ some c
  find-first p q [] h few = h
  find-first p q (x ∷ xs) {c} h few = elim (Bool-cases (p x)) [
    | inr f ↦ ground (arith, f, few, h, find-first p q xs {c = c})
    | inl t ↦ elim (Bool-cases (q x)) [
      | inl s ↦ ground (arith, h, t, s)
      | inr s ↦ ground (arith, h, t, s, few, find-absent p q xs)
    ]
  ]

  count-found :
      (p key : A → Bool) (xs : List A) {c : A}
      → find p xs ≡ some c
      → key c ≡ true
      → 1 ≤ count key xs
  count-found p key [] h t = cc
  count-found p key (x ∷ xs) {c} h t = elim (Bool-cases (p x)) [
    | inl s ↦ let here : x ≡ c = cc (rw s at h) in ground (arith, here, t)
    | inr s ↦ ground (arith, s, h, count-found p key xs {c = c} (rw s at h) t)
  ]

  -- What any lookup finds a lookup by its key finds, if no two rows have the key.
  pub find-own :
      (p key : A → Bool) (xs : List A) {c : A}
      → find p xs ≡ some c
      → key c ≡ true
      → count key xs ≤ 1
      → find key xs ≡ some c
  find-own p key [] h t few = cc
  find-own p key (x ∷ xs) {c} h t few = elim (Bool-cases (p x)) [
    | inl s ↦ let here : x ≡ c = cc (rw s at h) in ground (arith, here, t)
    | inr s ↦
        let later : 1 ≤ count key xs = count-found p key xs (rw s at h) t in
        ground (arith, few, later, find-own p key xs {c = c} (rw s at h) t)
  ]
