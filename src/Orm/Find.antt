-- ===== src/Orm/Find.antt =====
-- What a lookup sees after the other queryset calls.
use mapapi.Prelude.{
  ◌≡◌, refl, Bool, true, false, none, some, List, [], ◌∷◌, ◌++◌, inl, inr, arith, subst, not,
  Bool-cases, if◌then◌else◌, ◌&&◌,
}
use mapapi.Orm.Query.{find, exists, filter, update}

module _ {ℓ} {A : Type ℓ} where
  pub find-sat : (p : A → Bool) (xs : List A) {x : A} → find p xs ≡ some x → p x ≡ true
  find-sat p [] e = cc
  find-sat p (y ∷ ys) e = elim (Bool-cases (p y)) [
    | inl t ↦ subst (λ z. p z ≡ true) (cc (rw t at e)) t
    | inr t ↦ find-sat p ys (rw t at e)
  ]

  pub find-append :
      (p : A → Bool) (xs ys : List A)
      → find p (xs ++ ys) ≡ elim (find p xs) [ none ↦ find p ys | some x ↦ some x ]
  find-append p [] ys = refl
  find-append p (x ∷ xs) ys = elim (Bool-cases (p x)) [
    | inl t ↦ rw t
    | inr t ↦ rw t (find-append p xs ys)
  ]

  abbrev pub applied : (A → Bool) → (A → A) → A → A
  applied q f x = if q x then f x else x

  -- An update that leaves the key alone is seen through the lookup.
  pub find-update :
      (p q : A → Bool) (f : A → A) (xs : List A)
      → ((x : A) → p (f x) ≡ p x)
      → find p (update q f xs) ≡ elim (find p xs) [ none ↦ none | some x ↦ some (applied q f x) ]
  find-update p q f [] keep = refl
  find-update p q f (x ∷ xs) keep = elim (Bool-cases (q x)) [
    | inl t ↦ ground (arith, keep x, find-update p q f xs keep, t)
    | inr t ↦ ground (arith, find-update p q f xs keep, t)
  ]

  pub find-filter :
      (p q : A → Bool) (xs : List A)
      → ((x : A) → p x ≡ true → q x ≡ true)
      → find p (filter q xs) ≡ find p xs
  find-filter p q [] sub = refl
  find-filter p q (x ∷ xs) sub = ground (arith, sub x, find-filter p q xs sub)

  pub find-filter-none :
      (p q : A → Bool) (xs : List A)
      → ((x : A) → p x ≡ true → q x ≡ false)
      → find p (filter q xs) ≡ none
  find-filter-none p q [] sub = refl
  find-filter-none p q (x ∷ xs) sub = ground (arith, sub x, find-filter-none p q xs sub)

  pub filter-append :
      (p : A → Bool) (xs ys : List A) → filter p (xs ++ ys) ≡ filter p xs ++ filter p ys
  filter-append p [] ys = refl
  filter-append p (x ∷ xs) ys = ground (arith, filter-append p xs ys)

  -- Deleting the rows of a key that no row has changes nothing.
  pub filter-not_found :
      (p : A → Bool) (xs : List A) → find p xs ≡ none → filter (λ x. not (p x)) xs ≡ xs
  filter-not_found p [] h = refl
  filter-not_found p (x ∷ xs) h = ground (arith, filter-not_found p xs)

  pub find-exists : (p : A → Bool) (xs : List A) → exists p xs ≡ false → find p xs ≡ none
  find-exists p [] h = refl
  find-exists p (x ∷ xs) h = ground (arith, find-exists p xs)

  -- What a lookup finds is found with a further test that it passes.
  pub find-both :
      (p q : A → Bool) (xs : List A) {x : A}
      → find p xs ≡ some x
      → q x ≡ true
      → find (λ y. p y && q y) xs ≡ some x
  find-both p q [] h t = cc
  find-both p q (y ∷ ys) {x} h t = elim (Bool-cases (p y)) [
    | inl e ↦
        let here : q y ≡ true = subst (λ z. q z ≡ true) (cc (rw e at h)) t in
        ground (arith, h, e, here)
    | inr e ↦ ground (arith, e, find-both p q ys {x = x} (rw e at h) t)
  ]
