-- ===== src/Orm/Count.antt =====
-- How many rows a test has after the queryset calls.
use mapapi.Prelude.{
  ◌+◌, ◌≤◌, ◌<◌, ◌≡◌, refl, Bool, false, none, some, List, [], ◌∷◌, ◌++◌, arith, inl, inr,
  Bool-cases, subst,
}
use mapapi.Orm.Query.{find, exists, filter, update, count}

module _ {A : Type 0} where
  pub count-append : (p : A → Bool) (xs ys : List A) → count p (xs ++ ys) ≡ count p xs + count p ys
  count-append p [] ys = omega arith
  count-append p (x ∷ xs) ys = ground (arith, count-append p xs ys)

  pub count-none : (p : A → Bool) (xs : List A) → exists p xs ≡ false → count p xs ≡ 0
  count-none p [] h = refl
  count-none p (x ∷ xs) h = ground (arith, count-none p xs)

  pub count-not_found : (p : A → Bool) (xs : List A) → find p xs ≡ none → count p xs ≡ 0
  count-not_found p [] h = refl
  count-not_found p (x ∷ xs) h = ground (arith, count-not_found p xs)

  -- An update to rows that do not count never makes more of them.
  pub count-update :
      (p q : A → Bool) (f : A → A) (xs : List A)
      → ((x : A) → p (f x) ≡ false)
      → count p (update q f xs) ≤ count p xs
  count-update p q f [] h = omega arith
  count-update p q f (x ∷ xs) h = ground (arith, h x, count-update p q f xs h)

  -- An update that the test does not see leaves the number as it is.
  pub count-update_same :
      (p q : A → Bool) (f : A → A) (xs : List A)
      → ((x : A) → p (f x) ≡ p x)
      → count p (update q f xs) ≡ count p xs
  count-update_same p q f [] h = refl
  count-update_same p q f (x ∷ xs) h = ground (arith, h x, count-update_same p q f xs h)

  pub count-filter : (p q : A → Bool) (xs : List A) → count p (filter q xs) ≤ count p xs
  count-filter p q [] = omega arith
  count-filter p q (x ∷ xs) = ground (arith, count-filter p q xs)

  -- Deleting the row that the test finds first leaves fewer.
  pub count-delete :
      (p q : A → Bool) (xs : List A) {y : A}
      → find p xs ≡ some y
      → q y ≡ false
      → count p (filter q xs) < count p xs
  count-delete p q [] h e = cc
  count-delete p q (x ∷ xs) {y} h e = elim (Bool-cases (p x)) [
    | inl t ↦
        let gone : q x ≡ false = subst (λ z. q z ≡ false) (cc (rw t at h)) e in
        ground (arith, t, gone, count-filter p q xs)
    | inr t ↦ ground (arith, t, count-delete p q xs {y = y} (rw t at h) e)
  ]
