-- ===== src/Chat/Order.antt =====
-- The two orders of a conversation.
use mapapi.Prelude.{
  suc, ◌≡◌, refl, sym, ap, ◌∙◌, true, false, List, [], ◌∷◌, ◌++◌, arith, inl, inr, Bool-cases, ◌==◌,
}
use mapapi.Orm.{All, All-append, length}
use mapapi.Chat.{Stamped, later, insert_newest, newest_first, insert_oldest, oldest_first, reverse}

module _ {ℓ} {A : Type ℓ} (s : Stamped A) where
  -- no two rows have one key
  abbrev pub Distinct : List A → Type 0
  Distinct [] = Unit
  Distinct (x ∷ xs) = All (λ y. (s.id x == s.id y) ≡ false) xs × Distinct xs

  -- each row before all that follow
  abbrev pub IsNewestFirst : List A → Type 0
  IsNewestFirst [] = Unit
  IsNewestFirst (x ∷ xs) = All (λ y. later s x y ≡ true) xs × IsNewestFirst xs

  later_trans : (x y z : A) → later s x y ≡ true → later s y z ≡ true → later s x z ≡ true
  later_trans x y z h g = ground (arith, h, g)

  later_total : (x y : A) → (s.id x == s.id y) ≡ false → later s x y ≡ false → later s y x ≡ true
  later_total x y h g = ground (arith, h, g)

  All-insert_newest {κ} :
      (P : A → Type κ) (x : A) (ys : List A) → P x → All P ys → All P (insert_newest s x ys)
  All-insert_newest P x [] h k = (h, k)
  All-insert_newest P x (y ∷ ys) h k = elim (Bool-cases (later s x y)) [
    | inl e ↦ rw e (h, k)
    | inr e ↦ rw e (k.0, All-insert_newest P x ys h k.1)
  ]

  pub All-newest_first {κ} : (P : A → Type κ) (xs : List A) → All P xs → All P (newest_first s xs)
  All-newest_first P [] h = tt
  All-newest_first P (x ∷ xs) h =
      All-insert_newest P x (newest_first s xs) h.0 (All-newest_first P xs h.1)

  All-later :
      (x y : A) (zs : List A)
      → later s x y ≡ true
      → All (λ z. later s y z ≡ true) zs
      → All (λ z. later s x z ≡ true) zs
  All-later x y [] h k = tt
  All-later x y (z ∷ zs) h k = (later_trans x y z h k.0, All-later x y zs h k.1)

  insert_newest-IsNewestFirst :
      (x : A) (ys : List A)
      → All (λ y. (s.id x == s.id y) ≡ false) ys
      → IsNewestFirst ys
      → IsNewestFirst (insert_newest s x ys)
  insert_newest-IsNewestFirst x [] d h = (tt, tt)
  insert_newest-IsNewestFirst x (y ∷ ys) d h = elim (Bool-cases (later s x y)) [
    | inl e ↦ rw e ((e, All-later x y ys e h.0), h)
    | inr e ↦ rw e (
      All-insert_newest (λ z. later s y z ≡ true) x ys (later_total x y d.0 e) h.0,
      insert_newest-IsNewestFirst x ys d.1 h.1,
    )
  ]

  pub newest_first-IsNewestFirst : (xs : List A) → Distinct xs → IsNewestFirst (newest_first s xs)
  newest_first-IsNewestFirst [] d = tt
  newest_first-IsNewestFirst (x ∷ xs) d =
      insert_newest-IsNewestFirst x (newest_first s xs)
        (All-newest_first (λ y. (s.id x == s.id y) ≡ false) xs d.0)
        (newest_first-IsNewestFirst xs d.1)

  reverse_insert-last :
      (x y : A) (zs : List A)
      → later s y x ≡ true
      → insert_oldest s x (zs ++ y ∷ []) ≡ insert_oldest s x zs ++ y ∷ []
  reverse_insert-last x y [] h = rw h refl
  reverse_insert-last x y (z ∷ zs) h = elim (Bool-cases (later s z x)) [
    | inl e ↦ rw e refl
    | inr e ↦ rw e (ap (λ l. z ∷ l) (reverse_insert-last x y zs h))
  ]

  insert_oldest-last :
      (x : A) (zs : List A) → All (λ z. later s x z ≡ true) zs → insert_oldest s x zs ≡ zs ++ x ∷ []
  insert_oldest-last x [] h = refl
  insert_oldest-last x (z ∷ zs) h =
      let e : later s z x ≡ false = ground (arith, h.0) in
      rw e (ap (λ l. z ∷ l) (insert_oldest-last x zs h.1))

  All-reverse : (P : A → Type 0) (xs : List A) → All P xs → All P (reverse xs)
  All-reverse P [] h = tt
  All-reverse P (x ∷ xs) h = All-append P (reverse xs) (x ∷ []) (All-reverse P xs h.1) (h.0, tt)

  reverse-insert_newest :
      (x : A) (ys : List A)
      → All (λ y. (s.id x == s.id y) ≡ false) ys
      → IsNewestFirst ys
      → reverse (insert_newest s x ys) ≡ insert_oldest s x (reverse ys)
  reverse-insert_newest x [] d h = refl
  reverse-insert_newest x (y ∷ ys) d h = elim (Bool-cases (later s x y)) [
    | inl e ↦ rw e (
        sym (
          insert_oldest-last x (reverse (y ∷ ys))
            (All-reverse (λ z. later s x z ≡ true) (y ∷ ys) (e, All-later x y ys e h.0))))
    | inr e ↦ rw e (
        ap (λ l. l ++ y ∷ []) (reverse-insert_newest x ys d.1 h.1)
        ∙ sym (reverse_insert-last x y (reverse ys) (later_total x y d.0 e)))
  ]

  -- The two orders are each other's reverse.
  pub reverse-newest_first :
      (xs : List A) → Distinct xs → reverse (newest_first s xs) ≡ oldest_first s xs
  reverse-newest_first [] d = refl
  reverse-newest_first (x ∷ xs) d =
      reverse-insert_newest x (newest_first s xs)
        (All-newest_first (λ y. (s.id x == s.id y) ≡ false) xs d.0)
        (newest_first-IsNewestFirst xs d.1)
      ∙ ap (insert_oldest s x) (reverse-newest_first xs d.1)

  length-insert_newest : (x : A) (ys : List A) → length (insert_newest s x ys) ≡ suc (length ys)
  length-insert_newest x [] = refl
  length-insert_newest x (y ∷ ys) = elim (Bool-cases (later s x y)) [
    | inl e ↦ rw e refl
    | inr e ↦ rw e (ap suc (length-insert_newest x ys))
  ]

  pub length-newest_first : (xs : List A) → length (newest_first s xs) ≡ length xs
  length-newest_first [] = refl
  length-newest_first (x ∷ xs) =
      length-insert_newest x (newest_first s xs) ∙ ap suc (length-newest_first xs)
