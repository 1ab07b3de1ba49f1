-- ===== src/Chat/Pages.antt =====
-- Scrolling back through a conversation, page by page, against the list of all its rows.
use mapapi.Prelude.{
  ℕ, zero, suc, ◌<◌, ◌≡◌, refl, sym, ap, ◌∙◌, true, false, none, some, List, [], ◌∷◌, ◌++◌, arith,
  inl, inr, ◌⊎◌, Option-cases, ==_self, ◌-◌, append-nil, append_assoc, ltb, ◌==◌, subst,
}
use mapapi.Orm.{find, filter, All, length}
use mapapi.Chat.{
  Stamped, plus, BeforeParam, before, clamp, take, last, reverse, page, later, newest_first,
  oldest_first, next_of, cut, load, load_limited, scroll_back,
}
use mapapi.Chat.Order.{
  Distinct, IsNewestFirst, All-newest_first, newest_first-IsNewestFirst, reverse-newest_first,
  length-newest_first,
}

module _ {ℓ} {A : Type ℓ} where
  -- A list that is cut is short, or its cut ends in a row that others follow.
  cut-cases :
      (m : ℕ) (xs : List A)
      → ((ltb (suc m) (length (take (suc (suc m)) xs)) ≡ false)
          × (take (suc m) (take (suc (suc m)) xs) ≡ xs))
        ⊎ ((ys : List A) × (c : A) × (rest : List A) × (xs ≡ ys ++ c ∷ rest)
            × (take (suc m) (take (suc (suc m)) xs) ≡ ys ++ c ∷ [])
            × (ltb (suc m) (length (take (suc (suc m)) xs)) ≡ true))
  cut-cases m [] = inl (ground arith, refl)
  cut-cases zero (x ∷ []) = inl (ground arith, refl)
  cut-cases zero (x ∷ y ∷ xs) = inr ([], x, y ∷ xs, refl, refl, ground arith)
  cut-cases (suc m) (x ∷ xs) = elim (cut-cases m xs) [
    | inl h ↦ inl (ground (arith, h.0), ap (λ l. x ∷ l) h.1)
    | inr (ys, c, rest, e, f, g) ↦
        inr (x ∷ ys, c, rest, ap (λ l. x ∷ l) e, ap (λ l. x ∷ l) f, ground (arith, g))
  ]

  last-append : (ys : List A) (c : A) → last (ys ++ c ∷ []) ≡ some c
  last-append [] c = refl
  last-append (y ∷ []) c = refl
  last-append (y ∷ z ∷ ys) c = last-append (z ∷ ys) c

  reverse-append : (xs ys : List A) → reverse (xs ++ ys) ≡ reverse ys ++ reverse xs
  reverse-append [] ys = sym (append-nil (reverse ys))
  reverse-append (x ∷ xs) ys =
      ap (λ l. l ++ x ∷ []) (reverse-append xs ys) ∙ append_assoc (reverse ys) (reverse xs) (x ∷ [])

  length-after : (ys : List A) (c : A) (rest : List A) → length rest < length (ys ++ c ∷ rest)
  length-after [] c rest = omega arith
  length-after (y ∷ ys) c rest = omega (arith, length-after ys c rest)

module _ {ℓ} {A : Type ℓ} (s : Stamped A) where
  All-middle {κ} :
      (P : A → Type κ) (pre : List A) (c : A) (rest : List A) → All P (pre ++ c ∷ rest) → P c
  All-middle P [] c rest h = h.0
  All-middle P (p ∷ pre) c rest h = All-middle P pre c rest h.1

  filter_whole :
      (c : A) (xs : List A) → All (λ x. later s c x ≡ true) xs → filter (later s c) xs ≡ xs
  filter_whole c [] h = refl
  filter_whole c (x ∷ xs) h = rw h.0 (ap (λ l. x ∷ l) (filter_whole c xs h.1))

  -- In a list from the newest on, the rows before a row are those that follow it.
  filter-after :
      (pre : List A) (c : A) (rest : List A)
      → IsNewestFirst s (pre ++ c ∷ rest)
      → filter (later s c) (pre ++ c ∷ rest) ≡ rest
  filter-after [] c rest h =
      let e : later s c c ≡ false = ground arith in rw e (filter_whole c rest h.0)
  filter-after (p ∷ pre) c rest h =
      let g : later s p c ≡ true = All-middle (λ y. later s p y ≡ true) pre c rest h.0 in
      let e : later s c p ≡ false = ground (arith, g) in rw e (filter-after pre c rest h.1)

  found-cons :
      (x : A) (xs ys : List A)
      → All (λ y. (s.id x == s.id y) ≡ false) ys
      → All (λ c. find (λ y. s.id y == s.id c) xs ≡ some c) ys
      → All (λ c. find (λ y. s.id y == s.id c) (x ∷ xs) ≡ some c) ys
  found-cons x xs [] d h = tt
  found-cons x xs (y ∷ ys) d h = (rw d.0 h.0, found-cons x xs ys d.1 h.1)

  -- each row is what its key finds
  Distinct-found :
      (xs : List A) → Distinct s xs → All (λ c. find (λ x. s.id x == s.id c) xs ≡ some c) xs
  Distinct-found [] d = tt
  Distinct-found (x ∷ xs) d =
      (rw (==_self (s.id x)) refl, found-cons x xs xs d.0 (Distinct-found xs d.1))

  next_of-last : (xs : List A) → next_of s xs false ≡ none
  next_of-last xs = elim (Option-cases (last xs)) [
    | inl e ↦ rw (e, next_of) refl
    | inr (x, e) ↦ rw (e, next_of) refl
  ]

  next_of-found : (ys : List A) (c : A) → next_of s (ys ++ c ∷ []) true ≡ some (s.id c)
  next_of-found ys c = rw (last-append ys c, next_of) refl

  short_cut :
      (m : ℕ) (xs : List A)
      → ltb (suc m) (length (take (suc (suc m)) xs)) ≡ false
      → take (suc m) (take (suc (suc m)) xs) ≡ xs
      → cut s (suc m) xs ≡ page (reverse xs) false none
  unfolding cut
  short_cut m xs e f = rw (e, f) (ap (page (reverse xs) false) (next_of-last xs))

  long_cut :
      (m : ℕ) (xs ys : List A) (c : A)
      → ltb (suc m) (length (take (suc (suc m)) xs)) ≡ true
      → take (suc m) (take (suc (suc m)) xs) ≡ ys ++ c ∷ []
      → cut s (suc m) xs ≡ page (reverse (ys ++ c ∷ [])) true (some (s.id c))
  unfolding cut
  long_cut m xs ys c e f = rw (e, f) (ap (page (reverse (ys ++ c ∷ [])) true) (next_of-found ys c))

  module _ (unlimited : List A → List A) (n : ℕ) (base : List A) (d : Distinct s base) where
    -- the limit as the code uses it
    limit_suc : (m : ℕ) × (clamp n ≡ suc m)
    limit_suc = (clamp n - 1, ground arith)

    -- Loading before a row cuts what follows it.
    load-before :
        (pre : List A) (c : A) (rest : List A)
        → newest_first s base ≡ pre ++ c ∷ rest
        → load s unlimited (plus n) (before (s.id c)) base ≡ cut s (clamp n) rest
    unfolding load load_limited
    load-before pre c rest e =
        let sorted : IsNewestFirst s (pre ++ c ∷ rest) =
          subst (IsNewestFirst s) e (newest_first-IsNewestFirst s base d) in
        let found : find (λ x. s.id x == s.id c) base ≡ some c =
          All-middle (λ y. find (λ x. s.id x == s.id y) base ≡ some y) pre c rest
            (subst (All (λ y. find (λ x. s.id x == s.id y) base ≡ some y)) e (
              All-newest_first s (λ y. find (λ x. s.id x == s.id y) base ≡ some y) base
                (Distinct-found base d))) in
        rw (found, load, load_limited)
          (ap (λ l. cut s (clamp n) (filter (later s c) l)) e
            ∙ ap (cut s (clamp n)) (filter-after pre c rest sorted))

    -- From where the rows `rest` are left, scrolling back collects them all.
    scroll_back-rest :
        (fuel : ℕ) (pre rest : List A) (b : BeforeParam)
        → newest_first s base ≡ pre ++ rest
        → load s unlimited (plus n) b base ≡ cut s (clamp n) rest
        → length rest < fuel
        → scroll_back s unlimited fuel n b base ≡ reverse rest
    unfolding scroll_back
    scroll_back-rest zero pre rest b e here enough = ground (arith, enough)
    scroll_back-rest (suc fuel) pre rest b e here enough =
        let m : ℕ = limit_suc.0 in
        let limit : clamp n ≡ suc m = limit_suc.1 in
        elim (cut-cases m rest) [
          | inl h ↦
              let short : load s unlimited (plus n) b base ≡ page (reverse rest) false none =
                here ∙ ap (λ k. cut s k rest) limit ∙ short_cut m rest h.0 h.1 in
              rw (short, scroll_back) refl
          | inr (ys, c, more, split, kept, long) ↦
              let full : load s unlimited (plus n) b base
                  ≡ page (reverse (ys ++ c ∷ [])) true (some (s.id c)) =
                here ∙ ap (λ k. cut s k rest) limit ∙ long_cut m rest ys c long kept in
              let before_all : newest_first s base ≡ (pre ++ ys) ++ c ∷ more =
                e ∙ ap (λ l. pre ++ l) split ∙ sym (append_assoc pre ys (c ∷ more)) in
              let fewer : length more < fuel =
                omega (arith, enough, ap length split, length-after ys c more) in
              let later_pages : scroll_back s unlimited fuel n (before (s.id c)) base
                  ≡ reverse more =
                scroll_back-rest fuel ((pre ++ ys) ++ c ∷ []) more (before (s.id c))
                  (before_all ∙ sym (append_assoc (pre ++ ys) (c ∷ []) more))
                  (load-before (pre ++ ys) c more before_all) fewer in
              rw (full, scroll_back)
                (ap (λ l. l ++ reverse (ys ++ c ∷ [])) later_pages
                  ∙ sym (reverse-append (ys ++ c ∷ []) more)
                  ∙ ap reverse (append_assoc ys (c ∷ []) more ∙ sym split))
        ]

    -- A client that scrolls back from the newest page, with any limit, gets in no more than one
    -- request beyond the number of rows each row once, from the oldest on, those of the same time by
    -- their keys. No two rows have the same key.
    pub scroll_back_lem :
        scroll_back s unlimited (suc (length base)) n BeforeParam.absent base ≡ oldest_first s base
    unfolding load load_limited
    scroll_back_lem =
        scroll_back-rest (suc (length base)) [] (newest_first s base) BeforeParam.absent refl refl
          (omega (arith, length-newest_first s base))
        ∙ reverse-newest_first s base d
