-- ===== src/Chat/Bounds.antt =====
-- How long a page is, and when it has a key for the next one.
use mapapi.Prelude.{
  ℕ, zero, suc, ◌+◌, ◌≤◌, ◌≡◌, refl, Bool, true, none, some, List, if◌then◌else◌, leb, subst, sym,
  Bool-cases, [], ◌∷◌, ◌++◌, arith, inl, inr, Option-cases, ltb, is_some, ◌==◌, ◌∙◌,
}
use mapapi.Orm.{find, filter, length}
use mapapi.Chat.{
  Stamped, LimitParam, minus, plus, BeforeParam, before, clamp, take, last, reverse, Reply, page,
  later, insert_newest, newest_first, next_of, cut, load, load_limited,
}
use mapapi.Chat.Order.{length-newest_first}

-- the limit that the code uses, 0 for a reply without one
abbrev pub limit_of : LimitParam → ℕ
limit_of minus = 1
limit_of (plus n) = clamp n
limit_of _ = 0

-- A page with this limit, of so many rows before the cursor: it has all of them or as many as the limit,
-- tells whether there are more, and exactly then has a key for the next page.
abbrev pub Fits {ℓ} : {A : Type ℓ} → ℕ → ℕ → Reply A → Type 0
Fits n total (page rows has_more next) =
    (length rows ≡ (if leb total n then total else n))
    × (has_more ≡ ltb n total)
    × (is_some next ≡ has_more)
Fits n total _ = Unit

module _ {ℓ} {A : Type ℓ} where
  length-take :
      (n : ℕ) (xs : List A) → length (take n xs) ≡ (if leb (length xs) n then length xs else n)
  length-take zero [] = refl
  length-take (suc n) [] = ground arith
  length-take zero (x ∷ xs) = ground arith
  length-take (suc n) (x ∷ xs) = ground (arith, length-take n xs)

  -- The row that is read beyond the limit tells whether there are more.
  length-take_more : (n : ℕ) (xs : List A) → ltb n (length (take (suc n) xs)) ≡ ltb n (length xs)
  length-take_more n xs = ground (arith, length-take (suc n) xs)

  length-take-take :
      (n : ℕ) (xs : List A)
      → length (take n (take (suc n) xs)) ≡ (if leb (length xs) n then length xs else n)
  length-take-take n xs = ground (arith, length-take n (take (suc n) xs), length-take (suc n) xs)

  length-append : (xs ys : List A) → length (xs ++ ys) ≡ length xs + length ys
  length-append [] ys = omega arith
  length-append (x ∷ xs) ys = omega (arith, length-append xs ys)

  length-reverse : (xs : List A) → length (reverse xs) ≡ length xs
  length-reverse [] = refl
  length-reverse (x ∷ xs) = omega (arith, length-reverse xs, length-append (reverse xs) (x ∷ []))

  last-some : (xs : List A) → 1 ≤ length xs → is_some (last xs) ≡ true
  last-some [] h = ground (arith, h)
  last-some (x ∷ []) h = refl
  last-some (x ∷ y ∷ xs) h = last-some (y ∷ xs) (omega arith)

module _ {ℓ} {A : Type ℓ} (s : Stamped A) where
  next_of_iff :
      (rows : List A) (more : Bool)
      → (more ≡ true → 1 ≤ length rows)
      → is_some (next_of s rows more) ≡ more
  next_of_iff rows more h = elim (Option-cases (last rows)) [
    | inr (x, e) ↦ ground (arith, e)
    | inl e ↦ ground (arith, e, h, last-some rows)
  ]

  -- Sorting changes no count.
  length-filter_insert :
      (p : A → Bool) (x : A) (ys : List A)
      → length (filter p (insert_newest s x ys)) ≡ length (filter p (x ∷ ys))
  length-filter_insert p x [] = refl
  length-filter_insert p x (y ∷ ys) = elim (Bool-cases (later s x y)) [
    | inl e ↦ rw e refl
    | inr e ↦ rw e (ground (arith, length-filter_insert p x ys))
  ]

  length-filter_newest :
      (p : A → Bool) (xs : List A) → length (filter p (newest_first s xs)) ≡ length (filter p xs)
  length-filter_newest p [] = refl
  length-filter_newest p (x ∷ xs) =
      length-filter_insert p x (newest_first s xs) ∙ ground (arith, length-filter_newest p xs)

  -- how many rows there are before the cursor
  abbrev pub rows_before : BeforeParam → List A → ℕ
  rows_before BeforeParam.absent base = length base
  rows_before BeforeParam.malformed base = 0
  rows_before (before k) base = elim (find (λ x. s.id x == k) base) [
    | none ↦ 0
    | some c ↦ length (filter (λ x. later s c x) base)
  ]

  cut-Fits : (n : ℕ) (xs : List A) → 1 ≤ n → Fits n (length xs) (cut s n xs)
  unfolding cut
  cut-Fits n xs h =
      let rows : List A = take n (take (suc n) xs) in
      let more : ltb n (length (take (suc n) xs)) ≡ ltb n (length xs) = length-take_more n xs in
      (
        length-reverse rows ∙ length-take-take n xs,
        more,
        next_of_iff rows (ltb n (length (take (suc n) xs)))
            (λ e. ground (arith, e, more, length-take-take n xs, h)),
      )

  load_limited-Fits :
      (n : ℕ) (b : BeforeParam) (base : List A)
      → 1 ≤ n
      → Fits n (rows_before b base) (load_limited s n b base)
  unfolding load_limited
  load_limited-Fits n BeforeParam.absent base h =
      subst (λ k. Fits n k (cut s n (newest_first s base))) (length-newest_first s base)
        (cut-Fits n (newest_first s base) h)
  load_limited-Fits n BeforeParam.malformed base h = tt
  load_limited-Fits n (before k) base h = elim (Option-cases (find (λ x. s.id x == k) base)) [
    | inl e ↦ rw (e, load_limited) tt
    | inr (c, e) ↦
        let left : List A = filter (λ x. later s c x) (newest_first s base) in
        let total : rows_before (before k) base ≡ length left =
          rw (e, rows_before) (sym (length-filter_newest (λ x. later s c x) base)) in
        rw (total, e, load_limited) (cut-Fits n left h)
  ]

  -- With a limit (below 1 it counts as 1, above 100 as 100), a page has all the rows before its cursor,
  -- or as many as the limit; it says whether there are older ones, and exactly then it comes with a
  -- key for the next page.
  pub load-Fits :
      (unlimited : List A → List A) (l : LimitParam) (b : BeforeParam) (base : List A)
      → Fits (limit_of l) (rows_before b base) (load s unlimited l b base) × (limit_of l ≤ 100)
  unfolding load
  load-Fits unlimited LimitParam.absent b base = (tt, omega arith)
  load-Fits unlimited LimitParam.malformed b base = (tt, omega arith)
  load-Fits unlimited minus b base = (load_limited-Fits 1 b base (omega arith), omega arith)
  load-Fits unlimited (plus n) b base =
      (load_limited-Fits (clamp n) b base (ground arith), ground arith)
