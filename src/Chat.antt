-- ===== src/Chat.antt =====
-- Conversations that are loaded page by page: `list` of DiscussionMessageView in views/message.py and
-- `get` of IncidentChatView in views/incident.py, which page alike. The rows are those of `base`.
pub mod Order
pub mod Pages
pub mod Bounds
use mapapi.Prelude.{
  ℕ, zero, suc, Bool, true, false, ◌&&◌, ◌||◌, Option, none, some, List, [], ◌∷◌, ◌++◌,
  if◌then◌else◌, ltb, leb, ◌==◌,
}
use mapapi.Orm.{find, filter, length}

-- what the pages need of a row
pub record Stamped {ℓ} (A : Type ℓ) : Type ℓ where
  pub id : A → ℕ
  pub created_at : A → ℕ

-- `limit` as `int` reads it; `minus n` stands for every integer below 1
pub data LimitParam : Type 0 where
  absent malformed minus : LimitParam
  plus : ℕ → LimitParam

-- `before`: absent or empty, no UUID, or a key
pub data BeforeParam : Type 0 where
  absent malformed : BeforeParam
  before : ℕ → BeforeParam

-- `max(1, min(limit, 100))`
abbrev pub clamp : ℕ → ℕ
clamp n = if leb n 1 then 1 else if leb n 100 then n else 100

abbrev pub take {ℓ} : {A : Type ℓ} → ℕ → List A → List A
take n [] = []
take zero (x ∷ xs) = []
take (suc n) (x ∷ xs) = x ∷ take n xs

-- `rows[-1]`
abbrev pub last {ℓ} : {A : Type ℓ} → List A → Option A
last [] = none
last (x ∷ []) = some x
last (x ∷ y ∷ ys) = last (y ∷ ys)

abbrev pub reverse {ℓ} : {A : Type ℓ} → List A → List A
reverse [] = []
reverse (x ∷ xs) = reverse xs ++ x ∷ []

pub data Reply {ℓ} (A : Type ℓ) : Type ℓ where
  -- without `limit`
  whole : List A → Reply A
  -- `messages`, `has_more`, `next_before`
  page : List A → Bool → Option ℕ → Reply A
  bad_limit bad_before : Reply A

module _ {ℓ} {A : Type ℓ} (s : Stamped A) where
  -- whether the first comes before the second in `order_by('-created_at', '-id')`
  abbrev pub later : A → A → Bool
  later x y =
      ltb (s.created_at y) (s.created_at x)
      || (s.created_at x == s.created_at y && ltb (s.id y) (s.id x))

  abbrev pub insert_newest : A → List A → List A
  insert_newest x [] = x ∷ []
  insert_newest x (y ∷ ys) =
      let rest = insert_newest x ys in if later x y then x ∷ y ∷ ys else y ∷ rest

  -- `order_by('-created_at', '-id')`
  abbrev pub newest_first : List A → List A
  newest_first [] = []
  newest_first (x ∷ xs) = insert_newest x (newest_first xs)

  abbrev pub insert_oldest : A → List A → List A
  insert_oldest x [] = x ∷ []
  insert_oldest x (y ∷ ys) =
      let rest = insert_oldest x ys in if later y x then x ∷ y ∷ ys else y ∷ rest

  -- `order_by('created_at', 'id')`
  abbrev pub oldest_first : List A → List A
  oldest_first [] = []
  oldest_first (x ∷ xs) = insert_oldest x (oldest_first xs)

  -- the key of the oldest row of a page, if there are older ones
  abbrev pub next_of : List A → Bool → Option ℕ
  next_of rows has_more = elim (last rows) [
    | none ↦ none
    | some x ↦ if has_more then some (s.id x) else none
  ]

  -- the rows that are left after the cursor, newest first, cut at the limit
  unfoldable pub cut : ℕ → List A → Reply A
  cut limit qs =
      let has_more : Bool = ltb limit (length (take (suc limit) qs)) in
      let rows : List A = take limit (take (suc limit) qs) in
      page (reverse rows) has_more (next_of rows has_more)

  unfoldable pub load_limited : ℕ → BeforeParam → List A → Reply A
  load_limited limit BeforeParam.absent base = cut limit (newest_first base)
  load_limited limit BeforeParam.malformed base = bad_before
  load_limited limit (before k) base = elim (find (λ x. s.id x == k) base) [
    | none ↦ bad_before
    | some cursor ↦ cut limit (filter (λ x. later cursor x) (newest_first base))
  ]

  -- `list` of DiscussionMessageView, `get` of IncidentChatView. The order of the reply without a limit
  -- is an argument: the first view orders by `created_at` alone, the second also by the key.
  unfoldable pub load : (List A → List A) → LimitParam → BeforeParam → List A → Reply A
  load unlimited LimitParam.absent b base = whole (unlimited base)
  load unlimited LimitParam.malformed b base = bad_limit
  load unlimited minus b base = load_limited 1 b base
  load unlimited (plus n) b base = load_limited (clamp n) b base

  -- A client that scrolls back: it loads the newest page, and then the page before the one that it
  -- has as long as a key for it is given, in at most so many requests.
  unfoldable pub scroll_back : (List A → List A) → ℕ → ℕ → BeforeParam → List A → List A
  scroll_back unlimited zero n b base = []
  scroll_back unlimited (suc more) n b base = elim (load unlimited (plus n) b base) [
    | page rows has_more (some k) ↦ scroll_back unlimited more n (before k) base ++ rows
    | page rows has_more none ↦ rows
    | _ ↦ []
  ]
