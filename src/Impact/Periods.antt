-- ===== src/Impact/Periods.antt =====
-- The months of `_apply_period`, counted through from the beginning of the calendar.
use mapapi.Prelude.{ℕ, ◌+◌, ◌*◌, ◌-◌, ◌≤◌, ◌≡◌, ◌&&◌, arith, if◌then◌else◌, ltb, ◌==◌}
use mapapi.Impact.{Calendar, this_month, last_month, in_period, month_before}

-- the number of the month of a day
abbrev pub month_number : Calendar → ℕ → ℕ
month_number c d = c.year d * 12 + c.month d

-- what a calendar says of every day
abbrev pub IsDate : Calendar → ℕ → Type 0
IsDate c d = (1 ≤ c.year d) × (1 ≤ c.month d) × (c.month d ≤ 12)

same_month :
    (y m z n : ℕ)
    → m ≤ 12
    → n ≤ 12
    → 1 ≤ m
    → 1 ≤ n
    → (z == y && n == m) ≡ (z * 12 + n == y * 12 + m)
same_month y m z n a b c d = ground arith

previous_month :
    (y m z n : ℕ)
    → m ≤ 12
    → n ≤ 12
    → 1 ≤ m
    → 1 ≤ n
    → 1 ≤ y
    → (z == (if ltb 1 m then y else y - 1) && n == month_before m) ≡ (z * 12 + n + 1 == y * 12 + m)
previous_month y m z n a b c d e = ground arith

-- `this_month` keeps the rows whose month is that of today, and `last_month` those whose month is the one
-- before it, in January the December of the year before; the months are numbered through the years.
pub in_period_month :
    (c : Calendar) (now d : ℕ)
    → IsDate c now
    → IsDate c d
    → (in_period c this_month now d ≡ (month_number c d == month_number c now))
      × (in_period c last_month now d ≡ (month_number c d + 1 == month_number c now))
unfolding in_period
in_period_month c now d (y, l, u) (z, m, v) = (
  same_month (c.year now) (c.month now) (c.year d) (c.month d) u v l m,
  previous_month (c.year now) (c.month now) (c.year d) (c.month d) u v l m y,
)
