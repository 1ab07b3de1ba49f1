-- ===== src/Dashboard/Shares.antt =====
-- The percentages of the dashboard, which are rounded one by one.
use native.Mathlib.Nat.{mul-le-mul_left, mul-add}
use mapapi.Prelude.{
  ℕ, ◌+◌, ◌*◌, ◌≤◌, ◌≡◌, refl, not, List, arith, inl, inr, Bool-cases, if◌then◌else◌, leb, ◌==◌,
  ◌⊎◌, ==→eq, ap, ◌∙◌,
}
use mapapi.Orm.{count, filter}
use mapapi.Models.{Incident, Db, high, medium, low}
use mapapi.Tasks.{percent}
use mapapi.Tasks.Rounding.{Near, percent-Near}
use mapapi.Dashboard.{has_severity, dashboard, Dashboard}

from_bounds :
    (n s : ℕ) → 1 ≤ n → 2 * (n * s) ≤ 203 * n → 200 * n ≤ 2 * (n * s) + 3 * n → (99 ≤ s) × (s ≤ 101)
from_bounds n s h u l = elim (Bool-cases (leb 102 s)) [
  | inl e ↦ let many : n * 102 ≤ n * s = mul-le-mul_left n (ground arith) in omega (arith, many)
  | inr e ↦ elim (Bool-cases (leb s 98)) [
    | inl f ↦ let few : n * s ≤ n * 98 = mul-le-mul_left n (ground arith) in omega (arith, few)
    | inr f ↦ (ground arith, ground arith)
  ]
]

Near-sum :
    (n a b c p q r : ℕ)
    → a + b + c ≡ n
    → 1 ≤ n
    → Near n p a
    → Near n q b
    → Near n r c
    → (99 ≤ p + q + r) × (p + q + r ≤ 101)
Near-sum n a b c p q r t h x y z =
    let sum : n * (p + q + r) ≡ n * p + n * q + n * r =
      mul-add n (p + q) r ∙ ap (λ k. k + n * r) (mul-add n p q) in
    from_bounds n (p + q + r) h (omega (arith, sum)) (omega (arith, sum))

three_shares :
    (a b c n : ℕ)
    → a + b + c ≡ n
    → 1 ≤ n
    → (99 ≤ percent a n + percent b n + percent c n)
      × (percent a n + percent b n + percent c n ≤ 101)
three_shares a b c n t h =
    Near-sum n a b c (percent a n) (percent b n) (percent c n) t h (percent-Near a n h)
      (percent-Near b n h) (percent-Near c n h)

no_shares : (a b c : ℕ) → a + b + c ≡ 0 → percent a 1 + percent b 1 + percent c 1 ≡ 0
unfolding percent
no_shares a b c h =
    let x : a ≡ 0 = omega arith in
    let y : b ≡ 0 = omega arith in let z : c ≡ 0 = omega arith in rw (x, y, z) refl

shares_of :
    (a b c : ℕ)
    → let n : ℕ = if a + b + c == 0 then 1 else a + b + c in
      let part : ℕ = percent a n + percent b n + percent c n in
      ((a + b + c ≡ 0) × (part ≡ 0)) ⊎ ((99 ≤ part) × (part ≤ 101))
shares_of a b c = elim (Bool-cases (a + b + c == 0)) [
  | inl e ↦
      let zero_sum : a + b + c ≡ 0 = ==→eq (a + b + c) 0 e in
      rw e (inl (zero_sum, no_shares a b c zero_sum))
  | inr e ↦ rw e (inr (three_shares a b c (a + b + c) refl (ground arith)))
]

-- If an incident outside the trash has one of the three severities, their percentages, rounded one by
-- one, add up to 99, 100 or 101; if none has, they add up to 0.
pub dashboard_shares :
    (db : Db)
    → let d : Dashboard = dashboard db in
      let part : ℕ =
        d.severity_percentage high + d.severity_percentage medium + d.severity_percentage low in
      ((d.severity_count high + d.severity_count medium + d.severity_count low ≡ 0) × (part ≡ 0))
      ⊎ ((99 ≤ part) × (part ≤ 101))
unfolding dashboard
dashboard_shares db =
    let qs : List Incident = filter (λ i. not i.is_deleted) db.incidents in
    shares_of (count (has_severity high) qs) (count (has_severity medium) qs)
      (count (has_severity low) qs)
