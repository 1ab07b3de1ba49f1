-- ===== src/Tasks/Rounding.antt =====
-- The rounding of a percentage, in `update_progress` and in the dashboard.
use native.Mathlib.Nat.{div-add-mod, mod-lt, mul-add, add-zero}
use mapapi.Prelude.{
  ℕ, ◌+◌, ◌*◌, ◌/◌, ◌%◌, ◌≤◌, ◌<◌, ◌≡◌, arith, inl, inr, Bool-cases, ltb, ◌==◌, ==→eq,
}
use mapapi.Tasks.{percent}

-- p is a hundred times the share of a in n, up to a half
abbrev pub Near : ℕ → ℕ → ℕ → Type 0
Near n p a = (2 * (n * p) ≤ 2 * (a * 100) + n) × (2 * (a * 100) ≤ 2 * (n * p) + n)

near_whole :
    (b q r x : ℕ)
    → b * q + r ≡ x
    → 2 * r ≤ b
    → (2 * (b * q) ≤ 2 * x + b) × (2 * x ≤ 2 * (b * q) + b)
near_whole b q r x e h = (omega arith, omega arith)

near_next :
    (b q r x : ℕ)
    → b * q + r ≡ x
    → r < b
    → b ≤ 2 * r
    → (2 * (b * (q + 1)) ≤ 2 * x + b) × (2 * x ≤ 2 * (b * (q + 1)) + b)
near_next b q r x e l h =
    let next : b * (q + 1) ≡ b * q + b * 1 = mul-add b q 1 in
    (omega (arith, next), omega (arith, next))

-- The percentage is the nearest one.
pub percent-Near : (a b : ℕ) → 1 ≤ b → Near b (percent a b) a
unfolding percent
percent-Near a b h =
    let whole : b * (a * 100 / b) + a * 100 % b ≡ a * 100 = div-add-mod (a * 100) b in
    let small : a * 100 % b < b = mod-lt (a * 100) (omega arith) in
    elim (Bool-cases (ltb (2 * (a * 100 % b)) b)) [
      | inl e ↦ rw e (near_whole b (a * 100 / b) (a * 100 % b) (a * 100) whole (ground arith))
      | inr e ↦ elim (Bool-cases (ltb b (2 * (a * 100 % b)))) [
        | inl f ↦
            rw (e, f) (near_next b (a * 100 / b) (a * 100 % b) (a * 100) whole small (ground arith))
        | inr f ↦ elim (Bool-cases (a * 100 / b % 2 == 0)) [
          | inl g ↦
              let even : a * 100 / b % 2 ≡ 0 = ==→eq (a * 100 / b % 2) 0 g in
              rw (e, f, even, add-zero (a * 100 / b))
                (near_whole b (a * 100 / b) (a * 100 % b) (a * 100) whole (ground arith))
          | inr g ↦
              let odd : a * 100 / b % 2 ≡ 1 = ground arith in
              rw (e, f, odd)
                (near_next b (a * 100 / b) (a * 100 % b) (a * 100) whole small (ground arith))
        ]
      ]
    ]
