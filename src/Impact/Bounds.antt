-- ===== src/Impact/Bounds.antt =====
-- The counters of the sections of the platform against one another.
use mapapi.Prelude.{
  ℕ, ◌+◌, ◌≤◌, ◌≡◌, Bool, true, false, Option, List, [], ◌∷◌, arith, inl, inr, Option-cases,
}
use mapapi.Orm.{count, length}
use mapapi.Models.{Incident}
use mapapi.Impact.{Source, Platform, platform_of, distinct, collect, citizen}

module _ {A : Type 0} where
  count_le : (p : A → Bool) (xs : List A) → count p xs ≤ length xs
  count_le p [] = omega arith
  count_le p (x ∷ xs) = ground (arith, count_le p xs)

  count_or :
      (p q : A → Bool) (xs : List A)
      → ((x : A) → p x ≡ true → q x ≡ false)
      → count p xs + count q xs ≤ length xs
  count_or p q [] h = omega arith
  count_or p q (x ∷ xs) h = ground (arith, h x, count_or p q xs h)

  count_sub :
      (p q : A → Bool) (xs : List A) → ((x : A) → p x ≡ true → q x ≡ true) → count p xs ≤ count q xs
  count_sub p q [] h = omega arith
  count_sub p q (x ∷ xs) h = ground (arith, h x, count_sub p q xs h)

  collect_le : (f : A → Option ℕ) (xs : List A) → length (collect f xs) ≤ length xs
  collect_le f [] = omega arith
  collect_le f (x ∷ xs) = elim (Option-cases (f x)) [
    | inl e ↦ ground (arith, e, collect_le f xs)
    | inr w ↦ ground (arith, w.1, collect_le f xs)
  ]

distinct_le : (ks : List ℕ) → length (distinct ks) ≤ length ks
distinct_le [] = omega arith
distinct_le (k ∷ ks) = ground (arith, distinct_le ks)

-- No more incidents are resolved than verified, and no more verified, acted on or reported by different
-- citizens than reported; in the scope, no more are collaborative or individual, and no more durations
-- are averaged, than there are incidents.
pub platform_of_bounds :
    (s : Source) (base scope : List Incident)
    → let f : Platform = platform_of s base scope in
      (f.resolved_total ≤ f.reports_verified)
      × (f.reports_verified ≤ f.reported_total)
      × (f.reports_led_to_action ≤ f.reported_total)
      × (f.active_citizens ≤ f.reported_total)
      × (f.incidents_collaborative + f.incidents_individual ≤ length scope)
      × (length f.durations ≤ length scope)
unfolding platform_of
platform_of_bounds s base scope = (
  count_sub _ _ base (λ i. ground arith),
  count_le _ base,
  count_le _ base,
  omega (arith, distinct_le (collect (citizen s.db) base), collect_le (citizen s.db) base),
  count_or _ _ scope (λ i. ground arith),
  collect_le _ scope,
)
