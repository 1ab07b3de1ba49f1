-- ===== src/Impact/Partition.antt =====
-- Sums over tables that are cut in two.
use mapapi.Prelude.{
  ℕ, ◌+◌, ◌≡◌, refl, sym, Bool, true, false, Option, none, some, List, [], ◌∷◌, arith, inl, inr,
  Bool-cases, Option-cases, given, if◌then◌else◌, ◌==◌, ==→eq, refers, subst,
}
use mapapi.Orm.{find, exists, filter, length}
use mapapi.Models.{Incident, Db}
use mapapi.Beat.Loop.{Distinct, Distinct-filter}
use mapapi.Predictions.{
  PredictionStatus, pending, processing, completed, completed_with_warning, failed, is_completed,
}
use mapapi.Impact.Totals.{
  Analysis, Group, InfraType, Figures, figures, sum, completed_in, infra_types,
}
use mapapi.Impact.{
  Calendar, Period, Source, resolved, taken_action, all, in_statut, impact_base, impact_scope,
}

abbrev ind : Bool → ℕ
ind b = if b then 1 else 0

module _ {A : Type 0} (p q r : A → Bool) (h : (x : A) → ind (p x) + ind (q x) ≡ ind (r x)) where
  length-split : (xs : List A) → length (filter p xs) + length (filter q xs) ≡ length (filter r xs)
  length-split [] = refl
  length-split (x ∷ xs) = ground (arith, h x, length-split xs)

  sum-split :
      (f : A → ℕ) (xs : List A) → sum f (filter p xs) + sum f (filter q xs) ≡ sum f (filter r xs)
  sum-split f [] = refl
  sum-split f (x ∷ xs) = ground (arith, h x, sum-split f xs)

sum_add :
    {A : Type 0} (f g k : A → ℕ)
    → ((x : A) → f x + g x ≡ k x)
    → (xs : List A) → sum f xs + sum g xs ≡ sum k xs
sum_add f g k h [] = refl
sum_add f g k h (x ∷ xs) = ground (arith, h x, sum_add f g k h xs)

exists-absent :
    (n : ℕ) (p : Incident → Bool) (is : List Incident)
    → find (λ j. j.id == n) is ≡ none
    → exists (λ j. refers (some n) j.id) (filter p is) ≡ false
exists-absent n p [] h = refl
exists-absent n p (i ∷ is) h = ground (arith, exists-absent n p is)

nowhere : (is : List Incident) → exists (λ j. refers none j.id) is ≡ false
nowhere [] = refl
nowhere (i ∷ is) = nowhere is

module _ (p q r : Incident → Bool) (h : (i : Incident) → ind (p i) + ind (q i) ≡ ind (r i)) where
  one_side :
      (n : ℕ) (is : List Incident)
      → Distinct is
      → ind (exists (λ j. refers (some n) j.id) (filter p is))
          + ind (exists (λ j. refers (some n) j.id) (filter q is))
        ≡ ind (exists (λ j. refers (some n) j.id) (filter r is))
  one_side n [] d = refl
  one_side n (i ∷ is) d = elim (Bool-cases (n == i.id)) [
    | inl e ↦
        let gone : find (λ j. j.id == n) is ≡ none =
          subst (λ k. find (λ j. j.id == k) is ≡ none) (sym (==→eq n i.id e)) d.0 in
        ground (
          arith,
          h i,
          e,
          exists-absent n p is gone,
          exists-absent n q is gone,
          exists-absent n r is gone,
        )
    | inr e ↦ ground (arith, h i, e, one_side n is d.1)
  ]

  abbrev side : (Incident → Bool) → List Incident → Analysis → Bool
  side p is = completed_in (filter p is)

  both_sides :
      (is : List Incident)
      → Distinct is
      → (a : Analysis) → ind (side p is a) + ind (side q is a) ≡ ind (side r is a)
  both_sides is d a = elim (Option-cases a.incident) [
    | inl e ↦ ground (arith, e, nowhere (filter p is), nowhere (filter q is), nowhere (filter r is))
    | inr w ↦ ground (arith, w.1, one_side w.0 is d)
  ]

-- each figure of the third is the sum of those of the first two
abbrev pub Adds : Figures → Figures → Figures → Type 0
Adds a b c =
    (a.incidents_in_scope + b.incidents_in_scope ≡ c.incidents_in_scope)
    × (a.incidents_with_prediction + b.incidents_with_prediction ≡ c.incidents_with_prediction)
    × ((g : Group) → a.direct g + b.direct g ≡ c.direct g)
    × ((g : Group) → a.indirect g + b.indirect g ≡ c.indirect g)
    × ((t : InfraType) → a.by_type t + b.by_type t ≡ c.by_type t)
    × ((t : InfraType) → a.indirect_by_type t + b.indirect_by_type t ≡ c.indirect_by_type t)
    × (a.protected + b.protected ≡ c.protected)

figures-Adds :
    (p q r : Incident → Bool)
    → ((i : Incident) → ind (p i) + ind (q i) ≡ ind (r i))
    → (is : List Incident) → Distinct is
    → (ps : List Analysis)
    → Adds (figures (filter p is) ps) (figures (filter q is) ps) (figures (filter r is) ps)
unfolding figures
figures-Adds p q r h is d ps =
    let cut : (a : Analysis)
        → ind (completed_in (filter p is) a) + ind (completed_in (filter q is) a)
          ≡ ind (completed_in (filter r is) a) =
      both_sides p q r h is d in
    let at : (f : Analysis → ℕ)
        → sum f (filter (completed_in (filter p is)) ps)
            + sum f (filter (completed_in (filter q is)) ps)
          ≡ sum f (filter (completed_in (filter r is)) ps) =
      λ f.
        sum-split (completed_in (filter p is)) (completed_in (filter q is))
          (completed_in (filter r is)) cut f ps in
    (
      length-split p q r h is,
      length-split (completed_in (filter p is)) (completed_in (filter q is))
          (completed_in (filter r is)) cut ps,
      (λ g. at (λ a. a.people g)),
      (λ g. at (λ a. given (a.indirect_people g) 0)),
      (λ t. at (λ a. a.infra t)),
      (λ t. at (λ a. given (a.indirect_infra t) 0)),
      sum_add (λ t. sum (λ a. a.infra t) (filter (completed_in (filter p is)) ps))
          (λ t. sum (λ a. a.infra t) (filter (completed_in (filter q is)) ps))
          (λ t. sum (λ a. a.infra t) (filter (completed_in (filter r is)) ps))
          (λ t. at (λ a. a.infra t)) infra_types,
    )

base-Distinct :
    (c : Calendar) (now : ℕ) (s : Source) (org : Option ℕ) (p : Period)
    → Distinct s.db.incidents
    → Distinct (impact_base c now s org p)
unfolding impact_base
base-Distinct c now s org p d = Distinct-filter _ s.db.incidents d

in_statut-cut :
    (db : Db) (i : Incident)
    → ind (in_statut db resolved i) + ind (in_statut db taken_action i) ≡ ind (in_statut db all i)
unfolding in_statut
in_statut-cut db i = ground arith

-- an analysis that is counted: completed, with a warning or not
abbrev pub is_done : PredictionStatus → Bool
is_done pending = false
is_done processing = false
is_done completed = true
is_done completed_with_warning = true
is_done failed = false

done-is_completed : (x : PredictionStatus) → is_done x ≡ is_completed x
done-is_completed x = ground arith

filter-done :
    (scope : List Incident) (ps : List Analysis)
    → filter (completed_in scope) (filter (λ a. is_done a.status) ps)
      ≡ filter (completed_in scope) ps
filter-done scope [] = refl
filter-done scope (a ∷ ps) = ground (arith, done-is_completed a.status, filter-done scope ps)

figures-done :
    (scope : List Incident) (ps : List Analysis)
    → figures scope (filter (λ a. is_done a.status) ps) ≡ figures scope ps
unfolding figures
figures-done scope ps = rw (filter-done scope ps) refl

-- In any period, for the platform and for an organisation, each of the common figures (the numbers of
-- incidents and of analyses, and the sums of people and of buildings) on all incidents is the sum of that
-- on the resolved ones and of that on those taken in charge with a task done; and analyses that are
-- pending, processing or failed count for nothing. No two incidents have the same key.
pub impact_scope_splits :
    (c : Calendar) (now : ℕ) (s : Source) (org : Option ℕ) (p : Period)
    → Distinct s.db.incidents
    → Adds
        (figures (impact_scope c now s org p resolved) s.analyses)
        (figures (impact_scope c now s org p taken_action) s.analyses)
        (figures (impact_scope c now s org p all) s.analyses)
      × (figures (impact_scope c now s org p all) (filter (λ a. is_done a.status) s.analyses)
          ≡ figures (impact_scope c now s org p all) s.analyses)
unfolding impact_scope
impact_scope_splits c now s org p d = (
  figures-Adds (in_statut s.db resolved) (in_statut s.db taken_action) (in_statut s.db all)
      (in_statut-cut s.db) (impact_base c now s org p) (base-Distinct c now s org p d) s.analyses,
  figures-done (filter (in_statut s.db all) (impact_base c now s org p)) s.analyses,
)
