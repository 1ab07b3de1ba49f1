-- ===== src/Tasks/Progress.antt =====
-- The progress of an incident, as it is computed and as it is stored.
use native.Mathlib.Nat.{div-le_of_le-mul, div-add-mod, mul-div_cancel_left}
use mapapi.Prelude.{
  ℕ, ◌+◌, ◌*◌, ◌/◌, ◌%◌, ◌≤◌, ◌≡◌, refl, Bool, true, false, ◌&&◌, none, some, List, [], ◌∷◌, arith,
  inl, inr, Bool-cases, Option-cases, if◌then◌else◌, ltb, ◌==◌, ◌⊎◌, ==→eq, subst, sym,
}
use mapapi.Orm.{count, find-update, find-sat}
use mapapi.Models.{Incident, IncidentTask, Db, is_done, is_final, get_incident}
use mapapi.Tasks.Rounding.{Near, percent-Near}
use mapapi.Tasks.{percent, is_confirmed_of, progress_of, update_progress}

percent_third : percent 1 3 ≡ 33
unfolding percent
percent_third = refl

percent_half : percent 1 8 ≡ 12
unfolding percent
percent_half = refl

count-le : {A : Type 0} (p q : A → Bool) (xs : List A) → count (λ x. p x && q x) xs ≤ count p xs
count-le p q [] = ground arith
count-le p q (x ∷ xs) = ground (arith, count-le p q xs)

percent-le : (a b : ℕ) → a ≤ b → percent a b ≤ 100
unfolding percent
percent-le a b h =
    let q : a * 100 / b ≤ 100 = div-le_of_le-mul b (omega arith) in
    elim (Bool-cases (ltb (a * 100 / b) 100)) [
      | inl e ↦ ground arith
      | inr e ↦
          let full : a * 100 / b ≡ 100 = ground arith in
          let sum : b * 100 + a * 100 % b ≡ a * 100 =
            subst (λ x. b * x + a * 100 % b ≡ a * 100) full (div-add-mod (a * 100) b) in
          ground arith
    ]

percent_full : (n : ℕ) → (n == 0) ≡ false → percent n n ≡ 100
unfolding percent
percent_full n h =
    let full : n * 100 / n ≡ 100 = mul-div_cancel_left 100 (ground arith) in
    let sum : n * 100 + n * 100 % n ≡ n * 100 =
      subst (λ x. n * x + n * 100 % n ≡ n * 100) full (div-add-mod (n * 100) n) in
    ground arith

-- The progress that is computed for an incident is a percentage.
progress_of-le : (i : Incident) (db : Db) → progress_of i db ≤ 100
unfolding progress_of
progress_of-le i db = ground (
  arith,
  percent-le (count (λ t. is_confirmed_of i t && is_done t.state) db.tasks)
      (count (is_confirmed_of i) db.tasks)
      (count-le (is_confirmed_of i) (λ t. is_done t.state) db.tasks),
)

-- When every confirmed task of an incident is done, and there is one, its progress is 100.
progress_of-all_done :
    (i : Incident) (db : Db)
    → (count (is_confirmed_of i) db.tasks == 0) ≡ false
    → count (λ t. is_confirmed_of i t && is_done t.state) db.tasks
      ≡ count (is_confirmed_of i) db.tasks
    → progress_of i db ≡ 100
unfolding progress_of
progress_of-all_done i db h e = ground (arith, percent_full (count (is_confirmed_of i) db.tasks) h)

-- After `update_progress` the incident has the progress that its tasks have come to.
pub get-update_progress :
    (k j : ℕ) (db : Db)
    → get_incident j (update_progress k db) ≡ elim (get_incident j db) [
      | none ↦ none
      | some i ↦ some (if i.id == k then record i { progress = progress_of i db } else i)
    ]
unfolding update_progress
get-update_progress k j db =
    find-update (λ i. i.id == j) (λ i. i.id == k) (λ i. record i { progress = progress_of i db })
      db.incidents (λ i. refl)

-- With n confirmed tasks, of which so many are done: a final incident is at 100; another one is at 0 if
-- it has no confirmed task, and else at the share of those that are done, up to half a percent.
abbrev pub Shares : Bool → ℕ → ℕ → ℕ → Type 0
Shares true n done_ progress = progress ≡ 100
Shares false n done_ progress = ((n ≡ 0) × (progress ≡ 0)) ⊎ ((1 ≤ n) × Near n progress done_)

abbrev pub FitsTasks : List IncidentTask → Incident → Type 0
FitsTasks ts i =
    Shares (is_final i.etat) (count (λ t. t.incident == i.id && t.is_confirmed) ts)
      (count (λ t. (t.incident == i.id && t.is_confirmed) && is_done t.state) ts) i.progress

-- the stored progress of the incident fits its tasks
abbrev pub IsCurrent : ℕ → Db → Type 0
IsCurrent k db = (i : Incident) → get_incident k db ≡ some i → FitsTasks db.tasks i

percent-Shares :
    (closed : Bool) (n done_ : ℕ)
    → Shares closed n done_ (if closed then 100 else if n == 0 then 0 else percent done_ n)
percent-Shares true n done_ = refl
percent-Shares false n done_ = elim (Bool-cases (n == 0)) [
  | inl e ↦ rw e (inl (==→eq n 0 e, refl))
  | inr e ↦
      let some_task : 1 ≤ n = ground arith in rw e (inr (some_task, percent-Near done_ n some_task))
]

progress_of-FitsTasks :
    (i : Incident) (db : Db) → FitsTasks db.tasks (record i { progress = progress_of i db })
unfolding progress_of
progress_of-FitsTasks i db =
    percent-Shares (is_final i.etat) (count (is_confirmed_of i) db.tasks)
      (count (λ t. is_confirmed_of i t && is_done t.state) db.tasks)

pub update_progress-IsCurrent : (k : ℕ) (db : Db) → IsCurrent k (update_progress k db)
unfolding update_progress
update_progress-IsCurrent k db i h = elim (Option-cases (get_incident k db)) [
  | inl e ↦ ground (arith, get-update_progress k k db, e)
  | inr (j, e) ↦
      let own : (j.id == k) ≡ true = find-sat (λ x. x.id == k) db.incidents e in
      let same : i ≡ record j { progress = progress_of j db } =
        ground (arith, get-update_progress k k db, e, own) in
      subst (FitsTasks db.tasks) (sym same) (progress_of-FitsTasks j db)
]
