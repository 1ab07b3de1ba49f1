-- ===== src/Members/Others.antt =====
-- Who else passes a test when one row of the table of users is replaced or deleted.
use mapapi.Prelude.{
  ℕ, ◌≡◌, refl, Bool, true, false, not, ◌&&◌, none, some, List, [], ◌∷◌, arith, inl, inr, ◌==◌,
  Bool-cases, subst, ==→eq,
}
use mapapi.Orm.{find, exists, filter, update, count}
use mapapi.Models.{User}

-- no key stands twice
abbrev pub DistinctUsers : List User → Type 0
DistinctUsers [] = Unit
DistinctUsers (u ∷ us) = (find (λ x. x.id == u.id) us ≡ none) × DistinctUsers us

find-narrow-none :
    (k : ℕ) (r : User → Bool) (us : List User)
    → find (λ x. x.id == k) us ≡ none
    → find (λ x. x.id == k && r x) us ≡ none
find-narrow-none k r [] h = refl
find-narrow-none k r (u ∷ us) h = ground (arith, find-narrow-none k r us)

module _ (q : User → Bool) where
  -- some user other than the one with the key passes the test
  abbrev pub other : ℕ → List User → Bool
  other k us = exists (λ x. not (x.id == k) && q x) us

  other-absent :
      (k : ℕ) (us : List User)
      → find (λ x. x.id == k) us ≡ none
      → exists q us ≡ true
      → other k us ≡ true
  other-absent k [] h e = e
  other-absent k (u ∷ us) h e = ground (arith, other-absent k us)

  -- If somebody passes the test, and the user that was found does not, another one does.
  pub other-found :
      (k : ℕ) (r : User → Bool) (us : List User) {m : User}
      → DistinctUsers us
      → find (λ x. x.id == k && r x) us ≡ some m
      → q m ≡ false
      → exists q us ≡ true
      → other k us ≡ true
  other-found k r [] d h n e = e
  other-found k r (u ∷ us) {m} d h n e = elim (Bool-cases (u.id == k)) [
    | inl t ↦
        let absent : find (λ x. x.id == k) us ≡ none =
          subst (λ x. find (λ y. y.id == x) us ≡ none) (==→eq u.id k t) d.0 in
        elim (Bool-cases (r u)) [
          | inl y ↦
              let gone : q u ≡ false = subst (λ z. q z ≡ false) (ground (arith, h, t, y)) n in
              ground (arith, t, gone, other-absent k us absent)
          | inr y ↦ ground (arith, h, t, y, find-narrow-none k r us absent)
        ]
    | inr t ↦ ground (arith, t, other-found k r us {m = m} d.1 (rw t at h) n)
  ]

  pub exists-update :
      (k : ℕ) (v : User) (us : List User)
      → other k us ≡ true
      → exists q (update (λ x. x.id == k) (λ _. v) us) ≡ true
  exists-update k v [] e = cc
  exists-update k v (u ∷ us) e = ground (arith, exists-update k v us)

  pub exists-delete :
      (k : ℕ) (us : List User)
      → other k us ≡ true
      → exists q (filter (λ x. not (x.id == k)) us) ≡ true
  exists-delete k [] e = cc
  exists-delete k (u ∷ us) e = ground (arith, exists-delete k us)

  pub exists-replaced :
      (k : ℕ) (r : User → Bool) (v : User) (us : List User) {m : User}
      → find (λ x. x.id == k && r x) us ≡ some m
      → q v ≡ true
      → exists q (update (λ x. x.id == k) (λ _. v) us) ≡ true
  exists-replaced k r v [] h e = cc
  exists-replaced k r v (u ∷ us) {m} h e = ground (arith, exists-replaced k r v us {m = m})

  pub count-other :
      (k : ℕ) (us : List User)
      → (count (λ x. not (x.id == k) && q x) us == 0) ≡ false
      → other k us ≡ true
  count-other k [] h = cc
  count-other k (u ∷ us) h = ground (arith, count-other k us)

  pub exists-no_other :
      (k : ℕ) (v : User) (us : List User)
      → count (λ x. not (x.id == k) && q x) us ≡ 0
      → q v ≡ false
      → exists q (update (λ x. x.id == k) (λ _. v) us) ≡ false
  exists-no_other k v [] h n = refl
  exists-no_other k v (u ∷ us) h n = ground (arith, exists-no_other k v us)
