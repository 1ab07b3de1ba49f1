-- ===== src/ActingOrgs/Strongest.antt =====
-- The list of acting organisations against what it promises: each organisation once, with its
-- strongest relation.
use mapapi.Prelude.{
  ℕ, ◌≤◌, ◌≡◌, refl, Bool, true, false, ◌||◌, Option, none, some, List, [], ◌∷◌, arith, inl, inr,
  if◌then◌else◌, ltb, ◌==◌, refers, is_some, Bool-cases, Option-cases, ◌∙◌, ==→eq, ==_self, subst,
}
use mapapi.Orm.{
  exists, count, count-append, find-append, find-update, find-sat, count-not_found,
  count-update_same,
}
use mapapi.Models.{User, Incident, Db}
use mapapi.ActingOrgs.{
  Relation, leader, assigned, collaborator, rank, Found, entry_of, add, add_each, org_of_user,
  accepted_assignments, accepted_collaborations, taken_by_organisation, acting_organisations,
  org_acting,
}

-- The specification: the strongest relation that holds.
abbrev relation_of : ℕ → Incident → Db → Option Relation
relation_of org i db =
    if refers (taken_by_organisation i db) org
    then some leader
    else if exists (λ a. a.organisation == org) (accepted_assignments i db)
    then some assigned
    else if exists (λ c. refers (org_of_user c.user db) org) (accepted_collaborations i db)
    then some collaborator
    else none

abbrev pub relation_in : ℕ → Found → Option Relation
relation_in org found = elim (entry_of org found) [ none ↦ none | some e ↦ some e.1 ]

-- what is known after one more relation
abbrev better : Option Relation → Relation → Option Relation
better none r = some r
better (some q) r = if ltb (rank r) (rank q) then some r else some q

better_again : (m : Option Relation) (r : Relation) → better (better m r) r ≡ better m r
better_again none leader = refl
better_again none assigned = refl
better_again none collaborator = refl
better_again (some leader) leader = refl
better_again (some q) r = ground arith

relation-add_own :
    (x : ℕ) (r : Relation) (found : Found)
    → relation_in x (add (some x) r found) ≡ better (relation_in x found) r
unfolding add
relation-add_own x r found = elim (Option-cases (entry_of x found)) [
  | inl e ↦ ground (arith, e, ==_self x, find-append (λ y. y.0 == x) found ((x, r) ∷ []))
  | inr (y, e) ↦ ground (
    arith,
    e,
    find-sat (λ z. z.0 == x) found e,
    find-update (λ z. z.0 == x) (λ z. z.0 == x) (λ z. (z.0, r)) found (λ z. refl),
  )
]

relation-add_other :
    (x : ℕ) (r : Relation) (found : Found) (org : ℕ)
    → (x == org) ≡ false
    → relation_in org (add (some x) r found) ≡ relation_in org found
unfolding add
relation-add_other x r found org f = elim (Option-cases (entry_of x found)) [
  | inl e ↦ ground (arith, e, f, find-append (λ y. y.0 == org) found ((x, r) ∷ []))
  | inr (y, e) ↦ elim (Option-cases (entry_of org found)) [
    | inl n ↦ ground (
      arith,
      e,
      n,
      find-update (λ z. z.0 == org) (λ z. z.0 == x) (λ z. (z.0, r)) found (λ z. refl),
    )
    | inr (w, n) ↦ ground (
      arith,
      e,
      n,
      f,
      find-sat (λ z. z.0 == org) found n,
      find-update (λ z. z.0 == org) (λ z. z.0 == x) (λ z. (z.0, r)) found (λ z. refl),
    )
  ]
]

relation-add :
    (x : Option ℕ) (r : Relation) (found : Found) (org : ℕ)
    → relation_in org (add x r found)
      ≡ (if refers x org then better (relation_in org found) r else relation_in org found)
unfolding add
relation-add none r found org = refl
relation-add (some x) r found org = elim (Bool-cases (x == org)) [
  | inl t ↦ rw t (
      subst (λ k. relation_in k (add (some x) r found) ≡ better (relation_in k found) r)
        (==→eq x org t) (relation-add_own x r found))
  | inr f ↦ rw f (relation-add_other x r found org f)
]

relation-add_each :
    {A : Type 0} (g : A → Option ℕ) (r : Relation) (xs : List A) (found : Found) (org : ℕ)
    → relation_in org (add_each g r xs found) ≡ (
        if exists (λ a. refers (g a) org) xs
        then better (relation_in org found) r
        else relation_in org found)
unfolding add_each
relation-add_each g r [] found org = refl
relation-add_each g r (x ∷ xs) found org =
    relation-add_each g r xs (add (g x) r found) org
    ∙ ground (arith, relation-add (g x) r found org, better_again (relation_in org found) r)

abbrev OnceEach : Found → Type 0
OnceEach found = (org : ℕ) → count (λ e. e.0 == org) found ≤ 1

add-OnceEach :
    (x : Option ℕ) (r : Relation) (found : Found) → OnceEach found → OnceEach (add x r found)
unfolding add
add-OnceEach none r found h org = h org
add-OnceEach (some x) r found h org = elim (Option-cases (entry_of x found)) [
  | inl e ↦ elim (Bool-cases (x == org)) [
    | inl t ↦
        let absent : entry_of org found ≡ none =
          subst (λ k. entry_of k found ≡ none) (==→eq x org t) e in
        ground (
          arith,
          e,
          t,
          count-append (λ y. y.0 == org) found ((x, r) ∷ []),
          count-not_found (λ y. y.0 == org) found absent,
        )
    | inr f ↦ ground (arith, e, f, h org, count-append (λ y. y.0 == org) found ((x, r) ∷ []))
  ]
  | inr (y, e) ↦ ground (
    arith,
    e,
    h org,
    count-update_same (λ z. z.0 == org) (λ z. z.0 == x) (λ z. (z.0, r)) found (λ z. refl),
  )
]

add_each-OnceEach :
    {A : Type 0} (g : A → Option ℕ) (r : Relation) (xs : List A) (found : Found)
    → OnceEach found
    → OnceEach (add_each g r xs found)
unfolding add_each
add_each-OnceEach g r [] found h = h
add_each-OnceEach g r (x ∷ xs) found h =
    add_each-OnceEach g r xs (add (g x) r found) (add-OnceEach (g x) r found h)

-- the three additions in a row, on what holds of one organisation
strongest :
    (a b c : Bool)
    → (let x = if a then some leader else none in
        let y = if b then better x assigned else x in if c then better y collaborator else y)
      ≡ (if a
          then some leader
          else if b
          then some assigned
          else if c
          then some collaborator
          else none)
strongest true true true = refl
strongest true true false = refl
strongest true false true = refl
strongest true false false = refl
strongest false true true = refl
strongest false true false = refl
strongest false false true = refl
strongest false false false = refl

-- The list of an incident has no organisation twice, and shows of each one the strongest relation
-- that holds; an organisation without any is not in it.
pub acting_organisations_lem :
    (i : Incident) (db : Db) (org : ℕ)
    → (relation_in org (acting_organisations i db) ≡ relation_of org i db)
      × (count (λ e. e.0 == org) (acting_organisations i db) ≤ 1)
unfolding acting_organisations
acting_organisations_lem i db org = (
  relation-add_each (λ c. org_of_user c.user db) collaborator (accepted_collaborations i db) _ org
      ∙ rw
          (
            relation-add_each (λ a. some a.organisation) assigned (accepted_assignments i db)
                (add (taken_by_organisation i db) leader []) org,
            relation-add (taken_by_organisation i db) leader [] org,
          )
          (strongest (refers (taken_by_organisation i db) org)
            (exists (λ a. a.organisation == org) (accepted_assignments i db))
            (exists (λ c. refers (org_of_user c.user db) org) (accepted_collaborations i db))),
  add_each-OnceEach (λ c. org_of_user c.user db) collaborator (accepted_collaborations i db) _
      (add_each-OnceEach (λ a. some a.organisation) assigned (accepted_assignments i db) _
        (add-OnceEach (taken_by_organisation i db) leader [] (λ k. omega arith)))
      org,
)

-- A user of an organisation who is neither the taker nor an assigned agent finds the incident among
-- those that he acts on exactly when the list has his organisation.
org_acting_lem :
    (agents : List ℕ) (u : User) (i : Incident) (db : Db) (org : ℕ)
    → u.organisation_member ≡ some org
    → org_acting agents u i db ≡ (
        refers i.taken_by u.id
        || exists (λ k. k == u.id) agents
        || is_some (relation_in org (acting_organisations i db)))
unfolding org_acting
org_acting_lem agents u i db org h = rw (h, (acting_organisations_lem i db org).0) (ground arith)
