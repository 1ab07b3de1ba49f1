-- ===== src/Listings/Split.antt =====
-- The lists of incidents against one another and against the table.
use mapapi.Prelude.{
  ℕ, Option, ◌+◌, ◌≡◌, refl, Bool, true, false, none, some, refers, not, ◌&&◌, ◌||◌, List, [], ◌∷◌,
  arith, inl, inr, Option-cases,
}
use mapapi.Orm.{filter, count, exists}
use mapapi.Models.{User, Incident, Db, is_final, is_internal, is_field_role, get_user}
use mapapi.Permissions.{owner_org}
use mapapi.Listings.{
  agents, citizens, agents_or_internal, org_own_work, org_incidents, resolved_list, unresolved_list,
  internal_intervention, intervention_by_agent,
}

module _ {A : Type 0} where
  -- The rows that are left out, that are in one of two lists, or in the other.
  three_lists :
      (p gone own closed : A → Bool) (xs : List A)
      → count p (filter (λ x. not (gone x)) (filter own xs))
          + count p (filter (λ x. not (gone x)) (filter (λ x. not (own x)) (filter closed xs)))
          + count p (
              filter
                (λ x. not (gone x))
                (filter (λ x. not (own x)) (filter (λ x. not (closed x)) xs)))
        ≡ count (λ x. p x && not (gone x)) xs
  three_lists p gone own closed [] = refl
  three_lists p gone own closed (x ∷ xs) = ground (arith, three_lists p gone own closed xs)

  -- The rows of a list with its two parts.
  two_parts :
      (p gone a b : A → Bool) (xs : List A)
      → count p (filter (λ x. not (gone x)) (filter b xs))
          + count p (filter (λ x. not (gone x)) (filter (λ x. a x && not (b x)) xs))
        ≡ count p (filter (λ x. not (gone x)) (filter (λ x. a x || b x) xs))
  two_parts p gone a b [] = refl
  two_parts p gone a b (x ∷ xs) = ground (arith, two_parts p gone a b xs)

  no_list :
      (p gone closed : A → Bool) (xs : List A)
      → 0
          + count p (filter (λ x. not (gone x)) (filter (λ x. true) (filter closed xs)))
          + count p
              (filter (λ x. not (gone x)) (filter (λ x. true) (filter (λ x. not (closed x)) xs)))
        ≡ count (λ x. p x && not (gone x)) xs
  no_list p gone closed [] = refl
  no_list p gone closed (x ∷ xs) = ground (arith, no_list p gone closed xs)

-- What the three lists are to hold: the incident is led internally by a member of the organisation of the
-- user, or was reported by one of its field agents.
abbrev pub is_own : Option ℕ → Db → Incident → Bool
is_own organisation db i = elim organisation [
  | none ↦ false
  | some org ↦
      (is_internal i.take_in_charge_mode && elim i.taken_by [
        | none ↦ false
        | some k ↦ elim (get_user k db) [
          | none ↦ false
          | some leader ↦ refers leader.organisation_member org
        ]
      ])
      || exists
          (λ v.
            is_field_role v.org_role && refers v.organisation_member org && refers i.user_id v.id)
          db.users
]

exists-same :
    {A : Type 0} (f g : A → Bool) (xs : List A) → ((x : A) → f x ≡ g x) → exists f xs ≡ exists g xs
exists-same f g [] h = refl
exists-same f g (x ∷ xs) h = ground (arith, h x, exists-same f g xs h)

led_by :
    (org : ℕ) (db : Db) (i : Incident)
    → refers (owner_org i db) org ≡ elim i.taken_by [
      | none ↦ false
      | some k ↦ elim (get_user k db) [
        | none ↦ false
        | some leader ↦ refers leader.organisation_member org
      ]
    ]
led_by org db i = elim (Option-cases i.taken_by) [
  | inl e ↦ rw e refl
  | inr (k, e) ↦ rw e (elim (Option-cases (get_user k db)) [
    | inl f ↦ rw (f, owner_org) refl
    | inr (v, f) ↦ rw (f, owner_org) refl
  ])
]

intervention-is_own :
    (org : ℕ) (db : Db) (i : Incident)
    → (internal_intervention org db i || intervention_by_agent org db i) ≡ is_own (some org) db i
intervention-is_own org db i = ground (
  arith,
  led_by org db i,
  exists-same
      (λ v. refers i.user_id v.id && refers v.organisation_member org && is_field_role v.org_role)
      (λ v. is_field_role v.org_role && refers v.organisation_member org && refers i.user_id v.id)
      db.users (λ v. ground arith),
)

own-is_own :
    (u : User) (db : Db) (i : Incident) → org_own_work u db i ≡ is_own u.organisation_member db i
unfolding org_own_work
own-is_own u db i = elim (Option-cases u.organisation_member) [
  | inl e ↦ rw e refl
  | inr (org, e) ↦ rw e (intervention-is_own org db i)
]

module _ {A : Type 0} (p gone : A → Bool) where
  nothing :
      (g : A → Bool) (xs : List A)
      → ((x : A) → g x ≡ false)
      → 0 ≡ count (λ x. p x && not (gone x) && g x) xs
  nothing g [] h = refl
  nothing g (x ∷ xs) h = ground (arith, h x, nothing g xs h)

  -- Two filters, and one test of their rows.
  count-filters :
      (f g : A → Bool) (xs : List A)
      → ((x : A) → f x ≡ g x)
      → count p (filter (λ x. not (gone x)) (filter f xs))
        ≡ count (λ x. p x && not (gone x) && g x) xs
  count-filters f g [] h = refl
  count-filters f g (x ∷ xs) h = ground (arith, h x, count-filters f g xs h)

  count-excluded :
      (f g c : A → Bool) (xs : List A)
      → ((x : A) → f x ≡ g x)
      → count p (filter (λ x. not (gone x)) (filter (λ x. not (f x)) (filter c xs)))
        ≡ count (λ x. p x && not (gone x) && c x && not (g x)) xs
  count-excluded f g c [] h = refl
  count-excluded f g c (x ∷ xs) h = ground (arith, h x, count-excluded f g c xs h)

interventions :
    (p : Incident → Bool) (u : User) (db : Db)
    → count p (org_incidents u agents_or_internal db)
      ≡ count (λ i. p i && not i.is_deleted && is_own u.organisation_member db i) db.incidents
unfolding org_incidents org_own_work
interventions p u db = elim (Option-cases u.organisation_member) [
  | inl e ↦
      rw (e, org_incidents)
        (nothing p (λ i. i.is_deleted) (is_own none db) db.incidents (λ i. refl))
  | inr (org, e) ↦
      rw (e, org_incidents)
        (count-filters p (λ i. i.is_deleted)
          (λ i. internal_intervention org db i || intervention_by_agent org db i)
          (is_own (some org) db) db.incidents (intervention-is_own org db))
]

-- For any user, the list of interventions holds the incidents outside the trash that are led internally
-- by a member of the organisation of the user or were reported by one of its field agents; the list of
-- resolved ones the others that are final, and that of unresolved ones the others that are not. So an
-- incident outside the trash is in exactly one of them. That is, each test on incidents has as many there.
pub lists_partition :
    (p : Incident → Bool) (u : User) (db : Db)
    → (count p (org_incidents u agents_or_internal db)
        ≡ count (λ i. p i && not i.is_deleted && is_own u.organisation_member db i) db.incidents)
      × (count p (resolved_list u db)
          ≡ count
              (λ i.
                p i
                && not i.is_deleted
                && is_final i.etat
                && not (is_own u.organisation_member db i))
              db.incidents)
      × (count p (unresolved_list u db)
          ≡ count
              (λ i.
                p i
                && not i.is_deleted
                && not (is_final i.etat)
                && not (is_own u.organisation_member db i))
              db.incidents)
      × (count p (org_incidents u agents_or_internal db)
            + count p (resolved_list u db)
            + count p (unresolved_list u db)
          ≡ count (λ i. p i && not i.is_deleted) db.incidents)
unfolding org_incidents resolved_list unresolved_list org_own_work
lists_partition p u db = (
  interventions p u db,
  count-excluded p (λ i. i.is_deleted) (org_own_work u db) (is_own u.organisation_member db)
      (λ i. is_final i.etat) db.incidents (own-is_own u db),
  count-excluded p (λ i. i.is_deleted) (org_own_work u db) (is_own u.organisation_member db)
      (λ i. not (is_final i.etat)) db.incidents (own-is_own u db),
  elim (Option-cases u.organisation_member) [
    | inl e ↦ rw e (no_list p (λ i. i.is_deleted) (λ i. is_final i.etat) db.incidents)
    | inr w ↦ rw w.1 (
        three_lists p (λ i. i.is_deleted)
          (λ i. internal_intervention w.0 db i || intervention_by_agent w.0 db i)
          (λ i. is_final i.etat) db.incidents)
  ],
)

-- The interventions are those that a field agent of the organisation reported and those of citizens.
sources_partition :
    (p : Incident → Bool) (u : User) (db : Db)
    → count p (org_incidents u agents db) + count p (org_incidents u citizens db)
      ≡ count p (org_incidents u agents_or_internal db)
unfolding org_incidents
sources_partition p u db = elim (Option-cases u.organisation_member) [
  | inl e ↦ rw e refl
  | inr w ↦ rw w.1 (
      two_parts p (λ i. i.is_deleted) (internal_intervention w.0 db) (intervention_by_agent w.0 db)
        db.incidents)
]
