-- ===== src/Agents/Created.antt =====
-- What the creation of a field agent leaves, and that its PIN logs in.
use mapapi.Prelude.{
  ℕ, ◌≡◌, refl, ◌⊎◌, if◌then◌else◌, ◌||◌, Bool, true, false, ◌&&◌, not, some, List, [], ◌∷◌, arith,
  inl, inr, ◌==◌, refers, is_some, ==→eq, Bool-cases, Option-cases, sym, ◌∙◌, subst, ==_self, ap,
}
use mapapi.Orm.{find-append, find-exists, count-none, exists, count-append}
use mapapi.Models.{User, Db}
use mapapi.Http.{Request, Error, created, permission_denied, not_found, fields_required, duplicate}
use mapapi.Members.{is_agent_at}
use mapapi.Views.{Outcome, refuse}
use mapapi.Roles.{is_super_admin, is_org_admin, is_bureau_agent}
use mapapi.Views.Keeps.{holds-as_user}
use mapapi.Permissions.{is_authenticated}
use mapapi.Agents.{
  AccountData, tokens, can_log_in, create_agent, create_agent_found, log_in_at, pin_login, is_blank,
  agent_row, has_organisation, create_agent_of, has_email, insert_user, has_agent_at,
}
use mapapi.Agents.Pins.{OnePhone, log_in_stored}

exists-narrow :
    (p q : User → Bool) (us : List User) → exists p us ≡ false → exists (λ u. p u && q u) us ≡ false
exists-narrow p q [] h = refl
exists-narrow p q (u ∷ us) h = ground (arith, h, exists-narrow p q us)

module _ (make_password : ℕ → List ℕ → ℕ) (check_password : List ℕ → ℕ → Bool)
    (sound : (salt : ℕ) (pin : List ℕ) → check_password pin (make_password salt pin) ≡ true) where
  module _ (pk code salt : ℕ) (pin : List ℕ) (d : AccountData) (rq : Request) (db : Db) where
    abbrev row : User
    row = agent_row make_password check_password pk d code salt pin rq

    abbrev Created : Outcome → Type 0
    Created o =
        ((e : Error) × (o ≡ refuse e db))
        ⊎ ((o ≡ (created, insert_user row db)) × (has_agent_at d.phone db ≡ false))

    guarded :
        (e : Error) (b : Bool) {o : Outcome} → Created o → Created (if b then refuse e db else o)
    guarded e true c = inl (e, refl)
    guarded e false c = c

    create_found :
        Created (create_agent_found make_password check_password pk d code salt pin rq db)
    unfolding create_agent_found
    create_found = elim (Bool-cases (not (d.names && is_some d.email && is_some d.phone))) [
      | inl t ↦ inl (fields_required, rw t refl)
      | inr g ↦ elim (Bool-cases (has_email d.email db || has_agent_at d.phone db)) [
        | inl t ↦ inl (duplicate, rw g (rw t refl))
        | inr f ↦ inr (rw g (rw f refl), ground (arith, f))
      ]
    ]

    create_of :
        (u : User)
        → Created (create_agent_of make_password check_password pk d code salt pin rq u db)
    unfolding create_agent_of
    create_of u =
        guarded permission_denied
          (not (
            is_super_admin (some u)
            || (refers u.organisation_member pk
                && (is_org_admin (some u) || is_bureau_agent (some u)))))
          (guarded not_found (not (has_organisation pk db)) create_found)

    abbrev after : Outcome
    after = create_agent make_password check_password pk d code salt pin rq db

    create_cases : Created after
    unfolding create_agent
    create_cases =
        holds-as_user (is_authenticated ∷ []) rq db Created
          (λ u. create_agent_of make_password check_password pk d code salt pin rq u db)
          (λ e. inl (e, refl)) create_of

    create_stored :
        after.0 ≡ created
        → (after ≡ (created, insert_user row db)) × (has_agent_at d.phone db ≡ false)
    create_stored done = elim create_cases [
      | inl (e, r) ↦ absurd (cc (ap (λ o. o.0) (sym r) ∙ done))
      | inr x ↦ x
    ]

    insert-OnePhone : has_agent_at d.phone db ≡ false → OnePhone db → OnePhone (insert_user row db)
    insert-OnePhone absent one phone =
        rw (count-append (is_agent_at phone) db.users (row ∷ [])) (elim (Option-cases d.phone) [
          | inl e ↦ rw e (ground (arith, one phone))
          | inr (n, e) ↦ elim (Bool-cases (n == phone)) [
            | inl t ↦
                let absent_here : exists (is_agent_at n) db.users ≡ false = rw e at absent in
                rw (e, t)
                  (ground (
                    arith,
                    count-none (is_agent_at phone) db.users (
                        subst (λ k. exists (is_agent_at k) db.users ≡ false) (==→eq n phone t)
                          absent_here),
                  ))
            | inr f ↦ rw (e, f) (ground (arith, one phone))
          ]
        ])

    login_created :
        (phone : ℕ)
        → exists (is_agent_at phone) db.users ≡ false
        → d.phone ≡ some phone
        → log_in_at make_password check_password phone pin (insert_user row db) ≡ tokens row
    login_created phone absent number =
        let may : can_log_in phone row ≡ true = rw (number, ==_self phone) refl in
        let none_yet : exists (can_log_in phone) db.users ≡ false =
          exists-narrow (is_agent_at phone) (λ x. x.is_active) db.users absent in
        log_in_stored make_password check_password sound phone salt pin row (insert_user row db)
          (find-append (can_log_in phone) db.users (row ∷ [])
            ∙ rw (find-exists (can_log_in phone) db.users none_yet, may) refl)
          (count-append (can_log_in phone) db.users (row ∷ [])
            ∙ rw (count-none (can_log_in phone) db.users none_yet, may) refl)
          refl

    -- A field agent who has just been created logs in with the number and the PIN that were given
    -- out, and has to change the PIN.
    pub login-create_agent :
        (phone : ℕ)
        → is_blank pin ≡ false
        → d.phone ≡ some phone
        → (create_agent make_password check_password pk d code salt pin rq db).0 ≡ created
        → (v : User) × (pin_login make_password check_password
              (some phone)
              pin
              (create_agent make_password check_password pk d code salt pin rq db).1
            ≡ tokens v)
          × (v.id ≡ rq.fresh)
          × (v.organisation_member ≡ some pk)
          × (v.must_change_pin ≡ true)
    unfolding pin_login
    login-create_agent phone given number done =
        let (e, absent) = create_stored done in
        (row, rw (given, e) (login_created phone (rw number at absent) number), refl, refl, refl)

    -- Creating a field agent never makes two field agents share a number.
    create_agent-OnePhone : OnePhone db → OnePhone after.1
    create_agent-OnePhone one = elim create_cases [
      | inl (e, r) ↦ subst (λ o. OnePhone o.1) (sym r) one
      | inr (r, absent) ↦ subst (λ o. OnePhone o.1) (sym r) (insert-OnePhone absent one)
    ]
