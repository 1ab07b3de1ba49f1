-- ===== src/Agents/Pins.antt =====
-- What the PIN login answers after the PIN was changed.
use mapapi.Prelude.{
  ℕ, ◌≤◌, ◌≡◌, refl, Bool, true, false, ◌&&◌, some, List, [], ◌∷◌, arith, inl, inr, ◌==◌,
  Bool-cases, Option-cases, sym, ◌∙◌, subst, ==_self, ap,
}
use mapapi.Orm.{find, find-update, count, count-update_same}
use mapapi.Models.{User, Db, get_user, is_field_role}
use mapapi.Http.{Request, ok}
use mapapi.Members.{is_agent_at}
use mapapi.Permissions.{permitted, has_permission}
use mapapi.Agents.{
  tokens, can_log_in, log_in_at, pin_login, store_pin, change_found, change_pin, is_blank,
  change_of,
}

-- no two field agents share the number
abbrev pub OnePhone : Db → Type 0
OnePhone db = (phone : ℕ) → count (is_agent_at phone) db.users ≤ 1

module _ (p : User → Bool) where
  find-only :
      (k : ℕ) (us : List User) {u : User}
      → count p us ≤ 1
      → find (λ x. x.id == k) us ≡ some u
      → p u ≡ true
      → (find p us ≡ some u) × (count p us ≡ 1)
  find-only k [] n h t = cc
  find-only k (x ∷ us) {u} n h t = elim (Bool-cases (x.id == k)) [
    | inl e ↦
        let here : p x ≡ true = subst (λ z. p z ≡ true) (ground (arith, h, e)) t in
        (ground (arith, h, e, here), ground (arith, n, here))
    | inr e ↦
        let rest = find-only k us {u = u} (ground (arith, n)) (rw e at h) t in
        (ground (arith, n, rest.0, rest.1), ground (arith, n, rest.1))
  ]

count-narrow : (p q : User → Bool) (us : List User) → count (λ u. p u && q u) us ≤ count p us
count-narrow p q [] = omega arith
count-narrow p q (u ∷ us) = ground (arith, count-narrow p q us)

module _ (make_password : ℕ → List ℕ → ℕ) (check_password : List ℕ → ℕ → Bool)
    (sound : (salt : ℕ) (pin : List ℕ) → check_password pin (make_password salt pin) ≡ true) where
  pub log_in_stored :
      (phone salt : ℕ) (pin : List ℕ) (u : User) (db : Db)
      → find (can_log_in phone) db.users ≡ some u
      → count (can_log_in phone) db.users ≡ 1
      → u.pin_code ≡ some (make_password salt pin)
      → log_in_at make_password check_password phone pin db ≡ tokens u
  unfolding log_in_at
  log_in_stored phone salt pin u db f n h = ground (arith, f, n, h, sound salt pin)

  abbrev with_pin : ℕ → List ℕ → User → User
  with_pin salt pin x = record x {
    pin_code = some (make_password salt pin);
    must_change_pin = false;
  }

  module _ (isdigit : ℕ → Bool) (salt : ℕ) (old_pin new_pin : List ℕ) where
    change_stored :
        (u : User) (db : Db)
        → (change_of make_password check_password isdigit salt old_pin new_pin u db).0 ≡ ok
        → (change_of make_password check_password isdigit salt old_pin new_pin u db
            ≡ (ok, store_pin make_password check_password salt new_pin u db))
          × (is_field_role u.org_role ≡ true)
          × (is_blank new_pin ≡ false)
    unfolding change_of change_found
    change_stored u db h = elim (Option-cases u.pin_code) [
      | inl e ↦ (ground (arith, e, h), ground (arith, e, h), ground (arith, e, h))
      | inr (x, e) ↦ (ground (arith, e, h), ground (arith, e, h), ground (arith, e, h))
    ]

    login_stored :
        (phone : ℕ) (u : User) (db : Db)
        → OnePhone db
        → get_user u.id db ≡ some u
        → can_log_in phone u ≡ true
        → log_in_at make_password check_password phone new_pin
            (store_pin make_password check_password salt new_pin u db)
          ≡ tokens (with_pin salt new_pin u)
    unfolding store_pin
    login_stored phone u db one here may =
        let only =
          find-only (can_log_in phone) u.id db.users {u = u}
            (ground
              (arith, one phone, count-narrow (is_agent_at phone) (λ x. x.is_active) db.users))
            here may in
        log_in_stored phone salt new_pin (with_pin salt new_pin u)
          (store_pin make_password check_password salt new_pin u db)
          (find-update (can_log_in phone) (λ x. x.id == u.id) (with_pin salt new_pin) db.users
              (λ x. refl)
            ∙ rw (only.0, ==_self u.id) refl)
          (count-update_same (can_log_in phone) (λ x. x.id == u.id) (with_pin salt new_pin) db.users
              (λ x. refl)
            ∙ only.1)
          refl

  -- When no two field agents share a number, an active agent who has changed the PIN logs in with
  -- the number and the new PIN; `isdigit` may be any test.
  pub login-change_pin :
      (isdigit : ℕ → Bool) (salt phone : ℕ) (old_pin new_pin : List ℕ) (u : User) (rq : Request)
      (db : Db)
      → OnePhone db
      → rq.user ≡ some u
      → get_user u.id db ≡ some u
      → u.is_active ≡ true
      → u.phone ≡ some phone
      → (change_pin make_password check_password isdigit salt old_pin new_pin rq db).0 ≡ ok
      → (v : User) × (pin_login make_password check_password
            (some phone)
            new_pin
            (change_pin make_password check_password isdigit salt old_pin new_pin rq db).1
          ≡ tokens v)
        × (v.id ≡ u.id)
        × (v.must_change_pin ≡ false)
  unfolding change_pin pin_login permitted has_permission
  login-change_pin isdigit salt phone old_pin new_pin u rq db one me here active number done =
      let same : change_pin make_password check_password isdigit salt old_pin new_pin rq db
          ≡ change_of make_password check_password isdigit salt old_pin new_pin u db =
        rw me refl in
      let (e, field, given) =
        change_stored isdigit salt old_pin new_pin u db (ap (λ o. o.0) (sym same) ∙ done) in
      (
        with_pin salt new_pin u,
        rw (given, same ∙ e)
            (login_stored isdigit salt old_pin new_pin phone u db one here
              (rw (number, ==_self phone, field, active) refl)),
        refl,
        refl,
      )
