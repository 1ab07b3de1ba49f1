-- ===== src/SignIn/Resets.antt =====
-- A reset of a password, from the request of a code on.
use mapapi.Prelude.{
  ℕ, ◌+◌, ◌≤◌, String, ◌≡◌, refl, sym, ap, subst, ◌∙◌, Bool, true, false, ◌&&◌, none, some, List,
  [], ◌∷◌, ◌++◌, arith, inl, inr, Bool-cases, Option-cases, ltb, ◌==◌, ==_self,
}
use mapapi.Orm.{find, find-sat, update, count}
use text.Mathlib.TextPositions.{eq_refl}
use mapapi.SignIn.{
  reset_row, Account, PasswordReset, Accounts, done, no_such_item, with_email, save_account,
  request_reset, is_open_reset, newest_reset, used_reset, save_reset, accepts, with_password,
  reset_found, reset_password,
}

-- the newest row is no older than any other that passes
newest-append :
    (p : PasswordReset → Bool) (rs : List PasswordReset) (row : PasswordReset)
    → p row ≡ true
    → (r : PasswordReset) × (newest_reset p (rs ++ row ∷ []) ≡ some r)
      × (row.date_created ≤ r.date_created)
newest-append p [] row h = (row, rw h refl, omega arith)
newest-append p (x ∷ rs) row h =
    let ih = newest-append p rs row h in
    elim (Bool-cases (p x)) [
      | inr f ↦ (ih.0, rw f ih.1, ih.2)
      | inl t ↦ elim (Bool-cases (ltb x.date_created ih.0.date_created)) [
        | inl e ↦ (ih.0, rw (t, ih.1, e) refl, ih.2)
        | inr e ↦ (x, rw (t, ih.1, e) refl, ground (arith, e, ih.2))
      ]
    ]

-- A row that takes the place of the row that is found is found, if it passes.
find-replaced :
    (p : Account → Bool) (k : ℕ) (y : Account) (xs : List Account) {a : Account}
    → p y ≡ true
    → find p xs ≡ some a
    → (a.id == k) ≡ true
    → find p (update (λ x. x.id == k) (λ _. y) xs) ≡ some y
find-replaced p k y [] h e g = cc
find-replaced p k y (x ∷ xs) {a} h e g = ground (arith, h, e, g, find-replaced p k y xs {a = a})

-- the rows that pass, and of these the ones with the key of the newest
found-counts :
    (p : PasswordReset → Bool) (rs : List PasswordReset) {r : PasswordReset}
    → newest_reset p rs ≡ some r
    → (p r ≡ true) × (1 ≤ count (λ x. p x && x.id == r.id) rs)
found-counts p [] e = cc
found-counts p (x ∷ rs) {r} e = elim (Bool-cases (p x)) [
  | inr f ↦ let ih = found-counts p rs {r = r} (rw f at e) in (ih.0, ground (arith, f, ih.1))
  | inl t ↦ elim (Option-cases (newest_reset p rs)) [
    | inl n ↦ let here : x ≡ r = cc (rw (t, n) at e) in ground (arith, here, t)
    | inr (q, n) ↦ elim (Bool-cases (ltb x.date_created q.date_created)) [
      | inl l ↦
          let there : q ≡ r = cc (rw (t, n, l) at e) in
          let ih = found-counts p rs {r = r} (cc (n, there)) in (ih.0, ground (arith, ih.1))
      | inr l ↦ let here : x ≡ r = cc (rw (t, n, l) at e) in ground (arith, here, t)
    ]
  ]
]

-- Replacing the rows of a key by one that does not pass takes them out of the count.
count-replaced :
    (p : PasswordReset → Bool) (k : ℕ) (y : PasswordReset) (rs : List PasswordReset)
    → p y ≡ false
    → count p (update (λ x. x.id == k) (λ _. y) rs) + count (λ x. p x && x.id == k) rs ≡ count p rs
count-replaced p k y [] h = refl
count-replaced p k y (x ∷ rs) h = ground (arith, h, count-replaced p k y rs h)

newest-none :
    (p : PasswordReset → Bool) (rs : List PasswordReset) → count p rs ≡ 0 → newest_reset p rs ≡ none
newest-none p [] h = refl
newest-none p (x ∷ rs) h = ground (arith, newest-none p rs)

-- the account of an address accepts a password
abbrev pub email_accepts : (ℕ → ℕ → ℕ) → (ℕ → ℕ → Bool) → ℕ → ℕ → Accounts → Bool
email_accepts make_password check_password email raw s = elim (with_email email s) [
  | none ↦ false
  | some b ↦ accepts make_password check_password raw b
]

module _ (make_password : ℕ → ℕ → ℕ) (check_password : ℕ → ℕ → Bool) where
  reset_password-found :
      (email salt new later : ℕ) (code : String) (s : Accounts) {a : Account}
      → with_email email s ≡ some a
      → reset_password make_password check_password salt
          (some code)
          (some email)
          (some new)
          (some new)
          later
          s
        ≡ reset_found make_password check_password salt code new later a s
  unfolding reset_password
  reset_password-found email salt new later code s here =
      rw (==_self new, reset_password) (rw (here, reset_password) refl)

  email_accepts-found :
      (email raw : ℕ) (s : Accounts) {b : Account}
      → with_email email s ≡ some b
      → accepts make_password check_password raw b ≡ true
      → email_accepts make_password check_password email raw s ≡ true
  email_accepts-found email raw s here h = rw (here, email_accepts) h

  reset_found-none :
      (salt new later : ℕ) (code : String) (a : Account) (s : Accounts)
      → newest_reset (is_open_reset a.id code) s.resets ≡ none
      → (reset_found make_password check_password salt code new later a s).0 ≡ no_such_item
  unfolding reset_found
  reset_found-none salt new later code a s e = rw (e, reset_found) refl

  reset_found-done :
      (salt new later : ℕ) (code : String) (a : Account) (s : Accounts) {r : PasswordReset}
      → newest_reset (is_open_reset a.id code) s.resets ≡ some r
      → later ≤ r.date_created + 3600
      → reset_found make_password check_password salt code new later a s ≡ (
        done,
        save_reset
            (used_reset later r)
            (save_account (with_password make_password check_password salt new a) s),
      )
  unfolding reset_found
  reset_found-done salt new later code a s {r} e soon =
      let open_still : ltb (r.date_created + 3600) later ≡ false = ground (arith, soon) in
      rw (e, reset_found) (rw (open_still, reset_found) refl)

  -- A code resets a password once, if no other open reset of the account has it.
  pub reset_found-once :
      (salt salt' new new' now later : ℕ) (code : String) (a b : Account) (s : Accounts)
      → b.id ≡ a.id
      → count (is_open_reset a.id code) s.resets ≤ 1
      → (reset_found make_password check_password salt code new now a s).0 ≡ done
      → (reset_found make_password check_password salt' code new' later b
          (reset_found make_password check_password salt code new now a s).1).0
        ≡ no_such_item
  unfolding reset_found
  reset_found-once salt salt' new new' now later code a b s same few first =
      elim (Option-cases (newest_reset (is_open_reset a.id code) s.resets)) [
        | inl e ↦ ground (arith, e, first)
        | inr (r, e) ↦ elim (Bool-cases (ltb (r.date_created + 3600) now)) [
          | inl l ↦ ground (arith, e, l, first)
          | inr l ↦
              let gone : newest_reset (is_open_reset a.id code)
                    (update (λ x. x.id == r.id) (λ _. used_reset now r) s.resets)
                  ≡ none =
                newest-none (is_open_reset a.id code)
                  (update (λ x. x.id == r.id) (λ _. used_reset now r) s.resets)
                  (omega (
                    arith,
                    few,
                    (found-counts (is_open_reset a.id code) s.resets e).1,
                    count-replaced (is_open_reset a.id code) r.id (used_reset now r) s.resets
                        (ground arith),
                  )) in
              let saved : reset_found make_password check_password salt code new now a s ≡ (
                done,
                save_reset (used_reset now r)
                    (save_account (with_password make_password check_password salt new a) s),
              ) =
                reset_found-done salt new now code a s e (ground (arith, l)) in
              subst
                (λ o.
                  (reset_found make_password check_password salt' code new' later b o.1).0
                  ≡ no_such_item)
                (sym saved)
                (reset_found-none salt' new' later code b
                  (save_reset (used_reset now r)
                    (save_account (with_password make_password check_password salt new a) s))
                  (rw same gone))
        ]
      ]

request_reset-stores :
    (email key now : ℕ) (code : String) (mail_up : Bool) (s : Accounts) {a : Account}
    → with_email email s ≡ some a
    → (request_reset (some email) code key now mail_up s).1
      ≡ record s { resets = s.resets ++ reset_row key code now a ∷ [] }
unfolding request_reset
request_reset-stores email key now code mail_up s here = rw (here, request_reset) refl

module _ (make_password : ℕ → ℕ → ℕ) (check_password : ℕ → ℕ → Bool)
    (sound : (salt raw : ℕ) → check_password raw (make_password salt raw) ≡ true) where
  -- Once a code has been asked for, it resets the password of the address within the hour, and the
  -- new password is accepted from then on.
  pub reset-request_reset :
      (email key salt new now later : ℕ) (code : String) (mail_up : Bool) (s : Accounts)
      {a : Account}
      → with_email email s ≡ some a
      → later ≤ now + 3600
      → (let out =
            reset_password make_password check_password salt
              (some code)
              (some email)
              (some new)
              (some new)
              later
              (request_reset (some email) code key now mail_up s).1 in
          (out.0 ≡ done) × (email_accepts make_password check_password email new out.1 ≡ true))
  reset-request_reset email key salt new now later code mail_up s {a} here soon =
      let row : PasswordReset = reset_row key code now a in
      let passes : is_open_reset a.id code row ≡ true = ground (arith, eq_refl code) in
      let newest = newest-append (is_open_reset a.id code) s.resets row passes in
      let stored : Accounts = record s { resets = s.resets ++ row ∷ [] } in
      let out : reset_password make_password check_password salt (some code) (some email) (some new)
            (some new) later (request_reset (some email) code key now mail_up s).1
          ≡ (
            done,
            save_reset (used_reset later newest.0)
                (save_account (with_password make_password check_password salt new a) stored),
          ) =
        ap
          (reset_password make_password check_password salt (some code) (some email) (some new)
            (some new) later)
          (request_reset-stores email key now code mail_up s here)
        ∙ reset_password-found make_password check_password email salt new later code stored here
        ∙ reset_found-done make_password check_password salt new later code a stored newest.1
            (omega (arith, soon, newest.2)) in
      let a' : Account = with_password make_password check_password salt new a in
      let same_email : (a'.email == email) ≡ true =
        find-sat (λ x. x.email == email) s.accounts here in
      let kept : find (λ x. x.email == email) (update (λ x. x.id == a.id) (λ _. a') s.accounts)
          ≡ some a' =
        find-replaced (λ x. x.email == email) a.id a' s.accounts same_email here (==_self a.id) in
      let accepted : email_accepts make_password check_password email new
            (save_reset (used_reset later newest.0) (save_account a' stored))
          ≡ true =
        email_accepts-found make_password check_password email new
          (save_reset (used_reset later newest.0) (save_account a' stored)) kept (sound salt new) in
      subst (λ o. (o.0 ≡ done) × (email_accepts make_password check_password email new o.1 ≡ true))
        (sym out) (refl, accepted)
