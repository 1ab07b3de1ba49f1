-- ===== src/SignIn/Codes.antt =====
-- Signing in with a code by SMS.
use text.Mathlib.TextPositions.{eq_refl}
use mapapi.Prelude.{
  ℕ, ◌+◌, ◌≤◌, String, ◌≡◌, refl, sym, ap, subst, ◌∙◌, Bool, true, false, Option, none, some, List,
  [], ◌∷◌, arith, ltb, ◌==◌, ==_self, refers,
}
use mapapi.Orm.{find, find-sat, exists, update, count, count-none, count-replace, find-own}
use mapapi.Accounts.{is_otp_valid, generate_otp}
use mapapi.Accounts.Rights.{otp_lifetime}
use mapapi.SignIn.{
  Account, Accounts, tokens, not_found, save_account, get_or_create_user, with_code, request_otp,
  has_code, without_code, verify_otp,
}

-- One row is replaced by one that passes, where none passed.
found-once :
    (p : Account → Bool) (k : ℕ) (y : Account) (xs : List Account) {a : Account}
    → exists p xs ≡ false
    → p y ≡ true
    → find (λ x. x.id == k) xs ≡ some a
    → find p (update (λ x. x.id == k) (λ _. y) xs) ≡ some y
found-once p k y [] none_yet h e = cc
found-once p k y (x ∷ xs) {a} none_yet h e =
    ground (arith, none_yet, h, e, found-once p k y xs {a = a})

update-twice :
    (k : ℕ) (y z : Account) (xs : List Account)
    → (y.id == k) ≡ true
    → update (λ x. x.id == k) (λ _. z) (update (λ x. x.id == k) (λ _. y) xs)
      ≡ update (λ x. x.id == k) (λ _. z) xs
update-twice k y z [] h = refl
update-twice k y z (x ∷ xs) h = ground (arith, h, update-twice k y z xs)

find-uncounted : (p : Account → Bool) (xs : List Account) → count p xs ≡ 0 → find p xs ≡ none
find-uncounted p [] h = refl
find-uncounted p (x ∷ xs) h = ground (arith, h, find-uncounted p xs)

verify_otp-found :
    (phone : Option ℕ) (otp : Option String) (now : ℕ) (s : Accounts) {b : Account}
    → count (has_code phone otp) s.accounts ≤ 1
    → find (has_code phone otp) s.accounts ≡ some b
    → is_otp_valid now b.code ≡ true
    → verify_otp phone otp now s ≡ (tokens b, save_account (without_code b) s)
unfolding verify_otp
verify_otp-found phone otp now s few e valid =
    let one : ltb 1 (count (has_code phone otp) s.accounts) ≡ false = ground (arith, few) in
    rw (one, verify_otp) (rw (e, verify_otp) (rw (valid, verify_otp) refl))

verify_otp-none :
    (phone : Option ℕ) (otp : Option String) (now : ℕ) (s : Accounts)
    → count (has_code phone otp) s.accounts ≡ 0
    → (verify_otp phone otp now s).0 ≡ not_found
unfolding verify_otp
verify_otp-none phone otp now s zero =
    let one : ltb 1 (count (has_code phone otp) s.accounts) ≡ false = ground (arith, zero) in
    rw (one, verify_otp) (rw (find-uncounted (has_code phone otp) s.accounts zero, verify_otp) refl)

request_otp-stores :
    (id token phone email now : ℕ) (code : String) (sms_sent : Bool) (s : Accounts) {a : Account}
    → find (λ x. refers x.phone phone) s.accounts ≡ some a
    → (request_otp id token (some phone) email code now sms_sent s).1
      ≡ save_account (with_code code now a) s
unfolding request_otp get_or_create_user
request_otp-stores id token phone email now code sms_sent s e =
    rw (e, request_otp, get_or_create_user) refl

with_code-has :
    (phone now : ℕ) (code : String) (a : Account)
    → refers a.phone phone ≡ true
    → has_code (some phone) (some code) (with_code code now a) ≡ true
unfolding generate_otp
with_code-has phone now code a h = ground (arith, h, eq_refl code)

-- A code that is asked for with the number of an account, and that no account of the number has yet,
-- signs the account in within ten minutes, and does not sign in a second time.
pub verify-request_otp :
    (id token phone email now later again : ℕ) (code : String) (sms_sent : Bool) (s : Accounts)
    {a : Account}
    → find (λ x. refers x.phone phone) s.accounts ≡ some a
    → count (λ x. x.id == a.id) s.accounts ≤ 1
    → exists (has_code (some phone) (some code)) s.accounts ≡ false
    → later ≤ now + 600
    → (let out =
          verify_otp
            (some phone)
            (some code)
            later
            (request_otp id token (some phone) email code now sms_sent s).1 in
        (out.0 ≡ tokens (with_code code now a))
        × ((verify_otp (some phone) (some code) again out.1).0 ≡ not_found))
verify-request_otp id token phone email now later again code sms_sent s {a} here alone new soon =
    let p : Account → Bool = has_code (some phone) (some code) in
    let y : Account = with_code code now a in
    let number : refers a.phone phone ≡ true =
      find-sat (λ x. refers x.phone phone) s.accounts here in
    let mine : find (λ x. x.id == a.id) s.accounts ≡ some a =
      find-own (λ x. refers x.phone phone) (λ x. x.id == a.id) s.accounts here (==_self a.id)
        alone in
    let passes : p y ≡ true = with_code-has phone now code a number in
    let none_yet : count p s.accounts ≡ 0 = count-none p s.accounts new in
    let one : count p (update (λ x. x.id == a.id) (λ _. y) s.accounts) ≤ 1 =
      ground (arith, none_yet, count-replace p (λ x. x.id == a.id) y s.accounts mine alone) in
    let valid : is_otp_valid later y.code ≡ true =
      otp_lifetime code now later ∙ ground (arith, soon) in
    let out : verify_otp (some phone) (some code) later
          (request_otp id token (some phone) email code now sms_sent s).1
        ≡ (tokens y, save_account (without_code y) (save_account y s)) =
      ap (verify_otp (some phone) (some code) later)
        (request_otp-stores id token phone email now code sms_sent s here)
      ∙ verify_otp-found (some phone) (some code) later (save_account y s) one
          (found-once p a.id y s.accounts new passes mine) valid in
    let spent : p (without_code y) ≡ false = ground arith in
    let gone : count p (save_account (without_code y) (save_account y s)).accounts ≡ 0 =
      rw (update-twice a.id y (without_code y) s.accounts (==_self a.id)) (
        ground (
          arith,
          none_yet,
          spent,
          count-replace p (λ x. x.id == a.id) (without_code y) s.accounts mine alone,
        )) in
    subst (λ o. (o.0 ≡ tokens y) × ((verify_otp (some phone) (some code) again o.1).0 ≡ not_found))
      (sym out)
      (
        refl,
        verify_otp-none (some phone) (some code) again
            (save_account (without_code y) (save_account y s)) gone,
      )
