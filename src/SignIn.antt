-- ===== src/SignIn.antt =====
-- views/user.py: resetting and changing a password, codes by SMS, and the verification of an address.
-- Hashing, e-mails and SMS are other code: the hash functions are parameters, and whether a message
-- goes out comes with the call.
pub mod Resets
pub mod Codes
use text.Mathlib.Text.{◌==◌ as same_string}
use mapapi.Prelude.{
  ℕ, ◌+◌, String, Bool, true, false, not, ◌&&◌, ◌||◌, Option, none, some, List, [], ◌∷◌, ◌++◌,
  if◌then◌else◌, ltb, refers, same_ref, is_some, ◌==◌,
}
use mapapi.Orm.{find, exists, count, update}
use mapapi.Accounts.{OneTimeCode, generate_otp, is_otp_valid}

-- the columns of the table User that these views use; addresses, numbers and passwords are only
-- compared
pub record Account : Type 0 where
  pub id : ℕ
  pub email : ℕ
  pub phone : Option ℕ
  -- a hash
  pub password : Option ℕ
  pub password_reset_count : ℕ
  pub code : OneTimeCode
  pub verification_token : Option ℕ
  pub is_verified : Bool

pub record PasswordReset : Type 0 where
  pub id : ℕ
  pub code : String
  pub user : ℕ
  pub date_created : ℕ
  pub used : Bool
  pub date_used : Option ℕ

pub record Accounts : Type 0 where
  pub accounts : List Account
  pub resets : List PasswordReset

pub data Result : Type 0 where
  -- 200 or 201
  done : Result
  -- the tokens of an account
  tokens : Account → Result
  -- 400, by the case of the view
  no_code no_email non_matching no_such_item expired bad_password invalid_otp : Result
  -- 404 and 500
  not_found failed : Result

-- `User.objects.get(email=…)`; addresses are unique
abbrev pub with_email : ℕ → Accounts → Option Account
with_email e s = find (λ a. a.email == e) s.accounts

abbrev pub save_account : Account → Accounts → Accounts
save_account a s = record s { accounts = update (λ x. x.id == a.id) (λ _. a) s.accounts }

-- the row that a request stores
abbrev pub reset_row : ℕ → String → ℕ → Account → PasswordReset
reset_row key code now a = record {
  id = key;
  code = code;
  user = a.id;
  date_created = now;
  used = false;
  date_used = none;
}

-- `PasswordResetRequestView.post`, with the code that is drawn and the key of the row; the e-mail is
-- sent by the request itself, and a failure is raised after the row is stored
unfoldable pub request_reset : Option ℕ → String → ℕ → ℕ → Bool → Accounts → Result × Accounts
request_reset none code key now mail_up s = (no_email, s)
request_reset (some email) code key now mail_up s = elim (with_email email s) [
  | none ↦ (no_such_item, s)
  | some a ↦ (
    if mail_up then done else failed,
    record s { resets = s.resets ++ reset_row key code now a ∷ [] },
  )
]

-- the filter of `PasswordResetView`
abbrev pub is_open_reset : ℕ → String → PasswordReset → Bool
is_open_reset user code r = r.user == user && same_string r.code code && not r.used

-- `filter(…).order_by('-date_created').first()`
abbrev pub newest_reset : (PasswordReset → Bool) → List PasswordReset → Option PasswordReset
newest_reset p [] = none
newest_reset p (r ∷ rs) =
    let rest = newest_reset p rs in
    if p r
    then elim rest [
      | none ↦ some r
      | some q ↦ if ltb r.date_created q.date_created then some q else some r
    ]
    else rest

abbrev pub used_reset : ℕ → PasswordReset → PasswordReset
used_reset now r = record r { used = true; date_used = some now }

abbrev pub save_reset : PasswordReset → Accounts → Accounts
save_reset r s = record s { resets = update (λ x. x.id == r.id) (λ _. r) s.resets }

-- `phone` and a code of the table, as `get(phone=…, otp=…)` compares them; null is looked for as null
abbrev pub same_code : Option String → Option String → Bool
same_code none none = true
same_code (some a) (some b) = same_string a b
same_code _ _ = false

abbrev pub same_phone : Option ℕ → Option ℕ → Bool
same_phone none none = true
same_phone (some a) (some b) = a == b
same_phone _ _ = false

module _ (make_password : ℕ → ℕ → ℕ) (check_password : ℕ → ℕ → Bool) where
  -- `user.check_password(raw)`; an unusable password is checked by nothing
  abbrev pub accepts : ℕ → Account → Bool
  accepts raw a = elim a.password [ none ↦ false | some hash ↦ check_password raw hash ]

  abbrev pub with_password : ℕ → ℕ → Account → Account
  with_password salt raw a = record a { password = some (make_password salt raw) }

  -- the rest of `PasswordResetView.post`, on the account that was found; an hour has 3600 seconds
  unfoldable pub reset_found : ℕ → String → ℕ → ℕ → Account → Accounts → Result × Accounts
  reset_found salt code new now a s = elim (newest_reset (is_open_reset a.id code) s.resets) [
    | none ↦ (no_such_item, s)
    | some r ↦
        if ltb (r.date_created + 3600) now
        then (expired, s)
        else (done, save_reset (used_reset now r) (save_account (with_password salt new a) s))
  ]

  -- `PasswordResetView.post`
  unfoldable pub reset_password :
      ℕ → Option String → Option ℕ → Option ℕ → Option ℕ → ℕ → Accounts → Result × Accounts
  reset_password salt none email new confirm now s = (no_code, s)
  reset_password salt (some code) none new confirm now s = (no_email, s)
  reset_password salt (some code) (some email) none confirm now s = (non_matching, s)
  reset_password salt (some code) (some email) (some new) none now s = (non_matching, s)
  reset_password salt (some code) (some email) (some new) (some confirm) now s =
      if not (new == confirm) then (non_matching, s) else elim (with_email email s) [
        | none ↦ (no_such_item, s)
        | some a ↦ reset_found salt code new now a s
      ]

  -- `ChangePasswordView.update`, of the user who is signed in, with both fields given
  unfoldable pub change_password : ℕ → Account → ℕ → ℕ → Accounts → Result × Accounts
  change_password salt a old new s =
      if not (accepts old a)
      then (bad_password, s)
      else (done, save_account (record (with_password salt new a) { password_reset_count = 1 }) s)

  -- `SetPasswordView`: `perform_update` calls `serializer.save()`, and SetPasswordSerializer.save has
  -- a required parameter
  unfoldable pub set_password : ℕ → Account → ℕ → Accounts → Result × Accounts
  set_password salt a new s = (failed, s)

-- `UserManager._create_user` for a number, with a made-up address and no usable password
abbrev pub phone_account : ℕ → ℕ → ℕ → ℕ → Account
phone_account id phone email token = record {
  id = id;
  email = email;
  phone = some phone;
  password = none;
  password_reset_count = 0;
  code = record { otp = none; otp_expiration = none };
  verification_token = some token;
  is_verified = false;
}

-- `get_or_create_user(phone=…)`, with the keys that are drawn and the address `{phone}@example.com`;
-- `none` when that address is taken, which raises
unfoldable pub get_or_create_user : ℕ → ℕ → ℕ → ℕ → Accounts → Option (Account × Accounts)
get_or_create_user id token phone email s = elim (find (λ a. refers a.phone phone) s.accounts) [
  | some a ↦ some (a, s)
  | none ↦
      if exists (λ a. a.email == email) s.accounts
      then none
      else some (
        phone_account id phone email token,
        record s { accounts = s.accounts ++ phone_account id phone email token ∷ [] },
      )
]

abbrev pub with_code : String → ℕ → Account → Account
with_code code now a = record a { code = generate_otp code now }

-- `RequestOTPView.post`, with the code that is drawn; without a number `get_or_create_user` raises
unfoldable pub request_otp : ℕ → ℕ → Option ℕ → ℕ → String → ℕ → Bool → Accounts → Result × Accounts
request_otp id token none email code now sms_sent s = (failed, s)
request_otp id token (some phone) email code now sms_sent s =
    elim (get_or_create_user id token phone email s) [
      | none ↦ (failed, s)
      | some (a, s') ↦ (if sms_sent then done else failed, save_account (with_code code now a) s')
    ]

abbrev pub has_code : Option ℕ → Option String → Account → Bool
has_code phone otp a = same_phone a.phone phone && same_code a.code.otp otp

abbrev pub without_code : Account → Account
without_code a = record a { code = record { otp = none; otp_expiration = a.code.otp_expiration } }

-- `VerifyOTPView.post`; `get` raises when two accounts fit
unfoldable pub verify_otp : Option ℕ → Option String → ℕ → Accounts → Result × Accounts
verify_otp phone otp now s =
    if ltb 1 (count (has_code phone otp) s.accounts)
    then (failed, s)
    else elim (find (has_code phone otp) s.accounts) [
      | none ↦ (not_found, s)
      | some a ↦
          if is_otp_valid now a.code
          then (tokens a, save_account (without_code a) s)
          else (invalid_otp, s)
    ]

-- `VerifyEmailView.get`; tokens are drawn by uuid4
unfoldable verify_email : ℕ → Accounts → Result × Accounts
verify_email token s = elim (find (λ a. refers a.verification_token token) s.accounts) [
  | none ↦ (no_such_item, s)
  | some a ↦ (done, save_account (record a { is_verified = true; verification_token = none }) s)
]

-- `RegisterView.post`: an address that is not taken; the account is stored before the e-mail is queued
unfoldable register : ℕ → ℕ → Option ℕ → Bool → Accounts → Result × Accounts
register id token none broker_up s = (no_email, s)
register id token (some email) broker_up s =
    if exists (λ a. a.email == email) s.accounts
    then (no_email, s)
    else let a : Account = record (phone_account id 0 email token) { phone = none } in
      (if broker_up then done else failed, record s { accounts = s.accounts ++ a ∷ [] })

-- `GetTokenByMailView.post`: a token for an address, with no password asked for; a body without the
-- address raises KeyError
unfoldable token_by_mail : Option ℕ → Accounts → Result
token_by_mail none s = failed
token_by_mail (some email) s = elim (with_email email s) [ none ↦ not_found | some a ↦ tokens a ]
