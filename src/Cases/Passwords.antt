-- ===== src/Cases/Passwords.antt =====
-- Accounts that are taken over, reset and signed in to, at concrete values.
use mapapi.Prelude.{ℕ, ◌≡◌, refl, Bool, true, none, some, [], ◌∷◌, ◌==◌, arith, ==_self}
use mapapi.Models.{get_user}
use mapapi.Roles.{is_super_admin}
use mapapi.Profiles.{put_user}
use mapapi.Profiles.Escalation.{as_superuser, put_user_escalates}
use mapapi.SignIn.{
  Account, Accounts, done, tokens, not_found, request_reset, reset_password, request_otp,
  verify_otp, with_code,
}
use mapapi.SignIn.Resets.{email_accepts, reset-request_reset}
use mapapi.SignIn.Codes.{verify-request_otp}
use mapapi.Cases.Sample.{bob, sample, request_by}

put_user_escalates_example :
    is_super_admin (get_user 2 (put_user 2 as_superuser (request_by bob 2) sample).1) ≡ true
put_user_escalates_example = put_user_escalates (request_by bob 2) sample refl refl

-- a hash that keeps the password, with its salt beside it
abbrev make : ℕ → ℕ → ℕ
make salt raw = raw

abbrev check : ℕ → ℕ → Bool
check raw hash = raw == hash

abbrev dana : Account
dana = record {
  id = 1;
  email = 4;
  phone = some 55;
  password = some 7;
  password_reset_count = 0;
  code = record { otp = none; otp_expiration = none };
  verification_token = none;
  is_verified = true;
}

abbrev state : Accounts
state = record { accounts = dana ∷ []; resets = [] }

reset-request_reset_example :
    ((reset_password make check 3
        (some "ABC1234")
        (some 4)
        (some 8)
        (some 8)
        500
        (request_reset (some 4) "ABC1234" 9 100 true state).1).0
      ≡ done)
    × (email_accepts make check 4 8
          (reset_password make check 3
            (some "ABC1234")
            (some 4)
            (some 8)
            (some 8)
            500
            (request_reset (some 4) "ABC1234" 9 100 true state).1).1
        ≡ true)
reset-request_reset_example =
    reset-request_reset make check (λ salt raw. ==_self raw) 4 9 3 8 100 500 "ABC1234" true state
      refl (omega arith)

verify-request_otp_example :
    ((verify_otp
        (some 55)
        (some "123456")
        400
        (request_otp 20 21 (some 55) 22 "123456" 100 true state).1).0
      ≡ tokens (with_code "123456" 100 dana))
    × ((verify_otp
          (some 55)
          (some "123456")
          410
          (verify_otp
            (some 55)
            (some "123456")
            400
            (request_otp 20 21 (some 55) 22 "123456" 100 true state).1).1).0
        ≡ not_found)
verify-request_otp_example =
    verify-request_otp 20 21 55 22 100 400 410 "123456" true state refl (omega arith) refl
      (omega arith)
