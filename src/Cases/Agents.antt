-- ===== src/Cases/Agents.antt =====
-- The agent code and the PIN with a toy hash: the PIN read as a number.
use mapapi.Prelude.{
  ℕ, ◌+◌, ◌*◌, ◌==◌, ==_self, ◌≡◌, refl, arith, Bool, true, false, none, some, List, [], ◌∷◌, leb,
  ◌&&◌,
}
use mapapi.Models.{User, Db, OrgRole}
use mapapi.Roles.{is_super_admin, is_org_admin, is_bureau_agent, get_web_role}
use mapapi.Permissions.{permitted, has_permission}
use mapapi.Orm.{exists}
use mapapi.Agents.{
  AccountData, generate_agent_code, change_pin, change_of, change_found, create_agent,
  create_agent_of, create_agent_found, pin_login, tokens,
}
use mapapi.Agents.Codes.{generate_agent_code_ends, has_code}
use mapapi.Agents.Pins.{OnePhone, login-change_pin}
use mapapi.Agents.Created.{login-create_agent}
use mapapi.Cases.Sample.{alice, sample, request_by}

abbrev read_number : List ℕ → ℕ
read_number [] = 0
read_number (d ∷ ds) = d + 1000 * read_number ds

abbrev toy_hash : ℕ → List ℕ → ℕ
toy_hash salt pin = read_number pin

abbrev toy_check : List ℕ → ℕ → Bool
toy_check pin hash = read_number pin == hash

toy_sound : (salt : ℕ) (pin : List ℕ) → toy_check pin (toy_hash salt pin) ≡ true
toy_sound salt pin = ==_self (read_number pin)

abbrev is_ascii_digit : ℕ → Bool
is_ascii_digit c = leb 48 c && leb c 57

-- 2468 and 1357
abbrev old_pin : List ℕ
old_pin = 50 ∷ 52 ∷ 54 ∷ 56 ∷ []

abbrev new_pin : List ℕ
new_pin = 49 ∷ 51 ∷ 53 ∷ 55 ∷ []

-- a field agent of alice's organisation with the number 3
abbrev pub carol : User
carol = record alice {
  id = 3;
  phone = some 3;
  org_role = some OrgRole.field_agent;
  agent_code = some 8;
  pin_code = some (toy_hash 0 old_pin);
  must_change_pin = true;
}

abbrev with_carol : Db
with_carol = record sample { users = carol ∷ alice ∷ [] }

with_carol-OnePhone : OnePhone with_carol
with_carol-OnePhone phone = ground arith

abbrev dave_data : AccountData
dave_data = record { names = true; email = some 4; phone = some 4; org_role = none }

generate_agent_code_ends_example :
    (c : ℕ) × (generate_agent_code (8 ∷ 9 ∷ 10 ∷ []) (carol ∷ alice ∷ []) ≡ some c)
    × (exists (has_code c) (carol ∷ alice ∷ []) ≡ false)
generate_agent_code_ends_example =
    generate_agent_code_ends (8 ∷ 9 ∷ 10 ∷ []) (carol ∷ alice ∷ []) (refl, (refl, (refl, tt)))
      (omega arith)

login-change_pin_example :
    (v : User) × (pin_login toy_hash toy_check
        (some 3)
        new_pin
        (change_pin toy_hash toy_check is_ascii_digit 0 old_pin new_pin
          (request_by carol 1)
          with_carol).1
      ≡ tokens v)
    × (v.id ≡ 3)
    × (v.must_change_pin ≡ false)
unfolding change_pin change_of change_found permitted has_permission
login-change_pin_example =
    login-change_pin toy_hash toy_check toy_sound is_ascii_digit 0 3 old_pin new_pin carol
      (request_by carol 1) with_carol with_carol-OnePhone refl refl refl refl refl

login-create_agent_example :
    (v : User) × (pin_login toy_hash toy_check
        (some 4)
        new_pin
        (create_agent toy_hash toy_check 10 dave_data 9 0 new_pin (request_by alice 1) with_carol).1
      ≡ tokens v)
    × (v.id ≡ 77)
    × (v.organisation_member ≡ some 10)
    × (v.must_change_pin ≡ true)
unfolding create_agent create_agent_of create_agent_found permitted has_permission is_super_admin
    is_org_admin is_bureau_agent get_web_role
login-create_agent_example =
    login-create_agent toy_hash toy_check toy_sound 10 9 0 new_pin dave_data (request_by alice 1)
      with_carol 4 refl refl refl
