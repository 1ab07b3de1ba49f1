-- ===== src/Agents.antt =====
-- The accounts of agents: FieldAgentCreateView and StaffAccountCreateView of views/organisation.py,
-- the agent code and the PIN of models.py, AgentPinLoginView and AgentChangePinView of
-- views/incident.py. Texts are lists of code points. Hashing is Django's and `str.isdigit` knows all
-- of Unicode, so both are parameters.
pub mod Codes
pub mod Pins
pub mod Created
use mapapi.Prelude.{
  ℕ, Bool, true, false, not, ◌&&◌, ◌||◌, Option, none, some, List, [], ◌∷◌, ◌++◌, map,
  if◌then◌else◌, ◌==◌, refers, is_some,
}
use mapapi.Orm.{find, exists, update, count, length}
use mapapi.Models.{User, OrgRole, Db, is_admin_role, is_bureau_role, is_field_role}
use mapapi.Http.{
  Request, Error, ok, created, permission_denied, not_found, fields_required, duplicate,
  invalid_role, unauthorized, server_error, no_pin, bad_pin, weak_pin,
}
use mapapi.Roles.{is_super_admin, is_org_admin, is_bureau_agent}
use mapapi.Permissions.{is_authenticated}
use mapapi.Views.{Outcome, refuse, as_user}
use mapapi.Members.{is_agent_at, same_email}

-- The loop of `generate_agent_code` on the codes that it draws in turn: the first one that nobody
-- has, `none` when all of these are taken and it draws on.
unfoldable pub generate_agent_code : List ℕ → List User → Option ℕ
generate_agent_code [] us = none
generate_agent_code (c ∷ cs) us =
    let rest = generate_agent_code cs us in
    if not (exists (λ u. refers u.agent_code c) us) then some c else rest

-- The fields of the body, stripped: `none` for what is blank, and `some none` for a role that is none
-- of the three.
pub record AccountData : Type 0 where
  -- neither name is blank
  pub names : Bool
  pub email : Option ℕ
  pub phone : Option ℕ
  pub org_role : Option (Option OrgRole)

-- `User(…)` with the fields that both views set
abbrev new_member : ℕ → ℕ → AccountData → OrgRole → User
new_member id org d r = record {
  id = id;
  email = d.email;
  phone = d.phone;
  is_active = true;
  is_staff = false;
  is_superuser = false;
  organisation_member = some org;
  org_role = some r;
  agent_code = none;
  pin_code = none;
  must_change_pin = false;
}

abbrev pub insert_user : User → Db → Db
insert_user u db = record db { users = db.users ++ u ∷ [] }

abbrev has_email : Option ℕ → Db → Bool
has_email e db = exists (λ u. same_email u.email e) db.users

abbrev has_agent_at : Option ℕ → Db → Bool
has_agent_at none db = false
has_agent_at (some n) db = exists (is_agent_at n) db.users

-- `Organisation.objects.get(pk=pk)`
abbrev has_organisation : ℕ → Db → Bool
has_organisation pk db = exists (λ o. o == pk) db.organisations

-- the rest of `StaffAccountCreateView.post`, from the fields of the body on
unfoldable create_staff_found : ℕ → AccountData → Request → Db → Outcome
create_staff_found pk d rq db =
    if not (d.names && is_some d.email && is_some d.org_role)
    then refuse fields_required db
    else elim d.org_role [
      | none ↦ refuse fields_required db
      | some r ↦
          if not (is_admin_role r || is_bureau_role r)
          then refuse invalid_role db
          else if has_email d.email db
          then refuse duplicate db
          else elim r [
            | none ↦ refuse invalid_role db
            | some x ↦ (created, insert_user (new_member rq.fresh pk d x) db)
          ]
    ]

-- `StaffAccountCreateView.post`
unfoldable create_staff : ℕ → AccountData → Request → Db → Outcome
create_staff pk d rq db = as_user (is_authenticated ∷ []) rq db λ u.
    if not (u.is_staff || (refers u.organisation_member pk && is_admin_role u.org_role))
    then refuse permission_denied db
    else if not (has_organisation pk db)
    then refuse not_found db
    else create_staff_found pk d rq db

-- a PIN of four times the same digit
abbrev repeated : ℕ → List ℕ
repeated d = d ∷ d ∷ d ∷ d ∷ []

-- `weak_pins`, as code points
abbrev weak_pins : List (List ℕ)
weak_pins =
    (49 ∷ 50 ∷ 51 ∷ 52 ∷ []) ∷ map repeated (48 ∷ 49 ∷ 50 ∷ 51 ∷ 52 ∷ 53 ∷ 54 ∷ 55 ∷ 56 ∷ 57 ∷ [])

abbrev same_text : List ℕ → List ℕ → Bool
same_text [] [] = true
same_text (a ∷ xs) (b ∷ ys) = a == b && same_text xs ys
same_text _ _ = false

abbrev is_blank : List ℕ → Bool
is_blank [] = true
is_blank _ = false

-- what a login answers: the tokens of a user, or why not
pub data Login : Type 0 where
  tokens : User → Login
  rejected : Error → Login

-- the filter of `AgentPinLoginView`
abbrev can_log_in : ℕ → User → Bool
can_log_in phone u = is_agent_at phone u && u.is_active

-- `AgentCodeLoginView.post`; codes are unique
unfoldable code_login : Option ℕ → Db → Login
code_login none db = rejected fields_required
code_login (some code) db =
    elim (find (λ u. refers u.agent_code code && is_field_role u.org_role) db.users) [
      | none ↦ rejected unauthorized
      | some u ↦ if not u.is_active then rejected permission_denied else tokens u
    ]

module _ (make_password : ℕ → List ℕ → ℕ) (check_password : List ℕ → ℕ → Bool) where
  -- `generate_agent_code` and `generate_and_set_pin` on a new row, with the code, the salt and the
  -- PIN that were drawn
  abbrev with_credentials : ℕ → ℕ → List ℕ → User → User
  with_credentials code salt pin u = record u {
    agent_code = some code;
    pin_code = some (make_password salt pin);
    must_change_pin = true;
  }

  abbrev agent_row : ℕ → AccountData → ℕ → ℕ → List ℕ → Request → User
  agent_row pk d code salt pin rq =
      with_credentials code salt pin (new_member rq.fresh pk d OrgRole.field_agent)

  -- the rest of `FieldAgentCreateView.post`, from the fields of the body on
  unfoldable pub create_agent_found : ℕ → AccountData → ℕ → ℕ → List ℕ → Request → Db → Outcome
  create_agent_found pk d code salt pin rq db =
      if not (d.names && is_some d.email && is_some d.phone)
      then refuse fields_required db
      else if has_email d.email db || has_agent_at d.phone db
      then refuse duplicate db
      else (created, insert_user (agent_row pk d code salt pin rq) db)

  -- the body of `FieldAgentCreateView.post`
  unfoldable pub create_agent_of : ℕ → AccountData → ℕ → ℕ → List ℕ → Request → User → Db → Outcome
  create_agent_of pk d code salt pin rq u db =
      if not (
        is_super_admin (some u)
        || (refers u.organisation_member pk && (is_org_admin (some u) || is_bureau_agent (some u))))
      then refuse permission_denied db
      else if not (has_organisation pk db)
      then refuse not_found db
      else create_agent_found pk d code salt pin rq db

  -- `FieldAgentCreateView.post`
  unfoldable pub create_agent : ℕ → AccountData → ℕ → ℕ → List ℕ → Request → Db → Outcome
  create_agent pk d code salt pin rq db =
      as_user (is_authenticated ∷ []) rq db λ u. create_agent_of pk d code salt pin rq u db

  -- `user.check_pin(pin)` for a user with a PIN
  abbrev check_pin : List ℕ → ℕ → Bool
  check_pin pin hash = check_password pin hash

  -- the end of the login, on the row that was found
  abbrev log_in : List ℕ → User → Login
  log_in pin u = elim u.pin_code [
    | none ↦ rejected no_pin
    | some hash ↦ if not (check_pin pin hash) then rejected unauthorized else tokens u
  ]

  -- `User.objects.get(…)`, where two rows raise MultipleObjectsReturned
  unfoldable pub log_in_at : ℕ → List ℕ → Db → Login
  log_in_at phone pin db = elim (find (can_log_in phone) db.users) [
    | none ↦ rejected unauthorized
    | some u ↦
        if count (can_log_in phone) db.users == 1 then log_in pin u else rejected server_error
  ]

  -- `AgentPinLoginView.post`
  unfoldable pub pin_login : Option ℕ → List ℕ → Db → Login
  pin_login none pin db = rejected fields_required
  pin_login (some phone) pin db =
      if is_blank pin then rejected fields_required else log_in_at phone pin db

  -- `user.save(update_fields=['pin_code', 'must_change_pin'])` in `AgentChangePinView`
  unfoldable pub store_pin : ℕ → List ℕ → User → Db → Db
  store_pin salt pin u db = record db {
    users =
        update (λ x. x.id == u.id)
          (λ x. record x { pin_code = some (make_password salt pin); must_change_pin = false })
          db.users;
  }

  module _ (isdigit : ℕ → Bool) where
    -- `new_pin.isdigit() and len(new_pin) == 4`, for a text that is not empty
    abbrev is_four_digits : List ℕ → Bool
    is_four_digits pin = not (exists (λ c. not (isdigit c)) pin) && length pin == 4

    -- the rest of `AgentChangePinView.post`, on the hash of the user
    unfoldable pub change_found : ℕ → List ℕ → List ℕ → User → ℕ → Db → Outcome
    change_found salt old_pin new_pin u hash db =
        if not (check_pin old_pin hash)
        then refuse unauthorized db
        else if not (is_four_digits new_pin)
        then refuse bad_pin db
        else if exists (same_text new_pin) weak_pins
        then refuse weak_pin db
        else (ok, store_pin salt new_pin u db)

    -- the body of `AgentChangePinView.post`
    unfoldable pub change_of : ℕ → List ℕ → List ℕ → User → Db → Outcome
    change_of salt old_pin new_pin u db =
        if is_blank old_pin || is_blank new_pin
        then refuse fields_required db
        else if not (is_field_role u.org_role)
        then refuse permission_denied db
        else elim u.pin_code [
          | none ↦ refuse no_pin db
          | some hash ↦ change_found salt old_pin new_pin u hash db
        ]

    -- `AgentChangePinView.post`
    unfoldable pub change_pin : ℕ → List ℕ → List ℕ → Request → Db → Outcome
    change_pin salt old_pin new_pin rq db =
        as_user (is_authenticated ∷ []) rq db λ u. change_of salt old_pin new_pin u db
