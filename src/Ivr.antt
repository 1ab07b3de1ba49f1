-- ===== src/Ivr.antt =====
-- ivr_views.py: the webhooks of a call to the voice server, as steps on its tables. The spoken answers
-- are left out. Names, texts and addresses are only copied and compared: they are numbers here.
pub mod Calls
pub mod Whole
use mapapi.Prelude.{
  ℕ, suc, zero, ◌-◌, String, Bool, true, false, not, ◌&&◌, ◌||◌, Option, none, some, List, [], ◌∷◌,
  ◌++◌, if◌then◌else◌, ltb, ◌==◌, refers, is_some,
}
use mapapi.Orm.{find, exists, update, count, length}
use mapapi.Models.{User, Incident, Db, Etat, Severity, medium}
use mapapi.Members.{same_email}

pub record IvrCall : Type 0 where
  pub call_sid : ℕ
  pub phone_number : ℕ
  pub status : String
  pub zone_selected : Option ℕ
  pub category_selected : Option ℕ
  pub description_audio_url : Option ℕ
  pub incident_created : Option ℕ
  pub user : Option ℕ

-- `step` of an interaction
pub data Step : Type 0 where
  main_menu zone_selection category_selection description_recording : Step

pub record IvrInteraction : Type 0 where
  pub ivr_call : ℕ
  pub step : Step

-- The fields of an incident that only a report sets; a zone that was not chosen is `none`.
pub record Report : Type 0 where
  pub incident : ℕ
  pub zone : Option ℕ
  pub category_id : Option ℕ
  pub audio : ℕ

-- The tables: the zones and the categories by name, the calls, and the others.
pub record Ivr : Type 0 where
  pub zones : List ℕ
  pub categories : List ℕ
  pub calls : List IvrCall
  pub interactions : List IvrInteraction
  pub reports : List Report
  pub db : Db

-- `request.POST.get('Digits')`: absent, no number, or a number
pub data Digits : Type 0 where
  absent unreadable : Digits
  number : ℕ → Digits

-- `IVRCall.objects.get(call_sid=call_sid)`
abbrev get_call : ℕ → Ivr → Option IvrCall
get_call sid s = find (λ c. c.call_sid == sid) s.calls

-- `ivr_call.save()`
abbrev save_call : IvrCall → Ivr → Ivr
save_call c s = record s { calls = update (λ x. x.call_sid == c.call_sid) (λ _. c) s.calls }

-- `IVRInteraction.objects.create(…)`
abbrev log_interaction : ℕ → Step → Ivr → Ivr
log_interaction sid step s = record s {
  interactions = s.interactions ++ record { ivr_call = sid; step = step } ∷ [];
}

abbrev pub new_call : ℕ → ℕ → String → IvrCall
new_call sid phone status = record {
  call_sid = sid;
  phone_number = phone;
  status = status;
  zone_selected = none;
  category_selected = none;
  description_audio_url = none;
  incident_created = none;
  user = none;
}

-- `TwilioIVRWebhook.post`
unfoldable webhook : ℕ → ℕ → String → Ivr → Ivr
webhook sid phone status s = elim (get_call sid s) [
  | none ↦ record s { calls = s.calls ++ new_call sid phone status ∷ [] }
  | some c ↦ save_call (record c { status = status }) s
]

-- `SelectZoneView.post`, which only logs the digit of the main menu
unfoldable select_zone : ℕ → Ivr → Ivr
select_zone sid s = elim (get_call sid s) [ none ↦ s | some c ↦ log_interaction sid main_menu s ]

-- `objects.all()[:n]`
abbrev pub take : ℕ → List ℕ → List ℕ
take zero xs = []
take (suc n) [] = []
take (suc n) (x ∷ xs) = x ∷ take n xs

-- `xs[n]`
abbrev get_elem? : List ℕ → ℕ → Option ℕ
get_elem? [] n = none
get_elem? (x ∷ xs) zero = some x
get_elem? (x ∷ xs) (suc n) = get_elem? xs n

-- What `int(digits) - 1` selects of the first nine: `0 <= index < len(xs)`, and for 0 the index is
-- negative.
abbrev choice : ℕ → List ℕ → Option ℕ
choice zero xs = none
choice (suc n) xs = if ltb n (length (take 9 xs)) then get_elem? (take 9 xs) n else none

-- a choice that was made is stored and logged
abbrev store_choice : (ℕ → IvrCall) → ℕ → Step → Option ℕ → Ivr → Ivr
store_choice set sid step none s = s
store_choice set sid step (some x) s = log_interaction sid step (save_call (set x) s)

-- the part of the two views below that is on the digits: `false` when `int(None)` raises TypeError,
-- which is not caught
abbrev choose : (ℕ → IvrCall) → ℕ → Step → List ℕ → Digits → Ivr → Bool × Ivr
choose set sid step xs absent s = (false, s)
choose set sid step xs unreadable s = (true, s)
choose set sid step xs (number n) s = (true, store_choice set sid step (choice n xs) s)

-- `SelectCategoryView.post`
unfoldable select_category : ℕ → Digits → Ivr → Bool × Ivr
select_category sid digits s = elim (get_call sid s) [
  | none ↦ (true, s)
  | some c ↦ choose (λ x. record c { zone_selected = some x }) sid zone_selection s.zones digits s
]

-- `RecordDescriptionView.post`
unfoldable record_description : ℕ → Digits → Ivr → Bool × Ivr
record_description sid digits s = elim (get_call sid s) [
  | none ↦ (true, s)
  | some c ↦
      choose (λ x. record c { category_selected = some x }) sid category_selection s.categories
        digits s
]

-- the citizen that `get_or_create` makes of a number, with the address that is built from it
abbrev phone_user : ℕ → ℕ → ℕ → User
phone_user id phone address = record {
  id = id;
  email = some address;
  phone = some phone;
  is_active = true;
  is_staff = false;
  is_superuser = false;
  organisation_member = none;
  org_role = none;
  agent_code = none;
  pin_code = none;
  must_change_pin = false;
}

-- `User.objects.get_or_create(phone=…)`: `none` where two users have the number, or where another one
-- has the address; both raise
unfoldable pub caller_of : ℕ → ℕ → ℕ → Db → Option (ℕ × Db)
caller_of fresh phone address db = elim (find (λ u. refers u.phone phone) db.users) [
  | none ↦
      if exists (λ u. same_email u.email (some address)) db.users
      then none
      else some (fresh, record db { users = db.users ++ phone_user fresh phone address ∷ [] })
  | some u ↦ if count (λ u. refers u.phone phone) db.users == 1 then some (u.id, db) else none
]

-- an incident with the defaults of its fields
abbrev pub new_incident : ℕ → ℕ → Incident
new_incident id reporter = record {
  id = id;
  user_id = some reporter;
  etat = Etat.declared;
  taken_by = none;
  take_in_charge_mode = none;
  resolution_start_date = none;
  resolution_end_date = none;
  progress = 0;
  is_public = true;
  is_deleted = false;
  deleted_at = none;
  taken_in_charge_at = none;
  severity = some medium;
  antigel_warned_75 = false;
  antigel_warned_90 = false;
  resolution_submitted_by = none;
  resolution_submitted_at = none;
  validation_deadline = none;
  rejection_reason = none;
}

-- `Incident.objects.create(…)` of a call, and the last save of the call
abbrev report_call : ℕ → ℕ → ℕ → IvrCall → Db → Ivr → Ivr
report_call fresh reporter url c db s =
    save_call (record c { incident_created = some fresh; user = some reporter })
      (record s {
        reports =
            s.reports
            ++ record {
              incident = fresh;
              zone = c.zone_selected;
              category_id = c.category_selected;
              audio = url;
            }
              ∷ [];
        db = record db { incidents = db.incidents ++ new_incident fresh reporter ∷ [] };
      })

-- `ProcessRecordingView.post`, with the keys of the new user and of the new incident; whatever
-- raises after the first save is caught
unfoldable pub process_recording : ℕ → ℕ → ℕ → (ℕ → ℕ) → ℕ → Ivr → Ivr
process_recording sid fresh_user fresh address_of url s = elim (get_call sid s) [
  | none ↦ s
  | some c ↦
      let recorded : IvrCall = record c {
        description_audio_url = some url;
        status = "completed";
      } in
      let saved : Ivr = log_interaction sid description_recording (save_call recorded s) in
      elim (caller_of fresh_user c.phone_number (address_of c.phone_number) s.db) [
        | none ↦ saved
        | some x ↦ report_call fresh x.0 url recorded x.1 saved
      ]
]
