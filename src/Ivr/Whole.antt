-- ===== src/Ivr/Whole.antt =====
-- A call from its first webhook to the incident that it leaves.
use mapapi.Prelude.{ℕ, ◌≡◌, refl, Option, none, some, List, [], ◌∷◌, ◌++◌, ◌==◌, ◌∙◌, ap, ==→eq}
use mapapi.Orm.{find-sat}
use mapapi.Models.{Db}
use mapapi.Ivr.{
  Ivr, IvrCall, number, get_call, save_call, webhook, select_zone, select_category,
  record_description, process_recording, caller_of, new_incident, Report,
}
use mapapi.Ivr.Calls.{find-saved, caller_of_again}

-- the requests of a whole call, as the menus lead from one to the next
abbrev pub whole_call : ℕ → ℕ → ℕ → ℕ → ℕ → ℕ → (ℕ → ℕ) → ℕ → Ivr → Ivr
whole_call sid phone z k fresh_user fresh address_of url s =
    process_recording sid fresh_user fresh address_of url
      (record_description sid (number k)
        (select_category sid (number z) (select_zone sid (webhook sid phone "ringing" s))).1).1

-- the call and the incident's report when the recording has come
abbrev done_call : ℕ → ℕ → ℕ → IvrCall → IvrCall
done_call fresh reporter url c = record c {
  description_audio_url = some url;
  status = "completed";
  incident_created = some fresh;
  user = some reporter;
}

abbrev pub reported : ℕ → ℕ → IvrCall → Report
reported fresh url c = record {
  incident = fresh;
  zone = c.zone_selected;
  category_id = c.category_selected;
  audio = url;
}

-- the database with the new incident
abbrev pub with_report : ℕ → ℕ → Db → Db
with_report fresh reporter db = record db {
  incidents = db.incidents ++ new_incident fresh reporter ∷ [];
}

-- what the last request of a call leaves
abbrev pub Reported : ℕ → ℕ → ℕ → ℕ → IvrCall → Db → Ivr → Ivr → Type 0
Reported sid fresh reporter url c db s s' =
    (get_call sid s' ≡ some (done_call fresh reporter url c))
    × (s'.reports ≡ s.reports ++ reported fresh url c ∷ [])
    × (s'.db ≡ with_report fresh reporter db)

after_recording :
    (sid fresh_user fresh reporter url : ℕ) (address_of : ℕ → ℕ) (c : IvrCall) (s : Ivr) (db : Db)
    → get_call sid s ≡ some c
    → c.call_sid ≡ sid
    → caller_of fresh_user c.phone_number (address_of c.phone_number) s.db ≡ some (reporter, db)
    → Reported sid fresh reporter url c db s
        (process_recording sid fresh_user fresh address_of url s)
unfolding process_recording
after_recording sid fresh_user fresh reporter url address_of c s db h k e =
    let recorded : IvrCall = record c { description_audio_url = some url; status = "completed" } in
    rw (h, process_recording)
      (rw e (
        find-saved sid (done_call fresh reporter url c) (save_call recorded s).calls k
            (find-saved sid recorded s.calls k h),
        refl,
        refl,
      ))

-- What the last request of a call leaves, by what its number resolves to: without an account it is only
-- marked as completed, with the recording.
abbrev pub Ended : ℕ → ℕ → ℕ → IvrCall → List Report → Db → Option (ℕ × Db) → Ivr → Type 0
Ended sid fresh url c reports db none s' =
    (get_call sid s' ≡ some (record c { description_audio_url = some url; status = "completed" }))
    × (s'.reports ≡ reports)
    × (s'.db ≡ db)
Ended sid fresh url c reports db (some (reporter, known)) s' =
    (get_call sid s' ≡ some (done_call fresh reporter url c))
    × (s'.reports ≡ reports ++ reported fresh url c ∷ [])
    × (s'.db ≡ with_report fresh reporter known)

-- When the webhook of the recording is sent twice for one call, a second incident is reported.
process_recording_again :
    (sid fresh_user fresh again_user again reporter url : ℕ) (address_of : ℕ → ℕ) (c : IvrCall)
    (s : Ivr) (db : Db)
    → get_call sid s ≡ some c
    → caller_of fresh_user c.phone_number (address_of c.phone_number) s.db ≡ some (reporter, db)
    → (process_recording sid again_user again address_of url
        (process_recording sid fresh_user fresh address_of url s)).db
      ≡ with_report again reporter (with_report fresh reporter db)
process_recording_again sid fresh_user fresh again_user again reporter url address_of c s db h e =
    let key : c.call_sid ≡ sid =
      ==→eq c.call_sid sid (find-sat (λ x. x.call_sid == sid) s.calls h) in
    let s1 = process_recording sid fresh_user fresh address_of url s in
    let first = after_recording sid fresh_user fresh reporter url address_of c s db h key e in
    let caller : caller_of again_user c.phone_number (address_of c.phone_number) s1.db
        ≡ some (reporter, s1.db) =
      caller_of_again fresh_user again_user c.phone_number (address_of c.phone_number) reporter s.db
        db s1.db e (ap (λ d. d.users) first.2) in
    let second =
      after_recording sid again_user again reporter url address_of (done_call fresh reporter url c)
        s1 s1.db first.0 key caller in
    second.2 ∙ ap (with_report again reporter) first.2
