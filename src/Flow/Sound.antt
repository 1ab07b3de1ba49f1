-- ===== src/Flow/Sound.antt =====
-- When an incident is sound: a declared one has no leader, one in validation has its deadline, a
-- resolved one is at 100 %. The rows that the views save.
use mapapi.Prelude.{
  ℕ, String, ◌≡◌, refl, Bool, true, false, not, ◌&&◌, ◌||◌, some, ◌==◌, arith, if◌then◌else◌,
  is_some,
}
use mapapi.Orm.{All, All-update, All-find}
use mapapi.Models.{
  User, Incident, Db, Mode, collaborative, is_declared, is_taken, is_in_validation, is_final,
  get_incident, save_incident, settle,
}
use mapapi.Http.{Request, Error}
use mapapi.Views.{Outcome, refuse}
use mapapi.Incidents.TakeInCharge.{taken_row, led_row}
use mapapi.Incidents.Resolution.{
  handled_row, resolved_row, closed_row, prepared_row, returned_row, submitted_row, definitive_row,
  rejected_row,
}
use mapapi.Incidents.Disengage.{released, abandoned}

abbrev pub sound : Incident → Bool
sound i =
    (not (is_declared i.etat) || not (is_some i.taken_by))
    && (not (is_in_validation i.etat) || is_some i.validation_deadline)
    && (not (is_final i.etat) || i.progress == 100)

abbrev pub IsSound : Incident → Type 0
IsSound i = sound i ≡ true

abbrev pub AllSound : Db → Type 0
AllSound db = All IsSound db.incidents

module _ (db : Db) (h : AllSound db) where
  pub save-AllSound : (i : Incident) → IsSound (settle i) → AllSound (save_incident i db)
  unfolding save_incident
  save-AllSound i s =
      All-update IsSound (λ j. j.id == i.id) (λ _. settle i) db.incidents (λ _ _ _. s) h

  pub if-AllSound :
      (b : Bool) (e : Error) (x : Outcome)
      → (b ≡ false → AllSound x.1)
      → AllSound (if b then refuse e db else x).1
  if-AllSound true e x f = h
  if-AllSound false e x f = f refl

  pub when-AllSound :
      (b : Bool) (e : Error) (x : Outcome)
      → (b ≡ true → AllSound x.1)
      → AllSound (if b then x else refuse e db).1
  when-AllSound true e x f = f refl
  when-AllSound false e x f = h

  pub loaded-IsSound : (i : Incident) → get_incident i.id db ≡ some i → IsSound i
  loaded-IsSound i here = All-find IsSound (λ j. j.id == i.id) db.incidents h here

-- The rows that the views save are sound.
module _ (rq : Request) (u : User) (i : Incident) where
  pub taken_row-IsSound : (m : Mode) → IsSound (settle (taken_row rq u m i))
  unfolding settle
  taken_row-IsSound m = ground arith

  pub handled_row-IsSound : IsSound (settle (handled_row u i))
  unfolding settle
  handled_row-IsSound = ground arith

  pub resolved_row-IsSound : IsSound (settle (resolved_row i))
  unfolding settle
  resolved_row-IsSound = ground arith

  pub closed_row-IsSound : (s e : ℕ) → IsSound (settle (closed_row s e i))
  unfolding settle
  closed_row-IsSound s e = ground arith

  pub prepared_row-IsSound : IsSound (settle (prepared_row rq u i))
  unfolding settle
  prepared_row-IsSound = ground arith

  pub returned_row-IsSound : IsSound (settle (returned_row i))
  unfolding settle
  returned_row-IsSound = ground arith

  pub submitted_row-IsSound : IsSound (settle (submitted_row rq i))
  unfolding settle
  submitted_row-IsSound = ground arith

  pub definitive_row-IsSound : IsSound (settle (definitive_row i))
  unfolding settle
  definitive_row-IsSound = ground arith

  pub rejected_row-IsSound : (m : String) → IsSound (settle (rejected_row m i))
  unfolding settle
  rejected_row-IsSound m = ground arith

  pub released-IsSound : is_taken i.etat ≡ true → IsSound (settle (released i))
  unfolding settle
  released-IsSound t = ground arith

  pub abandoned-IsSound : IsSound (settle (abandoned i))
  unfolding settle
  abandoned-IsSound = ground arith

  pub led_row-IsSound : IsSound i → IsSound (settle (led_row rq u i))
  unfolding settle
  led_row-IsSound s = ground arith

  pub opened-IsSound :
      IsSound i → IsSound (settle (record i { take_in_charge_mode = some collaborative }))
  unfolding settle
  opened-IsSound s = ground arith
