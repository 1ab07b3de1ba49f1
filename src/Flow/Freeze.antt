-- ===== src/Flow/Freeze.antt =====
-- The anti-freeze job on an incident that an organisation has taken and left alone.
use mapapi.Prelude.{
  ℕ, ◌*◌, ◌-◌, ◌≡◌, refl, false, none, some, arith, inl, inr, Option-cases, if◌then◌else◌, leb,
  ◌==◌, subst, sym, ap, ◌∙◌,
}
use mapapi.Orm.{find}
use mapapi.Models.{
  User, Incident, Db, Etat, internal, get_incident, get-save, save_incident, settle, leader_of,
}
use mapapi.Http.{Request, is_refused}
use mapapi.Permissions.{incident_of_view}
use mapapi.Views.Loaded.{loaded, loaded-id}
use mapapi.Incidents.TakeInCharge.{take_in_charge, taken_row}
use mapapi.Incidents.TakeInCharge.Leadership.{incidents-take_internal}
use mapapi.Beat.{revert_stale_taken_incidents, antigel_deadline_days, day}
use mapapi.Beat.Loop.{Distinct, Distinct-save}
use mapapi.Beat.Effects.{get-revert_stale, thawed}
use mapapi.Flow.{etat_of}

-- what a request to take an incident alone has saved
take-saves :
    (rq : Request) (db : Db) {u : User}
    → rq.user ≡ some u
    → is_refused (take_in_charge (some internal) none rq db).0 ≡ false
    → (i : Incident) × (incident_of_view rq db ≡ some i)
      × ((take_in_charge (some internal) none rq db).1.incidents
          ≡ (save_incident (taken_row rq u internal i) db).incidents)
unfolding take_in_charge
take-saves rq db {u} e h = elim (Option-cases (incident_of_view rq db)) [
  | inl n ↦ ground (arith, e, n)
  | inr (i, n) ↦ (i, n, ground (arith, e, n, incidents-take_internal rq u i db))
]

get-taken :
    (rq : Request) (u : User) (i : Incident) (k : ℕ) (db : Db)
    → i.id ≡ k
    → get_incident k db ≡ some i
    → get_incident k (save_incident (taken_row rq u internal i) db)
      ≡ some (taken_row rq u internal i)
unfolding settle
get-taken rq u i k db e h = ground (arith, get-save (taken_row rq u internal i) k db)

-- The incident as the job leaves it, after a database where it has just been taken.
thawed_taken :
    (rq : Request) (u : User) (i : Incident) (k later : ℕ) (db : Db)
    → Distinct db.incidents
    → get_incident k db ≡ some (taken_row rq u internal i)
    → get_incident k (revert_stale_taken_incidents later db)
      ≡ some (thawed later rq.now (taken_row rq u internal i))
thawed_taken rq u i k later db d h = ground (arith, get-revert_stale later db k d)

days-taken_row :
    (rq : Request) (u : User) (i : Incident)
    → antigel_deadline_days (taken_row rq u internal i) ≡ antigel_deadline_days i
unfolding antigel_deadline_days
days-taken_row rq u i = refl

module _ (rq : Request) (u : User) (i : Incident) (later : ℕ) where
  etat-thawed :
      (thawed later rq.now (taken_row rq u internal i)).etat
      ≡ (if leb (antigel_deadline_days i * day) (later - rq.now) then Etat.declared else Etat.taken)
  etat-thawed = ground (arith, days-taken_row rq u i)

  taken_by-thawed :
      (thawed later rq.now (taken_row rq u internal i)).taken_by
      ≡ (if leb (antigel_deadline_days i * day) (later - rq.now) then none else some u.id)
  taken_by-thawed = ground (arith, days-taken_row rq u i)

etat_of-get :
    (k : ℕ) (db : Db) {i : Incident} → get_incident k db ≡ some i → etat_of k db ≡ some i.etat
etat_of-get k db h = ground arith

leader_of-get :
    (k : ℕ) (db : Db) {i : Incident} → get_incident k db ≡ some i → leader_of k db ≡ i.taken_by
leader_of-get k db h = ground arith

-- An incident that an organisation takes alone, and on which nobody acts, is declared again and
-- without a leader after a run of the anti-freeze job that comes at or past the deadline of its
-- severity; a run before that leaves it taken, with its leader.
pub freeze_reverts :
    (rq : Request) (db : Db) (later k : ℕ) {u : User} {i : Incident}
    → Distinct db.incidents
    → rq.user ≡ some u
    → rq.incident_id ≡ some k
    → get_incident k db ≡ some i
    → is_refused (take_in_charge (some internal) none rq db).0 ≡ false
    → (etat_of k (revert_stale_taken_incidents later (take_in_charge (some internal) none rq db).1)
        ≡ some (
            if leb (antigel_deadline_days i * day) (later - rq.now)
            then Etat.declared
            else Etat.taken))
      × (leader_of k
            (revert_stale_taken_incidents later (take_in_charge (some internal) none rq db).1)
          ≡ (if leb (antigel_deadline_days i * day) (later - rq.now) then none else some u.id))
freeze_reverts rq db later k {u} {i} d hu hk hi h =
    let (j, n, e) = take-saves rq db hu h in
    let own : j.id ≡ k = cc (loaded-id rq db n, hk) in
    let here : get_incident k db ≡ some j =
      subst (λ x. get_incident x db ≡ some j) own (loaded rq db n) in
    let same : j ≡ i = cc in
    let new : Db = (take_in_charge (some internal) none rq db).1 in
    let kept : Distinct new.incidents =
      subst Distinct (sym e) (Distinct-save (taken_row rq u internal j) db d) in
    let row : get_incident k new ≡ some (taken_row rq u internal j) =
      subst (λ l. find (λ x. x.id == k) l ≡ some (taken_row rq u internal j)) (sym e)
        (get-taken rq u j k db own here) in
    let after : get_incident k (revert_stale_taken_incidents later new)
        ≡ some (thawed later rq.now (taken_row rq u internal j)) =
      thawed_taken rq u j k later new kept row in
    subst
      (λ x.
        (etat_of k (revert_stale_taken_incidents later new)
          ≡ some (
              if leb (antigel_deadline_days x * day) (later - rq.now)
              then Etat.declared
              else Etat.taken))
        × (leader_of k (revert_stale_taken_incidents later new)
            ≡ (if leb (antigel_deadline_days x * day) (later - rq.now) then none else some u.id)))
      same
      (
        etat_of-get k (revert_stale_taken_incidents later new) after
            ∙ ap some (etat-thawed rq u j later),
        leader_of-get k (revert_stale_taken_incidents later new) after
            ∙ taken_by-thawed rq u j later,
      )
