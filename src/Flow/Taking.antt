-- ===== src/Flow/Taking.antt =====
-- TakeInChargeView against the life cycle.
use mapapi.Prelude.{
  ℕ, ◌≡◌, refl, true, false, Option, none, some, List, arith, inl, inr, Bool-cases, if◌then◌else◌,
  subst, sym, is_some,
}
use mapapi.Models.{
  User, Incident, Db, Mode, internal, collaborative, CollabRole, contributor, observer, is_declared,
  save_incident, get_incident,
}
use mapapi.Http.{Request, is_refused}
use mapapi.Views.{Outcome}
use mapapi.Incidents.TakeInCharge.{
  take_internal, take_as_leader, take_as_other, take_collaborative, take_in_charge, taken_row,
  led_row,
}
use mapapi.Incidents.TakeInCharge.Leadership.{
  incidents-take_internal, incidents-take_as_leader, incidents-take_as_other,
}
use mapapi.Flow.{flows, follows, etat_of, etat_in, follows_refl, follows-save}
use mapapi.Flow.Requests.{Follows, follows-view}

follows-eq :
    (db : Db) (k : ℕ) (is js : List Incident)
    → is ≡ js
    → follows (etat_of k db) (etat_in k js) ≡ true
    → follows (etat_of k db) (etat_in k is) ≡ true
follows-eq db k is js e h = subst (λ l. follows (etat_of k db) (etat_in k l) ≡ true) (sym e) h

Follows-outcome :
    (x : Outcome) (i : Incident) (db : Db) (k : ℕ)
    → x.1.incidents ≡ (if is_refused x.0 then db.incidents else (save_incident i db).incidents)
    → (is_refused x.0 ≡ false → Follows db k (x.0, save_incident i db))
    → Follows db k x
Follows-outcome x i db k e step = elim (Bool-cases (is_refused x.0)) [
  | inl r ↦ follows-eq db k _ _ (rw r at e) (follows_refl (etat_of k db))
  | inr r ↦ follows-eq db k _ _ (rw r at e) (step r)
]

flows-led_row : (rq : Request) (u : User) (i : Incident) → flows i.etat (led_row rq u i).etat ≡ true
flows-led_row rq u i = ground arith

module _ (rq : Request) (u : User) (i : Incident) (db : Db) (k : ℕ)
    (here : get_incident i.id db ≡ some i) where
  declared_to_take : is_refused (take_internal rq u i db).0 ≡ false → is_declared i.etat ≡ true
  unfolding take_internal
  declared_to_take h = ground arith

  Follows-take_internal : Follows db k (take_internal rq u i db)
  Follows-take_internal =
      Follows-outcome (take_internal rq u i db) (taken_row rq u internal i) db k
        (incidents-take_internal rq u i db)
        λ r.
          follows-save i (taken_row rq u internal i) k db here refl
            (ground (arith, declared_to_take r))

  Follows-take_as_leader : Follows db k (take_as_leader rq u i db)
  Follows-take_as_leader =
      Follows-outcome (take_as_leader rq u i db) (led_row rq u i) db k
        (incidents-take_as_leader rq u i db)
        λ r. follows-save i (led_row rq u i) k db here (ground arith) (flows-led_row rq u i)

  Follows-take_as_other : (role : CollabRole) → Follows db k (take_as_other role rq u i db)
  Follows-take_as_other role = elim (Bool-cases (is_some i.take_in_charge_mode)) [
    | inl m ↦
        follows-eq db k _ _ (rw m at (incidents-take_as_other rq u i db role))
          (follows_refl (etat_of k db))
    | inr m ↦ follows-eq db k _ _ (rw m at (incidents-take_as_other rq u i db role)) (
        follows-save i (record i { take_in_charge_mode = some collaborative }) k db here refl
          (ground arith))
  ]

  Follows-take_collaborative :
      (role : Option CollabRole) → Follows db k (take_collaborative role rq u i db)
  unfolding take_collaborative
  Follows-take_collaborative none = follows_refl (etat_of k db)
  Follows-take_collaborative (some r) = ground (
    arith,
    follows_refl (etat_of k db),
    Follows-take_as_leader,
    Follows-take_as_other contributor,
    Follows-take_as_other observer,
  )

pub Follows-take_in_charge :
    (mode : Option Mode) (role : Option CollabRole) (rq : Request) (db : Db) (k : ℕ)
    → Follows db k (take_in_charge mode role rq db)
unfolding take_in_charge
Follows-take_in_charge mode role rq db k = follows-view _ rq db k _ λ u i here. ground (
  arith,
  follows_refl (etat_of k db),
  Follows-take_internal rq u i db k here,
  Follows-take_collaborative rq u i db k here role,
)
