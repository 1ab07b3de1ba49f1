-- ===== src/Incidents/TakeInCharge/Leadership.antt =====
-- Who leads an incident after TakeInChargeView.
use mapapi.Prelude.{
  ℕ, ◌≡◌, ap, Bool, true, false, Option, none, some, arith, inl, inr, Bool-cases, if◌then◌else◌,
  ◌∙◌, is_some,
}
use mapapi.Models.{
  User, Incident, Db, Mode, internal, collaborative, CollabRole, leader, contributor, observer,
  CollabStatus, save_incident, get_incident, leader_in, leader_of, leader-save,
}
use mapapi.Http.{Request, ok, is_refused}
use mapapi.Views.{Outcome}
use mapapi.Signals.Effects.{incidents-create_collaboration}
use mapapi.Incidents.TakeInCharge.{
  take_internal, take_as_leader, take_as_other, take_collaborative, new_collaboration, taken_row,
  led_row, joined_status,
}

-- The incidents after each way to take one: saved once, or as they were.
module _ (rq : Request) (u : User) (i : Incident) (db : Db) where
  pub incidents-take_internal : (take_internal rq u i db).1.incidents ≡ (
      if is_refused (take_internal rq u i db).0
      then db.incidents
      else (save_incident (taken_row rq u internal i) db).incidents)
  unfolding take_internal
  incidents-take_internal =
      let i' : Incident = taken_row rq u internal i in
      ground (
        arith,
        incidents-create_collaboration rq i' (new_collaboration rq i u leader CollabStatus.accepted)
            (save_incident i' db),
      )

  pub incidents-take_as_leader : (take_as_leader rq u i db).1.incidents ≡ (
      if is_refused (take_as_leader rq u i db).0
      then db.incidents
      else (save_incident (led_row rq u i) db).incidents)
  unfolding take_as_leader
  incidents-take_as_leader =
      let i' : Incident = led_row rq u i in
      ground (
        arith,
        incidents-create_collaboration rq i' (new_collaboration rq i u leader CollabStatus.accepted)
            (save_incident i' db),
      )

  pub incidents-take_as_other :
      (role : CollabRole)
      → (take_as_other role rq u i db).1.incidents ≡ (
          if is_some i.take_in_charge_mode
          then db.incidents
          else (save_incident (record i { take_in_charge_mode = some collaborative }) db).incidents)
  unfolding take_as_other save_incident
  incidents-take_as_other role = ground (
    arith,
    incidents-create_collaboration rq i (new_collaboration rq i u role (joined_status role i)) db,
  )

-- what an outcome that refuses, or saves one row, does to a leader
leader-outcome :
    (x : Outcome) (i : Incident) (db : Db) (k : ℕ)
    → x.1.incidents ≡ (if is_refused x.0 then db.incidents else (save_incident i db).incidents)
    → leader_of k x.1
      ≡ (if is_refused x.0 then leader_of k db else leader_of k (save_incident i db))
leader-outcome x i db k e = elim (Bool-cases (is_refused x.0)) [
  | inl r ↦ rw r (ap (leader_in k) (rw r at e))
  | inr r ↦ rw r (ap (leader_in k) (rw r at e))
]

module _ (rq : Request) (u : User) (i : Incident) (db : Db) where
  pub leader-take_internal :
      (k : ℕ)
      → leader_of k (take_internal rq u i db).1 ≡ (
          if is_refused (take_internal rq u i db).0
          then leader_of k db
          else leader_of k (save_incident (taken_row rq u internal i) db))
  leader-take_internal k =
      leader-outcome (take_internal rq u i db) (taken_row rq u internal i) db k
        (incidents-take_internal rq u i db)

  pub leader-take_as_leader :
      (k : ℕ)
      → leader_of k (take_as_leader rq u i db).1 ≡ (
          if is_refused (take_as_leader rq u i db).0
          then leader_of k db
          else leader_of k (save_incident (led_row rq u i) db))
  leader-take_as_leader k =
      leader-outcome (take_as_leader rq u i db) (led_row rq u i) db k
        (incidents-take_as_leader rq u i db)

  pub leader-take_as_other :
      (role : CollabRole) (k : ℕ)
      → get_incident i.id db ≡ some i
      → leader_of k (take_as_other role rq u i db).1 ≡ leader_of k db
  leader-take_as_other role k here = elim (Bool-cases (is_some i.take_in_charge_mode)) [
    | inl e ↦ ap (leader_in k) (rw e at (incidents-take_as_other rq u i db role))
    | inr e ↦
        ap (leader_in k) (rw e at (incidents-take_as_other rq u i db role))
        ∙ ground
            (arith, here, leader-save (record i { take_in_charge_mode = some collaborative }) k db)
  ]

  pub refused-take_internal :
      (k : ℕ) → i.taken_by ≡ some k → is_refused (take_internal rq u i db).0 ≡ true
  unfolding take_internal
  refused-take_internal k e = ground arith

  pub refused-take_as_leader :
      (k : ℕ) → i.taken_by ≡ some k → is_refused (take_as_leader rq u i db).0 ≡ true
  unfolding take_as_leader
  refused-take_as_leader k e = ground arith

  pub keeps-take_internal :
      (k w : ℕ)
      → get_incident i.id db ≡ some i
      → leader_of k db ≡ some w
      → leader_of k (take_internal rq u i db).1 ≡ some w
  keeps-take_internal k w here h = ground (
    arith,
    leader-take_internal k,
    leader-save (taken_row rq u internal i) k db,
    refused-take_internal w,
  )

  pub keeps-take_as_leader :
      (k w : ℕ)
      → get_incident i.id db ≡ some i
      → leader_of k db ≡ some w
      → leader_of k (take_as_leader rq u i db).1 ≡ some w
  keeps-take_as_leader k w here h =
      ground (
        arith,
        leader-take_as_leader k,
        leader-save (led_row rq u i) k db,
        refused-take_as_leader w,
      )

  pub keeps-take_collaborative :
      (role : Option CollabRole) (k w : ℕ)
      → get_incident i.id db ≡ some i
      → leader_of k db ≡ some w
      → leader_of k (take_collaborative role rq u i db).1 ≡ some w
  unfolding take_collaborative
  keeps-take_collaborative none k w here h = h
  keeps-take_collaborative (some r) k w here h = ground (
    arith,
    keeps-take_as_leader k w here h,
    leader-take_as_other contributor k here,
    leader-take_as_other observer k here,
  )

  -- after a success the user leads
  pub leads-take_internal :
      get_incident i.id db ≡ some i
      → (take_internal rq u i db).0 ≡ ok
      → leader_of i.id (take_internal rq u i db).1 ≡ some u.id
  leads-take_internal here h =
      ground
        (arith, here, leader-take_internal i.id, leader-save (taken_row rq u internal i) i.id db)

  pub leads-take_as_leader :
      get_incident i.id db ≡ some i
      → (take_as_leader rq u i db).0 ≡ ok
      → leader_of i.id (take_as_leader rq u i db).1 ≡ some u.id
  leads-take_as_leader here h =
      ground (arith, here, leader-take_as_leader i.id, leader-save (led_row rq u i) i.id db)

-- A request to become the leader: in internal mode, or as leader in collaborative mode.
abbrev pub claims_lead : Option Mode → Option CollabRole → Bool
claims_lead (some internal) role = true
claims_lead (some collaborative) (some leader) = true
claims_lead _ _ = false
