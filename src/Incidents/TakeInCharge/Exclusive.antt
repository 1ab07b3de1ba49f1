-- ===== src/Incidents/TakeInCharge/Exclusive.antt =====
-- Several requests to TakeInChargeView, and those who join an incident that nobody leads.
use mapapi.Prelude.{
  ℕ, ◌≡◌, true, false, Option, none, some, List, [], ◌∷◌, arith, inl, inr, Option-cases, ◌==◌,
}
use mapapi.Orm.{find}
use mapapi.Signals.Effects.{create_collaboration_lem}
use mapapi.Models.{
  User, Incident, Db, Mode, collaborative, CollabRole, contributor, observer, leader_of, is_leader,
  save_incident,
}
use mapapi.Http.{Request, ok, is_refused}
use mapapi.Permissions.{incident_of_view}
use mapapi.Views.Loaded.{loaded, loaded-id}
use mapapi.Incidents.TakeInCharge.{
  take_as_other, take_collaborative, take_in_charge, new_collaboration, joined_status,
}
use mapapi.Incidents.TakeInCharge.Leadership.{
  keeps-take_internal, keeps-take_collaborative, leads-take_internal, leads-take_as_leader,
  refused-take_internal, refused-take_as_leader, claims_lead,
}

-- Whatever a request asks for, an incident that has a leader keeps that leader.
pub take_in_charge_keeps_leader :
    (mode : Option Mode) (role : Option CollabRole) (rq : Request) (db : Db) (k w : ℕ)
    → leader_of k db ≡ some w
    → leader_of k (take_in_charge mode role rq db).1 ≡ some w
unfolding take_in_charge
take_in_charge_keeps_leader mode role rq db k w h = elim (Option-cases rq.user) [
  | inl e ↦ ground (arith, e)
  | inr (u, e) ↦ elim (Option-cases (incident_of_view rq db)) [
    | inl e' ↦ ground (arith, e, e')
    | inr (i, e') ↦ ground (
      arith,
      e,
      e',
      keeps-take_internal rq u i db k w (loaded rq db e') h,
      keeps-take_collaborative rq u i db role k w (loaded rq db e') h,
    )
  ]
]

-- The request of a user to lead an incident that has a leader is refused.
led_claim_refused :
    (mode : Option Mode) (role : Option CollabRole) (rq : Request) (db : Db) (k w : ℕ)
    → claims_lead mode role ≡ true
    → rq.incident_id ≡ some k
    → leader_of k db ≡ some w
    → is_refused (take_in_charge mode role rq db).0 ≡ true
unfolding take_in_charge take_collaborative
led_claim_refused mode role rq db k w c hk h = elim (Option-cases rq.user) [
  | inl e ↦ ground (arith, e)
  | inr (u, e) ↦ elim (Option-cases (incident_of_view rq db)) [
    | inl e' ↦ ground (arith, e, e')
    | inr (i, e') ↦
        ground
          (arith, e, e', c, refused-take_internal rq u i db w, refused-take_as_leader rq u i db w)
  ]
]

-- A request to lead that succeeds makes its user the leader.
claim_leads :
    (mode : Option Mode) (role : Option CollabRole) (rq : Request) (db : Db) {k : ℕ} {u : User}
    → claims_lead mode role ≡ true
    → rq.incident_id ≡ some k
    → rq.user ≡ some u
    → (take_in_charge mode role rq db).0 ≡ ok
    → leader_of k (take_in_charge mode role rq db).1 ≡ some u.id
unfolding take_in_charge take_collaborative
claim_leads mode role rq db {k} {u} c hk hu h = elim (Option-cases (incident_of_view rq db)) [
  | inl e' ↦ ground (arith, e')
  | inr (i, e') ↦ ground (
    arith,
    e',
    c,
    loaded-id rq db e',
    leads-take_internal rq u i db (loaded rq db e'),
    leads-take_as_leader rq u i db (loaded rq db e'),
  )
]

-- A request to take in charge: the mode, the role and the request.
abbrev pub Taking : Type 0
Taking = Option Mode × Option CollabRole × Request

-- the tables after requests to take in charge, in this order
unfoldable pub take_all : List Taking → Db → Db
take_all [] db = db
take_all (t ∷ ts) db = take_all ts (take_in_charge t.0 t.1 t.2 db).1

take_all-leader :
    (ts : List Taking) (db : Db) (k w : ℕ)
    → leader_of k db ≡ some w
    → leader_of k (take_all ts db) ≡ some w
unfolding take_all
take_all-leader [] db k w h = h
take_all-leader (t ∷ ts) db k w h =
    take_all-leader ts (take_in_charge t.0 t.1 t.2 db).1 k w
      (take_in_charge_keeps_leader t.0 t.1 t.2 db k w h)

-- When a request to lead an incident has succeeded, and only requests to take in charge have followed,
-- any number of them, of whichever users, modes, roles and incidents, then a request to lead the same
-- incident is refused.
pub second_claim_refused :
    (mode mode' : Option Mode) (role role' : Option CollabRole) (rq rq' : Request)
    (between : List Taking) (db : Db) {k : ℕ} {u : User}
    → claims_lead mode role ≡ true
    → claims_lead mode' role' ≡ true
    → rq.incident_id ≡ some k
    → rq'.incident_id ≡ some k
    → rq.user ≡ some u
    → (take_in_charge mode role rq db).0 ≡ ok
    → is_refused
        (take_in_charge mode' role' rq' (take_all between (take_in_charge mode role rq db).1)).0
      ≡ true
second_claim_refused mode mode' role role' rq rq' between db {k} {u} c c' hk hk' hu h =
    led_claim_refused mode' role' rq' (take_all between (take_in_charge mode role rq db).1) k u.id
      c' hk' (take_all-leader between _ k u.id (claim_leads mode role rq db c hk hu h))

-- A contributor or an observer who joins an incident without a leader is told that it succeeded,
-- and no collaboration is left: the receiver of the new row has deleted it.
pub join_without_leader_lost :
    (role : CollabRole) (rq : Request) (db : Db) {u : User} {i : Incident}
    → is_leader role ≡ false
    → rq.user ≡ some u
    → incident_of_view rq db ≡ some i
    → i.taken_by ≡ none
    → find (λ c. c.id == rq.fresh) db.collaborations ≡ none
    → (take_in_charge (some collaborative) (some role) rq db).0 ≡ ok
    → (take_in_charge (some collaborative) (some role) rq db).1.collaborations ≡ db.collaborations
unfolding take_in_charge take_collaborative take_as_other save_incident
join_without_leader_lost role rq db {u} {i} r hu hi ht fresh h = ground (
  arith,
  r,
  create_collaboration_lem rq i (new_collaboration rq i u role (joined_status role i)) db fresh,
  create_collaboration_lem rq i (new_collaboration rq i u contributor (joined_status contributor i))
      db fresh,
  create_collaboration_lem rq i (new_collaboration rq i u observer (joined_status observer i)) db
      fresh,
)
