-- ===== src/Permissions/Order.antt =====
-- How the permission classes of permissions.py are ordered.
use mapapi.Prelude.{
  ◌≡◌, Bool, true, false, some, List, [], ◌∷◌, arith, inl, inr, Option-cases, refers, if◌then◌else◌,
}
use mapapi.Orm.{exists}
use mapapi.Models.{User, Incident, Collaboration, Db, is_leader, is_contributor}
use mapapi.Http.{Request}
use mapapi.Roles.{is_super_admin}
use mapapi.Permissions.{
  has_accepted, leads, collaborates, contributes, leads_or_contributes, is_internal_org_member,
  incident_of_view, on_incident, incident_leader, incident_collaborator, incident_contributor,
  incident_leader_or_contributor,
}

exists_mono :
    (p q : Collaboration → Bool) (cs : List Collaboration)
    → ((c : Collaboration) → p c ≡ true → q c ≡ true)
    → exists p cs ≡ true
    → exists q cs ≡ true
exists_mono p q [] sub h = cc
exists_mono p q (c ∷ cs) sub h = ground (arith, sub c, exists_mono p q cs sub)

-- An accepted collaboration that passes a test is an accepted collaboration.
has_accepted-any :
    (p : Collaboration → Bool) (i : Incident) (u : User) (db : Db)
    → has_accepted p i u db ≡ true
    → has_accepted (λ _. true) i u db ≡ true
unfolding has_accepted
has_accepted-any p i u db h = exists_mono _ _ db.collaborations (λ c e. ground arith) h

leads-collaborates :
    (i : Incident) (u : User) (db : Db) → leads i u db ≡ true → collaborates i u db ≡ true
unfolding leads collaborates
leads-collaborates i u db h = ground (arith, has_accepted-any (λ c. is_leader c.role) i u db)

on_incident_mono :
    (p q : Incident → User → Db → Bool) (rq : Request) (db : Db)
    → ((i : Incident) (u : User) → p i u db ≡ true → q i u db ≡ true)
    → on_incident p rq db ≡ true
    → on_incident q rq db ≡ true
on_incident_mono p q rq db sub h = elim (Option-cases rq.user) [
  | inl e ↦ ground arith
  | inr (u, e) ↦ elim (Option-cases (incident_of_view rq db)) [
    | inl e' ↦ ground (arith, e, e')
    | inr (i, e') ↦ ground (arith, sub i u, e, e')
  ]
]

-- Whoever passes IsIncidentLeader passes IsIncidentCollaborator on the same request.
incident_leader-collaborator :
    (rq : Request) (db : Db) → incident_leader rq db ≡ true → incident_collaborator rq db ≡ true
unfolding incident_leader incident_collaborator
incident_leader-collaborator rq db h =
    on_incident_mono leads collaborates rq db (λ i u. leads-collaborates i u db) h

contributes-leads_or_contributes :
    (i : Incident) (u : User) (db : Db)
    → contributes i u db ≡ true
    → leads_or_contributes i u db ≡ true
unfolding leads_or_contributes
contributes-leads_or_contributes i u db h = ground arith

leads_or_contributes-collaborates :
    (i : Incident) (u : User) (db : Db)
    → leads_or_contributes i u db ≡ true
    → collaborates i u db ≡ true
unfolding leads_or_contributes contributes collaborates
leads_or_contributes-collaborates i u db h =
    ground (arith, has_accepted-any (λ c. is_contributor c.role) i u db)

if_mono :
    (b : Bool) {x y z w : Bool}
    → (x ≡ true → y ≡ true)
    → (z ≡ true → w ≡ true)
    → (if b then x else z) ≡ true
    → (if b then y else w) ≡ true
if_mono true f g h = f h
if_mono false f g h = g h

if_same : (b : Bool) {x : Bool} → (if b then x else x) ≡ true → x ≡ true
if_same true h = h
if_same false h = h

-- On any method, IsIncidentContributor implies IsIncidentLeaderOrContributor, and that implies
-- IsIncidentCollaborator.
contributor_chain :
    (rq : Request) (db : Db)
    → (incident_contributor rq db ≡ true → incident_leader_or_contributor rq db ≡ true)
      × (incident_leader_or_contributor rq db ≡ true → incident_collaborator rq db ≡ true)
unfolding incident_contributor incident_leader_or_contributor incident_collaborator
contributor_chain rq db = (
  if_mono rq.safe (λ h. h)
      (on_incident_mono contributes leads_or_contributes rq db contributes-leads_or_contributes'),
  (λ h.
      if_same rq.safe (
        if_mono rq.safe (λ h'. h') (on_incident_mono leads_or_contributes collaborates rq db lc)
          h)),
)
  where
    contributes-leads_or_contributes' :
        (i : Incident) (u : User) → contributes i u db ≡ true → leads_or_contributes i u db ≡ true
    contributes-leads_or_contributes' i u = contributes-leads_or_contributes i u db

    lc : (i : Incident) (u : User) → leads_or_contributes i u db ≡ true → collaborates i u db ≡ true
    lc i u = leads_or_contributes-collaborates i u db

-- An accepted leader who has not taken the incident, of another organisation and with no
-- contributor row, passes IsIncidentLeader and is refused by IsIncidentLeaderOrContributor on a
-- method that writes.
leader_refused_as_contributor :
    (rq : Request) (db : Db) {u : User} {i : Incident}
    → rq.user ≡ some u
    → u.is_superuser ≡ false
    → rq.safe ≡ false
    → incident_of_view rq db ≡ some i
    → refers i.taken_by u.id ≡ false
    → is_internal_org_member i u db ≡ false
    → has_accepted (λ c. is_leader c.role) i u db ≡ true
    → has_accepted (λ c. is_contributor c.role) i u db ≡ false
    → (incident_leader rq db ≡ true) × (incident_leader_or_contributor rq db ≡ false)
unfolding incident_leader incident_leader_or_contributor leads leads_or_contributes contributes
    is_super_admin
leader_refused_as_contributor rq db {u} hu hs hw hi ht hn hl hc = ground arith
