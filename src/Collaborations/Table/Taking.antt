-- ===== src/Collaborations/Table/Taking.antt =====
-- The other views that write one row of the table Collaboration: TakeInChargeView, and the
-- acceptance of a suggested partner.
use mapapi.Prelude.{ℕ, ◌≡◌, refl, Option, none, some, arith, inl, inr, Option-cases, ◌==◌}
use mapapi.Orm.{find, count-update_same, count-not_found, find-own}
use mapapi.Models.{
  User, Incident, PartnerSuggestion, Db, Mode, internal, CollabRole, leader, contributor, observer,
  CollabStatus, is_pair, save_incident, get_incident, get_collaboration,
}
use mapapi.Http.{Request}
use mapapi.Views.Keeps.{holds-as_user, holds-view}
use mapapi.Signals.{create_collaboration}
use mapapi.Incidents.TakeInCharge.{
  new_collaboration, taken_row, take_internal, to_reset, led_row, take_as_leader, joined_status,
  take_as_other, take_collaborative, take_in_charge,
}
use mapapi.Suggestions.{engage_partner, promoted_row, invited_row, accept_suggestion, suggestion_in}
use mapapi.Collaborations.Unique.{create-OnePair, take_in_charge-OnePair}
use mapapi.Collaborations.Table.{OneKey, IsTable, IsFresh, create-OneKey, save_same-IsTable}

module _ (rq : Request) (u : User) (i : Incident) (db : Db) (free : IsFresh rq db)
    (keys : OneKey db) where
  joined-OneKey :
      (i' : Incident) (role : CollabRole) (status : CollabStatus) (new : Db)
      → new.collaborations ≡ db.collaborations
      → OneKey (create_collaboration rq i' (new_collaboration rq i u role status) new)
  joined-OneKey i' role status new e =
      create-OneKey rq i' (new_collaboration rq i u role status) new (ground (arith, e, free))
        (λ k. ground (arith, e, keys k))

  take_internal-OneKey : OneKey (take_internal rq u i db).1
  unfolding take_internal save_incident
  take_internal-OneKey k =
      let i' : Incident = taken_row rq u internal i in
      ground
        (arith, keys k, joined-OneKey i' leader CollabStatus.accepted (save_incident i' db) refl k)

  take_as_leader-OneKey : OneKey (take_as_leader rq u i db).1
  unfolding take_as_leader save_incident
  take_as_leader-OneKey k =
      let i' : Incident = led_row rq u i in
      let new : Db =
        create_collaboration rq i' (new_collaboration rq i u leader CollabStatus.accepted)
          (save_incident i' db) in
      ground (
        arith,
        keys k,
        count-update_same (λ x. x.id == k) (to_reset i u)
            (λ c. record c { status = CollabStatus.pending }) new.collaborations (λ c. refl),
        joined-OneKey i' leader CollabStatus.accepted (save_incident i' db) refl k,
      )

  take_as_other-OneKey : (role : CollabRole) → OneKey (take_as_other role rq u i db).1
  unfolding take_as_other save_incident
  take_as_other-OneKey role k =
      ground (arith, keys k, joined-OneKey i role (joined_status role i) db refl k)

  take_collaborative-OneKey :
      (role : Option CollabRole) → OneKey (take_collaborative role rq u i db).1
  unfolding take_collaborative
  take_collaborative-OneKey none k = keys k
  take_collaborative-OneKey (some r) k = ground (
    arith,
    keys k,
    take_as_leader-OneKey k,
    take_as_other-OneKey contributor k,
    take_as_other-OneKey observer k,
  )

pub take_in_charge-IsTable :
    (mode : Option Mode) (role : Option CollabRole) (rq : Request) (db : Db)
    → IsFresh rq db
    → IsTable db
    → IsTable (take_in_charge mode role rq db).1
unfolding take_in_charge
take_in_charge-IsTable mode role rq db free (one, keys) = (
  take_in_charge-OnePair mode role rq db one,
  holds-view _ rq db (λ x. OneKey x.1) _ (λ _. keys)
      λ u i here k. ground (
        arith,
        keys k,
        take_internal-OneKey rq u i db free keys k,
        take_collaborative-OneKey rq u i db free keys role k,
      ),
)

engage_partner-IsTable :
    (rq : Request) (s : PartnerSuggestion) (db : Db)
    → IsFresh rq db
    → IsTable db
    → IsTable (engage_partner rq s db)
unfolding engage_partner
engage_partner-IsTable rq s db free t =
    elim (Option-cases (find (is_pair s.incident s.suggested_partner) db.collaborations)) [
      | inr (c, e) ↦
          let mine : get_collaboration c.id db ≡ some c =
            find-own (is_pair s.incident s.suggested_partner) (λ x. x.id == c.id) db.collaborations
              e (ground arith) (t.1 c.id) in
          rw (e, engage_partner)
            (save_same-IsTable c.status c (promoted_row s c) db mine refl refl t)
      | inl n ↦ elim (Option-cases (get_incident s.incident db)) [
        | inl e ↦ rw (n, e, engage_partner) t
        | inr (i, e) ↦
            rw (n, e, engage_partner)
              (
                create-OnePair rq i (invited_row rq s) db
                    (count-not_found (is_pair s.incident s.suggested_partner) db.collaborations n)
                    t.0,
                create-OneKey rq i (invited_row rq s) db free t.1,
              )
      ]
    ]

pub accept_suggestion-IsTable :
    (pk : ℕ) (rq : Request) (db : Db)
    → IsFresh rq db
    → IsTable db
    → IsTable (accept_suggestion pk rq db).1
unfolding accept_suggestion
accept_suggestion-IsTable pk rq db free t =
    holds-as_user _ rq db (λ x. IsTable x.1) _ (λ _. t)
      λ u. elim (Option-cases (suggestion_in pk rq.incident_id db)) [
        | inl e ↦ ((λ k v. ground (arith, e, t.0 k v)), (λ k. ground (arith, e, t.1 k)))
        | inr (s, e) ↦
            let h : IsTable (engage_partner rq s db) = engage_partner-IsTable rq s db free t in
            ((λ k v. ground (arith, e, t.0 k v, h.0 k v)), (λ k. ground (arith, e, t.1 k, h.1 k)))
      ]
