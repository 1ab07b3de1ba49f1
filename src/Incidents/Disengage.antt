-- ===== src/Incidents/Disengage.antt =====
-- DisengageIncidentView: the leader leaves an incident, alone or to its contributors.
use mapapi.Prelude.{Bool, not, ◌&&◌, none, [], ◌∷◌, if◌then◌else◌, ◌==◌}
use mapapi.Orm.{exists, update}
use mapapi.Models.{
  User, Incident, Collaboration, Db, Etat, leader, CollabStatus, is_taken, is_contributor,
  is_accepted, is_pair, save_incident,
}
use mapapi.Http.{Request, ok, wrong_etat}
use mapapi.Permissions.{is_authenticated, org_admin_role, incident_leader_class}
use mapapi.Views.{Outcome, refuse, as_user, with_incident}

-- the queryset `contributors`
abbrev pub to_propose : Incident → User → Collaboration → Bool
to_propose i u c =
    c.incident == i.id && is_contributor c.role && is_accepted c.status && not (c.user == u.id)

abbrev pub released : Incident → Incident
released i = record i { taken_by = none; take_in_charge_mode = none; taken_in_charge_at = none }

-- the row of an incident that nobody is left on
abbrev pub abandoned : Incident → Incident
abandoned i = record i {
  taken_by = none;
  take_in_charge_mode = none;
  taken_in_charge_at = none;
  etat = Etat.declared;
}

-- a contributor to whom the leadership is proposed
abbrev pub proposed : Collaboration → Collaboration
proposed c = record c { role = leader; status = CollabStatus.pending }

abbrev pub ended : Collaboration → Collaboration
ended c = record c { status = CollabStatus.terminated }

unfoldable pub disengage : Request → Db → Outcome
disengage rq db =
    as_user (is_authenticated ∷ org_admin_role ∷ incident_leader_class ∷ []) rq db λ u.
      with_incident rq db λ i.
        if not (is_taken i.etat)
        then refuse wrong_etat db
        else let db' : Db = record db {
          collaborations = update (is_pair i.id u.id) ended db.collaborations;
        } in
          if exists (to_propose i u) db'.collaborations
          then (
            ok,
            save_incident (released i) (record db' {
              collaborations = update (to_propose i u) proposed db'.collaborations;
            }),
          )
          else (
            ok,
            save_incident (abandoned i) (record db' {
              collaborations =
                  update (λ c. c.incident == i.id && is_accepted c.status) ended db'.collaborations;
            }),
          )
