-- ===== src/Views/Loaded.antt =====
-- The row that a view has loaded stands in the table under its own key.
use mapapi.Prelude.{ℕ, ◌≡◌, refl, some, inl, inr, ◌==◌, ==→eq, Option-cases, subst, sym}
use mapapi.Orm.{find-sat}
use mapapi.Models.{Incident, Db, get_incident}
use mapapi.Http.{Request}
use mapapi.Permissions.{incident_of_view}
use mapapi.Views.{Outcome, with_incident}

loaded_key :
    (pk : ℕ) (db : Db) {i : Incident} → get_incident pk db ≡ some i → get_incident i.id db ≡ some i
loaded_key pk db {i} h =
    subst (λ k. get_incident k db ≡ some i)
      (sym (==→eq i.id pk (find-sat (λ j. j.id == pk) db.incidents h))) h

pub loaded :
    (rq : Request) (db : Db) {i : Incident}
    → incident_of_view rq db ≡ some i
    → get_incident i.id db ≡ some i
loaded rq db {i} h = elim (Option-cases rq.incident_id) [
  | inl e ↦ cc
  | inr (pk, e) ↦ loaded_key pk db (cc)
]

-- A view finds its incident by the key in the URL.
pub loaded-id :
    (rq : Request) (db : Db) {i : Incident}
    → incident_of_view rq db ≡ some i
    → rq.incident_id ≡ some i.id
loaded-id rq db {i} h = elim (Option-cases rq.incident_id) [
  | inl e ↦ cc
  | inr (pk, e) ↦
      let found : get_incident pk db ≡ some i = cc in
      cc (==→eq i.id pk (find-sat (λ j. j.id == pk) db.incidents found))
]

pub with_incident-loaded :
    (rq : Request) (db : Db) (body : Incident → Outcome) {i : Incident}
    → incident_of_view rq db ≡ some i
    → with_incident rq db body ≡ body i
with_incident-loaded rq db body {i} e = rw (e, with_incident) refl
