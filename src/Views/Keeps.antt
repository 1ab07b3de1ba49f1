-- ===== src/Views/Keeps.antt =====
-- What a view keeps of the database, if its body keeps it.
use mapapi.Prelude.{◌≡◌, some, List, ◌⊎◌, inl, inr, arith, Bool-cases, Option-cases, subst, sym}
use mapapi.Models.{User, Incident, Db, get_incident}
use mapapi.Http.{Request, Error, permission_denied, not_found}
use mapapi.Permissions.{Permission, permitted, incident_of_view}
use mapapi.Views.{Outcome, refuse, as_user, with_incident}
use mapapi.Views.Loaded.{loaded}

module _ (classes : List Permission) (rq : Request) (db : Db) where
  pub as_user-cases :
      (body : User → Outcome)
      → (as_user classes rq db body ≡ refuse permission_denied db)
        ⊎ ((u : User) × (as_user classes rq db body ≡ body u))
  as_user-cases body = elim (Option-cases rq.user) [
    | inl e ↦ inl (ground (arith, e))
    | inr (u, e) ↦ elim (Bool-cases (permitted classes rq db)) [
      | inl p ↦ inr (u, ground (arith, e, p))
      | inr p ↦ inl (ground (arith, e, p))
    ]
  ]

  -- What holds of every refusal and of what the body does holds of the view.
  pub holds-as_user :
      (Q : Outcome → Type 0) (body : User → Outcome)
      → ((e : Error) → Q (refuse e db))
      → ((u : User) → Q (body u))
      → Q (as_user classes rq db body)
  holds-as_user Q body h step = elim (as_user-cases body) [
    | inl e ↦ subst Q (sym e) (h permission_denied)
    | inr (u, e) ↦ subst Q (sym e) (step u)
  ]

  pub with_incident-cases :
      (body : Incident → Outcome)
      → (with_incident rq db body ≡ refuse not_found db)
        ⊎ ((i : Incident) × (get_incident i.id db ≡ some i) × (with_incident rq db body ≡ body i))
  with_incident-cases body = elim (Option-cases (incident_of_view rq db)) [
    | inl e ↦ inl (ground (arith, e))
    | inr (i, e) ↦ inr (i, loaded rq db e, ground (arith, e))
  ]

  pub holds-view :
      (Q : Outcome → Type 0) (body : User → Incident → Outcome)
      → ((e : Error) → Q (refuse e db))
      → ((u : User) (i : Incident) → get_incident i.id db ≡ some i → Q (body u i))
      → Q (as_user classes rq db λ u. with_incident rq db λ i. body u i)
  holds-view Q body h step =
      holds-as_user Q (λ u. with_incident rq db λ i. body u i) h
        λ u. elim (with_incident-cases (λ i. body u i)) [
          | inl e ↦ subst Q (sym e) (h not_found)
          | inr (i, here, e) ↦ subst Q (sym e) (step u i here)
        ]
