-- ===== src/Views.antt =====
-- What every view of the incident workflow begins with, and the save of a loaded row.
pub mod Loaded
pub mod Keeps
use mapapi.Prelude.{none, some, List, if◌then◌else◌}
use mapapi.Models.{User, Incident, Db}
use mapapi.Http.{Request, Reply, Error, refused, permission_denied, not_found}
use mapapi.Permissions.{Permission, permitted, incident_of_view}

-- A handler replies and leaves a database.
abbrev pub Outcome : Type 0
Outcome = Reply × Db

abbrev pub refuse : Error → Db → Outcome
refuse e db = (refused e, db)

-- `permission_classes`; each list has IsAuthenticated, so the body has a user.
abbrev pub as_user : List Permission → Request → Db → (User → Outcome) → Outcome
as_user classes rq db body = elim rq.user [
  | none ↦ refuse permission_denied db
  | some u ↦ if permitted classes rq db then body u else refuse permission_denied db
]

-- `Incident.objects.get(pk=incident_id)` and its 404
abbrev pub with_incident : Request → Db → (Incident → Outcome) → Outcome
with_incident rq db body = elim (incident_of_view rq db) [
  | none ↦ refuse not_found db
  | some i ↦ body i
]
