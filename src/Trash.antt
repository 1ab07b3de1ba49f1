-- ===== src/Trash.antt =====
-- The trash: BulkDeleteIncidentsView, BulkRestoreIncidentsView, BulkForceDeleteIncidentsView and
-- RestoreIncidentView of views/incident.py. The job that empties it is in Beat.
pub mod Purge
pub mod Bulk
pub mod Restore
use mapapi.Prelude.{
  ℕ, Bool, not, ◌&&◌, Option, none, some, List, [], ◌∷◌, if◌then◌else◌, ◌==◌, true,
}
use mapapi.Orm.{find}
use mapapi.Models.{User, Incident, Db, get_incident, save_incident}
use mapapi.Http.{Request, Error, ok, not_found, empty_list, permission_denied}
use mapapi.Roles.{is_super_admin}
use mapapi.Permissions.{is_authenticated, superuser, permitted}
use mapapi.Views.{Outcome, refuse, as_user}
use mapapi.Beat.{delete_incident}

abbrev pub trashed_row : Request → Incident → Incident
trashed_row rq i = record i { is_deleted = true; deleted_at = some rq.now }

-- what a bulk view lists in its response
pub record BulkLists : Type 0 where
  pub done_ids : List ℕ
  pub unauthorized_ids : List ℕ
  pub not_found_ids : List ℕ

-- the pairs of what is listed and what is stored
abbrev pub Bulk : Type 0
Bulk = BulkLists × Db

abbrev pub done_with : ℕ → Bulk → Bulk
done_with k (r, db) = (record r { done_ids = k ∷ r.done_ids }, db)

abbrev pub unauthorized_with : ℕ → Bulk → Bulk
unauthorized_with k (r, db) = (record r { unauthorized_ids = k ∷ r.unauthorized_ids }, db)

abbrev pub missing_with : ℕ → Bulk → Bulk
missing_with k (r, db) = (record r { not_found_ids = k ∷ r.not_found_ids }, db)

abbrev nothing : Db → Bulk
nothing db = (record { done_ids = []; unauthorized_ids = []; not_found_ids = [] }, db)

-- `if not incident.is_deleted: …`
unfoldable pub trash_incident : Request → Incident → Db → Db
trash_incident rq i db = if not i.is_deleted then save_incident (trashed_row rq i) db else db

-- the loop of `BulkDeleteIncidentsView.post`
unfoldable pub trash_each : Request → User → List ℕ → Db → Bulk
trash_each rq u [] db = nothing db
trash_each rq u (k ∷ ks) db = elim (get_incident k db) [
  | none ↦ missing_with k (trash_each rq u ks db)
  | some i ↦
      if not (is_super_admin (some u))
      then unauthorized_with k (trash_each rq u ks db)
      else done_with k (trash_each rq u ks (trash_incident rq i db))
]

-- `Incident.objects.get(pk=incident_id, is_deleted=True)`
abbrev pub get_trashed : ℕ → Db → Option Incident
get_trashed k db = find (λ i. i.id == k && i.is_deleted) db.incidents

-- `deleted_at` stays
abbrev pub restored_row : Incident → Incident
restored_row i = record i { is_deleted = Bool.false }

-- the loop of `BulkRestoreIncidentsView.post`
unfoldable pub restore_each : List ℕ → Db → Bulk
restore_each [] db = nothing db
restore_each (k ∷ ks) db = elim (get_trashed k db) [
  | none ↦ missing_with k (restore_each ks db)
  | some i ↦ done_with k (restore_each ks (save_incident (restored_row i) db))
]

-- the loop of `BulkForceDeleteIncidentsView.post`
unfoldable pub force_delete_each : List ℕ → Db → Bulk
force_delete_each [] db = nothing db
force_delete_each (k ∷ ks) db = elim (get_trashed k db) [
  | none ↦ missing_with k (force_delete_each ks db)
  | some i ↦ done_with k (force_delete_each ks (delete_incident i.id db))
]

-- what the bulk views begin with: the list may not be empty
abbrev bulk : List ℕ → (Db → Bulk) → Db → Outcome × Option BulkLists
bulk [] loop db = (refuse empty_list db, none)
bulk (k ∷ ks) loop db = ((ok, (loop db).1), some (loop db).0)

unfoldable pub bulk_delete : List ℕ → Request → Db → Outcome × Option BulkLists
bulk_delete ks rq db = elim rq.user [
  | none ↦ (refuse permission_denied db, none)
  | some u ↦ bulk ks (trash_each rq u ks) db
]

abbrev as_superuser : Request → Db → Outcome × Option BulkLists → Outcome × Option BulkLists
as_superuser rq db x =
    if permitted (is_authenticated ∷ superuser ∷ []) rq db
    then x
    else (refuse permission_denied db, none)

unfoldable pub bulk_restore : List ℕ → Request → Db → Outcome × Option BulkLists
bulk_restore ks rq db = as_superuser rq db (bulk ks (restore_each ks) db)

unfoldable pub bulk_force_delete : List ℕ → Request → Db → Outcome × Option BulkLists
bulk_force_delete ks rq db = as_superuser rq db (bulk ks (force_delete_each ks) db)

-- `RestoreIncidentView.post`
unfoldable pub restore_incident : ℕ → Request → Db → Outcome
restore_incident k rq db = as_user (is_authenticated ∷ superuser ∷ []) rq db λ u.
    elim (get_trashed k db) [
      | none ↦ refuse not_found db
      | some i ↦ (ok, save_incident (restored_row i) db)
    ]
