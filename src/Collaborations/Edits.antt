-- ===== src/Collaborations/Edits.antt =====
-- PATCH, PUT and DELETE of CollaborationDetailView, and BulkCollaborationRequestView.
pub mod Moved
use mapapi.Prelude.{
  is_some, ℕ, suc, Bool, true, false, not, ◌&&◌, Option, none, some, List, [], ◌∷◌, if◌then◌else◌,
  ◌==◌, given,
}
use mapapi.Orm.{find, exists}
use mapapi.Models.{
  User, Incident, Collaboration, Db, CollabRole, CollabStatus, is_pair, get_incident,
}
use mapapi.Http.{Request, Error, ok, not_found, unknown_incident, server_error, fields_required}
use mapapi.Permissions.{is_authenticated, org_admin_role, permitted}
use mapapi.Views.{Outcome, refuse, as_user}
use mapapi.Signals.{delete_collaboration, create_collaboration, save_collaboration}
use mapapi.Collaborations.{CollaborationBody, collaboration_error, writable}

-- The body of PATCH, `none` for an absent field; a null date is `some none`.
pub record CollaborationPatch : Type 0 where
  pub incident : Option ℕ
  pub role : Option CollabRole
  pub end_date : Option (Option ℕ)

-- what `validate_role` and `validate` read of it
abbrev pub body_of : CollaborationPatch → CollaborationBody
body_of p = record { incident = p.incident; role = p.role; end_date = given p.end_date none }

abbrev pub edited_row : CollaborationPatch → Collaboration → Collaboration
edited_row p c = record c {
  incident = given p.incident c.incident;
  role = given p.role c.role;
  end_date = given p.end_date c.end_date;
}

-- another row of the pair, on which the unique constraint raises IntegrityError; `user` is read-only,
-- so the serializer has no validator for the pair
abbrev pub pair_taken : ℕ → Collaboration → Db → Bool
pair_taken incident c db =
    exists (λ x. not (x.id == c.id) && is_pair incident c.user x) db.collaborations

-- the rest of PATCH, with the incident of the body or else of the row
unfoldable pub edit_found : CollaborationPatch → Collaboration → Incident → Request → Db → Outcome
edit_found p c i rq db = elim (collaboration_error (body_of p) i rq) [
  | some e ↦ refuse e db
  | none ↦
      if pair_taken i.id c db
      then refuse server_error db
      else (ok, save_collaboration c.status (edited_row p c) db)
]

-- `get_object` on the rows that the user may write
abbrev pub with_writable : ℕ → Request → Db → (Collaboration → Outcome) → Outcome
with_writable pk rq db body = as_user (is_authenticated ∷ []) rq db λ u.
    elim (find (λ c. c.id == pk && writable u db c) db.collaborations) [
      | none ↦ refuse not_found db
      | some c ↦ body c
    ]

-- PATCH, on the row that was found
unfoldable pub edit_collaboration : CollaborationPatch → Request → Db → Collaboration → Outcome
edit_collaboration p rq db c = elim (get_incident (given p.incident c.incident) db) [
  | none ↦ refuse unknown_incident db
  | some i ↦ edit_found p c i rq db
]

unfoldable pub patch_collaboration : ℕ → CollaborationPatch → Request → Db → Outcome
patch_collaboration pk p rq db = with_writable pk rq db (edit_collaboration p rq db)

-- PUT, which wants an incident; what else is absent stays as it is
unfoldable pub put_collaboration : ℕ → CollaborationPatch → Request → Db → Outcome
put_collaboration pk p rq db =
    with_writable pk rq db
      λ c. if is_some p.incident then edit_collaboration p rq db c else refuse fields_required db

unfoldable pub destroy_collaboration : ℕ → Request → Db → Outcome
destroy_collaboration pk rq db = with_writable pk rq db λ c. (ok, delete_collaboration c db)

-- One element of a bulk request, with the key that its row gets. An absent role is sent on as null,
-- which the serializer refuses.
abbrev Item : Type 0
Item = ℕ × CollaborationBody

-- What the bulk view has come to: how many elements failed, and the tables; `none` when the unique
-- constraint has raised, which ends the request with the earlier rows stored.
abbrev Batch : Type 0
Batch = Option ℕ × Db

abbrev one_failed : Batch → Batch
one_failed (none, db) = (none, db)
one_failed (some n, db) = (some (suc n), db)

-- the row of an element
abbrev bulk_row : ℕ → CollaborationBody → CollabRole → User → Incident → Collaboration
bulk_row fresh b role u i = record {
  id = fresh;
  incident = i.id;
  user = u.id;
  end_date = b.end_date;
  status = CollabStatus.pending;
  role = role;
}

-- the incident and the role of an element that is valid
unfoldable pub valid_item : CollaborationBody → Request → Db → Option (Incident × CollabRole)
valid_item b rq db = elim b.incident [
  | none ↦ none
  | some k ↦ elim (get_incident k db) [
    | none ↦ none
    | some i ↦ elim b.role [
      | none ↦ none
      | some role ↦ elim (collaboration_error b i rq) [ some e ↦ none | none ↦ some (i, role) ]
    ]
  ]
]

-- the loop of `BulkCollaborationRequestView.post`
unfoldable pub request_each : Request → User → List Item → Db → Batch
request_each rq u [] db = (some 0, db)
request_each rq u ((fresh, b) ∷ items) db = elim (valid_item b rq db) [
  | none ↦ one_failed (request_each rq u items db)
  | some x ↦
      if exists (is_pair x.0.id u.id) db.collaborations
      then (none, db)
      else request_each rq u items (create_collaboration rq x.0 (bulk_row fresh b x.1 u x.0) db)
]

-- `BulkCollaborationRequestView.post`, for a list that is not empty
unfoldable pub bulk_request : List Item → Request → Db → Batch
bulk_request items rq db = elim rq.user [
  | none ↦ (some 0, db)
  | some u ↦
      if permitted (is_authenticated ∷ org_admin_role ∷ []) rq db
      then request_each rq u items db
      else (some 0, db)
]
