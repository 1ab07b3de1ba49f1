-- ===== src/Suggestions.antt =====
-- views/partner_suggestion.py: suggesting a partner, with its serializer, and the answers of the leader.
pub mod Accepting
use mapapi.Prelude.{
  ℕ, Bool, true, false, not, ◌&&◌, ◌||◌, Option, none, some, [], ◌∷◌, ◌++◌, if◌then◌else◌, is_some,
  refers, ◌==◌,
}
use mapapi.Orm.{find, update, exists}
use mapapi.Models.{
  User, Incident, Collaboration, PartnerSuggestion, Db, CollabRole, CollabStatus, SuggestionStatus,
  is_open, is_closed, is_accepted, is_pair, is_admin_role, is_bureau_role, get_incident, get_user,
}
use mapapi.Http.{
  Request, Error, ok, created, not_found, already_answered, closed, no_organisation, duplicate,
  unknown_incident, server_error, fields_required,
}
use mapapi.Permissions.{
  is_authenticated, incident_leader_class, leader_or_contributor_class, incident_of_view,
}
use mapapi.Views.{Outcome, refuse, as_user}
use mapapi.Signals.{create_collaboration, save_collaboration}

-- `PartnerSuggestion.objects.get(pk=pk, incident_id=incident_id)`
abbrev pub suggestion_in : ℕ → Option ℕ → Db → Option PartnerSuggestion
suggestion_in pk incident db = find (λ s. s.id == pk && refers incident s.incident) db.suggestions

-- what both answers begin with
abbrev pub with_suggestion : ℕ → Request → Db → (PartnerSuggestion → Outcome) → Outcome
with_suggestion pk rq db body = as_user (is_authenticated ∷ incident_leader_class ∷ []) rq db λ u.
    elim (suggestion_in pk rq.incident_id db) [
      | none ↦ refuse not_found db
      | some s ↦ if not (is_open s.status) then refuse already_answered db else body s
    ]

-- `suggestion.save()`
abbrev pub save_suggestion : PartnerSuggestion → Db → Db
save_suggestion s db = record db {
  suggestions = update (λ x. x.id == s.id) (λ _. s) db.suggestions;
}

abbrev pub invited_row : Request → PartnerSuggestion → Collaboration
invited_row rq s = record {
  id = rq.fresh;
  incident = s.incident;
  user = s.suggested_partner;
  end_date = none;
  status = CollabStatus.accepted;
  role = s.suggested_role;
}

abbrev pub promoted_row : PartnerSuggestion → Collaboration → Collaboration
promoted_row s c = record c { role = s.suggested_role; status = CollabStatus.accepted }

-- `get_or_create`, and the update of a row that was there
unfoldable pub engage_partner : Request → PartnerSuggestion → Db → Db
engage_partner rq s db = elim (find (is_pair s.incident s.suggested_partner) db.collaborations) [
  | some c ↦ save_collaboration c.status (promoted_row s c) db
  | none ↦ elim (get_incident s.incident db) [
    | none ↦ db
    | some i ↦ create_collaboration rq i (invited_row rq s) db
  ]
]

abbrev pub suggestion_accepted : PartnerSuggestion → PartnerSuggestion
suggestion_accepted s = record s { status = SuggestionStatus.accepted }

abbrev pub suggestion_rejected : PartnerSuggestion → PartnerSuggestion
suggestion_rejected s = record s { status = SuggestionStatus.rejected }

-- `PartnerSuggestionAcceptView.post`
unfoldable pub accept_suggestion : ℕ → Request → Db → Outcome
accept_suggestion pk rq db =
    with_suggestion pk rq db
      λ s. (ok, save_suggestion (suggestion_accepted s) (engage_partner rq s db))

-- `PartnerSuggestionRejectView.post`
unfoldable pub reject_suggestion : ℕ → Request → Db → Outcome
reject_suggestion pk rq db =
    with_suggestion pk rq db λ s. (ok, save_suggestion (suggestion_rejected s) db)

-- The body of a new suggestion; a role that is no suggested role is refused with the absent ones.
pub record SuggestionBody : Type 0 where
  pub incident : Option ℕ
  pub suggested_partner : Option ℕ
  pub suggested_organisation : Option ℕ
  -- `contributor` or `observer`
  pub suggested_role : Option CollabRole
  -- whether there is a justification
  pub justification : Bool

-- an administrator of an organisation, or else one of its office agents
abbrev partner_of_organisation : ℕ → Db → Option ℕ
partner_of_organisation org db =
    elim (find (λ u. refers u.organisation_member org && is_admin_role u.org_role) db.users) [
      | some u ↦ some u.id
      | none ↦
          elim (find (λ u. refers u.organisation_member org && is_bureau_role u.org_role)
            db.users) [ some u ↦ some u.id | none ↦ none ]
    ]

-- what the serializer comes to: why it refuses, or the user who is suggested
pub data Checked : Type 0 where
  invalid : Error → Checked
  partner : ℕ → Checked

-- the end of `PartnerSuggestionSerializer.validate`, on the incident of the body
abbrev check_partner : Incident → Db → Option ℕ → Checked
check_partner i db none = invalid no_organisation
check_partner i db (some k) =
    if exists (λ c. is_pair i.id k c && is_accepted c.status) db.collaborations
    then invalid duplicate
    else if exists (λ s. s.incident == i.id && s.suggested_partner == k) db.suggestions
    then invalid duplicate
    else partner k

-- the partner of the body, or the one of the organisation of the body
abbrev named_partner : SuggestionBody → Db → Option ℕ
named_partner b db = elim b.suggested_partner [
  | some k ↦ elim (get_user k db) [ none ↦ none | some u ↦ some u.id ]
  | none ↦ elim b.suggested_organisation [ none ↦ none | some org ↦ partner_of_organisation org db ]
]

-- `serializer.is_valid()`
unfoldable check_suggestion : SuggestionBody → Db → Checked
check_suggestion b db = elim b.incident [
  | none ↦ invalid unknown_incident
  | some k ↦ elim (get_incident k db) [
    | none ↦ invalid unknown_incident
    | some i ↦
        if not (is_some b.suggested_role && b.justification)
        then invalid fields_required
        else if is_closed i.etat
        then invalid closed
        else check_partner i db (named_partner b db)
  ]
]

abbrev suggested_row : Request → User → Incident → ℕ → CollabRole → PartnerSuggestion
suggested_row rq u i k role = record {
  id = rq.fresh;
  incident = i.id;
  suggested_by = u.id;
  suggested_partner = k;
  suggested_role = role;
  status = SuggestionStatus.pending;
}

-- `perform_create`: the row gets the incident of the URL, whatever the body says, and the unique
-- constraint raises where this pair is there already
unfoldable perform_create_suggestion : Request → User → ℕ → Option CollabRole → Db → Outcome
perform_create_suggestion rq u k none db = refuse fields_required db
perform_create_suggestion rq u k (some role) db = elim (incident_of_view rq db) [
  | none ↦ refuse server_error db
  | some i ↦
      if is_closed i.etat
      then refuse closed db
      else if exists (λ s. s.incident == i.id && s.suggested_partner == k) db.suggestions
      then refuse server_error db
      else (created, record db { suggestions = db.suggestions ++ suggested_row rq u i k role ∷ [] })
]

-- POST of `PartnerSuggestionListCreateView`
unfoldable create_suggestion : SuggestionBody → Request → Db → Outcome
create_suggestion b rq db = as_user (is_authenticated ∷ leader_or_contributor_class ∷ []) rq db λ u.
    elim (check_suggestion b db) [
      | invalid e ↦ refuse e db
      | partner k ↦ perform_create_suggestion rq u k b.suggested_role db
    ]
