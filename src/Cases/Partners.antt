-- ===== src/Cases/Partners.antt =====
-- The suggestion of a partner at a concrete request.
use mapapi.Prelude.{◌≡◌, refl, [], ◌∷◌}
use mapapi.Models.{Db, PartnerSuggestion, contributor, SuggestionStatus}
use mapapi.Roles.{get_web_role, is_super_admin}
use mapapi.Permissions.{permitted, has_permission, incident_leader, leads, has_accepted}
use mapapi.Suggestions.{accept_suggestion}
use mapapi.Suggestions.Accepting.{partner_row, accept_suggestion_lem}
use mapapi.Cases.Sample.{alice, sample, request_by, led_by_alice}

abbrev bob_suggested : PartnerSuggestion
bob_suggested = record {
  id = 61;
  incident = 2;
  suggested_by = 1;
  suggested_partner = 2;
  suggested_role = contributor;
  status = SuggestionStatus.pending;
}

abbrev suggesting : Db
suggesting = record sample { collaborations = led_by_alice ∷ []; suggestions = bob_suggested ∷ [] }

accept_suggestion_lem_example :
    (accept_suggestion 61 (request_by alice 2) suggesting).1.collaborations
    ≡ led_by_alice ∷ partner_row (request_by alice 2) bob_suggested ∷ []
unfolding accept_suggestion permitted has_permission incident_leader leads has_accepted
    is_super_admin get_web_role
accept_suggestion_lem_example =
    accept_suggestion_lem 61 (request_by alice 2) suggesting {s = bob_suggested} refl refl refl refl
      refl
