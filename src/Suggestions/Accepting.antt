-- ===== src/Suggestions/Accepting.antt =====
-- What the answers to a suggestion leave.
use mapapi.Prelude.{
  ℕ, ◌≡◌, refl, Bool, true, false, not, ◌&&◌, Option, none, some, List, [], ◌∷◌, ◌++◌, arith, inl,
  inr, Option-cases, if◌then◌else◌, ◌==◌, refers, is_some, ◌∙◌,
}
use mapapi.Orm.{find, update, find-sat}
use mapapi.Models.{
  Incident, Collaboration, CollabStatus, PartnerSuggestion, Db, is_open, is_pair, get_incident,
}
use mapapi.Http.{Request, is_refused}
use mapapi.Views.{Outcome}
use mapapi.Signals.{
  create_collaboration, notify_organisation_on_collaboration, delete_collaboration,
  save_collaboration,
}
use mapapi.Signals.Effects.{IsFresh, stays, create_collaboration_lem}
use mapapi.Suggestions.{
  suggestion_in, accept_suggestion, reject_suggestion, save_suggestion, suggestion_accepted,
  suggestion_rejected, engage_partner, invited_row,
}

-- whether the suggestion with a key on an incident has been answered
abbrev pub is_settled : ℕ → Option ℕ → Db → Bool
is_settled pk k db = elim (suggestion_in pk k db) [ none ↦ false | some s ↦ not (is_open s.status) ]

suggestions-engage :
    (rq : Request) (s : PartnerSuggestion) (db : Db)
    → (engage_partner rq s db).suggestions ≡ db.suggestions
unfolding engage_partner create_collaboration notify_organisation_on_collaboration
    delete_collaboration save_collaboration
suggestions-engage rq s db = ground arith

find-answered :
    (s : PartnerSuggestion) (pk : ℕ) (k : Option ℕ) (rows : List PartnerSuggestion)
    → (s.id == pk && refers k s.incident) ≡ true
    → find (λ x. x.id == pk && refers k x.incident) (update (λ x. x.id == s.id) (λ _. s) rows)
      ≡ elim (find (λ x. x.id == pk) rows) [ none ↦ none | some _ ↦ some s ]
find-answered s pk k [] e = refl
find-answered s pk k (x ∷ rows) e = ground (arith, find-answered s pk k rows e)

find-key :
    (pk : ℕ) (k : Option ℕ) (rows : List PartnerSuggestion) {s : PartnerSuggestion}
    → find (λ x. x.id == pk && refers k x.incident) rows ≡ some s
    → is_some (find (λ x. x.id == pk) rows) ≡ true
find-key pk k [] h = cc
find-key pk k (x ∷ rows) {s} h = ground (arith, find-key pk k rows {s = s})

get-answered_suggestion :
    (s' s : PartnerSuggestion) (pk : ℕ) (k : Option ℕ) (db new : Db)
    → s'.id ≡ s.id
    → s'.incident ≡ s.incident
    → suggestion_in pk k db ≡ some s
    → new.suggestions ≡ db.suggestions
    → suggestion_in pk k (save_suggestion s' new) ≡ some s'
get-answered_suggestion s' s pk k db new e f h g =
    let own : (s.id == pk && refers k s.incident) ≡ true =
      find-sat (λ x. x.id == pk && refers k x.incident) db.suggestions h in
    let own' : (s'.id == pk && refers k s'.incident) ≡ true = rw (e, f) own in
    ground (arith, find-answered s' pk k db.suggestions own', find-key pk k db.suggestions h, g)

-- the two answers
abbrev pub answer_suggestion : Bool → ℕ → Request → Db → Outcome
answer_suggestion true pk rq db = accept_suggestion pk rq db
answer_suggestion false pk rq db = reject_suggestion pk rq db

answered-settled :
    (b : Bool) (pk : ℕ) (rq : Request) (db : Db)
    → is_refused (answer_suggestion b pk rq db).0 ≡ false
    → is_settled pk rq.incident_id (answer_suggestion b pk rq db).1 ≡ true
unfolding accept_suggestion reject_suggestion
answered-settled b pk rq db h = elim (Option-cases rq.user) [
  | inl e ↦ ground (arith, e)
  | inr (u, e) ↦ elim (Option-cases (suggestion_in pk rq.incident_id db)) [
    | inl n ↦ ground (arith, e, n)
    | inr (s, n) ↦ ground (
      arith,
      e,
      n,
      get-answered_suggestion (suggestion_accepted s) s pk rq.incident_id db
          (engage_partner rq s db) refl refl n (suggestions-engage rq s db),
      get-answered_suggestion (suggestion_rejected s) s pk rq.incident_id db db refl refl n refl,
    )
  ]
]

settled_refused :
    (b : Bool) (pk : ℕ) (rq : Request) (db : Db)
    → is_settled pk rq.incident_id db ≡ true
    → is_refused (answer_suggestion b pk rq db).0 ≡ true
unfolding accept_suggestion reject_suggestion
settled_refused true pk rq db h = ground arith
settled_refused false pk rq db h = ground arith

-- A suggestion is answered once: when it has been accepted or rejected through its incident, any
-- later answer to it through the same incident is refused.
answer_suggestion-once :
    (b c : Bool) (pk : ℕ) (rq rq' : Request) (db : Db)
    → rq'.incident_id ≡ rq.incident_id
    → is_refused (answer_suggestion b pk rq db).0 ≡ false
    → is_refused (answer_suggestion c pk rq' (answer_suggestion b pk rq db).1).0 ≡ true
answer_suggestion-once b c pk rq rq' db e h =
    settled_refused c pk rq' (answer_suggestion b pk rq db).1 (rw e (answered-settled b pk rq db h))

collaborations-accept :
    (pk : ℕ) (rq : Request) (db : Db) {s : PartnerSuggestion} {i : Incident}
    → suggestion_in pk rq.incident_id db ≡ some s
    → get_incident s.incident db ≡ some i
    → find (is_pair s.incident s.suggested_partner) db.collaborations ≡ none
    → find (λ c. c.id == rq.fresh) db.collaborations ≡ none
    → is_refused (accept_suggestion pk rq db).0 ≡ false
    → (accept_suggestion pk rq db).1.collaborations
      ≡ (create_collaboration rq i (invited_row rq s) db).collaborations
unfolding accept_suggestion engage_partner
collaborations-accept pk rq db {s} {i} hs hi hp hf h = ground arith

-- an accepted collaboration of the suggested partner in the suggested role, under the new key
abbrev pub partner_row : Request → PartnerSuggestion → Collaboration
partner_row rq s = record {
  id = rq.fresh;
  incident = s.incident;
  user = s.suggested_partner;
  end_date = none;
  status = CollabStatus.accepted;
  role = s.suggested_role;
}

-- Accepting the suggestion of a partner who has no collaboration yet adds the partner's accepted
-- one with the suggested role, if the receiver of new rows lets it stay; if it does not, the
-- reply is a success and no collaboration is added.
pub accept_suggestion_lem :
    (pk : ℕ) (rq : Request) (db : Db) {s : PartnerSuggestion} {i : Incident}
    → suggestion_in pk rq.incident_id db ≡ some s
    → get_incident s.incident db ≡ some i
    → find (is_pair s.incident s.suggested_partner) db.collaborations ≡ none
    → IsFresh (partner_row rq s) db
    → is_refused (accept_suggestion pk rq db).0 ≡ false
    → (accept_suggestion pk rq db).1.collaborations ≡ (
        if stays i (partner_row rq s) db
        then db.collaborations ++ partner_row rq s ∷ []
        else db.collaborations)
accept_suggestion_lem pk rq db {s} {i} hs hi hp hf h =
    collaborations-accept pk rq db hs hi hp hf h
    ∙ create_collaboration_lem rq i (invited_row rq s) db hf
