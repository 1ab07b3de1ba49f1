-- ===== src/Impact/Totals.antt =====
-- The figures of ImpactView for an organisation and for the platform: sums over the analyses.
use mapapi.Prelude.{ℕ, ◌+◌, Bool, ◌&&◌, Option, List, [], ◌∷◌, refers, given}
use mapapi.Orm.{exists, filter, length}
use mapapi.Models.{Incident}
use mapapi.Predictions.{PredictionStatus, is_completed}

-- INFRA_TYPES
pub data InfraType : Type 0 where
  schools health_centers water_points markets : InfraType
  maternities nurseries main_roads_bridges residential_buildings : InfraType

abbrev pub infra_types : List InfraType
infra_types =
    schools ∷ health_centers ∷ water_points ∷ markets ∷ maternities ∷ nurseries ∷ main_roads_bridges
    ∷ residential_buildings ∷ []

-- the four sums of people
pub data Group : Type 0 where
  total men women children : Group

-- What the view reads of a Prediction. The columns are never null; the entries of
-- `indirect_human_impact` and `indirect_social_data` may be missing, and are natural numbers here: the
-- view adds what the service sent and truncates each sum with `int()`. The area is left out.
pub record Analysis : Type 0 where
  pub incident : Option ℕ
  pub status : PredictionStatus
  pub people : Group → ℕ
  pub indirect_people : Group → Option ℕ
  pub infra : InfraType → ℕ
  pub indirect_infra : InfraType → Option ℕ

abbrev pub sum {ℓ} : {A : Type ℓ} → (A → ℕ) → List A → ℕ
sum f [] = 0
sum f (x ∷ xs) = f x + sum f xs

-- `incident_id in scope_ids`
abbrev pub in_scope : List Incident → Analysis → Bool
in_scope scope a = exists (λ i. refers a.incident i.id) scope

abbrev pub completed_in : List Incident → Analysis → Bool
completed_in scope a = is_completed a.status && in_scope scope a

pub record Figures : Type 0 where
  pub incidents_in_scope : ℕ
  pub incidents_with_prediction : ℕ
  pub direct : Group → ℕ
  pub indirect : Group → ℕ
  pub by_type : InfraType → ℕ
  pub indirect_by_type : InfraType → ℕ
  -- `infrastructure_protected.total`
  pub protected : ℕ

-- the sections that are common to the platform and an organisation
unfoldable pub figures : List Incident → List Analysis → Figures
figures scope analyses =
    let preds : List Analysis = filter (completed_in scope) analyses in
    record {
      incidents_in_scope = length scope;
      incidents_with_prediction = length preds;
      direct = λ g. sum (λ a. a.people g) preds;
      indirect = λ g. sum (λ a. given (a.indirect_people g) 0) preds;
      by_type = λ t. sum (λ a. a.infra t) preds;
      indirect_by_type = λ t. sum (λ a. given (a.indirect_infra t) 0) preds;
      protected = sum (λ t. sum (λ a. a.infra t) preds) infra_types;
    }
