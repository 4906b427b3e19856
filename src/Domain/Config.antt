-- ===== src/Domain/Config.antt =====
-- The fields of src/domain/schemas/config.schema.ts that the modelled components read.
use qa_agent.Prelude.{ℕ, String, Bool, List, Option}
use qa_agent.Domain.Plan.{DestructiveActionPolicy}

pub record Classifier : Type 0 where
  pub known_tracking_domains : List String
  pub known_third_party_domains : List String
  pub treat_third_party_network_5xx_as_bug : Bool

pub record RunConfig : Type 0 where
  pub allowed_routes : Option (List String)
  pub app_domains : List String
  pub destructive_action_policy : DestructiveActionPolicy
  pub element_availability : Bool
  pub quiescence_ms : ℕ
  pub max_fallbacks_per_step : ℕ
  pub max_emergency_actions_per_scenario : ℕ
  pub classifier : Classifier
