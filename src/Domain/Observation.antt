-- ===== src/Domain/Observation.antt =====
-- The fields of src/domain/schemas/observation.schema.ts that the modelled components read, and the
-- bound expectations of action.schema.ts.
use qa_agent.Prelude.{ℕ, String, Bool, List, Option}
use qa_agent.Domain.Action.{Locator}

pub record ObservableElement : Type 0 where
  pub role : String
  pub name : String
  pub text : Option String
  pub in_viewport : Bool
  pub expanded : Option Bool

pub record NetworkSignal : Type 0 where
  pub method : String
  pub url : String
  pub status : ℕ
  pub failure : Option String
  pub is_app_origin : Bool

pub record ScreenObservation : Type 0 where
  pub observation_id : String
  pub url : String
  pub title : String
  pub visible_texts : List String
  pub elements : List ObservableElement
  pub network_signals : List NetworkSignal

pub record BoundTarget : Type 0 where
  pub original_element_id : String
  pub observation_id : String
  pub locator : Locator
  pub human_name : Option String

pub data BoundExpected : Type 0 where
  field_value_contains : BoundTarget → String → BoundExpected
  element_visible : Option BoundTarget → Option String → BoundExpected
  text_visible : String → BoundExpected
  url_contains : String → BoundExpected
  no_console_errors : BoundExpected
