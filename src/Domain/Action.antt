-- ===== src/Domain/Action.antt =====
-- src/domain/schemas/action.schema.ts: locators, actions and bound expectations.
use native.Mathlib.Decide.{ℕ_discrete}
use mathlib.Core.Logic.{ite}
use qa_agent.Prelude.{
  ℕ, String, Bool, true, false, List, Option, none, ◌≡◌, refl, inl, inr, arith, str_eq, eq_iff,
  Bool-cases,
}

-- `LocatorDescriptorSchema`; the candidates of a semantic locator are a list of locators.
mutual
  pub data Locator : Type 0 where
    role : String → Option String → Option Bool → Locator
    label placeholder text : String → Option Bool → Locator
    text_any : List String → Option Bool → Locator
    testid : String → Locator
    document : Locator
    semantic : String → String → Locators → Option ℕ → Locator
    index : Locator → ℕ → Locator

  pub data Locators : Type 0 where
    no_more : Locators
    candidate : Locator → Locators → Locators

pub data Key : Type 0 where
  escape enter tab backspace arrow_up arrow_down arrow_left arrow_right : Key

pub data Choice : Type 0 where
  by_label by_value : String → Choice
  by_index : ℕ → Choice

pub data Source : Type 0 where
  from_text from_value : Source

pub data Matching : Type 0 where
  equals contains regex : Matching

-- `QaActionSchema`, without the reason, which stands in the record below. Element ids are texts.
pub data ActionBody : Type 0 where
  click : String → ActionBody
  fill : String → String → ActionBody
  select_option : String → Choice → ActionBody
  press : Key → Option String → ActionBody
  click_outside : ActionBody
  click_at_coordinates : ℕ → ℕ → ActionBody
  wait_for_stable : Option ℕ → ActionBody
  navigate : String → ActionBody
  drag : String → String → ActionBody
  upload_file : String → String → ActionBody
  wait_for_condition : String → Option ℕ → ActionBody
  compare_screenshot : String → Option ℕ → ActionBody
  audit_accessibility : ActionBody
  accept_dialog : Option String → ActionBody
  dismiss_dialog : ActionBody
  type_text : Option String → String → Option ℕ → ActionBody
  rich_text_fill : String → String → ActionBody
  extract : String → String → Source → ActionBody
  assert_visible : Option String → Option String → ActionBody
  assert_text : String → String → Matching → ActionBody
  abort_scenario : ActionBody

pub record QaAction : Type 0 where
  pub body : ActionBody
  pub reason : String

-- The `type` tag of an action.
abbrev pub action_type : ActionBody → String
action_type (click _) = "click"
action_type (fill _ _) = "fill"
action_type (select_option _ _) = "select"
action_type (press _ _) = "press"
action_type click_outside = "clickOutside"
action_type (click_at_coordinates _ _) = "clickAtCoordinates"
action_type (wait_for_stable _) = "waitForStable"
action_type (navigate _) = "navigate"
action_type (drag _ _) = "drag"
action_type (upload_file _ _) = "uploadFile"
action_type (wait_for_condition _ _) = "waitForCondition"
action_type (compare_screenshot _ _) = "compareScreenshot"
action_type audit_accessibility = "auditAccessibility"
action_type (accept_dialog _) = "acceptDialog"
action_type dismiss_dialog = "dismissDialog"
action_type (type_text _ _ _) = "typeText"
action_type (rich_text_fill _ _) = "richTextFill"
action_type (extract _ _ _) = "extract"
action_type (assert_visible _ _) = "assertVisible"
action_type (assert_text _ _ _) = "assertText"
action_type abort_scenario = "abortScenario"

unfoldable String-discrete : Discrete String
String-discrete s t = elim (Bool-cases (str_eq s t)) [
  | inl e ↦ yes ((eq_iff s t).0 e)
  | inr e ↦ no (λ p. ground (arith, (eq_iff s t).1 p))
]

Choice-discrete : Discrete Choice
unfolding String-discrete
Choice-discrete = hlevel (ℕ_discrete, String-discrete)

-- Two actions are the same but for their reasons.
unfoldable pub ActionBody-discrete : Discrete ActionBody
unfolding String-discrete Choice-discrete ℕ_discrete
ActionBody-discrete = hlevel (ℕ_discrete, String-discrete, Choice-discrete)

same_example : ite (ActionBody-discrete (press escape none) (press escape none)) true false ≡ true
unfolding ActionBody-discrete
same_example = refl
