-- ===== src/Plan/Schema.antt =====
-- The value constraints of src/domain/schemas/execution-plan.schema.ts and action.schema.ts. The
-- shapes are those of the types; these are the lengths, ranges, enumerations and refinements.
use qa_agent.Prelude.{
  ℕ, String, Bool, true, false, not, ◌&&◌, ◌||◌, List, [], ◌∷◌, Option, none, some, Text, codes,
  str_eq, ◌+◌, ◌≡◌, refl, leb, ltb, if◌then◌else◌, any, all, is_some, is_digit, is_word, is_space,
  has_prefix, after_prefix, starts_word,
}
use qa_agent.Domain.Action.{Locator, Locators}
use qa_agent.Domain.Plan.{
  PlanCondition, PlanAction, PlanActionBody, ExecutionStep, PlanPatch, ExecutionPlan,
  PatchOperation, Expected,
}

-- `z.string().min(1)`
abbrev pub non_empty : String → Bool
non_empty s = not (str_eq s "")

-- A constraint on an optional value.
abbrev pub optional {ℓ} : {A : Type ℓ} → (A → Bool) → Option A → Bool
optional p none = true
optional p (some a) = p a

-- `z.enum([…])`
abbrev one_of : List String → String → Bool
one_of names s = any (λ n. str_eq n s) names

-- The truth value of an optional text.
abbrev pub has_text : Option String → Bool
has_text none = false
has_text (some s) = non_empty s

abbrev pub is_empty {ℓ} : {A : Type ℓ} → List A → Bool
is_empty [] = true
is_empty (_ ∷ _) = false

-- Scores from 0 to 1 are counted in thousandths.
unfoldable mutual
  pub valid_locator : Locator → Bool
  valid_locator (Locator.text_any texts exact) = not (is_empty texts) && all non_empty texts
  valid_locator (Locator.semantic key intent candidates confidence) =
      non_empty key
      && non_empty intent
      && some_candidate candidates
      && optional (λ c. leb c 1000) confidence
  valid_locator (Locator.index target n) = valid_locator target
  valid_locator _ = true

  some_candidate : Locators → Bool
  some_candidate Locators.no_more = false
  some_candidate (Locators.candidate l ls) = valid_locator l && valid_rest ls

  valid_rest : Locators → Bool
  valid_rest Locators.no_more = true
  valid_rest (Locators.candidate l ls) = valid_locator l && valid_rest ls

abbrev status_in_range : ℕ → Bool
status_in_range n = leb 100 n && leb n 599

abbrev not_number : Expected → Bool
not_number (Expected.number _) = false
not_number _ = true

-- `PlanConditionSchema`
unfoldable pub valid_condition : PlanCondition → Bool
valid_condition (PlanCondition.field_value_contains target value) = valid_locator target
valid_condition (PlanCondition.element_visible target text) =
    optional valid_locator target && (is_some target || has_text text)
valid_condition (PlanCondition.text_any_visible texts) = not (is_empty texts) && all non_empty texts
valid_condition (PlanCondition.ui_state key expected) = non_empty key
valid_condition (PlanCondition.auth_state expected) =
    one_of ("authenticated" ∷ "anonymous" ∷ "changed" ∷ []) expected
valid_condition (PlanCondition.menu_state key expected) =
    non_empty key && one_of ("open" ∷ "closed" ∷ "changed" ∷ []) expected
valid_condition (PlanCondition.route_state expected url pattern) =
    one_of ("changed" ∷ "same" ∷ "matches" ∷ []) expected
valid_condition (PlanCondition.attribute_state target attribute expected) =
    valid_locator target && non_empty attribute && not_number expected
valid_condition (PlanCondition.storage_state storage key expected) =
    one_of ("localStorage" ∷ "sessionStorage" ∷ []) storage && non_empty key && not_number expected
valid_condition (PlanCondition.network_state net) =
    optional status_in_range net.min_status && optional status_in_range net.max_status
valid_condition _ = true

-- `z.number().int().positive().max(n)`
abbrev positive_up_to : ℕ → ℕ → Bool
positive_up_to n k = ltb 0 k && leb k n

-- `s.length`: a code point above 0xffff is two units.
abbrev utf16_length : Text → ℕ
utf16_length [] = 0
utf16_length (c ∷ s) = (if ltb 0xffff c then 2 else 1) + utf16_length s

-- The cases of `PlanActionSchema`.
unfoldable pub valid_body : String → PlanActionBody → Bool
valid_body reason (PlanActionBody.click target) = valid_locator target
valid_body reason (PlanActionBody.fill target value) = valid_locator target
valid_body reason (PlanActionBody.select_option target option) = valid_locator target
valid_body reason (PlanActionBody.press key target) = optional valid_locator target
valid_body reason (PlanActionBody.click_at_coordinates x y) = leb 10 (utf16_length (codes reason))
valid_body reason (PlanActionBody.wait_for_stable ms) = optional (positive_up_to 10000) ms
valid_body reason (PlanActionBody.drag source target) = valid_locator source && valid_locator target
valid_body reason (PlanActionBody.upload_file target path) = valid_locator target && non_empty path
valid_body reason (PlanActionBody.wait_for_condition text ms) =
    non_empty text && optional (positive_up_to 30000) ms
valid_body reason (PlanActionBody.compare_screenshot path threshold) =
    non_empty path && optional (λ t. leb t 1000) threshold
valid_body reason (PlanActionBody.type_text target text ms) =
    optional valid_locator target && non_empty text && optional (λ n. ltb 0 n) ms
valid_body reason (PlanActionBody.rich_text_fill target value) = valid_locator target
valid_body reason (PlanActionBody.extract target key source) = valid_locator target && non_empty key
valid_body reason (PlanActionBody.assert_visible target text) =
    optional valid_locator target && (is_some target || has_text text)
valid_body reason PlanActionBody.abort_scenario = leb 10 (utf16_length (codes reason))
valid_body reason _ = true

-- `PlanActionSchema`: every reason has a character.
unfoldable pub valid_action : PlanAction → Bool
unfolding valid_body
valid_action a = non_empty a.reason && valid_body a.reason a.body

-- `ExecutionStepSchema`
unfoldable pub valid_step : ExecutionStep → Bool
unfolding valid_condition valid_action valid_locator
valid_step s =
    not (is_empty s.postconditions)
    && non_empty s.id
    && optional non_empty s.scenario_id
    && optional non_empty s.task_id
    && non_empty s.description
    && all valid_condition s.preconditions
    && valid_action s.action
    && all valid_condition s.postconditions
    && all valid_condition s.assertions
    && optional (λ n. ltb 0 n) s.max_attempts
    && optional valid_condition s.repeat_until
    && optional (positive_up_to 100) s.max_iterations

-- `/"targetElementId"\s*:/` and `/\bel_\d{3}\b/`, anywhere in a text.
skip_spaces : Text → Text
skip_spaces [] = []
skip_spaces (c ∷ s) = if is_space c then skip_spaces s else c ∷ s

colon_here : Option Text → Bool
unfolding skip_spaces
colon_here none = false
colon_here (some rest) = has_prefix (b':' ∷ []) (skip_spaces rest)

names_element_id : Text → Bool
unfolding colon_here
names_element_id [] = false
names_element_id (c ∷ s) =
    colon_here (after_prefix (codes "\"targetElementId\"") (c ∷ s)) || names_element_id s

element_id_here : Option Text → Bool
element_id_here (some (a ∷ b ∷ c ∷ rest)) =
    is_digit a && is_digit b && is_digit c && not (starts_word rest)
element_id_here _ = false

mentions_element : Bool → Text → Bool
unfolding element_id_here
mentions_element before [] = false
mentions_element before (c ∷ s) =
    (not before && element_id_here (after_prefix (codes "el_") (c ∷ s)))
    || mentions_element (is_word c) s

unfoldable pub has_ephemeral_id : Text → Bool
unfolding names_element_id mentions_element
has_ephemeral_id s = names_element_id s || mentions_element false s

ephemeral_examples :
    (has_ephemeral_id (codes "click el_012 now") ≡ true)
    × (has_ephemeral_id (codes "label_012 and el_0123") ≡ false)
unfolding has_ephemeral_id
ephemeral_examples = (refl, refl)

abbrev pub is_mark_blocked : PatchOperation → Bool
is_mark_blocked PatchOperation.mark_blocked = true
is_mark_blocked _ = false

-- `JSON.stringify` of a plan and of a patch.
pub record Stringify : Type 0 where
  pub plan : ExecutionPlan → Text
  pub patch : PlanPatch → Text

module _ (json : Stringify) where
  -- `PlanPatchSchema`
  unfoldable pub valid_patch : PlanPatch → Bool
  unfolding valid_step
  valid_patch p =
      (is_mark_blocked p.operation || has_text p.step_id && not (is_empty p.steps))
      && all valid_step p.steps
      && non_empty p.base_plan_id
      && optional non_empty p.step_id
      && non_empty p.reason
      && not (has_ephemeral_id (json.patch p))

  -- `ExecutionPlanSchema`
  unfoldable pub valid_plan : ExecutionPlan → Bool
  unfolding valid_step
  valid_plan p =
      not (is_empty p.steps)
      && all valid_step p.steps
      && non_empty p.plan_id
      && non_empty p.goal
      && ltb 0 p.runtime.max_attempts_per_step
      && all valid_condition p.assertions
      && not (has_ephemeral_id (json.plan p))
