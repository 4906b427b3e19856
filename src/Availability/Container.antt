-- ===== src/Availability/Container.antt =====
-- Which container is opened for an element, and by which action: `pickContainer`,
-- `extractLocatorTexts` and `resolvePlanAction` of
-- src/application/services/element-availability-resolver.service.ts.
use qa_agent.Prelude.{
  String, List, [], ◌∷◌, ◌++◌, Option, none, some, Text, codes, has_part, any, str_eq,
  if◌then◌else◌,
}
use qa_agent.Domain.Action.{Locator, Locators, QaAction, ActionBody}
use qa_agent.Domain.Plan.{PlanAction, PlanActionBody, PlanCondition}

pub record SemanticContainerDescriptor : Type 0 where
  pub semantic_key : String
  pub open_action : PlanAction
  pub expected_state : Option PlanCondition

-- The texts that a locator names, the candidates of a semantic locator included.
mutual
  pub extract_locator_texts : Locator → List String
  extract_locator_texts (Locator.text_any texts exact) = texts
  extract_locator_texts (Locator.label s exact) = s ∷ []
  extract_locator_texts (Locator.placeholder s exact) = s ∷ []
  extract_locator_texts (Locator.text s exact) = s ∷ []
  extract_locator_texts (Locator.role r (some name) exact) = name ∷ []
  extract_locator_texts (Locator.semantic key intent candidates confidence) =
      key ∷ intent ∷ candidate_texts candidates
  extract_locator_texts _ = []

  candidate_texts : Locators → List String
  candidate_texts Locators.no_more = []
  candidate_texts (Locators.candidate l ls) = extract_locator_texts l ++ candidate_texts ls

-- The keywords of a target with the keys of the containers that may hold it.
abbrev keyword_mappings : List (List String × List String)
keyword_mappings =
    (
      "sair" ∷ "logout" ∷ "sign out" ∷ "deslogar" ∷ [],
      "account_menu" ∷ "user_menu" ∷ "profile_menu" ∷ [],
    )
    ∷ (
      "tema" ∷ "theme" ∷ "aparência" ∷ "appearance" ∷ [],
      "settings_menu" ∷ "theme_menu" ∷ "appearance_menu" ∷ [],
    )
    ∷ (
      "conta" ∷ "account" ∷ "perfil" ∷ "profile" ∷ [],
      "account_menu" ∷ "user_menu" ∷ "profile_menu" ∷ [],
    )
    ∷ ("menu" ∷ "opções" ∷ "options" ∷ [], "main_menu" ∷ "options_menu" ∷ [])
    ∷ []

first_of : List String → List SemanticContainerDescriptor → Option SemanticContainerDescriptor
first_of keys [] = none
first_of keys (c ∷ containers) =
    let rest = first_of keys containers in
    if any (λ k. str_eq k c.semantic_key) keys then some c else rest

first_container : List SemanticContainerDescriptor → Option SemanticContainerDescriptor
first_container [] = none
first_container (c ∷ containers) = some c

-- The first mapping that the texts match and that has a container.
pick_mapped :
    List Text
    → List (List String × List String)
    → List SemanticContainerDescriptor
    → Option SemanticContainerDescriptor
unfolding first_of first_container
pick_mapped texts [] containers = first_container containers
pick_mapped texts ((keywords, keys) ∷ mappings) containers =
    let rest = pick_mapped texts mappings containers in
    if any (λ t. any (λ k. has_part (codes k) t) keywords) texts
    then elim (first_of keys containers) [ none ↦ rest | some c ↦ some c ]
    else rest

lowered : (String → Text) → List String → List Text
lowered lower [] = []
lowered lower (s ∷ texts) = lower s ∷ lowered lower texts

-- With `toLowerCase` given, since it folds more than ASCII letters.
unfoldable pub pick_container :
    (String → Text)
    → Locator
    → List SemanticContainerDescriptor
    → Option SemanticContainerDescriptor
unfolding pick_mapped lowered
pick_container lower target containers =
    pick_mapped (lowered lower (extract_locator_texts target)) keyword_mappings containers

-- An action on the element that is found.
on_element : Option String → (String → ActionBody) → Option ActionBody
on_element none f = none
on_element (some id) f = some (f id)

-- The body of the resolved action; of the actions with a target only five kinds are resolved, and an
-- action without one is taken as it is.
resolve_body : (Locator → Option String) → PlanActionBody → Option ActionBody
unfolding on_element
resolve_body find (PlanActionBody.click target) = on_element (find target) ActionBody.click
resolve_body find (PlanActionBody.fill target value) =
    on_element (find target) (λ id. ActionBody.fill id value)
resolve_body find (PlanActionBody.select_option target option) =
    on_element (find target) (λ id. ActionBody.select_option id option)
resolve_body find (PlanActionBody.press key (some target)) =
    on_element (find target) (λ id. ActionBody.press key (some id))
resolve_body find (PlanActionBody.assert_visible (some target) text) =
    on_element (find target) (λ id. ActionBody.assert_visible (some id) text)
resolve_body find (PlanActionBody.drag source target) = none
resolve_body find (PlanActionBody.upload_file target path) = none
resolve_body find (PlanActionBody.type_text (some target) text ms) = none
resolve_body find (PlanActionBody.rich_text_fill target value) = none
resolve_body find (PlanActionBody.extract target key source) = none
resolve_body find (PlanActionBody.press key none) = some (ActionBody.press key none)
resolve_body find (PlanActionBody.assert_visible none text) =
    some (ActionBody.assert_visible none text)
resolve_body find (PlanActionBody.type_text none text ms) = some (ActionBody.type_text none text ms)
resolve_body find PlanActionBody.click_outside = some ActionBody.click_outside
resolve_body find (PlanActionBody.click_at_coordinates x y) =
    some (ActionBody.click_at_coordinates x y)
resolve_body find (PlanActionBody.wait_for_stable ms) = some (ActionBody.wait_for_stable ms)
resolve_body find (PlanActionBody.navigate to) = some (ActionBody.navigate to)
resolve_body find (PlanActionBody.wait_for_condition text ms) =
    some (ActionBody.wait_for_condition text ms)
resolve_body find (PlanActionBody.compare_screenshot path threshold) =
    some (ActionBody.compare_screenshot path threshold)
resolve_body find PlanActionBody.audit_accessibility = some ActionBody.audit_accessibility
resolve_body find (PlanActionBody.accept_dialog text) = some (ActionBody.accept_dialog text)
resolve_body find PlanActionBody.dismiss_dialog = some ActionBody.dismiss_dialog
resolve_body find PlanActionBody.abort_scenario = some ActionBody.abort_scenario

unfoldable pub resolve_plan_action : (Locator → Option String) → PlanAction → Option QaAction
unfolding resolve_body
resolve_plan_action find action = elim (resolve_body find action.body) [
  | none ↦ none
  | some body ↦ some (record { body = body; reason = action.reason })
]
