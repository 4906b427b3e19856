-- ===== src/Select.antt =====
-- src/application/services/scenario-selectors/select-by-property.helper.ts with its two users, and
-- src/domain/helpers/component-matcher.ts.
pub mod Chosen
use qa_agent.Prelude.{
  ℕ, String, Bool, true, false, not, ◌||◌, ◌&&◌, List, [], ◌∷◌, map, Option, none, some, Text,
  text_eq, any, select, str_eq, ◌==◌, if◌then◌else◌,
}
unfoldable use qa_agent.Prelude.{trim_text}
use qa_agent.Routes.{normalize_route, route_matches}

pub record ScenarioCatalogItem : Type 0 where
  pub id : String
  pub route : Option Text
  pub component : Option Text

unfoldable pub not_empty : Text → Bool
not_empty t = not (text_eq t [])

module _ (normalize : Text → Text) (matches : Text → Text → Bool) where
  -- Whether the normalized property of an item matches one of the normalized values.
  unfoldable pub matches_any : List Text → Option Text → Bool
  unfolding not_empty
  matches_any affected none = false
  matches_any affected (some raw) =
      not_empty raw && not_empty (normalize raw) && any (λ a. matches a (normalize raw)) affected

-- The values that are left after their normalization.
unfoldable pub normalized_values : (Text → Text) → List Text → List Text
unfolding not_empty
normalized_values normalize values = select not_empty (map normalize values)

-- The loop over the items, with the ids that were seen.
unfoldable pub select_items :
    (ScenarioCatalogItem → Bool) → List String → List ScenarioCatalogItem → List ScenarioCatalogItem
select_items matched seen [] = []
select_items matched seen (i ∷ items) = elim (matched i && not (any (str_eq i.id) seen)) [
  | true ↦ i ∷ select_items matched (i.id ∷ seen) items
  | false ↦ select_items matched seen items
]

-- The selection for normalized values.
unfoldable pub select_matching :
    (List Text → ScenarioCatalogItem → Bool)
    → List Text
    → List ScenarioCatalogItem
    → List ScenarioCatalogItem
select_matching matched [] items = []
select_matching matched (a ∷ affected) items = select_items (matched (a ∷ affected)) [] items

unfoldable pub select_by_property :
    (ScenarioCatalogItem → Option Text)
    → (Text → Text)
    → (Text → Text → Bool)
    → List Text
    → List ScenarioCatalogItem
    → List ScenarioCatalogItem
select_by_property property normalize matches values items = elim values [
  | [] ↦ []
  | v ∷ more ↦
      select_matching (λ affected i. matches_any normalize matches affected (property i))
        (normalized_values normalize (v ∷ more)) items
]

unfoldable pub select_by_route : List Text → List ScenarioCatalogItem → List ScenarioCatalogItem
select_by_route = select_by_property (λ i. i.route) normalize_route route_matches

module _ (lower : Text → Text) where
  unfoldable pub normalize_component_name : Text → Text
  normalize_component_name name =
      trim_text (select (λ c. not (c == b'-' || c == b'_' || c == b'.')) (lower name))

  unfoldable pub component_matches : Text → Text → Bool
  component_matches affected scenario =
      let a = normalize_component_name affected in
      let s = normalize_component_name scenario in
      if text_eq a [] || text_eq s [] then false else text_eq s a

  unfoldable pub select_by_component :
      List Text → List ScenarioCatalogItem → List ScenarioCatalogItem
  select_by_component =
      select_by_property (λ i. i.component) normalize_component_name component_matches
