-- ===== src/Scenario/Changes.antt =====
-- A change of pages of a shop.
use qa_agent.Prelude.{◌≡◌, refl, Text, List, [], ◌∷◌, some, codes}
use qa_agent.GitDiff.ChangedFiles.{ChangedFileStatus, is_dot}
use qa_agent.GitDiff.Kinds.{
  ChangedFileKind, KindedFile, classify_changed_file_kind, is_test_path, is_schema_path,
  is_route_path, is_docs_path, has_app_file, is_app_file, normalize_path, forward_slashes,
  drop_slashes, before_script, script_name, without_suffix,
}
use qa_agent.GitDiff.Affected.{
  first_match, segment_here, group_of, app_here, app_segment, to_route_path, split_slash,
  strip_extension, is_group, slashed, drop_route_file, basename, remove_technical_suffixes,
  remove_extension, before_dot, extract_route, extract_schema, extract_component,
  detect_affected_routes, detect_affected_schemas, detect_affected_components,
}
use qa_agent.GitDiff.Affected.Segments.{IsRoutePath, extract_route-IsRoutePath}
use qa_agent.GitDiff.Affected.Members.{
  Listed, RouteFrom, SchemaFrom, ComponentFrom, detect_affected_iff,
}
use qa_agent.Prelude.{Exists, ◌↔◌}

abbrev changed : Text → KindedFile
changed path = record {
  file = record {
    path = path;
    status = ChangedFileStatus.modified;
    positive_lines = [];
    negative_lines = [];
    context_lines = [];
  };
  kind = classify_changed_file_kind path;
}

abbrev shop_files : List KindedFile
shop_files =
    changed (codes "src/app/(shop)/cart/page.tsx")
    ∷ changed (codes "src/domain/schemas/order.schema.ts")
    ∷ changed (codes "src/pages/cart/index.tsx")
    ∷ []

detect_affected_iff_example :
    (Listed (codes "/cart") (detect_affected_routes (λ names. names) shop_files)
      ↔ Exists (RouteFrom (codes "/cart")) shop_files)
    × (Listed (codes "/cart") (detect_affected_schemas (λ names. names) shop_files)
        ↔ Exists (SchemaFrom (codes "/cart")) shop_files)
    × (Listed (codes "/cart") (detect_affected_components (λ names. names) (λ t. t) shop_files)
        ↔ Exists (ComponentFrom (λ t. t) (codes "/cart")) shop_files)
detect_affected_iff_example =
    detect_affected_iff (λ names. names) (λ t. t) (λ p names. refl) (codes "/cart") shop_files

app_kind_example :
    classify_changed_file_kind (codes "src/app/(shop)/cart/page.tsx") ≡ ChangedFileKind.route
unfolding classify_changed_file_kind is_test_path is_schema_path is_route_path is_docs_path
    has_app_file is_app_file is_dot normalize_path forward_slashes drop_slashes before_script
    script_name without_suffix
app_kind_example = refl

cart_route_example : extract_route (codes "src/app/(shop)/cart/page.tsx") ≡ some (codes "/cart")
unfolding extract_route first_match segment_here group_of is_dot app_here app_segment to_route_path
    split_slash strip_extension is_group slashed drop_route_file normalize_path forward_slashes
    drop_slashes before_script script_name without_suffix
cart_route_example = refl

pages_route_example : extract_route (codes "src/pages/cart/index.tsx") ≡ some (codes "/cart")
unfolding extract_route first_match segment_here group_of is_dot app_here app_segment to_route_path
    split_slash strip_extension is_group slashed drop_route_file normalize_path forward_slashes
    drop_slashes before_script script_name without_suffix
pages_route_example = refl

schema_example : extract_schema (codes "src/domain/schemas/order.schema.ts") ≡ some (codes "order")
unfolding extract_schema basename split_slash strip_extension without_suffix normalize_path
    forward_slashes drop_slashes
schema_example = refl

component_example : extract_component (λ t. t) (codes "src/ui/Cart.test.tsx") ≡ some (codes "Cart")
unfolding extract_component remove_technical_suffixes remove_extension before_dot basename
    split_slash without_suffix forward_slashes
component_example = refl

extract_route-IsRoutePath_example : IsRoutePath (codes "/cart")
extract_route-IsRoutePath_example =
    extract_route-IsRoutePath (codes "src/pages/cart/index.tsx") (codes "/cart") pages_route_example
