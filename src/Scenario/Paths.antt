-- ===== src/Scenario/Paths.antt =====
-- Routes of a shop.
use qa_agent.Prelude.{
  codes, map, List, [], ◌∷◌, some, none, ◌≡◌, refl, true, false, ◌↔◌, all, has_prefix,
}
use qa_agent.Routes.{
  slash, cut_at, forward_slash, ensure_leading_slash, drop_last, remove_trailing_slash,
  normalize_route, match_normalized, route_matches,
}
unfoldable use qa_agent.Prelude.{trim_text}
use qa_agent.Routes.Normal.{is_plain, normalize_route-is_plain}
use qa_agent.Routes.Nesting.{Under, route_matches_iff}
use qa_agent.Select.{
  ScenarioCatalogItem, select_by_property, matches_any, normalized_values, select_by_route,
  select_items, select_matching, not_empty,
}

route_matches_example :
    route_matches (codes "checkout/?step=1") (codes "/checkout/payment#top") ≡ true
unfolding route_matches match_normalized normalize_route remove_trailing_slash ensure_leading_slash
    cut_at trim_text forward_slash drop_last
route_matches_example = refl

-- The root matches itself only.
root_example : route_matches (codes "/") (codes "/login") ≡ false
unfolding route_matches match_normalized normalize_route remove_trailing_slash ensure_leading_slash
    cut_at trim_text forward_slash drop_last
root_example = refl

normalize_route-is_plain_example :
    (has_prefix slash (normalize_route (codes "cart\\items/?page=2")) ≡ true)
    × (all is_plain (normalize_route (codes "cart\\items/?page=2")) ≡ true)
normalize_route-is_plain_example = normalize_route-is_plain (codes "cart\\items/?page=2")

route_matches_iff_example :
    (route_matches (codes "checkout/") (codes "/checkout/payment") ≡ true)
    ↔ Under (normalize_route (codes "checkout/")) (normalize_route (codes "/checkout/payment"))
route_matches_iff_example = route_matches_iff (codes "checkout/") (codes "/checkout/payment")

abbrev catalog : List ScenarioCatalogItem
catalog =
    record { id = "pay"; route = some (codes "/checkout/payment"); component = none }
    ∷ record { id = "pay"; route = some (codes "/checkout"); component = none }
    ∷ record { id = "home"; route = some (codes "/"); component = none }
    ∷ []

select_by_route_example :
    map (λ i. i.id) (select_by_route (codes "checkout/" ∷ []) catalog) ≡ "pay" ∷ []
unfolding select_by_route select_by_property select_matching select_items matches_any
    normalized_values not_empty route_matches match_normalized normalize_route remove_trailing_slash
    ensure_leading_slash cut_at trim_text forward_slash drop_last
select_by_route_example = refl
