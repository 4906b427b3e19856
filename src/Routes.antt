-- ===== src/Routes.antt =====
-- src/domain/helpers/route-matcher.ts: whether the route of a scenario lies under an affected one.
pub mod Normal
pub mod Nesting
use qa_agent.Prelude.{
  ◌≡◌, refl, ℕ, String, Bool, true, false, not, ◌||◌, ◌&&◌, List, [], ◌∷◌, ◌++◌, map, Text, codes,
  text_eq, has_prefix, has_suffix, ◌==◌, if◌then◌else◌,
}
unfoldable use qa_agent.Prelude.{trim_text}

abbrev pub slash : Text
slash = b'/' ∷ []

-- `s.slice(0, s.indexOf(c))`, and `s` itself where there is no `c`.
unfoldable pub cut_at : ℕ → Text → Text
cut_at c [] = []
cut_at c (d ∷ s) = if d == c then [] else d ∷ cut_at c s

-- A character of `s.replace(/\\/g, '/')`.
unfoldable pub forward_slash : ℕ → ℕ
forward_slash c = if c == b'\\' then b'/' else c

unfoldable pub ensure_leading_slash : Text → Text
ensure_leading_slash s = if has_prefix slash s then s else b'/' ∷ s

-- `s.slice(0, -1)`
unfoldable pub drop_last : Text → Text
drop_last [] = []
drop_last (c ∷ []) = []
drop_last (c ∷ d ∷ s) = c ∷ drop_last (d ∷ s)

unfoldable pub remove_trailing_slash : Text → Text
remove_trailing_slash s = if not (text_eq s slash) && has_suffix slash s then drop_last s else s

unfoldable pub normalize_route : Text → Text
normalize_route route =
    remove_trailing_slash
      (ensure_leading_slash (map forward_slash (cut_at b'#' (cut_at b'?' (trim_text route)))))

-- The test on the normalized routes.
unfoldable pub match_normalized : Text → Text → Bool
match_normalized a s =
    if text_eq a [] || text_eq s []
    then false
    else if text_eq s a
    then true
    else has_prefix (a ++ slash) s

unfoldable pub route_matches : Text → Text → Bool
route_matches affected scenario =
    match_normalized (normalize_route affected) (normalize_route scenario)
