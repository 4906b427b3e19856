-- ===== src/Routes/Normal.antt =====
-- What a normalized route looks like.
use qa_agent.Prelude.{
  all, ℕ, ◌≡◌, refl, true, [], ◌∷◌, map, Text, has_prefix, ◌==◌, arith, trim_text, Bool, not, ◌&&◌,
}
use qa_agent.Routes.{
  slash, cut_at, forward_slash, ensure_leading_slash, drop_last, remove_trailing_slash,
  normalize_route,
}

-- Neither a query, nor a fragment, nor a backslash.
abbrev pub is_plain : ℕ → Bool
is_plain c = not (c == b'?') && not (c == b'#') && not (c == b'\\')

clean : Text → Text
clean s = map forward_slash (cut_at b'#' (cut_at b'?' s))

clean-is_plain : (s : Text) → all is_plain (clean s) ≡ true
unfolding clean cut_at forward_slash
clean-is_plain [] = refl
clean-is_plain (d ∷ s) = ground (arith, clean-is_plain s)

drop_last-is_plain : (s : Text) → all is_plain s ≡ true → all is_plain (drop_last s) ≡ true
unfolding drop_last
drop_last-is_plain [] h = refl
drop_last-is_plain (c ∷ []) h = refl
drop_last-is_plain (c ∷ d ∷ s) h = ground (arith, h, drop_last-is_plain (d ∷ s))

ensure_leading_slash-is_plain :
    (s : Text) → all is_plain s ≡ true → all is_plain (ensure_leading_slash s) ≡ true
unfolding ensure_leading_slash
ensure_leading_slash-is_plain s h = ground (arith, h)

remove_trailing_slash-is_plain :
    (s : Text) → all is_plain s ≡ true → all is_plain (remove_trailing_slash s) ≡ true
unfolding remove_trailing_slash
remove_trailing_slash-is_plain s h = ground (arith, h, drop_last-is_plain s h)

ensure_leading_slash-has_prefix : (s : Text) → has_prefix slash (ensure_leading_slash s) ≡ true
unfolding ensure_leading_slash
ensure_leading_slash-has_prefix [] = refl
ensure_leading_slash-has_prefix (c ∷ s) = ground arith

remove_trailing_slash-has_prefix :
    (s : Text) → has_prefix slash s ≡ true → has_prefix slash (remove_trailing_slash s) ≡ true
unfolding remove_trailing_slash drop_last
remove_trailing_slash-has_prefix [] h = h
remove_trailing_slash-has_prefix (c ∷ []) h = ground (arith, h)
remove_trailing_slash-has_prefix (c ∷ d ∷ s) h = ground (arith, h)

-- Every normalized route begins with a slash and has neither a question mark, nor a hash, nor a
-- backslash.
pub normalize_route-is_plain :
    (route : Text)
    → (has_prefix slash (normalize_route route) ≡ true)
      × (all is_plain (normalize_route route) ≡ true)
unfolding normalize_route clean
normalize_route-is_plain route =
    let s = clean (trim_text route) in
    (
      remove_trailing_slash-has_prefix _ (ensure_leading_slash-has_prefix s),
      remove_trailing_slash-is_plain _
          (ensure_leading_slash-is_plain s (clean-is_plain (trim_text route))),
    )
