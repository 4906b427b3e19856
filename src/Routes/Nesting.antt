-- ===== src/Routes/Nesting.antt =====
-- When the matcher puts a route under another one.
use qa_agent.Prelude.{
  ◌≡◌, refl, sym, subst, ◌∙◌, true, false, [], ◌∷◌, ◌++◌, append_assoc, Text, text_eq, text_eq_iff,
  has_prefix, arith, ◌⊎◌, inl, inr, ◌↔◌, Bool-cases, prefix_rest, has_prefix-append,
}
use qa_agent.Routes.{slash, normalize_route, match_normalized, route_matches}
use qa_agent.Routes.Normal.{normalize_route-is_plain}

-- One normalized route is the other, or it lies behind the other and a slash.
unfoldable pub Under : Text → Text → Type 0
Under a s = (s ≡ a) ⊎ ((rest : Text) × (s ≡ a ++ (slash ++ rest)))

not_empty : (s : Text) → has_prefix slash s ≡ true → text_eq s [] ≡ false
not_empty [] h = absurd (ground (arith, h))
not_empty (c ∷ s) h = refl

matched :
    (a s : Text)
    → text_eq a [] ≡ false
    → text_eq s [] ≡ false
    → match_normalized a s ≡ true
    → Under a s
unfolding match_normalized Under
matched a s here there h = elim (Bool-cases (text_eq s a)) [
  | inl e ↦ inl ((text_eq_iff s a).0 e)
  | inr n ↦
      let (t, e) = prefix_rest (a ++ slash) s (ground (arith, here, there, n, h)) in
      inr (t, e ∙ append_assoc a slash t)
]

found :
    (a s : Text)
    → text_eq a [] ≡ false
    → text_eq s [] ≡ false
    → Under a s
    → match_normalized a s ≡ true
unfolding match_normalized Under
found a s here there (inl e) = ground (arith, here, there, (text_eq_iff s a).1 e)
found a s here there (inr (t, e)) =
    let h : has_prefix (a ++ slash) s ≡ true =
      subst (λ z. has_prefix (a ++ slash) z ≡ true) (sym (e ∙ sym (append_assoc a slash t)))
        (has_prefix-append (a ++ slash) t) in
    ground (arith, here, there, h)

-- A scenario matches an affected route exactly if its normalized route is the affected one, or that
-- one with a slash and any text behind it.
pub route_matches_iff :
    (affected scenario : Text)
    → (route_matches affected scenario ≡ true)
      ↔ Under (normalize_route affected) (normalize_route scenario)
unfolding route_matches match_normalized
route_matches_iff affected scenario =
    let a = normalize_route affected in
    let s = normalize_route scenario in
    let here = not_empty a (normalize_route-is_plain affected).0 in
    let there = not_empty s (normalize_route-is_plain scenario).0 in
    ((λ h. matched a s here there h), (λ u. found a s here there u))
