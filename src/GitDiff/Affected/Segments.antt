-- ===== src/GitDiff/Affected/Segments.antt =====
-- What the routes that are read from paths look like.
use qa_agent.Prelude.{
  ℕ, zero, suc, ◌-◌, ◌≡◌, refl, subst, Bool, true, not, ◌&&◌, ◌⊎◌, inl, inr, List, [], ◌∷◌, some,
  Text, codes, text_eq, all, select, last?, take, length, arith, ◌==◌, if◌then◌else◌, Bool-cases,
  Option-cases,
}
use qa_agent.GitDiff.Kinds.{normalize_path}
use qa_agent.GitDiff.Affected.{
  split_slash, strip_extension, is_group, slashed, drop_route_file, to_route_path, extract_route,
  first_match, segment_here, app_here,
}

abbrev no_slash : Text → Bool
no_slash t = all (λ c. not (c == b'/')) t

-- A segment of a route: neither empty nor a route group, and without a slash.
abbrev pub is_segment : Text → Bool
is_segment t = (no_slash t && not (text_eq t [])) && not (is_group t)

split_slash-no_slash : (s : Text) → all no_slash (split_slash s) ≡ true
unfolding split_slash
split_slash-no_slash [] = refl
split_slash-no_slash (c ∷ s) = ground (arith, split_slash-no_slash s)

all-select :
    (p q : Text → Bool) (ts : List Text)
    → all q ts ≡ true
    → all (λ t. q t && p t) (select p ts) ≡ true
all-select p q [] h = refl
all-select p q (t ∷ ts) h = ground (arith, h, all-select p q ts)

all-take : (p : Text → Bool) (n : ℕ) (ts : List Text) → all p ts ≡ true → all p (take n ts) ≡ true
all-take p zero ts h = refl
all-take p (suc n) [] h = refl
all-take p (suc n) (t ∷ ts) h = ground (arith, h, all-take p n ts)

all-drop_route_file :
    (p : Text → Bool) (ts : List Text) → all p ts ≡ true → all p (drop_route_file ts) ≡ true
unfolding drop_route_file
all-drop_route_file p ts h =
    ground (arith, h, all-take p (length ts - 1) ts h, Option-cases (last? ts))

-- The root, or a chain of segments, each behind a slash.
unfoldable pub IsRoutePath : Text → Type 0
IsRoutePath t = (t ≡ codes "/") ⊎ ((ts : List Text) × (all is_segment ts ≡ true) × (t ≡ slashed ts))

rooted-IsRoutePath :
    (ts : List Text)
    → all is_segment ts ≡ true
    → IsRoutePath (if text_eq (slashed ts) [] then codes "/" else slashed ts)
unfolding IsRoutePath
rooted-IsRoutePath ts h = elim (Bool-cases (text_eq (slashed ts) [])) [
  | inl e ↦ inl (rw e refl)
  | inr e ↦ inr (ts, h, rw e refl)
]

to_route_path-IsRoutePath : (s : Text) → IsRoutePath (to_route_path s)
unfolding to_route_path
to_route_path-IsRoutePath s =
    let all_segments = split_slash (strip_extension s) in
    let full =
      all-select (λ t. not (text_eq t [])) no_slash all_segments
        (split_slash-no_slash (strip_extension s)) in
    rooted-IsRoutePath _ (all-select (λ t. not (is_group t)) _ _ (all-drop_route_file _ _ full))

-- Every route that is read from a path is the root or a chain of segments, each behind a slash,
-- where no segment is empty, is a route group or has a slash in it.
pub extract_route-IsRoutePath : (path t : Text) → extract_route path ≡ some t → IsRoutePath t
unfolding extract_route
extract_route-IsRoutePath path t h =
    let s = normalize_path path in
    elim (Option-cases (first_match segment_here true s)) [
      | inr (u, e) ↦
          let same : to_route_path u ≡ t = ground (arith, e, h) in
          subst IsRoutePath same (to_route_path-IsRoutePath u)
      | inl e ↦ elim (Option-cases (first_match app_here true s)) [
        | inr (u, f) ↦
            let same : to_route_path u ≡ t = ground (arith, e, f, h) in
            subst IsRoutePath same (to_route_path-IsRoutePath u)
        | inl f ↦ absurd (ground (arith, e, f, h))
      ]
    ]
