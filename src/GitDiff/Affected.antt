-- ===== src/GitDiff/Affected.antt =====
-- src/infra/github/git-diff-affected-{routes,schemas,components}.detector.ts: what the changed files
-- of a diff affect.
pub mod Members
pub mod Segments
use qa_agent.Prelude.{
  ℕ, Bool, true, false, not, ◌&&◌, ◌||◌, List, [], ◌∷◌, ◌++◌, Option, none, some, is_some, Text,
  codes, text_eq, has_prefix, has_suffix, after_prefix, all, any, select, last?, take, length, ◌-◌,
  ltb, ◌==◌, if◌then◌else◌,
}
use qa_agent.GitDiff.ChangedFiles.{ChangedFile, is_dot}
use qa_agent.GitDiff.Kinds.{
  ChangedFileKind, KindedFile, forward_slashes, normalize_path, route_files, before_script,
  without_suffix,
}

-- `s.split('/')`
unfoldable pub split_slash : Text → List Text
split_slash [] = [] ∷ []
split_slash (c ∷ s) =
    let segments = split_slash s in
    if c == b'/'
    then [] ∷ segments
    else elim segments [ [] ↦ (c ∷ []) ∷ [] | t ∷ more ↦ (c ∷ t) ∷ more ]

-- `s.replace(/\.[^.]+$/, '')`
unfoldable pub strip_extension : Text → Text
strip_extension [] = []
strip_extension (c ∷ s) =
    let more = strip_extension s in
    if c == b'.' && not (text_eq s []) && all (λ d. not (d == b'.')) s then [] else c ∷ more

-- `(.+)$`
unfoldable pub group_of : Text → Option Text
group_of rest = if not (text_eq rest []) && all is_dot rest then some rest else none

-- `/(?:routes|pages)\/(.+)$/` at one position.
unfoldable pub segment_here : Text → Option Text
segment_here s = elim (after_prefix (codes "routes/") s) [
  | some rest ↦ group_of rest
  | none ↦ elim (after_prefix (codes "pages/") s) [ some rest ↦ group_of rest | none ↦ none ]
]

-- `/((?:.+\/)?(?:page|route|layout))\.(?:tsx?|jsx?)$/` behind `app/`, with its group.
unfoldable pub app_segment : Text → Option Text
app_segment rest = elim (before_script rest) [
  | none ↦ none
  | some name ↦
      let nested =
        λ (f : Text). has_suffix (b'/' ∷ f) name && ltb (length (b'/' ∷ f)) (length name) in
      if all is_dot name && any (λ f. text_eq f name || nested f) route_files
      then some name
      else none
]

unfoldable pub app_here : Text → Option Text
app_here s = elim (after_prefix (codes "app/") s) [ none ↦ none | some rest ↦ app_segment rest ]

-- The first match of `(?:^|\/)` with a pattern behind it; `start` tells whether one may begin here.
unfoldable pub first_match : (Text → Option Text) → Bool → Text → Option Text
first_match here start [] = none
first_match here start (c ∷ s) =
    let more = first_match here (c == b'/') s in
    elim (if start then here (c ∷ s) else none) [ some t ↦ some t | none ↦ more ]

-- `/^\(.+\)$/`
unfoldable pub is_group : Text → Bool
is_group s =
    has_prefix (codes "(") s && has_suffix (codes ")") s && ltb 2 (length s) && all is_dot s

-- `segments.join('/')` with a slash before each segment.
unfoldable pub slashed : List Text → Text
slashed [] = []
slashed (t ∷ more) = b'/' ∷ (t ++ slashed more)

unfoldable pub drop_route_file : List Text → List Text
drop_route_file segments = elim (last? segments) [
  | none ↦ segments
  | some t ↦
      if any (λ f. text_eq f t) (codes "index" ∷ route_files)
      then take (length segments - 1) segments
      else segments
]

unfoldable pub to_route_path : Text → Text
to_route_path segment =
    let segments = select (λ t. not (text_eq t [])) (split_slash (strip_extension segment)) in
    let collapsed = slashed (select (λ t. not (is_group t)) (drop_route_file segments)) in
    if text_eq collapsed [] then codes "/" else collapsed

unfoldable pub extract_route : Text → Option Text
extract_route path =
    let s = normalize_path path in
    elim (first_match segment_here true s) [
      | some t ↦ some (to_route_path t)
      | none ↦ elim (first_match app_here true s) [ some t ↦ some (to_route_path t) | none ↦ none ]
    ]

-- What stands behind the last slash.
unfoldable pub basename : Text → Text
basename s = elim (last? (split_slash s)) [ none ↦ s | some t ↦ t ]

unfoldable pub extract_schema : Text → Option Text
extract_schema path =
    let s = normalize_path path in
    let name = basename s in
    if text_eq s []
    then none
    else if has_suffix (codes ".schema.ts") name
    then some (without_suffix (codes ".schema.ts") name)
    else some (strip_extension s)

-- `s.slice(0, s.lastIndexOf('.'))`, `none` where there is no dot.
unfoldable pub before_dot : Text → Option Text
before_dot [] = none
before_dot (c ∷ s) = elim (before_dot s) [
  | some t ↦ some (c ∷ t)
  | none ↦ if c == b'.' then some [] else none
]

unfoldable pub remove_extension : Text → Text
remove_extension s = elim (before_dot s) [ none ↦ s | some [] ↦ s | some (c ∷ t) ↦ c ∷ t ]

-- The set of the names that files give: a name is added where it is new.
unfoldable pub insert : Text → List Text → List Text
insert t names = if any (text_eq t) names then names else names ++ (t ∷ [])

unfoldable pub collect : (KindedFile → Option Text) → List KindedFile → List Text → List Text
collect name_of [] names = names
collect name_of (f ∷ files) names =
    collect name_of files (elim (name_of f) [ none ↦ names | some t ↦ insert t names ])

unfoldable pub route_of : KindedFile → Option Text
route_of f = elim f.kind [ ChangedFileKind.route ↦ extract_route f.file.path | _ ↦ none ]

unfoldable pub schema_of : KindedFile → Option Text
schema_of f = elim f.kind [ ChangedFileKind.schema ↦ extract_schema f.file.path | _ ↦ none ]

module _ (lower : Text → Text) where
  -- The loop over the technical suffixes.
  unfoldable pub remove_technical_suffixes : List Text → Text → Text
  remove_technical_suffixes [] name = name
  remove_technical_suffixes (suffix ∷ more) name =
      remove_technical_suffixes more
        (if has_suffix suffix (lower name) then without_suffix suffix name else name)

  unfoldable pub extract_component : Text → Option Text
  extract_component path =
      let name =
        remove_technical_suffixes
          (codes ".spec" ∷ codes ".test" ∷ codes ".stories" ∷ codes ".style" ∷ codes ".styles" ∷ [])
          (remove_extension (basename (forward_slashes path))) in
      if text_eq name [] then none else some name

  unfoldable pub normalize_for_comparison : Text → Text
  normalize_for_comparison name =
      select (λ c. not (c == b'-' || c == b'_' || c == b'.')) (lower name)

  unfoldable pub component_named : Text → Option Text
  component_named path = elim (extract_component path) [
    | none ↦ none
    | some t ↦ some (normalize_for_comparison t)
  ]

  unfoldable pub component_of : KindedFile → Option Text
  component_of f = elim f.kind [
    | ChangedFileKind.test ↦ none
    | ChangedFileKind.infra ↦ none
    | ChangedFileKind.docs ↦ none
    | _ ↦ component_named f.file.path
  ]

-- The order of `localeCompare` is a parameter.
module _ (sort : List Text → List Text) where
  unfoldable pub detect_affected_routes : List KindedFile → List Text
  detect_affected_routes files = sort (collect route_of files [])

  unfoldable pub detect_affected_schemas : List KindedFile → List Text
  detect_affected_schemas files = sort (collect schema_of files [])

  unfoldable pub detect_affected_components : (Text → Text) → List KindedFile → List Text
  detect_affected_components lower files = sort (collect (component_of lower) files [])
