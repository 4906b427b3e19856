-- ===== src/GitDiff/Kinds.antt =====
-- src/infra/github/git-diff-changed-file-classifier.ts: the kind of a changed file.
use qa_agent.Prelude.{
  Bool, true, false, ◌&&◌, ◌||◌, List, [], ◌∷◌, map, Option, none, some, Text, codes, text_eq,
  has_prefix, has_part, has_suffix, after_prefix, all, any, take, length, ◌-◌, ◌==◌, if◌then◌else◌,
}
use qa_agent.GitDiff.ChangedFiles.{ChangedFile, is_dot}

pub data ChangedFileKind : Type 0 where
  route schema test infra docs other : ChangedFileKind

-- A changed file with its kind.
pub record KindedFile : Type 0 where
  pub file : ChangedFile
  pub kind : ChangedFileKind

-- `s.replace(/\\/g, '/')`
unfoldable pub forward_slashes : Text → Text
forward_slashes s = map (λ c. if c == b'\\' then b'/' else c) s

-- `s.replace(/^\/+/, '')`
unfoldable pub drop_slashes : Text → Text
drop_slashes [] = []
drop_slashes (c ∷ s) = if c == b'/' then drop_slashes s else c ∷ s

unfoldable pub normalize_path : Text → Text
normalize_path path = drop_slashes (forward_slashes path)

abbrev pub route_files : List Text
route_files = codes "page" ∷ codes "route" ∷ codes "layout" ∷ []

abbrev script_extensions : List Text
script_extensions = codes ".ts" ∷ codes ".tsx" ∷ codes ".js" ∷ codes ".jsx" ∷ []

-- A text without its suffix.
unfoldable pub without_suffix : Text → Text → Text
without_suffix suffix s = take (length s - length suffix) s

-- What stands before `\.(?:tsx?|jsx?)$`.
unfoldable pub script_name : List Text → Text → Option Text
script_name [] s = none
script_name (e ∷ more) s =
    let rest = script_name more s in if has_suffix e s then some (without_suffix e s) else rest

unfoldable pub before_script : Text → Option Text
before_script s = script_name script_extensions s

-- `/(?:.*\/)?(?:page|route|layout)\.(?:tsx?|jsx?)$/` behind `app/`
unfoldable pub is_app_file : Text → Bool
is_app_file s = elim (before_script s) [
  | none ↦ false
  | some name ↦
      all is_dot name && any (λ f. text_eq f name || has_suffix (b'/' ∷ f) name) route_files
]

-- A test behind `app/` at the places of `(?:^|\/)app\/`; `start` tells whether a place is one.
unfoldable pub has_app_file : Bool → Text → Bool
has_app_file start [] = false
has_app_file start (c ∷ s) =
    let more = has_app_file (c == b'/') s in
    let here : Bool = elim (after_prefix (codes "app/") (c ∷ s)) [
      | none ↦ false
      | some rest ↦ start && is_app_file rest
    ] in
    here || more

unfoldable pub is_test_path : Text → Bool
is_test_path s =
    has_prefix (codes "test/") s
    || has_part (codes "/test/") s
    || has_suffix (codes ".spec.ts") s
    || has_suffix (codes ".test.ts") s

unfoldable pub is_schema_path : Text → Bool
is_schema_path s =
    has_prefix (codes "src/domain/schemas/") s
    || has_part (codes "/schemas/") s
    || has_suffix (codes ".schema.ts") s

unfoldable pub is_route_path : Text → Bool
is_route_path s =
    has_prefix (codes "src/routes/") s
    || has_prefix (codes "src/pages/") s
    || has_part (codes "/routes/") s
    || has_part (codes "/pages/") s
    || has_app_file true s

unfoldable pub is_docs_path : Text → Bool
is_docs_path s =
    has_prefix (codes "doc/") s || has_prefix (codes "docs/") s || has_suffix (codes ".md") s

unfoldable pub classify_changed_file_kind : Text → ChangedFileKind
classify_changed_file_kind path =
    let s = normalize_path path in
    if is_test_path s
    then ChangedFileKind.test
    else if is_schema_path s
    then ChangedFileKind.schema
    else if is_route_path s
    then ChangedFileKind.route
    else if has_prefix (codes "src/infra/") s
    then ChangedFileKind.infra
    else if is_docs_path s
    then ChangedFileKind.docs
    else ChangedFileKind.other
