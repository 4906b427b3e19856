-- ===== src/GitDiff.antt =====
-- src/infra/github/git-diff-*.parser.ts: the lines of a unified diff, on texts as code points.
pub mod Rendered
pub mod ChangedFiles
pub mod Kinds
pub mod Affected
use Prim.Native.Char.{code}
use qa_agent.Prelude.{
  ℕ, ◌+◌, ◌-◌, ◌*◌, Bool, true, false, not, ◌&&◌, ◌||◌, List, [], ◌∷◌, Option, none, some, Text,
  codes, text_eq, has_prefix, after_prefix, is_digit, ltb, ◌==◌, if◌then◌else◌,
}
use qa_agent.Domain.Run.{Result, ok, fail, schema, ◌>>=◌}

pub data DiffLineType : Type 0 where
  added removed context : DiffLineType

pub record DiffLine : Type 0 where
  pub type : DiffLineType
  pub line_number : ℕ
  pub content : Text

-- The two groups of `HUNK_HEADER_PATTERN`.
pub record HunkHeader : Type 0 where
  pub old_start : ℕ
  pub new_start : ℕ

-- `\d*`, with the number read so far.
unfoldable pub read_digits : ℕ → Text → ℕ × Text
read_digits n [] = (n, [])
read_digits n (c ∷ s) = if is_digit c then read_digits (n * 10 + (c - b'0')) s else (n, c ∷ s)

-- `\d+`
read_number : Text → Option (ℕ × Text)
unfolding read_digits
read_number [] = none
read_number (c ∷ s) = if is_digit c then some (read_digits 0 (c ∷ s)) else none

-- `(?:,\d+)?`
skip_count : Text → Text
unfolding read_number
skip_count s = elim (after_prefix (codes ",") s) [
  | none ↦ s
  | some rest ↦ elim (read_number rest) [ none ↦ s | some (_, left) ↦ left ]
]

-- The second half of the pattern.
read_new : ℕ → Text → Option HunkHeader
unfolding read_number skip_count
read_new old s = elim (after_prefix (codes " +") s) [
  | none ↦ none
  | some rest ↦ elim (read_number rest) [
    | none ↦ none
    | some (new, left) ↦
        if has_prefix (codes " @@") (skip_count left)
        then some (record { old_start = old; new_start = new })
        else none
  ]
]

-- `HUNK_HEADER_PATTERN.exec(line)`
unfoldable pub hunk_header : Text → Option HunkHeader
unfolding read_number skip_count read_new
hunk_header s = elim (after_prefix (codes "@@ -") s) [
  | none ↦ none
  | some rest ↦ elim (read_number rest) [
    | none ↦ none
    | some (old, left) ↦ read_new old (skip_count left)
  ]
]

unfoldable pub is_file_metadata_line : Text → Bool
is_file_metadata_line line =
    has_prefix (codes "diff --git ") line
    || has_prefix (codes "index ") line
    || has_prefix (codes "--- ") line
    || has_prefix (codes "+++ ") line
    || has_prefix (codes "Binary files ") line
    || has_prefix (codes "GIT binary patch") line

-- `rawDiff.split('\n')`
start_line : ℕ → List Text → List Text
start_line c [] = (c ∷ []) ∷ []
start_line c (l ∷ ls) = (c ∷ l) ∷ ls

pub split_lines : Text → List Text
unfolding start_line
split_lines [] = [] ∷ []
split_lines (c ∷ s) = let rest = split_lines s in if c == 10 then [] ∷ rest else start_line c rest

-- `DiffLineSchema.parse(…)`: the number is positive.
pub diff_line : DiffLineType → ℕ → Text → Result DiffLine
diff_line type n content =
    if ltb 0 n then ok (record { type = type; line_number = n; content = content }) else fail schema

-- The three parsers differ in the lines that they keep, in the side whose numbers they count, and in
-- the other kind of line that counts on this side.
abbrev pub marker : DiffLineType → ℕ
marker DiffLineType.added = b'+'
marker DiffLineType.removed = b'-'
marker DiffLineType.context = b' '

abbrev start_of : DiffLineType → HunkHeader → ℕ
start_of DiffLineType.removed h = h.old_start
start_of _ h = h.new_start

abbrev passed : DiffLineType → ℕ
passed DiffLineType.added = b' '
passed DiffLineType.removed = b' '
passed DiffLineType.context = b'+'

-- What one line does to the number and to the lines found.
pub data Effect : Type 0 where
  keep : ℕ → Text → Effect
  move_to : Option ℕ → Effect

body_effect : DiffLineType → ℕ → Text → Effect
body_effect type n [] = Effect.move_to (some n)
body_effect type n (c ∷ content) =
    if c == marker type
    then Effect.keep n content
    else if c == passed type
    then Effect.move_to (some (n + 1))
    else Effect.move_to (some n)

numbered_effect : DiffLineType → Option ℕ → Text → Effect
unfolding body_effect
numbered_effect type none line = Effect.move_to none
numbered_effect type (some n) line =
    if is_file_metadata_line line then Effect.move_to (some n) else body_effect type n line

line_effect : DiffLineType → Option ℕ → Text → Effect
unfolding numbered_effect
line_effect type number line = elim (hunk_header line) [
  | some h ↦ Effect.move_to (some (start_of type h))
  | none ↦ numbered_effect type number line
]

-- The loop over the lines.
pub scan : DiffLineType → Option ℕ → List Text → Result (List DiffLine)
scan type number [] = ok []
scan type number (line ∷ lines) = elim (line_effect type number line) [
  | Effect.keep n content ↦ (do
    kept ← diff_line type n content
    rest ← scan type (some (n + 1)) lines
    ok (kept ∷ rest))
  | Effect.move_to next ↦ scan type next lines
]

pub parse_lines : DiffLineType → Text → Result (List DiffLine)
unfolding scan
parse_lines type [] = ok []
parse_lines type diff = scan type none (split_lines diff)

pub parse_git_diff_added_lines : Text → Result (List DiffLine)
unfolding parse_lines
parse_git_diff_added_lines = parse_lines DiffLineType.added

pub parse_git_diff_removed_lines : Text → Result (List DiffLine)
unfolding parse_lines
parse_git_diff_removed_lines = parse_lines DiffLineType.removed

pub parse_git_diff_context_lines : Text → Result (List DiffLine)
unfolding parse_lines
parse_git_diff_context_lines = parse_lines DiffLineType.context
