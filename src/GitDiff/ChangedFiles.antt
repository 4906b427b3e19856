-- ===== src/GitDiff/ChangedFiles.antt =====
-- src/infra/github/git-diff-changed-files.parser.ts: the files of a diff, with their lines.
use qa_agent.Prelude.{
  ℕ, ◌+◌, Bool, true, false, not, ◌&&◌, ◌||◌, List, [], ◌∷◌, ◌++◌, Option, none, some, Text, codes,
  text_eq, has_prefix, has_suffix, after_prefix, all, ◌==◌, if◌then◌else◌,
}
use qa_agent.Domain.Run.{Result, ok, fail, schema, ◌>>=◌}
use qa_agent.GitDiff.{
  DiffLineType, DiffLine, hunk_header, is_file_metadata_line, split_lines, diff_line,
}

pub data ChangedFileStatus : Type 0 where
  modified added removed : ChangedFileStatus

pub record FileBuildState : Type 0 where
  pub old_path : Text
  pub new_path : Text
  pub old_is_null : Bool
  pub new_is_null : Bool
  pub is_binary : Bool
  pub positive_lines : List DiffLine
  pub negative_lines : List DiffLine
  pub context_lines : List DiffLine

pub record ChangedFile : Type 0 where
  pub path : Text
  pub status : ChangedFileStatus
  pub positive_lines : List DiffLine
  pub negative_lines : List DiffLine
  pub context_lines : List DiffLine

create_file_build_state : Text → Text → FileBuildState
create_file_build_state old new = record {
  old_path = old;
  new_path = new;
  old_is_null = false;
  new_is_null = false;
  is_binary = false;
  positive_lines = [];
  negative_lines = [];
  context_lines = [];
}

resolve_file_status : FileBuildState → ChangedFileStatus
resolve_file_status f =
    if f.old_is_null
    then ChangedFileStatus.added
    else if f.new_is_null
    then ChangedFileStatus.removed
    else ChangedFileStatus.modified

resolve_file_path : FileBuildState → ChangedFileStatus → Text
resolve_file_path f ChangedFileStatus.removed = f.old_path
resolve_file_path f _ = f.new_path

-- `ChangedFileWithoutKindSchema.parse(…)`: the path is not empty.
finalize_file : FileBuildState → Result ChangedFile
unfolding resolve_file_status resolve_file_path
finalize_file f =
    let status = resolve_file_status f in
    let path = resolve_file_path f status in
    if text_eq path []
    then fail schema
    else ok (record {
      path = path;
      status = status;
      positive_lines = f.positive_lines;
      negative_lines = f.negative_lines;
      context_lines = f.context_lines;
    })

-- `.` matches no line terminator.
unfoldable pub is_dot : ℕ → Bool
is_dot c = not (c == 10 || c == 13 || c == 0x2028 || c == 0x2029)

-- The second group, where the first one ends with a character.
second_path : ℕ → Option Text → Option (Text × Text)
unfolding is_dot
second_path c none = none
second_path c (some rest) =
    if text_eq rest [] || not (all is_dot rest) then none else some (c ∷ [], rest)

-- The match in which the first group goes on, or else the one in which it ends.
longer : ℕ → Option (Text × Text) → Option (Text × Text) → Option (Text × Text)
longer c none here = here
longer c (some (old, new)) here = some (c ∷ old, new)

-- `(.+) b\/(.+)$`: the first group takes as much as it can.
split_paths : Text → Option (Text × Text)
unfolding is_dot second_path longer
split_paths [] = none
split_paths (c ∷ s) =
    let further = longer c (split_paths s) (second_path c (after_prefix (codes " b/") s)) in
    if is_dot c then further else none

-- `DIFF_GIT_PATTERN.exec(line)`
diff_git : Text → Option (Text × Text)
unfolding split_paths
diff_git line = elim (after_prefix (codes "diff --git a/") line) [
  | none ↦ none
  | some s ↦ split_paths s
]

-- The variables of the loop.
pub record Scan : Type 0 where
  pub changed_files : List ChangedFile
  pub current_file : Option FileBuildState
  pub old_line_number : Option ℕ
  pub new_line_number : Option ℕ

-- `flushCurrentFile`
flush_file : List ChangedFile → FileBuildState → Result (List ChangedFile)
unfolding finalize_file
flush_file files f =
    if f.is_binary then ok files else (do file ← finalize_file f; ok (files ++ (file ∷ [])))

pub flush : Scan → Result (List ChangedFile)
unfolding flush_file
flush s = elim s.current_file [ none ↦ ok s.changed_files | some f ↦ flush_file s.changed_files f ]

-- A line of a hunk, in a file and at two numbers.
body_line : Scan → FileBuildState → ℕ → ℕ → Text → Result Scan
body_line s f old new [] = ok s
body_line s f old new (c ∷ content) =
    if c == b'+'
    then (do
      l ← diff_line DiffLineType.added new content
      ok (record s {
        current_file = some (record f { positive_lines = f.positive_lines ++ (l ∷ []) });
        new_line_number = some (new + 1);
      }))
    else if c == b'-'
    then (do
      l ← diff_line DiffLineType.removed old content
      ok (record s {
        current_file = some (record f { negative_lines = f.negative_lines ++ (l ∷ []) });
        old_line_number = some (old + 1);
      }))
    else if c == b' '
    then (do
      l ← diff_line DiffLineType.context new content
      ok (record s {
        current_file = some (record f { context_lines = f.context_lines ++ (l ∷ []) });
        old_line_number = some (old + 1);
        new_line_number = some (new + 1);
      }))
    else ok s

numbered_line : Scan → FileBuildState → Option ℕ → Option ℕ → Text → Result Scan
unfolding body_line
numbered_line s f (some old) (some new) line = body_line s f old new line
numbered_line s f _ _ line = ok s

hunk_line : Scan → FileBuildState → Text → Result Scan
unfolding numbered_line
hunk_line s f line = elim (hunk_header line) [
  | some h ↦
      ok (record s { old_line_number = some h.old_start; new_line_number = some h.new_start })
  | none ↦ numbered_line s f s.old_line_number s.new_line_number line
]

file_line : Scan → FileBuildState → Text → Result Scan
unfolding hunk_line
file_line s f line =
    if has_prefix (codes "--- /dev/null") line
    then ok (record s { current_file = some (record f { old_is_null = true }) })
    else if has_prefix (codes "+++ /dev/null") line
    then ok (record s { current_file = some (record f { new_is_null = true }) })
    else if has_prefix (codes "Binary files ") line && has_suffix (codes " differ") line
    then ok (record s { current_file = some (record f { is_binary = true }) })
    else if has_prefix (codes "GIT binary patch") line
    then ok (record s { current_file = some (record f { is_binary = true }) })
    else if is_file_metadata_line line
    then ok s
    else hunk_line s f line

-- A line before the first file is skipped.
current_line : Scan → Option FileBuildState → Text → Result Scan
unfolding file_line
current_line s none line = ok s
current_line s (some f) line = file_line s f line

-- One turn of the loop. The flush leaves no number behind.
pub scan_line : Scan → Text → Result Scan
unfolding flush create_file_build_state current_line
scan_line s line = elim (diff_git line) [
  | some (old, new) ↦ (do
    files ← flush s
    ok (record {
      changed_files = files;
      current_file = some (create_file_build_state old new);
      old_line_number = elim s.current_file [ none ↦ s.old_line_number | some _ ↦ none ];
      new_line_number = elim s.current_file [ none ↦ s.new_line_number | some _ ↦ none ];
    }))
  | none ↦ current_line s s.current_file line
]

pub scan_lines : Scan → List Text → Result Scan
unfolding scan_line
scan_lines s [] = ok s
scan_lines s (line ∷ lines) = do s' ← scan_line s line; scan_lines s' lines

abbrev pub start_scan : Scan
start_scan = record {
  changed_files = [];
  current_file = none;
  old_line_number = none;
  new_line_number = none;
}

pub parse_git_diff_changed_files : Text → Result (List ChangedFile)
unfolding scan_lines flush
parse_git_diff_changed_files [] = ok []
parse_git_diff_changed_files diff = do s ← scan_lines start_scan (split_lines diff); flush s
