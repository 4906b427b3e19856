-- ===== src/GitDiff/Rendered.antt =====
-- The three parsers on a diff that is written out from its hunks.
pub mod Header
pub use Header.{
  HunkLine, Hunk, sign, line_text, line_texts, count_text, header_text, hunk_texts, IsNumber,
  IsCount, value, IsHunk, first_number, hunk_header-text,
}
unfoldable pub use Header.{starts}
use qa_agent.Prelude.{
  ℕ, ◌+◌, ◌<◌, ◌≡◌, ◌≢◌, refl, ap, ◌∙◌, Bool, true, false, List, [], ◌∷◌, ◌++◌, Option, none, some,
  Text, codes, has_prefix, is_digit, ◌*◌, ◌-◌, ◌≤◌, Bool-cases, after_prefix, arith, All,
  if◌then◌else◌,
}
use qa_agent.Domain.Run.{ok}
use qa_agent.GitDiff.{
  DiffLineType, DiffLine, HunkHeader, hunk_header, read_digits, read_number, skip_count, read_new,
  is_file_metadata_line, start_line, split_lines, diff_line, marker, start_of, Effect, body_effect,
  numbered_effect, line_effect, scan, parse_lines,
}

-- Whether a line of a type has a number on the side that a parser counts.
abbrev pub counts : DiffLineType → DiffLineType → Bool
counts DiffLineType.removed DiffLineType.added = false
counts DiffLineType.removed _ = true
counts _ DiffLineType.removed = false
counts _ _ = true

abbrev pub same_type : DiffLineType → DiffLineType → Bool
same_type DiffLineType.added DiffLineType.added = true
same_type DiffLineType.removed DiffLineType.removed = true
same_type DiffLineType.context DiffLineType.context = true
same_type _ _ = false

-- The lines of one type, each with its number, for lines that begin at a number.
abbrev pub numbered : DiffLineType → ℕ → List HunkLine → List DiffLine
numbered type n [] = []
numbered type n (l ∷ ls) =
    let next = numbered type (n + 1) ls in
    let same = numbered type n ls in
    if same_type type l.type
    then record { type = type; line_number = n; content = l.content } ∷ next
    else if counts type l.type
    then next
    else same

abbrev pub numbered_all : DiffLineType → List Hunk → List DiffLine
numbered_all type [] = []
numbered_all type (h ∷ hs) = numbered type (first_number type h) h.lines ++ numbered_all type hs

-- What one line of a hunk does.
line_effect-text :
    (type other : DiffLineType) (n : ℕ) (content : Text)
    → is_file_metadata_line (sign other ∷ content) ≡ false
    → line_effect type (some n) (sign other ∷ content) ≡ (
        if same_type type other
        then Effect.keep n content
        else if counts type other
        then Effect.move_to (some (n + 1))
        else Effect.move_to (some n))
unfolding line_effect numbered_effect body_effect hunk_header
line_effect-text DiffLineType.added DiffLineType.added n content plain = rw plain refl
line_effect-text DiffLineType.added DiffLineType.removed n content plain = rw plain refl
line_effect-text DiffLineType.added DiffLineType.context n content plain = rw plain refl
line_effect-text DiffLineType.removed DiffLineType.added n content plain = rw plain refl
line_effect-text DiffLineType.removed DiffLineType.removed n content plain = rw plain refl
line_effect-text DiffLineType.removed DiffLineType.context n content plain = rw plain refl
line_effect-text DiffLineType.context DiffLineType.added n content plain = rw plain refl
line_effect-text DiffLineType.context DiffLineType.removed n content plain = rw plain refl
line_effect-text DiffLineType.context DiffLineType.context n content plain = rw plain refl

scan-kept :
    (type : DiffLineType) (n : ℕ) (line : Text) (rest : List Text) (content : Text)
    (found : List DiffLine)
    → line_effect type (some n) line ≡ Effect.keep n content
    → 0 < n
    → scan type (some (n + 1)) rest ≡ ok found
    → scan type (some n) (line ∷ rest)
      ≡ ok (record { type = type; line_number = n; content = content } ∷ found)
unfolding scan diff_line
scan-kept type n line rest content found e positive h = ground (arith, e, h)

scan-moved :
    (type : DiffLineType) (number next : Option ℕ) (line : Text) (rest : List Text)
    → line_effect type number line ≡ Effect.move_to next
    → scan type number (line ∷ rest) ≡ scan type next rest
unfolding scan line_effect hunk_header
scan-moved type number next line rest e = rw e refl

scan-lines :
    (type : DiffLineType) (n : ℕ) (ls : List HunkLine) (rest : List Text) (found : List DiffLine)
    → 0 < n
    → All (λ l. is_file_metadata_line (line_text l) ≡ false) ls
    → ((m : ℕ) → scan type (some m) rest ≡ ok found)
    → scan type (some n) (line_texts ls ++ rest) ≡ ok (numbered type n ls ++ found)
scan-lines type n [] rest found positive plain h = h n
scan-lines type n (l ∷ ls) rest found positive plain h =
    go (same_type type l.type) (counts type l.type)
      (line_effect-text type l.type n l.content plain.0)
      (scan-lines type (n + 1) ls rest found (omega arith) plain.1 h)
      (scan-lines type n ls rest found positive plain.1 h)
  where
    go :
        (s c : Bool)
        → line_effect type (some n) (line_text l) ≡ (
            if s
            then Effect.keep n l.content
            else if c
            then Effect.move_to (some (n + 1))
            else Effect.move_to (some n))
        → scan type (some (n + 1)) (line_texts ls ++ rest) ≡ ok (numbered type (n + 1) ls ++ found)
        → scan type (some n) (line_texts ls ++ rest) ≡ ok (numbered type n ls ++ found)
        → scan type (some n) (line_text l ∷ (line_texts ls ++ rest))
          ≡ ok (
              (if s
                then record { type = type; line_number = n; content = l.content }
                  ∷ numbered type (n + 1) ls
                else if c
                then numbered type (n + 1) ls
                else numbered type n ls)
              ++ found)
    go true c e next same = scan-kept type n (line_text l) _ l.content _ e positive next
    go false true e next same = scan-moved type _ _ (line_text l) _ e ∙ next
    go false false e next same = scan-moved type _ _ (line_text l) _ e ∙ same

start_of-first : (type : DiffLineType) (h : Hunk) → start_of type (starts h) ≡ first_number type h
unfolding starts
start_of-first DiffLineType.added h = refl
start_of-first DiffLineType.removed h = refl
start_of-first DiffLineType.context h = refl

header-effect :
    (type : DiffLineType) (number : Option ℕ) (h : Hunk)
    → IsHunk h
    → line_effect type number (header_text h) ≡ Effect.move_to (some (first_number type h))
unfolding line_effect starts
header-effect type number h is =
    ap {B = Effect}
      (λ o. elim o [
        | some k ↦ Effect.move_to (some (start_of type k))
        | none ↦ numbered_effect type number (header_text h)
      ])
      (hunk_header-text h is)
    ∙ ap (λ n. Effect.move_to (some n)) (start_of-first type h)

start-positive : (type : DiffLineType) (h : Hunk) → IsHunk h → 0 < first_number type h
start-positive DiffLineType.added h is = is.new_positive
start-positive DiffLineType.removed h is = is.old_positive
start-positive DiffLineType.context h is = is.new_positive

scan-hunks :
    (type : DiffLineType) (number : Option ℕ) (hs : List Hunk)
    → All IsHunk hs
    → scan type number (hunk_texts hs) ≡ ok (numbered_all type hs)
unfolding scan
scan-hunks type number [] are = refl
scan-hunks type number (h ∷ hs) are =
    scan-moved type number _ (header_text h) _ (header-effect type number h are.0)
    ∙ scan-lines type _ h.lines (hunk_texts hs) (numbered_all type hs) (start-positive type h are.0)
        are.0.plain (λ m. scan-hunks type (some m) hs are.1)

-- No line break.
abbrev pub IsLine : Text → Type 0
IsLine l = All (λ c. c ≢ 10) l

abbrev pub join_lines : List Text → Text
join_lines [] = []
join_lines (l ∷ []) = l
join_lines (l ∷ m ∷ ls) = l ++ (10 ∷ join_lines (m ∷ ls))

split-line : (l : Text) → IsLine l → split_lines l ≡ l ∷ []
unfolding split_lines start_line
split-line [] h = refl
split-line (c ∷ l) h = rw (split-line l h.1) (ground (arith, h.0))

split-line-break :
    (l rest : Text) → IsLine l → split_lines (l ++ (10 ∷ rest)) ≡ l ∷ split_lines rest
unfolding split_lines start_line
split-line-break [] rest h = refl
split-line-break (c ∷ l) rest h = rw (split-line-break l rest h.1) (ground (arith, h.0))

split_lines-join_lines :
    (l : Text) (ls : List Text) → All IsLine (l ∷ ls) → split_lines (join_lines (l ∷ ls)) ≡ l ∷ ls
split_lines-join_lines l [] h = split-line l h.0
split_lines-join_lines l (m ∷ ls) h =
    split-line-break l _ h.0 ∙ ap (λ x. l ∷ x) (split_lines-join_lines m ls h.1)

parse_lines-scan :
    (type : DiffLineType) (diff : Text) → parse_lines type diff ≡ scan type none (split_lines diff)
unfolding parse_lines scan split_lines line_effect numbered_effect hunk_header
parse_lines-scan type [] = refl
parse_lines-scan type (c ∷ s) = refl

-- On a diff that is written out from one or more hunks, whose headers carry positive decimal numbers,
-- and whose lines hold no line break and do not look like the metadata of a file, each of the three
-- parsers returns exactly the lines of its type, in order: the added and the context lines with their
-- numbers in the new file, the removed ones with their numbers in the old file.
pub parse_lines-rendered :
    (type : DiffLineType) (h : Hunk) (hs : List Hunk)
    → All IsHunk (h ∷ hs)
    → All IsLine (hunk_texts (h ∷ hs))
    → parse_lines type (join_lines (hunk_texts (h ∷ hs))) ≡ ok (numbered_all type (h ∷ hs))
parse_lines-rendered type h hs are lines =
    parse_lines-scan type _
    ∙ (ap (scan type none) (split_lines-join_lines _ _ lines) ∙ scan-hunks type none (h ∷ hs) are)
