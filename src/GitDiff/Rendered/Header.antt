-- ===== src/GitDiff/Rendered/Header.antt =====
-- The hunks of a diff as they are written, and their header lines as the parsers read them.
use qa_agent.Prelude.{
  ℕ, ◌+◌, ◌<◌, ◌≡◌, ◌≢◌, refl, ap, ◌∙◌, true, false, List, [], ◌∷◌, ◌++◌, Option, none, some, Text,
  codes, has_prefix, is_digit, ◌*◌, ◌-◌, ◌≤◌, arith, All, if◌then◌else◌,
}
use qa_agent.GitDiff.{
  DiffLineType, HunkHeader, hunk_header, read_digits, read_number, skip_count, read_new,
  is_file_metadata_line,
}

-- A line of a hunk, and a hunk with the numbers of its header, which are written in decimal digits.
pub record HunkLine : Type 0 where
  pub type : DiffLineType
  pub content : Text

pub record Hunk : Type 0 where
  pub old_start : Text
  pub old_count : Option Text
  pub new_start : Text
  pub new_count : Option Text
  pub section : Text
  pub lines : List HunkLine

-- The sign that a line of each type begins with.
abbrev pub sign : DiffLineType → ℕ
sign DiffLineType.added = b'+'
sign DiffLineType.removed = b'-'
sign DiffLineType.context = b' '

abbrev pub line_text : HunkLine → Text
line_text l = sign l.type ∷ l.content

abbrev pub line_texts : List HunkLine → List Text
line_texts [] = []
line_texts (l ∷ ls) = line_text l ∷ line_texts ls

abbrev pub count_text : Option Text → Text
count_text none = []
count_text (some ds) = b',' ∷ ds

-- `@@ -old,count +new,count @@ section`, where the counts may be left out.
abbrev pub header_text : Hunk → Text
header_text h =
    codes "@@ -"
    ++ (h.old_start
        ++ (count_text h.old_count
            ++ (codes " +"
                ++ (h.new_start ++ (count_text h.new_count ++ (codes " @@" ++ h.section))))))

abbrev pub hunk_texts : List Hunk → List Text
hunk_texts [] = []
hunk_texts (h ∷ hs) = header_text h ∷ (line_texts h.lines ++ hunk_texts hs)

-- One or more decimal digits, and the number that they write behind another one.
abbrev pub IsNumber : Text → Type 0
IsNumber ds = (ds ≢ []) × All (λ c. (b'0' ≤ c) × (c ≤ b'9')) ds

abbrev pub IsCount : Option Text → Type 0
IsCount none = Unit
IsCount (some ds) = IsNumber ds

abbrev pub value : ℕ → Text → ℕ
value n [] = n
value n (c ∷ ds) = value (n * 10 + (c - b'0')) ds

-- A hunk with positive numbers, and without a line that looks like the metadata of a file.
pub record IsHunk (h : Hunk) : Type 0 where
  pub old_number : IsNumber h.old_start
  pub old_counted : IsCount h.old_count
  pub new_number : IsNumber h.new_start
  pub new_counted : IsCount h.new_count
  pub old_positive : 0 < value 0 h.old_start
  pub new_positive : 0 < value 0 h.new_start
  pub plain : All (λ l. is_file_metadata_line (line_text l) ≡ false) h.lines

-- The number of the first line on the side that a type counts: the old file for removed lines.
abbrev pub first_number : DiffLineType → Hunk → ℕ
first_number DiffLineType.removed h = value 0 h.old_start
first_number DiffLineType.added h = value 0 h.new_start
first_number DiffLineType.context h = value 0 h.new_start

digit-is_digit : (c : ℕ) → (b'0' ≤ c) × (c ≤ b'9') → is_digit c ≡ true
digit-is_digit c h = ground (arith, h)

-- The digits are read up to a character that is none.
module _ (d : ℕ) (other : is_digit d ≡ false) where
  read_digits-value :
      (n : ℕ) (ds rest : Text)
      → All (λ c. (b'0' ≤ c) × (c ≤ b'9')) ds
      → read_digits n (ds ++ (d ∷ rest)) ≡ (value n ds, d ∷ rest)
  unfolding read_digits
  read_digits-value n [] rest h = rw other refl
  read_digits-value n (c ∷ ds) rest h =
      rw (digit-is_digit c h.0) (read_digits-value (n * 10 + (c - b'0')) ds rest h.1)

  read_number-value :
      (ds rest : Text) → IsNumber ds → read_number (ds ++ (d ∷ rest)) ≡ some (value 0 ds, d ∷ rest)
  unfolding read_number
  read_number-value [] rest h = absurd (h.0 refl)
  read_number-value (c ∷ ds) rest h =
      rw (digit-is_digit c h.1.0)
        (ap (λ r. some r) (read_digits-value (0 + (c - b'0')) ds rest h.1.1))

-- A number with the count behind it, up to a space.
read_number-count :
    (ds : Text) (count : Option Text) (rest : Text)
    → IsNumber ds
    → (left : Text) × (read_number (ds ++ (count_text count ++ (b' ' ∷ rest)))
        ≡ some (value 0 ds, left))
      × (left ≡ count_text count ++ (b' ' ∷ rest))
read_number-count ds none rest h = (_, read_number-value b' ' refl ds rest h, refl)
read_number-count ds (some cs) rest h =
    (_, read_number-value b',' refl ds (cs ++ (b' ' ∷ rest)) h, refl)

skip_count-count :
    (count : Option Text) (rest : Text)
    → IsCount count
    → skip_count (count_text count ++ (b' ' ∷ rest)) ≡ b' ' ∷ rest
unfolding skip_count
skip_count-count none rest h = refl
skip_count-count (some cs) rest h = rw (read_number-value b' ' refl cs rest h, skip_count) refl

unfoldable pub starts : Hunk → HunkHeader
starts h = record { old_start = value 0 h.old_start; new_start = value 0 h.new_start }

read_new-header :
    (h : Hunk)
    → IsHunk h
    → (old : ℕ)
    → read_new old
        (codes " +" ++ (h.new_start ++ (count_text h.new_count ++ (codes " @@" ++ h.section))))
      ≡ some (record { old_start = old; new_start = value 0 h.new_start })
unfolding read_new
read_new-header h is old =
    let (left, e, same) =
      read_number-count h.new_start h.new_count (codes "@@" ++ h.section) is.new_number in
    ap {B = Option HunkHeader}
      (λ o. elim o [
        | none ↦ none
        | some (new, left) ↦
            if has_prefix (codes " @@") (skip_count left)
            then some (record { old_start = old; new_start = new })
            else none
      ])
      e
    ∙ rw (same, skip_count-count h.new_count (codes "@@" ++ h.section) is.new_counted) refl

pub hunk_header-text : (h : Hunk) → IsHunk h → hunk_header (header_text h) ≡ some (starts h)
unfolding hunk_header starts
hunk_header-text h is =
    let tail =
      codes "+" ++ (h.new_start ++ (count_text h.new_count ++ (codes " @@" ++ h.section))) in
    let (left, e, same) = read_number-count h.old_start h.old_count tail is.old_number in
    ap {B = Option HunkHeader}
      (λ o. elim o [ none ↦ none | some (old, left) ↦ read_new old (skip_count left) ]) e
    ∙ rw (same, skip_count-count h.old_count tail is.old_counted)
        (read_new-header h is (value 0 h.old_start))
