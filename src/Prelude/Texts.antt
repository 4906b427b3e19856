-- ===== src/Prelude/Texts.antt =====
-- Texts as lists of code points, with the string methods and the regular expressions that the
-- source applies to them.
use Prim.Native.Char.{Char, code}
use Prim.Native.Nat.{ℕ, zero, suc, ◌+◌, ◌/◌, ◌%◌}
use Prim.Native.String.{String, ◌++◌ as ◌<>◌}
use mathlib.Core.Path.{◌≡◌, refl}
use mathlib.Core.Logic.{◌↔◌}
use mathlib.Core.Bool.{Bool, true, false, ◌&&◌, ◌||◌, not}
use mathlib.Core.List.{List, [], ◌∷◌, ◌++◌}
use mathlib.Core.Option.{Option, none, some}
use native.Mathlib.Omega.{arith}
use qa_agent.Prelude.Tests.{leb, ltb, ◌==◌, if◌then◌else◌}
use qa_agent.Prelude.Lists.{any, get_elem?}

-- A text by its code points.
abbrev pub Text : Type 0
Text = List ℕ

abbrev pub codes : String → Text
codes String.[] = []
codes (String.◌∷◌ c s) = code c ∷ codes s

-- `s === t`
abbrev pub text_eq : Text → Text → Bool
text_eq [] [] = true
text_eq (a ∷ s) (b ∷ t) = a == b && text_eq s t
text_eq _ _ = false

-- `s.startsWith(prefix)`, with the prefix first.
abbrev pub has_prefix : Text → Text → Bool
has_prefix [] s = true
has_prefix (p ∷ ps) [] = false
has_prefix (p ∷ ps) (c ∷ s) = p == c && has_prefix ps s

-- `s.includes(part)`, with the part first.
abbrev pub has_part : Text → Text → Bool
has_part part [] = has_prefix part []
has_part part (c ∷ s) = has_prefix part (c ∷ s) || has_part part s

-- `s.endsWith(suffix)`, with the suffix first.
abbrev pub has_suffix : Text → Text → Bool
has_suffix suffix [] = text_eq suffix []
has_suffix suffix (c ∷ s) = text_eq suffix (c ∷ s) || has_suffix suffix s

abbrev pub is_digit : ℕ → Bool
is_digit c = leb b'0' c && leb c b'9'

-- `\w` of a regular expression without the `u` flag.
abbrev pub is_word : ℕ → Bool
is_word c = is_digit c || leb b'a' c && leb c b'z' || leb b'A' c && leb c b'Z' || c == b'_'

-- `\s`, which is also what `trim` removes.
abbrev pub is_space : ℕ → Bool
is_space c =
    leb 9 c && leb c 13
    || c == 32
    || c == 160
    || c == 0x1680
    || leb 0x2000 c && leb c 0x200a
    || leb 0x2028 c && leb c 0x2029
    || c == 0x202f
    || c == 0x205f
    || c == 0x3000
    || c == 0xfeff

-- The folding of the `i` flag: it joins ASCII letters only.
abbrev pub fold_case : ℕ → ℕ
fold_case c = if leb b'A' c && leb c b'Z' then c + 32 else c

abbrev pub starts_word : Text → Bool
starts_word [] = false
starts_word (c ∷ _) = is_word c

-- What is left of a text behind a prefix.
abbrev pub after_prefix : Text → Text → Option Text
after_prefix [] s = some s
after_prefix (p ∷ ps) [] = none
after_prefix (p ∷ ps) (c ∷ s) = if p == c then after_prefix ps s else none

-- `/\b(?:w1|w2|…)\b/` at one position, for words that begin and end in a word character.
unfoldable pub word_here : List Text → Text → Bool
word_here ws s =
    any (λ w. elim (after_prefix w s) [ none ↦ false | some rest ↦ not (starts_word rest) ]) ws

-- The same anywhere in the text; `before` tells whether the character before is a word character.
unfoldable pub word_from : List Text → Bool → Text → Bool
word_from ws before [] = false
word_from ws before (c ∷ s) = (not before && word_here ws (c ∷ s)) || word_from ws (is_word c) s

unfoldable pub has_word : List Text → Text → Bool
unfolding word_from word_here
has_word ws s = word_from ws false s

-- `String(n)` for a natural number.
digit : ℕ → String
digit d =
    elim (get_elem? {A = String} ("0" ∷ "1" ∷ "2" ∷ "3" ∷ "4" ∷ "5" ∷ "6" ∷ "7" ∷ "8" ∷ "9" ∷ [])
      d) [ none ↦ "" | some s ↦ s ]

show_fuel : ℕ → ℕ → String
show_fuel zero n = ""
show_fuel (suc f) n =
    let more = show_fuel f (n / 10) <> digit (n % 10) in if ltb n 10 then digit n else more

-- `n` digits are more than the number has, so the fuel is enough.
unfoldable pub show : ℕ → String
unfolding show_fuel digit
show n = show_fuel (suc n) n

show_example : show 120 ≡ "120"
unfolding show
show_example = refl

-- `texts.join(separator)`, with the separator first.
abbrev pub join : String → List String → String
join sep [] = ""
join sep (s ∷ []) = s
join sep (s ∷ t ∷ more) = s <> sep <> join sep (t ∷ more)

pub text_eq_iff : (s t : Text) → (text_eq s t ≡ true) ↔ (s ≡ t)
text_eq_iff [] [] = (λ _. refl, λ _. refl)
text_eq_iff [] (b ∷ t) = ground arith
text_eq_iff (a ∷ s) [] = ground arith
text_eq_iff (a ∷ s) (b ∷ t) = ground (arith, text_eq_iff s t)

pub has_prefix-append : (p s : Text) → has_prefix p (p ++ s) ≡ true
has_prefix-append [] s = refl
has_prefix-append (c ∷ p) s = ground (arith, has_prefix-append p s)

-- `s.trim()`
trim_start : String → String
trim_start String.[] = ""
trim_start (String.◌∷◌ c s) = if is_space (code c) then trim_start s else String.◌∷◌ c s

-- A character before what is left of the text behind it.
keep_char : Char → String → String
keep_char c String.[] = if is_space (code c) then "" else String.◌∷◌ c ""
keep_char c (String.◌∷◌ d s) = String.◌∷◌ c (String.◌∷◌ d s)

trim_end : String → String
unfolding keep_char
trim_end String.[] = ""
trim_end (String.◌∷◌ c s) = keep_char c (trim_end s)

unfoldable pub trim : String → String
unfolding trim_start trim_end
trim s = trim_end (trim_start s)

trim_example : trim " a b  " ≡ "a b"
unfolding trim
trim_example = refl

-- The same on code points.
trim_left : Text → Text
trim_left [] = []
trim_left (c ∷ s) = if is_space c then trim_left s else c ∷ s

keep_code : ℕ → Text → Text
keep_code c [] = if is_space c then [] else c ∷ []
keep_code c (d ∷ s) = c ∷ d ∷ s

trim_right : Text → Text
unfolding keep_code
trim_right [] = []
trim_right (c ∷ s) = keep_code c (trim_right s)

unfoldable pub trim_text : Text → Text
unfolding trim_left trim_right
trim_text s = trim_right (trim_left s)
