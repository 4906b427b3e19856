-- ===== src/Policy/Words.antt =====
-- The search for words in a text, and which texts are destructive.
use qa_agent.Prelude.{
  ◌≡◌, ◌≢◌, refl, sym, ap, subst, ◌↔◌, inl, inr, Bool, true, false, not, ◌&&◌, String, List, [],
  ◌∷◌, ◌++◌, map, none, some, Text, codes, fold_case, has_word, word_from, word_here, after_prefix,
  starts_word, is_word, All, Exists, any-Exists, Exists-map, Exists-All, Bool-cases, Option-cases,
  arith, ◌==◌,
}
use qa_agent.Policy.{looks_destructive}

-- Whether a text ends in a word character; for an empty one, whether the character before is one.
abbrev pub ends_word : Bool → Text → Bool
ends_word before [] = before
ends_word before (c ∷ s) = ends_word (is_word c) s

-- A text has a word in it, with no word character on either side.
abbrev pub Around : Bool → Text → Text → Type 0
Around before s w =
    (pre : Text) × (post : Text) × (s ≡ pre ++ (w ++ post))
    × (ends_word before pre ≡ false)
    × (starts_word post ≡ false)

after_prefix-append : (w s : Text) → after_prefix w (w ++ s) ≡ some s
after_prefix-append [] s = refl
after_prefix-append (c ∷ w) s = ground (arith, after_prefix-append w s)

after_prefix-parts : (w s rest : Text) → after_prefix w s ≡ some rest → s ≡ w ++ rest
after_prefix-parts [] s rest h = cc
after_prefix-parts (c ∷ w) [] rest h = cc
after_prefix-parts (c ∷ w) (d ∷ s) rest h = elim (Bool-cases (c == d)) [
  | inl e ↦
      let tail : s ≡ w ++ rest = after_prefix-parts w s rest (ground (arith, e, h)) in
      let head : c ≡ d = ground (arith, e) in rw (tail, head) refl
  | inr e ↦ absurd (ground (arith, e, h))
]

-- A word right at the start of a text.
abbrev Begins : Text → Text → Type 0
Begins s w = (post : Text) × (s ≡ w ++ post) × (starts_word post ≡ false)

abbrev begins : Text → Text → Bool
begins s w = elim (after_prefix w s) [ none ↦ false | some rest ↦ not (starts_word rest) ]

begins-Begins : (s w : Text) → (begins s w ≡ true) ↔ Begins s w
begins-Begins s w = (
  (λ h. elim (Option-cases (after_prefix w s)) [
    | inl e ↦ absurd (ground (arith, e, h))
    | inr (rest, e) ↦ (rest, after_prefix-parts w s rest e, ground (arith, e, h))
  ]),
  (λ (post, e, h). rw e (ground (arith, after_prefix-append w post, h))),
)

module _ (ws : List Text) where
  word_here-Exists : (s : Text) → (word_here ws s ≡ true) ↔ Exists (Begins s) ws
  unfolding word_here
  word_here-Exists s = any-Exists (begins s) ws (begins-Begins s)

  word_from-found : (b : Bool) (s : Text) → word_from ws b s ≡ true → Exists (Around b s) ws
  unfolding word_from
  word_from-found b [] h = absurd (ground (arith, h))
  word_from-found b (c ∷ s) h = elim (Bool-cases (not b && word_here ws (c ∷ s))) [
    | inl e ↦
        Exists-map ws (λ w (post, split, after). ([], post, split, ground (arith, e), after))
          ((word_here-Exists (c ∷ s)).0 (ground (arith, e)))
    | inr e ↦
        Exists-map ws
          (λ w (pre, post, split, before, after).
            (c ∷ pre, post, ap (λ t. c ∷ t) split, before, after))
          (word_from-found (is_word c) s (ground (arith, e, h)))
  ]

  -- Behind any text that does not end in a word character.
  word_from-at :
      (b : Bool) (pre s : Text)
      → s ≢ []
      → word_here ws s ≡ true
      → ends_word b pre ≡ false
      → word_from ws b (pre ++ s) ≡ true
  unfolding word_from
  word_from-at b [] [] some_text h before = absurd (some_text refl)
  word_from-at b [] (c ∷ s) some_text h before = ground (arith, h, before)
  word_from-at b (c ∷ pre) s some_text h before =
      ground (arith, word_from-at (is_word c) pre s some_text h before)

  word_from-Exists :
      (s : Text) → All (λ w. w ≢ []) ws → (word_from ws false s ≡ true) ↔ Exists (Around false s) ws
  word_from-Exists s words = (
    word_from-found false s,
    (λ e.
        let (w, (pre, post, split, before, after), no_empty, at) = Exists-All ws words e in
        let here : word_here ws (w ++ post) ≡ true =
          (word_here-Exists (w ++ post)).1
            (Exists-map ws (λ v same. (post, ap (λ u. u ++ post) (sym same), after)) at) in
        subst (λ t. word_from ws false t ≡ true) (sym split)
          (word_from-at false pre (w ++ post) (nonempty-append w post no_empty) here before)),
  )
    where
      nonempty-append : (w post : Text) → w ≢ [] → w ++ post ≢ []
      nonempty-append [] post h e = h refl
      nonempty-append (c ∷ w) post h e = cc

-- The words that make a text destructive.
abbrev pub destructive_terms : List Text
destructive_terms =
    codes "excluir"
    ∷ codes "deletar"
    ∷ codes "delete"
    ∷ codes "remover"
    ∷ codes "cancelar pedido"
    ∷ codes "confirmar pagamento"
    ∷ codes "pagamento"
    ∷ codes "publicar"
    ∷ codes "publish"
    ∷ codes "alterar senha"
    ∷ codes "enviar email"
    ∷ codes "enviar e-mail"
    ∷ codes "send email"
    ∷ codes "send e-mail"
    ∷ []

-- One of the words stands in the text on its own, in letters of either case.
unfoldable pub Destructive : String → Type 0
Destructive text = Exists (Around false (map fold_case (codes text))) destructive_terms

terms-nonempty : All (λ w. w ≢ []) destructive_terms
terms-nonempty = ground arith

pub looks_destructive_iff : (text : String) → (looks_destructive text ≡ true) ↔ Destructive text
unfolding looks_destructive has_word Destructive
looks_destructive_iff text =
    word_from-Exists destructive_terms (map fold_case (codes text)) terms-nonempty
