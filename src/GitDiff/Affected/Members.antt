-- ===== src/GitDiff/Affected/Members.antt =====
-- Which names the detectors list.
use qa_agent.Prelude.{
  ◌≡◌, ◌≢◌, refl, sym, ap, ◌↔◌, ◌∙◌, Exists, any-Exists, Bool, true, false, ◌||◌, inl, inr, List,
  [], ◌∷◌, Option, none, some, Text, text_eq, text_eq_iff, any, any-append, arith, Bool-cases,
  Option-cases,
}
use qa_agent.GitDiff.Kinds.{ChangedFileKind, KindedFile}
use qa_agent.GitDiff.Affected.{
  extract_route, extract_schema, extract_component, normalize_for_comparison, component_named,
  route_of, schema_of, component_of, insert, collect, detect_affected_routes,
  detect_affected_schemas, detect_affected_components,
}

-- Whether a file gives a name.
abbrev pub gives : (KindedFile → Option Text) → Text → KindedFile → Bool
gives name_of t f = elim (name_of f) [ none ↦ false | some u ↦ text_eq t u ]

any_eq :
    (t u : Text) (names : List Text)
    → any (text_eq u) names ≡ true
    → text_eq t u ≡ true
    → any (text_eq t) names ≡ true
any_eq t u names h e = rw ((text_eq_iff t u).0 e) h

any-insert :
    (t u : Text) (names : List Text)
    → any (text_eq t) (insert u names) ≡ (any (text_eq t) names || text_eq t u)
unfolding insert
any-insert t u names = elim (Bool-cases (any (text_eq u) names)) [
  | inl h ↦ ground (arith, h, any_eq t u names h)
  | inr h ↦ ground (arith, h, any-append (text_eq t) names (u ∷ []))
]

any-collect :
    (name_of : KindedFile → Option Text) (t : Text) (files : List KindedFile) (names : List Text)
    → any (text_eq t) (collect name_of files names)
      ≡ (any (text_eq t) names || any (gives name_of t) files)
unfolding collect
any-collect name_of t [] names = ground arith
any-collect name_of t (f ∷ files) names = elim (Option-cases (name_of f)) [
  | inl e ↦ ground (arith, e, any-collect name_of t files names)
  | inr (u, e) ↦
      ground (arith, e, any-collect name_of t files (insert u names), any-insert t u names)
]

-- A route, a schema or a component that a file gives.
abbrev pub RouteFrom : Text → KindedFile → Type 0
RouteFrom t f = (f.kind ≡ ChangedFileKind.route) × (extract_route f.file.path ≡ some t)

abbrev pub SchemaFrom : Text → KindedFile → Type 0
SchemaFrom t f = (f.kind ≡ ChangedFileKind.schema) × (extract_schema f.file.path ≡ some t)

abbrev pub ComponentFrom : (Text → Text) → Text → KindedFile → Type 0
ComponentFrom lower t f =
    (f.kind ≢ ChangedFileKind.test)
    × (f.kind ≢ ChangedFileKind.infra)
    × (f.kind ≢ ChangedFileKind.docs)
    × ((name : Text) × (extract_component lower f.file.path ≡ some name)
        × (t ≡ normalize_for_comparison lower name))

named_iff :
    (t : Text) (o : Option Text)
    → ((elim o [ none ↦ false | some u ↦ text_eq t u ]) ≡ true) ↔ (o ≡ some t)
named_iff t none = ground arith
named_iff t (some u) = ground (arith, text_eq_iff t u)

-- The test of the kinds, on what the file would give.
route-gives :
    (t : Text) (k : ChangedFileKind) (o : Option Text)
    → ((elim (elim k as (λ _. Option Text) [ ChangedFileKind.route ↦ o | _ ↦ none ]) [
      | none ↦ false
      | some u ↦ text_eq t u
    ])
        ≡ true)
      ↔ ((k ≡ ChangedFileKind.route) × (o ≡ some t))
route-gives t ChangedFileKind.route o =
    ((λ h. (refl, (named_iff t o).0 h)), (λ (_, e). (named_iff t o).1 e))
route-gives t _ o = ((λ h. cc), (λ (e, _). cc))

schema-gives :
    (t : Text) (k : ChangedFileKind) (o : Option Text)
    → ((elim (elim k as (λ _. Option Text) [ ChangedFileKind.schema ↦ o | _ ↦ none ]) [
      | none ↦ false
      | some u ↦ text_eq t u
    ])
        ≡ true)
      ↔ ((k ≡ ChangedFileKind.schema) × (o ≡ some t))
schema-gives t ChangedFileKind.schema o =
    ((λ h. (refl, (named_iff t o).0 h)), (λ (_, e). (named_iff t o).1 e))
schema-gives t _ o = ((λ h. cc), (λ (e, _). cc))

gives-RouteFrom : (t : Text) (f : KindedFile) → (gives route_of t f ≡ true) ↔ RouteFrom t f
unfolding route_of
gives-RouteFrom t f = route-gives t f.kind (extract_route f.file.path)

gives-SchemaFrom : (t : Text) (f : KindedFile) → (gives schema_of t f ≡ true) ↔ SchemaFrom t f
unfolding schema_of
gives-SchemaFrom t f = schema-gives t f.kind (extract_schema f.file.path)

component-gives :
    (t : Text) (normal : Text → Text) (k : ChangedFileKind) (o : Option Text)
    → ((elim (elim k as (λ _. Option Text) [
      | ChangedFileKind.test ↦ none
      | ChangedFileKind.infra ↦ none
      | ChangedFileKind.docs ↦ none
      | _ ↦ elim o [ none ↦ none | some u ↦ some (normal u) ]
    ]) [ none ↦ false | some u ↦ text_eq t u ])
        ≡ true)
      ↔ ((k ≢ ChangedFileKind.test)
          × (k ≢ ChangedFileKind.infra)
          × (k ≢ ChangedFileKind.docs)
          × ((name : Text) × (o ≡ some name) × (t ≡ normal name)))
component-gives t normal ChangedFileKind.test o = ((λ h. cc), (λ (e, _, _, _). absurd (e refl)))
component-gives t normal ChangedFileKind.infra o = ((λ h. cc), (λ (_, e, _, _). absurd (e refl)))
component-gives t normal ChangedFileKind.docs o = ((λ h. cc), (λ (_, _, e, _). absurd (e refl)))
component-gives t normal _ none = ((λ h. cc), (λ (_, _, _, (name, e, _)). cc))
component-gives t normal _ (some u) = (
  (λ h. ((λ e. cc), (λ e. cc), (λ e. cc), (u, refl, (text_eq_iff t (normal u)).0 h))),
  (λ (_, _, _, (name, e, same)).
      let at : name ≡ u = cc in (text_eq_iff t (normal u)).1 (same ∙ ap normal at)),
)

gives-ComponentFrom :
    (lower : Text → Text) (t : Text) (f : KindedFile)
    → (gives (component_of lower) t f ≡ true) ↔ ComponentFrom lower t f
unfolding component_of component_named
gives-ComponentFrom lower t f =
    component-gives t (normalize_for_comparison lower) f.kind (extract_component lower f.file.path)

-- A name is listed.
abbrev pub Listed : Text → List Text → Type 0
Listed t names = Exists (λ u. t ≡ u) names

affected_iff :
    (sort : List Text → List Text)
    (sort-any : (p : Text → Bool) (names : List Text) → any p (sort names) ≡ any p names)
    (name_of : KindedFile → Option Text) (From : KindedFile → Type 0) (t : Text)
    (files : List KindedFile)
    → ((f : KindedFile) → (gives name_of t f ≡ true) ↔ From f)
    → Listed t (sort (collect name_of files [])) ↔ Exists From files
affected_iff sort sort-any name_of From t files h =
    let names = any-Exists (text_eq t) (sort (collect name_of files [])) (text_eq_iff t) in
    let given = any-Exists (gives name_of t) files h in
    let same = sort-any (text_eq t) (collect name_of files []) ∙ any-collect name_of t files [] in
    ((λ e. given.0 (sym same ∙ names.1 e)), (λ e. names.0 (same ∙ given.1 e)))

-- For a sort that keeps the items: a route is listed exactly if a file of the kind route gives it, a
-- schema exactly if a file of the kind schema does, and a component exactly if it is the normalized
-- name that a file gives which is neither a test, nor infrastructure, nor documentation.
pub detect_affected_iff :
    (sort : List Text → List Text) (lower : Text → Text)
    (sort-any : (p : Text → Bool) (names : List Text) → any p (sort names) ≡ any p names) (t : Text)
    (files : List KindedFile)
    → (Listed t (detect_affected_routes sort files) ↔ Exists (RouteFrom t) files)
      × (Listed t (detect_affected_schemas sort files) ↔ Exists (SchemaFrom t) files)
      × (Listed t (detect_affected_components sort lower files)
          ↔ Exists (ComponentFrom lower t) files)
unfolding detect_affected_routes detect_affected_schemas detect_affected_components
detect_affected_iff sort lower sort-any t files = (
  affected_iff sort sort-any route_of _ t files (gives-RouteFrom t),
  affected_iff sort sort-any schema_of _ t files (gives-SchemaFrom t),
  affected_iff sort sort-any (component_of lower) _ t files (gives-ComponentFrom lower t),
)
