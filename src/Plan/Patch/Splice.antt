-- ===== src/Plan/Patch/Splice.antt =====
-- Where the steps of a patched plan come from.
use qa_agent.Prelude.{
  ℕ, suc, String, ◌≡◌, ◌≢◌, refl, sym, List, [], ◌∷◌, ◌++◌, some, str_eq, eq_iff, get_elem?, take,
  drop, last?, append-nil, append_assoc, take-drop_at, take-suc, drop_at, last?-append,
  find_index-get_elem?,
}
use qa_agent.Domain.Plan.{ExecutionStep, PatchOperation}
use qa_agent.Plan.Patch.{step_index, splice, affected_at}

-- What an operation takes away at the step with the id `id`.
abbrev pub Shape :
    PatchOperation → String → List ExecutionStep → List ExecutionStep → List ExecutionStep → Type 0
Shape PatchOperation.insert_after id front removed back =
    (s : ExecutionStep) × (last? front ≡ some s) × (s.id ≡ id) × (removed ≡ [])
Shape PatchOperation.replace_step id front removed back =
    (s : ExecutionStep) × (removed ≡ s ∷ []) × (s.id ≡ id)
Shape PatchOperation.replace_remaining_steps id front removed back =
    (s : ExecutionStep) × (rest : List ExecutionStep) × (removed ≡ s ∷ rest)
    × (s.id ≡ id)
    × (back ≡ [])
Shape PatchOperation.mark_blocked id front removed back = ⊥

-- One contiguous part of the old steps is exchanged for the steps of the patch.
pub record Edit (operation : PatchOperation) (id : String) (fresh old new : List ExecutionStep)
    : Type 0 where
  pub front : List ExecutionStep
  pub removed : List ExecutionStep
  pub back : List ExecutionStep
  pub before : old ≡ front ++ (removed ++ back)
  pub after : new ≡ front ++ (fresh ++ back)
  pub shape : Shape operation id front removed back

-- The index found is that of a step with the id.
step_index-get_elem? :
    (steps : List ExecutionStep) (id : String) (i : ℕ)
    → step_index steps id ≡ some i
    → (s : ExecutionStep) × (get_elem? steps i ≡ some s) × (s.id ≡ id)
unfolding step_index
step_index-get_elem? steps id i h =
    let (s, found, same) = find_index-get_elem? (λ s. str_eq s.id id) steps i h in
    (s, found, (eq_iff s.id id).0 same)

module _ (old fresh : List ExecutionStep) (id : String) (i : ℕ)
    (found : step_index old id ≡ some i) where
  splice-insert :
      Edit PatchOperation.insert_after id fresh old (splice PatchOperation.insert_after i old fresh)
  unfolding splice
  splice-insert =
      let (s, at, same) = step_index-get_elem? old id i found in
      record {
        front = take (suc i) old;
        removed = [];
        back = drop (suc i) old;
        before = rw (take-suc old i at) (rw append_assoc (sym (take-drop_at old i at)));
        after = refl;
        shape = (s, rw (take-suc old i at) (last?-append (take i old) s), same, refl);
      }

  splice-replace :
      Edit PatchOperation.replace_step id fresh old (splice PatchOperation.replace_step i old fresh)
  unfolding splice
  splice-replace =
      let (s, at, same) = step_index-get_elem? old id i found in
      record {
        front = take i old;
        removed = s ∷ [];
        back = drop (suc i) old;
        before = sym (take-drop_at old i at);
        after = refl;
        shape = (s, refl, same);
      }

  splice-remaining :
      Edit PatchOperation.replace_remaining_steps id fresh old
        (splice PatchOperation.replace_remaining_steps i old fresh)
  unfolding splice
  splice-remaining =
      let (s, at, same) = step_index-get_elem? old id i found in
      record {
        front = take i old;
        removed = s ∷ drop (suc i) old;
        back = [];
        before = rw append-nil (sym (take-drop_at old i at));
        after = rw append-nil refl;
        shape = (s, drop (suc i) old, refl, same, refl);
      }

  -- What is taken away is what the safety checks look at.
  pub splice-Edit :
      (operation : PatchOperation)
      → operation ≢ PatchOperation.mark_blocked
      → (e : Edit operation id fresh old (splice operation i old fresh)) × (e.removed
          ≡ affected_at operation (some i) old)
  unfolding affected_at
  splice-Edit PatchOperation.insert_after _ = (splice-insert, unfold splice-insert in refl)
  splice-Edit PatchOperation.replace_step _ =
      let (s, at, same) = step_index-get_elem? old id i found in
      (splice-replace, unfold splice-replace in rw (drop_at old i at))
  splice-Edit PatchOperation.replace_remaining_steps _ =
      let (s, at, same) = step_index-get_elem? old id i found in
      (splice-remaining, unfold splice-remaining in sym (drop_at old i at))
  splice-Edit PatchOperation.mark_blocked no_block = absurd (no_block refl)
