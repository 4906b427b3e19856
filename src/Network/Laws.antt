-- ===== src/Network/Laws.antt =====
-- When a network condition passes.
use qa_agent.Prelude.{
  Bool-cases, str_eq, ap, sym, subst, ◌∙◌, String, codes, inl, inr, none, Option, ◌≢◌, Exists,
  any-Exists, Contains, has_part-Contains, All-select, any-select-and, eq_iff, ◌≤◌, ◌<◌, ◌≡◌, refl,
  ◌⊎◌, ◌↔◌, Bool, true, false, ◌&&◌, List, [], ◌∷◌, some, arith, any, select, All, or_else,
}
use qa_agent.Domain.Plan.{NetworkState, NetworkExpected, PlanCondition}
use qa_agent.Domain.Observation.{NetworkSignal, ScreenObservation}
use qa_agent.Domain.Run.{AssertionResult}
use qa_agent.Plan.Schema.{has_text, is_empty}
use qa_agent.Network.{
  has_failure, failed_any, failed_4xx, failed_5xx, in_range, matches_url, app_signals, validate,
  validate_state, request_check, result,
}

-- What each kind of condition says of the signals that the checks get.
abbrev Holds : NetworkState → NetworkExpected → List NetworkSignal → Type 0
Holds net NetworkExpected.no_errors signals =
    All (λ s. (s.status < 400) × (has_text s.failure ≡ false)) signals
Holds net NetworkExpected.no_4xx signals =
    All (λ s. ((s.status < 400) ⊎ (500 ≤ s.status)) × (has_text s.failure ≡ false)) signals
Holds net NetworkExpected.no_5xx signals =
    All (λ s. (s.status < 500) × (has_text s.failure ≡ false)) signals
Holds net NetworkExpected.has_request_to signals =
    (has_text net.url_pattern ≡ true)
    × (any (λ s. matches_url (or_else net.url_pattern "") s && in_range net s) signals ≡ true)

is_empty-select :
    (p : NetworkSignal → Bool) (ss : List NetworkSignal)
    → (is_empty (select p ss) ≡ true) ↔ All (λ s. p s ≡ false) ss
is_empty-select p [] = (λ _. tt, λ _. refl)
is_empty-select p (s ∷ ss) = ground (arith, is_empty-select p ss)

-- The predicates of the three error conditions, read as bounds.
All-map {ℓ κ} :
    {P : NetworkSignal → Type ℓ} {Q : NetworkSignal → Type κ} (ss : List NetworkSignal)
    → ((s : NetworkSignal) → P s → Q s)
    → All P ss
    → All Q ss
All-map [] f h = tt
All-map (s ∷ ss) f h = (f s h.0, All-map ss f h.1)

any-select-select :
    (p q : NetworkSignal → Bool) (ss : List NetworkSignal)
    → (is_empty (select q (select p ss)) ≡ false) ↔ (any (λ s. p s && q s) ss ≡ true)
any-select-select p q [] = ground arith
any-select-select p q (s ∷ ss) = ground (arith, any-select-select p q ss)

bound_any :
    (s : NetworkSignal) → (failed_any s ≡ false) ↔ ((s.status < 400) × (has_text s.failure ≡ false))
unfolding failed_any has_failure
bound_any s = ground arith

bound_4xx :
    (s : NetworkSignal)
    → (failed_4xx s ≡ false)
      ↔ (((s.status < 400) ⊎ (500 ≤ s.status)) × (has_text s.failure ≡ false))
unfolding failed_4xx has_failure
bound_4xx s = ground arith

bound_5xx :
    (s : NetworkSignal) → (failed_5xx s ≡ false) ↔ ((s.status < 500) × (has_text s.failure ≡ false))
unfolding failed_5xx has_failure
bound_5xx s = ground arith

via :
    (p : NetworkSignal → Bool) (Q : NetworkSignal → Type 0) (ss : List NetworkSignal)
    → ((s : NetworkSignal) → (p s ≡ false) ↔ Q s)
    → (is_empty (select p ss) ≡ true) ↔ All Q ss
via p Q ss bound = (
  λ h. All-map ss (λ s. (bound s).0) ((is_empty-select p ss).0 h),
  λ h. (is_empty-select p ss).1 (All-map ss (λ s. (bound s).1) h),
)

request_iff :
    (net : NetworkState) (ss : List NetworkSignal)
    → ((request_check net ss).ok ≡ true) ↔ Holds net NetworkExpected.has_request_to ss
unfolding request_check result
request_iff net ss =
    ground (arith, any-select-select (matches_url (or_else net.url_pattern "")) (in_range net) ss)

state_iff :
    (net : NetworkState) (e : NetworkExpected) (ss : List NetworkSignal)
    → ((validate_state net e ss).ok ≡ true) ↔ Holds net e ss
unfolding validate_state result
state_iff net NetworkExpected.no_errors ss = via failed_any _ ss bound_any
state_iff net NetworkExpected.no_4xx ss = via failed_4xx _ ss bound_4xx
state_iff net NetworkExpected.no_5xx ss = via failed_5xx _ ss bound_5xx
state_iff net NetworkExpected.has_request_to ss = request_iff net ss

-- No failure is noted on a signal, or an empty one.
abbrev pub NoFailure : NetworkSignal → Type 0
NoFailure s = (s.failure ≡ none) ⊎ (s.failure ≡ some "")

-- A signal with a status in the range, from 200 to 399 where the condition does not say.
abbrev pub InRange : NetworkState → NetworkSignal → Type 0
InRange net s = (or_else net.min_status 200 ≤ s.status) × (s.status ≤ or_else net.max_status 399)

-- What each kind of condition says of all signals of a page, of which those of the application's own
-- origin count.
abbrev pub HoldsOn : NetworkState → NetworkExpected → List NetworkSignal → Type 0
HoldsOn net NetworkExpected.no_errors signals =
    All (λ s. s.is_app_origin ≡ true → (s.status < 400) × NoFailure s) signals
HoldsOn net NetworkExpected.no_4xx signals =
    All (λ s. s.is_app_origin ≡ true → ((s.status < 400) ⊎ (500 ≤ s.status)) × NoFailure s) signals
HoldsOn net NetworkExpected.no_5xx signals =
    All (λ s. s.is_app_origin ≡ true → (s.status < 500) × NoFailure s) signals
HoldsOn net NetworkExpected.has_request_to signals =
    (pattern : String) × (net.url_pattern ≡ some pattern)
    × (pattern ≢ "")
    × Exists
        (λ s. (s.is_app_origin ≡ true) × Contains (codes pattern) (codes s.url) × InRange net s)
        signals

has_text-none : (o : Option String) → (has_text o ≡ false) ↔ ((o ≡ none) ⊎ (o ≡ some ""))
has_text-none none = ((λ _. inl refl), (λ _. refl))
has_text-none (some s) = ground (arith, eq_iff s "")

has_text-some : (o : Option String) → (has_text o ≡ true) ↔ ((s : String) × (o ≡ some s) × (s ≢ ""))
has_text-some none = ground arith
has_text-some (some s) = (
  (λ h. (s, refl, λ e. absurd (ground (arith, h, (eq_iff s "").1 e)))),
  (λ (t, e, some_text).
      let same : t ≡ s = cc in
      elim (Bool-cases (str_eq s "")) [
        | inl empty ↦ absurd (some_text (same ∙ (eq_iff s "").0 empty))
        | inr full ↦ ground (arith, full)
      ]),
)

module _ (net : NetworkState) where
  -- The conditions on errors.
  All-app :
      (P Q : NetworkSignal → Type 0) (signals : List NetworkSignal)
      → ((s : NetworkSignal) → P s ↔ Q s)
      → All P (select (λ s. s.is_app_origin) signals)
        ↔ All (λ s. s.is_app_origin ≡ true → Q s) signals
  All-app P Q signals h =
      let own = All-select (λ s. s.is_app_origin) P signals in
      (
        (λ k. All-map signals (λ s f e. (h s).0 (f e)) (own.0 k)),
        (λ k. own.1 (All-map signals (λ s f e. (h s).1 (f e)) k)),
      )

  request-app :
      (pattern : String) (signals : List NetworkSignal)
      → (any (λ s. matches_url pattern s && in_range net s) (select (λ s. s.is_app_origin) signals)
          ≡ true)
        ↔ Exists
            (λ s. (s.is_app_origin ≡ true) × Contains (codes pattern) (codes s.url) × InRange net s)
            signals
  unfolding matches_url in_range
  request-app pattern signals =
      rw
        (any-select-and (λ s. s.is_app_origin) (λ s. matches_url pattern s && in_range net s)
          signals)
        (any-Exists _ signals
          (λ s. ground (arith, has_part-Contains (codes pattern) (codes s.url))))

  own_iff :
      (e : NetworkExpected) (signals : List NetworkSignal)
      → Holds net e (select (λ s. s.is_app_origin) signals) ↔ HoldsOn net e signals
  own_iff NetworkExpected.no_errors signals =
      All-app _ _ signals (λ s. ground (arith, has_text-none s.failure))
  own_iff NetworkExpected.no_4xx signals =
      All-app _ _ signals (λ s. ground (arith, has_text-none s.failure))
  own_iff NetworkExpected.no_5xx signals =
      All-app _ _ signals (λ s. ground (arith, has_text-none s.failure))
  own_iff NetworkExpected.has_request_to signals = (
    (λ (h, found).
        let (pattern, e, full) = (has_text-some net.url_pattern).0 h in
        let at : or_else net.url_pattern "" ≡ pattern = ap (λ o. or_else o "") e in
        (
          pattern,
          e,
          full,
          (request-app pattern signals).0 (
              subst
                (λ p.
                  any (λ s. matches_url p s && in_range net s)
                    (select (λ s. s.is_app_origin) signals)
                  ≡ true)
                at found),
        )),
    (λ (pattern, e, full, found).
        let at : pattern ≡ or_else net.url_pattern "" = ap (λ o. or_else o "") (sym e) in
        (
          (has_text-some net.url_pattern).1 (pattern, e, full),
          subst
              (λ p.
                any (λ s. matches_url p s && in_range net s) (select (λ s. s.is_app_origin) signals)
                ≡ true)
              at ((request-app pattern signals).1 found),
        )),
  )

-- A network condition is always decided, and it passes exactly when the signals of the application's
-- own origin satisfy it: no failure and no status of 400 or more; no failure and no 4xx; no failure
-- and no status of 500 or more; or a pattern is given, and the URL of some signal contains it and its
-- status lies in the range.
pub validate-Holds :
    (net : NetworkState) (obs : ScreenObservation)
    → (r : AssertionResult) × (validate (PlanCondition.network_state net) obs ≡ some r)
      × ((r.ok ≡ true) ↔ HoldsOn net net.expected obs.network_signals)
unfolding validate app_signals
validate-Holds net obs =
    let state = state_iff net net.expected (app_signals obs) in
    let own = own_iff net net.expected obs.network_signals in
    (
      validate_state net net.expected (app_signals obs),
      refl,
      ((λ h. own.0 (state.0 h)), (λ h. state.1 (own.1 h))),
    )
