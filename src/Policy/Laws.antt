-- ===== src/Policy/Laws.antt =====
-- What the action policy lets through.
use qa_agent.Prelude.{String, ◌≡◌, refl, ◌⊎◌, ◌↔◌, true, false, List, [], none, some, Exists, arith}
use qa_agent.Domain.Action.{ActionBody}
use qa_agent.Domain.Plan.{DestructiveActionPolicy}
use qa_agent.Domain.Run.{AttemptRecord}
use qa_agent.Domain.Config.{RunConfig}
use qa_agent.Policy.Words.{Destructive, looks_destructive_iff}
use qa_agent.Policy.Limits.{Under, AtLeast}
use qa_agent.Policy.{allowed, looks_destructive, validate_destructive_text}

-- What the policy asks of an action's body.
abbrev pub Permitted : ActionBody → RunConfig → List AttemptRecord → Type 0
Permitted (ActionBody.navigate to) config attempts =
    (config.allowed_routes ≡ none)
    ⊎ (config.allowed_routes ≡ some [])
    ⊎ ((routes : List String) × (config.allowed_routes ≡ some routes) × Exists (Under to) routes)
Permitted (ActionBody.click_at_coordinates x y) config attempts = AtLeast 3 attempts
Permitted _ config attempts = Unit

-- A text is allowed exactly when none of the destructive words stands in it on its own, in letters of
-- either case, or the policy of the run is ALLOW.
pub validate_destructive_text_iff :
    (text : String) (config : RunConfig)
    → (validate_destructive_text text config ≡ allowed) ↔ (
        (Destructive text → ⊥) ⊎ (config.destructive_action_policy ≡ DestructiveActionPolicy.allow))
unfolding validate_destructive_text
validate_destructive_text_iff text config = ground (arith, looks_destructive_iff text)

destructive_texts :
    (looks_destructive "Please DELETE this" ≡ true)
    × (looks_destructive "undeleted rows" ≡ false)
    × (looks_destructive "Send E-mail now" ≡ true)
unfolding looks_destructive
destructive_texts = (refl, refl, refl)
