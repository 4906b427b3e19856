-- ===== src/Scenario/Menu.antt =====
-- An element behind a menu that has to be opened.
use qa_agent.Prelude.{
  ℕ, zero, suc, String, true, List, [], ◌∷◌, Option, none, some, codes, str_eq, if◌then◌else◌,
}
use qa_agent.Domain.Action.{Locator}
use qa_agent.Domain.Observation.{ScreenObservation}
use qa_agent.Domain.Plan.{PlanActionBody}
use qa_agent.Effect.{done, threw}
use qa_agent.Effect.Ensures.{Ensures}
use qa_agent.Availability.{EnsureElementAvailablePolicy, AvailabilityPorts, ensure_available}
use qa_agent.Availability.Answer.{IsAnswer, ensure_available-IsAnswer}
use qa_agent.Scenario.{page}

-- The page has the title of the menu once it was opened.
abbrev observed : ℕ → ScreenObservation
observed zero = page
observed (suc n) = record page { title = "Menu"; visible_texts = "Sair" ∷ [] }

abbrev find : List String → Locator → Option String
find [] target = none
find (text ∷ more) target = if str_eq text "Sair" then some "el_001" else none

abbrev menu_ports : AvailabilityPorts
menu_ports = record {
  World = ℕ;
  execute = λ action w.
      done (record { ok = true; duration_ms = 5; error = none; extracted = none }) (suc w);
  wait_for_quiescence = λ ms w. threw w;
  observe = λ w. done (observed w) w;
  rebuild = λ obs w. done tt w;
  find_by_locator = λ obs target. find obs.visible_texts target;
  lower = codes;
}

abbrev menu_policy : EnsureElementAvailablePolicy
menu_policy = record {
  enabled = true;
  max_open_attempts = 2;
  allowed_containers =
      record {
        semantic_key = "account_menu";
        open_action = record { body = PlanActionBody.click_outside; reason = "open the menu" };
        expected_state = none;
      }
      ∷ [];
}

ensure_available-IsAnswer_example :
    Ensures
      (IsAnswer menu_ports 100 menu_policy (Locator.text "sair" none) page)
      (ensure_available menu_ports 100 menu_policy (Locator.text "sair" none) page)
ensure_available-IsAnswer_example =
    ensure_available-IsAnswer menu_ports 100 menu_policy (Locator.text "sair" none) page
