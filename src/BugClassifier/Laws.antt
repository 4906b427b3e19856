-- ===== src/BugClassifier/Laws.antt =====
-- What a classification says of its signal.
use qa_agent.Prelude.{◌≡◌, Bool, true, false}
use qa_agent.BugClassifier.{Signal, BugClassification, BugSignalType, Severity}

-- Only an application's own 5xx is critical, and what is no bug is low.
abbrev pub IsRated : Bool → Signal → BugClassification → Type 0
IsRated own s r =
    (r.is_bug ≡ false → r.severity ≡ Severity.low)
    × (r.severity ≡ Severity.critical
        → (own ≡ true) × (s.signal_type ≡ BugSignalType.app_network_5xx))
