-- ===== src/ExitCodes.antt =====
-- src/interfaces/cli/exit-codes.ts: what the process exits with.
pub mod Laws
use qa_agent.Prelude.{
  ℕ, Bool, true, false, ◌||◌, List, [], ◌∷◌, Option, none, some, any, ltb, or_else, if◌then◌else◌,
}

pub data ExitCode : Type 0 where
  success bugs_found config_error harness_fatal timeout onboarding_blocked preflight_blocked :
      ExitCode

-- The number of an exit code.
pub exit_number : ExitCode → ℕ
exit_number ExitCode.success = 0
exit_number ExitCode.bugs_found = 1
exit_number ExitCode.config_error = 2
exit_number ExitCode.harness_fatal = 3
exit_number ExitCode.timeout = 4
exit_number ExitCode.onboarding_blocked = 5
exit_number ExitCode.preflight_blocked = 6

-- The classes of errors that are told apart.
pub data ErrorClass : Type 0 where
  config_error preflight_blocked_error correlation_blocked_error run_timeout_error
        harness_fatal_error other :
      ErrorClass

unfoldable pub classify_error : ErrorClass → ExitCode
classify_error ErrorClass.config_error = ExitCode.config_error
classify_error ErrorClass.preflight_blocked_error = ExitCode.preflight_blocked
classify_error ErrorClass.correlation_blocked_error = ExitCode.preflight_blocked
classify_error ErrorClass.run_timeout_error = ExitCode.timeout
classify_error ErrorClass.harness_fatal_error = ExitCode.harness_fatal
classify_error ErrorClass.other = ExitCode.harness_fatal

pub data RunStatus : Type 0 where
  passed failed blocked other : RunStatus

pub data BugSeverity : Type 0 where
  low medium high critical : BugSeverity

abbrev pub is_high : BugSeverity → Bool
is_high BugSeverity.high = true
is_high BugSeverity.critical = true
is_high _ = false

abbrev pub is_stopped : RunStatus → Bool
is_stopped RunStatus.blocked = true
is_stopped RunStatus.failed = true
is_stopped _ = false

-- `classifyResult`, on the severities of the bugs.
pub classify_result : Option (List BugSeverity) → RunStatus → ExitCode
classify_result bugs status =
    if any is_high (or_else bugs [])
    then ExitCode.bugs_found
    else if is_stopped status
    then ExitCode.bugs_found
    else ExitCode.success

pub severity_rank : ExitCode → ℕ
severity_rank ExitCode.success = 0
severity_rank ExitCode.config_error = 1
severity_rank ExitCode.bugs_found = 2
severity_rank ExitCode.preflight_blocked = 3
severity_rank ExitCode.onboarding_blocked = 4
severity_rank ExitCode.timeout = 4
severity_rank ExitCode.harness_fatal = 5

-- The function of the `reduce`.
worse : ExitCode → ExitCode → ExitCode
unfolding severity_rank
worse worst code = if ltb (severity_rank worst) (severity_rank code) then code else worst

reduce_codes : ExitCode → List ExitCode → ExitCode
unfolding worse
reduce_codes worst [] = worst
reduce_codes worst (code ∷ codes) = reduce_codes (worse worst code) codes

unfoldable pub most_severe_exit_code : List ExitCode → ExitCode
unfolding reduce_codes
most_severe_exit_code [] = ExitCode.success
most_severe_exit_code (code ∷ codes) = reduce_codes code codes
