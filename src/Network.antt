-- ===== src/Network.antt =====
-- src/application/services/network-state-validator.service.ts: conditions on the network signals of
-- an observation.
pub mod Laws
use Prim.Native.Char.{code}
use qa_agent.Prelude.{
  ℕ, String, ◌<>◌, Bool, true, false, not, ◌&&◌, ◌||◌, List, [], ◌∷◌, Option, none, some, codes,
  has_part, leb, ltb, length, select, show, or_else, join, if◌then◌else◌, str_eq,
}
use qa_agent.Domain.Plan.{NetworkState, NetworkExpected, PlanCondition}
use qa_agent.Domain.Observation.{NetworkSignal, ScreenObservation}
use qa_agent.Domain.Run.{AssertionResult}
use qa_agent.Plan.Schema.{has_text, is_empty}

-- `s.failure` as a test.
pub has_failure : NetworkSignal → Bool
has_failure s = has_text s.failure

pub failed_any : NetworkSignal → Bool
unfolding has_failure
failed_any s = leb 400 s.status || has_failure s

pub failed_4xx : NetworkSignal → Bool
unfolding has_failure
failed_4xx s = (leb 400 s.status && ltb s.status 500) || has_failure s

pub failed_5xx : NetworkSignal → Bool
unfolding has_failure
failed_5xx s = leb 500 s.status || has_failure s

pub in_range : NetworkState → NetworkSignal → Bool
in_range net s =
    leb (or_else net.min_status 200) s.status && leb s.status (or_else net.max_status 399)

pub matches_url : String → NetworkSignal → Bool
matches_url pattern s = has_part (codes pattern) (codes s.url)

pub app_signals : ScreenObservation → List NetworkSignal
app_signals obs = select (λ s. s.is_app_origin) obs.network_signals

expected_name : NetworkExpected → String
expected_name NetworkExpected.no_errors = "no_errors"
expected_name NetworkExpected.no_4xx = "no_4xx"
expected_name NetworkExpected.no_5xx = "no_5xx"
expected_name NetworkExpected.has_request_to = "has_request_to"

-- `method url → status`, with the failure in parentheses where the check names it.
describe : Bool → NetworkSignal → String
describe with_failure s =
    s.method
    <> " "
    <> s.url
    <> " → "
    <> show s.status
    <> (if with_failure && has_text s.failure then " (" <> or_else s.failure "" <> ")" else "")

descriptions : Bool → List NetworkSignal → List String
unfolding describe
descriptions f [] = []
descriptions f (s ∷ ss) = describe f s ∷ descriptions f ss

-- `failed.map(…).join('; ') || fallback`
detail_of : Bool → String → List NetworkSignal → String
unfolding descriptions
detail_of f fallback failed =
    let text = join "; " (descriptions f failed) in if str_eq text "" then fallback else text

expected_text : NetworkState → String
unfolding expected_name
expected_text net =
    expected_name net.expected
    <> (if has_text net.url_pattern then " (" <> or_else net.url_pattern "" <> ")" else "")

result : NetworkState → Bool → String → AssertionResult
unfolding expected_text
result net verdict detail = record {
  ok = verdict;
  type = "network_state";
  expected = some (expected_text net);
  actual = some detail;
}

request_check : NetworkState → List NetworkSignal → AssertionResult
unfolding result
request_check net signals =
    let matched = select (matches_url (or_else net.url_pattern "")) signals in
    let good = select (in_range net) matched in
    if has_text net.url_pattern
    then result net (not (is_empty good)) (
        "found "
        <> show (length good)
        <> "/"
        <> show (length matched)
        <> " matching requests in range "
        <> show (or_else net.min_status 200)
        <> "-"
        <> show (or_else net.max_status 399))
    else record {
      ok = false;
      type = "network_state";
      expected = some "has_request_to with urlPattern";
      actual = some "urlPattern missing";
    }

validate_state : NetworkState → NetworkExpected → List NetworkSignal → AssertionResult
unfolding result request_check
validate_state net NetworkExpected.no_errors signals =
    let failed = select failed_any signals in
    result net (is_empty failed) (detail_of true "no network errors" failed)
validate_state net NetworkExpected.no_4xx signals =
    let failed = select failed_4xx signals in
    result net (is_empty failed) (detail_of false "no 4xx errors" failed)
validate_state net NetworkExpected.no_5xx signals =
    let failed = select failed_5xx signals in
    result net (is_empty failed) (detail_of false "no 5xx errors" failed)
validate_state net NetworkExpected.has_request_to signals = request_check net signals

-- `validate`: `undefined` for a condition of another type.
unfoldable pub validate : PlanCondition → ScreenObservation → Option AssertionResult
unfolding validate_state app_signals detail_of
validate (PlanCondition.network_state net) obs =
    some (validate_state net net.expected (app_signals obs))
validate _ obs = none
