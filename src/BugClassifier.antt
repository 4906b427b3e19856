-- ===== src/BugClassifier.antt =====
-- src/application/services/bug-classifier.service.ts: which signals are bugs. The host of a URL and the
-- match of a message with a regular expression are parameters.
pub mod Laws
use Prim.Native.Char.{code}
use qa_agent.Prelude.{
  ℕ, String, ◌<>◌, Bool, true, false, not, ◌&&◌, ◌||◌, List, [], ◌∷◌, Option, none, some, str_eq,
  codes, has_part, has_prefix, has_suffix, any, show, or_else, ◌==◌, if◌then◌else◌,
}
use qa_agent.Domain.Config.{Classifier}

pub data BugSignalType : Type 0 where
  app_network_5xx app_network_4xx_unexpected third_party_network_failure : BugSignalType
  app_console_exception navigation_unexpected assertion_failure loading_stuck timeout :
      BugSignalType
  visual_broken tracking_error deprecation_warning : BugSignalType

pub data BugCategory : Type 0 where
  app_fault navigation_fault assertion_fault third_party_noise : BugCategory
  browser_extension_noise tracking_noise deprecation_warning : BugCategory

pub data Severity : Type 0 where
  low medium high critical : Severity

pub record BugClassification : Type 0 where
  pub is_bug : Bool
  pub category : BugCategory
  pub severity : Severity
  pub reason : String

pub record Signal : Type 0 where
  pub signal_type : BugSignalType
  pub message : String
  pub source : Option String
  pub status : Option ℕ
  pub level : Option String

-- The regular expressions on a message, and `new URL(url).host`, which is empty where the URL is none.
pub record Matchers : Type 0 where
  pub is_noise : String → Bool
  pub is_deprecation : String → Bool
  pub host : String → String

abbrev pub default_tracking_domains : List String
default_tracking_domains =
    "google-analytics.com" ∷ "googletagmanager.com" ∷ "doubleclick.net" ∷ "facebook.net"
    ∷ "connect.facebook.net" ∷ "hotjar.com" ∷ "segment.io" ∷ "segment.com" ∷ "clarity.ms"
    ∷ "mixpanel.com" ∷ "sentry.io" ∷ "newrelic.com" ∷ "omnitagjs.com" ∷ "googlesyndication.com"
    ∷ "adsafeprotected.com" ∷ "moatads.com" ∷ "amazon-adsystem.com" ∷ "outbrain.com" ∷ "taboola.com"
    ∷ []

bug : BugCategory → Severity → String → BugClassification
bug category severity reason = record {
  is_bug = true;
  category = category;
  severity = severity;
  reason = reason;
}

noise : BugCategory → String → BugClassification
noise category reason = record {
  is_bug = false;
  category = category;
  severity = Severity.low;
  reason = reason;
}

-- `value || fallback`
non_blank : String → String → String
non_blank s fallback = if str_eq s "" then fallback else s

-- `host === d || host.endsWith('.' + d)`
host_matches : String → String → Bool
host_matches host d = str_eq host d || has_suffix (codes ("." <> d)) (codes host)

-- `if (!source) return …`, for a source that is not there or empty.
with_source : Option String → Bool → (String → Bool) → Bool
with_source none missing f = missing
with_source (some s) missing f = if str_eq s "" then missing else f s

extension_url : String → Bool
extension_url s =
    any (λ p. has_prefix (codes p) (codes s))
      ("chrome-extension:" ∷ "moz-extension:" ∷ "webkit-extension:" ∷ "safari-extension:" ∷ [])

pub is_extension : Option String → Bool
unfolding with_source extension_url
is_extension source = with_source source false extension_url

-- The classification by status of an unexpected 4xx of the application.
classify_4xx : ℕ → String → BugClassification
unfolding bug
classify_4xx status message =
    if status == 401 || status == 403
    then bug BugCategory.app_fault Severity.high ("auth " <> show status <> ": " <> message)
    else if status == 404
    then bug BugCategory.app_fault Severity.medium ("not found 404: " <> message)
    else if status == 408 || status == 429
    then bug BugCategory.app_fault Severity.medium ("transient " <> show status <> ": " <> message)
    else bug BugCategory.app_fault Severity.high ("app " <> show status <> ": " <> message)

status_text : Option ℕ → String
status_text none = "unknown"
status_text (some n) = show n

-- The `switch` on the type of the signal.
classify_type : Classifier → Bool → Signal → BugSignalType → BugClassification
unfolding bug noise non_blank classify_4xx status_text
classify_type c is_app s BugSignalType.app_network_5xx =
    if is_app
    then bug BugCategory.app_fault Severity.critical
        (non_blank s.message ("app 5xx (" <> status_text s.status <> ")"))
    else if c.treat_third_party_network_5xx_as_bug
    then bug BugCategory.app_fault Severity.medium ("third-party 5xx: " <> s.message)
    else noise BugCategory.third_party_noise ("third-party 5xx " <> s.message)
classify_type c is_app s BugSignalType.app_network_4xx_unexpected =
    if is_app
    then classify_4xx (or_else s.status 400) s.message
    else noise BugCategory.third_party_noise ("third-party 4xx " <> s.message)
classify_type c is_app s BugSignalType.third_party_network_failure =
    noise BugCategory.third_party_noise s.message
classify_type c is_app s BugSignalType.app_console_exception =
    if is_app
    then bug BugCategory.app_fault Severity.high s.message
    else noise BugCategory.third_party_noise s.message
classify_type c is_app s BugSignalType.navigation_unexpected =
    bug BugCategory.navigation_fault Severity.high s.message
classify_type c is_app s BugSignalType.assertion_failure =
    bug BugCategory.assertion_fault Severity.high s.message
classify_type c is_app s BugSignalType.loading_stuck =
    bug BugCategory.app_fault Severity.high (non_blank s.message "loading infinito")
classify_type c is_app s BugSignalType.timeout =
    bug BugCategory.app_fault Severity.medium (non_blank s.message "timeout em ação crítica")
classify_type c is_app s BugSignalType.visual_broken =
    bug BugCategory.app_fault Severity.medium (non_blank s.message "layout quebrado")
classify_type c is_app s BugSignalType.tracking_error =
    noise BugCategory.tracking_noise (non_blank s.message "tracking failure")
classify_type c is_app s _ =
    bug BugCategory.app_fault Severity.medium (non_blank s.message "unclassified bug")

is_deprecation_type : BugSignalType → Bool
is_deprecation_type BugSignalType.deprecation_warning = true
is_deprecation_type _ = false

is_warning : Option String → Bool
is_warning none = false
is_warning (some l) = str_eq l "warning"

module _ (re : Matchers) where
  pub is_tracking : Classifier → Option String → Bool
  unfolding with_source host_matches
  is_tracking c source = with_source source false (λ s.
      any (host_matches (re.host s)) c.known_tracking_domains
      || any (host_matches (re.host s)) default_tracking_domains)

  pub is_third_party : Classifier → Option String → Bool
  unfolding with_source
  is_third_party c source =
      with_source source false
        (λ s. any (λ d. has_part (codes d) (codes s)) c.known_third_party_domains)

  pub is_app : Option String → List String → Bool
  unfolding with_source host_matches
  is_app source domains =
      with_source source true
        (λ s. not (str_eq (re.host s) "") && any (host_matches (re.host s)) domains)

  pub classify : Classifier → List String → Signal → BugClassification
  unfolding classify_type noise is_deprecation_type is_warning
  classify c domains s =
      if not (str_eq s.message "") && re.is_noise s.message
      then noise BugCategory.third_party_noise "matched configured/default noise regex"
      else if is_extension s.source
      then noise BugCategory.browser_extension_noise "browser extension origin"
      else if is_tracking c s.source
      then noise BugCategory.tracking_noise ("tracking endpoint " <> or_else s.source "")
      else if is_third_party c s.source
      then noise BugCategory.third_party_noise "configured third-party domain"
      else if is_deprecation_type s.signal_type
          || (is_warning s.level && re.is_deprecation s.message)
      then record {
        is_bug = false;
        category = BugCategory.deprecation_warning;
        severity = Severity.low;
        reason = "deprecation/warning message";
      }
      else classify_type c (is_app s.source domains) s s.signal_type
