-- ===== src/ToolQueue/Recorder.antt =====
-- src/application/services/tool-queue-execution-recorder.service.ts: the report on the calls of a queue.
use qa_agent.Prelude.{
  ℕ, suc, ◌+◌, ◌≡◌, ◌↔◌, refl, ap, String, ◌<>◌, Bool, true, false, not, ◌&&◌, List, [], ◌∷◌, ◌++◌,
  Option, none, some, get_elem?, or_else, length, select, any, map, join, show, str_eq, is_some,
  ltb, arith, if◌then◌else◌,
}
use qa_agent.Plan.Schema.{has_text}
use qa_agent.ToolQueue.Items.{ToolQueueItem, tool_name}

-- `ToolResult`, with the fields that the report reads.
pub record ToolResult : Type 0 where
  pub ok : Bool
  pub duration_ms : ℕ
  pub error_code : Option String

pub record ToolExecutionRecord : Type 0 where
  pub step : ℕ
  pub tool : String
  pub ok : Bool
  pub duration_ms : ℕ
  pub error_code : Option String
  pub fallback_used : Bool

pub record ToolQueueExecutionReport : Type 0 where
  pub plan_id : String
  pub total_steps : ℕ
  pub passed_steps : ℕ
  pub failed_steps : ℕ
  pub fallback_steps : ℕ
  pub records : List ToolExecutionRecord
  pub summary : String
  pub has_blocks : Bool
  pub has_bugs : Bool

abbrev pub ok_of : Option ToolResult → Bool
ok_of none = false
ok_of (some r) = r.ok

record_of : ToolQueueItem → Option ToolResult → ToolExecutionRecord
record_of item result = record {
  step = item.step;
  tool = tool_name item.call;
  ok = ok_of result;
  duration_ms = elim result [ none ↦ 0 | some r ↦ r.duration_ms ];
  error_code = elim result [ none ↦ none | some r ↦ r.error_code ];
  fallback_used = is_some item.fallback;
}

-- The records from an index of the results on.
records_from : List ToolQueueItem → List ToolResult → ℕ → List ToolExecutionRecord
unfolding record_of
records_from [] results index = []
records_from (item ∷ items) results index =
    record_of item (get_elem? results index) ∷ records_from items results (suc index)

abbrev is_bug : ToolExecutionRecord → Bool
is_bug r = has_text r.error_code && not (str_eq (or_else r.error_code "") "OBSERVATION_FAILED")

status_text : Bool → String
status_text blocks = if blocks then "BLOCKED" else "OK"

unfoldable pub record_queue :
    String → List ToolQueueItem → List ToolResult → ToolQueueExecutionReport
unfolding records_from status_text
record_queue plan_id queue results =
    let records = records_from queue results 0 in
    let passed = length (select (λ r. r.ok) records) in
    let failed = length (select (λ r. not r.ok) records) in
    let fallbacks = length (select (λ r. r.fallback_used) records) in
    let blocks = ltb 0 failed in
    record {
      plan_id = plan_id;
      total_steps = length records;
      passed_steps = passed;
      failed_steps = failed;
      fallback_steps = fallbacks;
      records = records;
      summary = join "\n" (
          ("ToolQueue execution report for " <> plan_id)
          ∷ ("Total steps: " <> show (length records))
          ∷ ("Passed: " <> show passed)
          ∷ ("Failed: " <> show failed)
          ∷ ("Fallbacks defined: " <> show fallbacks)
          ∷ ("Status: " <> status_text blocks)
          ∷ []);
      has_blocks = blocks;
      has_bugs = any is_bug records;
    }

table_row : ToolExecutionRecord → String
table_row r =
    "| "
    <> show r.step
    <> " | "
    <> r.tool
    <> " | "
    <> (if r.ok then "PASS" else "FAIL")
    <> " | "
    <> show r.duration_ms
    <> "ms | "
    <> (if r.fallback_used then "Yes" else "No")
    <> " | "
    <> or_else r.error_code "-"
    <> " |"

bug_line : ToolExecutionRecord → String
bug_line r =
    "- **Step " <> show r.step <> "** (" <> r.tool <> "): " <> or_else r.error_code "undefined"

-- `toMarkdown`
pub markdown : ToolQueueExecutionReport → String
unfolding table_row bug_line
markdown r = join "\n" (
    ("# ToolQueue Execution Report"
      ∷ ""
      ∷ ("**Plan ID:** " <> r.plan_id)
      ∷ ("**Status:** " <> status_text r.has_blocks)
      ∷ ""
      ∷ "## Summary"
      ∷ ""
      ∷ "| Metric | Value |"
      ∷ "|--------|-------|"
      ∷ ("| Total Steps | " <> show r.total_steps <> " |")
      ∷ ("| Passed | " <> show r.passed_steps <> " |")
      ∷ ("| Failed | " <> show r.failed_steps <> " |")
      ∷ ("| Fallbacks | " <> show r.fallback_steps <> " |")
      ∷ ""
      ∷ "## Steps"
      ∷ ""
      ∷ "| Step | Tool | Result | Duration | Fallback | Error |"
      ∷ "|------|------|--------|----------|----------|-------|"
      ∷ map table_row r.records)
    ++ ((if r.has_bugs
          then "" ∷ "## Bugs" ∷ "" ∷ map bug_line (select (λ x. has_text x.error_code) r.records)
          else [])
        ++ (if r.has_blocks
            then "" ∷ "## Blocks" ∷ "" ∷ "Execution blocked due to step failures." ∷ []
            else [])))

-- Every item from an index on has a result that is ok.
pub AllOk : List ToolQueueItem → List ToolResult → ℕ → Type 0
AllOk [] results index = Unit
AllOk (item ∷ items) results index =
    ((r : ToolResult) × (get_elem? results index ≡ some r) × (r.ok ≡ true))
    × AllOk items results (suc index)

length-records_from :
    (queue : List ToolQueueItem) (results : List ToolResult) (i : ℕ)
    → length (records_from queue results i) ≡ length queue
unfolding records_from
length-records_from [] results i = refl
length-records_from (item ∷ queue) results i = ap suc (length-records_from queue results (suc i))

split-records :
    (records : List ToolExecutionRecord)
    → length (select (λ r. r.ok) records) + length (select (λ r. not r.ok) records) ≡ length records
split-records [] = refl
split-records (r ∷ records) = ground (arith, split-records records)

ok_of-some :
    (o : Option ToolResult) → ok_of o ≡ true → (r : ToolResult) × (o ≡ some r) × (r.ok ≡ true)
ok_of-some none h = cc
ok_of-some (some r) h = (r, refl, h)

none_failed-AllOk :
    (queue : List ToolQueueItem) (results : List ToolResult) (i : ℕ)
    → length (select (λ r. not r.ok) (records_from queue results i)) ≡ 0
    → AllOk queue results i
unfolding records_from AllOk
none_failed-AllOk [] results i h = tt
none_failed-AllOk (item ∷ queue) results i h = (
  ok_of-some (get_elem? results i) ground (arith, h),
  none_failed-AllOk queue results (suc i) ground (arith, h),
)

AllOk-none_failed :
    (queue : List ToolQueueItem) (results : List ToolResult) (i : ℕ)
    → AllOk queue results i
    → length (select (λ r. not r.ok) (records_from queue results i)) ≡ 0
unfolding records_from AllOk
AllOk-none_failed [] results i h = refl
AllOk-none_failed (item ∷ queue) results i ((r, found, good), h) =
    ground (arith, found, good, AllOk-none_failed queue results (suc i) h)

-- The report has a record for each item of the queue, each counted as passed or as failed; and it is
-- not blocked exactly if every item has a result of its index that is ok.
pub record_queue_counts :
    (plan_id : String) (queue : List ToolQueueItem) (results : List ToolResult)
    → let report = record_queue plan_id queue results in
      (report.total_steps ≡ length queue)
      × (report.passed_steps + report.failed_steps ≡ report.total_steps)
      × ((report.has_blocks ≡ false) ↔ AllOk queue results 0)
unfolding record_queue
record_queue_counts plan_id queue results = (
  length-records_from queue results 0,
  split-records (records_from queue results 0),
  (
    λ h. none_failed-AllOk queue results 0 ground (arith, h),
    λ h. ground (arith, AllOk-none_failed queue results 0 h),
  ),
)
