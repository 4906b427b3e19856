-- ===== src/Lib.antt =====
-- Verification of the core of qa-agent: the execution of a test plan in a browser, the patches that
-- change a plan while it runs, the policies that guard it, and the reading of diffs.
--
-- Prelude holds the shared names, lists, tests and texts. A text that the source takes apart is a
-- list of code points; where its UTF-16 units would differ, no tested character is affected.
-- Domain holds the data of src/domain/schemas and src/domain/models (Action, Plan, Observation, Run,
-- Config), with the fields that the modelled code reads.
-- Effect is the asynchronous code: a call takes the world to a value and a world, throws, or pauses;
-- Effect.Ensures is the reasoning on every value that a call returns, and
-- Effect.Leaves that on the value together with the world that is left. Ports are the browser, the
-- decision provider and the services that only consult these, as parameters.
-- src/domain/schemas/execution-plan.schema.ts stands in Plan/Schema.antt, and
-- src/application/services/plan-patch-applier.service.ts in Plan/Patch.antt.
-- Policy is src/application/services/action-policy.service.ts, Network is
-- network-state-validator.service.ts and Recovery is recovery-policy.service.ts beside it. Runner is
-- plan-step-runner.service.ts: observe, checkAll, conditionEvaluations, planStep and tryReplan.
-- Graph is src/infra/graph/plan-execution.graph.ts: State its channels, Nodes one function for each
-- node, Route the edges, and Run the supersteps together with the loop over the approver in
-- src/application/services/plan-graph-executor.service.ts. The recursion limit of 100 supersteps is
-- the fuel of one invocation: running out of it is the limit error of the graph, and no result. The
-- number of pauses that are looked at is a parameter, and the theorems hold for every number. An
-- update with an undefined value overwrites its channel. Verdict and Ends carry the invariant of the
-- supersteps to the end of an execution.
-- GitDiff is src/infra/github/git-diff-*.parser.ts, with Kinds for git-diff-changed-file-classifier.ts
-- and Affected for git-diff-affected-*.detector.ts beside them; a regular expression on a path is
-- written out as a search, and the sort by localeCompare is a parameter. Routes is
-- src/domain/helpers/route-matcher.ts, and Select is select-by-property.helper.ts with its two users in
-- src/application/services/scenario-selectors, with toLowerCase as a parameter.
-- ExitCodes is src/interfaces/cli/exit-codes.ts.
-- TaskMemory is src/application/services/task-memory.service.ts; a call on an unknown task does nothing.
-- BugClassifier is src/application/services/bug-classifier.service.ts, with its regular expressions and
-- the host of a URL as parameters.
-- Executor is the loop of src/application/services/plan-executor.service.ts, on the same ports and
-- helpers as the graph: Attempt one attempt at a step, run_attempts the attempts, run_steps the loop
-- over the steps. A number of turns is the fuel of this loop, since a plan of the ports may change it;
-- Termination bounds the turns by the replans, the steps and the iterations that are left. What both
-- executors promise is the record IsVerdict of Runner.Versions; Runner.Final is the check of the final
-- assertions, which both end with.
-- Preflight is src/application/services/pipeline-preflight.service.ts: Variables reads the environment,
-- Consult asks the other systems, Report builds the report, Sanitized masks its texts.
-- Pipeline is src/application/use-cases/run-pipeline-all.usecase.ts: Steps the records and the gates;
-- its stages are parameters.
-- ToolQueue is src/application/services/tool-queue-to-execution-plan.mapper.ts, with Recorder for
-- tool-queue-execution-recorder.service.ts and Replan for replan-queue-to-plan-patch.mapper.ts and
-- orchestrator-replan.service.ts beside it; Items is the schema of the queues.
-- Availability is src/application/services/element-availability-resolver.service.ts. Its loop runs on
-- the number of openings that the policy allows, which is also the bound of the source.
-- Scenario is a small run on which the theorems are applied.
--
-- Left out: time stamps, durations and log lines, which nothing reads back; the resolution of locators
-- and the matching of runtime states, which are operations of the ports; and
-- the adapters, use cases and commands around the core.
pub mod Prelude
pub mod Domain
pub mod Plan
pub mod Policy
pub mod Effect
pub mod Network
pub mod Ports
pub mod Scenario
pub mod Recovery
pub mod Runner
pub mod Preflight
pub mod Pipeline
pub mod Availability
pub mod Routes
pub mod Select
pub mod ToolQueue
pub mod Graph
pub mod Executor
pub mod GitDiff
pub mod ExitCodes
pub mod TaskMemory
pub mod BugClassifier
