-- ===== src/Lib.antt =====
-- Teskra's core logic, modelled and verified.
--
-- Teskra is a desktop workbench that orchestrates coding agents. packages/shared holds pure functions
-- over the types of packages/contracts; the Electron main process, apps/desktop/src/main, keeps runs
-- in SQLite behind repositories, validates a workflow definition once, when a run is created, stores
-- the definition as the run's snapshot, and lets services move runs and steps along.
--
-- Base: what the modules share: texts, lists, association lists, Boolean tests.
--
-- Workflow/Types: packages/contracts/src/workflow.ts. Records for the parsed objects, data types for
-- the enums and the node union.
-- Workflow/Graph, Workflow/Validate: packages/shared/src/workflow.ts. The depth-first search
-- (findDependencyCycle) and the backward walk (unreachableAfterFiltering) recur on fuel: one more than
-- the number of steps, and one more than the active terminals and all dependencies together; the
-- results below hold for these bounds, so no search is cut short. A message is the values that its
-- sentence shows. What the Zod schema makes of the raw input is an argument. Texts are sorted by their
-- code points, which is the source's order of UTF-16 units outside the surrogate ranges.
-- Workflow/Repository: the tables workflow_runs and workflow_steps of
-- apps/desktop/src/main/db/repositories/workflow-run-repository.ts as lists in insertion order. SQL
-- statements succeed unless they break a primary key, and rows decode.
-- Workflow/Store: apps/desktop/src/main/workflows/workflow-run-store.ts (createRun, addStep,
-- transitionStep, advanceIteration, anchorCriteriaSet, setRunStatus), the state passed explicitly; the
-- clock and new ids are arguments. Calls of decisions.cancelBySource are logged in the tables' record.
-- Workflow/Engine: apps/desktop/src/main/workflows/workflow-engine.ts. A pass and the maps of the
-- engine (passes, suspendedSteps) are passed along with the tables; the events on the bus, the
-- calls of execute and those of finish are logged. Engine.antt is settleNode and startNode,
-- Engine/Schedule finishPass and schedule, Engine/Passes beginPass, Engine/Calls resolveStep,
-- cancel and complete. What an executor answers comes in by a later call of settle. An executor is
-- described by whether it can be cancelled and whether execute throws. The while loop of schedule
-- recurs on one more than the number of nodes; its calls of itself by way of settleNode are bounded
-- by two more than that number. The resolver of profile aliases, the clock and the ids of new steps
-- are arguments. The condition DSL, the agent executor and dispose are left out.
-- Workflow/Iterate: the loop of iteration-controller.ts in the same folder: Iterate.antt has the
-- anchor, the verdict and the parking at a cap, Iterate/Loop the caps, the body and the loop. One
-- round is a function (anchor, cap, pass, verdict, next iteration); the loop recurs on fuel, of
-- which one more than the rounds that the limit leaves is enough. The engine's start is an argument
-- here, of which the termination asks that it keeps the iteration of the run, and whether the
-- prompt and the step context can be prepared is a test. Iterate/Calls: iterate up to its loop, the
-- guard against a second loop and dispose; a promise of a loop is the id of its run.
-- Decisions: apps/desktop/src/main/decisions, the table pending_decisions (decision-repository.ts)
-- as a list in insertion order with its two unique indices, and in Decisions/Service the operations
-- of decision-service.ts, those that close rows in a loop and the handlers in Service/Closings.
-- Events, calls of handlers and the security log are logged in order. The three loops that close
-- rows are one function, given the status, the resolution and what follows. Adding milliseconds to
-- a time stamp is an argument; time stamps are compared as texts, as SQL does.
-- Permissions: apps/desktop/src/main/permissions/permission-manager.ts and
-- apps/desktop/src/main/db/repositories/permission-repository.ts. Permissions.antt is the projection of
-- rules on a profile, Permissions/Service the operations that change rules and decisions, Patterns and
-- Matched the rule that a command matches, Audit the audit of the commands of a run with its table. The
-- registry of agents, the runs and the classifier of commands are arguments. Extraction:
-- apps/desktop/src/main/permissions/command-extraction.ts, the buffer of lines and the markers; a
-- regular expression is the function that its test, exec or replace is.
-- Review: packages/shared/src/review-aggregate.ts, computeReviewVerdict. Criteria:
-- computeCriteriaReviewOutcome of packages/shared/src/index.ts.
-- Directives: packages/shared/src/message-directives.ts. A text is a list of UTF-16 code units (Base/Units
-- has the methods of strings). Directives.antt has the names, the values and the tokenizer,
-- Directives/Parse the mention, the slash directives and the whole parser, Directives/Printed a printer
-- for the round trip. The sentence of an error is made of the fields that are kept.
-- Migrations: apps/desktop/src/main/db/migrate.ts, with what the SQL and the hook of a migration do to
-- the schema as an argument.
-- Thread: apps/desktop/src/main/tasks/thread-projection.ts. Thread.antt is the reply of a run,
-- Thread/Pages the items, their order, the cursor and getThread. The repositories, which may fail, and
-- the terminal logs are arguments; Thread/Following is a reader that follows the cursors.
-- CriteriaSets: the tables of acceptance criteria (apps/desktop/src/main/db/repositories/
-- criteria-repository.ts). CriteriaSets/Manager: apps/desktop/src/main/tasks/criteria-manager.ts, every
-- operation, with the clock and new ids as arguments; the emitted task.updated events are the list
-- `updated`. CriteriaSets/Machine: what the manager promises, as a machine on the tasks and the
-- statuses of the sets.
-- Watchdog: apps/desktop/src/main/agents/run-watchdog-service.ts with inspectRunWatchdog of
-- packages/shared/src/index.ts. A check ends where it awaits failAndStop; Watchdog/Ticks puts the parts
-- together to inspect and tick, where the answers are given and nothing comes between. What is emitted
-- or asked for is the list `events`.
-- Routing: packages/shared/src/routing.ts; the sort is a stable insertion sort.
-- Messages: apps/desktop/src/main/tasks/send-message-service.ts, over the parsed directives. Messages/Runs
-- is the run of a message and sendMessage. The services that it calls are an argument; the calls that
-- change something are the log of the outcome. Where the source awaits, nothing comes between.
-- Confirmation: apps/desktop/src/main/workflows/shell-confirmation.ts over the modelled inbox. A promise is
-- a number, and `answers` are those that were settled.
--
-- Not modelled: the renderer, IPC wiring, process and Git control, account and recovery services, the
-- classifier of commands and the regular expressions that find them, and the parsing of agent output.
pub mod Base
pub mod Review
pub mod Routing
pub mod Confirmation
pub mod Criteria
pub mod CriteriaSets
pub mod Workflow
pub mod Decisions
pub mod Directives
pub mod Messages
pub mod Migrations
pub mod Thread
pub mod Watchdog
pub mod Permissions
