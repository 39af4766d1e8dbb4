-- ===== src/Lib.antt =====
-- lite-harness: the kernel of a runtime for agent runs, as definitions that run and theorems on them.
--
-- A Gateway takes requests and hands them to a Manager. The Manager keeps runs in a SQLite store and
-- drives each run through its statuses with a coordinator, the run service, which takes a lease on the
-- workspace of the run, lets the agent call tools under approvals, and ends the run. Modelled are the
-- rules of a run, the store and the parts of the service that decide about them.
--
-- Run: a run with no store. Run/Status is `RunStatus`, `isTerminalRunStatus`
-- (packages/contracts/src/index.ts) and `assertRunTransition` (packages/domain/src/index.ts), with
-- what follows for the life of a run in Run/Transitions. Run/Record has the records. Run/ChildBudget
-- is `remainingChildBudget` and `boundedChildBudget` (packages/control-plane/src/index.ts), with
-- theorems in its child Allocation.
--
-- Store: packages/storage-sqlite/src/index.ts. A table is a list of rows in the order of insertion; a
-- `SELECT` by key is the first row that fits, an `UPDATE` rewrites the rows that fit, and a constraint
-- is a test before the insertion. A method takes the store and returns the new one with its result; a
-- method that throws returns an error, and the caller keeps the store, as a rollback does. Store/Json
-- has the payloads, Store/Rows the rows, Store/Tables the database and its errors, Store/Events the
-- event log (`appendEvent`), Store/Leases the workspace leases, Store/Approvals the approvals of tool
-- calls.
--
-- Service.* is the run service (packages/control-plane/src/index.ts) over that store. Service.State
-- holds the controllers of the executions and the list of notified runs; Service.Transition has
-- #transition and what a parent is told; Service.Cancel has cancelRun and #enforceBudget, with fuel
-- for the depth of the tree of runs, which the recursion over the children needs and the limit on the
-- depth of children bounds; Service.Ending has the catch and Service.Finish the finally of #execute, where the answers of the workspace lifecycle and of the
-- snapshot release are values of Execution and the text of a store error is a parameter. The
-- telemetry calls, which the source wraps so that they cannot fail, are left out, and so are the
-- timers: each call of the store has its own clock argument. A call that throws is an error without
-- the state: what it had committed before, in transactions of their own, is left out, that is the
-- transition of a run whose parent then refuses the summary with another error than that it has ended,
-- and the cancellations of the children before one that throws.
--
-- Automation.* is the pack of triggers (packages/automation/src/index.ts): Automation.Trigger has
-- validateTrigger and nextOccurrence, with Intl, Date and the hash of the jitter in a record
-- Platform; Automation.Sqlite is SqliteTriggerStore; Automation.Scheduler is SchedulerEngine.tick,
-- where a parameter says whether a run could be created. The loops over days and corrections have
-- the bounds of the source, four days and six corrections.
--
-- Access.* is packages/auth/src/index.ts (AccessTokenService in Access.Service, with the records and
-- tests of a request in Access.Request) over
-- packages/auth-sqlite/src/index.ts (Access.Token). SHA-256, scrypt and the test of the text of a
-- token are parameters, and what is drawn at random is an argument.
--
-- Routing.* is packages/provider-core/src/index.ts: Routing.Registry has ModelRegistry with
-- validateModel, plan and score, Routing.Cost has withAuthoritativeCost, Routing.Turn the
-- loops of streamTurn, Routing.Gateway has RoutedModelGateway (prepareRun, streamTurn and #plan) and Routing.Gateway.Bound has
-- CapabilityBoundModelGateway. An adapter, with the credential resolved before it, is a parameter:
-- the events that it yields and the error that ends them. The hooks are parameters too. Prices are
-- natural numbers of millionths of a dollar for a million tokens, and costs exact numbers of
-- 10^-14 dollars, where the source has floating-point numbers. prepareRun returns the plan, of which
-- the source picks some fields.
--
-- Agent.* is packages/agent-runtime/src/index.ts: Agent.Tools has compileAdvertisedToolValidators,
-- validateAdvertisedToolArguments, artifactCreatedPayload and the calls of a turn, Agent.Turns the
-- loop of AgentRunner.run over the stream and the turns. What a run does is a list of actions, in
-- which an event that is handed to the caller, a question to the model and the execution of a call
-- each have a constructor; the model, the tools and the hooks are functions of the messages so far.
-- The number of turns that are left, which the source counts too, makes the recursion end. The
-- preparation before the first messages is taken as done, with what it returned as fields of AgentRun.
--
-- Store.Resources, Store.Provision and Store.Submission are createOrGetRun of packages/storage-sqlite/src/index.ts, over
-- a Database that has the tables of agents, workspaces, sessions, messages and provider connections
-- beside the Store. The transaction is a value: an error keeps the database that there was. The check
-- of the workspaces of a session is written as the search for a run of the session in another
-- workspace, which finds one exactly where the set of the source is neither empty nor the one
-- workspace. The columns of those tables that no modelled operation reads are left out.
--
-- Service.Recovery is reconcileInterruptedRuns: each live run has its attempts ended and is given the
-- event of the restart, in transactions of their own, one after the other.
--
-- Service.Intake is createRun and Service.Children is createChildRun, over the Database of Store.Resources with the lists
-- of notified and scheduled runs beside it. The start of a scheduled run is not modelled.
--
-- Context.* is packages/context/src/index.ts: Context.Blocks has ContextStore, ContextOptimizationGate
-- and TenantContextRenderCache, Context.Compiler has ConservativeContextCompiler. The renders, which
-- the source awaits together, are taken to end in the order of the blocks.
--
-- Tests has a small database, runs of the definitions on it, and each theorem with hypotheses at a
-- concrete input.
--
-- Conventions. Times are milliseconds and the clock is an argument: the ISO texts that the source
-- compares have one length and the order of their numbers. Token counts and other JSON numbers are
-- natural numbers, money is a whole number of a fixed small unit (a millionth of a dollar in the
-- defaults), so the rounding of floating-point sums is outside the model. An absent field and `null` are
-- `none`. The stored idempotency key `length:user:key` is kept as the pair of its parts. Identifiers
-- that the source draws at random are arguments. Loops are recursion on lists.
--
-- Not modelled: the schemas of the HTTP API, provider adapters and delegated runtimes, the Docker and
-- browser runtimes, plugins, skills and MCP, credentials, configuration, the command line and the SDKs.
-- They are input and output, or optional packs around the kernel.
pub mod Common
pub mod Run
pub mod Store
pub mod Service
pub mod Automation
pub mod Access
pub mod Routing
pub mod Agent
pub mod Context
pub mod Tests
