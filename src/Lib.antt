-- ===== src/Lib.antt =====
-- A model of parts of the Axionvera SDK, a TypeScript library for Soroban contracts of the Stellar network.
--
-- The parts, which the rest of the SDK calls and which share no state with each other:
--
-- Lifecycle models src/lifecycle, src/transactions and src/events: the TransactionStateMachine
-- (Lifecycle/State), the LifecycleEventEmitter (Lifecycle/Events) and the TransactionLifecycleManager, which
-- uses both (Lifecycle/Manager). An operation takes the manager and gives the new one with the events that
-- each listener is called with, or an error. Its answers are in Lifecycle/Query, and
-- Lifecycle/Calls runs lists of calls. Trace, History, Notice and Frame prove.
--
-- Features models src/features: the types and the evaluation functions (Features/Flag, Evaluation, Policy),
-- the flags that come with the SDK (BuiltIn) and FeatureFlagsService (Service), whose two maps are
-- association lists. Registry, Enabled, Summary and Story prove.
--
-- Queue models src/utils/concurrencyQueue.ts: the fields of ConcurrencyQueue and its methods (Queue/State)
-- and the statistics (Queue/Stats). A request is its id, and its function
-- does not call the queue before it first waits. A call from outside, the end of a request and
-- the firing of a timer are one step each, and the steps (Queue/Steps) come in any order. The code between
-- two awaits is not interrupted, so a step is all that runs before control returns. Process, Settled and
-- Progress prove.
--
-- Batch models src/batch: BatchBuilder (Batch/Builder), BatchValidator (Batch/Validator, and its detectCycles in
-- Batch/Cycles) and BatchExecutor (Batch/Executor), which calls the validator. The transaction builder of
-- @stellar/stellar-sdk, the RPC client, the clock and the text of a number are parameters of the executor, with
-- nothing assumed of them. Dfs, Fuel, Checks, Accepts, Results, Counts, Summary and Building prove.
--
-- Retry models src/retry: errorClassification.ts (Retry/Error), policies.ts (Retry/Policy) and withRetry
-- (Retry/Loop). What `fn` does, the clock, the signal and the random draws are parameters, by the number of the
-- attempt. Classes, Delay, Rounds and Ends prove.
--
-- Migration models src/migrations: MigrationRegistry with its breadth-first search (Migration/Registry),
-- MigrationStateValidator (Migration/Validator) and MigrationRunner, which uses both (Migration/Runner). The steps
-- and the schemas are arguments. Edges, Scan, Found, Paths, Fuel, Resolve, Undo and Outcomes prove. The text of a
-- report (migrationReporter.ts) and its times are left out.
--
-- Network models src/network/rpcEndpointManager.ts: RpcEndpointManager (Network/Endpoints). What the health
-- monitor answers, `fn` and the random draws are parameters, by the number of the attempt; a call of `execute` runs
-- without another one in between. Picks, Failover and Best prove.
--
-- Plugin models src/plugin: the table of states (Plugin/Lifecycle), versions (Plugin/SemVer), the validation of a
-- plugin and of its dependencies (Plugin/Validation), the search for cycles (Plugin/Cycles), topologicalSort
-- (Plugin/Order), and PluginManager: its fields and the parts of its methods (Plugin/Runs), the methods that change
-- the plugins (Plugin/Manager), those for clients and the queries (Plugin/Clients), and lists of calls
-- (Plugin/Calls); and the registry of manifests (Plugin/Registry, with Resolved, Listed and Resolution). A hook is a function
-- of the number of hooks that ran before, and a method runs to its end before the next one starts; what `register` does not await is a list of pending tasks. What `localeCompare` answers is a
-- parameter. Grammar, Versions and Precedence prove on versions; Members, Explored, Searches, Uncycled, Traced, Placed, Sorted
-- and Topology on the order; Keeps, Moves, Steps, Installs, Histories, Keyed, Settled, Required, Satisfied, Departed,
-- Overrides, Standing and Enabling on the manager.
--
-- Health models src/monitoring/rpcHealthMonitor.ts: an endpoint with its metrics (Health/Endpoint) and
-- RpcHealthMonitor (Health/Monitor). A round asks all endpoints at once; the end of a check is an event of its own,
-- with its answer and its time, in any order, and so is the timer of `start`. A quotient is kept as a pair of
-- numbers. Metrics proves on the checks of one endpoint, Rounds on the monitor, Reports on its report.
--
-- Reconnection models src/network/reconnectionManager.ts: ReconnectionManager (Reconnection/Manager), with the timers
-- that are set and the calls of `connectFn` that run in its state, and its events (Reconnection/Steps). Orderly
-- proves on all events, Outage on a row of failures.
--
-- Environment models src/network/environmentPresets.ts (Environment/Presets) and EnvironmentManager of
-- src/network/environmentManager.ts (Environment/Manager). The passphrases of stellar-sdk are a parameter. Fit
-- proves on `validate` and `switch`, Histories on lists of calls.
--
-- Session models src/session: ContractSession (Session/Contracts) and SessionManager (Session/Manager). Clients,
-- wallets and instances are handles; a client's call on a session that the manager has is a call on its state. Acts
-- proves on one session, Histories on the manager.
--
-- Middleware models src/middleware/pipeline.ts: MiddlewarePipeline (Middleware/Pipeline). A hook is a function that
-- may change its context and return another. Onion proves on `execute`, Order on the order.
--
-- Prelude has what they share: tests on numbers, lists, maps with string keys, and results that may be
-- thrown errors (Throw).
--
-- Numbers are natural numbers where the source only counts, indexes or measures time, and whole numbers
-- where it tests for a sign; the fractions and the NaN of a JavaScript number are not modelled. These
-- functions run on fuel. The fuel of the depth-first search of Batch/Cycles is the number of transactions and
-- one more, which is enough since a level of the search paints one more of them. The loop of Retry/Loop takes
-- one unit for each attempt, so it has enough with one more than the number of attempts that are allowed; a
-- source loop that nothing bounds has no such number. The search of Migration/Registry takes one unit for each
-- entry of its queue, and a step adds at most one entry, so two more than the number of steps are enough. The
-- searches of Plugin/Cycles and Plugin/Order have a level for each id that they can meet, and one more, which is
-- enough since a level marks one more of them; `install` of Plugin/Manager never calls itself, so one unit is enough.
-- `resolve` of Plugin/Registry has a level for each id that stands in the registry, one for the id asked for, and
-- one more.
--
-- Logging, the contents of results of requests, and all of the SDK that talks to the network are not
-- modelled, nor are the other folders of src.
mod Prelude
pub mod Lifecycle
pub mod Features
pub mod Queue
pub mod Batch
pub mod Retry
pub mod Migration
pub mod Network
pub mod Plugin
pub mod Health
pub mod Reconnection
pub mod Environment
pub mod Session
pub mod Middleware
