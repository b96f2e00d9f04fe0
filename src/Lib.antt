-- ===== src/Lib.antt =====
-- QTest's job queue and workers, its session store, the cache, budget and router of its calls to
-- language models, its test planner, its coverage analyzer, its runs on a workspace, and its check
-- of generated tests.
--
-- The parts and how they interact. A pipeline (internal/jobs/pipeline.go) stores a job through the
-- repository (internal/jobs/repository.go) and then announces it on the subject of its type
-- (internal/nats/streams.go). Workers (internal/worker/base.go), one for each type in a pool
-- (internal/worker/pool.go), claim jobs under a lock and run a handler, which completes its job and
-- creates the job that follows; where it fails the worker fails the job. The seven handlers
-- (internal/worker/workers.go) clone a repository, build its model, plan and generate tests, repair
-- those that fail (internal/validator/fixer.go), test them by mutation and commit them. The API knows
-- its user by the session store (internal/auth/session.go), behind a login with GitHub
-- (internal/auth/github.go). Calls to language models go through a router with
-- retries (internal/llm/router.go), which a cache (internal/llm/cache.go) and a usage tracker
-- (internal/llm/usage.go) wrap. From the model of a code base (pkg/model/model.go), which a builder
-- makes from parsed files (pkg/model/builder.go), the planner
-- (pkg/model/planner.go) makes a plan of tests, and the analyzer (internal/codecov/analyzer.go)
-- finds gaps in a coverage report. On the command line a runner (internal/workspace/runner.go)
-- takes the targets of a workspace (internal/workspace/workspace.go) one after another and
-- generates a test for each. The test specification that a language model answers with is checked
-- before it is turned into code (internal/generator/irspec_validator.go).
--
-- The files:
--   Prelude: Boolean tests, lists measured by native numbers, signed integers, and Go's maps as
--     association lists; a sort; prefixes and suffixes of strings.
--   Jobs/Types, Jobs/Payloads: internal/jobs/types.go, the job with its type and status, `NewJob`,
--     the message and the payloads.
--   Jobs/Store: the tables of migrations/002_jobs.sql, transactions, and a monad of calls.
--   Jobs/Repository: the methods of `Repository`, one definition each: `create` is `Create`,
--     `claim` is `Claim` and so on. An operation takes the values of `uuid.New` and `time.Now`.
--     The methods that list jobs are in Jobs/Queries.
--     Its children: Rows (what may become of one row), Steps (the methods as one type, and the rows
--     of an abstract table), Outcomes and Commits (one method, when calls may fail and when none
--     does), Refines, Invariant, Held, Claims and Lists.
--   Jobs/Subjects: the switches of internal/nats/streams.go.
--   Jobs/Pipeline: the methods of `Pipeline`; Chain, Stored, Requeue and Keeps are about them.
--   Auth/Sessions: `SessionStore` with `Create`, `Get`, `Delete`, `GetByUserID`, `Extend`, `Count`
--     and a tick of `cleanup`, and `Middleware`; Consistent, Expiry and Runs are about them.
--   Auth/States: the store of OAuth states with `Generate`, `Validate` and a tick of `cleanup`, and
--     `AuthURL` and `Exchange` of the GitHub provider; Once is about them.
--   Llm/Cache: `MemoryCache` with `Get`, `Set`, `evictOldest` and a tick of `cleanup`.
--   Llm/Usage: `UsageTracker` with `Record`, `CheckBudget`, `RecentRecords` and the tickers, and
--     `TrackedRouter.Complete`.
--   Llm/Router: `getProvidersForTier`, `isRetryableError`, `completeWithRetry` and `Complete`.
--   Worker/Base: `BaseWorker` with `Run`, `processNext`, `processFromNATS`, `processFromDB`,
--     `processJob` and the ticks of `extendLockPeriodically`; its handler is a parameter. Valid and
--     Acks are about it. Worker/Pool: `initWorkers` and `Run` of `Pool`. Worker/Ancestry:
--     `getWorkspacePath` of three workers; Ends is about it.
--     Worker/Ingestion, Modeling, Planning, Generation, Validation, Mutation and Integration: the
--     workers of internal/worker/workers.go, with a definition `handle_job` for each `handleJob`,
--     in Handle where the loops of the worker are in its parent; each has a module Valid, and Closing
--     is the end that they share. Validation/Counts is about the results of the validation worker.
--     Worker/Paths: `writeTestFile`'s names, `deriveSourcePath` and `detectFramework`.
--     Worker/Handlers puts the handlers into the loop.
--   Model/Types: the records of pkg/model/model.go and intent.go. Model/Planner: `Plan` and
--     `PlanWithPyramid`; Counts and Targets are about them. Model/Builder: `NewBuilder` and
--     `AddParsedFile`; Model/Builder/Analysis: `computeRiskScores`, `generateTestTargets` and `Build`;
--     Modules and Targets are about them. Model/Adapter: `ConvertParsedFile`, `AddFile` and
--     `BuildSystemModelFromParser`; Belongs is about the whole.
--   Workspace/Targets: `WorkspaceState` with `AddTargets`, `GetNextTarget`, `UpdateTarget` and
--     `UpdateTargetCovered`; Maps and Added are about its map. Workspace/Generate: `generateTest`.
--     Workspace/Runner: `Run`, `runSequential`, `runParallel` and `Resume` of `Runner`; Ends and
--     Phases are about them.
--   Validator/Fixer: `FixTest` of internal/validator/fixer.go; Outcome is about it.
--   Coverage/Collector: `parseGoCoverage`. Coverage/Gaps: `findUncoveredFunctions`,
--     `findUncoveredEndpoints` and `findUncoveredLines`; Lines, Groups and Blocks are about the
--     last. Coverage/Analyzer: `prioritizeGaps`, `Analyze` and `GenerateTestIntents`.
--   Generator/Spec: pkg/model/irspec.go. Generator/Validator: `Validate` of
--     internal/generator/irspec_validator.go, with a definition for each of its methods, and in Texts
--     its tests on texts; Valid is about it.
--   Each Tests file holds test data and runs at concrete inputs.
--
-- State, failures and bounds. The database is two tables, a working copy for the transaction, and a
-- function that says which calls fail; it is left open, so every pattern of failures is covered. A
-- failed statement does not by itself abort its transaction here; a server that aborts it is the
-- pattern in which the commit fails too. A method runs with no other in between: what two
-- transactions may do at once is left to the database. An instant is a signed count of nanoseconds
-- without the range of `time.Time`; the counters of int64 and int32 wrap. Counts of retries are
-- natural numbers, as the column starts at 0 and is only counted up; so are the counts of targets
-- and tests and the numbers of lines. The loops go over a list, a number of rounds or a number of
-- retries left. Two run on fuel: the runner's, of which the number of pending targets and one more is
-- enough for the sequential loop, as each round takes one of them; and the walk from a job to its
-- first ancestor, of which the number of jobs and one more is enough, as a parent is an older row.
-- The workers of a parallel run stand one after another. A panic of the validation worker ends its
-- job without a record.
--
-- Not modelled: JSON encoders, the message stream's client, SHA-256, float64 and the clients of the
-- language models are parameters. Locks are left out: an operation of the store, the cache or the
-- tracker is one step, also `Get` of the store and of the cache, which release their lock between
-- the lookup and the change behind it, and `CheckBudget`, which shares a read lock and may set the
-- counter of the minute back under it. `TrackedRouter.Complete` is three steps with any calls of
-- others between them. A map's entries stand in one order of iteration, but the runner's draw of a
-- target is left open. A quotient of counts that is compared with 0.3 is compared by its products.
-- File systems, git, test tools, regular expressions and YAML are parameters of the runner, the
-- workers and the collector. The tables other than those of jobs are parameters: what the workers
-- ask of the tables of runs and tests stands as lists of calls. The second runner, the generators,
-- the API, the adapters and the commands are not modelled.
pub mod Prelude
pub mod Jobs
pub mod Auth
pub mod Llm
pub mod Worker
pub mod Model
pub mod Workspace
pub mod Validator
pub mod Coverage
pub mod Generator
