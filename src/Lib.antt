-- ===== src/Lib.antt =====
-- Agent Workflow: a single-host control plane that admits repositories, turns Delivery Plans
-- (GitHub issues with native sub-issues and blockers) into dispatchable tickets, and runs Workers
-- on them. The library models the core logic of the Go program.
--
-- Prelude and Prelude/: the library names that all files share, Boolean tests on the native
-- numbers, list predicates, and `sort.Slice` as an insertion sort.
--
-- Delivery Plans, internal/plan:
--   Plan/Model: `Issue`, `Snapshot` and their methods (internal/plan/model.go).
--   Plan/Cycle: `hasCycle`. The marks are a function with Go's zero value. The depth-first search
--   takes fuel, one unit more than there are nodes; every call marks a node that was unseen, so
--   that is enough (Plan/Cycle/Fuel). Plan/Cycle/Graph has chains of blockers, and
--   Plan/Cycle/Decides the correctness of the answer.
--   Plan/Validate: `Snapshot.Validate`, each error return a constructor of `Reason`, with
--   `sentinel` for the error value that it wraps. Spec says what an admissible plan is; Children,
--   Entries and Dependencies treat the loops; Admission and Answers have the theorems.
--   Plan/Frontier: `ReadyFrontier` (internal/plan/frontier.go). `rank` takes fuel, one unit more
--   than there are ids: every call puts a new id on the path of the recursion (Fuel). Rank relates
--   ranks to the longest chains of blockers; Order treats the comparison; Selection the result.
--   Plan/Tests: small plans, and the theorems at them.
--
-- Dispatch across plans, internal/store/dispatch.go:
--   Store/Dispatch: `GlobalReadyFrontier`, `ActivePlanRoots` and the fairness cursor. A `Database`
--   has the rows that the transaction reads; the snapshot that `loadFrontierTx` reads of a version
--   and the predicate of an active plan stand in the plan's row. The outer dealing loop takes fuel,
--   one unit more than the capacity: every turn but the last deals a candidate. Deal has rounds on
--   whole lists, Turning and Rounds relate the index arithmetic of the loops to them, Fairness
--   treats the cursor, Frontier the whole query; Tests has two plans.
--
-- Ticket Claims and Worker Runs, internal/store/claim.go, session.go, poll.go and maintenance.go:
--   Store/Claim, Tables, Errors: the records `TicketClaim` and `WorkerIsolationProof`, the tables of
--   sessions, runs and leases (the schema of internal/store/sqlite.go) with the queries that the
--   transactions share, and the errors. Tables/Rows has the lemmas on updated tables and joined rows.
--   Store/Launch: `ReserveWorkerPrelaunch`, `AcquireWorkerContainerCreateFence` with the function that
--   releases it, `reserveWorkerLaunch`, `RequireCurrentDeliveryLease` and the test of
--   `WithCurrentAgentLease`.
--   Store/Isolating, Store/Fencing: the isolation targets, `requireWorkerIsolationTx`,
--   `FenceWorkerIsolation` and `AcknowledgeWorkerIsolation`. The database's order of texts is a
--   parameter.
--   Store/Calls: these calls as steps of the tables. Kept and Loops show what every step keeps, Marks
--   what stays true of a run, Refused that launched and fenced runs are refused, Acked and
--   Acknowledged that the proofs of an acknowledgement are accepted, Authority who may launch; Tests
--   follows one run from its reservation to its end.
--   Store/Maintenance: internal/store/maintenance.go; Maintenance/Idle counts the active runs.
--   Store/Ledger: the other tables of the claim transaction and `loadFrontierTx`; Ledger/Backoff has
--   the delay after an infrastructure failure.
--   Store/Attention: `markTicketNeedsAttentionTx`, `recoverExpiredDeliveryTx` and
--   `recordEstablishedSessionAuthenticationFailureTx`, but for the question and the diagnostics.
--   Store/Claiming, Opening, Granting: `ClaimReady`. A `Verdict` tells a rollback from an error after
--   a commit. `ProvisionSession` is a function of what it is asked, and the random ids come with the
--   request. Granting/Sound, Capacity, Lease and Answers treat what is claimed, the capacity, the
--   lease, and the answers; Granting/Tests has a plan with two tickets.
--   Store/Revision: `ClaimReviewRevision`; Revision/Lease treats its lease and the capacity.
--   Store/Recovery: `ReconcileMissingRecoveryRun` and `RecordRecoveryAuthenticationFailure`.
--   Recovery/Stopped and Authentication show that the run does not run any more after either.
--   The mutex of the store makes each call one step; a statement of the database driver succeeds.
--
-- Worker isolation, internal/isolation/coordinator.go:
--   Isolation: `IsolateWorkers` and `RetryWorkerTransition`. The store, the containers, the timer
--   and the caller's transition are functions on a world, in the record `Environment`.
--   Isolation/Runs: the runs of the retry loop as a relation; Isolation/Tests: a small world.
--
-- Scheduling, internal/scheduler/scheduler.go:
--   Scheduler: `ClaimNext`, `DispatchPaused`, `hostPressure` and `project`; what they call is a
--   function on a world, in the record `Dispatcher`. Scheduler/Claims says when a claim is given;
--   Scheduler/Tests has a safe and an unsafe host.
--
-- Setup Plans, internal/setupcontract and internal/setupeffect:
--   SetupContract/Text: the regular expressions of validate.go and blank texts, on characters.
--   SetupContract/Registry: the descriptors of internal/setupeffect/registry.go and `Lookup`.
--   SetupContract/Model: the records of internal/setupcontract/model.go.
--   SetupContract/Checks: errors one after the other, on a condition, and over a list.
--   SetupContract/Effects, Validate, Verify: `validateEffect`, `Plan.Validate`, and
--   `VerifyExpectedResults` with `ExecutionResult.Validate`; each returned error is a constructor of
--   `Problem`. encoding/json, `strings.EqualFold` and `strings.ToLower` are functions of the
--   records `Json`, `Library` and `Texts`.
--   SetupContract/Secrets: `findSecret` on JSON values.
--   SetupContract/Admitted, Ordered, Checked, Identities, Results: what an accepted plan, effect and
--   execution record promise; Tests has a plan.
--
-- Ids, issue numbers and counters are natural numbers; the source's int and int64 are only
-- compared and counted there. Maps are association lists in the order of iteration, or functions.
--
-- Not modelled: SQLite access, the GitHub HTTP adapters, Git, Docker, the operating system's
-- services, command-line parsing, and the installers; they are input and output. The fingerprint,
-- activation and projection of internal/plan, the other transactions of internal/store (candidates,
-- deliveries, feedback, questions, amendments, migrations), `Claim` and `Recover` of
-- internal/scheduler, and the canonical JSON of internal/setupcontract are outside the library.
pub mod Prelude
pub mod Plan
pub mod Store
pub mod Isolation
pub mod SetupContract
pub mod Scheduler
