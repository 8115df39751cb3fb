-- ===== src/Lib.antt =====
-- AutoCertX: the control plane's jobs, and the issuance of certificates on them.
--
-- The control plane keeps durable jobs. The planner of internal/scheduler asks the job service
-- (internal/application/command/jobs/service.go) for one job per plan and time slot; workers claim
-- due jobs under a lease, renew the lease while they execute, and complete or fail the job, which
-- is then retried with a growing delay while it has attempts left; the reaper takes back the jobs
-- whose lease ran out. The service stores the jobs through a repository, here the one in memory.
-- What such a job does is issuing a certificate: internal/workflow takes a certificate request,
-- for domains of the inventory and an account at a CA, through an issue workflow with its ACME
-- challenges, one job for each stage, and stores the certificate as a version of an asset. Agents
-- register as nodes, and a job finds the nodes that can do its work by capability and label.
--
-- Which file models what:
--   Prelude         numbers, lists, `(value, error)` as Result, sorting, membership, integers; Exec
--                   is a step on a state that may leave early, with the rules for what it keeps, Runs for
--                   what holds where it ends and where it leaves
--   Text, Dict      strings.TrimSpace, strings.ToLower, ...; Go maps as association lists
--   Job             internal/domain/job: Status, AttemptStatus, Attempt, Record (Job, New and the
--                   guards), Lifecycle (Claim, MarkRunning, Renew, ..., Cancel); Invariant, Effects
--                   and AttemptEffects hold what the transitions guarantee
--   JobStore        internal/application/command/jobs/memory_repository.go: State (the three maps),
--                   Commands and Reaping (one function per method); the other modules prove: the
--                   history of a job (History, Invariant), each command (Adding, Claiming,
--                   Completing, Preserving, Cancelling, Expiring), the repository as a state
--                   machine (Reachable), and what follows (Ownership, Finality)
--   JobService      internal/application/command/jobs/service.go: Backoff (Delay), Plans (slot),
--                   Service (the methods)
--   Scheduler       internal/scheduler: planner, reaper and worker rounds
--   Resource        internal/domain/resource: the scope of a record; Stores has what the services of
--                   internal/domain share
--   IssueWorkflow   internal/domain/issueworkflow/service.go: the statuses and their transitions,
--                   State, Commands, Challenges; Progress, Issuance, Ways,
--                   Requests, Refusals and Validity prove
--   CertificateRequest  internal/domain/certificaterequest/service.go: Status, State, Input
--                   (normalizeCreateInput), Commands; Normal, Once and Progress prove
--   CertificateAsset    internal/domain/certificateasset/service.go: State, Commands; History, Reissue and Reachable prove
--   Domains         internal/domain/domains/service.go: State, Commands; Names, Preserving and Unique prove
--   Issuer          internal/domain/issuer/service.go
--   AgentNode       internal/domain/agentnode/service.go: State, Normal (normalizing and validating),
--                   Commands; Suitable, Required, Matching, Disabling and Tokens prove
--   Orchestration   internal/workflow: Drivers (what is not in the repository or not a service),
--                   World (the services as one state), Steps (the shared calls), Start
--                   (processStartJob), Rounds (continueChallengePending and -Processing), Continue
--                   (processContinueJob and the rest), Submit (SubmitRequest, RenewAsset,
--                   ProcessJob, Execute); Keeping, Rounding, Handlers, Progress, Stuck and
--                   Restarting prove
--   Tests           runs on small inputs
--
-- A method of a repository or service holds its mutex throughout, so it is one function from a
-- state to an answer and a state; interleavings are sequences of such steps. A handler of the
-- orchestration is a sequence of such calls with no other caller in between. A method that fails
-- after it has changed a map keeps the change, as in the source. The clock, the drawn ids and the
-- order in which a Go map is ranged over are arguments; the ACME, DNS and HTTP-01 drivers are the
-- fields of a record Drivers, functions on a state of their own. Errors of the services are their
-- kinds, and their texts are a function of the kind. `time.Time` is a number of nanoseconds since
-- year 1, `time.Duration` an integer. Counters are numbers without a bound but for the version, which
-- wraps at 2 ^ 64. `float64` is a record of operations (Floats), whose laws are the hypotheses
-- FloatLaws, for policies whose numbers stay in range (IsModerate). Loops are structural recursion over a list or the number of rounds left, so that no
-- fuel is needed.
--
-- Not modelled: HTTP, configuration, SQL (the postgres repository), the drivers behind their
-- interfaces and the transport to agents, the web console, DNS credentials, deployment targets,
-- settings, audit, tenancy and identity. The worker's goroutine that renews a lease is the sequence
-- of its heartbeats; what the worker executes is what it returns and when.
pub mod Prelude
pub mod Text
pub mod Dict
pub mod Job
pub mod JobStore
pub mod JobService
pub mod Scheduler
pub mod Resource
pub mod IssueWorkflow
pub mod Tests
pub mod CertificateRequest
pub mod CertificateAsset
pub mod Domains
pub mod Issuer
pub mod Orchestration
pub mod AgentNode
