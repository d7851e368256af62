-- ===== src/Lib.antt =====
-- A verification library for the backend of SWAR, which watches calls for synthetic voices: detectors
-- send evidence, the risk engine turns it into a state and proposed interventions, an outbox
-- publishes what changed, and people with a session resolve the interventions.
--
-- How the files stand to the code, whose paths start at the repository's root:
-- - Prelude: Boolean tests on native numbers, lists, results that may throw, sorting, and tables with
--   the update of the rows that a query names. It models no file of its own.
-- - Domain: backend/src/modules/domain/domain-state-machines.ts. Statuses has the enumerations of
--   backend/prisma/schema.prisma, Machines the maps and assertTransition, Runs their histories.
-- - Risk: backend/src/modules/risk. Select, Window and Engine are selectLatest, evaluateWindow and
--   evaluateRiskEvidence of risk-engine.ts, Policy is the parser of risk-policy.ts on the JSON values
--   of Json, Gate is evaluate of risk-activation-gate.service.ts. The other files are proofs.
-- - Outbox: backend/src/modules/security-events. Repository and Replay are the methods of
--   security-event-outbox.repository.ts, Flush is flush of security-event-outbox.service.ts, Alerts has
--   the rows. Leases, Deliveries, Attempts and Scope are proofs.
-- - Auth: backend/src/modules/auth. Sessions is refresh-session.repository.ts, Limiter is
--   login-attempt-limiter.ts, Permissions is permissions.ts and resource-authorization.service.ts,
--   Service is login, refresh and logout of auth.service.ts, and Accounts has the rows behind a
--   session. Histories has calls of the repository one after the other. Families, Reuse, Spent,
--   Refreshes, Logout and Lockout are proofs.
-- - Interventions: backend/src/modules/interventions. Service is interventions.service.ts, Holds the
--   maps of the two demo adapters, Rows the methods of backend/src/modules/risk/risk.repository.ts that
--   the service calls, StepUp is step-up.service.ts with the challenges of that repository. Executor
--   is executePending of engineering-intervention-executor.service.ts, with the constraints that the
--   migrations put on the table of interventions. Progress, Replays, Verified,
--   Challenges, Completions and Executions are proofs.
-- - Effects: actions that read and change a state and may throw, with do blocks, and what they
--   preserve. It models no file of its own.
-- - Calls: backend/src/modules/calls, analysis and media. Rows has the tables, Repository, Changes, Tracks
--   and Closing are the methods of call.repository.ts, Service is calls.service.ts, Analysis is
--   analysis.service.ts, Lifecycle is track-binding.service.ts, Outside has the answers of the services
--   outside, Requests the sequences of requests. The other files are proofs.
-- - Common: backend/src/common. RateLimit is api-rate-limit.guard.ts, Responses and Idempotency are
--   idempotency.service.ts, whose execute is cut where it awaits its operation, so that calls
--   interleave. Alone, Windows, Stored and Once are proofs.
-- - Tests: runs, and the theorems at concrete values.
--
-- The engine's results are what the decisions store; a proposed intervention is a row that the
-- interventions service moves along the transitions of Domain; the outbox reads alerts that refer to
-- both. The interventions service asks Auth for the permission.
--
-- Conventions. The floating-point numbers of the engine are a parameter, the record Floats with the
-- operations that the code uses; what a theorem needs of them is a hypothesis of it. Identifiers,
-- hashes and times in milliseconds are natural numbers. Fresh identifiers, the clock and what
-- is outside the repository (the publisher, the password hash, the audit log's answer) are arguments. A
-- table is the list of its rows; findUnique and findFirst take the first row that matches. An
-- operation that throws returns an error, beside the state where it had changed it. All
-- loops run over lists, so that there is no fuel.
--
-- The rooms, identities and keys of Calls are numbers as well, and a serializable transaction is one
-- step there, as is each other query: a request is served to its end before the next one.
--
-- Not modelled: HTTP controllers, logging and telemetry, timers, the database's connections and
-- retries, checks of the length of texts, audio and voice processing, the Python services and the
-- user interface. The consent and enrollment services, the risk decision service
-- and the views of calls have no model yet.
pub mod Prelude
pub mod Effects
pub mod Domain
pub mod Risk
pub mod Outbox
pub mod Auth
pub mod Interventions
pub mod Calls
pub mod Common
pub mod Tests
