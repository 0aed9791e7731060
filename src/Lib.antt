-- ===== src/Lib.antt =====
-- Waterfall enriches a record (a person or a company) by asking providers for its missing fields,
-- one after the other, until the confidence target, the providers or the budget ends the search.
-- Five gates are to bound every run: tenant isolation (G1), idempotency (G2), bounded calls (G3),
-- the cost ceiling (G4) and provenance (G5).
--
-- The parts, and the files that model them:
-- - Domain: internal/domain. Fields and confidences (Fields), error classes and wrapped Go errors
--   (Errors), provenance and observations (Values), requests and the idempotency key (Requests).
-- - Tenant: internal/tenant/context.go, with the attribution of internal/engine/attribution.go.
-- - Auth: internal/auth/jwt.go. Token is the first half of `split`, Claims `validateClaims` and its
--   helpers, Verify `Verify`; a token is a list of bytes.
-- - Store: internal/store/memory.go. Memory has one function per method; Isolation lists the
--   methods as operations, so that a sequence of calls by several tenants is a list. Postgres is
--   internal/pgstore/store.go: Tables the tables of migrations/0001_init.sql and `tx`
--   (`tx_on`, with its connection), Ledgers and
--   Versions its methods (`reserve_sql` is `Reserve`), Calls the methods as operations.
-- - Provider: internal/provider. Breaker is breaker.go, Call is call.go (`call` is `Call` with
--   `callWith`, `round` one turn of its loop), Env what is seen of adapters and of the world;
--   Egress is egress.go with the guard of ssrf.go, Wire what is sent and Client the transports.
-- - Router: internal/router/plan.go; `make_plan` is `Plan`, with the scorer's sampling as a state.
-- - Engine: internal/engine. Run is `Run`, Fill is `fillField` and `integrate`, Fuse is fuse.go;
--   `fill_step` is one turn of the loop of `fillField`, split at each call of the store.
-- - Calibrate: internal/calibrate/isotonic.go; `pool_all` with `pool` is the double loop of
--   `FitIsotonic`.
-- - Job: internal/job. Identity is `DeriveID` and `Fingerprint`, Queue queue.go, Memory the
--   in-memory store, Submit submitter.go, Dispatch `Run` and `safeRun` of dispatcher.go.
-- - Webhook: internal/webhook/webhook.go; `post_loop` is the loop of `Deliver`.
-- - Durable: internal/durable. Log is log.go over the bytes of the file, Outbox store.go, with a
--   call of `Submit` or `Put` as a `Change`, and Relay `DrainOnce` of relay.go.
-- - Dash: internal/dash. Rbac is rbac/rbac.go, the matrix of roles and actions and `Can`
--   (`decide`); Approvals is approvals, with Policy policy.go, Tables the statements of store.go,
--   Decide `decide` and `executeLocked`, Gate `Check` and `Cancel` of service.go; Audit is audit,
--   with Canonical canonical.go and Chain audit.go; Rotation/Budget is the quota of a key, `draw`
--   of rotation/lease.go with `LeaseBatch` of rotation/store.go, and Rotation/Triggers the states
--   of a key, triggers.go with what rotation/engine.go does on an outcome to one keyState; Rotation/Select has
--   `selectSkip` of rotation/state.go over the bands, the rings and the draws it is given, and
--   Rotation/Lease the failover of `Lease` in rotation/engine.go; Routing/Resolve is `Resolve` of
--   routing/resolve.go.
-- - Prelude: the int64 with its wrap-around, maps with text keys, lists and Boolean tests.
-- - Examples: concrete data, and the theorems applied to it.
--
-- The engine reads the plan of the router, asks the store for a result on record, reserves the
-- cost, calls the provider through its breaker, records the result, and appends the observation.
-- A job is stored with an intent to publish it, the relay offers it to the queue, the dispatcher
-- runs the engine on it, and the write of its end clears the intent. In the dashboard the gate
-- parks a dangerous write as a request, and the vote that completes its quorum runs it.
--
-- What is a parameter: the world W with its clock, timers and vendors (Env, Adapter); floats with
-- their operations (Float); the bytes of strings, the order of strings and SHA-256 (Strings);
-- JSON and CRC32 (Codec, JobCodec, Formats); base64, the JSON of tokens and their signatures
-- (JwtLib); URLs and the network (Texts, Network, PostLib, Client); what columns give back as
-- text and the order of rows (Columns); what the approvals call and what of it fails (Services).
-- Times are natural numbers of nanoseconds and cooldowns are not negative. A Go map is an
-- association list; where the code ranges over a map, the list's order stands for the order of
-- that range. A method under a mutex is one step. Metrics and bandit updates are the events of a
-- run, and the durations that they report are left out. A dequeue is one step, while nothing else
-- happens to the queue. A transaction of the approvals or of the audit chain is one step, under
-- the lock of its row, and executors leave the tables of the approvals alone; a commit that fails
-- is taken to have stored nothing, in the Postgres store too, where the
-- error of a rollback leaves the transaction open. The pool of a lease is changed by nobody
-- else while the lease is sought. The statements of a draw on a quota are steps of their own, which
-- those of other instances come between; the date is that of the statement.
--
-- Bounds: the retry loop counts down from the cap of the policy, with no fuel of its own. The
-- replay of a log is given one more turn than the file has bytes; each turn takes eight or more.
-- The walk of a lease counts down from one more than the number of keys. The other loops are
-- recursions on their lists.
--
-- Not modelled: the dial guard of ssrf.go and the redirects that net/http follows; the tickers and goroutines that repeat `DrainOnce`, the sweep of expired requests
-- and the worker loop; how the bands and rings of keys are built; the sampling of the bandit; the
-- HTTP layer, the dashboard's handlers and the other SQL stores, which pass data on; metrics,
-- configuration and process start; the clients of external services.
pub mod Prelude
pub mod Domain
pub mod Tenant
pub mod Auth
pub mod Store
pub mod Provider
pub mod Router
pub mod Engine
pub mod Calibrate
pub mod Job
pub mod Webhook
pub mod Durable
pub mod Dash
pub mod Examples
