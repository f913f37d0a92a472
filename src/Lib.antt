-- ===== src/Lib.antt =====
-- Verification of urth, a monitoring service: an API server keeps scenarios, runners, workers and
-- the results of runs in a database; a run is placed on a runner and dispatched over a message
-- queue; a worker of that runner takes the message, claims the run from the API server, and
-- executes what it is granted.
--
-- Types models the resources (pkg/urth/types.go, pkg/urth/execution.go): a run is a Result, a flat
-- record of its spec and its status. Labels models the grammar of label values
-- (pkg/urth/labels.go), Presence the two liveness signals of a worker (pkg/urth/presence.go).
-- Presence.Contact is who reports them and where they are written (pkg/urth/presence_store.go,
-- Heartbeat in pkg/urth/service.go, pkg/natsq/presence.go and presence_watcher.go, reportPresence in
-- pkg/worker/worker.go): the table of workers is a list of rows, and a subject is the list of its
-- tokens.
--
-- Store is the interface to the database, which is the wyrd library over gorm and not part of the
-- repository: reads that answer or fail, writes guarded by a version, and their laws. Store.Rows
-- says what a write leaves in a row; Store.Memory is a store in memory that satisfies the laws.
--
-- Claim models the claim of a run (pkg/urth/claim.go, pkg/urth/worker_session.go, ClaimRun in
-- pkg/urth/service.go): `claim_run` takes the store from state to state; its parameter `between`
-- is what other processes do to the store between its read and its write. The parser of session
-- tokens and the signer of run capabilities are parameters, in the record Service.
--
-- Placement models the choice of a runner (pkg/urth/placement.go, pkg/urth/placement_store.go).
-- The answer of the selector's query, of the other queries, and the source of randomness are
-- parameters. Pressures are compared as exact ratios.
--
-- Worker models what a worker does with a message (pkg/worker/consume.go, ack.go, report.go and
-- inflight.go, pkg/natsq/envelope.go, claimHTTPResponse in pkg/apiserver/routes.go): `handle`
-- answers with the actions on the message and the run in their order, given the replies of the API
-- server. The confirmation of an acknowledgement runs on fuel, of which the retry pause bounds the
-- need. Worker.Lease is how long a probe may run (execute.go). The consume loop is a step relation
-- over its slots and the runs that the process owns.
--
-- Report models the report of a finished run (UpdateStatus in pkg/urth/service.go), over the same
-- store; the parser of run tokens is a parameter.
--
-- Outbox models the dispatches that wait for publication and the relay (pkg/urth/outbox.go,
-- outbox_store.go and outbox_relay.go): the table is a list of rows, a statement of the store
-- applies to the rows that its conditions select, and `publish` answers with the state after it.
-- The transport is a parameter.
--
-- Schedule models the creation of runs (Create, createWithDispatch and shouldDispatch in
-- pkg/urth/service.go): the run and its entry of the outbox are written in one transaction. The
-- converted manifest, the name of the run, and the decision of Placement are given. The inserts of
-- runs are an interface, Store.Creation.
--
-- Reconcile models the reconciler (pkg/urth/reconcile.go and reconcile_store.go). ScanLease is the
-- lease that lets one reconciler scan at a time: the two statements of its acquisition are atomic,
-- and others may run between them. Queries answers its questions about whole tables, Repairs are
-- the writes of its store, Passes and Sweep the passes of a scan. The rows that a query ranges over,
-- and what fails, are an interface, the record Scans; Reconcile.Memory satisfies it. What a
-- transaction has done before it fails is taken back. A scan has one reading of the clock, and
-- does not model a lease query that fails, its log, and how long it took.
--
-- Failure models the dispatches that failed for good (pkg/urth/dispatch_failure.go and
-- dispatch_failure_store.go): recording one with the stranding of its run, its retry and its
-- resolution, and who records one: workers (Report in pkg/urth/service.go), the relay
-- (undeliverable.go) and the advisories of the broker (dispatch_advisory.go). The table of failures
-- is an interface, Failure.Table, with its versions and its unique names; Failure.Memory satisfies
-- it with room for one row. Which statements fail is given.
--
-- Registration models how a worker joins a runner (AuthWorker and admitWorker in
-- pkg/urth/service.go): the reads and writes of workers are an interface, the record Enrolment; the
-- parsers of tokens and selectors, the signer of sessions and the transport are given.
--
-- Controllers models the supervisor of control loops (pkg/controllers/manager.go): what `supervise`
-- does is a function of the runs of the loop so far, with 64-bit durations.
--
-- Times are nanoseconds since the zero time, durations signed. A text that the code cuts at a
-- number of bytes is cut at a whole character. Not modelled: the probers, the transport, the web
-- interface, the HTTP glue, and so far the listings and edits of resources and the parser of HTTP
-- scenarios.
pub mod Prelude
pub mod Types
pub mod Labels
pub mod Presence
pub mod Store
pub mod Claim
pub mod Worker
pub mod Placement
pub mod Report
pub mod Outbox
pub mod Reconcile
pub mod Failure
pub mod Schedule
pub mod Registration
pub mod Controllers
pub mod Tests
