-- ===== src/Lib.antt =====
-- SmartProcurement: the backend's services as functions on the tables of its database.
--
-- The program is a web service and a worker over one PostgreSQL database. The services read and
-- write rows through an ORM session; a request commits once at its end, and the worker runs jobs
-- from a durable queue, each in its own transaction. The Python sources are named by their paths
-- under src/app.
--
-- How the code is modelled:
--   - Table: a table is the list of its rows; a query selects by a Boolean condition,
--     `scalar_one_or_none` raises on two rows, and an assignment to a loaded object rewrites the
--     row with its id.
--   - Session (core/db.py): the tables as the transaction sees them, a clock and a supply of
--     uuids. A service function takes a session to its value or the exception it raised, and to
--     the session it left, so that the writes before an exception are seen until somebody rolls
--     back.
--   - Errors (core/errors.py): the exceptions as values.
--   - Models: the rows, one module for each models.py. Columns with a CHECK constraint are data
--     types; numbers are natural numbers, times are seconds, a NUMERIC(4, 3) counts thousandths,
--     and a NUMERIC(18, 4) counts ten-thousandths or is a decimal with its places.
--
-- Which file models which part:
--   - Lorm (lorm/capability_service.py): reading a capability, requesting, approving and rejecting
--     a promotion. Lorm/Target is the rule for the target level, Lorm/Approve and Lorm/Requests
--     say what each call does, Lorm/History follows sequences of calls, and Lorm/Seed
--     (lorm/seed.py) is the creation of the missing capabilities, with its proofs in Lorm/Seeded.
--   - Jobs (jobs/queue.py): enqueueing, claiming, finishing, retrying and rescheduling. The rows
--     that SKIP LOCKED passes over are an argument. Jobs/Backoff, Jobs/Claim and Jobs/Retry hold
--     the proofs.
--   - Worker (worker.py): running a job's handler between two commits, and a poll. The handlers,
--     Python's `repr` of an exception, whether a commit is accepted, and what the id of an expired
--     object reads as are arguments. Worker/Outcome and Worker/Batch hold the proofs.
--   - Mappings (integration/mapping_service.py): the lifecycle of field mappings and their change
--     events. A loaded mapping is written over the row with its id. Mappings/BulkConfirm is the
--     bulk confirmation. Mappings/Changes says what one call does, Mappings/Trace,
--     Mappings/Created, Mappings/Recorded and Mappings/History follow the change history,
--     Mappings/Applied and Mappings/Bulk are about bulk confirmation.
--   - Observability (observation/observability.py): opening and closing gaps; the four arguments
--     that name a gap are a record. Observability/Unique and Observability/Idempotent hold the
--     proofs.
--   - Audit (audit/recorder.py): the writer of the audit trail; Audit/Complete holds the proofs.
--   - Ai (ai/structured.py): the attempts at a typed output and the fail-safe path, which uses
--     Observability and Audit. What each attempt brings is an argument. Ai/Attempts holds the
--     proofs.
--   - Identity (identity/security.py, service.py, deps.py): the permission check of a request;
--     Identity/Tokens (security.py) is the password check, the access tokens and the refresh
--     tokens. The hash, Argon2, the signing of a token, the settings and the lower case of a text
--     are arguments. Identity/Rotation and Identity/Access hold the proofs.
--   - DataSources (integration/service.py, core/secrets.py): connecting, changing and checking a
--     data source. Encryption, the JSON text of a credential and the connector's answer are
--     arguments. DataSources/Connection is the check, DataSources/Safe and DataSources/Config are
--     about the configurations, DataSources/Check about health and gaps.
--   - Risks (analysis/rules.py from a rule's candidate on, api/routers/risks.py): finding or
--     creating the row, linking evidence, enqueueing the explanation through Jobs, and, in
--     Risks/Dismissal, the dismissal, which uses Audit. Risks/Unique and Risks/Dismiss hold the
--     proofs.
--   - Suggestions (integration/mapping_ai.py): the mappings that a model suggests, through Ai and
--     with the events of Mappings. Suggestions/Known holds the proofs.
--   - DomainMap (domain/map_service.py, get_source_names of integration/service.py): the
--     references of rows; DomainMap/Rows is the lists of rows, and DomainMap/Loaded and
--     DomainMap/Isolated are about what they may show. DomainMap/Overview is the map itself with
--     its counts, and DomainMap/Groups, DomainMap/Sources and DomainMap/Counted have their proofs.
--   - Pagination (core/pagination.py): the pages of a list. Pagination/Walk is about a client that
--     follows the cursors, with fuel for one request more than there are rows.
--   - Observability/Keys and Observability/Refined view the open gaps as a set of keys.
--   - Sync (integration/sync.py, domain/models.py in Models/Domain): Sync/Specs says how the
--     entities are read, Sync/Records reads a record through the confirmed mappings,
--     Sync/References resolves references, Sync/Rows finds and writes rows, Sync/Upsert upserts a
--     record with its signal, Sync/Run is sync_source, which uses DataSources, Mappings,
--     Observability and Jobs. Sync/Keyed, Sync/Unique and Sync/Identity are about the identity of
--     the rows, Sync/Reads, Sync/Frame, Sync/Signals, Sync/Finish and Sync/Outcome about the
--     report and what follows it. A value of a record is held by its text.
--   - Aggregates (observation/aggregates.py): the recomputation of the aggregates;
--     Aggregates/Queries is what is read, and Aggregates/Single, Aggregates/Trusted and
--     Aggregates/Frame hold the proofs. Division is an argument.
--   - Risks/Rules, Risks/Detect (analysis/rules.py): the six rules and detect_risks, with integers
--     of ten-thousandths and ratios compared as fractions. Risks/Thresholds, Risks/Samples,
--     Risks/Detected and Risks/Queued hold the proofs.
--   - Explain (analysis/explain.py): the explanation of a finding, through Ai, Observability and
--     Audit. Explain/Grounded holds the proofs.
--   - Handlers (integration/jobs.py, observation/jobs.py, analysis/jobs.py): the handlers that the
--     worker runs. Handlers/Chain is about the jobs that they queue, Handlers/Quiet about an
--     explanation that fails.
--   - Auth (api/routers/auth.py, identity/auth_provider.py, get_active_enterprise_id of
--     identity/deps.py): signing in and out, through Identity. Auth/SignIn and Auth/Current hold
--     the proofs.
--   - Enterprises (enterprise/service.py): the settings of an enterprise; Enterprises/Supported is
--     about its execution adapter.
--   - SourceFields (describe_and_store of integration/service.py): storing what a connector
--     discovers, through DataSources. SourceFields/Counts, SourceFields/Totals and
--     SourceFields/Stored hold the proofs.
--
-- No operation runs on fuel: every loop recurses on a list of rows, ids or entries, or on the
-- number of attempts that are left.
--
-- Not modelled: the domain map's conversion of values to JSON, the other HTTP routers and the
-- schemas, the connectors to external systems, cryptography (token signing, password hashing,
-- encryption of secrets), migrations, configuration and the start of the processes, the demo data,
-- and the texts of messages.
pub mod Prelude
pub mod Errors
pub mod Table
pub mod Models
pub mod Session
pub mod Lorm
pub mod Jobs
pub mod Worker
pub mod Mappings
pub mod Observability
pub mod Audit
pub mod Ai
pub mod Identity
pub mod DataSources
pub mod Risks
pub mod Suggestions
pub mod Sync
pub mod Aggregates
pub mod Explain
pub mod Handlers
pub mod Pagination
pub mod DomainMap
pub mod Auth
pub mod Enterprises
pub mod SourceFields
