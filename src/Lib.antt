-- ===== src/Lib.antt =====
-- A model of the service: a Go API with a widget resource, a transactional outbox, stored responses
-- for retries, token authentication, and the middlewares in front of them.
--
-- How the parts interact. internal/server takes a request through its middlewares to the contract's
-- validator, which asks internal/auth to authenticate it, and to the handlers of
-- internal/modules/widget. A handler authorizes the caller, runs the change and its event in one
-- transaction of internal/platform/database by the statements of internal/gen/db, and answers JSON or a
-- problem of internal/platform/problem. A create that carries an Idempotency-Key also claims the
-- key in that transaction (internal/idempotency). The relay of internal/outbox publishes the events
-- later. internal/config says which verifier a process may use, and internal/observability hides
-- what a log must not show. cmd/forge makes a project of the repository and adds resources to it.
--
-- Files and sources:
-- - Common: Booleans, lists and texts as bytes. Errors: Go's errors and the result of a call.
--   Json: documents as trees; encoding/json's printing is not modelled, one tree is one text.
-- - Db: internal/gen/db/models.go and the session in which statements run. Db/Queries: the
--   functions of internal/gen/db/queries.sql.go, one for each statement of the same name.
--   Db/Statements: what one statement does to a session.
-- - Tx: WithinTx of internal/platform/database/database.go.
-- - Http: the part of net/http that is used. Problems: internal/platform/problem/problem.go.
-- - Auth/Principal, Auth/Bearer, Auth/Verifier, Auth/Middleware: internal/auth. Crypto collects
--   the JWT parser, key sets, files and RSA, which are parameters.
-- - Idempotency: internal/idempotency/idempotency.go; the digest is a parameter.
-- - Outbox/Relay, Outbox/Text, Outbox/Purge: internal/outbox/outbox.go. The publisher is a parameter.
-- - Widgets/Input, Responses, Service, Store, Idempotent, Handlers: internal/modules/widget.
-- - Server/Addr, RealIp, RateLimit, Cors, Limits, Recover, Probes, Router: internal/server. The
--   contract's validator, the parser of net/netip and the buckets of x/time/rate are parameters.
-- - Redact: internal/observability/redact.go. Config: internal/config/config.go.
-- - Reaper: internal/maintenance/reaper.go. Its ticker is not modelled.
-- - Process: run of cmd/api/main.go and Run of internal/server/server.go, as a machine over events.
-- - Forge/Strip, Renumber, Identity: strip, renumberMigrations, composeProjectName with what it calls,
--   underAny and lineReader of cmd/forge/init.go. Forge/Changes, Edits, Checks, Adding: applyChanges,
--   the edits of shared files, the checks of names, and addResource of cmd/forge/resource.go;
--   templates and the tools that read Go and the contract are parameters.
--   Forge/Tokens, Schema, Migrations: cmd/forge/resource_schema.go. Forge/Names, Versions, Numbers:
--   cmd/forge/main.go with what it calls of strconv and fmt; the classes of runes are a parameter.
--   Forge/Paths, Publication, Recovery: cmd/forge/init_recovery.go and the end of prepareProject in
--   cmd/forge/init_project.go, with what they call of path/filepath.
-- - Laws below each part holds its theorems, Examples their runs on concrete data.
--
-- State and failures. A Session holds the tables, the clock, the uuids to come, and the faults of
-- the statements to come: a statement runs, fails, or runs with its answer lost, as can the begin and
-- the commit of a transaction. A theorem over all sessions is one over all such failures. Transactions are
-- serial: a claim that another request holds is a row that is there already, and a row lock that
-- another relay holds is in `locked`. A call that panics is the result `panic`.
--
-- A Process is the state of cmd/api: what run does next, its contexts, workers, listener and pool, and
-- the calls it has deferred. An event is a step of run, a signal, the deadline of the wait, an error of
-- the listener, a worker that stops, or a connection that is taken or given back.
--
-- Numbers. Times are microseconds in ℕ, int64 counters and serial ids are ℕ: none comes near its
-- bound in a run. The settings that may be negative are integers, and floats are kept with NaN and
-- the infinities.
--
-- Texts are bytes. Lower-casing and white space are those of ASCII.
--
-- A Project is what a publication works on: the files, the recovery directory, and the answers of the
-- operating system to come, each of which may be that the process stops. Maps are functions or lists
-- of entries, and a loop over a map that touches every entry is done at every name.
--
-- Fuel. The scanner of SQL takes the length of the source, and a turn reads a byte at least; the
-- loop over the names of a statement takes the number of its tokens. The loop over the parents of a
-- path takes its length: a parent is shorter than its path. The loops of
-- PurgePublished and drain take fuel too. A purge deletes at least one full batch of rows in every
-- round but the last, so more fuel than there are rows is enough. A drain publishes a message in every
-- round that it goes on from, so more fuel than there are messages to publish is enough.
--
-- Not modelled: the rest of cmd/forge, which runs git and the tool chain, asks questions and renders
-- templates; cmd/dev, cmd/migrate and the values that cmd/api wires together; the set-up of
-- telemetry; the code that oapi-codegen generates; the served pages; test support; the router's assembly but for the chain
-- before an operation of the contract. They are input and output, generated, or calls of libraries.
pub mod Common
pub mod Errors
pub mod Json
pub mod Db
pub mod Tx
pub mod Auth
pub mod Http
pub mod Problems
pub mod Outbox
pub mod Idempotency
pub mod Widgets
pub mod Server
pub mod Redact
pub mod Config
mod Examples
pub mod Forge
pub mod Reaper
pub mod Process
