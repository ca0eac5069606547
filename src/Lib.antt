-- ===== src/Lib.antt =====
-- A verification library of api-toolkit, a toolkit of Go packages for HTTP services. The packages are
-- largely independent of one another: an application composes the middleware around its handlers,
-- mounts the health endpoints, parses list queries in its handlers, and runs the migrations; the
-- function NewDefaultRouter composes the middleware into one stack.
--
-- Trace.antt is about middleware/trace/trace.go: `parse_trace_parent`, `format_trace_parent`, `new_id`
-- and `middleware` are parseTraceParent, formatTraceParent, newTraceID and newSpanID, and Middleware.
-- The random bytes of the two ids are arguments. Headers are lists of the code points of their text.
--
-- RateLimit.antt is about middleware/ratelimit/ratelimit.go, with its tokens in float64, which
-- Prelude/Float.antt has with its rounding. `handle_key` is the handler for the key of one request,
-- with its critical section as one step; `run` takes requests in the order in which they take the
-- lock. The clock is read before the lock is taken, so times may step back from one request to the
-- next. RateLimit/Keys.antt is about requests of several keys.
--
-- Itoa.antt is about the function itoa of middleware/ratelimit/ratelimit.go, which
-- middleware/metrics/metrics.go repeats: the loop runs on the index into the array of twelve bytes,
-- and an index below zero, a panic of Go, is `none`.
--
-- Endpoints.antt is about endpoints/list.go: `parse_list_query` is ParseListQuery on the values of the
-- parsed query string, as an association list in the order in which Go's loop over the map visits the
-- keys. Endpoints/Paging.antt is about limits and offsets, Endpoints/Collected.antt about the filters,
-- Endpoints/Order.antt about the order of the visit, and Endpoints/Unordered.antt has the query as Go
-- has it, a quotient of its listings.
--
-- Health.antt is about the package health. Health/Status.antt has the types of ports/ports.go and the
-- loop over results that the manager and the composite checker share, Health/Manager.antt the manager
-- of health/health.go with its cache, Health/Detailed.antt its detailed report, Health/Checkers.antt
-- and its modules the checkers of health/checkers.go, Health/Handlers.antt the handlers and routes of
-- health/handlers.go. A checker is a function of the number of clock readings so far; the clock is a
-- function from that number to a time in nanoseconds. Health/Aggregate.antt and Health/Freshness.antt
-- are about the overall status and the cache. Health/Concurrent.antt has calls of performCheck that
-- run at the same time, as steps between their locks in any order, and Health/Concurrent/Sound.antt
-- what they cache and give.
--
-- Migrator.antt is about migrator/migrator.go: options, names of files, and directories as lists of
-- entries. Migrator/Loading.antt is loadMigrations, with Migrator/Sorted.antt for its order,
-- Migrator/Pending.antt is pendingUp, and Migrator/Database.antt the operations on the database. The
-- database is an `Env`, which answers each call by the calls made before it, so that every course of
-- errors is one `Env`; the calls are kept with their errors in a trace, the last one first.
-- Migrator/Database/Protocol.antt reads the trace as a state machine, Migrator/Database/Held.antt and
-- Migrator/Database/Bracket.antt as that of the advisory lock, Migrator/Database/Completing.antt
-- follows Up from its beginning to its end, Migrator/Database/Told.antt is about the report of Status,
-- and Migrator/Database/Deleting.antt about runs without leave for reverts. The hash and the reading
-- of directories are arguments.
--
-- TxPostgres.antt is about txpostgres/txpostgres.go, in the manner of Migrator/Database.antt: an `Env`
-- answers for the pool, and for the function given to WithinTx; TxPostgres/Protocol.antt reads the
-- calls as a state machine. TxPostgres/Managed.antt is the same file over the interfaces of
-- ports/ports.go, which Ports/Database.antt has as records of functions on a world: for any pool, and
-- any function of the value of its context. Ports/Ledger.antt says what a pool promises of its
-- connections and transactions, TxPostgres/Balance.antt what follows for WithinTx and FromCtx,
-- TxPostgres/Atomic.antt is about the data that a transaction leaves, and TxPostgres/Traced.antt
-- relates the two models. Pgxpool.antt is pgxpool/pgxpool.go, the adapter that implements these
-- interfaces; Pgxpool/Driver.antt has what it calls of the driver pgx, as parameters,
-- Pgxpool/Laws.antt what pgx documents and that the adapter keeps the promises of the interface, and
-- Pgxpool/Transacting.antt puts the adapter under WithinTx and FromCtx. A world is what the pool, its
-- driver and the memory that Scan writes to make up.
--
-- Httpx.antt is about httpx/httpx.go: the map of members that WriteProblem composes, with extensions
-- of any type, and the response that a server makes of it. Metrics.antt is about
-- middleware/metrics/metrics.go: the observation that its handler makes of a handler that calls
-- WriteHeader with given codes, and the labels that sanitizeHTTPLabels takes from it;
-- Metrics/Recorder.antt is its Prometheus recorder.
--
-- Http.antt has requests, response writers and handlers as the middleware sees them, with the rules of
-- net/http for WriteHeader and Write, the codes without a body among them. Http/Guards.antt is
-- middleware/secure/secure.go, the handler of middleware/ratelimit/ratelimit.go,
-- middleware/maxbody/maxbody.go and middleware/json/json.go; Http/Recording.antt is
-- middleware/requestlog/requestlog.go and the handler of middleware/metrics/metrics.go around its
-- recording writer; Http/Recovery.antt is httpx/recover/recover.go and middleware/timeout/timeout.go
-- with the buffer of http.TimeoutHandler. An application is any function on a request and a world.
-- Bootstrap.antt composes these handlers, and that of Trace.antt, as NewDefaultRouter of
-- bootstrap/http.go does; `serve` adds what the server does after the handler, and that it drops the
-- body of an answer to HEAD. Bootstrap/SecurityHeaders.antt and Bootstrap/Secured.antt are about the
-- security headers, Bootstrap/Refused.antt about refused requests, Bootstrap/Admitted.antt about
-- panics and the timeout, Bootstrap/Actions.antt and Bootstrap/Recorded.antt about the log and the
-- metrics. Bootstrap/Server.antt is MountSystemEndpoints and StartServer, by the case of its select
-- that comes first, and Bootstrap/Opening.antt the opening of databases in bootstrap/db.go and
-- migrate/migrate.go. Bootstrap/Migrations.antt is the rest of migrate/migrate.go and of
-- bootstrap/migrate.go, on the operations of Migrator/Database.antt, and what a program reaches by
-- them in any order. Bootstrap/System.antt has the health endpoints behind the default router, with
-- WriteJSON of response_writer/response_writer.go.
--
-- Specs.antt is specs/endpoints.go. Http/Cors.antt is middleware/cors/cors.go, whose default options
-- the default router gives to go-chi/cors; Cors.antt and Http/Secure.antt are the second packages of
-- the same text, cors/cors.go and secure/secure.go. Ports/Services.antt has the other interfaces of
-- ports/ports.go that the repository implements, and Adapters.antt is clock/clock.go, idgen/ulid.go,
-- logzap/logzap.go and chi/chi.go over the packages that they wrap.
--
-- Tester.antt is the function waitForAPI of cmd/tester/main.go, on fuel: 22 attempts are enough, as
-- Tester/Waiting.antt shows. Tester/Running.antt is the rest of that file up to `main`, on a machine
-- whose commands may answer anything, Tester/Caching.antt is about its cache, and Tester/Passing.antt
-- about its exit code.
--
-- Envvar.antt is envvar/envvar.go and config/config.go; Envvar/Redaction.antt is about DumpRedacted.
-- Validation.antt is validation/validation.go, and Validation/Messages.antt has the texts of its
-- errors. Docs.antt is the manager of docs/docs.go and its types in ports/ports.go,
-- Docs/Templates.antt the text of its two templates, Docs/Serving.antt the endpoints of docs/docs.go
-- and docs/handlers.go with WriteJSON of response_writer/response_writer.go, and Docs/Balanced.antt is
-- about the minimal OpenAPI document. Swagstub.antt is the registry of swagstub/swag.go.
--
-- Prelude.antt and its modules hold what these files share, among it the functions of the packages
-- strings and strconv that the code calls. Every other loop of the code is structural recursion here,
-- on its list or, in itoa, on the index into the array; the decimal print of
-- Health/Checkers/Memory.antt has 20 digits as its fuel, and an int64 has at most 19.
--
-- Not modelled: what the third-party packages do that the adapters wrap (pgx, chi, go-chi/cors, zap,
-- ulid, the Prometheus client), which are arguments; the decoder that StrictDecoder of
-- middleware/json/json.go returns; IsNoRows and AsPgError of txpostgres/txpostgres.go, one call each
-- of the package errors; the types of health/swagger.go, which only the generator of the API
-- documentation reads. Contexts and their timeouts are left to the functions that get them. The
-- encoding of responses to JSON is not modelled, nor are the texts of log messages, of the tester's
-- messages and of the migrator's status.
mod Prelude
pub mod Validation
pub mod Docs
pub mod Swagstub
pub mod Envvar
pub mod Tester
pub mod Trace
pub mod Itoa
pub mod RateLimit
pub mod Endpoints
pub mod Health
pub mod Adapters
pub mod Specs
pub mod Ports
pub mod Pgxpool
pub mod Migrator
pub mod TxPostgres
pub mod Httpx
pub mod Metrics
pub mod Http
pub mod Bootstrap
pub mod Cors
