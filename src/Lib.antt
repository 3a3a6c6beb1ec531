-- ===== src/Lib.antt =====
-- EventRail: ingestion of events into PostgreSQL, their publication to a Redis stream through an
-- outbox table, and their delivery to webhooks with retries and a dead-letter queue.
--
-- The parts, and the files that model them:
--   Prelude, Prelude/*        the shared names: tests, lists, integers, texts (`strings.TrimSpace`)
--   Go/Words, Go/Decimal      wrap-around of 64-bit `int`s; `strconv.Itoa` and `Atoi`
--   Errors, Errors/Laws       Go's errors: `Failure` of internal/delivery/failure.go, the sentinels,
--                             `fmt.Errorf` with `%w`, `errors.Is`, `errors.As`, the texts
--   Delivery, Delivery/*      internal/delivery/failure.go
--   Worker, Worker/*          internal/deliveryworker/worker.go: messages and their values (Worker),
--                             calls to the outside (Effects), the delay before a retry (Delays), the
--                             delivery (Webhook), the handling of one message (Handling), what a worker
--                             may do with one message as an automaton (Protocol), the read loop (Loop),
--                             and the retry pump (Pump)
--   Outbox, Outbox/*          internal/outbox/publisher.go: the SQL texts as functions on the rows
--                             (Outbox), the order of the claim (Order), the delays (Backoff), and
--                             the publishing transaction (Publisher); the polling loop of
--                             internal/outbox/runner.go (Runner), and the publication to Redis of
--                             internal/broker/redisstream/publisher.go (Stream)
--   Ingestion, Ingestion/*    internal/ingestion/store.go, and request_hash.go (RequestHash)
--   Operations, Operations/*  internal/operations/store.go and migrations/*.sql: the tables (Operations),
--                             statements and transactions (Session), what the worker records
--                             (Recording), redrive (Redrive), status, dead letters and metrics
--                             (Reading), the invariant of the tables (Invariant), and sequences of
--                             calls (Runs)
--   Config, Config/*          internal/config/config.go
--   Explain, Explain/*        internal/httpapi/event_explain.go: statuses, outcomes and bounds (Explain),
--                             the texts of errors (SafeError), the snapshot from the store
--                             (Snapshot), and the handler (Handler)
--   AiClient, AiClient/*      internal/httpapi/ai_triage.go: Explain and the check of its answer
--                             (AiClient), the client and Triage (Triage)
--   Cors, Cors/*              internal/httpapi/cors.go
--   Http, Http/*              internal/httpapi: requests, replies and operations.go (Http), paths
--                             (Paths), operational_handlers.go (Dlq, Triage), json.go and
--                             event_handler.go (Events)
--   Replay, Replay/*          cmd/api/replay_handler.go: the checks, the query and the loop (Replay), one
--                             answer (Laws), the rows behind a cursor (Paging), whole pages (Pages),
--                             and a page after another (Following)
--   Api                       cmd/api/main.go: its own handlers, and the routes below /events/
--   Migrations, Migrations/*  migrations/migrate.go
--   MockDestination,          cmd/mock-destination/main.go, the receiver that the demo delivers to
--   MockDestination/*
--
-- How they interact: ingestion writes an event with its outbox row; the publisher claims the row and
-- hands the event to the stream; the worker takes the message from the stream, delivers it, and
-- records the outcome before it acknowledges. The worker decides by Delivery.
--
-- State and effects. A worker's action goes from the message's map and the trace of calls to a result
-- (none is a panic), and the recorder, Redis, HTTP, the clock and the JSON coding are the parameter
-- `Env`, whose answers may depend on the whole trace. The map of a message is part of the state, as
-- the source writes to it while others hold it. A call of the publisher or of ingestion is one
-- transaction: its connection has the committed tables and those that its statements see, each
-- statement changes the latter, and a commit makes them the committed ones. Which statement fails is a
-- parameter; what is not committed is lost by the deferred rollback. Where a commit reports an error, a
-- parameter says whether the server had committed all the same. The rows of the outbox that other
-- publishers have locked, which the claim skips, and the ids that `uuid_generate_v4()` gives are
-- parameters too. JSON coding and SHA-256 are parameters. So is `net/http`: what the worker gets is the
-- return of one call of `client.Do`, which follows redirects itself.
--
-- Go names are kept in snake_case; `PublishNextOutboxEvent` is `publish_next`, and
-- `PersistEventWithOutbox` is `persist_event`. Durations are nanoseconds as integers that wrap around
-- at 64 bits. Error texts of the database's answers are shortened where nothing reads them.
--
-- Bounds. The printing of a number runs on fuel, its value plus one, which is more than its digits. The
-- fuel of the three loops (the outbox runner, the stream worker, the retry pump) counts their rounds.
--
-- Not modelled: the wiring and the start of the processes, the database of the tests, the Python
-- service and the dashboard. Much of what the Python service checks of a snapshot stands in
-- Explain/Snapshot/Laws as a predicate.
pub mod Prelude
pub mod Go
pub mod Errors
pub mod Delivery
pub mod MockDestination
pub mod Worker
pub mod Outbox
pub mod Ingestion
pub mod Config
pub mod Operations
pub mod Explain
pub mod AiClient
pub mod Cors
pub mod Migrations
pub mod Http
pub mod Replay
pub mod Api
