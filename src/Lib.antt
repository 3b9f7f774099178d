-- ===== src/Lib.antt =====
-- A model of the playback service: an HTTP service that keeps the listening session of each user,
-- with Redis as cache, PostgreSQL as durable store and Kafka between a heartbeat and its row.
--
-- The parts, and the files that model them:
--   * Apperror: internal/apperror/apperror.go. An error is a value; `is` and `as_app` follow its
--     chain as errors.Is and errors.As do.
--   * Json: what encoding/json does for the structs of the source: members found without regard to
--     ASCII case, null that leaves a field, integers of 64 bits.
--   * Session/Model, Session/Roundtrip, Session/Requests with Requests/Fields: internal/session/model.go, the structs with
--     their JSON forms.
--   * External: Redis, PostgreSQL, Kafka, the clock and the text forms, as a record of operations on
--     states of their own; External/Laws names the documented behaviour that theorems rely on, and
--     External/Memory is an instance that has it.
--   * World: the state that requests, the consumer and background goroutines share. A session that
--     the source holds by a pointer is an object of a heap, so a goroutine and a request may share it.
--     World/Tasks is the goroutine of Repository.Get that warms the cache, in two steps; a schedule in
--     the world says which tasks run at each point where another goroutine may, which is before each
--     call of World/Calls and after each assignment to a session. A theorem over all worlds is one
--     over all interleavings with these goroutines; other requests are in Concurrent. World/Frame says what the tasks leave alone.
--   * Session/Repository: internal/session/repository.go (Get, getFromDB, Upsert, SetCache).
--   * Session/Service: internal/session/service.go (Start, GetCurrent, Heartbeat, Pause, Resume). The
--     four statements from Upsert on, which Start, Pause and Resume share, are `save`; a returned
--     pointer with an error is an `Outcome`.
--   * Session/Consumer: internal/session/consumer.go, the handler of a heartbeat message.
--   * Session/Handler: internal/session/handler.go, the endpoints, as functions on a request context
--     and the world; an early return is a continuation that is not called.
--   * Kafka: internal/kafka/event.go, producer.go and consumer.go. The loop of Run goes over the list
--     of what FetchMessage returns, so it is structural and needs no fuel. Kafka/Trace has the loops
--     that write a trace context to headers and read it back.
--   * Handler: internal/handler/handler.go, JSON responses and the probes.
--   * Validator: internal/validator/validator.go; the validator library is a parameter whose law,
--     Validator/Laws, is about the tags that the source uses. Validator/Plain is an instance.
--   * Middleware, Server: internal/middleware/middleware.go and internal/server/server.go. A handler
--     returns or panics, and what it changed before stays changed. Server/Routes has the table of
--     routes; the router is a parameter that is given the table. Server/Served follows a request
--     through all of it, Server/Drain the readiness probe among other requests.
--     Server/Ids is about the ids that the service makes up.
--   * Session/System: the reachable worlds: a request, a message or a turn of the goroutines, in any
--     order. Session/Stable: each of them keeps what its parts keep, an interface of World/Stable.
--     Session/Isolation: whose session is where in a reachable world, and in which answer.
--     Session/Settled: what the stores hold for a user until the user changes it, whatever others do.
--     Both say it of the cache and of what the goroutines will write to it, by World/Held.
--   * Concurrent: requests and messages that overlap. A run is a tree of its calls (`Prog`), and
--     Concurrent/Repository, Service, Consumer and Handler have the source once more in this form;
--     Concurrent/Alone relates each of them to its definition in Session. Concurrent/System is the
--     service with any number of runs and goroutines, of which each step moves one by one call.
--     Concurrent/Safe has what a run keeps to and relies on: Rules is the interface, with what each
--     call must keep and who may write; Repository to Threads follow the source for all such rules;
--     Keyed and Others fill the interface. Concurrent/Bounded counts the calls of a run.
--   * Platform, Process: the libraries at start-up as a record of their answers, and the process: what
--     it did in order, its log, and the hooks that it gave to fx.
--   * Config: internal/config/config.go. Postgres: internal/postgres/postgres.go and migrate.go. Redis:
--     internal/redis/redis.go. Kafka/Settings: the constructors of internal/kafka. Logger:
--     internal/logger/logger.go. Tracing: internal/tracing/tracing.go. Session/Lifecycle and
--     Server/Lifecycle: the hooks of the consumer and of the server. A constructor is modelled by its
--     error and by what it does to the process.
--   * Main: cmd/service/main.go, the order in which fx builds the service, and its stop. Main/Rotation
--     reads the flag of the readiness probe off what the process did (`flag_after`).
--   * Examples: concrete worlds, and each theorem at one of them. Examples/Race is a run in which two
--     requests of one user overlap and leave different sessions in Redis and PostgreSQL.
--
-- Not modelled: docs/docs.go, which is generated; a Kafka writer with kafka.async, which is not
-- the default: IsKafka is the law of a synchronous one. Of the start-up, the handler of the log,
-- the sampler, the propagator, the tracer of queries, the balancer of the Kafka writer, the time
-- limits of the pings and of the stop, and the error of a `Serve` that ends. A span is not passed
-- on from a request to what it publishes: the trace headers of a message are in Kafka/Trace, apart.
-- The carrier's Set and Keys, which an Extract does not call, durations and peer addresses are left
-- out, and so is the cancellation of a request, which an External covers by failing calls. Between
-- two calls a run has no interruption: an access to the heap is one step, so the data race of Get
-- and Pause is seen only as the order of whole assignments. Text is a string of characters, so the
-- replacement of invalid UTF-8 by encoding/json is not seen.
pub mod Prelude
pub mod Apperror
pub mod Json
pub mod Session
pub mod External
pub mod World
pub mod Kafka
pub mod Handler
pub mod Validator
pub mod Middleware
pub mod Server
pub mod Examples
pub mod Platform
pub mod Process
pub mod Postgres
pub mod Redis
pub mod Logger
pub mod Concurrent
pub mod Config
pub mod Tracing
pub mod Main
