-- ===== src/Lib.antt =====
-- The processing catalog (README.md): the service that decides and stores the state of every
-- ProcessingRequest. A request is created over HTTP, moves from RECEIVED through QUEUED and
-- PROCESSING to COMPLETED or FAILED as the Worker's events are consumed, and announces its steps
-- through an outbox that a relay drains into RabbitMQ. This library models the TypeScript of src/.
--
-- Which module models which part:
--   - Domain: src/domain/processing-request.ts and failure-reason.ts. Domain/Request holds the record
--     and createProcessingRequest, Domain/Transitions the five lifecycle functions, one for one;
--     Machine, History, Invariant and Allowed reason about them. A lifecycle function returns the
--     same object or a new one (`Returned`), which is what isUnchanged asks by `===`.
--   - Repository: src/domain/processing-request.repository.ts and src/application/unit-of-work.ts, as
--     records of operations over the state of whoever implements them.
--   - Memory/Store: src/infrastructure/in-memory-processing-request.repository.ts and
--     in-memory-unit-of-work.ts. The two Maps and the entries of the outbox are one state; Recorded
--     has the accessors of the outbox.
--   - UseCase: src/application. Create, Accept, Start, Complete and Fail have one `execute` each, for
--     any repository and unit of work; Delivery/Spec says what a delivery of an event does at once,
--     without ports, and Delivery/Refines and Once compare the use cases with it.
--   - Catalog: what holds of the stored requests and the outbox together, over sequences of creations
--     and deliveries (`Run`), and what a repeated creation answers (Replay).
--   - Consumer: src/infrastructure/rabbitmq/*.consumer.ts (Parse, Consume), attempt-id.ts and
--     src/infrastructure/messaging/with-correlation.ts (Payload), settle-failed-message.ts (Settle).
--   - Persistence: src/infrastructure/persistence. TypeOrm holds the methods of
--     typeorm-processing-request.repository.ts and typeorm-unit-of-work.ts, one for one, over any
--     entity manager; Manager holds the calls that they make and the two entities; Database says
--     what the database is relied on for, by its tables; Agreement and Save compare the repository
--     with the in-memory one, Delivery and Creation the use cases over either, and Runs all that
--     the service does to the database with the runs over memory. Storable says which memories the
--     tables can hold.
--   - Relay: src/infrastructure/messaging/outbox-relay.ts and outbox-relay.scheduler.ts (Drain).
--     Replicas has the drains of several replicas as steps on one outbox, Liveness the drains of one,
--     Gauges and Failures what they feed into the metrics. Scheduler splits a tick where it awaits
--     the drain.
--   - Rabbit: src/infrastructure/rabbitmq/rabbitmq.connection.ts (Connection, and in Topology what its
--     setup declares for the consumers), rabbitmq.health-indicator.ts, the two event publishers
--     (Publisher), which no use case calls, and the settings in milliseconds (Settings).
--   - Query: src/application/owned-item.ts and the three owner-scoped queries beside it. Order
--     states the order of a page on pairs of requests, without the comparison of the code, Sorting
--     compares the in-memory sort with it, and Unique has that it leaves one arrangement.
--   - Interface: the controllers of src/interface, and the database's health indicator.
--   - App: src/app.module.ts and src/infrastructure/persistence/data-source.ts. Wiring has the
--     providers, over a state that has the memory and the database side by side (Shared); Parts
--     compares a use case over the whole with one over a part.
--   - Metrics: src/observability/metrics.ts, its counters and gauges.
--   - Correlation: src/observability/correlation-context.ts; Edge has correlation.middleware.ts and
--     what logger.config.ts and http-metrics.middleware.ts compute.
--   - Prelude, Text, Value, Outcome, Action, Map, IsoDate: lists, JavaScript's strings, JSON values,
--     errors, awaited steps, Map and Date.prototype.toISOString.
--   - Examples: tests, and the theorems at concrete inputs.
--
-- How the code is read:
--   - An awaited call is a function from a state to a result or an error and the state after it
--     (Action); what was written before a throw stays written.
--   - A unit of work runs its callback on a state that other executions may have changed since the
--     caller's last read: `meanwhile` is that change, any function of the state. The callback
--     itself is taken to run alone. Over PostgreSQL the row lock of findForUpdate keeps out other
--     executions on the same request; in memory there is no lock, and the awaits of two callbacks
--     could interleave, which this reading leaves out. On a throw the in-memory unit of work keeps
--     the writes and a database transaction drops them: `OnThrow` is either.
--   - randomUUID() and new Date() are arguments. Times are milliseconds since 1970, natural numbers,
--     and are shown by to_iso_string. A text is a sequence of code points; its length and its order
--     go by UTF-16 code units.
--   - JSON.parse is a parameter, from a text to the value that it holds or none. A number of JSON is
--     the text that String gives of it, which is all that the program asks of one.
--   - sendToQueue of the relay is a parameter: whether the broker confirms a row. The table `outbox`
--     is a list of rows and its SQL is written as functions on it.
--   - Page numbers are natural numbers up to Number.MAX_SAFE_INTEGER, as the controller makes sure;
--     the product (page - 1) * pageSize is exact here, where the code rounds it above 2^53.
--   - Every function recurses on its data; none runs on fuel.
--   - JavaScript's numbers are a parameter where the code reads a setting: what Number gives of a
--     text, and the comparisons with 0, with what holds of a literal.
--   - The entity manager of TypeORM is a parameter, a record of its calls, and so are the channels of
--     amqp-connection-manager. Theorems on them take as hypotheses the laws of IsDatabase, which say
--     what each call does to three tables, for texts that the columns hold, for queries on a unique
--     index and for the ordered query of a page, on a connection that is not lost and in time; and
--     those of IsBroker, which say what an assertion and a binding declare, where no queue stands
--     with other arguments. The order of a page is stated of rows (ComesFirst), apart from the
--     comparison of the in-memory repository.
--     Examples has a manager and a channel that keep them.
--   - In the steps of the replicas the advisory lock has one holder, a dead transaction leaves no
--     mark, and a publish that fails or is cut off may have reached the broker. The ids of the rows
--     of one request increase in the order of their commits, since its row lock is held; those of
--     different requests need not.
--
-- Not modelled: the SQL of the migrations, whose tables and indexes IsDatabase states; the
-- injection of dependencies and the bootstrap of NestJS, the redactor of pino and the text of the
-- Prometheus registry, which are calls of libraries.
mod Prelude
pub mod Text
pub mod Value
pub mod Outcome
pub mod Domain
pub mod Map
pub mod Action
pub mod Repository
pub mod Memory
pub mod UseCase
pub mod IsoDate
pub mod Correlation
pub mod Catalog
mod Examples
pub mod Consumer
pub mod Query
pub mod Relay
pub mod Metrics
pub mod Rabbit
pub mod Interface
pub mod Persistence
pub mod App
