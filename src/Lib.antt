-- ===== src/Lib.antt =====
-- Rush Delivery Engine: six Go services that take food orders, find riders for them, follow the
-- riders and tell the customers.
--
-- How the parts interact. order-service (internal/order) keeps the table of orders: each change of
-- an order, its row of the audit log order_events and its row of the outbox are one Postgres
-- transaction. The relay (internal/outbox) publishes the outbox rows to Kafka. assignment-service
-- (internal/assignment) consumes order.placed, searches the Redis geo index for near riders, and
-- claims one or cancels the order. rider-service (internal/rider) registers riders and keeps their
-- status and the geo index in step. location-service (internal/location) takes the riders'
-- positions from WebSockets and publishes them; eta-service (internal/eta, pkg/geo) turns them into
-- arrival times of the rider's active order; notification-service (internal/notification) pushes
-- all these events to the customers' WebSockets. pkg/kafka and pkg/middleware/ratelimit.go serve
-- them all.
--
-- The state. Store.antt has the record `World`: the four tables of migrations/ as lists of rows in
-- the order of their insertion, the geo index, the Kafka log, the counters of business events, the
-- broadcasts of the notification service, the sequence behind the outbox ids, and the number of
-- calls made to servers. A method of the program is an action: a function from the state to a
-- result and a new state. Platform.antt has the record `Env` of what the program stands on and does
-- not implement: which calls to servers fail and with what text (each call asks `fails` at its own
-- number, so that a theorem for every `Env` holds for every pattern of failures), the clock, the
-- new UUIDs, the text forms of UUIDs and times, the column types that change or refuse a value, the
-- GEOSEARCH of Redis, trace propagation, and float arithmetic. Laws of these are named hypotheses
-- where they are used: `IsCodec` (a printed UUID or time reads back), `Geo.IsSigned` (signs in
-- float arithmetic), `Auth.IsJwt` (the JWT library parses what it signed),
-- `RateLimit.Window.IsMonotone` (rounding to a double keeps the order). A process that starts has a
-- state of its own, the record `Process` of Startup/Process.antt: what it opened, closed and
-- started, and the topics of the cluster; the record `Host` has the libraries it uses then (viper,
-- the parsing of a connection string, the Kafka controller), which calls fail, and how the process
-- ends. `Kafka.Admin.Ensured.IsCreating` says that a CreateTopics that succeeds adds the topics
-- that it is asked for, and that one that reports an error has added some of them at most.
--
-- Which file models what.
-- - Store/Tx.antt: a Postgres transaction as the code uses BeginTx, Commit and the deferred
--   Rollback; a commit that reports an error is taken not to have happened.
-- - Wire.antt: JSON objects and Kafka messages. A payload is the list of its fields; a missing
--   field decodes to the zero value, the last of several with one name counts, and for a field of a
--   struct the case of ASCII letters does not.
-- - Order/Model.antt, Order/StateMachine.antt, Order/Repository.antt, Order/Service.antt,
--   Order/Handler.antt: internal/order, file by file (Create is `create`, UpdateStatus
--   `update_status`, Transition `transition`, and so on). Order/Audit.antt states what the audit
--   log is for.
-- - Outbox.antt and Outbox/Relay.antt: Write, dispatch and Run of internal/outbox. The rows that
--   other relays have locked are an argument of a dispatch.
-- - Assignment/Model.antt, Assignment/Service.antt, Assignment/Consumer.antt: internal/assignment
--   (claimRider is `claim_rider`, markCancelled `mark_cancelled`, Assign `assign`).
-- - Rider/Model.antt, Rider/Repository.antt, Rider/Service.antt, Rider/Handler.antt: internal/rider
--   (SetStatus of the service is `change_status`).
-- - Location.antt: internal/location. Geo.antt: pkg/geo. Eta.antt: internal/eta.
-- - Notification/Hub.antt, Notification/Handler.antt and Notification/Consumer.antt:
--   internal/notification. A connection is a number; the lock of the hub makes each method one
--   step. Notification/Service.antt has the four handlers over the shared state, with the lookup of
--   cmd/notification-service/main.go.
-- - Kafka/Producer.antt, Kafka/Headers.antt, Kafka/Topics.antt, Kafka/Consumer.antt,
--   Kafka/Admin.antt: pkg/kafka (EnsureTopics is `ensure_topics`).
-- - RateLimit.antt: pkg/middleware/ratelimit.go. Metrics.antt: the HTTP middleware of
--   pkg/metrics/metrics.go.
-- - Auth.antt: pkg/auth and the login of internal/order/auth_handler.go. Gateway.antt: the router
--   of cmd/order-service/main.go, with its public endpoints and the order API.
-- - Startup/Config.antt: pkg/config (Load is `load`). Startup/Clients.antt: pkg/postgres,
--   pkg/redisx, pkg/telemetry and the level of pkg/logger. Startup/Servers.antt and
--   Startup/Services.antt: the function run of each service of cmd/ (`run_order`, `run_rider` and
--   so on; a `defer` is `deferring` around the rest of the function, and one that closes several
--   consumers `deferring_all`).
-- - System.antt: the services together. A step is one transaction, one statement, command or
--   message outside a transaction, or one tick of a relay; a request is several steps, with those
--   of other requests in between, and a transition (Transition of internal/order/service.go) writes
--   an order by what it read in any earlier state.
-- - The child modules of each have its theorems, named for what they are about; Tests.antt and its
--   children have concrete inputs.
--
-- Bounds and fuel. `Outbox.Relay.run` takes one step per tick and `Kafka.Consumer.run` one per
-- round, until the context is cancelled; the theorems say how many are enough: a tick for each
-- hundred waiting rows, a round for each message. All other loops are over lists. Go's int of a
-- count is a natural number; UUIDs, times and floats are natural numbers that stand for their bits
-- or nanoseconds.
--
-- Not modelled: deadlines, pings and the upgrade of WebSockets, Flush and Hijack of the metrics'
-- response writer, timeouts of calls, log lines and spans, which are I/O of libraries. The
-- construction of handlers and the middlewares of chi have no counterpart. Statements of different
-- transactions do not interleave: a transaction is one step, except for the row locks of the relay.
-- A configured number of hours is not negative; the texts that dispatch puts around an error of
-- BeginTx and Commit are left out, since they are only logged.
pub mod Prelude
pub mod Platform
pub mod Order
pub mod Kafka
pub mod Rider
pub mod Assignment
pub mod Wire
pub mod Store
pub mod Outbox
pub mod RateLimit
pub mod Geo
pub mod Location
pub mod Eta
pub mod Notification
pub mod Auth
pub mod Gateway
pub mod Startup
pub mod Metrics
pub mod System
mod Tests
