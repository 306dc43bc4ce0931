-- ===== src/Lib.antt =====
-- The services of the platform lab, under services/, and the gates of its pipelines, under security/.
-- api-gateway takes the clients' requests, checks their tokens and sends them on to user-service,
-- order-service and notification-worker.
-- order-service asks user-service whether a user exists (with a cache in Redis), stores orders in
-- PostgreSQL and publishes `order.created` to RabbitMQ; notification-worker consumes these messages
-- and stores notifications.
--
-- The gates end a pipeline with the exit code 1: on advisories of npm packages, on findings of CodeQL,
-- on exceptions of the image scan, and on the subjects of commits.
--
-- Files and code (paths below services/, but for the gates):
--   Auth: src/auth of each service (token-verifier.ts, auth.guard.ts, auth.decorators.ts).
--   Config: src/config/env.ts of each service and src/auth/auth.config.ts.
--   Database: src/common/database-unavailable.filter.ts and src/common/pg-errors.ts.
--   Gateway: api-gateway/src/gateway/gateway.ts, and the routes of api-gateway/src/app.module.ts.
--   Orders: order-service/src/orders, src/users/user-directory.service.ts, src/infra.
--   Users: user-service/src/users.
--   Notifications: notification-worker/src/messaging, src/notifications and src/health.
--     Table has the row that record() stores, and Consumer.Redelivery what RabbitMQ does to x-death.
--     Session and Shutdown are two views of the consumer's life: its steps, and their time.
--   Timing: the promises raced with a timer in consumer.service.ts and event-publisher.service.ts.
--   Telemetry: the flush and the probe filter of notification-worker/src/telemetry.ts.
--   Pipeline: the order of guard, pipes, handler and filter (auth/auth.module.ts, app.module.ts and
--     main.ts of each service); Orders.App, Users.App and Notifications.App are the routes of the
--     controllers in it, with the state that a request works on.
--   Health: src/health of order-service, user-service and api-gateway.
--   Migrations: src/migrations of the services, on schemas as Migrations.Schema has them.
--   Upstream: the request ids of src/app.module.ts of each service, and what a service does with a
--     request of the gateway.
--   Contract: the message between order-service and notification-worker.
--   UserLookup: the lookups of order-service, answered by the route of user-service, and the orders
--     that come of them; Refinement follows the lookups over time.
--   Journey: a request to create an order, from the gateway to its notification.
--   DependencyGate, SastGate, ImageGate, CommitGate: gate.mjs in security/dependency-scan,
--     security/sast, security/image-scan and security/commit-lint.
--   Prelude, Effects: shared helpers; Js: what the code uses of strings, regular expressions and JSON.
--
-- Functions have the names of the code in snake_case: handleMessage is Notifications.Consumer's
-- handle_message, createGateway is create_gateway. An asynchronous method that may throw is a function
-- from the state it works on to a result and the next state (Effects.Act). The state of a request in
-- order-service is Orders.Types.World, that of a delivery Notifications.Consumer.Session, that of a
-- request in the gateway Gateway.Exchange.Exchange; Orders.Service.Ledger takes requests to
-- order-service in any sequence.
--
-- Code that is not in the repository is a parameter: the tables with PostgreSQL's documented behaviour
-- (Orders.Store, Notifications.Table, Users.Service), the broker's channel and redelivery
-- (Notifications.Broker, Notifications.Consumer.Redelivery), Redis (Orders.Cache), jose's jwtVerify
-- (Auth.Verifier), JSON.parse, JSON.stringify, Date.parse, Number(text), new URL(text), the
-- files of the gates, express-rate-limit, http-proxy-middleware (Gateway.Middleware),
-- @nestjs/terminus (Health, Notifications.Health), and the pipes of NestJS with class-validator
-- (Deployment in Orders.App, Users.App and Notifications.App). Any call of them may fail. The SQL of
-- the migrations is read as the language that it is: Migrations.Schema says what its statements mean.
--
-- Bounds: the lookup of a user makes ATTEMPTS = 2 requests, and the chain of a database error is
-- followed for three errors, as in the code; a message's life is followed for a number of deliveries
-- that the theorems bound by MAX_ATTEMPTS. Amounts count hundredths; letters change case as in ASCII,
-- which is exact for UUIDs. The list of sessions, the interleavings, the sequences of requests and the
-- files of a gate are of any length; no fuel is used for them.
--
-- What user-service answers to the lookups of order-service comes from the model of user-service in
-- UserLookup; that it fulfils IsHonest of Orders.Directory.Refinement is shown in UserLookup.Refinement.
-- What Redis holds is RedisLaws. The times of Timing, Notifications.Shutdown and Orders.Shutdown are those of the timers:
-- the work between two awaits takes none.
--
-- Not modelled: the rest of telemetry (calls of the OpenTelemetry SDK), the wiring of the framework
-- but for the order of Pipeline, log lines other than the gateway's and the lines that the gates
-- print, and the infrastructure. The publisher of order-service is modelled by itself
-- (Orders.Publisher, Orders.Shutdown) and is a parameter of the orders, which hold whatever it does.
pub mod Prelude
pub mod Effects
pub mod Js
pub mod Config
pub mod Auth
pub mod Database
pub mod Orders
pub mod Notifications
pub mod DependencyGate
pub mod SastGate
pub mod ImageGate
pub mod CommitGate
pub mod Contract
pub mod Pipeline
pub mod Health
pub mod Upstream
pub mod Journey
pub mod Migrations
pub mod UserLookup
pub mod Timing
pub mod Telemetry
pub mod Users
pub mod Gateway
