-- ===== src/Lib.antt =====
-- Verification of the core of the NestJS API boilerplate.
--
-- The application is a NestJS service. The parts modelled are those that keep state or decide
-- something on their own; the framework, the database, Redis, Kafka and the network are the
-- environment. Each file here opens with the source file that it is about. A
-- module below a part proves what the part keeps; Tests runs it on concrete input. The parts:
--
--   Backoff        src/common/backoff/backoff.ts: delays between attempts, used by the sagas.
--   Saga           src/saga: definitions (saga-definition.ts) with their accepted shape; instances and
--                  their log (saga-instance.ts); the table with its leases (prisma-saga.store.ts);
--                  one step forward or back (saga-orchestrator.service.ts, step, executeStep,
--                  compensateStep); the loop of drive, and start and advance over it.
--   Bulkhead       src/common/bulkhead/bulkhead.ts: permits, and a queue with timers.
--   Streaming      src/streaming: the ring of recent events (replay-buffer.ts), the position a client
--                  holds (stream-cursor.ts), numbering and resuming (event-stream.service.ts).
--   Orders         src/orders: the basket (basket.ts), the warehouse that reserves from it
--                  (services/in-memory-inventory.service.ts), the parcels
--                  (services/in-memory-shipping.service.ts), and the checkout (checkout.saga.ts),
--                  whose steps call these and Payments.
--   Locking        src/common/locking: leases with fencing tokens, in the process
--                  (in-memory-distributed-lock.ts) and over Redis nodes (redlock.service.ts).
--   Idempotency    src/common/idempotency/stores/in-memory-idempotency.store.ts: one execution per key.
--   Payments       src/payments: amounts (money.ts: Money, and Decimal for the texts of PayPal), the
--                  refund rules (refund-rules.ts) and the provider for development
--                  (providers/mock-payment.provider.ts), a state machine.
--   Messaging      src/messaging/retry-ladder.ts: attempts in place, built on Backoff (Ladder). The
--                  consumer groups of in-memory-broker.ts and their pumps, and its logs (Broker).
--   SchemaRegistry src/schema-registry: the nodes of a schema and the profile (json-schema.ts), and the
--                  comparison of two schemas and of a history (compatibility.ts). Its Meaning says what
--                  JSON Schema makes of a node.
--   Realtime       src/realtime: the socket of one slow client (Socket), and the two indexes of the
--                  connections with what the gateway does to them (Registry).
--   Audit          src/audit: the canonical text of details (Json), the hashed bytes and the sealing of an
--                  entry (Hash), the verifier and the append of the store (Verifier). Framing says that
--                  the bytes determine the fields.
--   Auth           src/auth: the table of refresh tokens and their families
--                  (prisma-refresh-token.store.ts), and the refresh of auth.service.ts on it.
--   Prelude        the names, tests and lists shared by all; a Map with text keys, in insertion order.
--
-- A saga step calls a participant; what it answers, the clock, and what other runners do to the row
-- meanwhile are arguments. State that the source mutates is passed along and returned. Errors that
-- the source throws are constructors of a result. A call of the single-threaded classes is one step;
-- interleavings are lists of calls. What others do between the two transactions of a refresh, and
-- between two commands at a Redis node, is an argument.
-- The steps of the checkout are functions on one world, of the orders,
-- the warehouse, the payments, the parcels and the outbox; Reached and Undone of Checkout put them in
-- the order that a saga runs and undoes them in, without the table and the leases of Saga.
--
-- Bounds. `drive` has a loop bound of its own, twice the steps and two, written as in the source. The
-- waiting loop of the lock runs over a list of passes, one for each time that the environment lets
-- it go on; with the list used up it is still waiting. The digits of a number are made with fuel for one
-- more than the number, of which it never has as many digits. The retry
-- ladder is given one round more than its policy has attempts, and the refusal of a delay ends it
-- before. Nothing else takes fuel.
--
-- Numbers are exact: counters, times in whole milliseconds and quantities stay below 2^53. A budget
-- that a caller of the bulkhead gives may be negative. Texts that are compared only are strings;
-- texts that are parsed are lists of UTF-16 code units.
--
-- Not modelled: the adapters of PostgreSQL, Redis, Kafka, S3, Stripe and PayPal, the controllers,
-- guards, pipes and modules of the framework, logging and metrics, authentication other than the
-- refresh tokens, and the parts of the modelled directories that their files here do not name.
pub mod Prelude
pub mod Backoff
pub mod Saga
pub mod Bulkhead
pub mod Streaming
pub mod Orders
pub mod Locking
pub mod Realtime
pub mod Idempotency
pub mod Payments
pub mod Messaging
pub mod SchemaRegistry
pub mod Audit
pub mod Auth
