-- ===== src/Lib.antt =====
-- payrouter: a facade with Stripe's API over Indonesian payment gateways. This library models the
-- parts of the Go program that decide what happens to money and to notifications, and proves what
-- makes them correct.
--
-- A merchant calls the HTTP server (internal/server), which keeps its resources in a store
-- (internal/store in memory, internal/storepg in Postgres) and talks to one gateway behind an
-- interface (internal/gateway): an adapter (internal/adapters) or the orchestrated gateway
-- (internal/orchestrator), which picks the adapter with the lowest fee and routes later calls by a
-- tag in the reference. A gateway's callback is verified and parsed by the adapter, applied to the
-- store by the server, and turned into an event, which the deliverer (internal/webhook) signs and
-- posts to the merchant until it is taken.
--
-- Prelude: shared names, Boolean tests, lists, texts, maps (an association list whose keys stay
--   distinct) and `Result`.
-- GoLib: what the program uses of Go's strings, strconv, encoding/hex and of int64. Case
--   conversion covers ASCII letters.
-- Store: internal/store/memory.go. Types holds the records; Memory each Put… and Get… with the
--   five secondary indexes; Queue the outbound queue and the listings. `Invariant.Write` lists every
--   call that changes the store.
-- Webhook: internal/webhook. Signer is signer.go (Sign, Verify, parseSignature, prefixForSecret);
--   Deliverer is deliverer.go (New, DeliverOnce, deliverPayload, defaultBackoff) on the in-memory
--   queue and Durable its deliverOnceDurable on the outbox. Both loops run on fuel: any fuel above
--   the number of due deliveries is enough in memory, above the attempts that the events have left
--   on the outbox.
-- Gateway: internal/gateway/gateway.go, the records and the interface. A call acts on a state of
--   the processor; a request body is a stream, so reading it leaves it empty.
-- Adapters: internal/adapters. Status is the three status.go; Callbacks is ParseWebhook of
--   midtrans.go, xendit.go and mayar.go with the signature checks; Doku is the whole of doku.go and
--   signature.go, with CreatePayment in Doku.Checkout; Midtrans is the outgoing calls of
--   midtrans.go, with their bodies in Midtrans.Requests.
-- Orchestrator: internal/orchestrator. OrderId and Router are router.go and the records of
--   config.go; Routed is router_gateway.go.
-- Server: internal/server. Objects holds the Stripe-shaped objects and the serializers toStripe…;
--   Events is webhook.go on the in-memory store (dispatchEvent, processEvent, activateSubscription,
--   recordSubscriptionCycle, queueEvent), with the random ids as a stream and a count of those
--   drawn. Http and Idempotency are server.go: auth, errors, command ids, readiness, and the wrapper
--   around the handlers that write. Refunds is createRefund and retrieveRefund of refund.go on the
--   durable store, Intents createPaymentIntent, retrievePaymentIntent and confirmPaymentIntent of
--   paymentintent.go. Forms is collectMetadata and collectPaymentMethodTypes of the same file, whose
--   loop runs on fuel: the greatest index plus two rounds are enough.
-- Postgres: internal/storepg, each operation one transaction on the rows of its table. Refunds,
--   Intents, Idempotency and Accounts are store.go and seed.go, Inbound is inbound.go, Outbound
--   outbound.go. Rows is what the statements share: the row a WHERE finds, and an UPDATE.
--   Outbound.Calls and Idempotency.Records list the calls on a table as commands, for theorems about
--   any sequence of them.
-- Examples: the modules of this name apply the theorems at concrete inputs.
--
-- Numbers: amounts, times and counts that the code keeps from being negative are numbers without a
--   bound; the signer's time arithmetic is on int64 with its wrap-around. float64 is a parameter
--   with the laws of its order. HMAC-SHA256, SHA-512, encoding/json, the random source, the clock,
--   the merchant's endpoint and the processors are parameters. The order in which Go walks a map is
--   the order of the association list, which the theorems leave open.
--
-- Not modelled: the HTTP handlers that create the other resources and the listings, the
-- reconciler, the Postgres catalog and recurring tables, the outgoing calls of Xendit and Mayar,
-- the stub adapter and the subscription calls of Midtrans, which are left to be added;
-- configuration, migrations and start-up, which read the environment and have no logic of their
-- own.
pub mod Prelude
pub mod GoLib
pub mod Store
pub mod Webhook
pub mod Gateway
pub mod Adapters
pub mod Orchestrator
pub mod Server
pub mod Postgres
