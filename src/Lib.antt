-- ===== src/Lib.antt =====
-- The payment listener of ZettaPay (packages/listener/src): the program that a merchant runs to make
-- invoices, to watch the chains for their payment, and to report each payment to the merchant's
-- server. It holds no keys. Beside it, the two programs that check such a report on the merchant's
-- side (packages/receiver/src and packages/sdk/src/webhooks), and parts of the hosted service: the
-- refunds, velocity limits and subscriptions of its API (packages/api/src), and the guard of
-- outgoing requests, the plans and the billing of the cloud service (packages/cloud/src). This
-- library models their core in the language of the source, one module for a file of the program, and
-- proves what makes it correct.
--
-- The parts, and which file models which part:
--   Prelude         the shared tests on numbers, lists, texts as code points (trim, split, case),
--                   dictionaries in the order of insertion, numerals (`BigInt`, `toString`), integers,
--                   and the bits of natural numbers
--   Listener.Errors, Listener.Types
--                   errors.ts, types.ts and the bodies of the webhook events; code that may throw
--                   returns a `Result`
--   Listener.Storage
--                   storage/json.ts. `Store` is the data directory: one file for the merchant, one for
--                   each invoice and each event, each good or corrupt. An operation takes the store
--                   and returns a result and a store; what was written before a throw stays written. A
--                   directory is read in the order in which its files were first written, where Node
--                   promises none
--   Listener.Sqlite storage/sqlite.ts. `Database` is its three tables, each a list of rows in the order
--                   of insertion; Calls runs both adapters on the same calls
--   Listener.Bulk   exportAll and importBulk of both adapters, as cli/migrate.ts runs them; Orders has
--                   the directory that is listed in another order
--   Listener.Pricing, Listener.Nonce
--                   usdc-pricing.ts and evm-amount-nonce.ts: prices, and the nonce in the last four
--                   decimals of an amount by which a payment to a shared address is told apart
--   Listener.Quorum rpc-quorum.ts: how many endpoints must report a transfer alike
--   Listener.Chains the registry of chains and tokens of fixed-address-watcher.ts, and the parsers of
--                   its settings
--   Listener.Watcher
--                   fixed-address-watcher.ts: Network (the endpoints), Effects (the state of a poll),
--                   Scan (a poll from the endpoints' logs to what is decided), Watcher itself (what a
--                   decided transfer does)
--   Listener.BaseWatcher
--                   base-watcher.ts: invoices with an address of their own, by balance
--   Listener.BtcListener
--                   listener.ts: subscriptions, messages and transactions of the Bitcoin listener
--   Listener.InvoiceCore
--                   invoice-core.ts: how invoices are made in the three modes
--   Listener.Dispatcher
--                   webhook-dispatcher.ts: delivery of events and the retry curve
--   Listener.RateLimit
--                   rate-limit.ts: the sliding windows of the checkout endpoint, and Env, their setting
--   Api.Refunds     packages/api/src/services/refunds.ts, with Tables (the rows of db/) and Auth
--                   (lib/refund-auth.ts). `begin` and `finish` are the code before and after the wait
--                   for the transfer; in Interleaving a state holds the calls that wait
--   Api.Velocity    packages/api/src/services/velocity.ts: the caps on payments, with the rows of
--                   db/payments.ts; Window has the payments that they let through
--   Cloud.NetGuard  packages/cloud/src/net-guard.ts: Addresses (the ranges), and the check of a URL
--   Cloud.Plans     packages/cloud/src/plans.ts: the caps of the plans
--   Cloud.Billing   packages/cloud/src/billing.ts: Tables (the rows of MemoryCloudDb in cloud-db.ts),
--                   Checkout, Signature, and Billing itself (reconciliation and the events of Stripe)
--   Webhooks        Headers (what packages/listener/src/webhook-dispatcher.ts sends), Receiver and Server
--                   (hmac.ts and server.ts of packages/receiver/src), Sdk
--                   (packages/sdk/src/webhooks/index.ts)
--   Api.Subscriptions
--                   packages/api/src/services/subscription_charger.ts, with Tables (db/subscriptions.ts)
--                   and Auth (lib/subscription-auth.ts). `begin_one` and `finish_one` are a charge before
--                   and after the wait for its transfer; Effects and Cycles follow a subscription's
--                   schedule over the ticks, Overlap has two ticks that overlap
-- A name is the source's name with words parted by _ (`collectActiveNonces` is
-- `collect_active_nonces`). InvoiceCore and the watchers meet in the store: InvoiceCore writes an
-- invoice, a watcher lists it, confirms it and records an event, the dispatcher posts the event, and
-- the receiver or the SDK checks what was posted.
--
-- Numbers are the natural numbers; the amounts that the code keeps in `bigint` are exact. The
-- nonce's start may be negative and is an integer. Amounts of type `number` are below 2 ^ 53, where
-- they are exact; floating-point arithmetic itself is the parameter `Double`. `to_string n` runs on
-- fuel n + 1, which is enough, since each round divides by 10; the search for a nonce has 9999
-- rounds, as in the source. All other recursion is on a list.
--
-- In the listener a call, a poll, a message and a tick are each one step at one instant: the clock,
-- `randomUUID`, `randomInt`, the endpoints' answers, SHA-256 and the key derivations are arguments,
-- and interleavings of two steps at their awaits are not modelled, so two invoices that are made at
-- the same moment are out of scope. In the refunds they are modelled, for any number of calls. In
-- the charges Cycles has ticks of which each is over before the next begins, and Overlap two that
-- overlap. In the billing each call is one step; making an invoice and Stripe's answers are
-- arguments. SQLite is taken at its documentation: an INSERT throws when a key is taken and then
-- changes nothing, a transaction is one step; how it orders rows with the same time is left to the
-- parameter `order_by` in Listener.Sqlite, and is the order of insertion in Api.Subscriptions.
-- `isIP`, the URL parser, HMAC, `Number` of a text where it may be no numeral, the calendar, the
-- table of the payments, `JSON.parse`, the DNS, base58, ed25519, dates and the names that every
-- object inherits are parameters. `isNonPublicAddress` calls itself at most once, so it is unrolled
-- once.
--
-- Not modelled: log lines, timers, aborts, status fields that only report, the JSON text of files
-- and bodies, sockets, the form that is sent to Stripe, payment URIs, failures of the disk other
-- than a file that does not parse, and `BigInt` of a literal with a sign; the HTTP server, the
-- command line other than what migrate does with the adapters, and the key derivations of the
-- listener; what else is in packages/api/src and packages/cloud/src. In packages/api/src,
-- services/payments.ts, db/payments.ts and db/merchants.ts do not parse, so of them only the
-- functions that the refunds, the velocity limits and the subscriptions call are taken. In
-- Api.Subscriptions the payments of a charge are the parameter `Payments`. The audit entry of a
-- payment that a velocity limit refuses is left out.
pub mod Prelude
pub mod Listener
pub mod Cloud
pub mod Webhooks
pub mod Api
