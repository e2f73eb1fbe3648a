-- ===== src/Lib.antt =====
-- ETHPayServer: from the events of the chain monitor to the state of invoices and payments.
--
-- A chain monitor (evm/src/monitor) reads the blocks of one chain and publishes events: a payment
-- was seen, is deep enough, or a reorganization happened. The events pass through a durable outbox
-- to the server, whose event consumer applies each of them to the database, one after the other,
-- and then commits its position, so that a restart resumes behind the last applied event. The
-- handlers write payments; a trigger of the database keeps the running total of each invoice; the
-- handlers compare it with the invoice's amount and move the invoice's status.
--
-- The files:
--   Base        Shared names: Boolean tests, lists, maps keyed by numbers, integers, texts.
--   Event       evm/src/monitor/events.rs: the events, as records and a sum.
--   External    What is taken from crates outside the repository: the decimals of bigdecimal and
--               the text forms of hashes and addresses of alloy, as the record `Crates` of
--               operations and laws, a parameter of all that uses it.
--   Settlement  server/src/services/settlement.rs and data-service/src/settlement_tolerance.rs.
--   Outbox      evm/src/monitor/bridge/memory.rs: `publish`, `subscribe_from`, one turn of the
--               stream's loop as `poll`, `bump_epoch`. Outbox/Trace has the interleavings of a
--               reader with publishers as a step relation.
--   Monitor     evm/src/monitor/chain and the interface of evm/src/monitor/source: State has the
--               monitor's fields, the calls of a node as the record `BlockSource`, whose answers
--               depend on how many calls came before, and a monad `M` of its own; Scan and Blocks
--               are processing.rs, Confirmations and Reorganization are confirmations.rs, Lifecycle
--               is lifecycle.rs with the loop over a list of inputs. Reads and Succeeds are rules
--               on actions, Coverage is about the payments reported, Progress about the cursor while
--               the node is up, Pending about confirmations, Survivors about the re-scan for a
--               reorganization, on its own and together with the server's handler.
--   Network     evm/src/network.rs and evm/src/testnet.rs: the configured chains.
--   Database    data-service/src/postgres: the tables as the record `World`, each statement as a
--               function on it, and calls in the monad `M`, which carries the state and an error.
--               `World.down` says which calls fail from outside, in any pattern, and `World.lost`
--               which of those have had their effect and lose their answer only: a statement on
--               any `World` is one about every such failure.
--   Webhook     server/src/services/webhook: Job is job.rs and error.rs, Queue the queue's operations of
--               service.rs on redis as a state; `Queue.down` and `Queue.lost` say which calls fail,
--               and which of those had their effect. Paging is the choice of the log target for a
--               job that was tried as often as it may be, which touches the log only. Calls has
--               the cases of a call, Kept and Kept/Turn are about jobs that are not lost, Capped about the choice.
--   Drain       server/src/services/webhook_outbox_drain.rs and webhook/dispatch.rs with the table of
--               data-service/src/postgres/webhook_outbox.rs: Outbox has the statements on the table,
--               Dispatch the pass of the drain up to `queue_webhook` of Webhook. Settled,
--               Marked and Accounted are about obligations that are not lost, Claimed and Claims
--               about what a claim takes, Answered and Progress about passes that reach their
--               services.
--   Idempotency server/src/api/idempotency: Http is config.rs, headers.rs, key.rs and response.rs with the
--               operations of crates, Cache is redis and cache.rs, Middleware the layer as steps from
--               await to await, Interleaved any number of requests at once as a step relation. Keys,
--               Fair and Exclusive are about the locks, Steps and Replay about a request that comes again.
--   Cleanup     server/src/services/invoice_cleanup.rs: the expiry of invoices. Below it: Watched has the
--               queries of data-service/src/postgres/watched_address.rs, Addresses the clean-up of
--               watched addresses; Selected is about what the queries select, Overdue, Due, Steps and Kept
--               about which watches may end, Ends, Complete, Free and Cleared about which do.
--   Consumer    server/src/services/event_consumer: payment_handler.rs in Detected,
--               confirmation_handler.rs in Confirmed, reorg_handler.rs in Reorg, the conversion of
--               amounts and the loop of mod.rs in Convert and Resume. Consumer/Keeps goes from the
--               statements to the handlers, Consumer/Writes from the rows to the statements.
--               Consumer/Resume/Exact, Applied and Restart are about the loop, Settled about
--               confirmations, Retracted and Reorganized about reorganizations, Redelivery about a
--               confirmation that comes twice, Invariants about every handler.
--   Tests       Runs on concrete inputs, over decimals in units of 0.0001.
--
-- Correspondence: a function has the source's name; a part of a long function that is a function of
-- its own here is named for what it does. A `?` on a database call is a step of `M`; what is only
-- logged on failure is an `attempt`. Notices to the dashboard, webhooks and receipts are appended
-- to `World.sent`, and metrics and logs are left out. Identifiers, addresses, hashes and U256
-- amounts are natural numbers, times are seconds. `seq` and `epoch` are i64 in the source and
-- natural numbers here, as they count up from zero or from a random positive number. Block numbers
-- are natural numbers; sums of them are written without the bound of u64, but for the saturating
-- sum of `chunk_end`. A panic is modelled where the reader of the outbox has one; that of `U256::from_be_slice` on
-- log data of more than 32 bytes is not. The foreign keys of the tables are not checked either, and
-- a member of the processing set always has its claim. Recursion is structural, on the events, payments, invoices or blocks at hand,
-- but for the chunks of `rescan_logs`, which run on fuel: as much as there are blocks, which is
-- enough since each chunk has at least one.
--
-- Not modelled: the redis bridge and the nodes behind the block sources, which are services outside
-- the repository; the monitor's coordinator; several workers on one queue of webhooks, and the
-- signatures of the requests; the HTTP API; plugins; telemetry; the MCP server.
pub mod Base
pub mod Event
pub mod External
pub mod Settlement
pub mod Outbox
pub mod Network
pub mod Monitor
pub mod Webhook
pub mod Database
pub mod Cleanup
pub mod Consumer
pub mod Tests
pub mod Idempotency
pub mod Drain
