-- ===== src/Lib.antt =====
-- The event-driven trading ledger and risk analytics platform: its Python parts.
--
-- Trades are posted to a double-entry ledger, each with an outbox row in the same transaction; a
-- relay publishes the rows to a stream at least once; consumers deduplicate by event id, derive
-- positions, and compute the risk metrics that are published and served.
--
-- Files and what they model:
--   Base: shared names, lists over native numbers, integers, exceptions as results with the state
--     beside them (Exec), dictionaries as association lists (Dict), Python's floats as an
--     interface (Float). Numbers are not code of the repository, so every theorem holds for any
--     arithmetic that meets the laws it names; whole numbers stand in for it in the tests.
--   Outbox/Bus: poc/outbox-idempotency/stream_bus.py, class StreamBus. A stream is the list of its
--     entries, a group the id that was last delivered and the list of pending entries.
--   Outbox/Ledger: poc/outbox-idempotency/ledger.py, class Ledger. A table is the list of its rows.
--     post_trade takes the point where it would crash; what it draws from uuid4 and now is the
--     record Draw. Each statement of its transaction tests the primary key or the NOT NULL columns
--     that it could violate; the ledger keeps the tables that an open transaction would roll back
--     to, and an IntegrityError leaves the transaction open.
--   Outbox/Relay: poc/outbox-idempotency/relay.py, relay_outbox on a ledger and a bus.
--   Outbox/Consumer: poc/outbox-idempotency/consumer.py, class RiskConsumer, with poll that may
--     crash before its acknowledgements, and recover.
--   Outbox/Delivery: the ledger, the relay and the consumer together.
--   Outbox/Scenarios: poc/outbox-idempotency/run_scenarios.py, with its exit code.
--   Risk/Json: the values of json.loads and what Python does with them.
--   Risk/Config: services/risk-engine/app/config.py, Config and from_env.
--   Risk/Store and Risk/Positions: services/risk-engine/app/store.py, class RiskStore: the log of
--     applied events, the bounded windows of prices and values, snapshots and derived positions.
--   Risk/Metrics: services/risk-engine/app/metrics.py, compute_metrics.
--   Risk/Consumer: services/risk-engine/app/consumer.py, class RiskConsumer: from a message to the
--     store and the envelope to publish. An exception keeps what was written before it.
--   Risk/Worker: services/risk-engine/app/worker.py, class RiskWorker: what is sent to Redis, in
--     order, for the entries that Redis returned; Risk/Worker/Service is what surrounds it, from the
--     replies and the groups to the loop of main.
--   Risk/Explain: services/risk-engine/app/explain.py, the texts about a snapshot and what changed.
--   Risk/Narrative: services/risk-engine/app/llm_explain.py, the optional rewrite of those texts. The
--     environment, the service and the text functions of the runtime are the record Runtime.
--   Risk/Api: services/risk-engine/app/main.py, the handlers as functions of the store.
--   Risk/Wire: stream_fields of consumer.py, and the messages that
--     services/risk-engine/utils/live_wire_proof.py writes and reads.
--   Contracts: utils/validate_contracts.py, its exit code.
--   Native/Store, Native/Relay, Native/Consumer: poc/native-kill-restart/store.py, relay_proc.py and
--     consumer_proc.py. os._exit is an exit value, and the stream the list of what was added to it.
--   Native/Fields: build_stream_fields of store.py.
--   Native/Client: poc/native-kill-restart/redis_client.py, what it makes of the replies of redis-py.
--   Native/Process: the loop of consumer_proc.py over the answers of Redis in each of its rounds;
--     Native/Process/Main is its main over the replies that the client reads.
--   Native/Script: poc/native-kill-restart/run_proof.py from the seeding on, with its assertions and
--     its exit code.
--   Native/Seed: poc/native-kill-restart/seed.py; Native/Seed/Run and Native/Seed/Proof put the parts
--     together as run_proof.py does.
--   Pipeline/Market, Pipeline/Gateway, Pipeline/Engine: poc/end-to-end/market_data.py, gateway.py and
--     risk_engine.py, on the bus of Outbox/Bus.
--   Pipeline/Script: poc/end-to-end/run_pipeline.py, on the parts above and the Ledger of
--     Outbox/Ledger; its relay is that of poc/outbox-idempotency/relay.py over messages.
--
-- The consumers share the shape of a bus and a store; Outbox/Consumer works on the bus of
-- Outbox/Bus, Risk/Worker on the store of Risk/Store through Risk/Consumer, and Risk/Api reads that
-- store.
--
-- Every loop is recursion on a list, so there is no fuel; the loops of Native/Process and of
-- Risk/Worker/Service, which wait for Redis, are recursion on the answers that they get. Counts and ids are natural numbers.
--
-- Not modelled: logging, the parts of scripts that start and stop live services, Redis and SQLite
-- themselves beyond the statements that the code sends them, and the services in Java, Go and
-- JavaScript.
pub mod Base
pub mod Outbox
pub mod Risk
pub mod Contracts
pub mod Native
pub mod Pipeline
