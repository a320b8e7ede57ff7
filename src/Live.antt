-- ===== src/Live.antt =====
-- The live plane (vmtrader/broker/live/ and broker/live_broker.py).
pub mod Guards
pub mod Decimal
pub mod Ledger
pub mod Client
pub mod Broker
pub mod Fixture
pub mod Submit
pub mod Collect
pub mod Settle
pub mod Session
pub mod Reconcile
pub mod Worker
pub mod Cycle
