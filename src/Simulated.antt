-- ===== src/Simulated.antt =====
-- The simulated broker of a backtest (vmtrader/broker/simulated_broker.py) and the data handler
-- that it asks for prices.
pub mod Market
pub mod Broker
pub mod Update
pub mod Sound
pub mod Transfers
pub mod Fixture
mod Tests
