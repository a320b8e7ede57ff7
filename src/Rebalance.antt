-- ===== src/Rebalance.antt =====
-- A rebalance: from target weights to orders at the broker (vmtrader/portcon/, vmtrader/execution/,
-- vmtrader/system/qts.py).
pub mod Weights
pub mod Sizer
pub mod Orders
pub mod System
pub mod Reach
pub mod Executed
pub mod Covered
pub mod Sized
pub mod Targets
pub mod Sizable
mod Tests
