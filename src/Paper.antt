-- ===== src/Paper.antt =====
-- The local paper broker: trades/executor.py, and the exits of trades/tracker.py.
pub mod Data
pub mod Overlay
pub mod Broker
pub mod Calls
pub mod Tables
pub mod Valid
pub mod Invariant
pub mod Laws
mod Tests
