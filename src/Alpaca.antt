-- ===== src/Alpaca.antt =====
-- trades/alpaca_broker.py: durable orders at a broker, their fills, and the reconciliation of the
-- stored exposure with the broker's.
mod Keyed
pub mod Data
pub mod Fills
pub mod Reports
pub mod Broker
pub mod Orders
pub mod Reconcile
pub mod Checks
pub mod Entries
pub mod Exits
pub mod Calls
pub mod Valid
mod Filling
mod Taking
mod Keeps
mod Sending
mod Reconciling
mod Leaving
pub mod History
pub mod Confirmed
mod Leads
mod Loaded
pub mod Reconciled
pub mod Exposure
pub mod Settling
pub mod Balance
pub mod Again
mod Tests
mod FillTests
