-- ===== src/Metrics.antt =====
-- analytics/metrics.py: the metrics of closed trades, and what their counts and drawdown are.
pub mod Rules
pub mod Counts
pub mod Drawdown
mod Tests
