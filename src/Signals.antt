-- ===== src/Signals.antt =====
-- The rules of signals: indicator votes and levels, the market regime with its gate, and the two
-- checks of the research gate.
pub mod Base
pub mod Regime
pub mod Engine
pub mod Quality
mod Tests
