-- ===== src/Signals/Regime.antt =====
-- signals/regime.py: the regime of the market from its two index funds, and the gate on it.
mod Rules
mod Laws
pub use Laws.*
unfoldable pub use Rules.*
