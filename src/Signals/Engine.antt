-- ===== src/Signals/Engine.antt =====
-- signals/engine.py: six votes, the levels of a trade, and the signal that they make.
mod Rules
mod Laws
pub use Laws.*
unfoldable pub use Rules.*
