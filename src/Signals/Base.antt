-- ===== src/Signals/Base.antt =====
-- signals: the names that its modules share.
use stock_signal.Common.{Bool, true, false}

-- The text `direction` of a signal; `wait` is any that is neither LONG nor SHORT.
pub data Direction : Type 0 where
  long short wait : Direction

-- `direction in ("LONG", "SHORT")`
abbrev pub is_trade : Direction → Bool
is_trade wait = false
is_trade _ = true
