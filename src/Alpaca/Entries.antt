-- ===== src/Alpaca/Entries.antt =====
-- trades/alpaca_broker.py: `open_position`, the intents of orders, and `request_session_flatten`.
-- `quantize n v` is `Decimal(str(v)).quantize` to `n` places, half up; the id of a new order is an
-- argument.
use stock_signal.Common.{
  ℕ, Text, Bool, not, ◌&&◌, ◌||◌, Option, none, some, List, [], ◌∷◌, ◌++◌, ◌==◌, if◌then◌else◌,
  find?, any, select, update, is_some,
}
use stock_signal.Common.Float.{Float, zero_float}
use stock_signal.Common.Int.{ℤ, pos, negsuc}
use stock_signal.Signals.Base.{Direction, long, is_trade}
use stock_signal.Paper.Data.{is_text, get}
use stock_signal.Alpaca.Data.{
  pending_submission, Purpose, entry, is_entry, zero_division, integrity_error, ok, err, Payload,
  OrderRow, Held, is_bracket, is_live, has_id,
}
use stock_signal.Alpaca.Broker.{Client, Broker, Action, ◌>>=◌, ◌>>◌, pure, set_orders}
use stock_signal.Alpaca.Orders.{submit}

-- The keys of a signal that `open_position` reads; the levels where they are finite numbers.
pub record Signal (F : Type 0) : Type 0 where
  pub ticker : Text
  pub direction : Direction
  pub entry_price : F
  pub stop : Option F
  pub target : Option F

-- "session_close"
abbrev pub session_close : Text
session_close = 33

module _ {F : Type 0} where
  -- `_orders` of a ticker
  abbrev pub orders_of : Text → Broker F → List (OrderRow F)
  orders_of ticker b = select (λ row. row.ticker == ticker) b.store.orders

  abbrev pub has_live_order : Text → Broker F → Bool
  has_live_order ticker b = any is_live (orders_of ticker b)

  unfoldable pub has_open : Text → Broker F → Bool
  has_open ticker b = is_some (get ticker b.open_positions) || has_live_order ticker b

  abbrev pub intent_row : Text → Text → Purpose → ℕ → Payload F → Option ℕ → OrderRow F
  intent_row id ticker purpose qty payload trade_id = record {
    id = id;
    broker_id = none;
    ticker = ticker;
    purpose = purpose;
    state = pending_submission;
    requested_qty = qty;
    filled_qty = 0;
    fill_price = none;
    applied_qty = 0;
    trade_id = trade_id;
    payload = payload;
    last_error = none;
  }

  abbrev pub insert_order : OrderRow F → Action F Text
  insert_order row b =
      if any (has_id row.id) b.store.orders
      then (err integrity_error, b)
      else (ok row.id, set_orders (λ orders. orders ++ row ∷ []) b)

  abbrev pub intent_or : Option (OrderRow F) → OrderRow F → Action F Text
  intent_or none row = insert_order row
  intent_or (some existing) row = pure existing.id

  -- `_intent`
  unfoldable pub intent : OrderRow F → Action F Text
  intent row b = intent_or (find? is_live (orders_of row.ticker b)) row b

  abbrev pub flattened : OrderRow F → OrderRow F
  flattened row = record row {
    payload = record row.payload {
      pending_exit = some (record { reason = session_close; exit_bar = none });
    };
  }

  abbrev pub to_flatten : OrderRow F → Bool
  to_flatten row =
      is_entry row.purpose
      && (is_bracket row && (is_live row && not (is_some row.payload.pending_exit)))

  unfoldable pub request_session_flatten : Broker F → Broker F
  request_session_flatten = set_orders (update to_flatten flattened)

module _ {F : Type 0} ⦃f : Float F⦄ (quantize : ℕ → F → F) where
  open f use {literal, lt, le, eq, mul, div, floor}

  abbrev pub level_of : Option F → Option F
  level_of none = none
  level_of (some v) =
      if le v zero_float then none else some (quantize (if le (literal 1 0) v then 2 else 4) v)

  abbrev pub in_order : Direction → F → F → F → Bool
  in_order long price stop target = lt stop price && lt price target
  in_order _ price stop target = lt target price && lt price stop

  abbrev pub levels_from : Signal F → Option F → Option F → Option (F × F)
  levels_from s (some stop) (some target) =
      if in_order s.direction s.entry_price stop target then some (stop, target) else none
  levels_from s _ _ = none

  abbrev pub levels_of : Signal F → Option (F × F)
  levels_of s = levels_from s (level_of s.stop) (level_of s.target)

  abbrev pub entry_payload : Direction → F × F → Payload F
  entry_payload direction levels = record {
    direction = direction;
    bracket = some levels;
    parent_id = none;
    pending_exit = none;
    exit_reason = none;
    exit_bar = none;
    broker_qty = none;
  }

  abbrev pub shares_of : ℤ → Option ℕ
  shares_of (pos n) = if n == 0 then none else some n
  shares_of (negsuc n) = none

  abbrev pub enter : Client F → Text → Signal F → ℕ → F × F → Action F (Option (Held F))
  enter client id s shares levels = do
    order_id ← intent (intent_row id s.ticker entry shares (entry_payload s.direction levels) none)
    submit client order_id
    λ b. (ok (get s.ticker b.open_positions), b)

  abbrev pub enter_if :
      Client F → Text → Signal F → Option ℕ → Option (F × F) → Action F (Option (Held F))
  enter_if client id s (some shares) (some levels) = enter client id s shares levels
  enter_if client id s _ _ = pure none

  abbrev pub sized_entry : Client F → Text → Signal F → Action F (Option (Held F))
  sized_entry client id s b =
      if eq s.entry_price zero_float
      then (err zero_division, b)
      else enter_if client id s
          (shares_of (floor (div (mul b.capital b.position_pct) s.entry_price))) (levels_of s) b

  unfoldable pub open_position : Client F → Text → Signal F → Action F (Option (Held F))
  open_position client id s b =
      if not (is_trade s.direction) || (has_open s.ticker b || is_text b.blocked)
      then (ok none, b)
      else sized_entry client id s b
