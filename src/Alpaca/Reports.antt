-- ===== src/Alpaca/Reports.antt =====
-- trades/alpaca_broker.py: the transaction of `_apply_broker_order_state`, which returns the new
-- tables or raises and leaves them.
use stock_signal.Common.{ℕ, Text, Option, none, some, leb, if◌then◌else◌, find?, update}
use stock_signal.Common.Float.{Float}
use stock_signal.Alpaca.Data.{
  is_failed, missing_row, Result, ok, state_error, Payload, OrderRow, Store, Report, has_id,
}
use stock_signal.Alpaca.Fills.{require, validated_fill, with_leg_quantity, fill_at, Filled, ◌>>=◌}

module _ {F : Type 0} ⦃f : Float F⦄ where
  -- The UPDATE of an order's row by a report.
  abbrev pub order_after : Report F → ℕ → Payload F → Option ℕ → OrderRow F → OrderRow F
  order_after order qty payload trade_id r = record r {
    broker_id = some order.id;
    state = order.state;
    filled_qty = qty;
    applied_qty = qty;
    fill_price = order.filled_avg_price;
    trade_id = trade_id;
    payload = payload;
    last_error = if is_failed order.state then some (state_error order.state) else none;
  }

  abbrev pub fill_step : OrderRow F → Report F → ℕ → Payload F → Store F → Result (Filled F)
  fill_step row order qty payload s =
      if leb qty row.applied_qty
      then ok (record { store = s; trade_id = row.trade_id; event = none })
      else fill_at order.filled_avg_price row payload qty s

  abbrev pub stored : Text → Report F → ℕ → Payload F → Filled F → Filled F
  stored id order qty payload x = record x {
    store = record x.store {
      orders = update (has_id id) (order_after order qty payload x.trade_id) x.store.orders;
    };
  }

  -- The transaction of `_apply_broker_order_state`
  unfoldable pub apply_report : Text → Report F → Store F → Result (Filled F)
  apply_report id order s = do
    row ← require (find? (has_id id) s.orders) missing_row
    qty ← validated_fill row order
    payload ← with_leg_quantity row order qty
    x ← fill_step row order qty payload s
    ok (stored id order qty payload x)
