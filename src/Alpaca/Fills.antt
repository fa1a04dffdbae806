-- ===== src/Alpaca/Fills.antt =====
-- trades/alpaca_broker.py: what `_apply_broker_order_state` does in its transaction. An error
-- leaves the tables as they were.
use stock_signal.Common.{
  ℕ, suc, ◌-◌, Text, Bool, false, not, ◌&&◌, ◌||◌, Option, none, some, [], ◌∷◌, ◌++◌, ◌==◌, ltb,
  if◌then◌else◌, find?, any, update,
}
use stock_signal.Common.Float.{Float, zero_float}
use stock_signal.Common.Int.{pos}
use stock_signal.Signals.Base.{Direction, long}
use stock_signal.Paper.Data.{Outcome, win, loss, breakeven, number_or_zero, of_count}
use stock_signal.Alpaca.Data.{
  is_filled, Purpose, entry, exit, Error, inconsistent_quantity, no_confirmed_price,
  incomplete_fill, invalid_leg_quantity, exceeds_exposure, missing_row, zero_division,
  integrity_error, Result, ok, err, Payload, OrderRow, TradeRow, Store, Reading, missing, whole,
  Report, EventKind, opened, closed, is_bracket_leg, is_trade_id,
}

infixl 5 ◌>>=◌
abbrev pub ◌>>=◌ : {A B : Type 0} → Result A → (A → Result B) → Result B
ok a >>= k = k a
err e >>= k = err e

abbrev pub require : {A : Type 0} → Option A → Error → Result A
require none e = err e
require (some a) e = ok a

abbrev pub read_or_zero : Reading → Reading
read_or_zero missing = whole (pos 0)
read_or_zero r = r

-- The tests of a cumulative quantity, which an order's row and the broker's report must pass.
abbrev pub quantity_within : ℕ → ℕ → Reading → Result ℕ
quantity_within low high (whole (pos n)) =
    if ltb n low || ltb high n then err inconsistent_quantity else ok n
quantity_within low high _ = err inconsistent_quantity

abbrev pub leg_quantity : Reading → ℕ → Result ℕ
leg_quantity (whole (pos n)) filled = if ltb n filled then err invalid_leg_quantity else ok n
leg_quantity _ filled = err invalid_leg_quantity

-- What a fill leaves: the tables, the order's trade and the event.
pub record Filled (F : Type 0) : Type 0 where
  pub store : Store F
  pub trade_id : Option ℕ
  pub event : Option EventKind

module _ {F : Type 0} ⦃f : Float F⦄ where
  open f use {literal, lt, le, add, sub, mul, div, round}

  abbrev pub is_priced : Option F → Bool
  is_priced none = false
  is_priced (some p) = not (le p zero_float)

  abbrev pub check_fill : OrderRow F → Report F → ℕ → Result ℕ
  check_fill row order qty =
      if not (qty == 0) && not (is_priced order.filled_avg_price)
      then err no_confirmed_price
      else if is_filled order.state && (not (qty == row.requested_qty) && not (is_bracket_leg row))
      then err incomplete_fill
      else ok qty

  -- `_validated_cumulative_fill`, for its quantity; its price is the reported one
  unfoldable pub validated_fill : OrderRow F → Report F → Result ℕ
  validated_fill row order = do
    qty ← quantity_within row.applied_qty row.requested_qty (read_or_zero order.filled_qty)
    check_fill row order qty

  -- The payload of a leg takes the broker's quantity.
  abbrev pub with_leg_quantity : OrderRow F → Report F → ℕ → Result (Payload F)
  with_leg_quantity row order qty =
      if is_bracket_leg row
      then (leg_quantity order.qty qty >>= λ n. ok (record row.payload { broker_qty = some n }))
      else ok row.payload

  abbrev pub entry_trade : OrderRow F → Payload F → ℕ → ℕ → F → TradeRow F
  entry_trade row payload id qty price = record {
    id = id;
    ticker = row.ticker;
    direction = payload.direction;
    entry_price = price;
    shares = qty;
    remaining_shares = qty;
    entry_order_id = some row.id;
    outcome = none;
    gross_pnl = none;
    exit_reason = none;
    exit_price = none;
    exit_bar = none;
    bars_held = none;
    observed_bars = 0;
    state_json = none;
  }

  -- The unique index on `entry_order_id`.
  abbrev pub is_entry_of : Text → TradeRow F → Bool
  is_entry_of id t = elim t.entry_order_id [ none ↦ false | some i ↦ i == id ]

  abbrev pub entry_values : ℕ → F → TradeRow F → TradeRow F
  entry_values qty price t = record t { entry_price = price; shares = qty; remaining_shares = qty }

  abbrev pub entry_event : OrderRow F → Option EventKind
  entry_event row = if row.applied_qty == 0 then some opened else none

  unfoldable pub apply_entry_fill :
      OrderRow F → Payload F → ℕ → F → Option ℕ → Store F → Result (Filled F)
  apply_entry_fill row payload qty price none s =
      if any (is_entry_of row.id) s.trades
      then err integrity_error
      else ok record {
        store = record s {
          trades = s.trades ++ entry_trade row payload s.next_trade qty price ∷ [];
          next_trade = suc s.next_trade;
        };
        trade_id = some s.next_trade;
        event = entry_event row;
      }
  apply_entry_fill row payload qty price (some id) s = ok record {
    store = record s { trades = update (is_trade_id id) (entry_values qty price) s.trades };
    trade_id = some id;
    event = entry_event row;
  }

  abbrev pub signed : Direction → F → F
  signed long v = v
  signed _ v = sub zero_float v

  abbrev pub outcome_of : F → Outcome
  outcome_of pnl = if lt zero_float pnl then win else if lt pnl zero_float then loss else breakeven

  -- The gross profit with the new part of the cumulative notional.
  abbrev pub gross_after : OrderRow F → TradeRow F → ℕ → F → F
  gross_after row t qty price = add (number_or_zero t.gross_pnl) (
      signed t.direction (
        sub
          (sub (mul (of_count qty) price)
            (mul (of_count row.applied_qty) (number_or_zero row.fill_price)))
          (mul (of_count (qty - row.applied_qty)) t.entry_price)))

  abbrev pub partial_exit : Payload F → F → ℕ → TradeRow F → TradeRow F
  partial_exit payload gross remaining t = record t {
    remaining_shares = remaining;
    gross_pnl = some (round 2 gross);
    exit_reason = payload.exit_reason;
  }

  abbrev pub full_exit : Payload F → F → TradeRow F → TradeRow F
  full_exit payload gross t = record (partial_exit payload gross 0 t) {
    outcome = some (outcome_of (round 2 gross));
    exit_price = some (add t.entry_price (div (signed t.direction gross) (of_count t.shares)));
    bars_held = some t.observed_bars;
    exit_bar = payload.exit_bar;
  }

  abbrev pub exit_values : Payload F → F → ℕ → TradeRow F → TradeRow F
  exit_values payload gross remaining t =
      if remaining == 0 then full_exit payload gross t else partial_exit payload gross remaining t

  -- `_apply_exit_fill`, once its trade is read
  abbrev pub exit_of : OrderRow F → Payload F → ℕ → F → Store F → TradeRow F → Result (Filled F)
  exit_of row payload qty price s t =
      let delta = qty - row.applied_qty in
      let remaining = t.remaining_shares - delta in
      if ltb t.remaining_shares delta
      then err exceeds_exposure
      else if remaining == 0 && t.shares == 0
      then err zero_division
      else ok record {
        store = record s {
          trades =
              update (is_trade_id t.id)
                (exit_values payload (gross_after row t qty price) remaining) s.trades;
        };
        trade_id = row.trade_id;
        event = if remaining == 0 then some closed else none;
      }

  unfoldable pub apply_exit_fill : OrderRow F → Payload F → ℕ → F → Store F → Result (Filled F)
  apply_exit_fill row payload qty price s = do
    id ← require row.trade_id missing_row
    t ← require (find? (is_trade_id id) s.trades) missing_row
    exit_of row payload qty price s t

  abbrev pub fill_for : Purpose → OrderRow F → Payload F → ℕ → F → Store F → Result (Filled F)
  fill_for entry row payload qty price s = apply_entry_fill row payload qty price row.trade_id s
  fill_for exit row payload qty price s = apply_exit_fill row payload qty price s

  abbrev pub fill_at : Option F → OrderRow F → Payload F → ℕ → Store F → Result (Filled F)
  fill_at none row payload qty s = err no_confirmed_price
  fill_at (some price) row payload qty s = fill_for row.purpose row payload qty price s
