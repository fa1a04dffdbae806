-- ===== src/Alpaca/Tests.antt =====
-- trades/alpaca_broker.py: a bracket that is filled, and its reconciliation.
use stock_signal.Common.{ℕ, ◌+◌, ◌*◌, Text, true, false, none, some, [], ◌∷◌, ◌≡◌, refl, ◌/◌}
use stock_signal.Common.Float.{Fixed, one_fixed, fixed_float}
use stock_signal.Common.Int.{pos, ◌+ℤ◌, ◌-ℤ◌}
use stock_signal.Signals.Base.{long}
use stock_signal.Alpaca.Data.{new, filled, ok, Report, limit, stop, whole}
use stock_signal.Alpaca.Fills.{validated_fill, apply_entry_fill, apply_exit_fill}
use stock_signal.Alpaca.Reports.{apply_report}
use stock_signal.Alpaca.Broker.{
  Client, Broker, long_side, mark_unresolved, reload_from, reload_open_positions,
}
use stock_signal.Alpaca.Orders.{
  insert_legs, apply_broker_order_state, apply_legs, discover_legs, submit,
}
use stock_signal.Alpaca.Reconcile.{
  cancel_each, cancel_flatten_entries, sync_each, positions_from, block_on_exposure_mismatch,
}
use stock_signal.Alpaca.Checks.{
  block_on_unsettled_orders, block_on_incomplete_bracket_protection, with_equity, checks, finish,
  reconcile,
}
use stock_signal.Alpaca.Entries.{Signal, has_open, intent, open_position}
use stock_signal.Alpaca.Calls.{opens, closes, reconciles, flattens, history}
use stock_signal.Alpaca.Valid.{IsValid, Later}
use stock_signal.Alpaca.History.{history-Later}
use stock_signal.Alpaca.Confirmed.{IsConfirmed}
use stock_signal.Alpaca.Leads.{HoldsStored}
use stock_signal.Alpaca.Reconciled.{reconcile_confirms}

abbrev price : ℕ → Fixed
price n = pos (n * one_fixed)

abbrev signal : Signal Fixed
signal = record {
  ticker = 7;
  direction = long;
  entry_price = price 100;
  stop = some (price 95);
  target = some (price 110);
}

abbrev resting : Text → Report Fixed
resting id = record {
  id = id;
  state = new;
  qty = whole (pos 10);
  filled_qty = whole (pos 0);
  filled_avg_price = none;
}

-- Entries are filled at once, and the legs rest.
abbrev client : Client Fixed
client = record {
  submit_order = λ sent request. ok (record {
    report = record {
      id = 500;
      state = filled;
      qty = whole (pos request.qty);
      filled_qty = whole (pos request.qty);
      filled_avg_price = some (price 100);
    };
    legs = (limit, resting 501) ∷ (stop, resting 502) ∷ [];
  });
  get_order_by_client_id = λ sent id. ok (record { report = resting id; legs = [] });
  get_order_by_id = λ sent id nested. ok (record { report = resting id; legs = [] });
  cancel_order_by_id = λ sent id. ok tt;
  get_all_positions =
      λ sent. ok (record { symbol = 7; qty = some (price 10); side = long_side } ∷ []);
  get_equity = λ sent. ok (some (price 10000));
  leg_id = λ id. id + 100;
}

abbrev start : Broker Fixed
start = record {
  store = record { orders = []; trades = []; next_trade = 1 };
  capital = price 10000;
  position_pct = pos (one_fixed / 10);
  open_positions = [];
  closed_trades = [];
  events = [];
  blocked = none;
  safe_to_flatten = false;
  observation = none;
  sent = [];
}

start-IsValid : IsValid start.store
start-IsValid = record { order_ids = tt; trade_ids = tt; orders = tt; trades = tt }

abbrev cents : ℕ → Fixed → Fixed
cents n v = v

history-Later_example :
    Later start.store
      (history cents client
        (opens 1 signal
          ∷ reconciles
          ∷ closes 2 7 (record { reason = 9; exit_bar = some 4 })
          ∷ flattens
          ∷ [])
        start).store
history-Later_example = history-Later cents client _ start start-IsValid

entered : Broker Fixed
entered = (open_position cents client 1 signal start).1

entered_confirmed : (reconcile client entered).0 ≡ true
unfolding entered open_position has_open intent submit apply_broker_order_state apply_report
    validated_fill apply_entry_fill reload_open_positions reload_from insert_legs discover_legs
    apply_legs reconcile sync_each cancel_flatten_entries cancel_each finish checks with_equity
    positions_from block_on_exposure_mismatch block_on_unsettled_orders
    block_on_incomplete_bracket_protection apply_exit_fill mark_unresolved ◌+ℤ◌ ◌-ℤ◌
entered_confirmed = refl

entered_holds : HoldsStored entered
unfolding entered open_position has_open intent submit apply_broker_order_state apply_report
    validated_fill apply_entry_fill reload_open_positions reload_from insert_legs discover_legs
    apply_legs reconcile sync_each cancel_flatten_entries cancel_each finish checks with_equity
    positions_from block_on_exposure_mismatch block_on_unsettled_orders
    block_on_incomplete_bracket_protection apply_exit_fill mark_unresolved ◌+ℤ◌ ◌-ℤ◌
entered_holds = refl

reconcile_confirms_example : IsConfirmed client (reconcile client entered).1
reconcile_confirms_example = reconcile_confirms client entered entered_holds entered_confirmed
