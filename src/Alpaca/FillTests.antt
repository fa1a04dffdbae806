-- ===== src/Alpaca/FillTests.antt =====
-- trades/alpaca_broker.py: an entry that is completed, and a target that is hit in two parts.
use mathlib.Core.Option
use stock_signal.Common.{
  ℕ, ◌*◌, Text, Option, none, some, List, [], ◌∷◌, ◌≡◌, refl, ap, ◌∙◌, inl, arith, map, find?, sym,
}
use stock_signal.Common.Float.{Fixed, one_fixed, fixed_float}
use stock_signal.Common.Int.{pos, ◌+ℤ◌, ◌-ℤ◌}
use stock_signal.Signals.Base.{long}
use stock_signal.Alpaca.Data.{
  OrderState, new, filled, partially_filled, entry, exit, Purpose, OrderRow, Store, Report, whole,
  has_id, ok,
}
use stock_signal.Alpaca.Fills.{validated_fill, apply_entry_fill, apply_exit_fill, Filled}
use stock_signal.Alpaca.Reports.{apply_report}
use stock_signal.Alpaca.Calls.{take_reports, after_taking}
use stock_signal.Alpaca.Keyed.{sum_by}
use stock_signal.Alpaca.Valid.{IsValid}
use stock_signal.Alpaca.Settling.{IsBalanced}
use stock_signal.Alpaca.Balance.{IsFirst, AreFirst, take_reports-IsBalanced}
use stock_signal.Alpaca.Again.{apply_report_again}

abbrev price : ℕ → Fixed
price n = pos (n * one_fixed)

abbrev row : Text → Purpose → ℕ → Option Text → OrderRow Fixed
row id purpose qty parent = record {
  id = id;
  broker_id = none;
  ticker = 7;
  purpose = purpose;
  state = new;
  requested_qty = 10;
  filled_qty = qty;
  fill_price = none;
  applied_qty = qty;
  trade_id = some 1;
  payload = record {
    direction = long;
    bracket = none;
    parent_id = parent;
    pending_exit = none;
    exit_reason = none;
    exit_bar = none;
    broker_qty = none;
  };
  last_error = none;
}

-- Four of ten shares are bought.
abbrev bought : Store Fixed
bought = record {
  orders = row 1 entry 4 none ∷ row 2 exit 0 (some 1) ∷ [];
  trades =
      record {
        id = 1;
        ticker = 7;
        direction = long;
        entry_price = price 100;
        shares = 4;
        remaining_shares = 4;
        entry_order_id = some 1;
        outcome = none;
        gross_pnl = none;
        exit_reason = none;
        exit_price = none;
        exit_bar = none;
        bars_held = none;
        observed_bars = 0;
        state_json = none;
      }
      ∷ [];
  next_trade = 2;
}

abbrev report : OrderState → ℕ → ℕ → Report Fixed
report state qty at = record {
  id = 500;
  state = state;
  qty = whole (pos 10);
  filled_qty = whole (pos qty);
  filled_avg_price = some (price at);
}

abbrev reports : List (Text × Report Fixed)
reports =
    (1, report filled 10 101)
    ∷ (2, report partially_filled 3 110)
    ∷ (2, report partially_filled 3 110)
    ∷ (2, report filled 10 112)
    ∷ []

bought-IsValid : IsValid bought
bought-IsValid = record {
  order_ids = ((λ e. absurd (omega (arith, e)), tt), (tt, tt));
  trade_ids = (tt, tt);
  orders = (
    record { applied = refl; within = omega arith },
    (record { applied = refl; within = omega arith }, tt),
  );
  trades = (record { known = omega arith; left = omega arith; held = λ e. omega arith }, tt);
}

bought-IsBalanced : IsBalanced bought
unfolding sum_by
bought-IsBalanced = record {
  known = (λ t e. ground arith, (λ t e. ground arith, tt));
  even = (refl, tt);
}

abbrev completed : Store Fixed
completed = after_taking bought (apply_report 1 (report filled 10 101) bought)

abbrev part_sold : Store Fixed
part_sold = after_taking completed (apply_report 2 (report partially_filled 3 110) completed)

abbrev repeated : Store Fixed
repeated = after_taking part_sold (apply_report 2 (report partially_filled 3 110) part_sold)

leg-IsFirst :
    (order : Report Fixed) (s : Store Fixed)
    → Option.map (λ r. r.purpose) (find? (has_id 2) s.orders) ≡ some exit
    → IsFirst 2 order s
unfolding IsFirst
leg-IsFirst order s h row t found p e =
    let q : some exit ≡ some entry = sym h ∙ ap (Option.map (λ r. r.purpose)) found ∙ ap some p in
    cc

reports-AreFirst : AreFirst reports bought
unfolding AreFirst IsFirst sum_by apply_report validated_fill apply_entry_fill apply_exit_fill ◌+ℤ◌
    ◌-ℤ◌
reports-AreFirst = (
  λ row t found p e. inl (ground arith),
  (
    leg-IsFirst (report partially_filled 3 110) completed refl,
    (
      leg-IsFirst (report partially_filled 3 110) part_sold refl,
      (leg-IsFirst (report filled 10 112) repeated refl, tt),
    ),
  ),
)

sold_out : map (λ t. t.remaining_shares) (take_reports reports bought).trades ≡ 0 ∷ []
unfolding take_reports apply_report validated_fill apply_entry_fill apply_exit_fill ◌+ℤ◌ ◌-ℤ◌
sold_out = refl

take_reports-IsBalanced_example : IsBalanced (take_reports reports bought)
take_reports-IsBalanced_example =
    take_reports-IsBalanced reports bought bought-IsValid bought-IsBalanced reports-AreFirst

bought_once : (x : Filled Fixed) × (apply_report 1 (report filled 10 101) bought ≡ ok x)
unfolding apply_report validated_fill apply_entry_fill
bought_once = (_, refl)

apply_report_again_example :
    apply_report 1 (report filled 10 101) bought_once.0.store
    ≡ ok (record bought_once.0 { event = none })
apply_report_again_example =
    apply_report_again 1 (report filled 10 101) bought bought_once.0 bought-IsValid bought_once.1
