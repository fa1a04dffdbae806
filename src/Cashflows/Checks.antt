-- ===== src/Cashflows/Checks.antt =====
-- trades/cashflows.py: the checks of `__post_init__` of windows, borrow intervals and borrow
-- settlements.
use stock_signal.Common.{ℕ, Bool, true, not, ◌&&◌, ◌||◌, Option, List, [], ◌∷◌, ltb}
use stock_signal.Common.Int.{ℤ, ltb_ℤ, leb_ℤ}
use stock_signal.Cashflows.Base.{
  Text, Result, ok, value_error, ◌>>=◌, ◌>>◌, require, Number, Stamp, require_aware, aware_or_none,
  zero_amount,
}
use stock_signal.Cashflows.Decimal.{decimal}
use stock_signal.Cashflows.Records.{Kind, Choice, chosen, Balances, TimeWindow, amount_or_none}
use stock_signal.Cashflows.Borrow.{BorrowInterval, BorrowSettlement}

-- `for value in balances.values()`
abbrev pub all_non_negative : {A : Type 0} → List (A × ℤ) → Bool
all_non_negative [] = true
all_non_negative ((_, v) ∷ rest) = not (ltb_ℤ v zero_amount) && all_non_negative rest

-- The mappings of a window that are checked; `opening_settled` is not.
unfoldable pub time_window :
    Stamp
    → Stamp
    → (receivables payables : Balances) → (borrow_payables : List (Text × ℤ))
    → (refund_receivables repayment_liabilities targets settled : Balances) → Result TimeWindow
time_window start end receivables payables borrow refunds repayments targets settled = do
  from ← require_aware start
  to ← require_aware end
  require (not (ltb to from)) value_error
  require
      (all_non_negative receivables
        && (all_non_negative payables
            && (all_non_negative borrow
                && (all_non_negative refunds
                    && (all_non_negative repayments && all_non_negative targets)))))
      value_error
  ok (record {
    start = from;
    end = to;
    opening_receivables = receivables;
    opening_payables = payables;
    opening_borrow_payables = borrow;
    opening_refund_receivables = refunds;
    opening_repayment_liabilities = repayments;
    opening_targets = targets;
    opening_settled = settled;
  })

-- A datetime with its calendar date, as a number of days.
pub record Dated : Type 0 where
  pub stamp : Stamp
  pub date : ℕ

unfoldable pub borrow_interval :
    Text
    → (quantity base_price : Number ℤ) → (annual_rate : Option (Number ℤ)) → (start end : Dated)
    → (denominator : Number ℤ) → Option Stamp
    → Option Text
    → Result BorrowInterval
borrow_interval id quantity base_price annual_rate start end denominator knowledge_at currency = do
  quantity ← decimal quantity
  base ← decimal base_price
  denominator ← decimal denominator
  require (not (ltb_ℤ quantity zero_amount || ltb_ℤ base zero_amount)) value_error
  require (not (leb_ℤ denominator zero_amount)) value_error
  from ← require_aware start.stamp
  to ← require_aware end.stamp
  require (not (ltb to from)) value_error
  knowledge ← aware_or_none knowledge_at
  rate ← amount_or_none annual_rate
  ok (record {
    interval_id = id;
    quantity = quantity;
    base_price = base;
    annual_rate = rate;
    start_date = start.date;
    end_date = end.date;
    denominator = denominator;
    knowledge_at = knowledge;
    currency = currency;
  })

unfoldable pub borrow_settlement :
    Text
    → Text
    → Option (Number ℤ)
    → Stamp
    → Choice Kind
    → Option Stamp
    → Option Text
    → Result BorrowSettlement
borrow_settlement payment_id charge_id amount occurred_at kind knowledge_at currency = do
  occurred ← require_aware occurred_at
  knowledge ← aware_or_none knowledge_at
  kind ← chosen kind
  amount ← amount_or_none amount
  ok (record {
    payment_id = payment_id;
    charge_id = charge_id;
    amount = amount;
    occurred_at = occurred;
    kind = kind;
    knowledge_at = knowledge;
    currency = currency;
  })
