-- ===== src/Paper/Data.antt =====
-- trades/executor.py: the broker's state, the values that callers pass, and what it computes from
-- them; trades/tracker.py: `check_exit`. The numbers are Python's floats, and counts of shares are
-- natural numbers.
use stock_signal.Common.{
  ℕ, Text, Bool, true, false, not, Option, none, some, List, [], ◌∷◌, ◌==◌, if◌then◌else◌,
}
use stock_signal.Common.Float.{Float, zero_float, max_float}
use stock_signal.Common.Int.{ℤ}
use stock_signal.Signals.Base.{Direction, long}

pub record FillPolicy (F : Type 0) : Type 0 where
  pub spread_bps : F
  pub slippage_bps : F
  pub fee_per_share : F

-- The keys of a signal that `open_position` reads.
pub record Candidate (F : Type 0) : Type 0 where
  pub ticker : Text
  pub direction : Direction
  pub entry : F
  pub stop : F
  pub target : F
  pub entry_at : Option Text
  pub run_id : Option Text

-- An open position; one that was restored can lack its `entry_cost`.
pub record Position (F : Type 0) : Type 0 where
  pub ticker : Text
  pub direction : Direction
  pub entry : F
  pub stop : F
  pub target : F
  pub signal_id : Option ℕ
  pub shares : ℕ
  pub remaining_shares : ℕ
  pub entry_bar : ℕ
  pub account : Text
  pub entry_cost : Option F
  pub observed_bars : ℕ
  pub entry_at : Option Text
  pub run_id : Option Text

-- WIN, LOSS and BREAKEVEN
pub data Outcome : Type 0 where
  win loss breakeven : Outcome

-- What `close_position` adds to the position.
pub record Trade (F : Type 0) : Type 0 where
  pub position : Position F
  pub exit_price : F
  pub exit_at : Option Text
  pub outcome : Outcome
  pub exit_reason : Text
  pub gross_pnl : F
  pub costs : F
  pub pnl : F
  pub exit_bar : ℕ
  pub bars_held : ℤ
  pub elapsed_seconds : Option F

-- The six accounts of the overlay.
pub data Account : Type 0 where
  cash receivables distribution_payables borrow_payables : Account
  refund_receivables repayment_liabilities : Account

pub record Balances (F : Type 0) : Type 0 where
  pub accounting_cash : F
  pub receivables : F
  pub distribution_payables : F
  pub borrow_payables : F
  pub refund_receivables : F
  pub repayment_liabilities : F

pub record Broker (F : Type 0) : Type 0 where
  pub capital : F
  pub position_pct : F
  pub policy : FillPolicy F
  pub open_positions : List (Text × Position F)
  pub closed_trades : List (Trade F)
  pub blocked : Option Text
  pub account : Text
  pub balances : Balances F
  pub accounting_unavailable : ℕ

-- A posting of the ledger; a delta is none where it has no such key.
pub record Posting (F : Type 0) : Type 0 where
  pub unavailable_reason : Option Text
  pub cash_delta : Option F
  pub receivable_delta : Option F
  pub payable_delta : Option F
  pub borrow_payable_delta : Option F
  pub refund_receivable_delta : Option F
  pub repayment_liability_delta : Option F

-- The truth of a text or None.
abbrev pub is_text : Option Text → Bool
is_text none = false
is_text (some t) = not (t == 0)

module _ {F : Type 0} where
  abbrev pub balance : Account → Balances F → F
  balance cash b = b.accounting_cash
  balance receivables b = b.receivables
  balance distribution_payables b = b.distribution_payables
  balance borrow_payables b = b.borrow_payables
  balance refund_receivables b = b.refund_receivables
  balance repayment_liabilities b = b.repayment_liabilities

  -- `setattr(self, target, value)`
  abbrev pub set_balance : Account → F → Balances F → Balances F
  set_balance cash v b = record b { accounting_cash = v }
  set_balance receivables v b = record b { receivables = v }
  set_balance distribution_payables v b = record b { distribution_payables = v }
  set_balance borrow_payables v b = record b { borrow_payables = v }
  set_balance refund_receivables v b = record b { refund_receivables = v }
  set_balance repayment_liabilities v b = record b { repayment_liabilities = v }

abbrev pub is_cash : Account → Bool
is_cash cash = true
is_cash _ = false

module _ {A : Type 0} where
  -- `d.get(key)`, `d[key] = v` and `d.pop(key)` of a dictionary in the order of insertion.
  abbrev pub get : Text → List (Text × A) → Option A
  get k [] = none
  get k ((i, v) ∷ xs) = if i == k then some v else get k xs

  abbrev pub put_key : Text → A → List (Text × A) → List (Text × A)
  put_key k v [] = (k, v) ∷ []
  put_key k v ((i, w) ∷ xs) =
      let rest = put_key k v xs in if i == k then (k, v) ∷ xs else (i, w) ∷ rest

  abbrev pub drop_key : Text → List (Text × A) → List (Text × A)
  drop_key k [] = []
  drop_key k ((i, v) ∷ xs) = let rest = drop_key k xs in if i == k then xs else (i, v) ∷ rest

module _ {F : Type 0} ⦃f : Float F⦄ where
  open f use {literal, lt, le, is_finite, add, sub, mul, div, round, floor}

  abbrev pub number_or_zero : Option F → F
  number_or_zero none = zero_float
  number_or_zero (some v) = v

  abbrev pub of_count : ℕ → F
  of_count n = literal n 0

  -- `FillPolicy.cost`
  abbrev pub cost : FillPolicy F → F → ℕ → F
  cost p reference shares = mul (of_count shares) (
      add
        (div (mul reference (add (div p.spread_bps (literal 2 0)) p.slippage_bps))
          (literal 10000 0))
        p.fee_per_share)

  -- `reserved`: `sum` adds from 0 and from the left.
  abbrev pub notional : Position F → F
  notional p = add (mul p.entry (of_count p.shares)) (number_or_zero p.entry_cost)

  unfoldable pub reserved_from : F → List (Text × Position F) → F
  reserved_from acc [] = acc
  reserved_from acc ((t, p) ∷ ps) = reserved_from (add acc (notional p)) ps

  abbrev pub reserved : Broker F → F
  reserved b = reserved_from zero_float b.open_positions

  -- `sizing_capital` and `available`
  abbrev pub sizing_capital : Broker F → F
  sizing_capital b =
      sub
        (sub (sub (add b.capital b.balances.accounting_cash) b.balances.distribution_payables)
          b.balances.borrow_payables)
        b.balances.repayment_liabilities

  abbrev pub available : Broker F → F
  available b =
      if not (b.accounting_unavailable == 0)
      then zero_float
      else max_float zero_float (sub (sizing_capital b) (reserved b))

  -- A bar's high and low against the levels of a position, as `check_exit` of trades/tracker.py
  -- takes them: the price, whether the target was hit, or none.
  abbrev pub exit_at_levels : Bool → Bool → F → F → Option (F × Bool)
  exit_at_levels hit_stop hit_target stop target =
      if hit_stop then some (stop, false) else if hit_target then some (target, true) else none

  abbrev pub exit_for : Direction → F → F → F → F → Option (F × Bool)
  exit_for long stop target high low = exit_at_levels (le low stop) (le target high) stop target
  exit_for _ stop target high low = exit_at_levels (le stop high) (le low target) stop target

  unfoldable pub check_exit : Position F → F → F → Option (F × Bool)
  check_exit p high low = exit_for p.direction p.stop p.target high low
