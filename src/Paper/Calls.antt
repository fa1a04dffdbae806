-- ===== src/Paper/Calls.antt =====
-- trades/executor.py: a new `PaperBroker`, the calls that change one, and histories of calls.
use stock_signal.Common.{ℕ, Text, Option, none, List, [], ◌∷◌}
use stock_signal.Common.Float.{Float, zero_float}
use stock_signal.Common.Int.{ℤ}
use stock_signal.Paper.Data.{FillPolicy, Candidate, Broker, Posting}
use stock_signal.Paper.Overlay.{
  apply_accounting_posting, restore_accounting_state, mark_accounting_unavailable,
}
use stock_signal.Paper.Broker.{Exit, open_position, close_position}

pub data Call (F : Type 0) : Type 0 where
  posts : Posting F → Call F
  -- the summary, and its count
  restores : Posting F → Option ℕ → Call F
  marks : ℤ → Call F
  -- the signal, the bar and the signal's id
  opens : Candidate F → ℕ → Option ℕ → Call F
  -- the ticker and the price
  closes : Text → F → Exit → Call F

module _ {F : Type 0} ⦃f : Float F⦄ where
  -- `__init__`, with the values that it is given or takes from config.py
  abbrev pub paper_broker : F → F → FillPolicy F → Text → Broker F
  paper_broker starting_capital position_pct policy account = record {
    capital = starting_capital;
    position_pct = position_pct;
    policy = policy;
    open_positions = [];
    closed_trades = [];
    blocked = none;
    account = account;
    balances = record {
      accounting_cash = zero_float;
      receivables = zero_float;
      distribution_payables = zero_float;
      borrow_payables = zero_float;
      refund_receivables = zero_float;
      repayment_liabilities = zero_float;
    };
    accounting_unavailable = 0;
  }

  module _ (lower : Text → Text) (seconds_between : Text → Text → F) where
    -- The broker after a call, whatever it returns or raises.
    unfoldable pub perform : Call F → Broker F → Broker F
    perform (Call.posts p) b = (apply_accounting_posting p b).1
    perform (Call.restores summary count) b = (restore_accounting_state summary count b).1
    perform (Call.marks count) b = mark_accounting_unavailable count b
    perform (Call.opens s bar id) b = (open_position s bar id b).1
    perform (Call.closes ticker price x) b =
        (close_position lower seconds_between ticker price x b).1

    unfoldable pub history : List (Call F) → Broker F → Broker F
    history [] b = b
    history (c ∷ cs) b = history cs (perform c b)
