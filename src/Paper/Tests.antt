-- ===== src/Paper/Tests.antt =====
-- trades/executor.py: runs of the broker on decimal fractions, and the theorems at inputs that meet
-- their hypotheses.
use stock_signal.Common.{ℕ, Text, ◌≡◌, ◌*◌, refl, true, false, none, some, List, [], ◌∷◌}
use stock_signal.Common.Float.{Fixed, fixed_float, one_fixed}
use stock_signal.Common.Int.{pos, negsuc, ◌-ℤ◌, ◌+ℤ◌}
use stock_signal.Signals.Base.{long}
use stock_signal.Paper.Data.{FillPolicy, Candidate, Broker, Posting, check_exit, reserved_from}
use stock_signal.Paper.Overlay.{ok, err, value_error, tolerance, apply_accounting_posting}
use stock_signal.Paper.Broker.{Exit, open_position, close_position, position_of, trade_of}
use stock_signal.Paper.Calls.{Call, paper_broker, history}
use stock_signal.Paper.Valid.{IsValid}
use stock_signal.Paper.Invariant.{broker_history-IsValid, paper_broker-IsValid}
use stock_signal.Paper.Laws.{
  IsFrozen, history-IsFrozen, refused_posting_keeps_cash, close_position-open_position,
}

abbrev dollars : ℕ → Fixed
dollars n = pos (n * one_fixed)

abbrev policy : FillPolicy Fixed
policy = record { spread_bps = dollars 0; slippage_bps = dollars 0; fee_per_share = dollars 1 }

-- 10,000 dollars, of which a tenth goes to a position.
abbrev new_broker : Broker Fixed
new_broker = paper_broker (dollars 10000) (pos 100000000) policy 7

abbrev bought : Candidate Fixed
bought = record {
  ticker = 5;
  direction = long;
  entry = dollars 99;
  stop = dollars 90;
  target = dollars 120;
  entry_at = some 30;
  run_id = none;
}

abbrev at_target : Exit
at_target = record {
  outcome = 11;
  exit_bar = 9;
  bars_held = none;
  exit_reason = none;
  exit_at = some 40;
}

abbrev lower : Text → Text
lower t = t

abbrev seconds_between : Text → Text → Fixed
seconds_between a b = pos (b * one_fixed) -ℤ pos (a * one_fixed)

-- Ten shares at 99 dollars and one for the fee.
opens_ten : open_position bought 4 (some 1) new_broker ≡ (
  some (position_of bought 4 (some 1) 10 new_broker),
  record new_broker { open_positions = (5, position_of bought 4 (some 1) 10 new_broker) ∷ [] },
)
unfolding open_position reserved_from ◌-ℤ◌ ◌+ℤ◌
opens_ten = refl

-- 210 dollars won on the shares, less 20 for the fees.
the_profit :
    (trade_of lower seconds_between policy
      (position_of bought 4 (some 1) 10 new_broker)
      (dollars 120)
      at_target).pnl
    ≡ dollars 190
unfolding ◌-ℤ◌ ◌+ℤ◌
the_profit = refl

exits_at_stop :
    check_exit (position_of bought 4 (some 1) 10 new_broker) (dollars 130) (dollars 85)
    ≡ some (dollars 90, false)
unfolding check_exit
exits_at_stop = refl

close_position-open_position_example :
    close_position lower seconds_between 5
      (dollars 120)
      at_target
      (record new_broker { open_positions = (5, position_of bought 4 (some 1) 10 new_broker) ∷ [] })
    ≡ (
      ok (
          trade_of lower seconds_between policy
            (position_of bought 4 (some 1) 10 new_broker)
            (dollars 120)
            at_target),
      record new_broker {
        capital =
            fixed_float.add
              (dollars 10000)
              (trade_of lower seconds_between policy
                (position_of bought 4 (some 1) 10 new_broker)
                (dollars 120)
                at_target).pnl;
        closed_trades =
            trade_of lower seconds_between policy
              (position_of bought 4 (some 1) 10 new_broker)
              (dollars 120)
              at_target
            ∷ [];
      },
    )
close_position-open_position_example =
    close_position-open_position ⦃f = fixed_float⦄ lower seconds_between bought 4 (some 1)
      (dollars 120) at_target new_broker
      (record new_broker { open_positions = (5, position_of bought 4 (some 1) 10 new_broker) ∷ [] })
      (position_of bought 4 (some 1) 10 new_broker) opens_ten refl

abbrev no_amounts : Posting Fixed
no_amounts = record {
  unavailable_reason = none;
  cash_delta = none;
  receivable_delta = none;
  payable_delta = none;
  borrow_payable_delta = none;
  refund_receivable_delta = none;
  repayment_liability_delta = none;
}

-- A settlement of five dollars that no receivable stands for.
abbrev settles_nothing : Posting Fixed
settles_nothing = record no_amounts {
  cash_delta = some (dollars 5);
  receivable_delta = some (negsuc 4999999999);
}

below_zero : fixed_float.lt (dollars 0 +ℤ negsuc 4999999999) tolerance ≡ true
unfolding ◌+ℤ◌ ◌-ℤ◌
below_zero = refl

refused_posting_keeps_cash_example : apply_accounting_posting settles_nothing new_broker ≡ (
  err value_error,
  record new_broker {
    balances = record new_broker.balances { accounting_cash = dollars 0 +ℤ dollars 5 };
  },
)
refused_posting_keeps_cash_example =
    refused_posting_keeps_cash settles_nothing new_broker refl below_zero

not_dust : fixed_float.lt (dollars 0) tolerance ≡ false
unfolding ◌-ℤ◌
not_dust = refl

abbrev calls : List (Call Fixed)
calls =
    Call.opens bought 4 (some 1)
    ∷ Call.posts (record no_amounts { cash_delta = some (dollars 3) })
    ∷ Call.closes 5 (dollars 120) at_target
    ∷ Call.posts settles_nothing
    ∷ Call.marks (pos 1)
    ∷ Call.opens bought 6 none
    ∷ []

broker_history-IsValid_example :
    IsValid (dollars 10000) (history lower seconds_between calls new_broker)
broker_history-IsValid_example =
    broker_history-IsValid ⦃f = fixed_float⦄ not_dust lower seconds_between (dollars 10000) calls
      new_broker (paper_broker-IsValid (dollars 10000) (pos 100000000) policy 7 not_dust)

abbrev blocked_broker : Broker Fixed
blocked_broker = record new_broker { blocked = some 1 }

history-IsFrozen_example :
    IsFrozen blocked_broker (history lower seconds_between calls blocked_broker)
history-IsFrozen_example =
    history-IsFrozen ⦃f = fixed_float⦄ lower seconds_between calls blocked_broker refl
