-- ===== src/Metrics/Tests.antt =====
-- analytics/metrics.py: runs of the metrics on decimal fractions, and the theorems at inputs that
-- meet their hypotheses.
use stock_signal.Common.{◌*◌, ◌≡◌, refl, none, List, [], ◌∷◌, arith}
use stock_signal.Common.Float.{Fixed, fixed_float, one_fixed, zero_float}
use stock_signal.Common.Int.{ℤ, pos, negsuc, ◌+ℤ◌, ◌-ℤ◌}
use stock_signal.Metrics.Rules.{
  Result, Trade, win, loss, open_trade, compute_metrics, max_drawdown, drawdown_from, sum_of,
  breakdown, buckets_from, pnls,
}
use stock_signal.Metrics.Counts.{IsCounted, compute_metrics-IsCounted}
use stock_signal.Metrics.Drawdown.{IsOrdered, IsGreatest, drawdowns, max_drawdown-IsGreatest}

abbrev trade : Result → ℤ → Trade Fixed
trade r pnl = record {
  outcome = r;
  ticker = 5;
  regime = none;
  entry = pos (100 * one_fixed);
  stop = pos (98 * one_fixed);
  shares = pos (10 * one_fixed);
  pnl = pnl;
  gross_pnl = none;
  costs = none;
  bars_held = none;
}

-- A win of 40 dollars, a loss of 20 dollars, and a trade that is still open.
abbrev trades : List (Trade Fixed)
trades =
    trade win (pos 40000000000) ∷ trade loss (negsuc 19999999999) ∷ trade open_trade (pos 0) ∷ []

abbrev closed : List (Trade Fixed)
closed = trade win (pos 40000000000) ∷ trade loss (negsuc 19999999999) ∷ []

-- The equity falls from 1,040 dollars to 1,020.
drawdown_of_two : (max_drawdown closed (pos (1000 * one_fixed))).0 ≡ pos (20 * one_fixed)
unfolding max_drawdown drawdown_from ◌+ℤ◌ ◌-ℤ◌
drawdown_of_two = refl

-- Risking 20 dollars, the trades made 2 and -1 times as much.
r_of_two : (compute_metrics trades (pos (1000 * one_fixed))).avg_r_multiple ≡ pos 500000000
unfolding compute_metrics max_drawdown drawdown_from breakdown buckets_from sum_of ◌+ℤ◌ ◌-ℤ◌
r_of_two = refl

compute_metrics-IsCounted_example :
    IsCounted trades (compute_metrics trades (pos (1000 * one_fixed)))
compute_metrics-IsCounted_example = compute_metrics-IsCounted trades (pos (1000 * one_fixed))

fixed-IsOrdered : IsOrdered Fixed
fixed-IsOrdered = record { irreflexive = λ a. ground arith; transitive = λ a b c h k. ground arith }

max_drawdown-IsGreatest_example :
    (m : Fixed) × ((max_drawdown closed (pos (1000 * one_fixed))).0 ≡ fixed_float.round 2 m)
    × IsGreatest zero_float
        (drawdowns (pnls closed) (pos (1000 * one_fixed)) (pos (1000 * one_fixed)))
        m
max_drawdown-IsGreatest_example =
    max_drawdown-IsGreatest fixed-IsOrdered closed (pos (1000 * one_fixed))
