-- ===== src/Metrics/Rules.antt =====
-- analytics/metrics.py: `compute_metrics`, on trades in the order of their close.
use stock_signal.Common.{
  ℕ, ◌+◌, Text, Bool, true, false, not, ◌&&◌, Option, none, some, List, [], ◌∷◌, ◌==◌,
  if◌then◌else◌, select, length, map,
}
use stock_signal.Common.Float.{Float, zero_float, max_float}
use stock_signal.Paper.Data.{of_count, number_or_zero}

-- The texts WIN, LOSS, BREAKEVEN and OPEN, and any other one.
pub data Result : Type 0 where
  win loss breakeven open_trade another : Result

-- The columns of a trade that the metrics read.
pub record Trade (F : Type 0) : Type 0 where
  pub outcome : Result
  pub ticker : Text
  pub regime : Option Text
  pub entry : F
  pub stop : F
  pub shares : F
  pub pnl : F
  pub gross_pnl : Option F
  pub costs : Option F
  pub bars_held : Option F

abbrev pub is_win : Result → Bool
is_win win = true
is_win _ = false

abbrev pub is_loss : Result → Bool
is_loss loss = true
is_loss _ = false

abbrev pub is_breakeven : Result → Bool
is_breakeven breakeven = true
is_breakeven _ = false

abbrev pub is_open : Result → Bool
is_open open_trade = true
is_open _ = false

-- `in CLOSED`
abbrev pub is_closed : Result → Bool
is_closed win = true
is_closed loss = true
is_closed breakeven = true
is_closed _ = false

-- A bucket of `_breakdown`, before and after its last loop.
pub record Bucket (F : Type 0) : Type 0 where
  pub n : ℕ
  pub wins : ℕ
  pub pnl : F

pub record Share (F : Type 0) : Type 0 where
  pub bucket : Bucket F
  pub win_rate : F

-- "UNKNOWN"
abbrev pub unknown_regime : Text
unknown_regime = 1

-- `t.get("regime") or "UNKNOWN"`
abbrev pub regime_key : Option Text → Text
regime_key none = unknown_regime
regime_key (some r) = if r == 0 then unknown_regime else r

abbrev pub count_win : Result → ℕ
count_win r = if is_win r then 1 else 0

pub record Metrics (F : Type 0) : Type 0 where
  pub n_closed : ℕ
  pub n_open : ℕ
  pub n_wins : ℕ
  pub n_losses : ℕ
  pub n_breakeven : ℕ
  pub gross_pnl : F
  pub costs : F
  pub win_rate : F
  pub avg_win : F
  pub avg_loss : F
  pub expectancy : F
  pub profit_factor : Option F
  pub total_pnl : F
  pub max_drawdown : F
  pub max_drawdown_pct : F
  pub avg_bars_held : F
  pub avg_r_multiple : F
  pub avg_win_r : F
  pub avg_loss_r : F
  pub by_ticker : List (Text × Share F)
  pub by_regime : List (Text × Share F)
  pub ending_capital : F
  pub starting_capital : F

-- The state of the loop of `_max_drawdown`.
pub record Curve (F : Type 0) : Type 0 where
  pub equity : F
  pub peak : F
  pub max_abs : F
  pub max_pct : F

module _ {F : Type 0} ⦃f : Float F⦄ where
  open f use {literal, lt, eq, is_finite, add, sub, mul, div, magnitude, round}

  -- `sum(values)`, from the left
  unfoldable pub sum_of : F → List F → F
  sum_of acc [] = acc
  sum_of acc (x ∷ xs) = sum_of (add acc x) xs

  abbrev pub total_of : List F → F
  total_of = sum_of zero_float

  abbrev pub safe_mean : List F → F
  safe_mean [] = zero_float
  safe_mean (x ∷ xs) = div (total_of (x ∷ xs)) (of_count (length (x ∷ xs)))

  abbrev pub risk_of : Trade F → F
  risk_of t = mul (magnitude (sub t.entry t.stop)) t.shares

  abbrev pub r_multiple : Trade F → F
  r_multiple t = if not (eq (risk_of t) zero_float) then div t.pnl (risk_of t) else zero_float

  -- One pass, for a trade's profit: the new equity and peak, and their difference.
  abbrev pub pass_with : F → F → F → Curve F → Curve F
  pass_with equity peak dd c = record {
    equity = equity;
    peak = peak;
    max_abs = if lt c.max_abs dd then dd else c.max_abs;
    max_pct = if lt zero_float peak && lt c.max_pct (div dd peak) then div dd peak else c.max_pct;
  }

  abbrev pub pass : F → Curve F → Curve F
  pass pnl c =
      let equity = add c.equity pnl in
      let peak = max_float c.peak equity in pass_with equity peak (sub peak equity) c

  unfoldable pub drawdown_from : List F → Curve F → Curve F
  drawdown_from [] c = c
  drawdown_from (p ∷ ps) c = drawdown_from ps (pass p c)

  abbrev pub start_of : F → Curve F
  start_of capital = record {
    equity = capital;
    peak = capital;
    max_abs = zero_float;
    max_pct = zero_float;
  }

  unfoldable pub max_drawdown : List (Trade F) → F → F × F
  max_drawdown closed capital =
      let c = drawdown_from (map (λ t. t.pnl) closed) (start_of capital) in
      (round 2 c.max_abs, c.max_pct)

  -- `_breakdown`
  abbrev pub add_to_bucket : Trade F → Bucket F → Bucket F
  add_to_bucket t b = record {
    n = b.n + 1;
    wins = b.wins + count_win t.outcome;
    pnl = add b.pnl t.pnl;
  }

  abbrev pub add_trade : Text → Trade F → List (Text × Bucket F) → List (Text × Bucket F)
  add_trade k t [] = (k, add_to_bucket t (record { n = 0; wins = 0; pnl = zero_float })) ∷ []
  add_trade k t ((i, b) ∷ rest) =
      let later = add_trade k t rest in
      if i == k then (i, add_to_bucket t b) ∷ rest else (i, b) ∷ later

  unfoldable pub buckets_from :
      (Trade F → Text) → List (Trade F) → List (Text × Bucket F) → List (Text × Bucket F)
  buckets_from key [] acc = acc
  buckets_from key (t ∷ ts) acc = buckets_from key ts (add_trade (key t) t acc)

  abbrev pub share_of : Bucket F → Share F
  share_of b = record {
    bucket = record { n = b.n; wins = b.wins; pnl = round 2 b.pnl };
    win_rate = if b.n == 0 then zero_float else div (of_count b.wins) (of_count b.n);
  }

  unfoldable pub breakdown : (Trade F → Text) → List (Trade F) → List (Text × Share F)
  breakdown key closed = map (λ (k, b). (k, share_of b)) (buckets_from key closed [])

  abbrev pub gross_or_pnl : Trade F → F
  gross_or_pnl t = given t.gross_pnl t.pnl
    where
      given : Option F → F → F
      given none pnl = pnl
      given (some g) pnl = g

  abbrev pub held_bars : List (Trade F) → List F
  held_bars [] = []
  held_bars (t ∷ ts) = with_bars t.bars_held (held_bars ts)
    where
      with_bars : Option F → List F → List F
      with_bars none rest = rest
      with_bars (some b) rest = b ∷ rest

  -- `profit_factor`: none for an infinite one
  abbrev pub finite_factor : F → Option F
  finite_factor q = if not (is_finite q) && lt zero_float q then none else some (round 3 q)

  abbrev pub profit_factor_of : F → F → Option F
  profit_factor_of gained lost =
      if not (eq lost zero_float) then finite_factor (div gained lost) else none

  abbrev pub closed_of : List (Trade F) → List (Trade F)
  closed_of = select (λ t. is_closed t.outcome)

  abbrev pub wins_of : List (Trade F) → List (Trade F)
  wins_of = select (λ t. is_win t.outcome)

  abbrev pub losses_of : List (Trade F) → List (Trade F)
  losses_of = select (λ t. is_loss t.outcome)

  abbrev pub pnls : List (Trade F) → List F
  pnls = map (λ t. t.pnl)

  unfoldable pub compute_metrics : List (Trade F) → F → Metrics F
  compute_metrics trades capital =
      let closed = closed_of trades in
      let wins = wins_of closed in
      let losses = losses_of closed in
      let drawdown = max_drawdown closed capital in
      record {
        n_closed = length closed;
        n_open = length (select (λ t. is_open t.outcome) trades);
        n_wins = length wins;
        n_losses = length losses;
        n_breakeven = length (select (λ t. is_breakeven t.outcome) closed);
        gross_pnl = round 2 (total_of (map gross_or_pnl closed));
        costs = round 2 (total_of (map (λ t. number_or_zero t.costs) closed));
        win_rate =
            if length closed == 0
            then zero_float
            else div (of_count (length wins)) (of_count (length closed));
        avg_win = round 2 (safe_mean (pnls wins));
        avg_loss = round 2 (safe_mean (pnls losses));
        expectancy = round 2 (safe_mean (pnls closed));
        profit_factor =
            profit_factor_of (total_of (pnls wins)) (sub zero_float (total_of (pnls losses)));
        total_pnl = round 2 (total_of (pnls closed));
        max_drawdown = drawdown.0;
        max_drawdown_pct = drawdown.1;
        avg_bars_held = round 1 (safe_mean (held_bars closed));
        avg_r_multiple = round 3 (safe_mean (map r_multiple closed));
        avg_win_r = round 3 (safe_mean (map r_multiple wins));
        avg_loss_r = round 3 (safe_mean (map r_multiple losses));
        by_ticker = breakdown (λ t. t.ticker) closed;
        by_regime = breakdown (λ t. regime_key t.regime) closed;
        ending_capital = round 2 (add capital (total_of (pnls closed)));
        starting_capital = capital;
      }
