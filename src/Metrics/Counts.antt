-- ===== src/Metrics/Counts.antt =====
-- analytics/metrics.py: the counts of `compute_metrics`.
use stock_signal.Common.{
  ℕ, ◌+◌, ◌≤◌, ◌≡◌, refl, ◌∙◌, Text, List, [], ◌∷◌, select, length, map, arith,
}
use stock_signal.Common.Float.{Float}
use stock_signal.Metrics.Rules.{
  Trade, is_breakeven, is_open, Bucket, Share, count_win, Metrics, add_trade, buckets_from,
  share_of, breakdown, closed_of, wins_of, losses_of, regime_key, compute_metrics,
}

-- The sums of a count over the buckets.
abbrev pub sum_n : {F : Type 0} → List (Text × Bucket F) → ℕ
sum_n [] = 0
sum_n ((k, b) ∷ rest) = b.n + sum_n rest

abbrev pub sum_wins : {F : Type 0} → List (Text × Bucket F) → ℕ
sum_wins [] = 0
sum_wins ((k, b) ∷ rest) = b.wins + sum_wins rest

abbrev pub buckets_of : {F : Type 0} → List (Text × Share F) → List (Text × Bucket F)
buckets_of [] = []
buckets_of ((k, s) ∷ rest) = (k, s.bucket) ∷ buckets_of rest

module _ {F : Type 0} ⦃f : Float F⦄ where
  closed_parts :
      (ts : List (Trade F))
      → length (closed_of ts)
        ≡ length (wins_of (closed_of ts))
          + length (losses_of (closed_of ts))
          + length (select (λ t. is_breakeven t.outcome) (closed_of ts))
  closed_parts [] = refl
  closed_parts (t ∷ ts) = let k = closed_parts ts in ground arith

  open_parts :
      (ts : List (Trade F))
      → length (closed_of ts) + length (select (λ t. is_open t.outcome) ts) ≤ length ts
  open_parts [] = omega arith
  open_parts (t ∷ ts) = let k = open_parts ts in ground arith

  add_trade_n :
      (k : Text) (t : Trade F) (bs : List (Text × Bucket F))
      → sum_n (add_trade k t bs) ≡ sum_n bs + 1
  add_trade_n k t [] = omega arith
  add_trade_n k t ((i, b) ∷ rest) = let h = add_trade_n k t rest in ground arith

  add_trade_wins :
      (k : Text) (t : Trade F) (bs : List (Text × Bucket F))
      → sum_wins (add_trade k t bs) ≡ sum_wins bs + count_win t.outcome
  add_trade_wins k t [] = omega arith
  add_trade_wins k t ((i, b) ∷ rest) = let h = add_trade_wins k t rest in ground arith

  buckets_from_n :
      (key : Trade F → Text) (ts : List (Trade F)) (bs : List (Text × Bucket F))
      → sum_n (buckets_from key ts bs) ≡ sum_n bs + length ts
  unfolding buckets_from
  buckets_from_n key [] bs = omega arith
  buckets_from_n key (t ∷ ts) bs =
      omega (arith, buckets_from_n key ts (add_trade (key t) t bs), add_trade_n (key t) t bs)

  buckets_from_wins :
      (key : Trade F → Text) (ts : List (Trade F)) (bs : List (Text × Bucket F))
      → sum_wins (buckets_from key ts bs) ≡ sum_wins bs + length (wins_of ts)
  unfolding buckets_from
  buckets_from_wins key [] bs = omega arith
  buckets_from_wins key (t ∷ ts) bs =
      let h = buckets_from_wins key ts (add_trade (key t) t bs) in
      let k = add_trade_wins (key t) t bs in ground arith

  buckets_n :
      (key : Trade F → Text) (ts : List (Trade F)) → sum_n (buckets_from key ts []) ≡ length ts
  buckets_n key ts = omega (arith, buckets_from_n key ts [])

  buckets_wins :
      (key : Trade F → Text) (ts : List (Trade F))
      → sum_wins (buckets_from key ts []) ≡ length (wins_of ts)
  buckets_wins key ts = omega (arith, buckets_from_wins key ts [])

  shares_n :
      (bs : List (Text × Bucket F))
      → sum_n (buckets_of (map (λ (k, b). (k, share_of b)) bs)) ≡ sum_n bs
  shares_n [] = refl
  shares_n ((k, b) ∷ rest) = omega (arith, shares_n rest)

  shares_wins :
      (bs : List (Text × Bucket F))
      → sum_wins (buckets_of (map (λ (k, b). (k, share_of b)) bs)) ≡ sum_wins bs
  shares_wins [] = refl
  shares_wins ((k, b) ∷ rest) = omega (arith, shares_wins rest)

  -- A breakdown has as many trades, and wins, as the metrics count.
  pub record IsBrokenDown (m : Metrics F) (b : List (Text × Share F)) : Type 0 where
    pub trades : sum_n (buckets_of b) ≡ m.n_closed
    pub wins : sum_wins (buckets_of b) ≡ m.n_wins

  breakdown-IsBrokenDown :
      (trades : List (Trade F)) (capital : F) (key : Trade F → Text)
      → IsBrokenDown (compute_metrics trades capital) (breakdown key (closed_of trades))
  unfolding compute_metrics breakdown
  breakdown-IsBrokenDown trades capital key = record {
    trades = shares_n (buckets_from key (closed_of trades) []) ∙ buckets_n key (closed_of trades);
    wins =
        shares_wins (buckets_from key (closed_of trades) []) ∙ buckets_wins key (closed_of trades);
  }

  pub record IsCounted (trades : List (Trade F)) (m : Metrics F) : Type 0 where
    pub closed : m.n_closed ≡ m.n_wins + m.n_losses + m.n_breakeven
    pub all : m.n_closed + m.n_open ≤ length trades
    pub tickers : IsBrokenDown m m.by_ticker
    pub regimes : IsBrokenDown m m.by_regime

  -- The closed trades are the wins, the losses and those that broke even, with the open ones they
  -- are not more than the trades, and both breakdowns have as many trades and as many wins as there
  -- are.
  pub compute_metrics-IsCounted :
      (trades : List (Trade F)) (capital : F) → IsCounted trades (compute_metrics trades capital)
  unfolding compute_metrics
  compute_metrics-IsCounted trades capital = record {
    closed = closed_parts trades;
    all = open_parts trades;
    tickers = breakdown-IsBrokenDown trades capital (λ t. t.ticker);
    regimes = breakdown-IsBrokenDown trades capital (λ t. regime_key t.regime);
  }
