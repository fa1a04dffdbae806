-- ===== src/Paper/Broker.antt =====
-- trades/executor.py: `open_position` and `close_position`.
use stock_signal.Common.{
  ℕ, Text, Bool, not, ◌&&◌, ◌||◌, Option, none, some, [], ◌∷◌, ◌++◌, ◌==◌, ltb, if◌then◌else◌,
  is_some,
}
use stock_signal.Common.Float.{Float, zero_float, max_float, min_float}
use stock_signal.Common.Int.{ℤ, pos, negsuc}
use stock_signal.Signals.Base.{Direction, long, is_trade}
use stock_signal.Paper.Data.{
  FillPolicy, Candidate, Position, Outcome, win, loss, breakeven, Trade, Broker, is_text, get,
  put_key, drop_key, number_or_zero, of_count, cost, sizing_capital, available,
}
use stock_signal.Common.Int.{◌-ℤ◌}
use stock_signal.Paper.Overlay.{key_error, value_error, Result, ok, err}

-- What a caller gives with the price; `bars_held` is counted from the bars where it is none.
pub record Exit : Type 0 where
  pub outcome : Text
  pub exit_bar : ℕ
  pub bars_held : Option ℤ
  pub exit_reason : Option Text
  pub exit_at : Option Text

-- `bars_held`
abbrev pub held : Option ℤ → ℕ → ℕ → ℤ
held none exit_bar entry_bar = pos exit_bar -ℤ pos entry_bar
held (some n) exit_bar entry_bar = n

abbrev pub text_or_empty : Option Text → Text
text_or_empty none = 0
text_or_empty (some t) = t

-- `exit_reason or outcome.lower()`; `lower` is Python's.
abbrev pub reason_or : (Text → Text) → Option Text → Text → Text
reason_or lower reason outcome = if is_text reason then text_or_empty reason else lower outcome

module _ {F : Type 0} ⦃f : Float F⦄ where
  open f use {literal, lt, is_finite, add, sub, mul, div, round, floor}

  -- The guards of `open_position`, up to the shares.
  abbrev pub is_ordered : Direction → F → F → F → Bool
  is_ordered long stop entry target = lt stop entry && lt entry target
  is_ordered _ stop entry target = lt target entry && lt entry stop

  abbrev pub is_price : F → Bool
  is_price v = is_finite v && lt zero_float v

  abbrev pub is_admissible : Candidate F → Broker F → Bool
  is_admissible s b =
      not
        (is_text b.blocked || not (is_trade s.direction) || is_some (get s.ticker b.open_positions))
      && (is_price s.entry
          && (is_price s.stop
              && is_price s.target
              && (is_ordered s.direction s.stop s.entry s.target && b.accounting_unavailable == 0)))

  -- `shares`
  abbrev pub affordable : Candidate F → Broker F → ℤ
  affordable s b = floor (
      div (min_float (mul (sizing_capital b) b.position_pct) (available b))
        (add s.entry (cost b.policy s.entry 1)))

  abbrev pub position_of : Candidate F → ℕ → Option ℕ → ℕ → Broker F → Position F
  position_of s entry_bar signal_id shares b = record {
    ticker = s.ticker;
    direction = s.direction;
    entry = s.entry;
    stop = s.stop;
    target = s.target;
    signal_id = signal_id;
    shares = shares;
    remaining_shares = shares;
    entry_bar = entry_bar;
    account = b.account;
    entry_cost = some (cost b.policy s.entry shares);
    observed_bars = 0;
    entry_at = s.entry_at;
    run_id = s.run_id;
  }

  abbrev pub opened : Candidate F → ℕ → Option ℕ → ℤ → Broker F → Option (Position F) × Broker F
  opened s bar id (negsuc n) b = (none, b)
  opened s bar id (pos n) b = if ltb n 1 then (none, b) else (
    some (position_of s bar id n b),
    record b { open_positions = put_key s.ticker (position_of s bar id n b) b.open_positions },
  )

  unfoldable pub open_position :
      Candidate F → ℕ → Option ℕ → Broker F → Option (Position F) × Broker F
  open_position s entry_bar signal_id b =
      if is_admissible s b then opened s entry_bar signal_id (affordable s b) b else (none, b)

  -- `1 if direction == "LONG" else -1`
  abbrev pub sign : Direction → F
  sign long = literal 1 0
  sign _ = sub zero_float (literal 1 0)

  abbrev pub outcome_of : F → Outcome
  outcome_of pnl = if lt zero_float pnl then win else if lt pnl zero_float then loss else breakeven

  abbrev pub gross : Position F → F → F
  gross p exit_price = mul (mul (sign p.direction) (sub exit_price p.entry)) (of_count p.shares)

  abbrev pub costs : FillPolicy F → Position F → F → F
  costs policy p exit_price = add (number_or_zero p.entry_cost) (cost policy exit_price p.shares)

  abbrev pub profit : FillPolicy F → Position F → F → F
  profit policy p exit_price = round 2 (sub (gross p exit_price) (costs policy p exit_price))

  -- `elapsed_seconds`; `seconds_between` is the difference that `utc` of data/sessions.py makes.
  abbrev pub elapsed : (Text → Text → F) → Option Text → Option Text → Option F
  elapsed seconds_between (some entry) (some exit) =
      if entry == 0 || exit == 0
      then none
      else some (max_float zero_float (seconds_between entry exit))
  elapsed seconds_between _ _ = none

  abbrev pub trade_of :
      (Text → Text) → (Text → Text → F) → FillPolicy F → Position F → F → Exit → Trade F
  trade_of lower seconds_between policy p exit_price x = record {
    position = record p { remaining_shares = 0 };
    exit_price = exit_price;
    exit_at = if is_text x.exit_at then x.exit_at else none;
    outcome = outcome_of (profit policy p exit_price);
    exit_reason = reason_or lower x.exit_reason x.outcome;
    gross_pnl = round 2 (gross p exit_price);
    costs = round 2 (costs policy p exit_price);
    pnl = profit policy p exit_price;
    exit_bar = x.exit_bar;
    bars_held = held x.bars_held x.exit_bar p.entry_bar;
    elapsed_seconds = elapsed seconds_between p.entry_at x.exit_at;
  }

  abbrev pub settle : Text → Trade F → Broker F → Broker F
  settle ticker t b = record b {
    capital = add b.capital t.pnl;
    open_positions = drop_key ticker b.open_positions;
    closed_trades = b.closed_trades ++ t ∷ [];
  }

  abbrev pub close_at :
      (Text → Text)
      → (Text → Text → F)
      → Text
      → F
      → Exit
      → Option (Position F)
      → Broker F
      → Result (Trade F) × Broker F
  close_at lower seconds_between ticker exit_price x none b = (err key_error, b)
  close_at lower seconds_between ticker exit_price x (some p) b =
      let t = trade_of lower seconds_between b.policy p exit_price x in
      if is_price exit_price then (ok t, settle ticker t b) else (err value_error, b)

  unfoldable pub close_position :
      (Text → Text) → (Text → Text → F) → Text → F → Exit → Broker F → Result (Trade F) × Broker F
  close_position lower seconds_between ticker exit_price x b =
      close_at lower seconds_between ticker exit_price x (get ticker b.open_positions) b
