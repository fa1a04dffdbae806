-- ===== src/Signals/Engine/Rules.antt =====
-- signals/engine.py: `vote`, `_entry_stop_target` and `generate_signal`, with the constants of
-- config.py that they read. `indicators_json` repeats other parts of a signal, and is left out.
use stock_signal.Common.{
  ℕ, ◌+◌, ◌-◌, Bool, true, false, not, ◌&&◌, Option, none, some, ltb, if◌then◌else◌, is_some,
}
use stock_signal.Common.Float.{Float, zero_float, max_float, min_float}
use stock_signal.Signals.Base.{Direction, long, short, wait}

pub data Vote : Type 0 where
  bull bear neutral : Vote

-- The dictionary of votes.
pub record Votes : Type 0 where
  pub rsi : Vote
  pub price_vs_sma20 : Vote
  pub sma20_vs_sma50 : Vote
  pub price_vs_vwap : Vote
  pub macd : Vote
  pub bb : Vote

-- The values of `compute_indicators`.
pub record Indicators (V : Type 0) : Type 0 where
  pub close : V
  pub rsi : V
  pub sma20 : V
  pub sma50 : V
  pub vwap : V
  pub macd : V
  pub bb_pct : V
  pub volume_ratio : V
  pub atr : V

pub record Tally : Type 0 where
  pub bull : ℕ
  pub bear : ℕ
  pub neutral : ℕ

-- The signal, without its ticker; `votes` is none for the empty dictionary, and `skipped` is the
-- presence of `skip_reason`.
pub record Signal (F : Type 0) : Type 0 where
  pub direction : Direction
  pub confidence : F
  pub entry : Option F
  pub stop : Option F
  pub target : Option F
  pub rr : Option F
  pub votes : Option Votes
  pub tally : Tally
  pub indicators : Indicators (Option F)
  pub skipped : Bool

abbrev pub is_bull : Vote → ℕ
is_bull bull = 1
is_bull _ = 0

abbrev pub is_bear : Vote → ℕ
is_bear bear = 1
is_bear _ = 0

-- `sum(1 for v in votes.values() if v == BULL)`, and of BEAR
abbrev pub count : (Vote → ℕ) → Votes → ℕ
count p v =
    p v.rsi + p v.price_vs_sma20 + p v.sma20_vs_sma50 + p v.price_vs_vwap + p v.macd + p v.bb

abbrev pub max_ℕ : ℕ → ℕ → ℕ
max_ℕ a b = if ltb a b then b else a

-- `direction`, up to the threshold
abbrev pub majority : ℕ → ℕ → Direction
majority bulls bears = if ltb bears bulls then long else if ltb bulls bears then short else wait

abbrev pub tally_of : Votes → Tally
tally_of v = record {
  bull = count is_bull v;
  bear = count is_bear v;
  neutral = 6 - count is_bull v - count is_bear v;
}

abbrev pub map_indicators : {V W : Type 0} → (V → W) → Indicators V → Indicators W
map_indicators g i = record {
  close = g i.close;
  rsi = g i.rsi;
  sma20 = g i.sma20;
  sma50 = g i.sma50;
  vwap = g i.vwap;
  macd = g i.macd;
  bb_pct = g i.bb_pct;
  volume_ratio = g i.volume_ratio;
  atr = g i.atr;
}

abbrev pub all_indicators : {V : Type 0} → (V → Bool) → Indicators V → Bool
all_indicators p i =
    p i.close
    && (p i.rsi
        && (p i.sma20
            && (p i.sma50
                && (p i.vwap && (p i.macd && (p i.bb_pct && (p i.volume_ratio && p i.atr)))))))

module _ {F : Type 0} ⦃f : Float F⦄ where
  open f use {literal, lt, eq, is_finite, add, sub, mul, div, magnitude, round}

  -- CONFIDENCE_THRESHOLD, MIN_RR, RSI_BULL, RSI_BEAR, BB_NEAR_LOWER, BB_NEAR_UPPER, VOLUME_CONFIRM,
  -- VOLUME_WEAKEN, VOLUME_CONFIDENCE_DELTA, ATR_STOP_MULT, ATR_TARGET_MULT
  abbrev pub confidence_threshold : F
  confidence_threshold = literal 62 2

  abbrev pub min_rr : F
  min_rr = literal 20 1

  abbrev pub rsi_bull : F
  rsi_bull = literal 45 0

  abbrev pub rsi_bear : F
  rsi_bear = literal 55 0

  abbrev pub bb_near_lower : F
  bb_near_lower = literal 20 2

  abbrev pub bb_near_upper : F
  bb_near_upper = literal 80 2

  abbrev pub volume_confirm : F
  volume_confirm = literal 12 1

  abbrev pub volume_weaken : F
  volume_weaken = literal 8 1

  abbrev pub volume_confidence_delta : F
  volume_confidence_delta = literal 5 2

  abbrev pub atr_stop_mult : F
  atr_stop_mult = literal 15 1

  abbrev pub atr_target_mult : F
  atr_target_mult = literal 30 1

  -- `BULL if a > b else BEAR`
  abbrev pub above : F → F → Vote
  above a b = if lt b a then bull else bear

  -- Below the one cutoff BULL, above the other BEAR.
  abbrev pub banded : F → F → F → Vote
  banded lower upper a = if lt a lower then bull else if lt upper a then bear else neutral

  unfoldable pub vote : Indicators F → Votes
  vote i = record {
    rsi = banded rsi_bull rsi_bear i.rsi;
    price_vs_sma20 = above i.close i.sma20;
    sma20_vs_sma50 = above i.sma20 i.sma50;
    price_vs_vwap = above i.close i.vwap;
    macd = above i.macd zero_float;
    bb = banded bb_near_lower bb_near_upper i.bb_pct;
  }

  abbrev pub reward_risk : F → F → F → F
  reward_risk entry stop target =
      if not (eq stop entry)
      then div (magnitude (sub target entry)) (magnitude (sub entry stop))
      else zero_float

  -- `_entry_stop_target`: stop, target and rr
  unfoldable pub entry_stop_target : Direction → F → F → F × F × F
  entry_stop_target long entry atr =
      let stop = sub entry (mul atr atr_stop_mult) in
      let target = add entry (mul atr atr_target_mult) in
      (stop, target, reward_risk entry stop target)
  entry_stop_target _ entry atr =
      let stop = add entry (mul atr atr_stop_mult) in
      let target = sub entry (mul atr atr_target_mult) in
      (stop, target, reward_risk entry stop target)

  -- `agreement`
  abbrev pub agreement : ℕ → ℕ → F
  agreement bulls bears = div (literal (max_ℕ bulls bears) 0) (literal 6 0)

  unfoldable pub direction_of : F → ℕ → ℕ → Direction
  direction_of agreement bulls bears =
      if lt agreement confidence_threshold then wait else majority bulls bears

  -- `confidence`, nudged by the volume and clamped
  abbrev pub nudged : F → F → F
  nudged confidence vr =
      if lt volume_confirm vr
      then add confidence volume_confidence_delta
      else if lt vr volume_weaken
      then sub confidence volume_confidence_delta
      else confidence

  unfoldable pub confidence_of : F → F → F
  confidence_of confidence vr =
      max_float zero_float (min_float (literal 10 1) (nudged confidence vr))

  -- The signal of a direction that stays, and of one that WAITs.
  abbrev pub traded : Direction → F × F × F → F → F → Votes → Indicators F → Signal F
  traded direction (stop, target, rr) confidence entry votes i = record {
    direction = direction;
    confidence = round 4 confidence;
    entry = some (round 4 entry);
    stop = some (round 4 stop);
    target = some (round 4 target);
    rr = some (round 4 rr);
    votes = some votes;
    tally = tally_of votes;
    indicators = map_indicators (λ v. some (round 4 v)) i;
    skipped = false;
  }

  abbrev pub waiting : F → F → Votes → Indicators F → Signal F
  waiting confidence entry votes i = record {
    direction = wait;
    confidence = round 4 confidence;
    entry = some (round 4 entry);
    stop = none;
    target = none;
    rr = none;
    votes = some votes;
    tally = tally_of votes;
    indicators = map_indicators (λ v. some (round 4 v)) i;
    skipped = false;
  }

  -- The check of the minimum reward to risk.
  abbrev pub checked : Direction → F × F × F → F → F → Votes → Indicators F → Signal F
  checked wait levels confidence entry votes i = waiting confidence entry votes i
  checked direction levels confidence entry votes i =
      if lt levels.2 (sub min_rr (literal 1 9))
      then waiting confidence entry votes i
      else traded direction levels confidence entry votes i

  -- From `votes = vote(ind)` on.
  unfoldable pub signal_of : Indicators F → Signal F
  signal_of i =
      let votes = vote i in
      let bulls = count is_bull votes in
      let bears = count is_bear votes in
      let direction = direction_of (agreement bulls bears) bulls bears in
      checked direction (entry_stop_target direction i.close i.atr)
        (confidence_of (agreement bulls bears) i.volume_ratio) i.close votes i

  -- An indicator that is no number is none.
  abbrev pub valid_or_none : Option F → Option F
  valid_or_none none = none
  valid_or_none (some v) = if is_finite v then some v else none

  abbrev pub rejected : Indicators (Option F) → Signal F
  rejected values = record {
    direction = wait;
    confidence = zero_float;
    entry = values.close;
    stop = none;
    target = none;
    rr = none;
    votes = none;
    tally = record { bull = 0; bear = 0; neutral = 6 };
    indicators = values;
    skipped = true;
  }

  abbrev pub value_or_zero : Option F → F
  value_or_zero none = zero_float
  value_or_zero (some v) = v

  -- `generate_signal`; where every value is there, none of the defaults is taken.
  unfoldable pub generate_signal : Indicators (Option F) → Signal F
  unfolding signal_of
  generate_signal ind =
      let values = map_indicators valid_or_none ind in
      if all_indicators is_some values
      then signal_of (map_indicators value_or_zero values)
      else rejected values
