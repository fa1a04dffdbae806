-- ===== src/Signals/Tests.antt =====
-- signals/engine.py and signals/regime.py: runs of the model on decimal fractions, and the theorems
-- at inputs that meet their hypotheses.
use stock_signal.Common.{
  ℕ, ◌≡◌, ◌≤◌, ◌↔◌, refl, true, false, some, arith, ◌*◌, ◌/◌, ◌+◌, suc, zero, ltb,
}
use stock_signal.Common.Float.{Fixed, fixed_float, one_fixed}
use stock_signal.Common.Int.{ℤ, pos, negsuc, ◌-ℤ◌, ◌+ℤ◌, ltb_ℤ, sub_ℕ}
use stock_signal.Signals.Base.{long, short}
use stock_signal.Signals.Regime.{
  Index, aligned, regime_eligibility, classify_context, classify, context, index_direction, up,
  down, bull,
}
use stock_signal.Signals.Regime.{
  IsTrade, Allows, known_regime, regime_eligibility_iff, classify_context-classify,
}
use stock_signal.Signals.Engine.{
  Indicators, generate_signal, signal_of, vote, count, is_bull, is_bear, entry_stop_target,
  direction_of, confidence_of, map_indicators,
}
use stock_signal.Signals.Engine.{
  IsComplete, IsGraded, IsRounded, IsShare, IsWorth, generate_signal-IsComplete, signal_of_trades,
  generate_signal_confidence,
}

abbrev rising : Index Fixed
rising = record {
  close = some (pos (110 * one_fixed));
  sma20 = some (pos (105 * one_fixed));
  sma50 = some (pos (100 * one_fixed));
}

abbrev falling : Index Fixed
falling = record {
  close = some (pos (90 * one_fixed));
  sma20 = some (pos (95 * one_fixed));
  sma50 = some (pos (100 * one_fixed));
}

rising_is_up : index_direction rising ≡ some up
unfolding index_direction
rising_is_up = refl

falling_is_down : index_direction falling ≡ some down
unfolding index_direction
falling_is_down = refl

aligned_context : (classify_context (some rising) (some rising) false false).reason ≡ aligned
unfolding classify_context index_direction
aligned_context = refl

regime_eligibility_iff_example :
    ((regime_eligibility short
        (context (classify_context (some falling) (some rising) false true))).accepted
      ≡ true)
    ↔ (IsTrade short × (false ≡ false) × Allows short (some falling) (some rising) true)
regime_eligibility_iff_example =
    regime_eligibility_iff ⦃f = fixed_float⦄ short (some falling) (some rising) false true

rising_classified : classify (some rising) (some rising) ≡ some bull
unfolding classify index_direction
rising_classified = refl

classify_context-classify_example :
    known_regime (classify_context (some rising) (some rising) false false) ≡ some bull
classify_context-classify_example =
    classify_context-classify rising (some rising) bull rising_classified

-- Five votes are for a LONG, and the volume confirms them.
abbrev strong : Indicators Fixed
strong = record {
  close = pos (110 * one_fixed);
  rsi = pos (40 * one_fixed);
  sma20 = pos (105 * one_fixed);
  sma50 = pos (100 * one_fixed);
  vwap = pos (108 * one_fixed);
  macd = pos one_fixed;
  bb_pct = pos (one_fixed / 2);
  volume_ratio = pos (2 * one_fixed);
  atr = pos (2 * one_fixed);
}

strong_is_long : (signal_of strong).direction ≡ long
unfolding signal_of vote direction_of confidence_of entry_stop_target ◌-ℤ◌ ◌+ℤ◌
strong_is_long = refl

strong_stop : (signal_of strong).stop ≡ some (pos (107 * one_fixed))
unfolding signal_of vote direction_of confidence_of entry_stop_target ◌-ℤ◌ ◌+ℤ◌
strong_stop = refl

generate_signal-IsComplete_example : IsComplete (generate_signal (map_indicators some strong))
generate_signal-IsComplete_example = generate_signal-IsComplete (map_indicators some strong)

graded_fixed :
    (n : ℕ)
    → n ≤ 6
    → fixed_float.lt
        (fixed_float.div (fixed_float.literal n 0) (fixed_float.literal 6 0))
        (fixed_float.literal 62 2)
      ≡ ltb n 4
graded_fixed zero h = refl
graded_fixed (suc zero) h = refl
graded_fixed (suc (suc zero)) h = refl
graded_fixed (suc (suc (suc zero))) h = refl
graded_fixed (suc (suc (suc (suc zero)))) h = refl
graded_fixed (suc (suc (suc (suc (suc zero))))) h = refl
graded_fixed (suc (suc (suc (suc (suc (suc zero)))))) h = refl
graded_fixed (suc (suc (suc (suc (suc (suc (suc n))))))) h = absurd (omega (arith, h))

fixed-IsGraded : IsGraded Fixed
fixed-IsGraded = record { graded = graded_fixed }

signal_of_trades_example :
    (((signal_of strong).direction ≡ long)
      ↔ ((4 ≤ count is_bull (vote strong)) × IsWorth long strong))
    × (((signal_of strong).direction ≡ short)
        ↔ ((4 ≤ count is_bear (vote strong)) × IsWorth short strong))
signal_of_trades_example = signal_of_trades fixed-IsGraded strong

ltb_ℤ-sub_ℕ : (a b c d : ℕ) → ltb (a + d) (c + b) ≡ false → ltb_ℤ (sub_ℕ a b) (sub_ℕ c d) ≡ false
ltb_ℤ-sub_ℕ a b c d h = ground arith

half_up_mono : (m n : ℕ) → m ≤ n → (m + 50000) / 100000 * 100000 ≤ (n + 50000) / 100000 * 100000
half_up_mono m n h = omega (arith, h)

round_fixed :
    (a b : ℤ)
    → fixed_float.lt b a ≡ false
    → fixed_float.lt (fixed_float.round 4 b) (fixed_float.round 4 a) ≡ false
round_fixed (pos m) (pos n) h =
    let k = half_up_mono m n (ground arith) in ltb_ℤ-sub_ℕ _ 0 _ 0 (ground arith)
round_fixed (pos m) (negsuc n) h = ground arith
round_fixed (negsuc m) (pos n) h = ltb_ℤ-sub_ℕ _ 0 0 _ (ground arith)
round_fixed (negsuc m) (negsuc n) h =
    let k = half_up_mono (suc n) (suc m) (ground arith) in ltb_ℤ-sub_ℕ 0 _ 0 _ (ground arith)

fixed-IsRounded : IsRounded Fixed
fixed-IsRounded = record {
  irreflexive = λ a. ground arith;
  asymmetric = λ a b h. ground arith;
  below_one = refl;
  round_zero = refl;
  round_one = refl;
  round_mono = round_fixed;
}

generate_signal_confidence_example :
    IsShare (generate_signal (map_indicators some strong)).confidence
generate_signal_confidence_example =
    generate_signal_confidence fixed-IsRounded (map_indicators some strong)
