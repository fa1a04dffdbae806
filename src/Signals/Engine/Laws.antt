-- ===== src/Signals/Engine/Laws.antt =====
-- signals/engine.py: when a signal is a trade, and what it then carries.

use stock_signal.Common.{
  ℕ, ◌+◌, ◌≤◌, ◌≡◌, refl, sym, ◌↔◌, inl, inr, true, false, Option, ltb, is_some, Bool-cases, arith,
  subst,
}
use stock_signal.Common.Float.{Float, zero_float, max_float, min_float}
use stock_signal.Signals.Base.{Direction, long, short, wait, is_trade}
use stock_signal.Signals.Engine.Rules.{
  Vote, bull, bear, neutral, Votes, Indicators, Signal, is_bull, is_bear, count, max_ℕ, vote,
  direction_of, entry_stop_target, checked, signal_of, generate_signal, agreement, confidence_of,
  min_rr, map_indicators, all_indicators, valid_or_none,
}

count_parts : (v : Vote) → is_bull v + is_bear v ≤ 1
count_parts bull = omega arith
count_parts bear = omega arith
count_parts neutral = omega arith

pub count_bounds : (v : Votes) → count is_bull v + count is_bear v ≤ 6
count_bounds v = omega (
  arith,
  count_parts v.rsi,
  count_parts v.price_vs_sma20,
  count_parts v.sma20_vs_sma50,
  count_parts v.price_vs_vwap,
  count_parts v.macd,
  count_parts v.bb,
)

-- A signal has a stop, a target and a ratio exactly if it is a trade, and its tally is of six
-- votes.
pub record IsComplete {F : Type 0} (s : Signal F) : Type 0 where
  pub stop : is_some s.stop ≡ is_trade s.direction
  pub target : is_some s.target ≡ is_trade s.direction
  pub rr : is_some s.rr ≡ is_trade s.direction
  pub tally : s.tally.bull + s.tally.bear + s.tally.neutral ≡ 6

-- What is asked of floats: n / 6 is below 0.62 for n up to 3 and not for 4, 5 and 6.
pub record IsGraded (F : Type 0) ⦃f : Float F⦄ : Type 0 where
  pub graded :
      (n : ℕ) → n ≤ 6 → f.lt (f.div (f.literal n 0) (f.literal 6 0)) (f.literal 62 2) ≡ ltb n 4

-- What is asked of floats: `<` is irreflexive and not both ways round, `round` to four digits
-- keeps 0 and 1 and does not turn an order round.
pub record IsRounded (F : Type 0) ⦃f : Float F⦄ : Type 0 where
  pub irreflexive : (a : F) → f.lt a a ≡ false
  pub asymmetric : (a b : F) → f.lt a b ≡ true → f.lt b a ≡ false
  pub below_one : f.lt (f.literal 0 0) (f.literal 10 1) ≡ true
  pub round_zero : f.round 4 (f.literal 0 0) ≡ f.literal 0 0
  pub round_one : f.round 4 (f.literal 10 1) ≡ f.literal 10 1
  pub round_mono : (a b : F) → f.lt b a ≡ false → f.lt (f.round 4 b) (f.round 4 a) ≡ false

module _ {F : Type 0} ⦃f : Float F⦄ where
  open f use {literal, lt, round, sub}

  -- Neither below 0 nor above 1.
  abbrev pub IsShare : F → Type 0
  IsShare c = (lt c zero_float ≡ false) × (lt (literal 10 1) c ≡ false)

  module _ (r : IsRounded F) where
    clamp_lem : (c : F) → IsShare (max_float zero_float (min_float (literal 10 1) c))
    clamp_lem c = elim (Bool-cases (lt c (literal 10 1))) [
      | inl low ↦ elim (Bool-cases (lt zero_float c)) [
        | inl high ↦ rw low (rw high (r.asymmetric _ _ high, r.asymmetric _ _ low))
        | inr small ↦ rw low (rw small (r.irreflexive _, r.asymmetric _ _ r.below_one))
      ]
      | inr top ↦ rw top (rw r.below_one (r.asymmetric _ _ r.below_one, r.irreflexive _))
    ]

    round_lem : (c : F) → IsShare c → IsShare (round 4 c)
    round_lem c (lo, hi) = (
      subst (λ z. lt (round 4 c) z ≡ false) r.round_zero (r.round_mono _ _ lo),
      subst (λ z. lt z (round 4 c) ≡ false) r.round_one (r.round_mono _ _ hi),
    )

    checked-IsShare :
        (d : Direction) (levels : F × F × F) (c entry : F) (v : Votes) (i : Indicators F)
        → IsShare (round 4 c)
        → IsShare (checked d levels c entry v i).confidence
    checked-IsShare wait levels c entry v i h = h
    checked-IsShare long levels c entry v i h =
        elim (Bool-cases (lt levels.2 (sub min_rr (literal 1 9)))) [
          | inl poor ↦ rw poor h
          | inr good ↦ rw good h
        ]
    checked-IsShare short levels c entry v i h =
        elim (Bool-cases (lt levels.2 (sub min_rr (literal 1 9)))) [
          | inl poor ↦ rw poor h
          | inr good ↦ rw good h
        ]

    -- Whatever the indicators are, the confidence of the signal is neither below 0 nor above 1.
    pub generate_signal_confidence :
        (ind : Indicators (Option F)) → IsShare (generate_signal ind).confidence
    unfolding generate_signal confidence_of
    generate_signal_confidence ind =
        elim (Bool-cases (all_indicators is_some (map_indicators valid_or_none ind))) [
          | inl all ↦ rw all (checked-IsShare _ _ _ _ _ _ (round_lem _ (clamp_lem _)))
          | inr some_missing ↦ rw some_missing (r.irreflexive _, r.asymmetric _ _ r.below_one)
        ]

  checked-IsComplete :
      (d : Direction) (levels : F × F × F) (c entry : F) (v : Votes) (i : Indicators F)
      → IsComplete (checked d levels c entry v i)
  checked-IsComplete wait levels c entry v i = let b = count_bounds v in ground arith
  checked-IsComplete long levels c entry v i = let b = count_bounds v in ground arith
  checked-IsComplete short levels c entry v i = let b = count_bounds v in ground arith

  -- Whatever the indicators are, the signal has levels exactly if it is a trade, and a tally of
  -- six votes.
  pub generate_signal-IsComplete : (ind : Indicators (Option F)) → IsComplete (generate_signal ind)
  unfolding generate_signal
  generate_signal-IsComplete ind =
      elim (Bool-cases (all_indicators is_some (map_indicators valid_or_none ind))) [
        | inl all ↦ rw all (checked-IsComplete _ _ _ _ _ _)
        | inr some_missing ↦ rw some_missing (ground arith)
      ]

  -- The reward to risk of a trade is enough.
  abbrev pub IsWorth : Direction → Indicators F → Type 0
  IsWorth d i = lt (entry_stop_target d i.close i.atr).2 (sub min_rr (literal 1 9)) ≡ false

  checked_direction :
      (d e : Direction) (levels : F × F × F) (c entry : F) (v : Votes) (i : Indicators F)
      → is_trade e ≡ true
      → ((checked d levels c entry v i).direction ≡ e)
        ↔ ((d ≡ e) × (lt levels.2 (sub min_rr (literal 1 9)) ≡ false))
  checked_direction wait e levels c entry v i h = (λ k. absurd (ground arith), λ k. k.0)
  checked_direction long e levels c entry v i h = (λ k. ground arith, λ k. ground arith)
  checked_direction short e levels c entry v i h = (λ k. ground arith, λ k. ground arith)

  module _ (g : IsGraded F) where
    direction_of-long :
        (a b : ℕ) → a + b ≤ 6 → (direction_of {F = F} (agreement a b) a b ≡ long) ↔ (4 ≤ a)
    unfolding direction_of
    direction_of-long a b h =
        let e = g.graded (max_ℕ a b) (ground arith) in (λ k. ground arith, λ k. ground arith)

    direction_of-short :
        (a b : ℕ) → a + b ≤ 6 → (direction_of {F = F} (agreement a b) a b ≡ short) ↔ (4 ≤ b)
    unfolding direction_of
    direction_of-short a b h =
        let e = g.graded (max_ℕ a b) (ground arith) in (λ k. ground arith, λ k. ground arith)

    -- Complete indicators make a LONG exactly if at least four of the six votes are for it and the
    -- ratio of reward to risk is at least the minimum, up to its tolerance; and so for a SHORT.
    pub signal_of_trades :
        (i : Indicators F)
        → (((signal_of i).direction ≡ long) ↔ ((4 ≤ count is_bull (vote i)) × IsWorth long i))
          × (((signal_of i).direction ≡ short) ↔ ((4 ≤ count is_bear (vote i)) × IsWorth short i))
    unfolding signal_of
    signal_of_trades i =
        let v = vote i in
        let a = count is_bull v in
        let b = count is_bear v in
        let d = direction_of {F = F} (agreement a b) a b in
        let l = direction_of-long a b (count_bounds v) in
        let s = direction_of-short a b (count_bounds v) in
        let cl =
          checked_direction d long (entry_stop_target d i.close i.atr)
            (confidence_of (agreement a b) i.volume_ratio) i.close v i refl in
        let cs =
          checked_direction d short (entry_stop_target d i.close i.atr)
            (confidence_of (agreement a b) i.volume_ratio) i.close v i refl in
        (
          (
            λ k. let (e, w) = cl.0 k in (l.0 e, subst (λ x. IsWorth x i) e w),
            λ k. let e = l.1 k.0 in cl.1 (e, subst (λ x. IsWorth x i) (sym e) k.1),
          ),
          (
            λ k. let (e, w) = cs.0 k in (s.0 e, subst (λ x. IsWorth x i) e w),
            λ k. let e = s.1 k.0 in cs.1 (e, subst (λ x. IsWorth x i) (sym e) k.1),
          ),
        )
