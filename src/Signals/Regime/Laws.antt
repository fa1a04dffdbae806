-- ===== src/Signals/Regime/Laws.antt =====
-- signals/regime.py: the gate against the classifier, and the two classifiers against each other.
use mathlib.Core.Option.{some-injective}
use stock_signal.Common.{
  is_some, if◌then◌else◌, Bool, true, false, Option, none, some, ◌≡◌, refl, ap, ◌⊎◌, inl, inr, ◌↔◌,
  arith,
}
use stock_signal.Common.Float.{Float}
use stock_signal.Signals.Base.{Direction, long, short, wait}
use stock_signal.Signals.Regime.Rules.{
  Trend, up, down, flat, Regime, RegimeContext, Index, index_direction, classify_context, classify,
  regime_eligibility, context, with_qqq, with_spy, with_spy_trend, fresh_context, classify_both,
  classify_one, regime_of, eligibility_for, known_as, unknown_for, ContextReason, invalid_spy,
  missing_spy, stale_spy,
}

-- The trend that a direction goes with.
abbrev pub trend_for : Direction → Trend
trend_for long = up
trend_for short = down
trend_for wait = flat

-- QQQ does not object: it is away, stale or not complete, or it has the trend too.
abbrev pub Agrees : {F : Type 0} ⦃f : Float F⦄ → Trend → Option (Index F) → Bool → Type 0
Agrees t qqq true = Unit
Agrees t none false = Unit
Agrees t (some qqq) false = (index_direction qqq ≡ none) ⊎ (index_direction qqq ≡ some t)

-- A direction to trade in.
abbrev pub IsTrade : Direction → Type 0
IsTrade d = (d ≡ long) ⊎ (d ≡ short)

-- The gate on a context.
abbrev passes : Direction → RegimeContext → Bool
passes d c = (eligibility_for d c).accepted

both_pass :
    (d : Direction) (t : Trend) (r : Option Trend)
    → passes d (with_qqq t r) ≡ true
    → IsTrade d × (t ≡ trend_for d) × ((r ≡ none) ⊎ (r ≡ some (trend_for d)))
both_pass long up none h = (inl refl, refl, inl refl)
both_pass long up (some up) h = (inl refl, refl, inr refl)
both_pass short down none h = (inr refl, refl, inl refl)
both_pass short down (some down) h = (inr refl, refl, inr refl)
both_pass _ _ _ h = absurd (ground arith)

both_passed :
    (d : Direction) (t : Trend) (r : Option Trend)
    → IsTrade d × (t ≡ trend_for d) × ((r ≡ none) ⊎ (r ≡ some (trend_for d)))
    → passes d (with_qqq t r) ≡ true
both_passed long up none h = refl
both_passed long up (some up) h = refl
both_passed short down none h = refl
both_passed short down (some down) h = refl
both_passed _ _ _ h = ground arith

-- The regime of a context that is known, or none.
abbrev pub known_regime : RegimeContext → Option Regime
known_regime c = if c.known then some c.regime else none

one_pass :
    (d : Direction) (t : Trend) (reason : ContextReason) (qqq : Bool)
    → passes d (known_as (regime_of t) reason qqq) ≡ true
    → IsTrade d × (t ≡ trend_for d)
one_pass long up reason qqq h = (inl refl, refl)
one_pass short down reason qqq h = (inr refl, refl)
one_pass _ _ reason qqq h = absurd (ground arith)

one_passed :
    (d : Direction) (t : Trend) (reason : ContextReason) (qqq : Bool)
    → IsTrade d × (t ≡ trend_for d)
    → passes d (known_as (regime_of t) reason qqq) ≡ true
one_passed long up reason qqq h = refl
one_passed short down reason qqq h = refl
one_passed _ _ reason qqq h = ground arith

unknown_fails :
    (d : Direction) (reason : ContextReason) (spy qqq : Bool)
    → passes d (unknown_for reason spy qqq) ≡ false
unknown_fails long reason spy qqq = refl
unknown_fails short reason spy qqq = refl
unknown_fails wait reason spy qqq = refl

module _ {F : Type 0} ⦃f : Float F⦄ where
  spy_pass :
      (d : Direction) (t : Trend) (qqq : Option (Index F)) (stale : Bool)
      → passes d (with_spy t qqq stale) ≡ true
      → IsTrade d × (t ≡ trend_for d) × Agrees (trend_for d) qqq stale
  spy_pass d t none false h = let (a, b) = one_pass d t _ _ h in (a, b, tt)
  spy_pass d t none true h = let (a, b) = one_pass d t _ _ h in (a, b, tt)
  spy_pass d t (some q) false h = both_pass d t (index_direction q) h
  spy_pass d t (some q) true h = let (a, b) = one_pass d t _ _ h in (a, b, tt)

  spy_passed :
      (d : Direction) (t : Trend) (qqq : Option (Index F)) (stale : Bool)
      → IsTrade d × (t ≡ trend_for d) × Agrees (trend_for d) qqq stale
      → passes d (with_spy t qqq stale) ≡ true
  spy_passed d t none false (a, b, _) = one_passed d t _ _ (a, b)
  spy_passed d t none true (a, b, _) = one_passed d t _ _ (a, b)
  spy_passed d t (some q) false h = both_passed d t (index_direction q) h
  spy_passed d t (some q) true (a, b, _) = one_passed d t _ _ (a, b)

  -- The funds allow a trade: SPY is there and complete and has the direction's trend, and QQQ does
  -- not object.
  abbrev pub Allows : Direction → Option (Index F) → Option (Index F) → Bool → Type 0
  Allows d none qqq qqq_stale = ⊥
  Allows d (some spy) qqq qqq_stale =
      (index_direction spy ≡ some (trend_for d)) × Agrees (trend_for d) qqq qqq_stale

  trend_pass :
      (d : Direction) (o : Option Trend) (qqq : Option (Index F)) (stale : Bool)
      → (passes d (with_spy_trend o qqq stale) ≡ true)
        ↔ (IsTrade d × (o ≡ some (trend_for d)) × Agrees (trend_for d) qqq stale)
  trend_pass d none qqq stale =
      (λ h. absurd (cc (unknown_fails d invalid_spy true (is_some qqq))), λ k. absurd (cc (k.1)))
  trend_pass d (some t) qqq stale = (
    λ h. let (a, b, c) = spy_pass d t qqq stale h in (a, ap some b, c),
    λ k. spy_passed d t qqq stale (k.0, some-injective t (trend_for d) k.1, k.2),
  )

  fresh_pass :
      (d : Direction) (spy qqq : Option (Index F)) (qqq_stale : Bool)
      → (passes d (fresh_context spy qqq qqq_stale) ≡ true)
        ↔ (IsTrade d × Allows d spy qqq qqq_stale)
  fresh_pass d none qqq qqq_stale =
      (λ h. absurd (cc (unknown_fails d missing_spy false (is_some qqq))), λ k. absurd k.1)
  fresh_pass d (some spy) qqq qqq_stale =
      let (to, from) = trend_pass d (index_direction spy) qqq qqq_stale in
      (λ h. let (a, b, c) = to h in (a, (b, c)), λ k. from (k.0, k.1.0, k.1.1))

  -- The gate lets a candidate pass exactly when its direction is LONG or SHORT, the observation of
  -- SPY is fresh, complete and has the trend of the direction, and QQQ is away, stale, not complete
  -- or has that trend too.
  pub regime_eligibility_iff :
      (d : Direction) (spy qqq : Option (Index F)) (stale qqq_stale : Bool)
      → ((regime_eligibility d (context (classify_context spy qqq stale qqq_stale))).accepted
          ≡ true)
        ↔ (IsTrade d × (stale ≡ false) × Allows d spy qqq qqq_stale)
  unfolding regime_eligibility classify_context
  regime_eligibility_iff d spy qqq true qqq_stale = (
    λ h. absurd (cc (unknown_fails d stale_spy (is_some spy) (is_some qqq))),
    λ k. absurd (cc (k.1)),
  )
  regime_eligibility_iff d spy qqq false qqq_stale =
      let (to, from) = fresh_pass d spy qqq qqq_stale in
      (λ h. let (a, b) = to h in (a, refl, b), λ k. from (k.0, k.2))

  classify-some :
      (o : Option Trend) (q : Index F) (p : Option Trend) (r : Regime)
      → index_direction q ≡ p
      → classify_both o p ≡ some r
      → known_regime (with_spy_trend o (some q) false) ≡ some r
  classify-some none q p r e h = cc
  classify-some (some s) q none r e h = cc
  classify-some (some s) q (some t) r e h = rw e h

  -- Where the display classifier returns a regime for a fund of SPY that is there, the context of
  -- fresh observations is known and has that regime.
  pub classify_context-classify :
      (spy : Index F) (qqq : Option (Index F)) (r : Regime)
      → classify (some spy) qqq ≡ some r
      → known_regime (classify_context (some spy) qqq false false) ≡ some r
  unfolding classify classify_context
  classify_context-classify spy none r h = single (index_direction spy) h
    where
      single :
          (o : Option Trend)
          → classify_one o ≡ some r
          → known_regime (with_spy_trend {F = F} o none false) ≡ some r
      single none k = cc
      single (some t) k = k
  classify_context-classify spy (some q) r h =
      classify-some (index_direction spy) q (index_direction q) r refl h
