-- ===== src/Signals/Regime/Rules.antt =====
-- signals/regime.py: `classify_context`, `regime_eligibility` and `classify`.
use stock_signal.Common.{
  Bool, true, false, not, ◌&&◌, ◌||◌, Option, none, some, if◌then◌else◌, is_some,
}
use stock_signal.Common.Float.{Float}
use stock_signal.Signals.Base.{Direction, long, wait}

pub data Trend : Type 0 where
  up down flat : Trend

pub data Regime : Type 0 where
  bull bear choppy unknown : Regime

pub data ContextReason : Type 0 where
  stale_spy missing_spy invalid_spy : ContextReason
  qqq_unavailable spy_only invalid_qqq_spy_only : ContextReason
  aligned disagreement_or_flat : ContextReason
  missing_context unknown_context : ContextReason

-- RegimeContext
pub record RegimeContext : Type 0 where
  pub regime : Regime
  pub known : Bool
  pub reason : ContextReason
  pub spy_available : Bool
  pub qqq_available : Bool

-- The three indicators of an index; none where the key is missing or its value is no number.
pub record Index (F : Type 0) : Type 0 where
  pub close : Option F
  pub sma20 : Option F
  pub sma50 : Option F

-- The `regime` of one index's trend.
abbrev pub regime_of : Trend → Regime
regime_of up = bull
regime_of down = bear
regime_of flat = choppy

-- The `regime` of the trends of both.
abbrev pub regime_of_both : Trend → Trend → Regime
regime_of_both up up = bull
regime_of_both down down = bear
regime_of_both _ _ = choppy

abbrev pub is_choppy : Regime → Bool
is_choppy choppy = true
is_choppy _ = false

module _ {F : Type 0} ⦃f : Float F⦄ where
  open f use {lt, is_finite}

  abbrev pub finite_or_none : Option F → Option F
  finite_or_none none = none
  finite_or_none (some v) = if is_finite v then some v else none

  -- `close > sma20 > sma50` and its opposite
  abbrev pub trend_of : F → F → F → Trend
  trend_of close sma20 sma50 =
      if lt sma20 close && lt sma50 sma20
      then up
      else if lt close sma20 && lt sma20 sma50
      then down
      else flat

  abbrev pub trend_if_finite : Option F → Option F → Option F → Option Trend
  trend_if_finite (some close) (some sma20) (some sma50) = some (trend_of close sma20 sma50)
  trend_if_finite _ _ _ = none

  -- `_index_direction`; none is its KeyError or ValueError.
  unfoldable pub index_direction : Index F → Option Trend
  index_direction ind =
      trend_if_finite (finite_or_none ind.close) (finite_or_none ind.sma20)
        (finite_or_none ind.sma50)

-- `RegimeContext(UNKNOWN, known=False, …)`
abbrev pub unknown_for : ContextReason → Bool → Bool → RegimeContext
unknown_for reason spy qqq = record {
  regime = unknown;
  known = false;
  reason = reason;
  spy_available = spy;
  qqq_available = qqq;
}

abbrev pub known_as : Regime → ContextReason → Bool → RegimeContext
known_as regime reason qqq = record {
  regime = regime;
  known = true;
  reason = reason;
  spy_available = true;
  qqq_available = qqq;
}

-- From the second `try` on.
abbrev pub with_qqq : Trend → Option Trend → RegimeContext
with_qqq spy none = known_as (regime_of spy) invalid_qqq_spy_only true
with_qqq spy (some qqq) =
    let regime = regime_of_both spy qqq in
    known_as regime (if is_choppy regime then disagreement_or_flat else aligned) true

abbrev pub classify_both : Option Trend → Option Trend → Option Regime
classify_both (some spy) (some qqq) = some (regime_of_both spy qqq)
classify_both _ _ = none

abbrev pub classify_one : Option Trend → Option Regime
classify_one none = none
classify_one (some spy) = some (regime_of spy)

module _ {F : Type 0} ⦃f : Float F⦄ where
  -- After the trend of SPY is known.
  abbrev pub with_spy : Trend → Option (Index F) → Bool → RegimeContext
  with_spy spy qqq true = known_as (regime_of spy) qqq_unavailable false
  with_spy spy none false = known_as (regime_of spy) spy_only false
  with_spy spy (some qqq) false = with_qqq spy (index_direction qqq)

  abbrev pub with_spy_trend : Option Trend → Option (Index F) → Bool → RegimeContext
  with_spy_trend none qqq qqq_stale = unknown_for invalid_spy true (is_some qqq)
  with_spy_trend (some spy) qqq qqq_stale = with_spy spy qqq qqq_stale

  abbrev pub fresh_context : Option (Index F) → Option (Index F) → Bool → RegimeContext
  fresh_context none qqq qqq_stale = unknown_for missing_spy false (is_some qqq)
  fresh_context (some spy) qqq qqq_stale = with_spy_trend (index_direction spy) qqq qqq_stale

  -- `classify_context`, with the flags `stale` and `qqq_stale` last.
  unfoldable pub classify_context :
      Option (Index F) → Option (Index F) → Bool → Bool → RegimeContext
  classify_context spy qqq stale qqq_stale =
      if stale
      then unknown_for stale_spy (is_some spy) (is_some qqq)
      else fresh_context spy qqq qqq_stale

  -- `classify`; none is the exception of an index that is not complete.
  unfoldable pub classify : Option (Index F) → Option (Index F) → Option Regime
  classify none qqq = some choppy
  classify (some spy) none = classify_one (index_direction spy)
  classify (some spy) (some qqq) = classify_both (index_direction spy) (index_direction qqq)

pub data GateReason : Type 0 where
  invalid_direction unknown_regime choppy_regime : GateReason
  direction_regime_mismatch regime_aligned : GateReason

-- The dictionary that `regime_eligibility` returns; its `expected` is none where it has no such key.
pub record Eligibility : Type 0 where
  pub accepted : Bool
  pub reason : GateReason
  pub direction : Direction
  pub regime : Regime
  pub expected : Option Regime
  pub context : RegimeContext

-- What is given for a context: None, a RegimeContext, or another object with some of its attributes.
pub data ContextArg : Type 0 where
  absent : ContextArg
  context : RegimeContext → ContextArg
  attributes :
      Option Regime
      → (known : Option Bool) → Option ContextReason
      → (spy_available qqq_available : Option Bool) → ContextArg

abbrev pub or_default : {A : Type 0} → Option A → A → A
or_default none d = d
or_default (some a) d = a

unfoldable pub context_of : ContextArg → RegimeContext
context_of absent = unknown_for missing_context false false
context_of (context c) = c
context_of (attributes regime known reason spy qqq) = record {
  regime = or_default regime unknown;
  known = or_default known false;
  reason = or_default reason unknown_context;
  spy_available = or_default spy false;
  qqq_available = or_default qqq false;
}

-- `BULL if direction == "LONG" else BEAR`
abbrev pub expected_for : Direction → Regime
expected_for long = bull
expected_for _ = bear

abbrev pub same_regime : Regime → Regime → Bool
same_regime bull bull = true
same_regime bear bear = true
same_regime choppy choppy = true
same_regime unknown unknown = true
same_regime _ _ = false

abbrev pub refused : GateReason → Direction → Option Regime → RegimeContext → Eligibility
refused reason direction expected c = record {
  accepted = false;
  reason = reason;
  direction = direction;
  regime = c.regime;
  expected = expected;
  context = c;
}

abbrev pub eligibility_in : Direction → RegimeContext → Eligibility
eligibility_in direction c =
    if not c.known || same_regime c.regime unknown
    then refused unknown_regime direction none c
    else if same_regime c.regime choppy
    then refused choppy_regime direction none c
    else if not (same_regime c.regime (expected_for direction))
    then refused direction_regime_mismatch direction (some (expected_for direction)) c
    else record {
      accepted = true;
      reason = regime_aligned;
      direction = direction;
      regime = c.regime;
      expected = none;
      context = c;
    }

abbrev pub eligibility_for : Direction → RegimeContext → Eligibility
eligibility_for wait c = refused invalid_direction wait none c
eligibility_for direction c = eligibility_in direction c

unfoldable pub regime_eligibility : Direction → ContextArg → Eligibility
unfolding context_of
regime_eligibility direction given = eligibility_for direction (context_of given)
