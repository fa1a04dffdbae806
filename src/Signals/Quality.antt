-- ===== src/Signals/Quality.antt =====
-- signals/quality.py: the strength and the volume check of the research gate. Its frames of bars,
-- the sessions of the calendar and the logarithm are arguments; instants are seconds.
use stock_signal.Common.{
  ℕ, zero, suc, ◌+◌, ◌-◌, ◌*◌, ◌/◌, ◌%◌, ◌≤◌, ◌≡◌, refl, Text, Bool, true, false, not, ◌&&◌, ◌||◌,
  Option, none, some, List, [], ◌∷◌, ◌==◌, ltb, leb, if◌then◌else◌, length, get_elem?, Bool-cases,
  inl, inr, arith,
}
use stock_signal.Common.Float.{Float, zero_float}
use stock_signal.Signals.Base.{Direction, long}
pub mod Causal
mod Tests

pub data CheckReason : Type 0 where
  missing_endpoints not_applicable insufficient_current_session invalid_prices : CheckReason
  passed direction_mismatch_or_equal : CheckReason
  missing_current_bar invalid_current_volume insufficient_prior_sessions : CheckReason
  zero_reference_volume invalid_ratio below_threshold : CheckReason

-- The dictionary of a check, without its constants; the strength check counts no observations.
pub record Check (F : Type 0) : Type 0 where
  pub value : Option F
  pub accepted : Bool
  pub reason : CheckReason
  pub observations : ℕ
  pub reference_median : Option F

pub record Bar (F : Type 0) : Type 0 where
  pub close : F
  pub volume : F

-- A symbol's bars: the bar of an instant, where there is one
pub record Frame (F : Type 0) : Type 0 where
  pub bar_at : ℕ → Option (Bar F)

-- "SPY"
abbrev pub spy_symbol : Text
spy_symbol = 1

-- Five minutes and an hour
abbrev pub bar_length : ℕ
bar_length = 300

abbrev pub hour : ℕ
hour = 3600

abbrev pub is_long : Direction → Bool
is_long long = true
is_long _ = false

module _ {F : Type 0} where
  abbrev pub bar_of : Option (Frame F) → ℕ → Option (Bar F)
  bar_of none t = none
  bar_of (some frame) t = frame.bar_at t

  abbrev pub check_failed : CheckReason → ℕ → Check F
  check_failed reason n = record {
    value = none;
    accepted = false;
    reason = reason;
    observations = n;
    reference_median = none;
  }

module _ {F : Type 0} ⦃f : Float F⦄ where
  open f use {literal, lt, le, is_finite, add, sub, div}

  abbrev pub is_positive : F → Bool
  is_positive p = is_finite p && lt zero_float p

  abbrev pub strength_value : (F → F) → F → F → F → F → F
  strength_value log before now bench_before bench_now =
      add (sub (sub (log now) (log before)) (log bench_now)) (log bench_before)

  abbrev pub compared : Direction → F → Check F
  compared direction value =
      let accepted = if is_long direction then lt zero_float value else lt value zero_float in
      record {
        value = some value;
        accepted = accepted;
        reason = if accepted then passed else direction_mismatch_or_equal;
        observations = 0;
        reference_median = none;
      }

  abbrev pub strength_of :
      (F → F)
      → Direction
      → Option (Bar F)
      → Option (Bar F)
      → Option (Bar F)
      → Option (Bar F)
      → Check F
  strength_of log direction (some a) (some b) (some c) (some d) =
      if is_positive a.close
        && (is_positive b.close && (is_positive c.close && is_positive d.close))
      then compared direction (strength_value log a.close b.close c.close d.close)
      else check_failed invalid_prices 0
  strength_of log direction _ _ _ _ = check_failed missing_endpoints 0

  -- `_strength`, with the opening of the session
  unfoldable pub strength_check :
      (F → F) → (Text → Option (Frame F)) → Text → ℕ → Direction → ℕ → Check F
  strength_check log bars symbol ts direction opening =
      if symbol == spy_symbol
      then record {
        value = none;
        accepted = true;
        reason = not_applicable;
        observations = 0;
        reference_median = none;
      }
      else if ltb ts (opening + hour)
      then check_failed insufficient_current_session 0
      else strength_of log direction (bar_of (bars symbol) (ts - hour)) (bar_of (bars symbol) ts)
          (bar_of (bars spy_symbol) (ts - hour)) (bar_of (bars spy_symbol) ts)

  abbrev pub is_volume : F → Bool
  is_volume v = is_finite v && not (lt v zero_float)

  abbrev pub volume_or_skip : Option (Bar F) → List F → List F
  volume_or_skip none rest = rest
  volume_or_skip (some b) rest = if is_volume b.volume then b.volume ∷ rest else rest

  -- The loop over the prior sessions.
  unfoldable pub prior_volumes : Option (Frame F) → ℕ → List (ℕ × ℕ) → List F
  prior_volumes frame offset [] = []
  prior_volumes frame offset ((opening, closing) ∷ rest) =
      let later = prior_volumes frame offset rest in
      if ltb closing (opening + offset + bar_length)
      then later
      else volume_or_skip (bar_of frame (opening + offset)) later

  -- `statistics.median` of at least one value
  abbrev pub insert_volume : F → List F → List F
  insert_volume v [] = v ∷ []
  insert_volume v (x ∷ xs) =
      let rest = insert_volume v xs in if lt x v then x ∷ rest else v ∷ x ∷ xs

  abbrev pub sort_volumes : List F → List F
  sort_volumes [] = []
  sort_volumes (x ∷ xs) = insert_volume x (sort_volumes xs)

  abbrev pub at_or_zero : Option F → F
  at_or_zero none = zero_float
  at_or_zero (some v) = v

  abbrev pub median_of : ℕ → List F → F
  median_of n sorted =
      if n % 2 == 1
      then at_or_zero (get_elem? sorted (n / 2))
      else div
          (add (at_or_zero (get_elem? sorted (n / 2 - 1))) (at_or_zero (get_elem? sorted (n / 2))))
          (literal 2 0)

  abbrev pub median : List F → F
  median xs = median_of (length xs) (sort_volumes xs)

  abbrev pub rvol_ratio : F → F → ℕ → Check F
  rvol_ratio reference value n =
      if not (is_finite value) then check_failed invalid_ratio n else record {
        value = some value;
        accepted = le (literal 15 1) value;
        reason = if le (literal 15 1) value then passed else below_threshold;
        observations = n;
        reference_median = some reference;
      }

  abbrev pub rvol_of : F → List F → Check F
  rvol_of current volumes =
      let n = length volumes in
      if ltb n 10
      then check_failed insufficient_prior_sessions n
      else if le (median volumes) zero_float
      then check_failed zero_reference_volume n
      else rvol_ratio (median volumes) (div current (median volumes)) n

  abbrev pub rvol_at : Option (Bar F) → List F → Check F
  rvol_at none volumes = check_failed missing_current_bar 0
  rvol_at (some b) volumes =
      if not (is_volume b.volume)
      then check_failed invalid_current_volume 0
      else rvol_of b.volume volumes

  -- `_rvol`, with the opening of the session, which is not after `ts`, and the sessions before
  unfoldable pub rvol_check : (Text → Option (Frame F)) → Text → ℕ → ℕ → List (ℕ × ℕ) → Check F
  rvol_check bars symbol ts opening sessions =
      rvol_at (bar_of (bars symbol) ts) (prior_volumes (bars symbol) (ts - opening) sessions)
