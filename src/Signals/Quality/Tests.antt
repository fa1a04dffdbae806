-- ===== src/Signals/Quality/Tests.antt =====
-- A day of bars after ten sessions, for the checks of signals/quality.py.
use stock_signal.Common.{
  ℕ, zero, suc, ◌+◌, ◌*◌, ◌≤◌, ◌≡◌, refl, Text, Option, none, some, List, [], ◌∷◌, if◌then◌else◌,
  ltb, arith,
}
use stock_signal.Common.Int.{pos, ◌+ℤ◌}
use stock_signal.Common.Float.{Fixed, one_fixed, fixed_float}
use stock_signal.Signals.Base.{long}
use stock_signal.Signals.Quality.{Frame, Bar, passed, strength_check, rvol_check, prior_volumes}
use stock_signal.Signals.Quality.Causal.{SameUntil, ClosedBy, checks_causal}

abbrev first_bar : ℕ
first_bar = 1000000

abbrev decided : ℕ
decided = 1007200

-- The volume doubles on the day.
abbrev bar_of_time : ℕ → Bar Fixed
bar_of_time t = record {
  close = pos (if ltb t decided then 100 * one_fixed else 110 * one_fixed);
  volume = pos (if ltb t first_bar then 1000 * one_fixed else 2000 * one_fixed);
}

abbrev whole : Text → Option (Frame Fixed)
whole symbol = some record { bar_at = λ t. some (bar_of_time t) }

abbrev until : Text → Option (Frame Fixed)
until symbol = some record { bar_at = λ t. if ltb decided t then none else some (bar_of_time t) }

abbrev past : ℕ → List (ℕ × ℕ)
past zero = []
past (suc n) = (n * 100000, n * 100000 + 23400) ∷ past n

until-SameUntil : SameUntil decided whole until
unfolding SameUntil
until-SameUntil symbol t h = ground arith

past-ClosedBy : (n : ℕ) → n ≤ 10 → ClosedBy decided (past n)
unfolding ClosedBy
past-ClosedBy zero h = tt
past-ClosedBy (suc n) h = (omega (arith, h), past-ClosedBy n (omega (arith, h)))

rvol_passed : (rvol_check whole 7 decided first_bar (past 10)).reason ≡ passed
unfolding rvol_check prior_volumes ◌+ℤ◌
rvol_passed = refl

checks_causal_example :
    (strength_check (λ x. x) whole 7 decided long first_bar
      ≡ strength_check (λ x. x) until 7 decided long first_bar)
    × (rvol_check whole 7 decided first_bar (past 10)
        ≡ rvol_check until 7 decided first_bar (past 10))
checks_causal_example =
    checks_causal ⦃f = fixed_float⦄ (λ x. x) whole until 7 decided first_bar long (past 10)
      until-SameUntil (past-ClosedBy 10 (omega arith))
