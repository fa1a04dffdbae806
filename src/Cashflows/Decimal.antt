-- ===== src/Cashflows/Decimal.antt =====
-- trades/cashflows.py: `decimal` and `round_cents`. An amount is a whole number of ticks, 10^-8 of
-- a dollar, and arithmetic on amounts is exact: the 28 digits of Python's decimal context are
-- taken to be enough for the sums and products of a book of distributions. The fees of a borrow
-- charge, which a division rounds, are not such amounts (Cashflows/Borrow).
use stock_signal.Common.{ℕ, ◌+◌, ◌*◌, ◌/◌, ◌%◌, ◌≡◌, arith, if◌then◌else◌}
use stock_signal.Common.Int.{ℤ, pos, negsuc, ◌+ℤ◌, ◌-ℤ◌, ◌≤ℤ◌, leb_ℤ, pos_part, neg_part}
use stock_signal.Cashflows.Base.{
  Number, exact, not_finite, floating, not_a_number, Result, ok, err, type_error, value_error, neg,
}

-- CENT, in ticks.
abbrev pub cent : ℕ
cent = 1000000

-- Floats and other values are refused before a value that is not finite is.
unfoldable pub decimal : {A : Type 0} → Number A → Result A
decimal (exact v) = ok v
decimal floating = err type_error
decimal not_a_number = err type_error
decimal not_finite = err value_error

-- `abs(amount).quantize(CENT, rounding=ROUND_HALF_UP)` of a magnitude.
abbrev pub quantize_half_up : ℕ → ℕ
quantize_half_up m = (2 * m + cent) / (2 * cent) * cent

-- `round_cents` of an amount that `decimal` accepts.
unfoldable pub round_cents : ℤ → ℤ
round_cents a =
    let magnitude = quantize_half_up (pos_part a + neg_part a) in
    if leb_ℤ (pos 0) a then pos magnitude else neg (pos magnitude)

-- Whole cents.
abbrev pub IsCents : ℤ → Type 0
IsCents a = (pos_part a % cent ≡ 0) × (neg_part a % cent ≡ 0)

-- A rounded amount is whole cents, and no further than half a cent from the amount.
pub round_cents_bounds :
    (a : ℤ)
    → IsCents (round_cents a)
      × (round_cents a +ℤ round_cents a ≤ℤ a +ℤ a +ℤ pos cent)
      × (a +ℤ a ≤ℤ round_cents a +ℤ round_cents a +ℤ pos cent)
unfolding round_cents ◌+ℤ◌ ◌-ℤ◌
round_cents_bounds a = ground arith

-- An amount and its opposite are rounded to opposites.
pub round_cents-neg : (a : ℤ) → round_cents (neg a) ≡ neg (round_cents a)
unfolding round_cents ◌-ℤ◌
round_cents-neg (pos n) = ground arith
round_cents-neg (negsuc n) = ground arith

-- Whole cents stay as they are.
pub round_cents-IsCents : (a : ℤ) → IsCents a → round_cents a ≡ a
unfolding round_cents ◌-ℤ◌
round_cents-IsCents (pos n) h = ground arith
round_cents-IsCents (negsuc n) h = ground arith

-- A greater amount is not rounded to less.
pub round_cents_mono : (a b : ℤ) → a ≤ℤ b → round_cents a ≤ℤ round_cents b
unfolding round_cents ◌-ℤ◌
round_cents_mono a b h = ground arith

pub round_cents_pos : (m : ℕ) → round_cents (pos m) ≡ pos (quantize_half_up m)
unfolding round_cents
round_cents_pos m = ground arith
