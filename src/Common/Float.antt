-- ===== src/Common/Float.antt =====
-- What the repository does with a Python float: its operations, as an interface, with the laws
-- that a theorem asks of them apart. Nothing is said of rounding errors.
use Prim.Native.Nat.{ℕ, ◌+◌, ◌-◌, ◌*◌, ◌/◌, ◌^◌}
use mathlib.Core.Bool.{Bool, true, false}
use stock_signal.Common.Tests.{if◌then◌else◌}
use stock_signal.Common.Int.{ℤ, pos, ◌+ℤ◌, ◌-ℤ◌, ltb_ℤ, leb_ℤ, pos_part, neg_part, sub_ℕ}

pub record Float (F : Type 0) : Type 0 where
  -- `literal n k` is n * 10^-k.
  pub literal : ℕ → ℕ → F
  pub lt : F → F → Bool
  pub le : F → F → Bool
  pub eq : F → F → Bool
  -- `math.isfinite`
  pub is_finite : F → Bool
  pub add : F → F → F
  pub sub : F → F → F
  pub mul : F → F → F
  pub div : F → F → F
  -- `abs`, `round(x, digits)` and `math.floor`
  pub magnitude : F → F
  pub round : ℕ → F → F
  pub floor : F → ℤ

module _ {F : Type 0} ⦃f : Float F⦄ where
  abbrev pub zero_float : F
  zero_float = f.literal 0 0

  -- `max(a, b)` and `min(a, b)`, which return the first of two that are equal.
  abbrev pub max_float : F → F → F
  max_float a b = if f.lt a b then b else a

  abbrev pub min_float : F → F → F
  min_float a b = if f.lt b a then b else a

-- Decimal fractions with nine places, which meet the laws that are asked of floats.
abbrev pub Fixed : Type 0
Fixed = ℤ

abbrev pub one_fixed : ℕ
one_fixed = 1000000000

abbrev signed_quotient : ℤ → ℕ → ℤ
signed_quotient a d = sub_ℕ (pos_part a / d) (neg_part a / d)

abbrev same_sign : ℤ → ℤ → ℕ
same_sign a b = pos_part a * pos_part b + neg_part a * neg_part b

abbrev other_sign : ℤ → ℤ → ℕ
other_sign a b = pos_part a * neg_part b + neg_part a * pos_part b

abbrev size : ℤ → ℕ
size a = pos_part a + neg_part a

instance abbrev pub fixed_float : Float Fixed
fixed_float = record {
  literal = λ n k. pos (n * one_fixed / 10 ^ k);
  lt = ltb_ℤ;
  le = leb_ℤ;
  eq = λ a b. if leb_ℤ a b then leb_ℤ b a else false;
  is_finite = λ a. true;
  add = λ a b. a +ℤ b;
  sub = λ a b. a -ℤ b;
  mul = λ a b. sub_ℕ (same_sign a b / one_fixed) (other_sign a b / one_fixed);
  div = λ a b.
      sub_ℕ (same_sign a b * one_fixed / (size b * size b))
        (other_sign a b * one_fixed / (size b * size b));
  magnitude = λ a. pos (size a);
  round = λ k a.
      let unit = one_fixed / 10 ^ k in
      sub_ℕ ((pos_part a + unit / 2) / unit * unit) ((neg_part a + unit / 2) / unit * unit);
  floor = λ a. sub_ℕ (pos_part a / one_fixed) ((neg_part a + one_fixed - 1) / one_fixed);
}
