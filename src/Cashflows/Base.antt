-- ===== src/Cashflows/Base.antt =====
-- trades/cashflows.py: amounts, exceptions, and the helpers that stand for Python's own.
pub use stock_signal.Common.{Text}
use stock_signal.Common.{
  ℕ, Bool, true, false, Option, none, some, List, [], ◌∷◌, ◌==◌, if◌then◌else◌,
}
use stock_signal.Common.Int.{ℤ, pos, negsuc, ◌+ℤ◌, ◌-ℤ◌, ltb_ℤ}

-- The exceptions of the module.
pub data Error : Type 0 where
  type_error value_error : Error

pub data Result (A : Type 0) : Type 0 where
  ok : A → Result A
  err : Error → Result A

infixl 5 ◌>>=◌ ◌>>◌
abbrev pub ◌>>=◌ : {A B : Type 0} → Result A → (A → Result B) → Result B
ok a >>= f = f a
err e >>= f = err e

abbrev pub ◌>>◌ : {B : Type 0} → Result (Unit {0}) → Result B → Result B
m >> k = m >>= λ _. k

abbrev pub require : Bool → Error → Result (Unit {0})
require true e = ok tt
require false e = err e

-- What is given for an amount: a Decimal, an int or a decimal text, each finite or not, a float,
-- or anything else. The finite Decimals are of any type.
pub data Number (A : Type 0) : Type 0 where
  exact : A → Number A
  not_finite floating not_a_number : Number A

-- A datetime with its offset, as the instant that it names, or one without.
pub data Stamp : Type 0 where
  aware : ℕ → Stamp
  naive : Stamp

-- `_require_aware`
abbrev pub require_aware : Stamp → Result ℕ
require_aware (aware t) = ok t
require_aware naive = err value_error

-- `_require_aware` of a value that may be None.
abbrev pub aware_or_none : Option Stamp → Result (Option ℕ)
aware_or_none none = ok none
aware_or_none (some (aware t)) = ok (some t)
aware_or_none (some naive) = err value_error

abbrev pub zero_amount : ℤ
zero_amount = pos 0

abbrev pub neg : ℤ → ℤ
neg a = zero_amount -ℤ a

-- `max` and `==` on amounts.
abbrev pub max_ℤ : ℤ → ℤ → ℤ
max_ℤ a b = if ltb_ℤ a b then b else a

abbrev pub eq_ℤ : ℤ → ℤ → Bool
eq_ℤ (pos a) (pos b) = a == b
eq_ℤ (negsuc a) (negsuc b) = a == b
eq_ℤ _ _ = false

-- `sum(xs, ZERO)`, from the left.
unfoldable pub sum_from : ℤ → List ℤ → ℤ
sum_from acc [] = acc
sum_from acc (x ∷ xs) = sum_from (acc +ℤ x) xs

abbrev pub same_text? : Option Text → Option Text → Bool
same_text? none none = true
same_text? (some a) (some b) = a == b
same_text? _ _ = false
