-- ===== src/Cashflows/Allocation.antt =====
-- trades/cashflows.py: `allocate_cents`. A mapping lists its items in the order of insertion;
-- lot ids stand in the order of their numbers.
use stock_signal.Common.{
  ℕ, ◌+◌, ◌-◌, ◌*◌, ◌/◌, Bool, ◌&&◌, ◌||◌, Option, none, some, List, [], ◌∷◌, ltb, leb, ◌==◌,
  if◌then◌else◌, length, take,
}
use stock_signal.Common.Int.{ℤ, pos, negsuc, pos_part, ltb_ℤ}
use stock_signal.Cashflows.Base.{Text, Result, ok, err, value_error}
use stock_signal.Cashflows.Decimal.{cent, round_cents}

-- Magnitudes of lots.
abbrev pub Amounts : Type 0
Amounts = List (Text × ℕ)

-- The items above ZERO.
abbrev pub positive : List (Text × ℤ) → Amounts
positive [] = []
positive ((lot, v) ∷ xs) =
    let rest = positive xs in if ltb_ℤ (pos 0) v then (lot, pos_part v) ∷ rest else rest

-- `sum(xs.values(), ZERO)`
abbrev pub total : Amounts → ℕ
total [] = 0
total ((lot, v) ∷ xs) = v + total xs

-- `quantize(CENT, rounding=ROUND_DOWN)`
abbrev pub round_down : ℕ → ℕ
round_down v = v / cent * cent

abbrev pub floors : Amounts → Amounts
floors [] = []
floors ((lot, v) ∷ xs) = (lot, round_down v) ∷ floors xs

abbrev pub remainders : Amounts → List (ℕ × Text)
remainders [] = []
remainders ((lot, v) ∷ xs) = (v - round_down v, lot) ∷ remainders xs

-- `sorted` by `(-item[0], item[1])`
abbrev pub comes_first : ℕ × Text → ℕ × Text → Bool
comes_first (r, i) (s, j) = ltb s r || r == s && leb i j

abbrev pub insert : ℕ × Text → List (ℕ × Text) → List (ℕ × Text)
insert x [] = x ∷ []
insert x (y ∷ ys) = let rest = insert x ys in if comes_first x y then x ∷ y ∷ ys else y ∷ rest

unfoldable pub sorted : List (ℕ × Text) → List (ℕ × Text)
sorted [] = []
sorted (x ∷ xs) = insert x (sorted xs)

-- `result[lot_id] += CENT`
abbrev pub add_cent : Text → Amounts → Amounts
add_cent lot [] = []
add_cent lot ((i, v) ∷ xs) =
    let rest = add_cent lot xs in if i == lot then (i, v + cent) ∷ xs else (i, v) ∷ rest

unfoldable pub give_cents : List (ℕ × Text) → Amounts → Amounts
give_cents [] ys = ys
give_cents ((r, lot) ∷ rest) ys = give_cents rest (add_cent lot ys)

-- `target`
abbrev pub target_of : Amounts → Option ℤ → ℤ
target_of exact none = round_cents (pos (total exact))
target_of exact (some rounded_total) = round_cents rounded_total

-- From the check of `target` on. It and the floors are whole cents, so the difference is below
-- zero exactly where the number of remaining cents is.
unfoldable pub share_out : Amounts → ℤ → Result Amounts
share_out exact (negsuc t) = err value_error
share_out exact (pos target) =
    let low = total (floors exact) in
    let remaining_cents = (target - low) / cent in
    if ltb target low || ltb (length exact) remaining_cents
    then err value_error
    else ok (give_cents (take remaining_cents (sorted (remainders exact))) (floors exact))

abbrev pub allocate_positive : Amounts → Option ℤ → Result Amounts
allocate_positive [] rounded_total = ok []
allocate_positive (x ∷ xs) rounded_total = share_out (x ∷ xs) (target_of (x ∷ xs) rounded_total)

unfoldable pub allocate_cents : List (Text × ℤ) → Option ℤ → Result Amounts
allocate_cents exact_by_lot rounded_total = allocate_positive (positive exact_by_lot) rounded_total
