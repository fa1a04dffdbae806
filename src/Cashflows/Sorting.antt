-- ===== src/Cashflows/Sorting.antt =====
-- trades/cashflows.py: the order in which `allocate_cents` gives the remaining cents.
use stock_signal.Common.{
  ℕ, zero, suc, ◌≡◌, refl, sym, ap, ◌∙◌, ◌≢◌, ◌≤◌, inl, inr, List, [], ◌∷◌, length, take, arith,
  All, Bool-cases,
}
use stock_signal.Cashflows.Base.{Text}
use stock_signal.Cashflows.Allocation.{Amounts, remainders, comes_first, insert, sorted}
use stock_signal.Cashflows.Cents.{IsDistinct}

module _ (P : ℕ × Text → Type 0) where
  All-insert : (x : ℕ × Text) (xs : List (ℕ × Text)) → P x → All P xs → All P (insert x xs)
  All-insert x [] p h = (p, tt)
  All-insert x (y ∷ ys) p h = elim (Bool-cases (comes_first x y)) [
    | inl first ↦ rw first (p, h)
    | inr later ↦ rw later (h.0, All-insert x ys p h.1)
  ]

  pub All-sorted : (xs : List (ℕ × Text)) → All P xs → All P (sorted xs)
  unfolding sorted
  All-sorted [] h = tt
  All-sorted (x ∷ xs) h = All-insert x (sorted xs) h.0 (All-sorted xs h.1)

  pub All-take : (n : ℕ) (xs : List (ℕ × Text)) → All P xs → All P (take n xs)
  All-take zero xs h = tt
  All-take (suc n) [] h = tt
  All-take (suc n) (x ∷ xs) h = (h.0, All-take n xs h.1)

IsDistinct-insert :
    (x : ℕ × Text) (xs : List (ℕ × Text))
    → All (λ y. y.1 ≢ x.1) xs
    → IsDistinct xs
    → IsDistinct (insert x xs)
IsDistinct-insert x [] h u = (tt, tt)
IsDistinct-insert x (y ∷ ys) h u = elim (Bool-cases (comes_first x y)) [
  | inl first ↦ rw first (h, u)
  | inr later ↦
      rw later
        (All-insert (λ z. z.1 ≢ y.1) x ys (λ e. h.0 (sym e)) u.0, IsDistinct-insert x ys h.1 u.1)
]

pub IsDistinct-sorted : (xs : List (ℕ × Text)) → IsDistinct xs → IsDistinct (sorted xs)
unfolding sorted
IsDistinct-sorted [] u = tt
IsDistinct-sorted (x ∷ xs) u =
    IsDistinct-insert x (sorted xs) (All-sorted (λ y. y.1 ≢ x.1) xs u.0) (IsDistinct-sorted xs u.1)

pub IsDistinct-take : (n : ℕ) (xs : List (ℕ × Text)) → IsDistinct xs → IsDistinct (take n xs)
IsDistinct-take zero xs u = tt
IsDistinct-take (suc n) [] u = tt
IsDistinct-take (suc n) (x ∷ xs) u = (All-take (λ y. y.1 ≢ x.1) n xs u.0, IsDistinct-take n xs u.1)

length-insert : (x : ℕ × Text) (xs : List (ℕ × Text)) → length (insert x xs) ≡ suc (length xs)
length-insert x [] = refl
length-insert x (y ∷ ys) = elim (Bool-cases (comes_first x y)) [
  | inl first ↦ rw first refl
  | inr later ↦ rw later (ap suc (length-insert x ys))
]

pub length-sorted : (xs : List (ℕ × Text)) → length (sorted xs) ≡ length xs
unfolding sorted
length-sorted [] = refl
length-sorted (x ∷ xs) = length-insert x (sorted xs) ∙ ap suc (length-sorted xs)

pub length-take : (n : ℕ) (xs : List (ℕ × Text)) → n ≤ length xs → length (take n xs) ≡ n
length-take zero xs h = refl
length-take (suc n) [] h = omega arith
length-take (suc n) (x ∷ xs) h = ap suc (length-take n xs (omega arith))

pub length-remainders : (xs : Amounts) → length (remainders xs) ≡ length xs
length-remainders [] = refl
length-remainders (x ∷ xs) = ap suc (length-remainders xs)
