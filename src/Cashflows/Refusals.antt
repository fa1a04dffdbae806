-- ===== src/Cashflows/Refusals.antt =====
-- trades/cashflows.py: which targets `allocate_cents` refuses.
use stock_signal.Common.{
  ℕ, zero, suc, ◌+◌, ◌-◌, ◌*◌, ◌/◌, ◌%◌, ◌≡◌, refl, sym, ap, subst, ◌≢◌, ◌≤◌, ◌⊎◌, ◌↔◌, inl, inr,
  true, some, List, [], ◌∷◌, length, arith, Bool-cases,
}
use stock_signal.Common.Int.{ℤ, pos, negsuc, pos_part}
use stock_signal.Cashflows.Base.{Text, err, value_error}
use stock_signal.Cashflows.Decimal.{cent, round_cents}
use stock_signal.Cashflows.Allocation.{
  Amounts, positive, total, round_down, floors, share_out, allocate_cents,
}
use stock_signal.Cashflows.Shares.{
  Fits, total-floors, is_refused, share_out_refused, share_out_negative, share_out-Fits,
  allocate_some, target_cents,
}

-- A sharing of these lots: each gets its amount rounded down to whole cents, or one cent more.
abbrev pub IsSharing : Amounts → Amounts → Type 0
IsSharing [] [] = Unit
IsSharing ((lot, v) ∷ xs) ((i, w) ∷ ys) =
    (i ≡ lot) × ((w ≡ round_down v) ⊎ (w ≡ round_down v + cent)) × IsSharing xs ys
IsSharing _ _ = ⊥

IsSharing-Fits : (xs ys : Amounts) → IsSharing xs ys → Fits xs (total ys)
IsSharing-Fits [] [] h = (omega arith, omega arith)
IsSharing-Fits [] (y ∷ ys) h = absurd h
IsSharing-Fits (x ∷ xs) [] h = absurd h
IsSharing-Fits ((lot, v) ∷ xs) ((i, w) ∷ ys) (_, inl low, rest) =
    let (l, u) = IsSharing-Fits xs ys rest in (omega arith, omega arith)
IsSharing-Fits ((lot, v) ∷ xs) ((i, w) ∷ ys) (_, inr high, rest) =
    let (l, u) = IsSharing-Fits xs ys rest in (omega arith, omega arith)

-- The sharing that gives the cents to the first lots.
first_lots : ℕ → Amounts → Amounts
first_lots n [] = []
first_lots zero ((lot, v) ∷ xs) = (lot, round_down v) ∷ first_lots zero xs
first_lots (suc n) ((lot, v) ∷ xs) = (lot, round_down v + cent) ∷ first_lots n xs

first_lots-IsSharing : (n : ℕ) (xs : Amounts) → IsSharing xs (first_lots n xs)
unfolding first_lots
first_lots-IsSharing n [] = tt
first_lots-IsSharing zero ((lot, v) ∷ xs) = (refl, inl refl, first_lots-IsSharing zero xs)
first_lots-IsSharing (suc n) ((lot, v) ∷ xs) = (refl, inr refl, first_lots-IsSharing n xs)

total-first_lots :
    (n : ℕ) (xs : Amounts) → n ≤ length xs → total (first_lots n xs) ≡ total (floors xs) + n * cent
unfolding first_lots
total-first_lots zero [] h = omega arith
total-first_lots (suc n) [] h = absurd (omega (arith, h))
total-first_lots zero ((lot, v) ∷ xs) h =
    let e = total-first_lots zero xs (omega arith) in omega arith
total-first_lots (suc n) ((lot, v) ∷ xs) h =
    let e = total-first_lots n xs (omega arith) in omega arith

-- No sharing of the lots adds up to the target.
abbrev pub HasNoSharing : Amounts → ℤ → Type 0
HasNoSharing xs z = (ys : Amounts) → IsSharing xs ys → pos (total ys) ≢ z

unreachable :
    (xs : Amounts) (n : ℕ) → n % cent ≡ 0 → HasNoSharing xs (pos n) → is_refused xs n ≡ true
unreachable xs n c h = elim (Bool-cases (is_refused xs n)) [
  | inl refused ↦ refused
  | inr accepted ↦
      let m = (total-floors xs).0 in
      let k = (n - total (floors xs)) / cent in
      let low : total (floors xs) ≤ n = ground arith in
      let few : k ≤ length xs = ground arith in
      let e = total-first_lots k xs few in
      absurd (h (first_lots k xs) (first_lots-IsSharing k xs) (ap pos (omega arith)))
]

refused_iff :
    (xs : Amounts) (z : ℤ)
    → pos_part z % cent ≡ 0
    → (share_out xs z ≡ err value_error) ↔ HasNoSharing xs z
refused_iff xs (negsuc n) c = (λ _ ys s e. cc, λ _. share_out_negative xs n)
refused_iff xs (pos n) c = (
  λ refused ys s e.
      let fits : Fits xs n =
        subst (Fits xs) (pos_injective (total ys) n e) (IsSharing-Fits xs ys s) in
      cc (share_out-Fits xs n c fits),
  λ h. share_out_refused xs n (unreachable xs n c h),
)
  where
    pos_injective : (a b : ℕ) → pos a ≡ pos b → a ≡ b
    pos_injective a b e = cc

-- For a mapping in which some amount is above zero, `allocate_cents` raises for a target exactly if
-- no way to give each such lot its amount rounded down to whole cents, or one cent more, adds up to
-- the rounded target.
pub allocate_cents_refuses :
    (xs : List (Text × ℤ)) (t : ℤ)
    → positive xs ≢ []
    → (allocate_cents xs (some t) ≡ err value_error) ↔ HasNoSharing (positive xs) (round_cents t)
unfolding allocate_cents
allocate_cents_refuses xs t ne =
    subst (λ r. (r ≡ err value_error) ↔ HasNoSharing (positive xs) (round_cents t))
      (sym (allocate_some (positive xs) (some t) ne))
      (refused_iff (positive xs) (round_cents t) (target_cents (positive xs) (some t)))
