-- ===== src/Cashflows/Shares.antt =====
-- trades/cashflows.py: what `allocate_cents` gives each lot, and that nothing is lost.
use stock_signal.Common.{
  ℕ, ◌+◌, ◌-◌, ◌*◌, ◌/◌, ◌%◌, ◌≡◌, refl, sym, ap, subst, ◌∙◌, ◌≢◌, ◌≤◌, ◌⊎◌, inl, inr, Bool, true,
  false, ◌||◌, Option, none, some, List, [], ◌∷◌, ltb, ◌==◌, length, take, arith, All, Pairwise,
  Bool-cases, All-map,
}
use mathlib.Core.Option.{some-injective}
use stock_signal.Common.Int.{ℤ, pos, negsuc, ltb_ℤ, pos_part}
use stock_signal.Cashflows.Base.{Text, ok, err, value_error}
use stock_signal.Cashflows.Decimal.{
  cent, round_cents, round_cents_bounds, round_cents_pos, quantize_half_up,
}
use stock_signal.Cashflows.Allocation.{
  Amounts, positive, total, round_down, floors, remainders, sorted, give_cents, target_of,
  share_out, allocate_cents, allocate_positive,
}
use stock_signal.Cashflows.Cents.{
  amount_of, Has, total-give_cents, give_cents_once, AllHave, IsDistinct, amount_of-head,
  amount_of-tail,
}
use stock_signal.Cashflows.Sorting.{
  All-sorted, All-take, IsDistinct-sorted, IsDistinct-take, length-sorted, length-take,
  length-remainders,
}

-- The keys of a mapping differ.
abbrev pub HasDistinctLots : List (Text × ℤ) → Type 0
HasDistinctLots = Pairwise (λ x y. y.0 ≢ x.0)

round_down_bounds :
    (v : ℕ) → (round_down v % cent ≡ 0) × (round_down v ≤ v) × (v + 1 ≤ round_down v + cent)
round_down_bounds v = ground arith

pub total-floors :
    (xs : Amounts)
    → (total (floors xs) % cent ≡ 0)
      × (total (floors xs) ≤ total xs)
      × (total xs + length xs ≤ total (floors xs) + length xs * cent)
total-floors [] = ground arith
total-floors ((lot, v) ∷ xs) =
    let (c, l, h) = round_down_bounds v in
    let (cs, ls, hs) = total-floors xs in (omega arith, omega arith, omega arith)

amount_of-floors :
    (lot : Text) (v : ℕ) (xs : Amounts)
    → amount_of lot xs ≡ some v
    → amount_of lot (floors xs) ≡ some (round_down v)
amount_of-floors lot v [] h = cc
amount_of-floors lot v ((i, w) ∷ xs) h = elim (Bool-cases (i == lot)) [
  | inl hit ↦
      amount_of-head lot i (round_down w) (floors xs) hit
      ∙ ap (λ u. some (round_down u)) (some-injective w v (sym (amount_of-head lot i w xs hit) ∙ h))
  | inr miss ↦
      amount_of-tail lot i (round_down w) (floors xs) miss
      ∙ amount_of-floors lot v xs (sym (amount_of-tail lot i w xs miss) ∙ h)
]

Has-cons : (lot i : Text) (w : ℕ) (xs : Amounts) → Has xs lot → Has ((i, w) ∷ xs) lot
Has-cons lot i w xs (v, h) = elim (Bool-cases (i == lot)) [
  | inl hit ↦ (w, amount_of-head lot i w xs hit)
  | inr miss ↦ (v, amount_of-tail lot i w xs miss ∙ h)
]

remainders-AllHave : (xs : Amounts) → AllHave (floors xs) (remainders xs)
remainders-AllHave [] = tt
remainders-AllHave ((i, w) ∷ xs) = (
  (round_down w, amount_of-head i i (round_down w) (floors xs) (ground arith)),
  All-map _ _ (remainders xs) (λ x. Has-cons x.1 i (round_down w) (floors xs))
      (remainders-AllHave xs),
)

remainders-All :
    (P : Text → Type 0) (xs : List (Text × ℤ))
    → All (λ x. P x.0) xs
    → All (λ x. P x.1) (remainders (positive xs))
remainders-All P [] h = tt
remainders-All P ((lot, v) ∷ xs) h = elim (Bool-cases (ltb_ℤ (pos 0) v)) [
  | inl keep ↦ rw keep (h.0, remainders-All P xs h.1)
  | inr drop ↦ rw drop (remainders-All P xs h.1)
]

remainders-IsDistinct :
    (xs : List (Text × ℤ)) → HasDistinctLots xs → IsDistinct (remainders (positive xs))
remainders-IsDistinct [] u = tt
remainders-IsDistinct ((lot, v) ∷ xs) u = elim (Bool-cases (ltb_ℤ (pos 0) v)) [
  | inl keep ↦ rw keep (remainders-All (λ i. i ≢ lot) xs u.0, remainders-IsDistinct xs u.1)
  | inr drop ↦ rw drop (remainders-IsDistinct xs u.1)
]

-- The allocation of a target that the check accepts.
abbrev shares : Amounts → ℕ → Amounts
shares xs target =
    give_cents (take ((target - total (floors xs)) / cent) (sorted (remainders xs))) (floors xs)

-- The target is at least the whole cents of the lots, and at most one cent for each lot more.
abbrev pub Fits : Amounts → ℕ → Type 0
Fits xs target = (total (floors xs) ≤ target) × (target ≤ total (floors xs) + length xs * cent)

-- The check of the number of remaining cents.
abbrev pub is_refused : Amounts → ℕ → Bool
is_refused xs target =
    ltb target (total (floors xs)) || ltb (length xs) ((target - total (floors xs)) / cent)

pub share_out_refused :
    (xs : Amounts) (target : ℕ)
    → is_refused xs target ≡ true
    → share_out xs (pos target) ≡ err value_error
unfolding share_out
share_out_refused xs target h = rw h refl

share_out_accepted :
    (xs : Amounts) (target : ℕ)
    → is_refused xs target ≡ false
    → share_out xs (pos target) ≡ ok (shares xs target)
unfolding share_out
share_out_accepted xs target h = rw h refl

pub share_out-Fits :
    (xs : Amounts) (target : ℕ)
    → target % cent ≡ 0
    → Fits xs target
    → share_out xs (pos target) ≡ ok (shares xs target)
share_out-Fits xs target c (low, high) = share_out_accepted xs target (ground arith)

share_out-ok :
    (xs ys : Amounts) (target : ℕ)
    → target % cent ≡ 0
    → share_out xs (pos target) ≡ ok ys
    → Fits xs target × (ys ≡ shares xs target)
share_out-ok xs ys target c h = elim (Bool-cases (is_refused xs target)) [
  | inl refused ↦ absurd (cc (share_out_refused xs target refused))
  | inr accepted ↦
      (let m = (total-floors xs).0 in ground arith, cc (share_out_accepted xs target accepted))
]

total-shares :
    (xs : Amounts) (target : ℕ)
    → target % cent ≡ 0
    → Fits xs target
    → total (shares xs target) ≡ target
total-shares xs target c (low, high) =
    let n = (target - total (floors xs)) / cent in
    let ids = take n (sorted (remainders xs)) in
    let given = total-give_cents ids (floors xs) (
      All-take _ n (sorted (remainders xs))
        (All-sorted _ (remainders xs) (remainders-AllHave xs))) in
    let l = length-sorted (remainders xs) ∙ length-remainders xs in
    let k : length ids ≡ n = length-take n (sorted (remainders xs)) (omega arith) in
    let m = (total-floors xs).0 in omega arith

shares_once :
    (xs : List (Text × ℤ)) (target lot v : ℕ)
    → HasDistinctLots xs
    → amount_of lot (positive xs) ≡ some v
    → (amount_of lot (shares (positive xs) target) ≡ some (round_down v))
      ⊎ (amount_of lot (shares (positive xs) target) ≡ some (round_down v + cent))
shares_once xs target lot v u h =
    give_cents_once lot (round_down v) _ (floors (positive xs))
      (IsDistinct-take _ (sorted (remainders (positive xs)))
        (IsDistinct-sorted (remainders (positive xs)) (remainders-IsDistinct xs u)))
      (amount_of-floors lot v (positive xs) h)

pub target_cents : (xs : Amounts) (t : Option ℤ) → pos_part (target_of xs t) % cent ≡ 0
target_cents xs none = (round_cents_bounds (pos (total xs))).0.0
target_cents xs (some a) = (round_cents_bounds a).0.0

pub allocate_some :
    (xs : Amounts) (t : Option ℤ) → xs ≢ [] → allocate_positive xs t ≡ share_out xs (target_of xs t)
allocate_some [] t ne = absurd (ne refl)
allocate_some (x ∷ xs) t ne = refl

pub share_out_negative : (xs : Amounts) (n : ℕ) → share_out xs (negsuc n) ≡ err value_error
unfolding share_out
share_out_negative xs n = refl

-- What `share_out` returns is the allocation of a target that is not below zero.
share_out-cases :
    (xs ys : Amounts) (z : ℤ)
    → (pos_part z % cent ≡ 0)
    → share_out xs z ≡ ok ys
    → (n : ℕ) × (z ≡ pos n) × (pos (total ys) ≡ z) × (ys ≡ shares xs n)
share_out-cases xs ys (pos n) c h =
    let (fits, e) = share_out-ok xs ys n c h in
    (n, refl, ap pos (ap total e ∙ total-shares xs n c fits), e)
share_out-cases xs ys (negsuc n) c h = absurd (cc (share_out_negative xs n))

-- Where `allocate_cents` returns, for a mapping in which some amount is above zero, the parts add
-- up to the rounded target, and each lot with an amount above zero gets that amount rounded down
-- to whole cents, or one cent more.
pub allocate_cents_shares :
    (xs : List (Text × ℤ)) (t : Option ℤ) (ys : Amounts)
    → HasDistinctLots xs
    → positive xs ≢ []
    → allocate_cents xs t ≡ ok ys
    → (pos (total ys) ≡ target_of (positive xs) t)
      × ((lot v : ℕ)
          → amount_of lot (positive xs) ≡ some v
          → (amount_of lot ys ≡ some (round_down v))
            ⊎ (amount_of lot ys ≡ some (round_down v + cent)))
unfolding allocate_cents
allocate_cents_shares xs t ys u ne h =
    let (n, z, sum, e) =
      share_out-cases (positive xs) ys (target_of (positive xs) t) (target_cents (positive xs) t)
        (sym (allocate_some (positive xs) t ne) ∙ h) in
    (
      sum,
      λ lot v k.
          subst
            (λ (s : Amounts).
              (amount_of lot s ≡ some (round_down v))
              ⊎ (amount_of lot s ≡ some (round_down v + cent)))
            (sym e) (shares_once xs n lot v u k),
    )

default_target : (xs : Amounts) → xs ≢ [] → Fits xs (quantize_half_up (total xs))
default_target [] ne = absurd (ne refl)
default_target (x ∷ xs) ne = let f = total-floors (x ∷ xs) in ground arith

-- The parts of a mapping's items above zero, without a target.
reconciled :
    (xs : Amounts)
    → (ys : Amounts) × (allocate_positive xs none ≡ ok ys)
      × (pos (total ys) ≡ round_cents (pos (total xs)))
reconciled [] = ([], refl, sym (round_cents_pos 0))
reconciled (x ∷ xs) =
    let p = x ∷ xs in
    let n = quantize_half_up (total p) in
    let c : n % cent ≡ 0 = ground arith in
    let fits = default_target p (λ e. cc) in
    (
      shares p n,
      ap (share_out p) (round_cents_pos (total p)) ∙ share_out-Fits p n c fits,
      ap pos (total-shares p n c fits) ∙ sym (round_cents_pos (total p)),
    )

-- Without a target of its own `allocate_cents` never raises, and the parts add up to the rounded
-- sum of the amounts above zero.
pub allocate_cents_reconciles :
    (xs : List (Text × ℤ))
    → (ys : Amounts) × (allocate_cents xs none ≡ ok ys)
      × (pos (total ys) ≡ round_cents (pos (total (positive xs))))
unfolding allocate_cents
allocate_cents_reconciles xs = reconciled (positive xs)
