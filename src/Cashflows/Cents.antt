-- ===== src/Cashflows/Cents.antt =====
-- trades/cashflows.py: what a run of `result[lot_id] += CENT` does to a mapping of lots.
use stock_signal.Common.{
  ℕ, ◌+◌, ◌*◌, ◌≡◌, refl, sym, ap, subst, ◌∙◌, ◌≢◌, ◌⊎◌, inl, inr, true, false, Option, none, some,
  List, [], ◌∷◌, ◌==◌, if◌then◌else◌, length, arith, All, Pairwise, Bool-cases, All-map,
}
use mathlib.Core.Option.{some-injective}
use stock_signal.Cashflows.Base.{Text}
use stock_signal.Cashflows.Decimal.{cent}
use stock_signal.Cashflows.Allocation.{Amounts, total, add_cent, give_cents}

-- `xs.get(lot)`
abbrev pub amount_of : Text → Amounts → Option ℕ
amount_of lot [] = none
amount_of lot ((i, v) ∷ xs) = if i == lot then some v else amount_of lot xs

abbrev pub Has : Amounts → Text → Type 0
Has xs lot = (v : ℕ) × (amount_of lot xs ≡ some v)

pub amount_of-head :
    (lot i : Text) (w : ℕ) (xs : Amounts) → i == lot ≡ true → amount_of lot ((i, w) ∷ xs) ≡ some w
amount_of-head lot i w xs h = rw h refl

pub amount_of-tail :
    (lot i : Text) (w : ℕ) (xs : Amounts)
    → i == lot ≡ false
    → amount_of lot ((i, w) ∷ xs) ≡ amount_of lot xs
amount_of-tail lot i w xs h = rw h refl

pub total-add_cent :
    (lot : Text) (xs : Amounts) → Has xs lot → total (add_cent lot xs) ≡ total xs + cent
total-add_cent lot [] (v, h) = cc
total-add_cent lot ((i, w) ∷ xs) (v, h) = elim (Bool-cases (i == lot)) [
  | inl hit ↦ rw hit (omega arith)
  | inr miss ↦
      rw miss (omega (arith, total-add_cent lot xs (v, sym (amount_of-tail lot i w xs miss) ∙ h)))
]

amount_of-add_cent :
    (lot : Text) (xs : Amounts) (v : ℕ)
    → amount_of lot xs ≡ some v
    → amount_of lot (add_cent lot xs) ≡ some (v + cent)
amount_of-add_cent lot [] v h = cc
amount_of-add_cent lot ((i, w) ∷ xs) v h = elim (Bool-cases (i == lot)) [
  | inl hit ↦ rw hit (
      amount_of-head lot i (w + cent) xs hit
      ∙ ap (λ u. some (u + cent)) (some-injective w v (sym (amount_of-head lot i w xs hit) ∙ h)))
  | inr miss ↦ rw miss (
      amount_of-tail lot i w (add_cent lot xs) miss
      ∙ amount_of-add_cent lot xs v (sym (amount_of-tail lot i w xs miss) ∙ h))
]

amount_of-add_cent_other :
    (lot other : Text) (xs : Amounts)
    → lot ≢ other
    → amount_of other (add_cent lot xs) ≡ amount_of other xs
amount_of-add_cent_other lot other [] ne = refl
amount_of-add_cent_other lot other ((i, w) ∷ xs) ne = elim (Bool-cases (i == lot)) [
  | inl hit ↦ rw hit (
      amount_of-tail other i (w + cent) xs (ground arith)
      ∙ sym (amount_of-tail other i w xs (ground arith)))
  | inr miss ↦ rw miss (rw (amount_of-add_cent_other lot other xs ne) refl)
]

-- Each item names a lot of the amounts.
abbrev pub AllHave : Amounts → List (ℕ × Text) → Type 0
AllHave xs = All (λ x. Has xs x.1)

Has-add_cent : (xs : Amounts) (lot other : Text) → Has xs lot → Has (add_cent other xs) lot
Has-add_cent xs lot other (v, h) = elim (Bool-cases (other == lot)) [
  | inl same ↦ (
    v + cent,
    subst (λ o. amount_of lot (add_cent o xs) ≡ some (v + cent)) (sym (same_number other lot same))
        (amount_of-add_cent lot xs v h),
  )
  | inr differs ↦ (v, amount_of-add_cent_other other lot xs (λ e. ground arith) ∙ h)
]
  where
    same_number : (a b : ℕ) → a == b ≡ true → a ≡ b
    same_number a b e = ground arith

pub total-give_cents :
    (ids : List (ℕ × Text)) (xs : Amounts)
    → AllHave xs ids
    → total (give_cents ids xs) ≡ total xs + length ids * cent
unfolding give_cents
total-give_cents [] xs h = omega arith
total-give_cents ((r, lot) ∷ rest) xs h = omega (
  arith,
  total-add_cent lot xs h.0,
  total-give_cents rest (add_cent lot xs) (All-map _ _ rest (λ x k. Has-add_cent xs x.1 lot k) h.1),
)

-- The amount of a lot that is given no cent, and of one that is given at most one.
give_cents_misses :
    (lot : Text) (ids : List (ℕ × Text)) (xs : Amounts)
    → All (λ x. x.1 ≢ lot) ids
    → amount_of lot (give_cents ids xs) ≡ amount_of lot xs
unfolding give_cents
give_cents_misses lot [] xs h = refl
give_cents_misses lot ((r, i) ∷ rest) xs h =
    give_cents_misses lot rest (add_cent i xs) h.1 ∙ amount_of-add_cent_other i lot xs h.0

-- No lot stands twice.
abbrev pub IsDistinct : List (ℕ × Text) → Type 0
IsDistinct = Pairwise (λ x y. y.1 ≢ x.1)

pub give_cents_once :
    (lot : Text) (v : ℕ) (ids : List (ℕ × Text)) (xs : Amounts)
    → IsDistinct ids
    → amount_of lot xs ≡ some v
    → (amount_of lot (give_cents ids xs) ≡ some v)
      ⊎ (amount_of lot (give_cents ids xs) ≡ some (v + cent))
unfolding give_cents
give_cents_once lot v [] xs u h = inl h
give_cents_once lot v ((r, i) ∷ rest) xs u h = elim (Bool-cases (i == lot)) [
  | inl same ↦
      let e : i ≡ lot = ground arith in
      inr (
        give_cents_misses lot rest (add_cent i xs) (All-map _ _ rest (λ x ne k. ne (k ∙ sym e)) u.0)
        ∙ subst (λ o. amount_of lot (add_cent o xs) ≡ some (v + cent)) (sym e)
            (amount_of-add_cent lot xs v h))
  | inr differs ↦
      give_cents_once lot v rest (add_cent i xs) u.1
        (amount_of-add_cent_other i lot xs (λ e. ground arith) ∙ h)
]
