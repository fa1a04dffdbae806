-- ===== src/Cashflows/Passes.antt =====
-- trades/cashflows.py, `_accepted_actions`: how many passes its loop needs.

use stock_signal.Common.{
  ℕ, ◌≤◌, ◌<◌, zero, suc, ◌≡◌, refl, Bool, true, Option, List, [], ◌∷◌, ◌==◌, All, All-map, any,
  select, length, Bool-cases, inl, inr, arith,
}
use stock_signal.Cashflows.Base.{Text}
use stock_signal.Cashflows.Records.{DistributionAction}
use stock_signal.Cashflows.Revisions.{supersedes, without, only_child, follow}
use stock_signal.Cashflows.Following.{Covered, Covered-next, without-same, without-other}

length-without_le : (id : Text) (xs : List DistributionAction) → length (without id xs) ≤ length xs
length-without_le id [] = omega arith
length-without_le id (x ∷ xs) =
    let k = length-without_le id xs in
    elim (Bool-cases (x.revision_id == id)) [
      | inl here ↦ rw (without-same id x xs here) (omega (arith, k))
      | inr away ↦ rw (without-other id x xs away) (omega (arith, k))
    ]

length-without :
    (id : Text) (xs : List DistributionAction)
    → any (λ y. y.revision_id == id) xs ≡ true
    → length (without id xs) < length xs
length-without id [] h = absurd (cc h)
length-without id (x ∷ xs) h = elim (Bool-cases (x.revision_id == id)) [
  | inl here ↦ let k = length-without_le id xs in rw (without-same id x xs here) (omega (arith, k))
  | inr away ↦
      let k = length-without id xs (ground arith) in
      rw (without-other id x xs away) (omega (arith, k))
]

-- A selected revision stands in the list.
selected-Covered :
    (p : DistributionAction → Bool) (xs : List DistributionAction) → All (Covered xs) (select p xs)
selected-Covered p [] = tt
selected-Covered p (x ∷ xs) =
    let rest =
      All-map (Covered xs) (Covered (x ∷ xs)) (select p xs) (λ y h. Covered-next x xs y h)
        (selected-Covered p xs) in
    elim (Bool-cases (p x)) [ inl hit ↦ rw hit (ground arith, rest) | inr miss ↦ rw miss rest ]

only_child-same :
    (cs : List DistributionAction) (j k : DistributionAction → Option DistributionAction)
    → All (λ c. j c ≡ k c) cs
    → only_child cs j ≡ only_child cs k
only_child-same [] j k h = refl
only_child-same (c ∷ []) j k h = h.0
only_child-same (c ∷ d ∷ cs) j k h = refl

-- As many passes as there are revisions left are enough: with more fuel the loop gives the same.
pub follow_enough :
    (fuel more : ℕ) (current : DistributionAction) (remaining : List DistributionAction)
    → length remaining ≤ fuel
    → length remaining ≤ more
    → follow fuel current remaining ≡ follow more current remaining
unfolding follow
follow_enough fuel more current [] h k = refl
follow_enough zero more current (x ∷ xs) h k = absurd (omega (arith, h))
follow_enough (suc fuel) zero current (x ∷ xs) h k = absurd (omega (arith, k))
follow_enough (suc fuel) (suc more) current (x ∷ xs) h k =
    only_child-same (select (supersedes current) (x ∷ xs)) _ _ (
      All-map (Covered (x ∷ xs)) _ (select (supersedes current) (x ∷ xs))
        (λ c covered.
          let shorter = length-without c.revision_id (x ∷ xs) covered in
          follow_enough fuel more c (without c.revision_id (x ∷ xs)) (omega (arith, h, shorter))
            (omega (arith, k, shorter)))
        (selected-Covered (supersedes current) (x ∷ xs)))
