-- ===== src/Common/Lists.antt =====
-- Lists measured by native numbers, list predicates by recursion, and the table updates that
-- the stores share.
use Prim.Native.Nat.{ℕ, zero, suc, ◌+◌}
use mathlib.Core.Path.{◌≡◌}
use mathlib.Core.Bool.{Bool, false, ◌||◌}
use mathlib.Core.Option.{Option, none, some}
use mathlib.Core.List.{List, [], ◌∷◌, ◌++◌}
use native.Mathlib.Omega.{arith}
use mathlib.Core.Path.{refl, subst}
use mathlib.Core.Bool.{true}
use mathlib.Core.Logic.{◌⊎◌, inl, inr}
use stock_signal.Common.Tests.{if◌then◌else◌, Bool-cases}

module _ {ℓ} {A : Type ℓ} where
  abbrev pub length : List A → ℕ
  length [] = 0
  length (x ∷ xs) = suc (length xs)

  abbrev pub get_elem? : List A → ℕ → Option A
  get_elem? [] i = none
  get_elem? (x ∷ xs) zero = some x
  get_elem? (x ∷ xs) (suc i) = get_elem? xs i

  abbrev pub take : ℕ → List A → List A
  take zero xs = []
  take (suc n) [] = []
  take (suc n) (x ∷ xs) = x ∷ take n xs

  -- Every element satisfies `P`.
  abbrev pub All {κ} : (A → Type κ) → List A → Type κ
  All P [] = Unit
  All P (x ∷ xs) = P x × All P xs

  -- Every element stands in `R` to each later one.
  abbrev pub Pairwise {κ} : (A → A → Type κ) → List A → Type κ
  Pairwise R [] = Unit
  Pairwise R (x ∷ xs) = All (R x) xs × Pairwise R xs

  -- `any(p(x) for x in xs)`
  abbrev pub any : (A → Bool) → List A → Bool
  any p [] = false
  any p (x ∷ xs) = p x || any p xs

  -- `[x for x in xs if p(x)]`
  abbrev pub select : (A → Bool) → List A → List A
  select p [] = []
  select p (x ∷ xs) = let rest = select p xs in if p x then x ∷ rest else rest

  -- The first row that a `SELECT` with this `WHERE` returns.
  abbrev pub find? : (A → Bool) → List A → Option A
  find? p [] = none
  find? p (x ∷ xs) = if p x then some x else find? p xs

  -- `UPDATE … SET f WHERE p`
  abbrev pub update : (A → Bool) → (A → A) → List A → List A
  update p f [] = []
  update p f (x ∷ xs) = (if p x then f x else x) ∷ update p f xs

  pub length-append : (xs ys : List A) → length (xs ++ ys) ≡ length xs + length ys
  length-append [] ys = omega arith
  length-append (x ∷ xs) ys = omega (arith, length-append xs ys)

module _ {ℓ} {A : Type ℓ} where
  pub find?-head : (p : A → Bool) (x : A) (xs : List A) → p x ≡ true → find? p (x ∷ xs) ≡ some x
  find?-head p x xs h = rw h

  pub find?-tail :
      (p : A → Bool) (x : A) (xs : List A) → p x ≡ false → find? p (x ∷ xs) ≡ find? p xs
  find?-tail p x xs h = rw h

  pub update-hit :
      (p : A → Bool) (f : A → A) (x : A) (xs : List A)
      → p x ≡ true
      → update p f (x ∷ xs) ≡ f x ∷ update p f xs
  update-hit p f x xs h = rw h

  pub update-miss :
      (p : A → Bool) (f : A → A) (x : A) (xs : List A)
      → p x ≡ false
      → update p f (x ∷ xs) ≡ x ∷ update p f xs
  update-miss p f x xs h = rw h

  -- Where the row that a query finds stands.
  pub find?-cons :
      (p : A → Bool) (x : A) (xs : List A) (r : A)
      → find? p (x ∷ xs) ≡ some r
      → ((p x ≡ true) × (x ≡ r)) ⊎ ((p x ≡ false) × (find? p xs ≡ some r))
  find?-cons p x xs r e = elim (Bool-cases (p x)) [
    | inl hit ↦ inl (hit, cc (find?-head p x xs hit))
    | inr miss ↦ inr (miss, cc (find?-tail p x xs miss))
  ]

  pub find?-test : (p : A → Bool) (xs : List A) (r : A) → find? p xs ≡ some r → p r ≡ true
  find?-test p [] r e = cc
  find?-test p (x ∷ xs) r e = elim (find?-cons p x xs r e) [
    | inl (hit, same) ↦ subst (λ y. p y ≡ true) same hit
    | inr (miss, later) ↦ find?-test p xs r later
  ]

  -- What holds of every row holds of the row that a query finds.
  pub find?-All {κ} :
      (P : A → Type κ) (p : A → Bool) (xs : List A) (r : A) → All P xs → find? p xs ≡ some r → P r
  find?-All P p [] r h e = cc
  find?-All P p (x ∷ xs) r h e = elim (find?-cons p x xs r e) [
    | inl (hit, same) ↦ subst P same h.0
    | inr (miss, later) ↦ find?-All P p xs r h.1 later
  ]

  -- An update that no row passes changes nothing.
  pub update-none :
      (p : A → Bool) (f : A → A) (xs : List A) → All (λ x. p x ≡ false) xs → update p f xs ≡ xs
  update-none p f [] h = refl
  update-none p f (x ∷ xs) h = rw (h.0, update-none p f xs h.1)

  pub All-map {κ μ} :
      (P : A → Type κ) (Q : A → Type μ) (xs : List A) → ((x : A) → P x → Q x) → All P xs → All Q xs
  All-map P Q [] f h = tt
  All-map P Q (x ∷ xs) f h = (f x h.0, All-map P Q xs f h.1)

  pub All-append {κ} : (P : A → Type κ) (xs ys : List A) → All P xs → All P ys → All P (xs ++ ys)
  All-append P [] ys h k = k
  All-append P (x ∷ xs) ys h k = (h.0, All-append P xs ys h.1 k)

  pub get_elem?-append :
      (xs ys : List A) (i : ℕ) (r : A) → get_elem? xs i ≡ some r → get_elem? (xs ++ ys) i ≡ some r
  get_elem?-append [] ys i r h = cc
  get_elem?-append (x ∷ xs) ys zero r h = h
  get_elem?-append (x ∷ xs) ys (suc i) r h = get_elem?-append xs ys i r h

  pub find?-append :
      (p : A → Bool) (xs ys : List A) (r : A) → find? p xs ≡ some r → find? p (xs ++ ys) ≡ some r
  find?-append p [] ys r h = cc
  find?-append p (x ∷ xs) ys r h = elim (find?-cons p x xs r h) [
    | inl (hit, same) ↦ rw hit (rw same refl)
    | inr (miss, later) ↦ rw miss (find?-append p xs ys r later)
  ]

  pub Pairwise-append {κ} :
      (R : A → A → Type κ) (xs : List A) (y : A)
      → Pairwise R xs
      → All (λ x. R x y) xs
      → Pairwise R (xs ++ y ∷ [])
  Pairwise-append R [] y h k = (tt, tt)
  Pairwise-append R (x ∷ xs) y h k =
      (All-append (R x) xs (y ∷ []) h.0 (k.0, tt), Pairwise-append R xs y h.1 k.1)
