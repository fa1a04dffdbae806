-- ===== src/Alpaca/Keyed.antt =====
-- Tables with a unique key, as the proofs about trades/alpaca_broker.py use them.
use mathlib.Core.List
use stock_signal.Common.{
  ℕ, Bool, false, some, List, [], ◌∷◌, ◌++◌, ◌==◌, ◌≡◌, refl, ◌≢◌, sym, subst, All, Pairwise, find?,
  any, update, find?-cons, update-none, Pairwise-append, Bool-cases, inl, inr, arith, map, ◌+◌,
}

module _ {ℓ} {A : Type ℓ} where
  pub All-update {κ} :
      (P : A → Type κ) (p : A → Bool) (f : A → A) (xs : List A)
      → ((x : A) → P x → P (f x))
      → All P xs
      → All P (update p f xs)
  All-update P p f [] k h = tt
  All-update P p f (x ∷ xs) k h = elim (Bool-cases (p x)) [
    | inl hit ↦ rw hit (k x h.0, All-update P p f xs k h.1)
    | inr miss ↦ rw miss (h.0, All-update P p f xs k h.1)
  ]

module _ {ℓ} {A : Type ℓ} (key : A → ℕ) where
  -- No key stands twice.
  abbrev pub HasUniqueKeys : List A → Type 0
  HasUniqueKeys xs = Pairwise (λ i j. i ≢ j) (map key xs)

  pub keys-update :
      (p : A → Bool) (f : A → A) (xs : List A)
      → ((x : A) → key (f x) ≡ key x)
      → map key (update p f xs) ≡ map key xs
  keys-update p f [] k = refl
  keys-update p f (x ∷ xs) k = elim (Bool-cases (p x)) [
    | inl hit ↦ rw (hit, k x, keys-update p f xs k) refl
    | inr miss ↦ rw (miss, keys-update p f xs k) refl
  ]

  pub HasUniqueKeys-update :
      (p : A → Bool) (f : A → A) (xs : List A)
      → ((x : A) → key (f x) ≡ key x)
      → HasUniqueKeys xs
      → HasUniqueKeys (update p f xs)
  HasUniqueKeys-update p f xs k h = rw (keys-update p f xs k) h

  pub misses :
      (k : ℕ) (xs : List A) → All (λ j. k ≢ j) (map key xs) → All (λ x. key x == k ≡ false) xs
  misses k [] h = tt
  misses k (x ∷ xs) h = (ground (arith, h.0), misses k xs h.1)

  pub absent :
      (k : ℕ) (xs : List A) → any (λ x. key x == k) xs ≡ false → All (λ i. i ≢ k) (map key xs)
  absent k [] h = tt
  absent k (x ∷ xs) h = elim (Bool-cases (key x == k)) [
    | inl hit ↦ cc (h, hit)
    | inr miss ↦ (ground arith, absent k xs (rw miss at h))
  ]

  pub HasUniqueKeys-append :
      (xs : List A) (y : A)
      → HasUniqueKeys xs
      → All (λ i. i ≢ key y) (map key xs)
      → HasUniqueKeys (xs ++ y ∷ [])
  HasUniqueKeys-append xs y h k =
      rw (List.map-append key xs (y ∷ [])) (Pairwise-append (λ i j. i ≢ j) (map key xs) (key y) h k)

  -- An update of the row that a query by its key found.
  pub All-update_found {κ} :
      (P : A → Type κ) (f : A → A) (k : ℕ) (xs : List A) (r : A)
      → HasUniqueKeys xs
      → find? (λ x. key x == k) xs ≡ some r
      → All P xs
      → (P r → P (f r))
      → All P (update (λ x. key x == k) f xs)
  All-update_found P f k [] r u e h g = tt
  All-update_found P f k (x ∷ xs) r u e h g = elim (find?-cons (λ y. key y == k) x xs r e) [
    | inl (hit, same) ↦
        let is_k : key x ≡ k = ground arith in
        let others =
          update-none (λ y. key y == k) f xs
            (misses k xs (subst (λ j. All (λ i. j ≢ i) (map key xs)) is_k u.0)) in
        rw hit (subst (λ y. P (f y)) (sym same) (g (subst P same h.0)), rw others h.1)
    | inr (miss, later) ↦ rw miss (h.0, All-update_found P f k xs r u.1 later h.1 g)
  ]

-- The rows of the second table begin with the successors of the first one's.
abbrev pub Follows {ℓ} : {A : Type ℓ} → (A → A → Type 0) → List A → List A → Type 0
Follows R [] ys = Unit {0}
Follows R (x ∷ xs) [] = ⊥
Follows R (x ∷ xs) (y ∷ ys) = R x y × Follows R xs ys

module _ {A : Type 0} (R : A → A → Type 0) where
  pub Follows-append : (xs ys zs : List A) → Follows R xs ys → Follows R xs (ys ++ zs)
  Follows-append [] ys zs h = tt
  Follows-append (x ∷ xs) [] zs h = absurd h
  Follows-append (x ∷ xs) (y ∷ ys) zs h = (h.0, Follows-append xs ys zs h.1)

  pub Follows-trans :
      ((x y z : A) → R x y → R y z → R x z)
      → (xs ys zs : List A) → Follows R xs ys
      → Follows R ys zs
      → Follows R xs zs
  Follows-trans t [] ys zs h k = tt
  Follows-trans t (x ∷ xs) [] zs h k = absurd h
  Follows-trans t (x ∷ xs) (y ∷ ys) [] h k = absurd k
  Follows-trans t (x ∷ xs) (y ∷ ys) (z ∷ zs) h k =
      (t x y z h.0 k.0, Follows-trans t xs ys zs h.1 k.1)

  module _ (same : (x : A) → R x x) where
    pub Follows-refl : (xs : List A) → Follows R xs xs
    Follows-refl [] = tt
    Follows-refl (x ∷ xs) = (same x, Follows-refl xs)

    pub Follows-update :
        (p : A → Bool) (f : A → A) (xs : List A)
        → ((x : A) → R x (f x))
        → Follows R xs (update p f xs)
    Follows-update p f [] k = tt
    Follows-update p f (x ∷ xs) k = elim (Bool-cases (p x)) [
      | inl hit ↦ rw hit (k x, Follows-update p f xs k)
      | inr miss ↦ rw miss (same x, Follows-update p f xs k)
    ]

    pub Follows-update_found :
        (key : A → ℕ) (f : A → A) (k : ℕ) (xs : List A) (r : A)
        → HasUniqueKeys key xs
        → find? (λ x. key x == k) xs ≡ some r
        → R r (f r)
        → Follows R xs (update (λ x. key x == k) f xs)
    Follows-update_found key f k [] r u e g = tt
    Follows-update_found key f k (x ∷ xs) r u e g = elim (find?-cons (λ y. key y == k) x xs r e) [
      | inl (hit, at) ↦
          let is_k : key x ≡ k = ground arith in
          let others =
            update-none (λ y. key y == k) f xs
              (misses key k xs (subst (λ j. All (λ i. j ≢ i) (map key xs)) is_k u.0)) in
          rw hit (subst (λ y. R y (f y)) (sym at) g, rw others (Follows-refl xs))
      | inr (miss, later) ↦ rw miss (same x, Follows-update_found key f k xs r u.1 later g)
    ]

-- A sum over a table, and what the update of one row does to it.
unfoldable pub sum_by {ℓ} : {A : Type ℓ} → (A → ℕ) → List A → ℕ
sum_by w [] = 0
sum_by w (x ∷ xs) = w x + sum_by w xs

module _ {ℓ} {A : Type ℓ} (key : A → ℕ) where
  pub sum_by-update_found :
      (w : A → ℕ) (f : A → A) (k : ℕ) (xs : List A) (r : A)
      → HasUniqueKeys key xs
      → find? (λ x. key x == k) xs ≡ some r
      → sum_by w (update (λ x. key x == k) f xs) + w r ≡ sum_by w xs + w (f r)
  unfolding sum_by
  sum_by-update_found w f k [] r u e = cc
  sum_by-update_found w f k (x ∷ xs) r u e = elim (find?-cons (λ y. key y == k) x xs r e) [
    | inl (hit, same) ↦
        let is_k : key x ≡ k = ground arith in
        let others =
          update-none (λ y. key y == k) f xs
            (misses key k xs (subst (λ j. All (λ i. j ≢ i) (map key xs)) is_k u.0)) in
        rw hit (
          rw others (
            subst (λ y. w (f x) + sum_by w xs + w y ≡ w x + sum_by w xs + w (f y)) same
              (omega arith)))
    | inr (miss, later) ↦ rw miss (omega (arith, sum_by-update_found w f k xs r u.1 later))
  ]

  All-apart {κ} :
      (P Q : A → Type κ) (k : ℕ) (xs : List A)
      → All (λ j. k ≢ j) (map key xs)
      → ((x : A) → key x ≢ k → P x → Q x)
      → All P xs
      → All Q xs
  All-apart P Q k [] far g h = tt
  All-apart P Q k (x ∷ xs) far g h = (g x (λ e. far.0 (sym e)) h.0, All-apart P Q k xs far.1 g h.1)

  -- The found row changes in one way, and what is asked of the others in another.
  pub All-update_apart {κ} :
      (P Q : A → Type κ) (f : A → A) (k : ℕ) (xs : List A) (r : A)
      → HasUniqueKeys key xs
      → find? (λ x. key x == k) xs ≡ some r
      → ((x : A) → key x ≢ k → P x → Q x)
      → (P r → Q (f r))
      → All P xs
      → All Q (update (λ x. key x == k) f xs)
  All-update_apart P Q f k [] r u e g c h = cc
  All-update_apart P Q f k (x ∷ xs) r u e g c h = elim (find?-cons (λ y. key y == k) x xs r e) [
    | inl (hit, same) ↦
        let is_k : key x ≡ k = ground arith in
        let far = subst (λ j. All (λ i. j ≢ i) (map key xs)) is_k u.0 in
        let others = update-none (λ y. key y == k) f xs (misses key k xs far) in
        rw hit (
          subst (λ y. Q (f y)) (sym same) (c (subst P same h.0)),
          rw others (All-apart P Q k xs far g h.1),
        )
    | inr (miss, later) ↦
        rw miss (g x (ground arith) h.0, All-update_apart P Q f k xs r u.1 later g c h.1)
  ]
