-- ===== src/Paper/Tables.antt =====
-- The dictionary of open positions: what `put_key` and `drop_key` keep.
use mathlib.Core.Option.{some-injective}
use stock_signal.Common.{
  ap, subst, Text, true, false, none, some, List, [], ◌∷◌, ◌==◌, ◌≡◌, refl, ◌≢◌, sym, ◌∙◌, All,
  All-map, Pairwise, Bool-cases, inl, inr, arith, is_some, ◌∙◌,
}
use stock_signal.Paper.Data.{get, put_key, drop_key}

module _ {A : Type 0} where
  -- No key stands twice.
  abbrev pub HasUniqueKeys : List (Text × A) → Type 0
  HasUniqueKeys = Pairwise (λ x y. y.0 ≢ x.0)

  get-head :
      (k i : Text) (v : A) (xs : List (Text × A)) → i == k ≡ true → get k ((i, v) ∷ xs) ≡ some v
  get-head k i v xs h = rw h refl

  get-tail :
      (k i : Text) (v : A) (xs : List (Text × A)) → i == k ≡ false → get k ((i, v) ∷ xs) ≡ get k xs
  get-tail k i v xs h = rw h refl

  drop_key-head :
      (k i : Text) (v : A) (xs : List (Text × A)) → i == k ≡ true → drop_key k ((i, v) ∷ xs) ≡ xs
  drop_key-head k i v xs h = rw h refl

  drop_key-tail :
      (k i : Text) (v : A) (xs : List (Text × A))
      → i == k ≡ false
      → drop_key k ((i, v) ∷ xs) ≡ (i, v) ∷ drop_key k xs
  drop_key-tail k i v xs h = rw h refl

  pub All-put_key :
      (P : Text × A → Type 0) (k : Text) (v : A) (xs : List (Text × A))
      → P (k, v)
      → All P xs
      → All P (put_key k v xs)
  All-put_key P k v [] p h = (p, tt)
  All-put_key P k v ((i, w) ∷ xs) p h = elim (Bool-cases (i == k)) [
    | inl hit ↦ rw hit (p, h.1)
    | inr miss ↦ rw miss (h.0, All-put_key P k v xs p h.1)
  ]

  pub All-drop_key :
      (P : Text × A → Type 0) (k : Text) (xs : List (Text × A)) → All P xs → All P (drop_key k xs)
  All-drop_key P k [] h = tt
  All-drop_key P k ((i, w) ∷ xs) h = elim (Bool-cases (i == k)) [
    | inl hit ↦ rw hit h.1
    | inr miss ↦ rw miss (h.0, All-drop_key P k xs h.1)
  ]

  pub All-get :
      (P : Text × A → Type 0) (k : Text) (v : A) (xs : List (Text × A))
      → get k xs ≡ some v
      → All P xs
      → (i : Text) × (i ≡ k) × P (i, v)
  All-get P k v [] e h = cc
  All-get P k v ((i, w) ∷ xs) e h = elim (Bool-cases (i == k)) [
    | inl hit ↦ (
      i,
      ground arith,
      subst (λ u. P (i, u)) (some-injective w v (sym (get-head k i w xs hit) ∙ e)) h.0,
    )
    | inr miss ↦ All-get P k v xs (sym (get-tail k i w xs miss) ∙ e) h.1
  ]

  pub put_key-HasUniqueKeys :
      (k : Text) (v : A) (xs : List (Text × A)) → HasUniqueKeys xs → HasUniqueKeys (put_key k v xs)
  put_key-HasUniqueKeys k v [] u = (tt, tt)
  put_key-HasUniqueKeys k v ((i, w) ∷ xs) u = elim (Bool-cases (i == k)) [
    | inl hit ↦
        let e : i ≡ k = ground arith in rw hit (All-map _ _ xs (λ y ne q. ne (q ∙ sym e)) u.0, u.1)
    | inr miss ↦ rw miss (
      All-put_key (λ y. y.0 ≢ i) k v xs (λ e. ground arith) u.0,
      put_key-HasUniqueKeys k v xs u.1,
    )
  ]

  pub drop_key-HasUniqueKeys :
      (k : Text) (xs : List (Text × A)) → HasUniqueKeys xs → HasUniqueKeys (drop_key k xs)
  drop_key-HasUniqueKeys k [] u = tt
  drop_key-HasUniqueKeys k ((i, w) ∷ xs) u = elim (Bool-cases (i == k)) [
    | inl hit ↦ rw hit u.1
    | inr miss ↦ rw miss (All-drop_key (λ y. y.0 ≢ i) k xs u.0, drop_key-HasUniqueKeys k xs u.1)
  ]

  -- A key that was not there is there with its value, and can be taken away again.
  pub get-put_key : (k : Text) (v : A) (xs : List (Text × A)) → get k (put_key k v xs) ≡ some v
  get-put_key k v [] = get-head k k v [] (ground arith)
  get-put_key k v ((i, w) ∷ xs) = elim (Bool-cases (i == k)) [
    | inl hit ↦ rw hit (get-head k k v xs (ground arith))
    | inr miss ↦ rw miss (get-tail k i w (put_key k v xs) miss ∙ get-put_key k v xs)
  ]

  pub drop_key-put_key :
      (k : Text) (v : A) (xs : List (Text × A)) → get k xs ≡ none → drop_key k (put_key k v xs) ≡ xs
  drop_key-put_key k v [] e = drop_key-head k k v [] (ground arith)
  drop_key-put_key k v ((i, w) ∷ xs) e = elim (Bool-cases (i == k)) [
    | inl hit ↦ absurd (cc (get-head k i w xs hit))
    | inr miss ↦ rw miss (
        rw miss
          (ap (λ ys. (i, w) ∷ ys) (drop_key-put_key k v xs (sym (get-tail k i w xs miss) ∙ e))))
  ]

  -- What is there after a key is dropped was there before.
  pub get-drop_key :
      (j k : Text) (v : A) (xs : List (Text × A))
      → get j (drop_key k xs) ≡ some v
      → is_some (get j xs) ≡ true
  get-drop_key j k v [] e = cc
  get-drop_key j k v ((i, w) ∷ xs) e = elim (Bool-cases (i == j)) [
    | inl here ↦ rw here refl
    | inr away ↦ elim (Bool-cases (i == k)) [
      | inl hit ↦
          ap is_some (get-tail j i w xs away ∙ ap (get j) (sym (drop_key-head k i w xs hit)) ∙ e)
      | inr miss ↦
          ap is_some (get-tail j i w xs away)
          ∙ get-drop_key j k v xs (
              sym (get-tail j i w (drop_key k xs) away)
              ∙ ap (get j) (sym (drop_key-tail k i w xs miss))
              ∙ e)
    ]
  ]
