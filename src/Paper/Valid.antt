-- ===== src/Paper/Valid.antt =====
-- trades/executor.py: what holds of a broker after every history of calls.
use stock_signal.Common.{
  ℕ, ◌≤◌, ◌≡◌, refl, ◌≢◌, sym, ◌∙◌, ap, subst, Text, true, false, not, ◌&&◌, Option, none, some,
  List, [], ◌∷◌, ◌++◌, ltb, All, Bool-cases, inl, inr, arith, ◌⊎◌,
}
use stock_signal.Common.Float.{Float}
use stock_signal.Common.Int.{ℤ, pos, negsuc}
use stock_signal.Paper.Data.{
  Candidate, Position, Trade, Account, cash, receivables, distribution_payables, borrow_payables,
  refund_receivables, repayment_liabilities, Balances, Broker, is_text, balance, set_balance,
  is_cash, put_key,
}
use stock_signal.Paper.Overlay.{tolerance, restore_values}
use stock_signal.Paper.Broker.{
  Exit, is_ordered, is_admissible, affordable, position_of, opened, open_position, settle, close_at,
  is_price,
}
use stock_signal.Paper.Tables.{
  HasUniqueKeys, All-put_key, All-drop_key, put_key-HasUniqueKeys, drop_key-HasUniqueKeys,
}

module _ {F : Type 0} ⦃f : Float F⦄ where
  open f use {literal, lt, add, sub}

  -- The capital that a list of closed trades leaves of a starting capital.
  unfoldable pub capital_after : F → List (Trade F) → F
  capital_after c [] = c
  capital_after c (t ∷ ts) = capital_after (add c t.pnl) ts

  -- A position stands under its ticker, holds a share at least, all of them, and has its entry
  -- between its levels.
  pub record IsHeld (x : Text × Position F) : Type 0 where
    pub key : x.0 ≡ x.1.ticker
    pub shares : 1 ≤ x.1.shares
    pub whole : x.1.remaining_shares ≡ x.1.shares
    pub ordered : is_ordered x.1.direction x.1.stop x.1.entry x.1.target ≡ true

  -- No account but cash is below zero by more than the tolerance.
  abbrev pub IsSolvent : Balances F → Type 0
  IsSolvent b = (a : Account) → is_cash a ≡ false → lt (balance a b) tolerance ≡ false

  pub record IsValid (start : F) (b : Broker F) : Type 0 where
    pub ledger : capital_after start b.closed_trades ≡ b.capital
    pub keys : HasUniqueKeys b.open_positions
    pub held : All IsHeld b.open_positions
    pub frozen : b.accounting_unavailable ≢ 0 → is_text b.blocked ≡ true
    pub solvent : IsSolvent b.balances

  capital_after-append :
      (c : F) (ts : List (Trade F)) (t : Trade F)
      → capital_after c (ts ++ t ∷ []) ≡ add (capital_after c ts) t.pnl
  unfolding capital_after
  capital_after-append c [] t = refl
  capital_after-append c (s ∷ ts) t = capital_after-append (add c s.pnl) ts t

  pub set_balance-IsSolvent :
      (a : Account) (v : F) (b : Balances F)
      → (is_cash a ≡ false → lt v tolerance ≡ false)
      → IsSolvent b
      → IsSolvent (set_balance a v b)
  set_balance-IsSolvent cash v b h s cash k = absurd (cc k)
  set_balance-IsSolvent cash v b h s receivables k = s receivables k
  set_balance-IsSolvent cash v b h s distribution_payables k = s distribution_payables k
  set_balance-IsSolvent cash v b h s borrow_payables k = s borrow_payables k
  set_balance-IsSolvent cash v b h s refund_receivables k = s refund_receivables k
  set_balance-IsSolvent cash v b h s repayment_liabilities k = s repayment_liabilities k
  set_balance-IsSolvent _ v b h s c k = ground (arith, h refl, s c k)

  pub restore_values-IsSolvent :
      (xs : List (Account × F)) (b : Balances F) → IsSolvent b → IsSolvent (restore_values xs b).1
  unfolding restore_values
  restore_values-IsSolvent [] b s = s
  restore_values-IsSolvent ((a, v) ∷ rest) b s =
      elim (Bool-cases (not (is_cash a) && lt v tolerance)) [
        | inl refused ↦ rw refused s
        | inr accepted ↦ rw accepted (
            restore_values-IsSolvent rest (set_balance a v b)
              (set_balance-IsSolvent a v b (λ k. ground arith) s))
      ]

  -- What `open_position` does: nothing, or a position of at least one share for a signal that
  -- passed the guards.
  abbrev pub Opens : Candidate F → ℕ → Option ℕ → Broker F → Option (Position F) × Broker F → Type 0
  Opens s bar id b p =
      (p ≡ (none, b))
      ⊎ ((n : ℕ) × (1 ≤ n)
          × (is_admissible s b ≡ true)
          × (p ≡ (
            some (position_of s bar id n b),
            record b {
              open_positions = put_key s.ticker (position_of s bar id n b) b.open_positions;
            },
          )))

  opened-Opens :
      (s : Candidate F) (bar : ℕ) (id : Option ℕ) (b : Broker F) (z : ℤ)
      → is_admissible s b ≡ true
      → Opens s bar id b (opened s bar id z b)
  opened-Opens s bar id b (negsuc n) g = inl refl
  opened-Opens s bar id b (pos n) g = elim (Bool-cases (ltb n 1)) [
    | inl few ↦ inl (rw few refl)
    | inr many ↦ inr (n, ground arith, g, rw many refl)
  ]

  open_position_admitted :
      (s : Candidate F) (bar : ℕ) (id : Option ℕ) (b : Broker F)
      → is_admissible s b ≡ true
      → open_position s bar id b ≡ opened s bar id (affordable s b) b
  unfolding open_position
  open_position_admitted s bar id b g = rw g refl

  open_position_refused :
      (s : Candidate F) (bar : ℕ) (id : Option ℕ) (b : Broker F)
      → is_admissible s b ≡ false
      → open_position s bar id b ≡ (none, b)
  unfolding open_position
  open_position_refused s bar id b g = rw g refl

  pub open_position-Opens :
      (s : Candidate F) (bar : ℕ) (id : Option ℕ) (b : Broker F)
      → Opens s bar id b (open_position s bar id b)
  open_position-Opens s bar id b = elim (Bool-cases (is_admissible s b)) [
    | inl good ↦
        subst (Opens s bar id b) (sym (open_position_admitted s bar id b good))
          (opened-Opens s bar id b (affordable s b) good)
    | inr bad ↦ inl (open_position_refused s bar id b bad)
  ]

  pub position_of-IsHeld :
      (s : Candidate F) (bar : ℕ) (id : Option ℕ) (n : ℕ) (b : Broker F)
      → 1 ≤ n
      → is_admissible s b ≡ true
      → IsHeld (s.ticker, position_of s bar id n b)
  position_of-IsHeld s bar id n b h g = record {
    key = refl;
    shares = h;
    whole = refl;
    ordered = ground arith;
  }

  pub open_position-IsValid :
      (start : F) (s : Candidate F) (bar : ℕ) (id : Option ℕ) (b : Broker F)
      → IsValid start b
      → IsValid start (open_position s bar id b).1
  open_position-IsValid start s bar id b v = elim (open_position-Opens s bar id b) [
    | inl e ↦ rw e v
    | inr (n, h, g, e) ↦ rw e (record {
      ledger = v.ledger;
      keys = put_key-HasUniqueKeys s.ticker _ b.open_positions v.keys;
      held =
          All-put_key IsHeld s.ticker _ b.open_positions (position_of-IsHeld s bar id n b h g)
            v.held;
      frozen = v.frozen;
      solvent = v.solvent;
    })
  ]

  module _ (lower : Text → Text) (seconds_between : Text → Text → F) where
    settle-IsValid :
        (start : F) (ticker : Text) (t : Trade F) (b : Broker F)
        → IsValid start b
        → IsValid start (settle ticker t b)
    settle-IsValid start ticker t b v = record {
      ledger = capital_after-append start b.closed_trades t ∙ ap (λ c. add c t.pnl) v.ledger;
      keys = drop_key-HasUniqueKeys ticker b.open_positions v.keys;
      held = All-drop_key IsHeld ticker b.open_positions v.held;
      frozen = v.frozen;
      solvent = v.solvent;
    }

    pub close_at-IsValid :
        (start : F) (ticker : Text) (price : F) (x : Exit) (o : Option (Position F)) (b : Broker F)
        → IsValid start b
        → IsValid start (close_at lower seconds_between ticker price x o b).1
    close_at-IsValid start ticker price x none b v = v
    close_at-IsValid start ticker price x (some p) b v = elim (Bool-cases (is_price price)) [
      | inl good ↦ rw good (settle-IsValid start ticker _ b v)
      | inr bad ↦ rw bad v
    ]
