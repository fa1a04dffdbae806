-- ===== src/Alpaca/Settling.antt =====
-- trades/alpaca_broker.py: what a fill does to the shares of a trade and to the exits from it.
use stock_signal.Common.{
  ℕ, ◌+◌, ◌-◌, ◌≤◌, ◌<◌, Option, none, some, ◌==◌, ◌≡◌, refl, subst, ◌⊎◌, All, find?, any, leb, ltb,
  Bool-cases, inl, inr, arith, ◌&&◌,
}
use stock_signal.Common.Float.{Float}
use stock_signal.Alpaca.Data.{
  Purpose, entry, exit, exceeds_exposure, zero_division, missing_row, integrity_error, Payload,
  OrderRow, TradeRow, Store, Report, is_trade_id,
}
use stock_signal.Alpaca.Fills.{
  Filled, fill_at, fill_for, apply_entry_fill, apply_exit_fill, exit_of, require, is_entry_of,
}
use stock_signal.Alpaca.Reports.{fill_step}
use stock_signal.Alpaca.Valid.{IsValid, Ensures, Ensures-bind, Ensures-or, require_ok}
use stock_signal.Alpaca.Exposure.{
  weight_of, exits_of, IsEven, HasKnown, Settles, All-IsEven, entry_fill-Settles, exit_of-Settles,
}

module _ {F : Type 0} where
  -- Each order's trade is known, and each trade is even: what is left of it and what exit orders
  -- took are its shares.
  pub record IsBalanced (s : Store F) : Type 0 where
    pub known : All (HasKnown s.next_trade) s.orders
    pub even : All (IsEven (λ t. exits_of t s.orders)) s.trades

  abbrev pub HasKnownTrade : Store F → Filled F → Type 0
  HasKnownTrade s x =
      (s.next_trade ≤ x.store.next_trade) × ((t : ℕ) → x.trade_id ≡ some t → t < x.store.next_trade)

module _ {F : Type 0} ⦃f : Float F⦄ where
  fill_for-Settles :
      (p : Purpose) (row : OrderRow F) (payload : Payload F) (qty : ℕ) (price : F) (s : Store F)
      → (p ≡ entry → (t : ℕ) → row.trade_id ≡ some t → exits_of t s.orders ≡ 0)
      → row.applied_qty ≤ qty
      → IsValid s
      → IsBalanced s
      → Ensures (Settles p row.trade_id row.applied_qty qty s) (fill_for p row payload qty price s)
  unfolding apply_exit_fill
  fill_for-Settles entry row payload qty price s first more v b =
      entry_fill-Settles row payload qty price row.trade_id row.trade_id row.applied_qty s
        (first refl) b.known b.even
  fill_for-Settles exit row payload qty price s first more v b =
      let P = Settles exit row.trade_id row.applied_qty qty s in
      Ensures-bind P (require row.trade_id missing_row) _ λ id e.
        Ensures-bind P (require (find? (is_trade_id id) s.trades) missing_row)
          (exit_of row payload qty price s)
          λ t found.
            exit_of-Settles row payload qty price s id t (require_ok row.trade_id missing_row e)
              more v (require_ok (find? (is_trade_id id) s.trades) missing_row found) b.even

  pub fill_step-Settles :
      (row : OrderRow F) (order : Report F) (qty : ℕ) (payload : Payload F) (s : Store F)
      → (row.purpose ≡ entry
          → (t : ℕ) → row.trade_id ≡ some t
          → (exits_of t s.orders ≡ 0) ⊎ (qty ≡ row.applied_qty))
      → row.applied_qty ≤ qty
      → IsValid s
      → IsBalanced s
      → Ensures
          (Settles row.purpose row.trade_id row.applied_qty qty s)
          (fill_step row order qty payload s)
  fill_step-Settles row order qty payload s first more v b =
      let P = Settles row.purpose row.trade_id row.applied_qty qty s in
      elim (Bool-cases (leb qty row.applied_qty)) [
        | inl old ↦
            let same : qty ≡ row.applied_qty = ground arith in
            rw old (λ after shift.
              All-IsEven (λ t. exits_of t s.orders) after s.trades
                (λ t.
                  let k =
                    subst
                      (λ q.
                        after t + weight_of row.purpose row.trade_id row.applied_qty t
                        ≡ exits_of t s.orders + weight_of row.purpose row.trade_id q t)
                      same (shift t) in
                  omega arith)
                b.even)
        | inr new ↦
            rw new (elim order.filled_avg_price as (λ p. Ensures P (fill_at p row payload qty s)) [
              | none ↦ tt
              | some price ↦
                  fill_for-Settles row.purpose row payload qty price s
                    (λ p t e. elim (first p t e) [
                      | inl none_yet ↦ none_yet
                      | inr same ↦ absurd (ground arith)
                    ])
                    more v b
            ])
      ]

  exit_of-HasKnownTrade :
      (row : OrderRow F) (payload : Payload F) (qty : ℕ) (price : F) (s : Store F) (t : TradeRow F)
      → HasKnown s.next_trade row
      → Ensures (HasKnownTrade s) (exit_of row payload qty price s t)
  exit_of-HasKnownTrade row payload qty price s t known =
      Ensures-or (HasKnownTrade s) (ltb t.remaining_shares (qty - row.applied_qty)) exceeds_exposure
        _
        λ _.
          Ensures-or (HasKnownTrade s)
            (t.remaining_shares - (qty - row.applied_qty) == 0 && t.shares == 0) zero_division _
            λ _. (omega arith, known)

  entry_fill-HasKnownTrade :
      (row : OrderRow F) (payload : Payload F) (qty : ℕ) (price : F) (id : Option ℕ) (s : Store F)
      → ((t : ℕ) → id ≡ some t → t < s.next_trade)
      → Ensures (HasKnownTrade s) (apply_entry_fill row payload qty price id s)
  unfolding apply_entry_fill
  entry_fill-HasKnownTrade row payload qty price none s known =
      Ensures-or (HasKnownTrade s) (any (is_entry_of row.id) s.trades) integrity_error _
        λ _. (omega arith, λ t e. ground arith)
  entry_fill-HasKnownTrade row payload qty price (some id) s known = (omega arith, known)

  fill_for-HasKnownTrade :
      (p : Purpose) (row : OrderRow F) (payload : Payload F) (qty : ℕ) (price : F) (s : Store F)
      → HasKnown s.next_trade row
      → Ensures (HasKnownTrade s) (fill_for p row payload qty price s)
  unfolding apply_exit_fill
  fill_for-HasKnownTrade entry row payload qty price s known =
      entry_fill-HasKnownTrade row payload qty price row.trade_id s known
  fill_for-HasKnownTrade exit row payload qty price s known =
      Ensures-bind (HasKnownTrade s) (require row.trade_id missing_row) _ λ id e.
        Ensures-bind (HasKnownTrade s) (require (find? (is_trade_id id) s.trades) missing_row)
          (exit_of row payload qty price s)
          λ t found. exit_of-HasKnownTrade row payload qty price s t known

  pub fill_step-HasKnownTrade :
      (row : OrderRow F) (order : Report F) (qty : ℕ) (payload : Payload F) (s : Store F)
      → HasKnown s.next_trade row
      → Ensures (HasKnownTrade s) (fill_step row order qty payload s)
  fill_step-HasKnownTrade row order qty payload s known =
      elim (Bool-cases (leb qty row.applied_qty)) [
        | inl old ↦ rw old (omega arith, known)
        | inr new ↦
            rw new
              (elim order.filled_avg_price
                as (λ p. Ensures (HasKnownTrade s) (fill_at p row payload qty s)) [
                  | none ↦ tt
                  | some price ↦ fill_for-HasKnownTrade row.purpose row payload qty price s known
                ])
      ]
