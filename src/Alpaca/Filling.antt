-- ===== src/Alpaca/Filling.antt =====
-- trades/alpaca_broker.py: a fill that is applied leaves good trades.
use stock_signal.Common.{
  ℕ, suc, ◌-◌, ◌≤◌, ◌<◌, Option, none, some, List, [], ◌∷◌, ◌==◌, ◌≡◌, refl, ◌≢◌, map, All, find?,
  any, leb, ltb, Bool-cases, inl, inr, arith, All-append, All-map, find?-All, not, find?-test,
  ==_iff, subst, sym, ◌&&◌,
}
use stock_signal.Common.Float.{Float}
use stock_signal.Common.Int.{pos, negsuc}
use stock_signal.Alpaca.Data.{
  Purpose, entry, exit, no_confirmed_price, incomplete_fill, exceeds_exposure, zero_division,
  missing_row, Reading, missing, fractional, whole, ok, Payload, OrderRow, TradeRow, Store, Report,
  is_filled, is_bracket_leg, is_trade_id,
}
use stock_signal.Alpaca.Fills.{
  Filled, fill_at, fill_for, apply_entry_fill, apply_exit_fill, exit_of, validated_fill,
  entry_values, exit_values, require, quantity_within, read_or_zero, check_fill, is_priced,
  is_entry_of, entry_trade,
}
use stock_signal.Alpaca.Reports.{fill_step}
use stock_signal.Alpaca.Keyed.{
  HasUniqueKeys-update, HasUniqueKeys-append, All-update, All-update_found,
}
use stock_signal.Alpaca.Valid.{
  IsTrade, IsValid, AreTrades, Ensures, Ensures-bind, Ensures-or, require_ok,
}

quantity_within_bounds :
    (low high : ℕ) (r : Reading) {n : ℕ}
    → quantity_within low high r ≡ ok n
    → (low ≤ n) × (n ≤ high)
quantity_within_bounds low high missing h = cc
quantity_within_bounds low high fractional h = cc
quantity_within_bounds low high (whole (pos n)) h = ground arith
quantity_within_bounds low high (whole (negsuc n)) h = cc

module _ {F : Type 0} where
  IsTrade-suc : (next : ℕ) (t : TradeRow F) → IsTrade next t → IsTrade (suc next) t
  IsTrade-suc next t v = record { known = omega arith; left = v.left; held = v.held }

  fresh :
      (next : ℕ) (trades : List (TradeRow F))
      → All (IsTrade next) trades
      → All (λ i. i ≢ next) (map (λ t. t.id) trades)
  fresh next [] h = tt
  fresh next (t ∷ ts) h = (λ e. let k = h.0.known in absurd (omega arith), fresh next ts h.1)

module _ {F : Type 0} ⦃f : Float F⦄ where
  check_fill-Ensures :
      (P : ℕ → Type 0) (row : OrderRow F) (order : Report F) (qty : ℕ)
      → P qty
      → Ensures P (check_fill row order qty)
  check_fill-Ensures P row order qty h =
      Ensures-or P (not (qty == 0) && not (is_priced order.filled_avg_price)) no_confirmed_price _
        λ _.
          Ensures-or P
            (is_filled order.state && (not (qty == row.requested_qty) && not (is_bracket_leg row)))
            incomplete_fill (ok qty) λ _. h

  pub validated_fill_within :
      (row : OrderRow F) (order : Report F)
      → Ensures
          (λ qty. (row.applied_qty ≤ qty) × (qty ≤ row.requested_qty))
          (validated_fill row order)
  unfolding validated_fill
  validated_fill_within row order =
      let reading = read_or_zero order.filled_qty in
      Ensures-bind _ (quantity_within row.applied_qty row.requested_qty reading)
        (check_fill row order)
        λ n e.
          check_fill-Ensures _ row order n
            (quantity_within_bounds row.applied_qty row.requested_qty reading e)

  exit_values-IsTrade :
      (payload : Payload F) (gross : F) (next remaining : ℕ) (t : TradeRow F)
      → remaining ≤ t.shares
      → IsTrade next t
      → IsTrade next (exit_values payload gross remaining t)
  exit_values-IsTrade payload gross next remaining t h v = elim (Bool-cases (remaining == 0)) [
    | inl gone ↦ rw gone (record { known = v.known; left = omega arith; held = λ e. cc })
    | inr more ↦ rw more (record { known = v.known; left = h; held = λ e. ground arith })
  ]

  exit_values_id :
      (payload : Payload F) (gross : F) (remaining : ℕ) (t : TradeRow F)
      → (exit_values payload gross remaining t).id ≡ t.id
  exit_values_id payload gross remaining t = ground arith

  entry_values-IsTrade :
      (qty next : ℕ) (price : F) (t : TradeRow F)
      → 0 < qty
      → IsTrade next t
      → IsTrade next (entry_values qty price t)
  entry_values-IsTrade qty next price t h v = record {
    known = v.known;
    left = omega arith;
    held = λ e. h;
  }

  -- A fill leaves good trades and the orders as they were.
  abbrev pub KeepsTables : Store F → Filled F → Type 0
  KeepsTables s x = AreTrades x.store.trades x.store.next_trade × (x.store.orders ≡ s.orders)

  entry_fill-AreTrades :
      (row : OrderRow F) (payload : Payload F) (qty : ℕ) (price : F) (id : Option ℕ) (s : Store F)
      → 0 < qty
      → IsValid s
      → Ensures (KeepsTables s) (apply_entry_fill row payload qty price id s)
  unfolding apply_entry_fill
  entry_fill-AreTrades row payload qty price none s h v =
      elim (Bool-cases (any (is_entry_of row.id) s.trades)) [
        | inl twice ↦ rw twice tt
        | inr once ↦ rw once (
          record {
            ids =
                HasUniqueKeys-append (λ t. t.id) s.trades
                  (entry_trade row payload s.next_trade qty price) v.trade_ids
                  (fresh s.next_trade s.trades v.trades);
            each =
                All-append (IsTrade (suc s.next_trade)) s.trades _
                  (All-map (IsTrade s.next_trade) (IsTrade (suc s.next_trade)) s.trades
                    (λ t g. IsTrade-suc s.next_trade t g) v.trades)
                  (record { known = omega arith; left = omega arith; held = λ e. h }, tt);
          },
          refl,
        )
      ]
  entry_fill-AreTrades row payload qty price (some id) s h v = (
    record {
      ids =
          HasUniqueKeys-update (λ t. t.id) (is_trade_id id) (entry_values qty price) s.trades
            (λ t. refl) v.trade_ids;
      each =
          All-update (IsTrade s.next_trade) (is_trade_id id) (entry_values qty price) s.trades
            (λ t g. entry_values-IsTrade qty s.next_trade price t h g) v.trades;
    },
    refl,
  )

  exit_of-AreTrades :
      (row : OrderRow F) (payload : Payload F) (qty : ℕ) (price : F) (s : Store F) (id : ℕ)
      (t : TradeRow F)
      → IsValid s
      → find? (is_trade_id id) s.trades ≡ some t
      → Ensures (KeepsTables s) (exit_of row payload qty price s t)
  exit_of-AreTrades row payload qty price s id t v e =
      let same : t.id ≡ id = (==_iff t.id id).0 (find?-test (is_trade_id id) s.trades t e) in
      let good = find?-All (IsTrade s.next_trade) (is_trade_id id) s.trades t v.trades e in
      let found = subst (λ i. find? (is_trade_id i) s.trades ≡ some t) (sym same) e in
      let remaining = t.remaining_shares - (qty - row.applied_qty) in
      Ensures-or (KeepsTables s) (ltb t.remaining_shares (qty - row.applied_qty)) exceeds_exposure _
        λ _. Ensures-or (KeepsTables s) (remaining == 0 && t.shares == 0) zero_division _ λ _. (
          record {
            ids =
                HasUniqueKeys-update (λ y. y.id) (is_trade_id t.id) _ s.trades
                  (λ y. exit_values_id payload _ remaining y) v.trade_ids;
            each =
                All-update_found (λ y. y.id) (IsTrade s.next_trade) _ t.id s.trades t v.trade_ids
                  found v.trades
                  (exit_values-IsTrade payload _ s.next_trade remaining t
                    (omega (arith, good.left)));
          },
          refl,
        )

  -- A fill that the tests let through keeps the tables good.
  fill_for-AreTrades :
      (purpose : Purpose) (row : OrderRow F) (payload : Payload F) (qty : ℕ) (price : F)
      (s : Store F)
      → 0 < qty
      → IsValid s
      → Ensures (KeepsTables s) (fill_for purpose row payload qty price s)
  unfolding apply_exit_fill
  fill_for-AreTrades entry row payload qty price s h v =
      entry_fill-AreTrades row payload qty price row.trade_id s h v
  fill_for-AreTrades exit row payload qty price s h v =
      Ensures-bind (KeepsTables s) (require row.trade_id missing_row) _ λ id e.
        Ensures-bind (KeepsTables s) (require (find? (is_trade_id id) s.trades) missing_row)
          (exit_of row payload qty price s)
          λ t found.
            exit_of-AreTrades row payload qty price s id t v
              (require_ok (find? (is_trade_id id) s.trades) missing_row found)

  pub fill_step-AreTrades :
      (row : OrderRow F) (order : Report F) (qty : ℕ) (payload : Payload F) (s : Store F)
      → IsValid s
      → Ensures (KeepsTables s) (fill_step row order qty payload s)
  fill_step-AreTrades row order qty payload s v = elim (Bool-cases (leb qty row.applied_qty)) [
    | inl old ↦ rw old (record { ids = v.trade_ids; each = v.trades }, refl)
    | inr more ↦
        rw more
          (elim order.filled_avg_price
            as (λ p. Ensures (KeepsTables s) (fill_at p row payload qty s)) [
              | none ↦ tt
              | some price ↦ fill_for-AreTrades row.purpose row payload qty price s (ground arith) v
            ])
  ]
