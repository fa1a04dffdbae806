-- ===== src/Alpaca/Balance.antt =====
-- trades/alpaca_broker.py: reports in the order that the broker keeps leave every trade even.
use stock_signal.Common.{
  ℕ, Text, some, List, [], ◌∷◌, ◌≡◌, ◌⊎◌, All-map, find?, find?-All, update, inl, inr, arith,
}
use stock_signal.Common.Float.{Float}
use stock_signal.Alpaca.Data.{
  entry, missing_row, Result, ok, err, Payload, OrderRow, Store, Report, has_id,
}
use stock_signal.Alpaca.Fills.{Filled, validated_fill, require, with_leg_quantity}
use stock_signal.Alpaca.Reports.{fill_step, stored, order_after, apply_report}
use stock_signal.Alpaca.Calls.{after_taking, take_reports}
use stock_signal.Alpaca.Keyed.{sum_by-update_found, All-update_found}
use stock_signal.Alpaca.Valid.{
  IsValid, Ensures, Ensures-bind, Ensures_of, require_ok, Later, Ensures-map,
}
use stock_signal.Alpaca.Filling.{KeepsTables, validated_fill_within, fill_step-AreTrades}
use stock_signal.Alpaca.Taking.{apply_report-Later}
use stock_signal.Alpaca.Exposure.{exit_weight, exits_of, HasKnown, Settles}
use stock_signal.Alpaca.Settling.{
  IsBalanced, HasKnownTrade, fill_step-Settles, fill_step-HasKnownTrade,
}

module _ {F : Type 0} ⦃f : Float F⦄ where
  first_or :
      (row : OrderRow F) (order : Report F) (qty : ℕ) {A : Type 0}
      → validated_fill row order ≡ ok qty
      → A ⊎ (validated_fill row order ≡ ok row.applied_qty)
      → A ⊎ (qty ≡ row.applied_qty)
  first_or row order qty e (inl a) = inl a
  first_or row order qty e (inr h) = inr cc

  taken_lem :
      (P : Store F → Type 0) (s : Store F) (r : Result (Filled F))
      → P s
      → Ensures (λ x. P x.store) r
      → P (after_taking s r)
  taken_lem P s (ok x) h k = k
  taken_lem P s (err e) h k = h

  stored-IsBalanced :
      (id : Text) (order : Report F) (qty : ℕ) (payload : Payload F) (s : Store F)
      (row : OrderRow F) (x : Filled F)
      → IsValid s
      → IsBalanced s
      → find? (has_id id) s.orders ≡ some row
      → x.store.orders ≡ s.orders
      → Settles row.purpose row.trade_id row.applied_qty qty s x
      → HasKnownTrade s x
      → IsBalanced (stored id order qty payload x).store
  stored-IsBalanced id order qty payload s row x v b found same settles known =
      let change = order_after order qty payload x.trade_id in
      let grown =
        All-map (HasKnown s.next_trade) (HasKnown x.store.next_trade) s.orders
          (λ r h t e. let k = h t e in let m = known.0 in omega arith) b.known in
      rw same (record {
        known =
            All-update_found (λ r. r.id) (HasKnown x.store.next_trade) change id s.orders row
              v.order_ids found grown (λ _. known.1);
        even =
            settles (λ t. exits_of t (update (has_id id) change s.orders))
              λ t.
                sum_by-update_found (λ r. r.id) (exit_weight t) change id s.orders row v.order_ids
                  found;
      })

  -- What the broker promises of a bracket: its legs become active once its entry is complete. So no
  -- exit was taken from the trade of an entry whose report brings a new fill.
  unfoldable pub IsFirst : Text → Report F → Store F → Type 0
  IsFirst id order s =
      (row : OrderRow F) (t : ℕ)
      → find? (has_id id) s.orders ≡ some row
      → row.purpose ≡ entry
      → row.trade_id ≡ some t
      → (exits_of t s.orders ≡ 0) ⊎ (validated_fill row order ≡ ok row.applied_qty)

  apply_report-IsBalanced :
      (id : Text) (order : Report F) (s : Store F)
      → IsValid s
      → IsBalanced s
      → IsFirst id order s
      → Ensures (λ x. IsBalanced x.store) (apply_report id order s)
  unfolding apply_report IsFirst
  apply_report-IsBalanced id order s v b first =
      let P = λ (x : Filled F). IsBalanced x.store in
      Ensures-bind P (require (find? (has_id id) s.orders) missing_row) _ λ row e.
        let found = require_ok (find? (has_id id) s.orders) missing_row e in
        let known = find?-All (HasKnown s.next_trade) (has_id id) s.orders row b.known found in
        Ensures-bind P (validated_fill row order) _ λ qty valid.
          let bounds =
            Ensures_of _ (validated_fill row order) qty (validated_fill_within row order) valid in
          Ensures-bind P (with_leg_quantity row order qty) _ λ payload taken.
            let step = fill_step row order qty payload s in
            let settles =
              fill_step-Settles row order qty payload s
                (λ p t i. first_or row order qty valid (first row t found p i)) bounds.0 v b in
            Ensures-bind P step (λ x. ok (stored id order qty payload x))
              λ x filled.
                stored-IsBalanced id order qty payload s row x v b found
                  (Ensures_of (KeepsTables s) step x (fill_step-AreTrades row order qty payload s v)
                    filled).1
                  (Ensures_of (Settles row.purpose row.trade_id row.applied_qty qty s) step x
                    settles filled)
                  (Ensures_of (HasKnownTrade s) step x
                    (fill_step-HasKnownTrade row order qty payload s known) filled)

  -- Every report of the list comes in that order.
  unfoldable pub AreFirst : List (Text × Report F) → Store F → Type 0
  AreFirst [] s = Unit {0}
  AreFirst ((id, order) ∷ rest) s =
      IsFirst id order s × AreFirst rest (after_taking s (apply_report id order s))

  -- From well-formed tables where each trade is even, reports of fills that come in the broker's
  -- order, repeated, refused and partial ones among them, lead to tables where each trade is even:
  -- the shares that are left of it and those that exit orders took are its shares.
  pub take_reports-IsBalanced :
      (reports : List (Text × Report F)) (s : Store F)
      → IsValid s
      → IsBalanced s
      → AreFirst reports s
      → IsBalanced (take_reports reports s)
  unfolding take_reports AreFirst
  take_reports-IsBalanced [] s v b h = b
  take_reports-IsBalanced ((id, order) ∷ rest) s v b h =
      let after = after_taking s (apply_report id order s) in
      take_reports-IsBalanced rest after
        (taken_lem IsValid s (apply_report id order s) v (
          Ensures-map (λ x. Later s x.store) (λ x. IsValid x.store) (apply_report id order s)
            (λ x l. l.valid) (apply_report-Later id order s v)))
        (taken_lem IsBalanced s (apply_report id order s) b
          (apply_report-IsBalanced id order s v b h.0))
        h.1
