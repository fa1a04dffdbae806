-- ===== src/Alpaca/Taking.antt =====
-- trades/alpaca_broker.py: the reports that are taken keep the invariant of the tables.
use stock_signal.Common.{ℕ, ◌≤◌, Text, some, ◌≡◌, refl, find?}
use stock_signal.Common.Float.{Float}
use stock_signal.Alpaca.Data.{missing_row, ok, Payload, OrderRow, Store, Report, has_id}
use stock_signal.Alpaca.Fills.{Filled, validated_fill, with_leg_quantity, require}
use stock_signal.Alpaca.Reports.{apply_report, fill_step, stored}
use stock_signal.Alpaca.Keyed.{HasUniqueKeys-update, All-update_found, Follows-update_found}
use stock_signal.Alpaca.Valid.{
  IsOrder, IsValid, Ensures, Ensures-bind, require_ok, Ensures_of, Grows, Grows-refl, Later,
}
use stock_signal.Alpaca.Filling.{KeepsTables, validated_fill_within, fill_step-AreTrades}

module _ {F : Type 0} ⦃f : Float F⦄ where
  stored-Later :
      (id : Text) (order : Report F) (qty : ℕ) (payload : Payload F) (s : Store F)
      (row : OrderRow F) (x : Filled F)
      → IsValid s
      → find? (has_id id) s.orders ≡ some row
      → (row.applied_qty ≤ qty) × (qty ≤ row.requested_qty)
      → KeepsTables s x
      → Later s (stored id order qty payload x).store
  stored-Later id order qty payload s row x v found q k = rw (k.1) (record {
    valid = record {
      order_ids = HasUniqueKeys-update (λ r. r.id) (has_id id) _ s.orders (λ r. refl) v.order_ids;
      trade_ids = k.0.ids;
      orders =
          All-update_found (λ r. r.id) IsOrder _ id s.orders row v.order_ids found v.orders
            λ g. record { applied = refl; within = q.1 };
      trades = k.0.each;
    };
    grown =
        Follows-update_found Grows Grows-refl (λ r. r.id) _ id s.orders row v.order_ids found
          (record { same_id = refl; same_size = refl; no_less = q.0 });
  })

  -- Every report that is taken keeps the invariant, and no order loses a fill.
  pub apply_report-Later :
      (id : Text) (order : Report F) (s : Store F)
      → IsValid s
      → Ensures (λ x. Later s x.store) (apply_report id order s)
  unfolding apply_report
  apply_report-Later id order s v =
      let P = λ (x : Filled F). Later s x.store in
      Ensures-bind P (require (find? (has_id id) s.orders) missing_row) _ λ row e.
        let found = require_ok (find? (has_id id) s.orders) missing_row e in
        Ensures-bind P (validated_fill row order) _ λ qty valid.
          Ensures-bind P (with_leg_quantity row order qty) _ λ payload taken.
            Ensures-bind P (fill_step row order qty payload s)
              (λ x. ok (stored id order qty payload x))
              λ x filled.
                stored-Later id order qty payload s row x v found
                  (Ensures_of _ (validated_fill row order) qty (validated_fill_within row order)
                    valid)
                  (Ensures_of (KeepsTables s) (fill_step row order qty payload s) x
                    (fill_step-AreTrades row order qty payload s v) filled)
