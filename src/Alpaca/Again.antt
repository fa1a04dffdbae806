-- ===== src/Alpaca/Again.antt =====
-- trades/alpaca_broker.py: a report that comes a second time.
use stock_signal.Common.{
  ℕ, Text, Bool, true, Option, none, some, List, [], ◌∷◌, ◌≡◌, refl, sym, ◌∙◌, ap, subst, find?,
  find?-cons, update, leb, Bool-cases, inl, inr, arith,
}
use stock_signal.Common.Float.{Float}
use stock_signal.Common.Int.{pos, negsuc}
use stock_signal.Alpaca.Data.{
  Result, ok, err, missing_row, Reading, missing, fractional, whole, Payload, OrderRow, Store,
  Report, has_id, is_bracket_leg,
}
use stock_signal.Alpaca.Fills.{
  Filled, validated_fill, with_leg_quantity, leg_quantity, quantity_within, read_or_zero,
  check_fill, require, ◌>>=◌,
}
use stock_signal.Alpaca.Reports.{apply_report, fill_step, order_after, stored}
use stock_signal.Alpaca.Valid.{IsValid, Ensures, Ensures-bind, require_ok, Ensures_of}
use stock_signal.Alpaca.Filling.{KeepsTables, fill_step-AreTrades}

bind_ok :
    {A B : Type 0} (m : Result A) (k : A → Result B) (b : B)
    → (m >>= k) ≡ ok b
    → (a : A) × (m ≡ ok a) × (k a ≡ ok b)
bind_ok (ok a) k b h = (a, refl, h)
bind_ok (err e) k b h = cc

-- A quantity that is taken is a whole one, and is taken from itself on.
quantity_again :
    (low high n : ℕ) (r : Reading)
    → quantity_within low high r ≡ ok n
    → quantity_within n high r ≡ ok n
quantity_again low high n missing h = cc
quantity_again low high n fractional h = cc
quantity_again low high n (whole (pos m)) h = ground arith
quantity_again low high n (whole (negsuc m)) h = cc

module _ {A : Type 0} where
  update_again :
      (p : A → Bool) (f : A → A) (xs : List A)
      → ((x : A) → p (f x) ≡ p x)
      → ((x : A) → f (f x) ≡ f x)
      → update p f (update p f xs) ≡ update p f xs
  update_again p f [] k i = refl
  update_again p f (x ∷ xs) k i = elim (Bool-cases (p x)) [
    | inl hit ↦ rw (hit, k x, hit, i x, update_again p f xs k i) refl
    | inr miss ↦ rw (miss, miss, update_again p f xs k i) refl
  ]

  find?-update :
      (p : A → Bool) (f : A → A) (xs : List A) (r : A)
      → ((x : A) → p (f x) ≡ p x)
      → find? p xs ≡ some r
      → find? p (update p f xs) ≡ some (f r)
  find?-update p f [] r k e = cc
  find?-update p f (x ∷ xs) r k e = elim (find?-cons p x xs r e) [
    | inl (hit, same) ↦ rw (hit, k x, hit) (ap (λ y. some (f y)) same)
    | inr (miss, later) ↦ rw (miss, miss) (find?-update p f xs r k later)
  ]

module _ {F : Type 0} ⦃f : Float F⦄ where
  -- What is left of a report in the row of its order.
  abbrev taken : Report F → ℕ → Payload F → Option ℕ → OrderRow F → OrderRow F
  taken = order_after

  leg_quantity_again :
      (row : OrderRow F) (order : Report F) (qty : ℕ) (payload : Payload F) (id : Option ℕ)
      → with_leg_quantity row order qty ≡ ok payload
      → (with_leg_quantity (taken order qty payload id row) order qty ≡ ok payload)
        × (payload.parent_id ≡ row.payload.parent_id)
  leg_quantity_again row order qty payload id h =
      let P = λ (p : Payload F).
        (with_leg_quantity (taken order qty p id row) order qty ≡ ok p)
        × (p.parent_id ≡ row.payload.parent_id) in
      elim (Bool-cases (is_bracket_leg row)) [
        | inl leg ↦
            let of_leg : (leg_quantity order.qty qty >>= λ n.
            ok (record row.payload { broker_qty = some n }))
                ≡ ok payload =
              rw leg at h in
            let (n, e, k) =
              bind_ok (leg_quantity order.qty qty)
                (λ n. ok (record row.payload { broker_qty = some n })) payload of_leg in
            let same : record row.payload { broker_qty = some n } ≡ payload = cc in
            subst P same (rw (leg, e) refl, refl)
        | inr plain ↦
            let k : ok row.payload ≡ ok payload = rw plain at h in
            let same : row.payload ≡ payload = cc in subst P same (rw plain refl, refl)
      ]

  check_fill_lem :
      (row : OrderRow F) (order : Report F) (n qty : ℕ) → check_fill row order n ≡ ok qty → n ≡ qty
  check_fill_lem row order n qty h = ground arith

  validated_again :
      (row : OrderRow F) (order : Report F) (qty : ℕ) (payload : Payload F) (id : Option ℕ)
      → payload.parent_id ≡ row.payload.parent_id
      → validated_fill row order ≡ ok qty
      → validated_fill (taken order qty payload id row) order ≡ ok qty
  unfolding validated_fill
  validated_again row order qty payload id parent h =
      let reading = read_or_zero order.filled_qty in
      let (n, a, c) =
        bind_ok (quantity_within row.applied_qty row.requested_qty reading) (check_fill row order)
          qty h in
      let same : n ≡ qty = check_fill_lem row order n qty c in
      let within_again : quantity_within qty row.requested_qty reading ≡ ok qty =
        subst (λ q. quantity_within q row.requested_qty reading ≡ ok q) same
          (quantity_again row.applied_qty row.requested_qty n reading a) in
      let checked : check_fill row order qty ≡ ok qty =
        subst (λ q. check_fill row order q ≡ ok qty) same c in
      let checked_again : check_fill (taken order qty payload id row) order qty ≡ ok qty =
        subst
          (λ o.
            check_fill (record row { payload = record row.payload { parent_id = o } }) order qty
            ≡ ok qty)
          (sym parent) checked in
      rw within_again checked_again

  -- The second time, from the parts that the first one had.
  stored_again :
      (id : Text) (order : Report F) (qty : ℕ) (payload : Payload F) (row : OrderRow F)
      (x : Filled F)
      → find? (has_id id) x.store.orders ≡ some row
      → validated_fill row order ≡ ok qty
      → with_leg_quantity row order qty ≡ ok payload
      → apply_report id order (stored id order qty payload x).store
        ≡ ok (record (stored id order qty payload x) { event = none })
  unfolding apply_report
  stored_again id order qty payload row x found valid leg =
      let change = taken order qty payload x.trade_id in
      let found_again = find?-update (has_id id) change x.store.orders row (λ r. refl) found in
      let (leg_too, parent) = leg_quantity_again row order qty payload x.trade_id leg in
      let valid_too = validated_again row order qty payload x.trade_id parent valid in
      let old : leb qty qty ≡ true = ground arith in
      let orders_too = update_again (has_id id) change x.store.orders (λ r. refl) (λ r. refl) in
      rw found_again (rw valid_too (rw leg_too (rw old (rw orders_too refl))))

  report_again :
      (id : Text) (order : Report F) (s : Store F)
      → IsValid s
      → Ensures
          (λ x. apply_report id order x.store ≡ ok (record x { event = none }))
          (apply_report id order s)
  unfolding apply_report
  report_again id order s v =
      let P = λ (x : Filled F). apply_report id order x.store ≡ ok (record x { event = none }) in
      Ensures-bind P (require (find? (has_id id) s.orders) missing_row) _ λ row e.
        let found = require_ok (find? (has_id id) s.orders) missing_row e in
        Ensures-bind P (validated_fill row order) _ λ qty valid.
          Ensures-bind P (with_leg_quantity row order qty) _ λ payload leg.
            let step = fill_step row order qty payload s in
            Ensures-bind P step (λ x. ok (stored id order qty payload x))
              λ x filled.
                let kept =
                  Ensures_of (KeepsTables s) step x (fill_step-AreTrades row order qty payload s v)
                    filled in
                stored_again id order qty payload row x (ap (find? (has_id id)) kept.1 ∙ found)
                  valid leg

  -- A report that was taken and comes again is taken again, changes no table and brings no event.
  pub apply_report_again :
      (id : Text) (order : Report F) (s : Store F) (x : Filled F)
      → IsValid s
      → apply_report id order s ≡ ok x
      → apply_report id order x.store ≡ ok (record x { event = none })
  apply_report_again id order s x v h =
      Ensures_of (λ y. apply_report id order y.store ≡ ok (record y { event = none }))
        (apply_report id order s) x (report_again id order s v) h
