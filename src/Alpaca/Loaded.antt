-- ===== src/Alpaca/Loaded.antt =====
-- trades/alpaca_broker.py: the positions that the object holds open are the stored ones while
-- `reconcile` takes reports, unless it has noted a failure.
use stock_signal.Common.{
  ℕ, Text, Bool, true, false, Option, none, some, List, [], ◌∷◌, ◌≡◌, refl, inl, inr, select,
  update, is_some, ◌&&◌, if◌then◌else◌,
}
use stock_signal.Common.Float.{Float}
use stock_signal.Alpaca.Data.{
  Result, ok, err, canceled, OrderRow, Store, Report, LegKind, BrokerOrder, EventKind, Held, has_id,
  is_open, is_bracket, is_pending,
}
use stock_signal.Alpaca.Reports.{apply_report}
use stock_signal.Alpaca.Broker.{
  Client, Broker, Action, cancelled, submitted, read_by_client_id, read_by_id, ◌>>=◌, ◌>>◌, modify,
  when, attempt, ask, set_orders, mark_unresolved, reload_from, reload_open_positions,
}
use stock_signal.Alpaca.Orders.{
  after_report, trade_row, push_event, announce, insert_legs, after_insert, order_row,
  apply_broker_order_state, apply_legs, discover_legs, take_order, request_of, submit,
}
use stock_signal.Alpaca.Reconcile.{
  expected_positions, id_or_none, broker_order, fetch_broker_order, to_cancel, cancel_by_id,
  cancel_each, cancel_flatten_entries, resolve_pending_submission, sync_action, needs_broker_sync,
  sync_order_with_broker, sync_each, known_legs, identity_awaited,
}
use stock_signal.Alpaca.Confirmed.{or_text_lem, stored_positions}
use stock_signal.Alpaca.Leads.{
  Returned, Leads, Leads-bind, IsCurrent, Keeping, attempt-IsCurrent, attempt-Keeping, ask-Keeping,
  order_row-Keeping, reload_from-all,
}

module _ {F : Type 0} ⦃f : Float F⦄ where
  reload-IsCurrent : Leads {F = F} (λ b. Unit {0}) reload_open_positions IsCurrent
  unfolding reload_open_positions
  reload-IsCurrent b u =
      let p = reload_from b.store (select is_open b.store.trades) [] in
      loaded p.0 p.1 (λ h. reload_from-all b.store (select is_open b.store.trades) [] h)
    where
      loaded :
          (r : Result (Unit {0})) (positions : List (Text × Held F))
          → (r ≡ ok tt → expected_positions positions ≡ stored_positions b.store)
          → Returned IsCurrent r (record b { open_positions = positions })
      loaded (ok u) positions h = inr (h refl)
      loaded (err e) positions h = tt

  trade_row-Keeping : (id : Option ℕ) → Keeping {F = F} (trade_row id)
  trade_row-Keeping none b g = tt
  trade_row-Keeping (some id) b g =
      elim (trade_row (some id) b).0 as (λ r. Returned IsCurrent r b) [ ok t ↦ g | err e ↦ tt ]

  announce-Keeping :
      (event : Option EventKind) (id : Option ℕ) (s : Store F)
      → Keeping (announce (record { store = s; trade_id = id; event = event }))
  announce-Keeping none id s = λ b g. g
  announce-Keeping (some kind) id s =
      Leads-bind IsCurrent IsCurrent IsCurrent (trade_row id) (λ t. modify (push_event kind t))
        (trade_row-Keeping id) λ t b g. g

  report-Leads :
      (id : Text) (order : Report F)
      → Leads IsCurrent (λ b. after_report b (apply_report id order b.store)) (λ b. Unit {0})
  report-Leads id order b g =
      elim (apply_report id order b.store)
        as (λ r. Returned (λ c. Unit {0}) (after_report b r).0 (after_report b r).1) [
          | ok x ↦ tt
          | err e ↦ tt
        ]

  apply_broker_order_state-Keeping :
      (id : Text) (order : Report F) → Keeping (apply_broker_order_state id order)
  unfolding apply_broker_order_state
  apply_broker_order_state-Keeping id order =
      Leads-bind IsCurrent (λ b. Unit {0}) IsCurrent
        (λ b. after_report b (apply_report id order b.store))
        (λ x. reload_open_positions >> announce x) (report-Leads id order)
        λ x.
          Leads-bind (λ b. Unit {0}) IsCurrent IsCurrent reload_open_positions (λ _. announce x)
            reload-IsCurrent λ _. announce-Keeping x.event x.trade_id x.store

  apply_legs-Keeping :
      (leg_id : Text → Text) (legs : List (LegKind × Report F)) → Keeping (apply_legs leg_id legs)
  unfolding apply_legs
  apply_legs-Keeping leg_id [] = λ b g. g
  apply_legs-Keeping leg_id ((kind, leg) ∷ legs) =
      Leads-bind IsCurrent IsCurrent IsCurrent (apply_broker_order_state (leg_id leg.id) leg)
        (λ _. apply_legs leg_id legs) (apply_broker_order_state-Keeping (leg_id leg.id) leg)
        λ _. apply_legs-Keeping leg_id legs

  insert-Keeping :
      (leg_id : Text → Text) (parent : OrderRow F) (legs : List (LegKind × Report F))
      → Keeping (λ b. after_insert b (insert_legs leg_id parent legs b.store.orders))
  insert-Keeping leg_id parent legs b g =
      elim (insert_legs leg_id parent legs b.store.orders)
        as (λ r. Returned IsCurrent (after_insert b r).0 (after_insert b r).1) [
          | ok xs ↦ g
          | err e ↦ tt
        ]

  discover_legs-Keeping :
      (leg_id : Text → Text) (id : Text) (order : BrokerOrder F)
      → Keeping (discover_legs leg_id id order)
  unfolding discover_legs
  discover_legs-Keeping leg_id id order =
      Leads-bind IsCurrent IsCurrent IsCurrent (order_row id) _ (order_row-Keeping id) λ parent.
        Leads-bind IsCurrent IsCurrent IsCurrent
          (λ b. after_insert b (insert_legs leg_id parent order.legs b.store.orders))
          (λ _. apply_legs leg_id order.legs) (insert-Keeping leg_id parent order.legs)
          λ _. apply_legs-Keeping leg_id order.legs

  when-Keeping : (test : Bool) (m : Action F (Unit {0})) → Keeping m → Keeping (when test m)
  when-Keeping true m h b g = h b g
  when-Keeping false m h b g = g

  take_order-Keeping :
      (leg_id : Text → Text) (row : OrderRow F) (order : BrokerOrder F)
      → Keeping (take_order leg_id row order)
  take_order-Keeping leg_id row order =
      Leads-bind IsCurrent IsCurrent IsCurrent (apply_broker_order_state row.id order.report)
        (λ _. when (is_bracket row) (discover_legs leg_id row.id order))
        (apply_broker_order_state-Keeping row.id order.report)
        λ _.
          when-Keeping (is_bracket row) (discover_legs leg_id row.id order)
            (discover_legs-Keeping leg_id row.id order)

  submit-Keeping : (client : Client F) (id : Text) → Keeping (submit client id)
  unfolding submit
  submit-Keeping client id =
      Leads-bind IsCurrent IsCurrent IsCurrent (order_row id) _ (order_row-Keeping id) λ row.
        Leads-bind IsCurrent IsCurrent IsCurrent (modify (set_orders _)) _ (λ b g. g)
          λ _. attempt-Keeping id _ (
            Leads-bind IsCurrent IsCurrent IsCurrent
              (ask (submitted (request_of row)) (λ sent. client.submit_order sent (request_of row)))
              (take_order client.leg_id row)
              (ask-Keeping (submitted (request_of row))
                (λ sent. client.submit_order sent (request_of row)))
              (take_order-Keeping client.leg_id row))

  resolve-Keeping :
      (client : Client F) (row : OrderRow F) → Keeping (resolve_pending_submission client row)
  resolve-Keeping client row = either (is_bracket row && is_some row.payload.pending_exit)
    where
      either :
          (c : Bool)
          → Keeping (
              if c
              then modify (set_orders (update (has_id row.id) (λ r. record r { state = canceled })))
              else submit client row.id)
      either true = λ b g. g
      either false = submit-Keeping client row.id

  fetch-Keeping :
      (client : Client F) (nested : Bool) (row : OrderRow F) (id : Option Text)
      → Keeping (broker_order client nested row id)
  fetch-Keeping client nested row none =
      ask-Keeping (read_by_client_id row.id) (λ sent. client.get_order_by_client_id sent row.id)
  fetch-Keeping client nested row (some id) =
      ask-Keeping (read_by_id id nested) (λ sent. client.get_order_by_id sent id nested)

  sync_action-Keeping : (client : Client F) (row : OrderRow F) → Keeping (sync_action client row)
  sync_action-Keeping client row = either (is_pending row.state)
    where
      either :
          (c : Bool)
          → Keeping (
              if c
              then resolve_pending_submission client row
              else (fetch_broker_order client row >>= take_order client.leg_id row))
      either true = resolve-Keeping client row
      either false =
          Leads-bind IsCurrent IsCurrent IsCurrent (fetch_broker_order client row)
            (take_order client.leg_id row)
            (fetch-Keeping client (is_bracket row) row (id_or_none row.broker_id))
            (take_order-Keeping client.leg_id row)

  sync_each-IsCurrent :
      (client : Client F) (orders rows : List (OrderRow F)) (b : Broker F)
      → IsCurrent b
      → IsCurrent (sync_each client orders rows b)
  unfolding sync_each
  sync_each-IsCurrent client orders [] b g = g
  sync_each-IsCurrent client orders (row ∷ rows) b g =
      sync_each-IsCurrent client orders rows
        (sync_order_with_broker client row (known_legs orders row.id) b)
        (either (needs_broker_sync row (known_legs orders row.id)))
    where
      either :
          (c : Bool)
          → IsCurrent
              (if c then (attempt (sync_action client row) (mark_unresolved row.id) b).1 else b)
      either true =
          attempt-IsCurrent row.id (sync_action client row) (sync_action-Keeping client row) b g
      either false = g

  cancel_by_id-IsCurrent :
      (client : Client F) (row : OrderRow F) (id : Option Text) (b : Broker F)
      → IsCurrent b
      → IsCurrent (cancel_by_id client row id b)
  cancel_by_id-IsCurrent client row none b g = inl (or_text_lem b.blocked identity_awaited)
  cancel_by_id-IsCurrent client row (some id) b g =
      attempt-IsCurrent row.id (ask (cancelled id) (λ sent. client.cancel_order_by_id sent id))
        (ask-Keeping (cancelled id) (λ sent. client.cancel_order_by_id sent id)) b g

  cancel_each-IsCurrent :
      (client : Client F) (orders rows : List (OrderRow F)) (b : Broker F)
      → IsCurrent b
      → IsCurrent (cancel_each client orders rows b)
  unfolding cancel_each
  cancel_each-IsCurrent client orders [] b g = g
  cancel_each-IsCurrent client orders (row ∷ rows) b g =
      cancel_each-IsCurrent client orders rows _ (either (to_cancel orders row))
    where
      either :
          (c : Bool)
          → IsCurrent (if c then cancel_by_id client row (id_or_none row.broker_id) b else b)
      either true = cancel_by_id-IsCurrent client row (id_or_none row.broker_id) b g
      either false = g

  pub synced-IsCurrent :
      (client : Client F) (orders rows : List (OrderRow F)) (b : Broker F)
      → IsCurrent b
      → IsCurrent (cancel_flatten_entries client (sync_each client orders rows b))
  unfolding cancel_flatten_entries
  synced-IsCurrent client orders rows b g =
      let synced = sync_each client orders rows b in
      cancel_each-IsCurrent client synced.store.orders synced.store.orders synced
        (sync_each-IsCurrent client orders rows b g)
