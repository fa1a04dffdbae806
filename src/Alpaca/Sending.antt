-- ===== src/Alpaca/Sending.antt =====
-- trades/alpaca_broker.py: the methods that take reports and send orders keep the invariant.
use stock_signal.Common.{
  ℕ, Text, Bool, Option, none, some, List, [], ◌∷◌, refl, any, update, Bool-cases, inl, inr, arith,
}
use stock_signal.Common.Float.{Float}
use stock_signal.Alpaca.Data.{
  Result, ok, err, unresolved, OrderState, OrderRow, Store, Report, LegKind, EventKind, BrokerOrder,
  has_id, is_bracket,
}
use stock_signal.Alpaca.Reports.{apply_report}
use stock_signal.Alpaca.Broker.{
  Call, submitted, Client, Action, ◌>>=◌, ◌>>◌, modify, when, attempt, ask, set_orders,
  mark_unresolved, reload_open_positions,
}
use stock_signal.Alpaca.Orders.{
  reason_of, after_report, trade_row, push_event, announce, child_row, with_trade, insert_leg,
  insert_legs, after_insert, order_row, apply_broker_order_state, apply_legs, discover_legs,
  take_order, request_of, submit,
}
use stock_signal.Alpaca.Valid.{
  IsOrder, IsValid, Ensures, Ensures-map, Grows, Grows-refl, Later, Later-refl, Later-trans,
}
use stock_signal.Alpaca.Taking.{apply_report-Later}
use stock_signal.Alpaca.Keeps.{
  Keeps, Moves, Keeps-bind, Keeps-attempt, Keeps-when, update-Later, append-Later, set_orders-Moves,
  mark_unresolved-Keeps,
}

module _ {F : Type 0} where
  reload-Keeps : Keeps {F = F} reload_open_positions
  unfolding reload_open_positions
  reload-Keeps b v = Later-refl b.store v

  trade_row-Keeps : (id : Option ℕ) → Keeps {F = F} (trade_row id)
  trade_row-Keeps none b v = Later-refl b.store v
  trade_row-Keeps (some id) b v = Later-refl b.store v

  announce_at-Keeps :
      (event : Option EventKind) (id : Option ℕ) (s : Store F)
      → Keeps (announce (record { store = s; trade_id = id; event = event }))
  announce_at-Keeps none id s = λ b v. Later-refl b.store v
  announce_at-Keeps (some kind) id s =
      Keeps-bind (trade_row id) (λ t. modify (push_event kind t)) (trade_row-Keeps id)
        λ t b v. Later-refl b.store v

  pub order_row-Keeps : (id : Text) → Keeps {F = F} (order_row id)
  order_row-Keeps id b v = Later-refl b.store v

  pub ask-Keeps :
      {A : Type 0} (call : Call F) (answer : List (Call F) → Result A) → Keeps (ask call answer)
  ask-Keeps call answer b v = Later-refl b.store v

  with_trade-Grows : (id : Option ℕ) (r : OrderRow F) → Grows r (with_trade id r)
  with_trade-Grows none r = Grows-refl r
  with_trade-Grows (some id) r = record { same_id = refl; same_size = refl; no_less = omega arith }

  with_trade-IsOrder : (id : Option ℕ) (r : OrderRow F) → IsOrder r → IsOrder (with_trade id r)
  with_trade-IsOrder none r g = g
  with_trade-IsOrder (some id) r g = record { applied = g.applied; within = g.within }

  insert_leg-Later :
      (parent : OrderRow F) (id : Text) (leg : Report F) (reason : Text) (s : Store F)
      → IsValid s
      → Later s (record s { orders = insert_leg parent id leg reason s.orders })
  insert_leg-Later parent id leg reason s v = elim (Bool-cases (any (has_id id) s.orders)) [
    | inl known ↦ rw known (
        update-Later (has_id id) (with_trade parent.trade_id) s (with_trade-Grows parent.trade_id)
          (with_trade-IsOrder parent.trade_id) v)
    | inr new ↦ rw new (
        append-Later s (child_row parent id leg reason)
          (record { applied = refl; within = omega arith }) new v)
  ]

  module _ (leg_id : Text → Text) (parent : OrderRow F) where
    insert_legs-Later :
        (legs : List (LegKind × Report F)) (s : Store F)
        → IsValid s
        → Ensures
            (λ orders. Later s (record s { orders = orders }))
            (insert_legs leg_id parent legs s.orders)
    unfolding insert_legs
    insert_legs-Later [] s v = Later-refl s v
    insert_legs-Later ((kind, leg) ∷ legs) s v =
        let orders = λ (reason : Text). insert_leg parent (leg_id leg.id) leg reason s.orders in
        let after = λ (reason : Text). let t : Store F = record s { orders = orders reason } in t in
        let first = λ (reason : Text). insert_leg-Later parent (leg_id leg.id) leg reason s v in
        elim (reason_of kind)
          as (λ r.
            Ensures (λ xs. Later s (record s { orders = xs }))
              (elim r [
                | ok reason ↦ insert_legs leg_id parent legs (orders reason)
                | err e ↦ err e
              ])) [
                | ok reason ↦
                    Ensures-map (λ xs. Later (after reason) (record s { orders = xs })) _
                      (insert_legs leg_id parent legs (orders reason))
                      (λ xs l.
                        Later-trans s (after reason) (record s { orders = xs }) (first reason) l)
                      (insert_legs-Later legs (after reason) (first reason).valid)
                | err e ↦ tt
              ]

    pub insert_legs-Keeps :
        (legs : List (LegKind × Report F))
        → Keeps (λ b. after_insert b (insert_legs leg_id parent legs b.store.orders))
    insert_legs-Keeps legs b v =
        elim (insert_legs leg_id parent legs b.store.orders)
            as (λ r.
              Ensures (λ xs. Later b.store (record b.store { orders = xs })) r
              → Later b.store (after_insert b r).1.store) [
                | ok xs ↦ λ h. h
                | err e ↦ λ h. Later-refl b.store v
              ]
          (insert_legs-Later legs b.store v)

module _ {F : Type 0} ⦃f : Float F⦄ where
  apply_report-Keeps :
      (id : Text) (order : Report F) → Keeps (λ b. after_report b (apply_report id order b.store))
  apply_report-Keeps id order b v =
      elim (apply_report id order b.store)
          as (λ r.
            Ensures (λ x. Later b.store x.store) r → Later b.store (after_report b r).1.store) [
              | ok x ↦ λ h. h
              | err e ↦ λ h. Later-refl b.store v
            ]
        (apply_report-Later id order b.store v)

  pub apply_broker_order_state-Keeps :
      (id : Text) (order : Report F) → Keeps (apply_broker_order_state id order)
  unfolding apply_broker_order_state
  apply_broker_order_state-Keeps id order =
      Keeps-bind (λ b. after_report b (apply_report id order b.store))
        (λ x. reload_open_positions >> announce x) (apply_report-Keeps id order)
        λ x.
          Keeps-bind reload_open_positions (λ _. announce x) reload-Keeps
            λ _. announce_at-Keeps x.event x.trade_id x.store

  apply_legs-Keeps :
      (leg_id : Text → Text) (legs : List (LegKind × Report F)) → Keeps (apply_legs leg_id legs)
  unfolding apply_legs
  apply_legs-Keeps leg_id [] = λ b v. Later-refl b.store v
  apply_legs-Keeps leg_id ((kind, leg) ∷ legs) =
      Keeps-bind (apply_broker_order_state (leg_id leg.id) leg) (λ _. apply_legs leg_id legs)
        (apply_broker_order_state-Keeps (leg_id leg.id) leg) λ _. apply_legs-Keeps leg_id legs

  discover_legs-Keeps :
      (leg_id : Text → Text) (id : Text) (order : BrokerOrder F)
      → Keeps (discover_legs leg_id id order)
  unfolding discover_legs
  discover_legs-Keeps leg_id id order = Keeps-bind (order_row id) _ (order_row-Keeps id) λ parent.
      Keeps-bind (λ b. after_insert b (insert_legs leg_id parent order.legs b.store.orders))
        (λ _. apply_legs leg_id order.legs) (insert_legs-Keeps leg_id parent order.legs)
        λ _. apply_legs-Keeps leg_id order.legs

  pub take_order-Keeps :
      (leg_id : Text → Text) (row : OrderRow F) (order : BrokerOrder F)
      → Keeps (take_order leg_id row order)
  take_order-Keeps leg_id row order =
      Keeps-bind (apply_broker_order_state row.id order.report)
        (λ _. when (is_bracket row) (discover_legs leg_id row.id order))
        (apply_broker_order_state-Keeps row.id order.report)
        λ _.
          Keeps-when (is_bracket row) (discover_legs leg_id row.id order)
            (discover_legs-Keeps leg_id row.id order)

  pub set_state-Moves :
      (p : OrderRow F → Bool) (state : OrderState)
      → Moves (set_orders (update p (λ r. record r { state = state })))
  set_state-Moves p state =
      set_orders-Moves p (λ r. record r { state = state })
        (λ r. record { same_id = refl; same_size = refl; no_less = omega arith })
        (λ r g. record { applied = g.applied; within = g.within })

  send : Client F → OrderRow F → Action F (BrokerOrder F)
  send client row =
      ask (submitted (request_of row)) (λ sent. client.submit_order sent (request_of row))

  send-Keeps : (client : Client F) (row : OrderRow F) → Keeps (send client row)
  unfolding send
  send-Keeps client row b v = Later-refl b.store v

  try_send : Client F → Text → OrderRow F → Action F (Unit {0})
  try_send client id row =
      attempt (send client row >>= take_order client.leg_id row) (mark_unresolved id)

  try_send-Keeps :
      (client : Client F) (id : Text) (row : OrderRow F) → Keeps (try_send client id row)
  unfolding try_send
  try_send-Keeps client id row =
      Keeps-attempt (send client row >>= take_order client.leg_id row) (mark_unresolved id)
        (Keeps-bind (send client row) (take_order client.leg_id row) (send-Keeps client row)
          (take_order-Keeps client.leg_id row))
        (mark_unresolved-Keeps id)

  pub submit-Keeps : (client : Client F) (id : Text) → Keeps (submit client id)
  unfolding submit send try_send
  submit-Keeps client id =
      let mark =
        modify (set_orders (update (has_id {F = F} id) (λ r. record r { state = unresolved }))) in
      Keeps-bind (order_row id) (λ row. mark >> try_send client id row) (order_row-Keeps id)
        λ row.
          Keeps-bind mark (λ _. try_send client id row) (set_state-Moves (has_id id) unresolved)
            λ _. try_send-Keeps client id row
