-- ===== src/Alpaca/Reconcile.antt =====
-- trades/alpaca_broker.py: `reconcile` and its parts. What a part raises is caught in it.
use stock_signal.Common.{
  ℕ, Text, Bool, true, false, not, ◌&&◌, ◌||◌, Option, none, some, List, [], ◌∷◌, ◌==◌, ltb,
  if◌then◌else◌, any, select, update, length, is_some, map,
}
use stock_signal.Common.Float.{Float, zero_float}
use stock_signal.Paper.Data.{is_text, put_key, get, of_count}
use stock_signal.Alpaca.Data.{
  canceled, is_pending, is_entry, missing_quantity, Result, ok, err, OrderRow, BrokerOrder, Held,
  is_bracket, is_bracket_leg, is_live, has_id,
}
use stock_signal.Alpaca.Fills.{signed}
use stock_signal.Alpaca.Broker.{
  read_by_client_id, read_by_id, cancelled, read_positions, Client, BrokerPosition, Side, long_side,
  short_side, no_side, Broker, Action, ◌>>=◌, modify, attempt, ask, set_orders, mark_unresolved,
}
use stock_signal.Alpaca.Orders.{take_order, submit}

-- The texts of `blocked`
abbrev pub identity_awaited : Text
identity_awaited = 41

abbrev pub exposure_mismatch : Text
exposure_mismatch = 42

abbrev pub execution_pending : Text
execution_pending = 43

abbrev pub protection_incomplete : Text
protection_incomplete = 44

abbrev pub reconciliation_unavailable : Text
reconciliation_unavailable = 45

-- `self.blocked or text`
abbrev pub or_text : Option Text → Text → Option Text
or_text blocked t = if is_text blocked then blocked else some t

abbrev pub id_or_none : Option Text → Option Text
id_or_none id = if is_text id then id else none

module _ {F : Type 0} where
  -- What an action writes, where it raises nothing.
  abbrev pub run : Action F (Unit {0}) → Broker F → Broker F
  run m b = (m b).1

  abbrev pub is_leg_of : Text → OrderRow F → Bool
  is_leg_of id row =
      is_bracket_leg row && elim row.payload.parent_id [ none ↦ false | some p ↦ p == id ]

  -- `_count_known_legs_by_parent`, at an id
  abbrev pub known_legs : List (OrderRow F) → Text → ℕ
  known_legs orders id = length (select (is_leg_of id) orders)

  abbrev pub needs_broker_sync : OrderRow F → ℕ → Bool
  needs_broker_sync row known =
      is_live row || (is_bracket row && (not (known == 2) && ltb 0 row.applied_qty))

  abbrev pub broker_order : Client F → Bool → OrderRow F → Option Text → Action F (BrokerOrder F)
  broker_order client nested row none =
      ask (read_by_client_id row.id) (λ sent. client.get_order_by_client_id sent row.id)
  broker_order client nested row (some id) =
      ask (read_by_id id nested) (λ sent. client.get_order_by_id sent id nested)

  -- `_fetch_broker_order`
  abbrev pub fetch_broker_order : Client F → OrderRow F → Action F (BrokerOrder F)
  fetch_broker_order client row =
      broker_order client (is_bracket row) row (id_or_none row.broker_id)

  abbrev pub block : Text → Broker F → Broker F
  block t b = record b { blocked = or_text b.blocked t }

  abbrev pub is_flattened : OrderRow F → Bool
  is_flattened row = is_entry row.purpose && is_some row.payload.pending_exit

  abbrev pub to_cancel : List (OrderRow F) → OrderRow F → Bool
  to_cancel orders row =
      is_live row
      && any
          (λ e.
            is_flattened e
            && (e.id == row.id || elim row.payload.parent_id [ none ↦ false | some p ↦ e.id == p ]))
          orders

  abbrev pub cancel_by_id : Client F → OrderRow F → Option Text → Broker F → Broker F
  cancel_by_id client row none b = block identity_awaited b
  cancel_by_id client row (some id) b =
      run
        (attempt (ask (cancelled id) (λ sent. client.cancel_order_by_id sent id))
          (mark_unresolved row.id))
        b

  unfoldable pub cancel_each :
      Client F → List (OrderRow F) → List (OrderRow F) → Broker F → Broker F
  cancel_each client orders [] b = b
  cancel_each client orders (row ∷ rows) b =
      cancel_each client orders rows
        (if to_cancel orders row then cancel_by_id client row (id_or_none row.broker_id) b else b)

  -- `_cancel_flatten_entries`
  unfoldable pub cancel_flatten_entries : Client F → Broker F → Broker F
  cancel_flatten_entries client b = cancel_each client b.store.orders b.store.orders b

module _ {F : Type 0} ⦃f : Float F⦄ where
  open f use {eq, sub, magnitude}

  -- `_resolve_pending_submission`
  abbrev pub resolve_pending_submission : Client F → OrderRow F → Action F (Unit {0})
  resolve_pending_submission client row =
      if is_bracket row && is_some row.payload.pending_exit
      then modify (set_orders (update (has_id row.id) (λ r. record r { state = canceled })))
      else submit client row.id

  abbrev pub sync_action : Client F → OrderRow F → Action F (Unit {0})
  sync_action client row =
      if is_pending row.state
      then resolve_pending_submission client row
      else (fetch_broker_order client row >>= take_order client.leg_id row)

  -- `_sync_order_with_broker`
  abbrev pub sync_order_with_broker : Client F → OrderRow F → ℕ → Broker F → Broker F
  sync_order_with_broker client row known b =
      if needs_broker_sync row known
      then run (attempt (sync_action client row) (mark_unresolved row.id)) b
      else b

  unfoldable pub sync_each : Client F → List (OrderRow F) → List (OrderRow F) → Broker F → Broker F
  sync_each client orders [] b = b
  sync_each client orders (row ∷ rows) b =
      sync_each client orders rows (sync_order_with_broker client row (known_legs orders row.id) b)

  abbrev pub signed_quantity : Side → F → F
  signed_quantity long_side q = magnitude q
  signed_quantity short_side q = sub zero_float (magnitude q)
  signed_quantity no_side q = q

  -- The loop of `_fetch_broker_positions`
  unfoldable pub positions_from :
      List (BrokerPosition F) → List (Text × F) → Result (List (Text × F))
  positions_from [] acc = ok acc
  positions_from (p ∷ ps) acc = elim p.qty [
    | none ↦ err missing_quantity
    | some q ↦ positions_from ps (put_key p.symbol (signed_quantity p.side q) acc)
  ]

  abbrev pub fetch_broker_positions : Client F → Action F (List (Text × F))
  fetch_broker_positions client =
      ask read_positions client.get_all_positions >>= λ ps b. (positions_from ps [], b)

  abbrev pub expected_quantity : Held F → F
  expected_quantity h = signed h.trade.direction (of_count h.trade.remaining_shares)

  abbrev pub expected_positions : List (Text × Held F) → List (Text × F)
  expected_positions = map λ p. (p.0, expected_quantity p.1)

  abbrev pub has_quantity : Option F → F → Bool
  has_quantity none q = false
  has_quantity (some r) q = eq r q

  -- Equality of two dictionaries
  abbrev pub within : List (Text × F) → List (Text × F) → Bool
  within [] other = true
  within ((k, q) ∷ rest) other = has_quantity (get k other) q && within rest other

  abbrev pub same_positions : List (Text × F) → List (Text × F) → Bool
  same_positions p q = length p == length q && within p q

  unfoldable pub block_on_exposure_mismatch : List (Text × F) → Broker F → Broker F
  block_on_exposure_mismatch observed b =
      if same_positions observed (expected_positions b.open_positions)
      then b
      else record b { blocked = some exposure_mismatch }
