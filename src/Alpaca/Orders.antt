-- ===== src/Alpaca/Orders.antt =====
-- trades/alpaca_broker.py: the methods that send an order and take the broker's reports of it.
use stock_signal.Common.{
  ℕ, Text, Bool, true, false, not, Option, none, some, List, [], ◌∷◌, ◌++◌, if◌then◌else◌, find?,
  any, update,
}
use stock_signal.Common.Float.{Float}
use stock_signal.Signals.Base.{Direction, long}
use stock_signal.Alpaca.Data.{
  new, unresolved, exit, is_entry, unexpected_leg, missing_row, Result, ok, err, OrderRow, TradeRow,
  Report, LegKind, limit, stop, other_kind, BrokerOrder, EventKind, is_bracket, has_id, is_trade_id,
}
use stock_signal.Alpaca.Fills.{require, Filled}
use stock_signal.Alpaca.Reports.{apply_report}
use stock_signal.Alpaca.Broker.{
  Request, submitted, Client, Broker, Action, ◌>>=◌, ◌>>◌, pure, modify, when, attempt, ask,
  set_orders, mark_unresolved, reload_open_positions,
}

-- "target" and "stop", as exit reasons
abbrev pub target_reason : Text
target_reason = 31

abbrev pub stop_reason : Text
stop_reason = 32

abbrev pub reason_of : LegKind → Result Text
reason_of limit = ok target_reason
reason_of stop = ok stop_reason
reason_of other_kind = err unexpected_leg

abbrev pub is_long : Direction → Bool
is_long long = true
is_long _ = false

abbrev pub same : Bool → Bool → Bool
same true b = b
same false b = not b

module _ {F : Type 0} where
  abbrev pub after_report : Broker F → Result (Filled F) → Result (Filled F) × Broker F
  after_report b (err e) = (err e, b)
  after_report b (ok x) = (ok x, record b { store = x.store })

  abbrev pub trade_row : Option ℕ → Action F (TradeRow F)
  trade_row none b = (err missing_row, b)
  trade_row (some id) b = (require (find? (is_trade_id id) b.store.trades) missing_row, b)

  abbrev pub push_event : EventKind → TradeRow F → Broker F → Broker F
  push_event kind t b = record b { events = b.events ++ (kind, t) ∷ [] }

  abbrev pub announce : Filled F → Action F (Unit {0})
  announce x = elim x.event [
    | none ↦ pure tt
    | some kind ↦ (trade_row x.trade_id >>= λ t. modify (push_event kind t))
  ]

  -- A child that is read for the first time.
  abbrev pub child_row : OrderRow F → Text → Report F → Text → OrderRow F
  child_row parent id leg reason = record {
    id = id;
    broker_id = some leg.id;
    ticker = parent.ticker;
    purpose = exit;
    state = new;
    requested_qty = parent.requested_qty;
    filled_qty = 0;
    fill_price = none;
    applied_qty = 0;
    trade_id = parent.trade_id;
    payload = record {
      direction = parent.payload.direction;
      bracket = none;
      parent_id = some parent.id;
      pending_exit = none;
      exit_reason = some reason;
      exit_bar = none;
      broker_qty = none;
    };
    last_error = none;
  }

  abbrev pub with_trade : Option ℕ → OrderRow F → OrderRow F
  with_trade none r = r
  with_trade (some id) r = record r { trade_id = some id }

  abbrev pub insert_leg :
      OrderRow F → Text → Report F → Text → List (OrderRow F) → List (OrderRow F)
  insert_leg parent id leg reason orders =
      if any (has_id id) orders
      then update (has_id id) (with_trade parent.trade_id) orders
      else orders ++ child_row parent id leg reason ∷ []

module _ {F : Type 0} (leg_id : Text → Text) where
  -- The first loop of `_discover_legs`, a transaction.
  unfoldable pub insert_legs :
      OrderRow F → List (LegKind × Report F) → List (OrderRow F) → Result (List (OrderRow F))
  insert_legs parent [] orders = ok orders
  insert_legs parent ((kind, leg) ∷ legs) orders = elim (reason_of kind) [
    | err e ↦ err e
    | ok reason ↦ insert_legs parent legs (insert_leg parent (leg_id leg.id) leg reason orders)
  ]

module _ {F : Type 0} where
  abbrev pub after_insert : Broker F → Result (List (OrderRow F)) → Result (Unit {0}) × Broker F
  after_insert b (err e) = (err e, b)
  after_insert b (ok orders) = (ok tt, set_orders (λ _. orders) b)

  abbrev pub order_row : Text → Action F (OrderRow F)
  order_row id b = (require (find? (has_id id) b.store.orders) missing_row, b)

module _ {F : Type 0} ⦃f : Float F⦄ where
  -- `_apply_broker_order_state`
  unfoldable pub apply_broker_order_state : Text → Report F → Action F (Unit {0})
  apply_broker_order_state id order = do
    x ← λ b. after_report b (apply_report id order b.store)
    reload_open_positions
    announce x

  -- The second loop of `_discover_legs`
  unfoldable pub apply_legs : (Text → Text) → List (LegKind × Report F) → Action F (Unit {0})
  apply_legs leg_id [] = pure tt
  apply_legs leg_id ((kind, leg) ∷ legs) = do
    apply_broker_order_state (leg_id leg.id) leg
    apply_legs leg_id legs

  unfoldable pub discover_legs : (Text → Text) → Text → BrokerOrder F → Action F (Unit {0})
  discover_legs leg_id id order = do
    parent ← order_row id
    λ b. after_insert b (insert_legs leg_id parent order.legs b.store.orders)
    apply_legs leg_id order.legs

  -- What `_submit` and `_sync_order_with_broker` do with an order that the broker returned.
  abbrev pub take_order : (Text → Text) → OrderRow F → BrokerOrder F → Action F (Unit {0})
  take_order leg_id row order = do
    apply_broker_order_state row.id order.report
    when (is_bracket row) (discover_legs leg_id row.id order)

  abbrev pub request_of : OrderRow F → Request F
  request_of row = record {
    symbol = row.ticker;
    qty = row.requested_qty;
    buy = same (is_long row.payload.direction) (is_entry row.purpose);
    client_order_id = row.id;
    bracket = row.payload.bracket;
  }

  -- `_submit`: the state is written before the request goes out.
  unfoldable pub submit : Client F → Text → Action F (Unit {0})
  submit client id = do
    row ← order_row id
    modify (set_orders (update (has_id id) (λ r. record r { state = unresolved })))
    attempt
        (do
          order ←
              ask (submitted (request_of row)) (λ sent. client.submit_order sent (request_of row))
          take_order client.leg_id row order)
        (mark_unresolved id)
