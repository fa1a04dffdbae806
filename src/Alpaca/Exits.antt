-- ===== src/Alpaca/Exits.antt =====
-- trades/alpaca_broker.py: `close_position`. The reason is `exit_reason or outcome.lower()`.
use stock_signal.Common.{
  ℕ, Text, Bool, false, not, ◌&&◌, ◌||◌, Option, none, some, List, [], ◌∷◌, ◌++◌, ◌==◌,
  if◌then◌else◌, find?, any, select, update, length,
}
use stock_signal.Common.Float.{Float}
use stock_signal.Paper.Data.{get, put_key}
use stock_signal.Alpaca.Data.{
  exit, is_entry, missing_row, Result, ok, err, PendingExit, Payload, OrderRow, TradeRow, Held,
  is_bracket, is_bracket_leg, is_live, is_open, is_trade_id,
}
use stock_signal.Alpaca.Fills.{require}
use stock_signal.Alpaca.Broker.{cancelled, Client, Broker, Action, ◌>>=◌, ◌>>◌, mark_unresolved}
use stock_signal.Alpaca.Orders.{target_reason, stop_reason, submit}
use stock_signal.Alpaca.Checks.{is_trade_of, reconcile}
use stock_signal.Alpaca.Entries.{orders_of, has_live_order, intent, intent_row}

-- "Bracket children unknown; flatten cannot safely proceed"
abbrev pub children_unknown : Text
children_unknown = 46

abbrev pub is_level : Text → Bool
is_level reason = reason == stop_reason || reason == target_reason

-- Whether to go on to an exit order, after the bracket was looked after.
pub data Next : Type 0 where
  proceed leave : Next

module _ {F : Type 0} where
  abbrev pub is_entry_id : TradeRow F → Text → Bool
  is_entry_id t id = elim t.entry_order_id [ none ↦ false | some i ↦ i == id ]

  abbrev pub bracket_in : Text → Broker F → Option (Held F) → Bool
  bracket_in ticker b none = false
  bracket_in ticker b (some h) =
      any (λ row. is_entry_id h.trade row.id && is_bracket row) (orders_of ticker b)

  unfoldable pub has_bracket : Text → Broker F → Bool
  has_bracket ticker b = bracket_in ticker b (get ticker b.open_positions)

  abbrev pub exit_values_of : Held F → TradeRow F → TradeRow F
  exit_values_of h t = record t {
    observed_bars = h.trade.observed_bars;
    state_json = h.pending_exit;
  }

  -- `save_position`
  abbrev pub save_position : Held F → Broker F → Broker F
  save_position h b = if h.trade.id == 0 then b else record b {
    store = record b.store {
      trades = update (is_trade_id h.trade.id) (exit_values_of h) b.store.trades;
    };
  }

  abbrev pub note_exit : Text → PendingExit → Option (Held F) → Broker F → Broker F
  note_exit ticker p none b = b
  note_exit ticker p (some h) b =
      let pending = record h { pending_exit = some p } in
      save_position pending (record b { open_positions = put_key ticker pending b.open_positions })

  abbrev pub is_child : TradeRow F → OrderRow F → Bool
  is_child t row =
      is_bracket_leg row && elim row.payload.parent_id [ none ↦ false | some p ↦ is_entry_id t p ]

  abbrev pub is_active : TradeRow F → OrderRow F → Bool
  is_active t row = is_live row && (is_trade_of t.id row || is_entry_id t row.id)

  abbrev pub broker_id_of : OrderRow F → Text
  broker_id_of row = elim row.broker_id [ none ↦ 0 | some id ↦ id ]

  abbrev pub after_cancel :
      OrderRow F → Result (Unit {0}) → (Broker F → Broker F) → Broker F → Broker F
  after_cancel row (ok u) go_on b = go_on b
  after_cancel row (err e) go_on b = (mark_unresolved row.id e b).1

  -- The loop that cancels: it stops at an exit order and at a failure.
  unfoldable pub cancel_active : Client F → List (OrderRow F) → Broker F → Broker F
  cancel_active client [] b = b
  cancel_active client (row ∷ rows) b =
      let sent = cancelled (broker_id_of row) ∷ b.sent in
      if not (is_bracket_leg row) && not (is_entry row.purpose)
      then b
      else after_cancel row (client.cancel_order_by_id sent (broker_id_of row))
          (cancel_active client rows) (record b { sent = sent })

  abbrev pub flatten_active : Client F → List (OrderRow F) → Broker F → Next × Broker F
  flatten_active client [] b = (if b.safe_to_flatten then proceed else leave, b)
  flatten_active client (row ∷ rows) b = (leave, cancel_active client (row ∷ rows) b)

  abbrev pub flatten_held : Client F → Text → Option (Held F) → Broker F → Next × Broker F
  flatten_held client ticker none b = (leave, b)
  flatten_held client ticker (some h) b =
      if length (select (is_child h.trade) (orders_of ticker b)) == 2
      then flatten_active client (select (is_active h.trade) (orders_of ticker b)) b
      else (leave, record b { blocked = some children_unknown })

  abbrev pub exit_payload : TradeRow F → PendingExit → Payload F
  exit_payload t p = record {
    direction = t.direction;
    bracket = none;
    parent_id = none;
    pending_exit = none;
    exit_reason = some p.reason;
    exit_bar = p.exit_bar;
    broker_qty = none;
  }

  abbrev pub take_closed : TradeRow F → Action F (Option (TradeRow F))
  take_closed t b =
      if is_open t
      then (ok none, b)
      else (ok (some t), record b { closed_trades = b.closed_trades ++ t ∷ [] })

  abbrev pub read_trade : ℕ → Action F (TradeRow F)
  read_trade id b = (require (find? (is_trade_id id) b.store.trades) missing_row, b)

module _ {F : Type 0} ⦃f : Float F⦄ where
  abbrev pub flatten_bracket : Client F → Text → PendingExit → Broker F → Next × Broker F
  flatten_bracket client ticker p b =
      let reconciled = (reconcile client (note_exit ticker p (get ticker b.open_positions) b)).1 in
      flatten_held client ticker (get ticker reconciled.open_positions) reconciled

  abbrev pub look_after : Client F → Text → PendingExit → Broker F → Next × Broker F
  look_after client ticker p b =
      if has_bracket ticker b
      then if is_level p.reason then (leave, b) else flatten_bracket client ticker p b
      else (proceed, b)

  abbrev pub leave_by :
      Client F → Text → Text → PendingExit → TradeRow F → Action F (Option (TradeRow F))
  leave_by client id ticker p t = do
    order_id ← intent (intent_row id ticker exit t.remaining_shares (exit_payload t p) (some t.id))
    submit client order_id
    row ← read_trade t.id
    take_closed row

  abbrev pub leave_held :
      Client F → Text → Text → PendingExit → Option (Held F) → Action F (Option (TradeRow F))
  leave_held client id ticker p none b = (ok none, b)
  leave_held client id ticker p (some h) b =
      if has_live_order ticker b then (ok none, b) else leave_by client id ticker p h.trade b

  abbrev pub exit_unless :
      Client F
      → Text
      → Text
      → PendingExit
      → Next × Broker F
      → Result (Option (TradeRow F)) × Broker F
  exit_unless client id ticker p (leave, b) = (ok none, b)
  exit_unless client id ticker p (proceed, b) =
      leave_held client id ticker p (get ticker b.open_positions) b

  unfoldable pub close_position :
      Client F → Text → Text → PendingExit → Action F (Option (TradeRow F))
  close_position client id ticker p b =
      exit_unless client id ticker p (look_after client ticker p b)
