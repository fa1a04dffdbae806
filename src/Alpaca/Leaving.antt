-- ===== src/Alpaca/Leaving.antt =====
-- trades/alpaca_broker.py: intents, `request_session_flatten` and `close_position` keep the
-- invariant of the tables.
use stock_signal.Common.{
  ℕ, Text, not, ◌&&◌, Option, none, some, List, [], ◌∷◌, ◌==◌, refl, Bool-cases, inl, inr, arith,
  any, find?, select, length,
}
use stock_signal.Common.Float.{Float}
use stock_signal.Paper.Data.{get}
use stock_signal.Alpaca.Data.{
  Purpose, exit, is_entry, Result, ok, err, PendingExit, Payload, OrderRow, TradeRow, Held,
  is_bracket_leg, has_id, is_trade_id, is_open, is_live,
}
use stock_signal.Alpaca.Broker.{Client, Broker, Action, ◌>>=◌, ◌>>◌, cancelled}
use stock_signal.Alpaca.Orders.{submit}
use stock_signal.Alpaca.Checks.{reconcile}
use stock_signal.Alpaca.Entries.{
  orders_of, has_live_order, intent_row, intent_or, intent, flattened, to_flatten,
  request_session_flatten,
}
use stock_signal.Alpaca.Exits.{
  Next, proceed, leave, has_bracket, exit_values_of, save_position, note_exit, is_child, is_active,
  broker_id_of, cancel_active, flatten_active, flatten_held, look_after, exit_payload, take_closed,
  read_trade, leave_held, exit_unless, close_position, is_level, after_cancel,
}
use stock_signal.Alpaca.Keyed.{HasUniqueKeys-update, All-update, Follows-refl}
use stock_signal.Alpaca.Valid.{IsTrade, IsValid, Grows, Grows-refl, Later, Later-refl, Later-trans}
use stock_signal.Alpaca.Keeps.{
  Keeps, Moves, Keeps-bind, set_orders-Moves, append-Later, mark_unresolved-Keeps,
}
use stock_signal.Alpaca.Sending.{submit-Keeps}
use stock_signal.Alpaca.Reconciling.{reconcile-Moves, Moves-then}

module _ {F : Type 0} where
  pub intent-Keeps :
      (id ticker : Text) (purpose : Purpose) (qty : ℕ) (payload : Payload F) (trade_id : Option ℕ)
      → Keeps (intent (intent_row id ticker purpose qty payload trade_id))
  unfolding intent
  intent-Keeps id ticker purpose qty payload trade_id b v =
      let row = intent_row id ticker purpose qty payload trade_id in
      elim (find? is_live (orders_of ticker b))
        as (λ o. Later b.store (intent_or o row b).1.store) [
          | some existing ↦ Later-refl b.store v
          | none ↦ elim (Bool-cases (any (has_id id) b.store.orders)) [
            | inl known ↦ rw known (Later-refl b.store v)
            | inr new ↦
                rw new
                  (append-Later b.store row (record { applied = refl; within = omega arith }) new v)
          ]
        ]

  pub flatten-Moves : Moves {F = F} request_session_flatten
  unfolding request_session_flatten
  flatten-Moves =
      set_orders-Moves to_flatten flattened
        (λ r. record { same_id = refl; same_size = refl; no_less = omega arith })
        (λ r g. record { applied = g.applied; within = g.within })

  save_position-Moves : (h : Held F) → Moves (save_position h)
  save_position-Moves h b v = elim (Bool-cases (h.trade.id == 0)) [
    | inl gone ↦ rw gone (Later-refl b.store v)
    | inr kept ↦ rw kept (record {
      valid = record {
        order_ids = v.order_ids;
        trade_ids =
            HasUniqueKeys-update (λ t. t.id) (is_trade_id h.trade.id) (exit_values_of h)
              b.store.trades (λ t. refl) v.trade_ids;
        orders = v.orders;
        trades =
            All-update (IsTrade b.store.next_trade) (is_trade_id h.trade.id) (exit_values_of h)
              b.store.trades (λ t g. record { known = g.known; left = g.left; held = g.held })
              v.trades;
      };
      grown = Follows-refl Grows Grows-refl b.store.orders;
    })
  ]

  note_exit-Moves :
      (ticker : Text) (p : PendingExit) (h : Option (Held F)) → Moves (note_exit ticker p h)
  note_exit-Moves ticker p none b v = Later-refl b.store v
  note_exit-Moves ticker p (some h) b v =
      save_position-Moves (record h { pending_exit = some p }) _ v

  after_cancel-Moves :
      (row : OrderRow F) (r : Result (Unit {0})) (go_on : Broker F → Broker F)
      → Moves go_on
      → Moves (after_cancel row r go_on)
  after_cancel-Moves row (ok u) go_on k = k
  after_cancel-Moves row (err e) go_on k = mark_unresolved-Keeps row.id e

  cancel_active-Moves :
      (client : Client F) (rows : List (OrderRow F)) → Moves (cancel_active client rows)
  unfolding cancel_active
  cancel_active-Moves client [] = λ b v. Later-refl b.store v
  cancel_active-Moves client (row ∷ rows) =
      let next = cancel_active-Moves client rows in
      λ b v. elim (Bool-cases (not (is_bracket_leg row) && not (is_entry row.purpose))) [
        | inl done ↦ rw done (Later-refl b.store v)
        | inr more ↦
            let sent = cancelled (broker_id_of row) ∷ b.sent in
            rw more (
              after_cancel-Moves row (client.cancel_order_by_id sent (broker_id_of row))
                (cancel_active client rows) next (record b { sent = sent }) v)
      ]

  flatten_active-Moves :
      (client : Client F) (rows : List (OrderRow F)) → Moves (λ b. (flatten_active client rows b).1)
  flatten_active-Moves client [] b v = Later-refl b.store v
  flatten_active-Moves client (row ∷ rows) b v = cancel_active-Moves client (row ∷ rows) b v

  take_closed-Keeps : (t : TradeRow F) → Keeps (take_closed t)
  take_closed-Keeps t b v = elim (Bool-cases (is_open t)) [
    | inl still ↦ rw still (Later-refl b.store v)
    | inr done ↦ rw done (Later-refl b.store v)
  ]

  flatten_held-Moves :
      (client : Client F) (ticker : Text) (h : Option (Held F))
      → Moves (λ b. (flatten_held client ticker h b).1)
  flatten_held-Moves client ticker none b v = Later-refl b.store v
  flatten_held-Moves client ticker (some h) b v =
      elim (Bool-cases (length (select (is_child h.trade) (orders_of ticker b)) == 2)) [
        | inl both ↦
            rw both
              (flatten_active-Moves client (select (is_active h.trade) (orders_of ticker b)) b v)
        | inr unknown ↦ rw unknown (Later-refl b.store v)
      ]

module _ {F : Type 0} ⦃f : Float F⦄ where
  pub ordered-Keeps :
      {A : Type 0} (client : Client F) (row : OrderRow F) (k : Action F A)
      → Keeps (intent row)
      → Keeps k
      → Keeps (intent row >>= λ order_id. submit client order_id >> k)
  ordered-Keeps client row k h g =
      Keeps-bind (intent row) (λ order_id. submit client order_id >> k) h
        λ order_id.
          Keeps-bind (submit client order_id) (λ _. k) (submit-Keeps client order_id) λ _. g

  look_after-Moves :
      (client : Client F) (ticker : Text) (p : PendingExit)
      → Moves (λ b. (look_after client ticker p b).1)
  look_after-Moves client ticker p b v = elim (Bool-cases (has_bracket ticker b)) [
    | inl bracket ↦ rw bracket (elim (Bool-cases (is_level p.reason)) [
      | inl level ↦ rw level (Later-refl b.store v)
      | inr other ↦
          let held = get ticker b.open_positions in
          let noted = note_exit ticker p held in
          let after = (reconcile client (noted b)).1 in
          let first =
            Moves-then noted (λ c. (reconcile client c).1) (note_exit-Moves ticker p held)
              (reconcile-Moves client) b v in
          rw other (
            Later-trans b.store after.store _ first (
              flatten_held-Moves client ticker (get ticker after.open_positions) after first.valid))
    ])
    | inr plain ↦ rw plain (Later-refl b.store v)
  ]

  leave_held-Keeps :
      (client : Client F) (id ticker : Text) (p : PendingExit) (h : Option (Held F))
      → Keeps (leave_held client id ticker p h)
  leave_held-Keeps client id ticker p none b v = Later-refl b.store v
  leave_held-Keeps client id ticker p (some h) b v = elim (Bool-cases (has_live_order ticker b)) [
    | inl busy ↦ rw busy (Later-refl b.store v)
    | inr free ↦ rw free (
        ordered-Keeps client
          (intent_row id ticker exit h.trade.remaining_shares (exit_payload h.trade p)
            (some h.trade.id))
          (read_trade h.trade.id >>= take_closed)
          (intent-Keeps id ticker exit h.trade.remaining_shares (exit_payload h.trade p)
            (some h.trade.id))
          (Keeps-bind (read_trade h.trade.id) take_closed (λ c w. Later-refl c.store w)
            take_closed-Keeps)
          b v)
  ]

  exit_unless-Later :
      (client : Client F) (id ticker : Text) (p : PendingExit) (next : Next) (b : Broker F)
      → IsValid b.store
      → Later b.store (exit_unless client id ticker p (next, b)).1.store
  exit_unless-Later client id ticker p leave b v = Later-refl b.store v
  exit_unless-Later client id ticker p proceed b v =
      leave_held-Keeps client id ticker p (get ticker b.open_positions) b v

  pub close_position-Keeps :
      (client : Client F) (id ticker : Text) (p : PendingExit)
      → Keeps (close_position client id ticker p)
  unfolding close_position
  close_position-Keeps client id ticker p b v =
      let looked = look_after client ticker p b in
      let first = look_after-Moves client ticker p b v in
      Later-trans b.store looked.1.store _ first
        (exit_unless-Later client id ticker p looked.0 looked.1 first.valid)
