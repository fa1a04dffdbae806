-- ===== src/Alpaca/Broker.antt =====
-- trades/alpaca_broker.py: the state of `AlpacaBroker`, its actions, and the client that it calls.
-- The client is an argument: what it answers can depend on every call that was sent before.
use stock_signal.Common.{
  ℕ, Text, Bool, Option, none, some, List, [], ◌∷◌, ◌++◌, ◌==◌, if◌then◌else◌, find?, any, update,
  select, coalesce,
}
use stock_signal.Alpaca.Data.{
  unresolved, Error, inconsistent_quantity, no_confirmed_price, incomplete_fill,
  invalid_leg_quantity, exceeds_exposure, unexpected_leg, missing_quantity, missing_row,
  zero_division, integrity_error, duplicate_positions, client_error, Result, ok, err, raised,
  PendingExit, OrderRow, TradeRow, Store, BrokerOrder, EventKind, Held, has_id, is_open,
}

-- What `submit_order` is given.
pub record Request (F : Type 0) : Type 0 where
  pub symbol : Text
  pub qty : ℕ
  pub buy : Bool
  pub client_order_id : Text
  pub bracket : Option (F × F)

pub data Call (F : Type 0) : Type 0 where
  submitted : Request F → Call F
  read_by_client_id cancelled : Text → Call F
  -- whether with its legs
  read_by_id : Text → Bool → Call F
  read_positions read_account : Call F

pub data Side : Type 0 where
  long_side short_side no_side : Side

-- A position at the broker, with its quantity where that is a finite number.
pub record BrokerPosition (F : Type 0) : Type 0 where
  pub symbol : Text
  pub qty : Option F
  pub side : Side

-- The answers, from the calls that were sent, the latest first; and the text "leg-" + id.
pub record Client (F : Type 0) : Type 0 where
  pub submit_order : List (Call F) → Request F → Result (BrokerOrder F)
  pub get_order_by_client_id : List (Call F) → Text → Result (BrokerOrder F)
  pub get_order_by_id : List (Call F) → Text → Bool → Result (BrokerOrder F)
  pub cancel_order_by_id : List (Call F) → Text → Result (Unit {0})
  pub get_all_positions : List (Call F) → Result (List (BrokerPosition F))
  pub get_equity : List (Call F) → Result (Option F)
  pub leg_id : Text → Text

-- The row of `broker_observations`, without its times.
pub record Observation (F : Type 0) : Type 0 where
  pub confirmed : Bool
  pub positions : Option (List (Text × F))

pub record Broker (F : Type 0) : Type 0 where
  pub store : Store F
  pub capital : F
  pub position_pct : F
  pub open_positions : List (Text × Held F)
  pub closed_trades : List (TradeRow F)
  pub events : List (EventKind × TradeRow F)
  pub blocked : Option Text
  pub safe_to_flatten : Bool
  pub observation : Option (Observation F)
  pub sent : List (Call F)

-- `str(exc)`
abbrev pub message : Error → Text
message inconsistent_quantity = 11
message no_confirmed_price = 12
message incomplete_fill = 13
message invalid_leg_quantity = 14
message exceeds_exposure = 15
message unexpected_leg = 16
message missing_quantity = 17
message missing_row = 18
message zero_division = 19
message integrity_error = 20
message duplicate_positions = 21
message (client_error t) = t

-- A method returns or raises; what it wrote before a raise stays written.
abbrev pub Action : Type 0 → Type 0 → Type 0
Action F A = Broker F → Result A × Broker F

module _ {F : Type 0} {A B : Type 0} where
  abbrev pub continue : Result A → (A → Action F B) → Action F B
  continue (ok a) k b = k a b
  continue (err e) k b = (err e, b)

  infixl 5 ◌>>=◌
  abbrev pub ◌>>=◌ : Action F A → (A → Action F B) → Action F B
  ◌>>=◌ m k b = let (r, after) = m b in continue r k after

module _ {F : Type 0} where
  infixl 5 ◌>>◌
  abbrev pub ◌>>◌ : {A : Type 0} → Action F (Unit {0}) → Action F A → Action F A
  m >> k = m >>= λ _. k

  abbrev pub pure : {A : Type 0} → A → Action F A
  pure a b = (ok a, b)

  abbrev pub lift : {A : Type 0} → Result A → Action F A
  lift r b = (r, b)

  abbrev pub modify : (Broker F → Broker F) → Action F (Unit {0})
  modify g b = (ok tt, g b)

  abbrev pub when : Bool → Action F (Unit {0}) → Action F (Unit {0})
  when test m b = if test then m b else (ok tt, b)

  -- `try` with one handler
  abbrev pub handled :
      (Error → Action F (Unit {0})) → Result (Unit {0}) × Broker F → Result (Unit {0}) × Broker F
  handled h (ok u, b) = (ok u, b)
  handled h (err e, b) = h e b

  abbrev pub attempt : Action F (Unit {0}) → (Error → Action F (Unit {0})) → Action F (Unit {0})
  attempt m h b = handled h (m b)

  -- A call of the client, which is recorded.
  abbrev pub ask : {A : Type 0} → Call F → (List (Call F) → Result A) → Action F A
  ask call answer b = let sent = call ∷ b.sent in (answer sent, record b { sent = sent })

  abbrev pub set_orders : (List (OrderRow F) → List (OrderRow F)) → Broker F → Broker F
  set_orders g b = record b { store = record b.store { orders = g b.store.orders } }

  -- `_mark_unresolved`
  unfoldable pub mark_unresolved : Text → Error → Action F (Unit {0})
  mark_unresolved id e = modify λ b.
      set_orders
        (update (has_id id) (λ r. record r { state = unresolved; last_error = some (raised e) }))
        (record b { blocked = some (message e) })

  abbrev pub parent_exit : Option (OrderRow F) → Option PendingExit
  parent_exit none = none
  parent_exit (some parent) = parent.payload.pending_exit

  abbrev pub entry_order : Store F → TradeRow F → Option (OrderRow F)
  entry_order s t = elim t.entry_order_id [ none ↦ none | some id ↦ find? (has_id id) s.orders ]

  abbrev pub held_of : Store F → TradeRow F → Held F
  held_of s t = record {
    trade = t;
    pending_exit = coalesce t.state_json (parent_exit (entry_order s t));
  }

  -- The loop of `_reload_open_positions`, over the open trades.
  unfoldable pub reload_from :
      Store F → List (TradeRow F) → List (Text × Held F) → Result (Unit {0}) × List (Text × Held F)
  reload_from s [] acc = (ok tt, acc)
  reload_from s (t ∷ ts) acc =
      let rest = reload_from s ts (acc ++ (t.ticker, held_of s t) ∷ []) in
      if any (λ p. p.0 == t.ticker) acc then (err duplicate_positions, acc) else rest

  abbrev pub with_positions :
      Broker F → Result (Unit {0}) × List (Text × Held F) → Result (Unit {0}) × Broker F
  with_positions b (r, positions) = (r, record b { open_positions = positions })

  -- `_reload_open_positions`
  unfoldable pub reload_open_positions : Action F (Unit {0})
  reload_open_positions b =
      with_positions b (reload_from b.store (select is_open b.store.trades) [])
