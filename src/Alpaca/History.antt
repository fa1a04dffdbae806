-- ===== src/Alpaca/History.antt =====
-- trades/alpaca_broker.py: every history of calls keeps the invariant of the tables.
use stock_signal.Common.{
  ℕ, Text, not, ◌||◌, Option, none, some, List, [], ◌∷◌, Bool-cases, inl, inr,
}
use stock_signal.Common.Float.{Float, zero_float}
use stock_signal.Paper.Data.{is_text, get}
use stock_signal.Signals.Base.{is_trade}
use stock_signal.Alpaca.Data.{entry, ok}
use stock_signal.Alpaca.Broker.{Client, Broker}
use stock_signal.Alpaca.Entries.{
  Signal, has_open, intent_row, levels_of, entry_payload, shares_of, enter_if, open_position,
}
use stock_signal.Alpaca.Calls.{Operation, opens, closes, reconciles, flattens, perform, history}
use stock_signal.Alpaca.Valid.{IsValid, Later, Later-refl}
use stock_signal.Alpaca.Keeps.{Keeps, Moves}
use stock_signal.Alpaca.Reconciling.{reconcile-Moves, Moves-then}
use stock_signal.Alpaca.Leaving.{intent-Keeps, flatten-Moves, ordered-Keeps, close_position-Keeps}

module _ {F : Type 0} ⦃f : Float F⦄ (quantize : ℕ → F → F) (client : Client F) where
  open f use {eq, mul, div, floor}

  enter_if-Keeps :
      (id : Text) (s : Signal F) (shares : Option ℕ) (levels : Option (F × F))
      → Keeps (enter_if quantize client id s shares levels)
  enter_if-Keeps id s none levels b v = Later-refl b.store v
  enter_if-Keeps id s (some shares) none b v = Later-refl b.store v
  enter_if-Keeps id s (some shares) (some levels) b v =
      ordered-Keeps client
        (intent_row id s.ticker entry shares (entry_payload quantize s.direction levels) none)
        (λ c. (ok (get s.ticker c.open_positions), c))
        (intent-Keeps id s.ticker entry shares (entry_payload quantize s.direction levels) none)
        (λ c w. Later-refl c.store w) b v

  open_position-Keeps : (id : Text) (s : Signal F) → Keeps (open_position quantize client id s)
  unfolding open_position
  open_position-Keeps id s b v =
      let shares = shares_of quantize (floor (div (mul b.capital b.position_pct) s.entry_price)) in
      elim (Bool-cases (not (is_trade s.direction) || (has_open s.ticker b || is_text b.blocked))) [
        | inl skip ↦ rw skip (Later-refl b.store v)
        | inr go ↦ rw go (elim (Bool-cases (eq s.entry_price zero_float)) [
          | inl free ↦ rw free (Later-refl b.store v)
          | inr some_price ↦ rw some_price (enter_if-Keeps id s shares (levels_of quantize s) b v)
        ])
      ]

  perform-Moves : (o : Operation F) → Moves (perform quantize client o)
  perform-Moves (opens id s) = open_position-Keeps id s
  perform-Moves (closes id ticker p) = close_position-Keeps client id ticker p
  perform-Moves reconciles = reconcile-Moves client
  perform-Moves flattens = flatten-Moves

  -- From tables where the invariant holds, every history of opening, closing, reconciling and
  -- flattening, whatever the broker answers, leads to tables where it holds: order ids and trade
  -- ids are unique, the applied fills of an order are the reported ones and at most its size, a
  -- trade has at most its shares left, and some while it is open. The orders stay, in their
  -- places, with their ids and sizes, and lose no applied fill.
  pub history-Later :
      (os : List (Operation F)) (b : Broker F)
      → IsValid b.store
      → Later b.store (history quantize client os b).store
  unfolding history
  history-Later [] b v = Later-refl b.store v
  history-Later (o ∷ os) b v =
      Moves-then (perform quantize client o) (history quantize client os) (perform-Moves o)
        (history-Later os) b v
