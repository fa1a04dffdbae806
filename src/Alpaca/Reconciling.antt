-- ===== src/Alpaca/Reconciling.antt =====
-- trades/alpaca_broker.py: `reconcile` keeps the invariant of the tables.
use stock_signal.Common.{
  ℕ, Text, Bool, true, false, Option, none, some, List, [], ◌∷◌, ◌≡◌, refl, Bool-cases, inl, inr,
  is_some, ◌&&◌, any, ◌∙◌, not, if◌then◌else◌,
}
use stock_signal.Common.Float.{Float}
use stock_signal.Alpaca.Data.{Result, ok, err, canceled, OrderRow, has_id, is_bracket, is_pending}
use stock_signal.Alpaca.Broker.{
  cancelled, read_positions, read_account, Client, Broker, continue, ask, mark_unresolved,
}
use stock_signal.Alpaca.Orders.{take_order}
use stock_signal.Alpaca.Reconcile.{
  id_or_none, broker_order, fetch_broker_order, to_cancel, cancel_by_id, cancel_each,
  cancel_flatten_entries, resolve_pending_submission, sync_action, needs_broker_sync,
  sync_order_with_broker, sync_each, known_legs, fetch_broker_positions, block_on_exposure_mismatch,
  same_positions, expected_positions, positions_from,
}
use stock_signal.Alpaca.Checks.{
  reconcile, finish, checks, with_equity, note_safety, block_on_unsettled_orders,
  block_on_incomplete_bracket_protection, reset, every, is_settled, is_protected_in,
}
use stock_signal.Alpaca.Valid.{Later-refl, Later-trans}
use stock_signal.Alpaca.Keeps.{Keeps, Moves, Keeps-bind, Keeps-attempt, mark_unresolved-Keeps}
use stock_signal.Alpaca.Sending.{ask-Keeps, take_order-Keeps, submit-Keeps, set_state-Moves}

module _ {F : Type 0} where
  pub Moves-then : (g h : Broker F → Broker F) → Moves g → Moves h → Moves (λ b. h (g b))
  Moves-then g h k l b v = let a = k b v in Later-trans b.store (g b).store _ a (l (g b) a.valid)

  pub Moves-if :
      (test : Bool) (g : Broker F → Broker F) → Moves g → Moves (λ b. if test then g b else b)
  Moves-if true g k b v = k b v
  Moves-if false g k b v = Later-refl b.store v

  cancel_by_id-Moves :
      (client : Client F) (row : OrderRow F) (id : Option Text) → Moves (cancel_by_id client row id)
  cancel_by_id-Moves client row none = λ b v. Later-refl b.store v
  cancel_by_id-Moves client row (some id) =
      Keeps-attempt (ask (cancelled id) (λ sent. client.cancel_order_by_id sent id))
        (mark_unresolved row.id)
        (ask-Keeps (cancelled id) (λ sent. client.cancel_order_by_id sent id))
        (mark_unresolved-Keeps row.id)

  cancel_each-Moves :
      (client : Client F) (orders rows : List (OrderRow F)) → Moves (cancel_each client orders rows)
  unfolding cancel_each
  cancel_each-Moves client orders [] = λ b v. Later-refl b.store v
  cancel_each-Moves client orders (row ∷ rows) =
      let cancel = cancel_by_id client row (id_or_none row.broker_id) in
      Moves-then (λ b. if to_cancel orders row then cancel b else b)
        (cancel_each client orders rows)
        (Moves-if (to_cancel orders row) cancel
          (cancel_by_id-Moves client row (id_or_none row.broker_id)))
        (cancel_each-Moves client orders rows)

  cancel_flatten_entries-Moves : (client : Client F) → Moves (cancel_flatten_entries client)
  unfolding cancel_flatten_entries
  cancel_flatten_entries-Moves client b v =
      cancel_each-Moves client b.store.orders b.store.orders b v

module _ {F : Type 0} ⦃f : Float F⦄ where
  broker_order-Keeps :
      (client : Client F) (nested : Bool) (row : OrderRow F) (id : Option Text)
      → Keeps (broker_order client nested row id)
  broker_order-Keeps client nested row none b v = Later-refl b.store v
  broker_order-Keeps client nested row (some id) b v = Later-refl b.store v

  resolve-Keeps :
      (client : Client F) (row : OrderRow F) → Keeps (resolve_pending_submission client row)
  resolve-Keeps client row b v =
      elim (Bool-cases (is_bracket row && is_some row.payload.pending_exit)) [
        | inl drop ↦ rw drop (set_state-Moves (has_id row.id) canceled b v)
        | inr go ↦ rw go (submit-Keeps client row.id b v)
      ]

  sync_action-Keeps : (client : Client F) (row : OrderRow F) → Keeps (sync_action client row)
  sync_action-Keeps client row b v = elim (Bool-cases (is_pending row.state)) [
    | inl pending ↦ rw pending (resolve-Keeps client row b v)
    | inr out ↦ rw out (
        Keeps-bind (fetch_broker_order client row) (take_order client.leg_id row)
          (broker_order-Keeps client (is_bracket row) row (id_or_none row.broker_id))
          (take_order-Keeps client.leg_id row) b v)
  ]

  sync_order-Moves :
      (client : Client F) (row : OrderRow F) (known : ℕ)
      → Moves (sync_order_with_broker client row known)
  sync_order-Moves client row known b v = elim (Bool-cases (needs_broker_sync row known)) [
    | inl hit ↦ rw hit (
        Keeps-attempt (sync_action client row) (mark_unresolved row.id)
          (sync_action-Keeps client row) (mark_unresolved-Keeps row.id) b v)
    | inr miss ↦ rw miss (Later-refl b.store v)
  ]

  sync_each-Moves :
      (client : Client F) (orders rows : List (OrderRow F)) → Moves (sync_each client orders rows)
  unfolding sync_each
  sync_each-Moves client orders [] = λ b v. Later-refl b.store v
  sync_each-Moves client orders (row ∷ rows) =
      Moves-then (sync_order_with_broker client row (known_legs orders row.id))
        (sync_each client orders rows) (sync_order-Moves client row (known_legs orders row.id))
        (sync_each-Moves client orders rows)

  exposure_store :
      (observed : List (Text × F)) (b : Broker F)
      → (block_on_exposure_mismatch observed b).store ≡ b.store
  unfolding block_on_exposure_mismatch
  exposure_store observed b =
      elim (Bool-cases (same_positions observed (expected_positions b.open_positions))) [
        | inl hit ↦ rw hit refl
        | inr miss ↦ rw miss refl
      ]

  unsettled_store : (b : Broker F) → (block_on_unsettled_orders b).store ≡ b.store
  unfolding block_on_unsettled_orders
  unsettled_store b = elim (Bool-cases (any (λ row. not (is_settled row)) b.store.orders)) [
    | inl hit ↦ rw hit refl
    | inr miss ↦ rw miss refl
  ]

  protection_store : (b : Broker F) → (block_on_incomplete_bracket_protection b).store ≡ b.store
  unfolding block_on_incomplete_bracket_protection
  protection_store b = elim (Bool-cases (every (is_protected_in b) b.open_positions)) [
    | inl hit ↦ rw hit refl
    | inr miss ↦ rw miss refl
  ]

  equity_store : (r : Result (Option F)) (b : Broker F) → (with_equity (r, b)).store ≡ b.store
  unfolding with_equity
  equity_store (err e) b = refl
  equity_store (ok none) b = refl
  equity_store (ok (some v)) b = refl

  checks_store : (observed : List (Text × F)) (b : Broker F) → (checks observed b).store ≡ b.store
  unfolding checks
  checks_store observed b =
      let one = block_on_exposure_mismatch observed b in
      let two = note_safety (block_on_unsettled_orders one) in
      protection_store two ∙ unsettled_store one ∙ exposure_store observed b

  finish_store :
      (client : Client F) (r : Result (List (Text × F))) (b : Broker F)
      → (finish client (r, b)).store ≡ b.store
  unfolding finish
  finish_store client (err e) b = refl
  finish_store client (ok observed) b =
      let asked = ask read_account client.get_equity (checks observed b) in
      equity_store asked.0 asked.1 ∙ checks_store observed b

  fetched_store :
      (client : Client F) (b : Broker F) → (fetch_broker_positions client b).1.store ≡ b.store
  fetched_store client b =
      elim (client.get_all_positions (read_positions ∷ b.sent))
        as (λ r.
          (continue r (λ ps c. (positions_from ps [], c))
            (record b { sent = read_positions ∷ b.sent })).1.store
          ≡ b.store) [ ok ps ↦ refl | err e ↦ refl ]

  pub reconcile-Moves : (client : Client F) → Moves (λ b. (reconcile client b).1)
  unfolding reconcile
  reconcile-Moves client b v =
      let synced = sync_each client b.store.orders b.store.orders (reset b) in
      let cut = cancel_flatten_entries client synced in
      let fetched = fetch_broker_positions client cut in
      let first = sync_each-Moves client b.store.orders b.store.orders (reset b) v in
      let next = cancel_flatten_entries-Moves client synced first.valid in
      rw (finish_store client fetched.0 fetched.1 ∙ fetched_store client cut)
        (Later-trans b.store synced.store cut.store first next)
