-- ===== src/Alpaca/Checks.antt =====
-- trades/alpaca_broker.py: the checks of `reconcile`, and `reconcile` itself.
use stock_signal.Common.{
  ℕ, ◌+◌, Text, Bool, true, false, not, ◌&&◌, ◌||◌, Option, none, some, List, [], ◌∷◌, ◌==◌,
  if◌then◌else◌, any, select, length, is_some, coalesce,
}
use stock_signal.Common.Float.{Float}
use stock_signal.Paper.Data.{is_text}
use stock_signal.Alpaca.Data.{
  is_filled, is_resting, Result, ok, err, OrderRow, Held, is_bracket, is_bracket_leg, is_live,
}
use stock_signal.Alpaca.Broker.{read_account, Client, Broker, ask, entry_order}
use stock_signal.Alpaca.Reconcile.{
  execution_pending, protection_incomplete, reconciliation_unavailable, block,
  block_on_exposure_mismatch, sync_each, cancel_flatten_entries, fetch_broker_positions,
}

-- `every(p(x) for x in xs)`
abbrev pub every {ℓ} : {A : Type ℓ} → (A → Bool) → List A → Bool
every p [] = true
every p (x ∷ xs) = p x && every p xs

module _ {F : Type 0} where
  abbrev pub is_settled : OrderRow F → Bool
  is_settled row = not (is_live row) || (is_bracket_leg row && is_resting row.state)

  unfoldable pub block_on_unsettled_orders : Broker F → Broker F
  block_on_unsettled_orders b =
      if any (λ row. not (is_settled row)) b.store.orders then block execution_pending b else b

  abbrev pub is_trade_of : ℕ → OrderRow F → Bool
  is_trade_of id row = elim row.trade_id [ none ↦ false | some i ↦ i == id ]

  abbrev pub live_legs : List (OrderRow F) → ℕ → List (OrderRow F)
  live_legs orders id =
      select (λ row. is_bracket_leg row && (is_trade_of id row && is_live row)) orders

  abbrev pub covers : ℕ → OrderRow F → Bool
  covers remaining row = elim row.payload.broker_qty [
    | none ↦ false
    | some q ↦ q == remaining + row.applied_qty
  ]

  abbrev pub is_protected : List (OrderRow F) → Held F → Option (OrderRow F) → Bool
  is_protected orders h none = true
  is_protected orders h (some parent) =
      not (is_bracket parent)
      || (length (live_legs orders h.trade.id) == 2
          && (is_filled parent.state
              && every (covers h.trade.remaining_shares) (live_legs orders h.trade.id)))

  abbrev pub is_protected_in : Broker F → Text × Held F → Bool
  is_protected_in b p = is_protected b.store.orders p.1 (entry_order b.store p.1.trade)

  unfoldable pub block_on_incomplete_bracket_protection : Broker F → Broker F
  block_on_incomplete_bracket_protection b =
      if every (is_protected_in b) b.open_positions then b else block protection_incomplete b

  abbrev pub note_safety : Broker F → Broker F
  note_safety b = record b { safe_to_flatten = not (is_some b.blocked) }

  abbrev pub unavailable : Broker F → Broker F
  unavailable b = record b { safe_to_flatten = false; blocked = some reconciliation_unavailable }

  -- `_fetch_account_equity`
  unfoldable pub with_equity : Result (Option F) × Broker F → Broker F
  with_equity (err e, b) = unavailable b
  with_equity (ok none, b) = b
  with_equity (ok (some v), b) = record b { capital = v }

  -- `_record_broker_observation`, where the table can be written
  abbrev pub record_broker_observation : Option (List (Text × F)) → Broker F → Broker F
  record_broker_observation observed b = record b {
    observation = some record {
      confirmed = not (is_text b.blocked);
      positions = coalesce observed (elim b.observation [ none ↦ none | some o ↦ o.positions ]);
    };
  }

  abbrev pub reset : Broker F → Broker F
  reset b = record b { blocked = none; safe_to_flatten = false }

module _ {F : Type 0} ⦃f : Float F⦄ where
  unfoldable pub checks : List (Text × F) → Broker F → Broker F
  checks observed b =
      block_on_incomplete_bracket_protection
        (note_safety (block_on_unsettled_orders (block_on_exposure_mismatch observed b)))

  -- From the positions that the broker gives, or the failure to read them.
  unfoldable pub finish : Client F → Result (List (Text × F)) × Broker F → Broker F
  finish client (err e, b) = record_broker_observation none (unavailable b)
  finish client (ok observed, b) =
      record_broker_observation (some observed)
        (with_equity (ask read_account client.get_equity (checks observed b)))

  unfoldable pub reconcile : Client F → Broker F → Bool × Broker F
  reconcile client b =
      let synced = sync_each client b.store.orders b.store.orders (reset b) in
      let after =
        finish client (fetch_broker_positions client (cancel_flatten_entries client synced)) in
      (not (is_some after.blocked), after)
