-- ===== src/Paper/Overlay.antt =====
-- trades/executor.py: the accounting methods of `PaperBroker`, which return or raise; what was
-- assigned before a raise stays assigned.
use stock_signal.Common.{
  ℕ, ◌+◌, Text, Bool, true, false, not, ◌&&◌, Option, none, some, List, [], ◌∷◌, ◌==◌,
  if◌then◌else◌, is_some,
}
use stock_signal.Common.Float.{Float, zero_float, max_float}
use stock_signal.Common.Int.{ℤ, pos, negsuc}
use stock_signal.Paper.Data.{
  Account, cash, receivables, distribution_payables, borrow_payables, refund_receivables,
  repayment_liabilities, Balances, Broker, Posting, is_text, balance, set_balance, is_cash,
  number_or_zero,
}

pub data Error : Type 0 where
  key_error value_error : Error

pub data Result (A : Type 0) : Type 0 where
  ok : A → Result A
  err : Error → Result A

-- "Accounting inputs unavailable; new allocations are frozen"
abbrev pub frozen_message : Text
frozen_message = 1

-- `self.blocked or "Accounting inputs unavailable; …"`
abbrev pub or_frozen : Option Text → Option Text
or_frozen blocked = if is_text blocked then blocked else some frozen_message

abbrev pub count_of : ℤ → ℕ
count_of (pos n) = n
count_of (negsuc n) = 0

module _ {F : Type 0} ⦃f : Float F⦄ where
  open f use {literal, lt, is_finite, add, sub, mul, div, round, floor}

  abbrev pub freeze : Broker F → Broker F
  freeze b = record b { blocked = or_frozen b.blocked }

  -- `-1e-9`
  abbrev pub tolerance : F
  tolerance = sub zero_float (literal 1 9)

  -- The deltas in the order of `fields`.
  abbrev pub deltas : Posting F → List (Account × F)
  deltas p =
      (cash, number_or_zero p.cash_delta)
      ∷ (receivables, number_or_zero p.receivable_delta)
      ∷ (distribution_payables, number_or_zero p.payable_delta)
      ∷ (borrow_payables, number_or_zero p.borrow_payable_delta)
      ∷ (refund_receivables, number_or_zero p.refund_receivable_delta)
      ∷ (repayment_liabilities, number_or_zero p.repayment_liability_delta)
      ∷ []

  -- The loop of `apply_accounting_posting`.
  unfoldable pub post_deltas : List (Account × F) → Balances F → Result (Unit {0}) × Balances F
  post_deltas [] b = (ok tt, b)
  post_deltas ((a, delta) ∷ rest) b =
      let value = add (balance a b) delta in
      let posted =
        post_deltas rest
          (set_balance a (if is_cash a then value else max_float zero_float value) b) in
      if not (is_cash a) && lt value tolerance then (err value_error, b) else posted

  abbrev pub with_balances :
      Broker F → Result (Unit {0}) × Balances F → Result (Unit {0}) × Broker F
  with_balances b (r, balances) = (r, record b { balances = balances })

  unfoldable pub apply_accounting_posting : Posting F → Broker F → Result (Unit {0}) × Broker F
  apply_accounting_posting p b =
      if is_text p.unavailable_reason
      then (ok tt, freeze (record b { accounting_unavailable = b.accounting_unavailable + 1 }))
      else with_balances b (post_deltas (deltas p) b.balances)

  -- The loop of `restore_accounting_state`.
  unfoldable pub restore_values : List (Account × F) → Balances F → Result (Unit {0}) × Balances F
  restore_values [] b = (ok tt, b)
  restore_values ((a, value) ∷ rest) b =
      let restored = restore_values rest (set_balance a value b) in
      if not (is_cash a) && lt value tolerance then (err value_error, b) else restored

  -- `if self.accounting_unavailable: self.blocked = …`
  abbrev pub freeze_if_unavailable : Broker F → Broker F
  freeze_if_unavailable b = if not (b.accounting_unavailable == 0) then freeze b else b

  abbrev pub count_restored : ℕ → Result (Unit {0}) × Broker F → Result (Unit {0}) × Broker F
  count_restored count (err e, b) = (err e, b)
  count_restored count (ok _, b) =
      (ok tt, freeze_if_unavailable (record b { accounting_unavailable = count }))

  abbrev pub is_complete : Posting F → Bool
  is_complete p =
      is_some p.cash_delta
      && (is_some p.receivable_delta
          && (is_some p.payable_delta
              && (is_some p.borrow_payable_delta
                  && (is_some p.refund_receivable_delta && is_some p.repayment_liability_delta))))

  abbrev pub restore_with : Bool → Posting F → ℕ → Broker F → Result (Unit {0}) × Broker F
  restore_with false summary count b = (err value_error, b)
  restore_with true summary count b =
      count_restored count (with_balances b (restore_values (deltas summary) b.balances))

  -- The summary's values, and its `unavailable_count`, none where it has no such key.
  unfoldable pub restore_accounting_state :
      Posting F → Option ℕ → Broker F → Result (Unit {0}) × Broker F
  restore_accounting_state summary none b = (err value_error, b)
  restore_accounting_state summary (some count) b =
      restore_with (is_complete summary) summary count b

  unfoldable pub mark_accounting_unavailable : ℤ → Broker F → Broker F
  mark_accounting_unavailable count b =
      freeze_if_unavailable
        (record b { accounting_unavailable = b.accounting_unavailable + count_of count })
