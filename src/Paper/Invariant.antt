-- ===== src/Paper/Invariant.antt =====
-- trades/executor.py: every call on a broker keeps its invariant.
use stock_signal.Common.{
  ℕ, ◌+◌, ◌≡◌, refl, Text, Bool, true, false, not, ◌&&◌, Option, none, some, List, [], ◌∷◌, ◌==◌,
  Bool-cases, inl, inr, if◌then◌else◌, arith,
}
use stock_signal.Common.Float.{Float, zero_float, max_float}
use stock_signal.Paper.Data.{
  FillPolicy, Account, cash, receivables, Balances, Broker, Posting, is_text, balance, set_balance,
  is_cash, get,
}
use stock_signal.Paper.Overlay.{
  Result, ok, err, tolerance, post_deltas, restore_values, deltas, apply_accounting_posting,
  restore_accounting_state, mark_accounting_unavailable, is_complete, with_balances, freeze,
  freeze_if_unavailable, or_frozen, restore_with, count_restored, count_of,
}
use stock_signal.Paper.Broker.{close_position}
use stock_signal.Paper.Calls.{Call, paper_broker, perform, history}
use stock_signal.Paper.Valid.{
  capital_after, IsSolvent, IsValid, set_balance-IsSolvent, restore_values-IsSolvent,
  open_position-IsValid, close_at-IsValid,
}

pub or_frozen_text : (o : Option Text) → is_text (or_frozen o) ≡ true
or_frozen_text none = refl
or_frozen_text (some t) = ground arith

module _ {F : Type 0} ⦃f : Float F⦄ where
  open f use {lt, add}

  module _ (dust : lt zero_float tolerance ≡ false) where
    clamp_solvent : (v : F) → lt v tolerance ≡ false → lt (max_float zero_float v) tolerance ≡ false
    clamp_solvent v h = elim (Bool-cases (lt zero_float v)) [
      | inl up ↦ rw up h
      | inr down ↦ rw down dust
    ]

    post_deltas-IsSolvent :
        (xs : List (Account × F)) (b : Balances F) → IsSolvent b → IsSolvent (post_deltas xs b).1
    unfolding post_deltas
    post_deltas-IsSolvent [] b s = s
    post_deltas-IsSolvent ((a, delta) ∷ rest) b s =
        let v = add (balance a b) delta in
        elim (Bool-cases (not (is_cash a) && lt v tolerance)) [
          | inl refused ↦ rw refused s
          | inr accepted ↦ rw accepted (
              post_deltas-IsSolvent rest
                (set_balance a (if is_cash a then v else max_float zero_float v) b)
                (set_balance-IsSolvent a (if is_cash a then v else max_float zero_float v) b
                  (λ k. rw k (clamp_solvent v (ground arith))) s))
        ]

    balances-IsValid :
        (start : F) (b : Broker F) (p : Result (Unit {0}) × Balances F)
        → IsSolvent p.1
        → IsValid start b
        → IsValid start (with_balances b p).1
    balances-IsValid start b (r, x) s v = record {
      ledger = v.ledger;
      keys = v.keys;
      held = v.held;
      frozen = v.frozen;
      solvent = s;
    }

    freeze-IsValid :
        (start : F) (b : Broker F) (count : ℕ)
        → IsValid start b
        → IsValid start (freeze (record b { accounting_unavailable = count }))
    freeze-IsValid start b count v = record {
      ledger = v.ledger;
      keys = v.keys;
      held = v.held;
      frozen = λ k. or_frozen_text b.blocked;
      solvent = v.solvent;
    }

    -- A count that freezes the broker where it is above zero.
    counted-IsValid :
        (start : F) (b : Broker F) (count : ℕ)
        → IsValid start b
        → IsValid start (freeze_if_unavailable (record b { accounting_unavailable = count }))
    counted-IsValid start b count v = elim (Bool-cases (count == 0)) [
      | inl none_missing ↦ rw none_missing (record {
        ledger = v.ledger;
        keys = v.keys;
        held = v.held;
        frozen = λ k. absurd (k (ground arith));
        solvent = v.solvent;
      })
      | inr some_missing ↦ rw some_missing (freeze-IsValid start b count v)
    ]

    restored-IsValid :
        (start : F) (count : ℕ) (p : Result (Unit {0}) × Broker F)
        → IsValid start p.1
        → IsValid start (count_restored count p).1
    restored-IsValid start count (ok u, b) v = counted-IsValid start b count v
    restored-IsValid start count (err e, b) v = v

    apply-IsValid :
        (start : F) (p : Posting F) (b : Broker F)
        → IsValid start b
        → IsValid start (apply_accounting_posting p b).1
    unfolding apply_accounting_posting
    apply-IsValid start p b v = elim (Bool-cases (is_text p.unavailable_reason)) [
      | inl missing ↦ rw missing (freeze-IsValid start b (b.accounting_unavailable + 1) v)
      | inr there ↦ rw there (
          balances-IsValid start b (post_deltas (deltas p) b.balances)
            (post_deltas-IsSolvent (deltas p) b.balances v.solvent) v)
    ]

    restore_with-IsValid :
        (start : F) (complete : Bool) (summary : Posting F) (count : ℕ) (b : Broker F)
        → IsValid start b
        → IsValid start (restore_with complete summary count b).1
    restore_with-IsValid start false summary count b v = v
    restore_with-IsValid start true summary count b v =
        restored-IsValid start count (with_balances b (restore_values (deltas summary) b.balances))
          (balances-IsValid start b (restore_values (deltas summary) b.balances)
            (restore_values-IsSolvent (deltas summary) b.balances v.solvent) v)

    module _ (lower : Text → Text) (seconds_between : Text → Text → F) where
      perform-IsValid :
          (start : F) (c : Call F) (b : Broker F)
          → IsValid start b
          → IsValid start (perform lower seconds_between c b)
      unfolding perform restore_accounting_state mark_accounting_unavailable close_position
      perform-IsValid start (Call.posts p) b v = apply-IsValid start p b v
      perform-IsValid start (Call.restores s none) b v = v
      perform-IsValid start (Call.restores s (some n)) b v =
          restore_with-IsValid start (is_complete s) s n b v
      perform-IsValid start (Call.marks n) b v =
          counted-IsValid start b (b.accounting_unavailable + count_of n) v
      perform-IsValid start (Call.opens s bar id) b v = open_position-IsValid start s bar id b v
      perform-IsValid start (Call.closes ticker price x) b v =
          close_at-IsValid lower seconds_between start ticker price x (get ticker b.open_positions)
            b v

      -- After every history of calls on a broker where the invariant holds, where 0 is not below
      -- the tolerance, it holds: the capital is the starting one with the profits of the closed
      -- trades added in their order, each position stands under its ticker with its levels in
      -- order and a share at least, a broker that lacks accounting inputs is blocked, and no
      -- account but cash is below zero by more than the tolerance.
      pub broker_history-IsValid :
          (start : F) (cs : List (Call F)) (b : Broker F)
          → IsValid start b
          → IsValid start (history lower seconds_between cs b)
      unfolding history
      broker_history-IsValid start [] b v = v
      broker_history-IsValid start (c ∷ cs) b v =
          broker_history-IsValid start cs (perform lower seconds_between c b)
            (perform-IsValid start c b v)

pub paper_broker-IsValid :
    {F : Type 0} ⦃f : Float F⦄ (start pct : F) (policy : FillPolicy F) (account : Text)
    → f.lt zero_float tolerance ≡ false
    → IsValid start (paper_broker start pct policy account)
unfolding capital_after
paper_broker-IsValid ⦃f = f⦄ start pct policy account dust = record {
  ledger = refl;
  keys = tt;
  held = tt;
  frozen = λ k. absurd (k refl);
  solvent = λ a k. nothing a k;
}
  where
    nothing :
        (a : Account)
        → is_cash a ≡ false
        → f.lt (balance a (paper_broker start pct policy account).balances) tolerance ≡ false
    nothing cash k = cc
    nothing receivables k = dust
    nothing _ k = dust
