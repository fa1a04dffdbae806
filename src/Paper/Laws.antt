-- ===== src/Paper/Laws.antt =====
-- trades/executor.py: a frozen broker, a position opened and closed, and a posting that is refused.
use stock_signal.Common.{
  ℕ, ◌+◌, ◌≡◌, refl, ◌≢◌, sym, ◌∙◌, ap, Text, Bool, true, false, Option, none, some, List, [], ◌∷◌,
  ◌++◌, ◌==◌, Bool-cases, is_some, inl, inr, arith,
}
use stock_signal.Common.Float.{Float}
use stock_signal.Paper.Data.{
  Candidate, Position, Trade, Balances, Broker, Posting, is_text, get, put_key, number_or_zero,
}
use stock_signal.Paper.Overlay.{
  Result, ok, err, value_error, tolerance, post_deltas, restore_values, deltas,
  apply_accounting_posting, restore_accounting_state, mark_accounting_unavailable, is_complete,
  with_balances, freeze_if_unavailable, restore_with, count_restored, count_of,
}
use stock_signal.Paper.Broker.{
  Exit, is_admissible, position_of, open_position, trade_of, settle, close_at, close_position,
  is_price,
}
use stock_signal.Paper.Calls.{Call, perform, history}
use stock_signal.Paper.Data.{drop_key}
use mathlib.Core.Option.{some-injective}
use stock_signal.Paper.Tables.{get-put_key, drop_key-put_key, get-drop_key}
use stock_signal.Paper.Valid.{open_position-Opens}
use stock_signal.Paper.Invariant.{or_frozen_text}

is_some-none : {A : Type 0} (o : Option A) → is_some o ≡ false → o ≡ none
is_some-none none h = refl
is_some-none (some a) h = absurd (ground arith)

some-≢-none : {A : Type 0} (a : A) → some a ≢ none
some-≢-none a e = cc

module _ {F : Type 0} ⦃f : Float F⦄ where
  open f use {lt, add}

  -- No new position, and still blocked.
  pub record IsFrozen (b c : Broker F) : Type 0 where
    pub blocked : is_text c.blocked ≡ true
    pub fewer :
        (t : Text)
        → is_some (get t c.open_positions) ≡ true
        → is_some (get t b.open_positions) ≡ true

  balances-IsFrozen :
      (b : Broker F) (p : Result (Unit {0}) × Balances F)
      → is_text b.blocked ≡ true
      → IsFrozen b (with_balances b p).1
  balances-IsFrozen b (r, x) h = record { blocked = h; fewer = λ t k. k }

  counted-IsFrozen :
      (b c : Broker F) (count : ℕ)
      → IsFrozen b c
      → IsFrozen b (freeze_if_unavailable (record c { accounting_unavailable = count }))
  counted-IsFrozen b c count h = elim (Bool-cases (count == 0)) [
    | inl none_missing ↦ rw none_missing (record { blocked = h.blocked; fewer = h.fewer })
    | inr some_missing ↦
        rw some_missing (record { blocked = or_frozen_text c.blocked; fewer = h.fewer })
  ]

  restored-IsFrozen :
      (b : Broker F) (count : ℕ) (p : Result (Unit {0}) × Broker F)
      → IsFrozen b p.1
      → IsFrozen b (count_restored count p).1
  restored-IsFrozen b count (ok u, c) h = counted-IsFrozen b c count h
  restored-IsFrozen b count (err e, c) h = h

  apply-IsFrozen :
      (p : Posting F) (b : Broker F)
      → is_text b.blocked ≡ true
      → IsFrozen b (apply_accounting_posting p b).1
  unfolding apply_accounting_posting
  apply-IsFrozen p b h = elim (Bool-cases (is_text p.unavailable_reason)) [
    | inl missing ↦ rw missing (record { blocked = or_frozen_text b.blocked; fewer = λ t k. k })
    | inr there ↦ rw there (balances-IsFrozen b (post_deltas (deltas p) b.balances) h)
  ]

  restore_with-IsFrozen :
      (complete : Bool) (summary : Posting F) (count : ℕ) (b : Broker F)
      → is_text b.blocked ≡ true
      → IsFrozen b (restore_with complete summary count b).1
  restore_with-IsFrozen false summary count b h = record { blocked = h; fewer = λ t k. k }
  restore_with-IsFrozen true summary count b h =
      restored-IsFrozen b count (with_balances b (restore_values (deltas summary) b.balances))
        (balances-IsFrozen b (restore_values (deltas summary) b.balances) h)

  open-IsFrozen :
      (s : Candidate F) (bar : ℕ) (id : Option ℕ) (b : Broker F)
      → is_text b.blocked ≡ true
      → IsFrozen b (open_position s bar id b).1
  open-IsFrozen s bar id b h = elim (open_position-Opens s bar id b) [
    | inl e ↦ rw e (record { blocked = h; fewer = λ t k. k })
    | inr (n, _, g, e) ↦ absurd (ground arith)
  ]

  some_there :
      (t : Text) (p : Option (Position F)) → is_some p ≡ true → (q : Position F) × (p ≡ some q)
  some_there t none h = absurd (ground arith)
  some_there t (some q) h = (q, refl)

  module _ (lower : Text → Text) (seconds_between : Text → Text → F) where
    close-IsFrozen :
        (ticker : Text) (price : F) (x : Exit) (o : Option (Position F)) (b : Broker F)
        → is_text b.blocked ≡ true
        → IsFrozen b (close_at lower seconds_between ticker price x o b).1
    close-IsFrozen ticker price x none b h = record { blocked = h; fewer = λ t k. k }
    close-IsFrozen ticker price x (some p) b h = elim (Bool-cases (is_price price)) [
      | inl good ↦ rw good (record {
        blocked = h;
        fewer = λ t k.
            let (q, e) = some_there t (get t (drop_key ticker b.open_positions)) k in
            get-drop_key t ticker q b.open_positions e;
      })
      | inr bad ↦ rw bad (record { blocked = h; fewer = λ t k. k })
    ]

    perform-IsFrozen :
        (c : Call F) (b : Broker F)
        → is_text b.blocked ≡ true
        → IsFrozen b (perform lower seconds_between c b)
    unfolding perform restore_accounting_state mark_accounting_unavailable close_position
    perform-IsFrozen (Call.posts p) b h = apply-IsFrozen p b h
    perform-IsFrozen (Call.restores s none) b h = record { blocked = h; fewer = λ t k. k }
    perform-IsFrozen (Call.restores s (some n)) b h = restore_with-IsFrozen (is_complete s) s n b h
    perform-IsFrozen (Call.marks n) b h =
        counted-IsFrozen b b (b.accounting_unavailable + count_of n)
          (record { blocked = h; fewer = λ t k. k })
    perform-IsFrozen (Call.opens s bar id) b h = open-IsFrozen s bar id b h
    perform-IsFrozen (Call.closes ticker price x) b h =
        close-IsFrozen ticker price x (get ticker b.open_positions) b h

    -- Whatever is called on a broker that is blocked, it stays blocked, and each position that is
    -- open afterwards was open before.
    pub history-IsFrozen :
        (cs : List (Call F)) (b : Broker F)
        → is_text b.blocked ≡ true
        → IsFrozen b (history lower seconds_between cs b)
    unfolding history
    history-IsFrozen [] b h = record { blocked = h; fewer = λ t k. k }
    history-IsFrozen (c ∷ cs) b h =
        let one = perform-IsFrozen c b h in
        let rest = history-IsFrozen cs (perform lower seconds_between c b) one.blocked in
        record { blocked = rest.blocked; fewer = λ t k. one.fewer t (rest.fewer t k) }

    close_found :
        (ticker : Text) (price : F) (x : Exit) (b : Broker F) (p : Position F)
        → is_price price ≡ true
        → get ticker b.open_positions ≡ some p
        → close_position lower seconds_between ticker price x b ≡ (
          ok (trade_of lower seconds_between b.policy p price x),
          settle ticker (trade_of lower seconds_between b.policy p price x) b,
        )
    unfolding close_position
    close_found ticker price x b p g e = rw e (rw g refl)

    no_position :
        (s : Candidate F) (b : Broker F)
        → is_admissible s b ≡ true
        → get s.ticker b.open_positions ≡ none
    no_position s b a = is_some-none (get s.ticker b.open_positions) (ground arith)

    close_just_opened :
        (s : Candidate F) (price : F) (x : Exit) (b : Broker F) (p : Position F)
        → is_price price ≡ true
        → get s.ticker b.open_positions ≡ none
        → let t = trade_of lower seconds_between b.policy p price x in
          (close_position lower seconds_between s.ticker price x
              (record b { open_positions = put_key s.ticker p b.open_positions })
            ≡ (
              ok t,
              record b { capital = add b.capital t.pnl; closed_trades = b.closed_trades ++ t ∷ [] },
            ))
    close_just_opened s price x b p g o =
        let t : Trade F = trade_of lower seconds_between b.policy p price x in
        let closed : List (Text × Position F) → Result (Trade F) × Broker F = λ ps. (
          ok t,
          record b {
            capital = add b.capital t.pnl;
            open_positions = ps;
            closed_trades = b.closed_trades ++ t ∷ [];
          },
        ) in
        close_found s.ticker price x
          (record b { open_positions = put_key s.ticker p b.open_positions }) p g
          (get-put_key s.ticker p b.open_positions)
        ∙ ap closed (drop_key-put_key s.ticker p b.open_positions o)

    -- A position that was just opened is closed at any price above zero: the trade is that of the
    -- position, the capital changes by its profit, and the open positions are those of before.
    pub close_position-open_position :
        (s : Candidate F) (bar : ℕ) (id : Option ℕ) (price : F) (x : Exit) (b b' : Broker F)
        (p : Position F)
        → open_position s bar id b ≡ (some p, b')
        → is_price price ≡ true
        → let t = trade_of lower seconds_between b.policy p price x in
          (close_position lower seconds_between s.ticker price x b' ≡ (
            ok t,
            record b { capital = add b.capital t.pnl; closed_trades = b.closed_trades ++ t ∷ [] },
          ))
    close_position-open_position s bar id price x b b' p h g =
        elim (open_position-Opens s bar id b) [
          | inl e ↦ absurd (some-≢-none p (ap (λ r. r.0) (sym h ∙ e)))
          | inr (n, _, a, e) ↦
              let made = some-injective p (position_of s bar id n b) (ap (λ r. r.0) (sym h ∙ e)) in
              let after = ap (λ r. r.1) (sym h ∙ e) in
              rw after (
                rw made
                  (close_just_opened s price x b (position_of s bar id n b) g (no_position s b a)))
        ]

  -- A posting whose second delta would take the receivables below zero raises, and leaves its cash
  -- in the account.
  pub refused_posting_keeps_cash :
      (p : Posting F) (b : Broker F)
      → is_text p.unavailable_reason ≡ false
      → lt (add b.balances.receivables (number_or_zero p.receivable_delta)) tolerance ≡ true
      → apply_accounting_posting p b ≡ (
        err value_error,
        record b {
          balances = record b.balances {
            accounting_cash = add b.balances.accounting_cash (number_or_zero p.cash_delta);
          };
        },
      )
  unfolding apply_accounting_posting post_deltas
  refused_posting_keeps_cash p b r h = rw r (rw h refl)
