-- ===== src/Alpaca/Reconciled.antt =====
-- trades/alpaca_broker.py: `reconcile` returns True only where everything agrees.
use stock_signal.Common.{
  Text, true, not, Option, none, some, List, [], ◌∷◌, ◌≡◌, refl, sym, ◌∙◌, ap, subst, All, is_some,
  inl, inr,
}
use stock_signal.Common.Float.{Float}
use stock_signal.Alpaca.Data.{Result, ok, err}
use stock_signal.Alpaca.Broker.{
  read_account, read_positions, Client, Broker, BrokerPosition, continue,
}
use stock_signal.Alpaca.Reconcile.{
  expected_positions, block_on_exposure_mismatch, fetch_broker_positions, sync_each,
  cancel_flatten_entries, positions_from,
}
use stock_signal.Alpaca.Checks.{
  block_on_unsettled_orders, note_safety, with_equity, record_broker_observation, reset, checks,
  finish, reconcile,
}
use stock_signal.Alpaca.Confirmed.{
  IsSettled, IsProtected, Matches, IsConfirmed, exposure_confirmed, orders_confirmed,
  protection_confirmed, same_positions-Matches, IsAnswered, positions_from-IsAnswered,
}
use stock_signal.Alpaca.Leads.{IsCurrent, HoldsStored}
use stock_signal.Alpaca.Loaded.{synced-IsCurrent}
use stock_signal.Paper.Data.{is_text}

clear_of : (o : Option Text) → not (is_some o) ≡ true → o ≡ none
clear_of none h = refl
clear_of (some t) h = cc

module _ {F : Type 0} ⦃f : Float F⦄ where
  -- The checks pass: they change nothing but the note that it is safe to flatten.
  record HasPassed (observed : List (Text × F)) (b : Broker F) : Type 0 where
    matching : Matches observed (expected_positions b.open_positions)
    settled : All IsSettled b.store.orders
    protected : All (λ p. IsProtected b.store p.1) b.open_positions
    clear : b.blocked ≡ none
    result : checks observed b ≡ record b { safe_to_flatten = true }

  checks_passed :
      (observed : List (Text × F)) (b : Broker F)
      → (checks observed b).blocked ≡ none
      → HasPassed observed b
  unfolding checks
  checks_passed observed b h =
      let one = block_on_exposure_mismatch observed b in
      let two = block_on_unsettled_orders one in
      let three = note_safety two in
      let (guarded, kept) = protection_confirmed three h in
      let two_clear : two.blocked ≡ none = sym (ap (λ c. c.blocked) kept) ∙ h in
      let (ended, two_same) = orders_confirmed one two_clear in
      let one_clear : one.blocked ≡ none = sym (ap (λ c. c.blocked) two_same) ∙ two_clear in
      let (alike, one_same) = exposure_confirmed observed b one_clear in
      let clear : b.blocked ≡ none = sym (ap (λ c. c.blocked) one_same) ∙ one_clear in
      let noted : three ≡ record b { safe_to_flatten = true } =
        ap note_safety (two_same ∙ one_same)
        ∙ ap
            (λ (o : Option Text).
              let c : Broker F = record b { safe_to_flatten = not (is_some o) } in c)
            clear in
      record {
        matching = same_positions-Matches observed (expected_positions b.open_positions) alike;
        settled = subst (λ c. All IsSettled c.store.orders) one_same ended;
        protected = subst (λ c. All (λ p. IsProtected c.store p.1) c.open_positions) noted guarded;
        clear = clear;
        result = kept ∙ noted;
      }

  -- The broker after the checks passed, with what the last call leaves.
  abbrev passed_with : Broker F → F → Broker F
  passed_with b equity = record b { capital = equity; sent = read_account ∷ b.sent }

  passed-IsConfirmed :
      (client : Client F) (observed : List (Text × F)) (b : Broker F) (equity : Broker F → F)
      → IsAnswered client observed b.sent
      → IsCurrent b
      → HasPassed observed b
      → IsConfirmed client (
          record_broker_observation
            (some observed)
            (passed_with (checks observed b) (equity (checks observed b))))
  passed-IsConfirmed client observed b equity a g p =
      subst
        (λ c.
          IsConfirmed client (record_broker_observation (some observed) (passed_with c (equity c))))
        (sym p.result)
        (record {
          unblocked = p.clear;
          observed = observed;
          recorded =
              ap (λ o. some (record { confirmed = not (is_text o); positions = some observed }))
                p.clear;
          asked = b.sent;
          sent = refl;
          answered = a;
          matching = p.matching;
          stored = subst (Matches observed) (held g) p.matching;
          settled = p.settled;
          protected = p.protected;
        })
    where
      held : IsCurrent b → HoldsStored b
      held (inl noted) = absurd (noted p.clear)
      held (inr same) = same

  equity_clear :
      (client : Client F) (observed : List (Text × F)) (b : Broker F) (r : Result (Option F))
      → IsAnswered client observed b.sent
      → IsCurrent b
      → let after = record (checks observed b) { sent = read_account ∷ (checks observed b).sent } in
        (with_equity (r, after)).blocked ≡ none
        → IsConfirmed client (record_broker_observation (some observed) (with_equity (r, after)))
  unfolding with_equity
  equity_clear client observed b (err e) a g h = cc
  equity_clear client observed b (ok none) a g h =
      passed-IsConfirmed client observed b (λ c. c.capital) a g (checks_passed observed b h)
  equity_clear client observed b (ok (some v)) a g h =
      passed-IsConfirmed client observed b (λ c. v) a g (checks_passed observed b h)

  finish-IsConfirmed :
      (client : Client F) (r : Result (List (Text × F))) (b : Broker F)
      → ((observed : List (Text × F)) → r ≡ ok observed → IsAnswered client observed b.sent)
      → IsCurrent b
      → (finish client (r, b)).blocked ≡ none
      → IsConfirmed client (finish client (r, b))
  unfolding finish
  finish-IsConfirmed client (err e) b a g h = cc
  finish-IsConfirmed client (ok observed) b a g h =
      equity_clear client observed b (client.get_equity (read_account ∷ (checks observed b).sent))
        (a observed refl) g h

  -- The positions are the answer of the client.
  fetched-IsConfirmed :
      (client : Client F) (b : Broker F) (r : Result (List (BrokerPosition F)))
      → client.get_all_positions (read_positions ∷ b.sent) ≡ r
      → IsCurrent b
      → let fetched =
          continue r
            (λ ps c. (positions_from ps [], c))
            (record b { sent = read_positions ∷ b.sent }) in
        (finish client fetched).blocked ≡ none → IsConfirmed client (finish client fetched)
  fetched-IsConfirmed client b (err e) a g h =
      finish-IsConfirmed client (err e) (record b { sent = read_positions ∷ b.sent })
        (λ observed k. cc) g h
  fetched-IsConfirmed client b (ok ps) a g h =
      finish-IsConfirmed client (positions_from ps []) (record b { sent = read_positions ∷ b.sent })
        (λ observed k. positions_from-IsAnswered client ps observed b.sent a k) g h

  -- Let the positions that the object holds open be the stored open ones. When reconcile then
  -- returns True, the last calls were a read of all positions at the broker and one of the account;
  -- the broker's answer to the first was recorded as confirmed, with the signed quantity of each
  -- symbol. These are as many as the stored open trades, and as the positions held open, and each
  -- has the quantity of the one of its symbol. Every stored order has ended or is a leg that rests
  -- at the broker, and each position held open that was opened by a bracket has its entry filled
  -- and exactly two live legs, each for what is left.
  pub reconcile_confirms :
      (client : Client F) (b : Broker F)
      → HoldsStored b
      → (reconcile client b).0 ≡ true
      → IsConfirmed client (reconcile client b).1
  unfolding reconcile
  reconcile_confirms client b held h =
      let synced = sync_each client b.store.orders b.store.orders (reset b) in
      let cut = cancel_flatten_entries client synced in
      fetched-IsConfirmed client cut (client.get_all_positions (read_positions ∷ cut.sent)) refl
        (synced-IsCurrent client b.store.orders b.store.orders (reset b) (inr held))
        (clear_of (finish client (fetch_broker_positions client cut)).blocked h)
