-- ===== src/Alpaca/Confirmed.antt =====
-- trades/alpaca_broker.py: what holds when `reconcile` returns True.
use stock_signal.Common.{
  ℕ, ◌+◌, Text, Bool, true, false, not, ◌&&◌, Option, none, some, List, [], ◌∷◌, ◌==◌, ◌≡◌, refl,
  ◌⊎◌, ◌∙◌, ap, Bool-cases, inl, inr, arith, All, All-map, any, length, ==_iff, ◌≢◌, Option-cases,
  coalesce, if◌then◌else◌, sym, subst, map, select,
}
use stock_signal.Common.Float.{Float}
use stock_signal.Paper.Data.{get, put_key, of_count}
use stock_signal.Alpaca.Fills.{signed}
use stock_signal.Alpaca.Data.{
  is_terminal, is_resting, OrderState, filled, is_filled, OrderRow, Store, Held, is_bracket,
  is_bracket_leg, pending_submission, unresolved, new, accepted, held, partially_filled, canceled,
  rejected, expired, suspended, other_state, Result, ok, err, missing_quantity, is_open,
}
use stock_signal.Paper.Tables.{get-put_key}
use stock_signal.Alpaca.Broker.{
  Broker, Client, BrokerPosition, Call, read_positions, read_account, entry_order,
}
use stock_signal.Alpaca.Reconcile.{
  or_text, positions_from, signed_quantity, same_positions, within, has_quantity,
  expected_positions, block_on_exposure_mismatch, exposure_mismatch, execution_pending,
  protection_incomplete,
}
use stock_signal.Alpaca.Checks.{
  every, is_settled, block_on_unsettled_orders, live_legs, covers, is_protected, is_protected_in,
  block_on_incomplete_bracket_protection,
}

pub every_All {ℓ} :
    {A : Type ℓ} (p : A → Bool) (xs : List A) → every p xs ≡ true → All (λ x. p x ≡ true) xs
every_All p [] h = tt
every_All p (x ∷ xs) h = elim (Bool-cases (p x)) [
  | inl good ↦ (good, every_All p xs (rw good at h))
  | inr bad ↦ let k : false ≡ true = rw bad at h in cc
]

none_All {ℓ} :
    {A : Type ℓ} (p : A → Bool) (xs : List A)
    → any (λ x. not (p x)) xs ≡ false
    → All (λ x. p x ≡ true) xs
none_All p [] h = tt
none_All p (x ∷ xs) h = elim (Bool-cases (p x)) [
  | inl good ↦ (good, none_All p xs (rw good at h))
  | inr bad ↦ let k : true ≡ false = rw bad at h in cc
]

pub or_text_lem : (o : Option Text) (t : Text) → or_text o t ≢ none
or_text_lem none t h = cc
or_text_lem (some u) t h = ground arith

and_true : (a b : Bool) → (a && b) ≡ true → (a ≡ true) × (b ≡ true)
and_true true b h = (refl, h)
and_true false b h = cc

filled_lem : (s : OrderState) → is_filled s ≡ true → s ≡ filled
filled_lem filled h = refl
filled_lem pending_submission h = cc
filled_lem unresolved h = cc
filled_lem new h = cc
filled_lem accepted h = cc
filled_lem held h = cc
filled_lem partially_filled h = cc
filled_lem canceled h = cc
filled_lem rejected h = cc
filled_lem expired h = cc
filled_lem suspended h = cc
filled_lem (other_state t) h = cc

module _ {F : Type 0} where
  -- An order that ended, or a leg that rests at the broker.
  abbrev pub IsSettled : OrderRow F → Type 0
  IsSettled row =
      (is_terminal row.state ≡ true) ⊎ ((is_bracket_leg row ≡ true) × (is_resting row.state ≡ true))

  -- The bracket of a position was filled, and its two legs at the broker are for what is left.
  pub record IsProtected (s : Store F) (h : Held F) : Type 0 where
    pub covered :
        (parent : OrderRow F)
        → entry_order s h.trade ≡ some parent
        → is_bracket parent ≡ true
        → (parent.state ≡ filled)
          × (length (live_legs s.orders h.trade.id) ≡ 2)
          × All
              (λ leg. leg.payload.broker_qty ≡ some (h.trade.remaining_shares + leg.applied_qty))
              (live_legs s.orders h.trade.id)

  is_settled-IsSettled : (row : OrderRow F) → is_settled row ≡ true → IsSettled row
  is_settled-IsSettled row h = elim (Bool-cases (is_terminal row.state)) [
    | inl ended ↦ inl ended
    | inr live ↦ inr (and_true (is_bracket_leg row) (is_resting row.state) (rw live at h))
  ]

  covers_lem :
      (remaining : ℕ) (row : OrderRow F)
      → covers remaining row ≡ true
      → row.payload.broker_qty ≡ some (remaining + row.applied_qty)
  covers_lem remaining row h = elim (Option-cases row.payload.broker_qty) [
    | inl lacking ↦ let k : false ≡ true = rw lacking at h in cc
    | inr (q, e) ↦
        let k : (q == remaining + row.applied_qty) ≡ true = rw e at h in
        e ∙ ap some ((==_iff q (remaining + row.applied_qty)).0 k)
  ]

  bracket_protected :
      (orders : List (OrderRow F)) (h : Held F) (parent : OrderRow F)
      → is_protected orders h (some parent) ≡ true
      → is_bracket parent ≡ true
      → (parent.state ≡ filled)
        × (length (live_legs orders h.trade.id) ≡ 2)
        × All
            (λ leg. leg.payload.broker_qty ≡ some (h.trade.remaining_shares + leg.applied_qty))
            (live_legs orders h.trade.id)
  bracket_protected orders h parent e bracket =
      let legs = live_legs orders h.trade.id in
      let three : (length legs == 2
            && (is_filled parent.state && every (covers h.trade.remaining_shares) legs))
          ≡ true =
        rw bracket at e in
      let (two, rest) = and_true (length legs == 2) _ three in
      let (full, all) = and_true (is_filled parent.state) _ rest in
      (
        filled_lem parent.state full,
        (==_iff (length legs) 2).0 two,
        All-map (λ leg. covers h.trade.remaining_shares leg ≡ true) _ legs
            (covers_lem h.trade.remaining_shares)
            (every_All (covers h.trade.remaining_shares) legs all),
      )

  is_protected-IsProtected :
      (s : Store F) (h : Held F)
      → is_protected s.orders h (entry_order s h.trade) ≡ true
      → IsProtected s h
  is_protected-IsProtected s h e = record {
    covered = λ parent found bracket. bracket_protected s.orders h parent (rw found at e) bracket;
  }

module _ {F : Type 0} ⦃f : Float F⦄ where
  open f use {eq}

  -- The signed quantity of the last position with this symbol.
  abbrev pub reported_quantity : Text → List (BrokerPosition F) → Option F
  reported_quantity k [] = none
  reported_quantity k (p ∷ ps) =
      let later = reported_quantity k ps in
      coalesce later (
        if p.symbol == k
        then elim p.qty [ none ↦ none | some q ↦ some (signed_quantity p.side q) ]
        else none)

  -- The client's answer to the last call that was sent, a read of all positions, is these.
  pub record IsAnswered (client : Client F) (observed : List (Text × F)) (sent : List (Call F))
      : Type 0 where
    pub earlier : List (Call F)
    pub last : sent ≡ read_positions ∷ earlier
    pub positions : List (BrokerPosition F)
    pub answered : client.get_all_positions sent ≡ ok positions
    pub reported : (k : Text) → get k observed ≡ reported_quantity k positions

  coalesce_assoc : (a b c : Option F) → coalesce a (coalesce b c) ≡ coalesce (coalesce a b) c
  coalesce_assoc none b c = refl
  coalesce_assoc (some x) b c = refl

  coalesce-none : (a : Option F) → coalesce a none ≡ a
  coalesce-none none = refl
  coalesce-none (some x) = refl

  get-put_other :
      (k i : Text) (v : F) (xs : List (Text × F))
      → (i == k) ≡ false
      → get k (put_key i v xs) ≡ get k xs
  get-put_other k i v [] h = rw h refl
  get-put_other k i v ((j, w) ∷ xs) h = elim (Bool-cases (j == i)) [
    | inl same ↦
        let e : j ≡ i = (==_iff j i).0 same in
        let other : (j == k) ≡ false = subst (λ n. (n == k) ≡ false) (sym e) h in
        rw (same, h, other) refl
    | inr differs ↦ elim (Bool-cases (j == k)) [
      | inl here ↦ rw (differs, here) refl
      | inr away ↦ rw (differs, away) (get-put_other k i v xs h)
    ]
  ]

  -- The table of the positions has what was reported, or what it had.
  pub positions_from-get :
      (ps : List (BrokerPosition F)) (acc observed : List (Text × F)) (k : Text)
      → positions_from ps acc ≡ ok observed
      → get k observed ≡ coalesce (reported_quantity k ps) (get k acc)
  unfolding positions_from
  positions_from-get [] acc observed k h = cc
  positions_from-get (p ∷ ps) acc observed k h = elim (Option-cases p.qty) [
    | inl lacking ↦
        let c : ◌≡◌ {A = Result (List (Text × F))} (err missing_quantity) (ok observed) =
          rw lacking at h in
        cc
    | inr (q, e) ↦
        let rest : positions_from ps (put_key p.symbol (signed_quantity p.side q) acc)
            ≡ ok observed =
          rw e at h in
        let tail =
          positions_from-get ps (put_key p.symbol (signed_quantity p.side q) acc) observed k rest in
        elim (Bool-cases (p.symbol == k)) [
          | inl here ↦
              let put : get k (put_key p.symbol (signed_quantity p.side q) acc)
                  ≡ some (signed_quantity p.side q) =
                subst
                  (λ i.
                    get i (put_key p.symbol (signed_quantity p.side q) acc)
                    ≡ some (signed_quantity p.side q))
                  ((==_iff p.symbol k).0 here)
                  (get-put_key p.symbol (signed_quantity p.side q) acc) in
              rw (here, e)
                (tail
                  ∙ ap (coalesce (reported_quantity k ps)) put
                  ∙ coalesce_assoc (reported_quantity k ps) (some (signed_quantity p.side q))
                      (get k acc))
          | inr away ↦ rw away (
              tail
              ∙ ap (coalesce (reported_quantity k ps))
                  (get-put_other k p.symbol (signed_quantity p.side q) acc away)
              ∙ coalesce_assoc (reported_quantity k ps) none (get k acc))
        ]
  ]

  pub positions_from-IsAnswered :
      (client : Client F) (ps : List (BrokerPosition F)) (observed : List (Text × F))
      (earlier : List (Call F))
      → client.get_all_positions (read_positions ∷ earlier) ≡ ok ps
      → positions_from ps [] ≡ ok observed
      → IsAnswered client observed (read_positions ∷ earlier)
  positions_from-IsAnswered client ps observed earlier a h = record {
    earlier = earlier;
    last = refl;
    positions = ps;
    answered = a;
    reported = λ k. positions_from-get ps [] observed k h ∙ coalesce-none (reported_quantity k ps);
  }

  -- The positions of the broker are these, with their signed quantities.
  abbrev pub Matches : List (Text × F) → List (Text × F) → Type 0
  Matches observed expected =
      (length observed ≡ length expected)
      × All (λ p. (q : F) × (get p.0 expected ≡ some q) × (eq q p.1 ≡ true)) observed

  within-All :
      (xs expected : List (Text × F))
      → within xs expected ≡ true
      → All (λ p. (q : F) × (get p.0 expected ≡ some q) × (eq q p.1 ≡ true)) xs
  within-All [] expected h = tt
  within-All ((k, q) ∷ xs) expected h =
      let (here, rest) = and_true (has_quantity (get k expected) q) (within xs expected) h in
      (
        elim (Option-cases (get k expected)) [
          | inl lacking ↦ let c : false ≡ true = rw lacking at here in cc
          | inr (r, e) ↦ (r, e, rw e at here)
        ],
        within-All xs expected rest,
      )

  pub same_positions-Matches : (p q : List (Text × F)) → same_positions p q ≡ true → Matches p q
  same_positions-Matches p q h =
      let (size, inside) = and_true (length p == length q) (within p q) h in
      ((==_iff (length p) (length q)).0 size, within-All p q inside)

  -- The quantities of the stored open trades, by their tickers.
  abbrev pub stored_positions : Store F → List (Text × F)
  stored_positions s =
      map (λ t. (t.ticker, signed t.direction (of_count t.remaining_shares)))
        (select is_open s.trades)

  pub record IsConfirmed (client : Client F) (b : Broker F) : Type 0 where
    pub unblocked : b.blocked ≡ none
    pub observed : List (Text × F)
    pub recorded : b.observation ≡ some (record { confirmed = true; positions = some observed })
    pub asked : List (Call F)
    pub sent : b.sent ≡ read_account ∷ asked
    pub answered : IsAnswered client observed asked
    pub matching : Matches observed (expected_positions b.open_positions)
    pub stored : Matches observed (stored_positions b.store)
    pub settled : All IsSettled b.store.orders
    pub protected : All (λ p. IsProtected b.store p.1) b.open_positions

  pub exposure_confirmed :
      (observed : List (Text × F)) (b : Broker F)
      → (block_on_exposure_mismatch observed b).blocked ≡ none
      → (same_positions observed (expected_positions b.open_positions) ≡ true)
        × (block_on_exposure_mismatch observed b ≡ b)
  unfolding block_on_exposure_mismatch
  exposure_confirmed observed b h =
      elim (Bool-cases (same_positions observed (expected_positions b.open_positions))) [
        | inl alike ↦ (alike, rw alike refl)
        | inr differ ↦ let c : some exposure_mismatch ≡ none = rw differ at h in cc
      ]

  pub orders_confirmed :
      (b : Broker F)
      → (block_on_unsettled_orders b).blocked ≡ none
      → All IsSettled b.store.orders × (block_on_unsettled_orders b ≡ b)
  unfolding block_on_unsettled_orders
  orders_confirmed b h = elim (Bool-cases (any (λ row. not (is_settled row)) b.store.orders)) [
    | inl pending ↦ absurd (or_text_lem b.blocked execution_pending (rw pending at h))
    | inr none_left ↦ (
      All-map (λ row. is_settled row ≡ true) IsSettled b.store.orders is_settled-IsSettled
          (none_All is_settled b.store.orders none_left),
      rw none_left refl,
    )
  ]

  pub protection_confirmed :
      (b : Broker F)
      → (block_on_incomplete_bracket_protection b).blocked ≡ none
      → All (λ p. IsProtected b.store p.1) b.open_positions
        × (block_on_incomplete_bracket_protection b ≡ b)
  unfolding block_on_incomplete_bracket_protection
  protection_confirmed b h = elim (Bool-cases (every (is_protected_in b) b.open_positions)) [
    | inl good ↦ (
      All-map (λ p. is_protected_in b p ≡ true) _ b.open_positions
          (λ p e. is_protected-IsProtected b.store p.1 e)
          (every_All (is_protected_in b) b.open_positions good),
      rw good refl,
    )
    | inr bad ↦ absurd (or_text_lem b.blocked protection_incomplete (rw bad at h))
  ]
