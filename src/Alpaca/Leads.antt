-- ===== src/Alpaca/Leads.antt =====
-- trades/alpaca_broker.py: from what holds before an action to what holds where it returns.
use stock_signal.Common.{
  Text, none, List, [], ◌∷◌, ◌++◌, ◌≡◌, ◌≢◌, refl, sym, ap, ◌∙◌, ◌⊎◌, inl, inr, map, any,
  Bool-cases, ◌==◌,
}
use stock_signal.Common.Float.{Float}
use stock_signal.Paper.Data.{of_count}
use stock_signal.Alpaca.Data.{Result, ok, err, Error, TradeRow, Store, Held}
use stock_signal.Alpaca.Fills.{signed}
use stock_signal.Alpaca.Broker.{
  Broker, Action, Call, continue, ◌>>=◌, handled, attempt, ask, mark_unresolved, held_of,
  reload_from,
}
use stock_signal.Alpaca.Orders.{order_row}
use stock_signal.Alpaca.Reconcile.{expected_positions, expected_quantity}
use stock_signal.Alpaca.Confirmed.{stored_positions}

module _ {A : Type 0} where
  append-nil : (xs : List A) → xs ++ [] ≡ xs
  append-nil [] = refl
  append-nil (x ∷ xs) = ap (λ ys. x ∷ ys) (append-nil xs)

  append_assoc : (xs ys zs : List A) → (xs ++ ys) ++ zs ≡ xs ++ (ys ++ zs)
  append_assoc [] ys zs = refl
  append_assoc (x ∷ xs) ys zs = ap (λ s. x ∷ s) (append_assoc xs ys zs)

  map-append : {B : Type 0} (f : B → A) (xs ys : List B) → map f (xs ++ ys) ≡ map f xs ++ map f ys
  map-append f [] ys = refl
  map-append f (x ∷ xs) ys = ap (λ s. f x ∷ s) (map-append f xs ys)

module _ {F : Type 0} where
  abbrev pub Returned : {A : Type 0} → (Broker F → Type 0) → Result A → Broker F → Type 0
  Returned Q (ok a) c = Q c
  Returned Q (err e) c = Unit

  -- Where the action returns, what held before it has led to what holds after it.
  abbrev pub Leads : {A : Type 0} → (Broker F → Type 0) → Action F A → (Broker F → Type 0) → Type 0
  Leads P m Q = (b : Broker F) → P b → Returned Q (m b).0 (m b).1

  continue-Returned :
      {A B : Type 0} (P Q : Broker F → Type 0) (r : Result A) (k : A → Action F B) (c : Broker F)
      → ((a : A) → Leads P (k a) Q)
      → Returned P r c
      → Returned Q (continue r k c).0 (continue r k c).1
  continue-Returned P Q (ok a) k c h p = h a c p
  continue-Returned P Q (err e) k c h p = tt

  pub Leads-bind :
      {A B : Type 0} (O P Q : Broker F → Type 0) (m : Action F A) (k : A → Action F B)
      → Leads O m P
      → ((a : A) → Leads P (k a) Q)
      → Leads O (m >>= k) Q
  Leads-bind O P Q m k h g b o = continue-Returned P Q (m b).0 k (m b).1 g (h b o)

module _ {F : Type 0} ⦃f : Float F⦄ where
  abbrev quantity_of : TradeRow F → Text × F
  quantity_of t = (t.ticker, signed t.direction (of_count t.remaining_shares))

  abbrev pub HoldsStored : Broker F → Type 0
  HoldsStored b = expected_positions b.open_positions ≡ stored_positions b.store

  -- It has noted a failure, or it holds the stored positions.
  abbrev pub IsCurrent : Broker F → Type 0
  IsCurrent b = (b.blocked ≢ none) ⊎ HoldsStored b

  abbrev pub Keeping : {A : Type 0} → Action F A → Type 0
  Keeping m = Leads IsCurrent m IsCurrent

  mark_unresolved-IsCurrent :
      (id : Text) (e : Error) (b : Broker F) → IsCurrent (mark_unresolved id e b).1
  unfolding mark_unresolved
  mark_unresolved-IsCurrent id e b = inl λ k. cc

  -- A failure is noted.
  pub attempt-IsCurrent :
      (id : Text) (m : Action F (Unit {0}))
      → Keeping m
      → (b : Broker F) → IsCurrent b
      → IsCurrent (attempt m (mark_unresolved id) b).1
  attempt-IsCurrent id m h b g = noted (m b).0 (m b).1 (h b g)
    where
      noted :
          (r : Result (Unit {0})) (c : Broker F)
          → Returned IsCurrent r c
          → IsCurrent (handled (mark_unresolved id) (r, c)).1
      noted (ok u) c k = k
      noted (err e) c k = mark_unresolved-IsCurrent id e c

  pub attempt-Keeping :
      (id : Text) (m : Action F (Unit {0})) → Keeping m → Keeping (attempt m (mark_unresolved id))
  attempt-Keeping id m h b g =
      any_result (attempt m (mark_unresolved id) b).0 (attempt m (mark_unresolved id) b).1
        (attempt-IsCurrent id m h b g)
    where
      any_result : (r : Result (Unit {0})) (c : Broker F) → IsCurrent c → Returned IsCurrent r c
      any_result (ok u) c k = k
      any_result (err e) c k = tt

  pub ask-Keeping :
      {A : Type 0} (call : Call F) (answer : List (Call F) → Result A) → Keeping (ask call answer)
  ask-Keeping call answer b g =
      elim (answer (call ∷ b.sent))
        as (λ r. Returned IsCurrent r (record b { sent = call ∷ b.sent })) [ ok a ↦ g | err e ↦ tt ]

  pub order_row-Keeping : (id : Text) → Keeping (order_row id)
  order_row-Keeping id b g = elim (order_row id b).0 as (λ r. Returned IsCurrent r b) [
    | ok a ↦ g
    | err e ↦ tt
  ]

  -- The positions that were read are those of the open trades.
  pub reload_from-all :
      (s : Store F) (ts : List (TradeRow F)) (acc : List (Text × Held F))
      → (reload_from s ts acc).0 ≡ ok tt
      → expected_positions (reload_from s ts acc).1 ≡ expected_positions acc ++ map quantity_of ts
  unfolding reload_from
  reload_from-all s [] acc h = sym (append-nil (expected_positions acc))
  reload_from-all s (t ∷ ts) acc h = elim (Bool-cases (any (λ p. p.0 == t.ticker) acc)) [
    | inl twice ↦ absurd (refused (rw twice at h))
    | inr once ↦
        let k : (reload_from s ts (acc ++ (t.ticker, held_of s t) ∷ [])).0 ≡ ok tt = rw once at h in
        rw once (
          reload_from-all s ts (acc ++ (t.ticker, held_of s t) ∷ []) k
          ∙ ap (λ xs. xs ++ map quantity_of ts)
              (map-append (λ p. (p.0, expected_quantity p.1)) acc ((t.ticker, held_of s t) ∷ []))
          ∙ append_assoc (expected_positions acc) (quantity_of t ∷ []) (map quantity_of ts))
  ]
    where
      refused : {x : Error} → ◌≢◌ {A = Result (Unit {0})} (err x) (ok tt)
      refused k = cc
