-- ===== src/Alpaca/Keeps.antt =====
-- trades/alpaca_broker.py: actions that keep the invariant of the tables, and how they are put
-- together.
use stock_signal.Common.{
  Text, Bool, true, false, [], ◌∷◌, ◌++◌, ◌≡◌, refl, any, update, arith, All-append,
}
use stock_signal.Alpaca.Data.{Error, Result, ok, err, OrderRow, Store, has_id}
use stock_signal.Alpaca.Broker.{
  Broker, Action, continue, ◌>>=◌, when, handled, attempt, set_orders, mark_unresolved,
}
use stock_signal.Alpaca.Keyed.{
  HasUniqueKeys-update, HasUniqueKeys-append, All-update, absent, Follows-refl, Follows-append,
  Follows-update,
}
use stock_signal.Alpaca.Valid.{IsOrder, IsValid, Grows, Grows-refl, Later, Later-refl, Later-trans}

module _ {F : Type 0} where
  -- Whatever it returns or raises, the action leaves good tables that go on from the ones before.
  abbrev pub Keeps : {A : Type 0} → Action F A → Type 0
  Keeps m = (b : Broker F) → IsValid b.store → Later b.store (m b).1.store

  -- The same of a step that cannot raise.
  abbrev pub Moves : (Broker F → Broker F) → Type 0
  Moves g = (b : Broker F) → IsValid b.store → Later b.store (g b).store

  continue-Later :
      {A B : Type 0} (s : Store F) (r : Result A) (k : A → Action F B) (c : Broker F)
      → ((a : A) → Keeps (k a))
      → Later s c.store
      → Later s (continue r k c).1.store
  continue-Later s (ok a) k c h l = Later-trans s c.store _ l (h a c l.valid)
  continue-Later s (err e) k c h l = l

  pub Keeps-bind :
      {A B : Type 0} (m : Action F A) (k : A → Action F B)
      → Keeps m
      → ((a : A) → Keeps (k a))
      → Keeps (m >>= k)
  Keeps-bind m k h g b v = continue-Later b.store (m b).0 k (m b).1 g (h b v)

  handled-Later :
      (s : Store F) (k : Error → Action F (Unit {0})) (r : Result (Unit {0})) (c : Broker F)
      → ((e : Error) → Keeps (k e))
      → Later s c.store
      → Later s (handled k (r, c)).1.store
  handled-Later s k (ok u) c h l = l
  handled-Later s k (err e) c h l = Later-trans s c.store _ l (h e c l.valid)

  pub Keeps-attempt :
      (m : Action F (Unit {0})) (k : Error → Action F (Unit {0}))
      → Keeps m
      → ((e : Error) → Keeps (k e))
      → Keeps (attempt m k)
  Keeps-attempt m k h g b v = handled-Later b.store k (m b).0 (m b).1 g (h b v)

  pub Keeps-when : (test : Bool) (m : Action F (Unit {0})) → Keeps m → Keeps (when test m)
  Keeps-when true m h b v = h b v
  Keeps-when false m h b v = Later-refl b.store v

  -- What writes no table.
  pub Later-same :
      (b : Broker F) (c : Broker F) → IsValid b.store → c.store ≡ b.store → Later b.store c.store
  Later-same b c v e = rw e (Later-refl b.store v)

  -- An update of orders that keeps their fills.
  pub update-Later :
      (p : OrderRow F → Bool) (f : OrderRow F → OrderRow F) (s : Store F)
      → ((r : OrderRow F) → Grows r (f r))
      → ((r : OrderRow F) → IsOrder r → IsOrder (f r))
      → IsValid s
      → Later s (record s { orders = update p f s.orders })
  update-Later p f s g k v = record {
    valid = record {
      order_ids = HasUniqueKeys-update (λ r. r.id) p f s.orders (λ r. (g r).same_id) v.order_ids;
      trade_ids = v.trade_ids;
      orders = All-update IsOrder p f s.orders k v.orders;
      trades = v.trades;
    };
    grown = Follows-update Grows Grows-refl p f s.orders g;
  }

  pub append-Later :
      (s : Store F) (row : OrderRow F)
      → IsOrder row
      → any (has_id row.id) s.orders ≡ false
      → IsValid s
      → Later s (record s { orders = s.orders ++ row ∷ [] })
  append-Later s row g new v = record {
    valid = record {
      order_ids =
          HasUniqueKeys-append (λ r. r.id) s.orders row v.order_ids
            (absent (λ r. r.id) row.id s.orders new);
      trade_ids = v.trade_ids;
      orders = All-append IsOrder s.orders (row ∷ []) v.orders (g, tt);
      trades = v.trades;
    };
    grown =
        Follows-append Grows s.orders s.orders (row ∷ []) (Follows-refl Grows Grows-refl s.orders);
  }

  -- An update of orders that leaves their ids, sizes and fills.
  pub set_orders-Moves :
      (p : OrderRow F → Bool) (f : OrderRow F → OrderRow F)
      → ((r : OrderRow F) → Grows r (f r))
      → ((r : OrderRow F) → IsOrder r → IsOrder (f r))
      → Moves (set_orders (update p f))
  set_orders-Moves p f g k b v = update-Later p f b.store g k v

  pub mark_unresolved-Keeps : (id : Text) (e : Error) → Keeps (mark_unresolved id e)
  unfolding mark_unresolved
  mark_unresolved-Keeps id e b v =
      update-Later (has_id id) _ b.store
        (λ r. record { same_id = refl; same_size = refl; no_less = omega arith })
        (λ r g. record { applied = g.applied; within = g.within }) v
