-- ===== src/Alpaca/Valid.antt =====
-- trades/alpaca_broker.py: the invariant of the tables, and how they go on from earlier ones.
use stock_signal.Common.{
  ℕ, ◌≤◌, ◌<◌, Bool, true, false, Option, none, some, List, ◌≡◌, refl, All, arith, subst, ◌∙◌,
  if◌then◌else◌,
}
use stock_signal.Alpaca.Data.{Error, Result, ok, err, OrderRow, TradeRow, Store, is_open}
use stock_signal.Alpaca.Fills.{require, ◌>>=◌}
use stock_signal.Alpaca.Keyed.{HasUniqueKeys, Follows, Follows-refl, Follows-trans}

module _ {F : Type 0} where
  -- The fills of an order are applied, and are not more than was requested.
  pub record IsOrder (r : OrderRow F) : Type 0 where
    pub applied : r.filled_qty ≡ r.applied_qty
    pub within : r.applied_qty ≤ r.requested_qty

  -- A trade has no more than its shares left, and some while it is open.
  pub record IsTrade (next : ℕ) (t : TradeRow F) : Type 0 where
    pub known : t.id < next
    pub left : t.remaining_shares ≤ t.shares
    pub held : is_open t ≡ true → 0 < t.remaining_shares

  pub record IsValid (s : Store F) : Type 0 where
    pub order_ids : HasUniqueKeys (λ r. r.id) s.orders
    pub trade_ids : HasUniqueKeys (λ t. t.id) s.trades
    pub orders : All IsOrder s.orders
    pub trades : All (IsTrade s.next_trade) s.trades

  pub record AreTrades (trades : List (TradeRow F)) (next : ℕ) : Type 0 where
    pub ids : HasUniqueKeys (λ t. t.id) trades
    pub each : All (IsTrade next) trades

-- What holds of a result, where there is one.
abbrev pub Ensures : {A : Type 0} → (A → Type 0) → Result A → Type 0
Ensures P (ok a) = P a
Ensures P (err e) = Unit

pub Ensures-bind :
    {A B : Type 0} (P : B → Type 0) (m : Result A) (k : A → Result B)
    → ((a : A) → m ≡ ok a → Ensures P (k a))
    → Ensures P (m >>= k)
Ensures-bind P (ok a) k h = h a refl
Ensures-bind P (err e) k h = tt

pub Ensures-map :
    {A : Type 0} (P Q : A → Type 0) (r : Result A)
    → ((a : A) → P a → Q a)
    → Ensures P r
    → Ensures Q r
Ensures-map P Q (ok a) k h = k a h
Ensures-map P Q (err e) k h = tt

-- A branch that raises ensures everything.
pub Ensures-or :
    {A : Type 0} (P : A → Type 0) (test : Bool) (e : Error) (r : Result A)
    → (test ≡ false → Ensures P r)
    → Ensures P (if test then err e else r)
Ensures-or P true e r h = tt
Ensures-or P false e r h = h refl

pub Ensures_of : {A : Type 0} (P : A → Type 0) (r : Result A) (a : A) → Ensures P r → r ≡ ok a → P a
Ensures_of P r a h e = subst (Ensures P) e h

pub require_ok : {A : Type 0} (o : Option A) (e : Error) {a : A} → require o e ≡ ok a → o ≡ some a
require_ok none e h = cc
require_ok (some a) e h = cc

module _ {F : Type 0} where
  -- The row keeps its id and its size, and loses no fill.
  pub record Grows (r q : OrderRow F) : Type 0 where
    pub same_id : q.id ≡ r.id
    pub same_size : q.requested_qty ≡ r.requested_qty
    pub no_less : r.applied_qty ≤ q.applied_qty

  pub Grows-refl : (r : OrderRow F) → Grows r r
  Grows-refl r = record { same_id = refl; same_size = refl; no_less = omega arith }

  Grows-trans : (r q p : OrderRow F) → Grows r q → Grows q p → Grows r p
  Grows-trans r q p h k = record {
    same_id = k.same_id ∙ h.same_id;
    same_size = k.same_size ∙ h.same_size;
    no_less = omega (arith, h.no_less, k.no_less);
  }

  -- Good tables, whose orders begin with those of `s`, grown.
  pub record Later (s u : Store F) : Type 0 where
    pub valid : IsValid u
    pub grown : Follows Grows s.orders u.orders

  pub Later-refl : (s : Store F) → IsValid s → Later s s
  Later-refl s v = record { valid = v; grown = Follows-refl Grows Grows-refl s.orders }

  pub Later-trans : (s t u : Store F) → Later s t → Later t u → Later s u
  Later-trans s t u h k = record {
    valid = k.valid;
    grown = Follows-trans Grows Grows-trans s.orders t.orders u.orders h.grown k.grown;
  }
