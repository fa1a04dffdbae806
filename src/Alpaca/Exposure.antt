-- ===== src/Alpaca/Exposure.antt =====
-- trades/alpaca_broker.py: the shares that are left of a trade, and the exits that took the others.
use stock_signal.Common.{
  ℕ, ◌+◌, ◌-◌, ◌≤◌, ◌<◌, false, ◌&&◌, Option, none, some, List, [], ◌∷◌, ◌==◌, ◌≡◌, ◌≢◌, refl, sym,
  ◌∙◌, ap, subst, All, All-append, All-map, find?, find?-test, any, update, ltb, Bool-cases, inl,
  inr, arith, ==_iff, if◌then◌else◌,
}
use stock_signal.Common.Float.{Float}
use stock_signal.Alpaca.Data.{
  Purpose, entry, exit, exceeds_exposure, zero_division, Payload, OrderRow, TradeRow, Store,
  is_trade_id, integrity_error,
}
use stock_signal.Alpaca.Fills.{
  Filled, apply_entry_fill, exit_of, entry_values, exit_values, is_entry_of, entry_trade,
  gross_after,
}
use stock_signal.Alpaca.Keyed.{sum_by, All-update_apart}
use stock_signal.Alpaca.Valid.{IsValid, Ensures, Ensures-or}

-- What an order adds to the exits of a trade.
abbrev pub weight_of : Purpose → Option ℕ → ℕ → ℕ → ℕ
weight_of entry id n t = 0
weight_of exit none n t = 0
weight_of exit (some id) n t = if id == t then n else 0

shifts_other :
    (a b n qty id i : ℕ)
    → id ≢ i
    → a + weight_of exit (some id) n i ≡ b + weight_of exit (some id) qty i
    → a ≡ b
shifts_other a b n qty id i e h = ground arith

shifts_same :
    (a b n qty id i : ℕ)
    → id ≡ i
    → a + weight_of exit (some id) n i ≡ b + weight_of exit (some id) qty i
    → a + n ≡ b + qty
shifts_same a b n qty id i e h = ground arith

taken_even :
    (left applied qty after before shares : ℕ)
    → applied ≤ qty
    → ltb left (qty - applied) ≡ false
    → after + applied ≡ before + qty
    → left + before ≡ shares
    → left - (qty - applied) + after ≡ shares
taken_even left applied qty after before shares m e k h = ground arith

weightless :
    (p : Purpose) (id : Option ℕ) (n next : ℕ)
    → ((t : ℕ) → id ≡ some t → t < next)
    → weight_of p id n next ≡ 0
weightless entry id n next h = refl
weightless exit none n next h = refl
weightless exit (some id) n next h = let k = h id refl in ground arith

module _ {F : Type 0} where
  abbrev pub exit_weight : ℕ → OrderRow F → ℕ
  exit_weight t r = weight_of r.purpose r.trade_id r.applied_qty t

  -- The shares that exit orders took from a trade.
  abbrev pub exits_of : ℕ → List (OrderRow F) → ℕ
  exits_of t = sum_by (exit_weight t)

  -- What is left and what was taken are the shares of the trade.
  abbrev pub IsEven : (ℕ → ℕ) → TradeRow F → Type 0
  IsEven exits t = t.remaining_shares + exits t.id ≡ t.shares

  -- The trade of an order is known, if it has one.
  abbrev pub HasKnown : ℕ → OrderRow F → Type 0
  HasKnown next r = (t : ℕ) → r.trade_id ≡ some t → t < next

  exits_of_fresh :
      (next : ℕ) (orders : List (OrderRow F))
      → All (HasKnown next) orders
      → exits_of next orders ≡ 0
  unfolding sum_by
  exits_of_fresh next [] h = refl
  exits_of_fresh next (r ∷ rs) h =
      let rest = exits_of_fresh next rs h.1 in
      let zero_weight = weightless r.purpose r.trade_id r.applied_qty next h.0 in omega arith

  -- However the exits shift by the fill of an order, the trades stay even.
  abbrev pub Settles : Purpose → Option ℕ → ℕ → ℕ → Store F → Filled F → Type 0
  Settles p old applied qty s x =
      (after : ℕ → ℕ)
      → ((t : ℕ)
          → after t + weight_of p old applied t
            ≡ exits_of t s.orders + weight_of p x.trade_id qty t)
      → All (IsEven after) x.store.trades

  pub All-IsEven :
      (before after : ℕ → ℕ) (trades : List (TradeRow F))
      → ((t : ℕ) → after t ≡ before t)
      → All (IsEven before) trades
      → All (IsEven after) trades
  All-IsEven before after trades e h =
      All-map (IsEven before) (IsEven after) trades (λ t even. let k = e t.id in omega arith) h

module _ {F : Type 0} ⦃f : Float F⦄ where
  entered-IsEven :
      (id qty : ℕ) (price : F) (after : ℕ → ℕ) (trades : List (TradeRow F))
      → after id ≡ 0
      → All (IsEven after) trades
      → All (IsEven after) (update (is_trade_id id) (entry_values qty price) trades)
  entered-IsEven id qty price after [] z h = tt
  entered-IsEven id qty price after (t ∷ ts) z h = elim (Bool-cases (t.id == id)) [
    | inl hit ↦
        let at : after t.id ≡ 0 = ap after ((==_iff t.id id).0 hit) ∙ z in
        rw hit (omega arith, entered-IsEven id qty price after ts z h.1)
    | inr miss ↦ rw miss (h.0, entered-IsEven id qty price after ts z h.1)
  ]

  pub entry_fill-Settles :
      (row : OrderRow F) (payload : Payload F) (qty : ℕ) (price : F) (id old : Option ℕ) (n : ℕ)
      (s : Store F)
      → ((t : ℕ) → id ≡ some t → exits_of t s.orders ≡ 0)
      → All (HasKnown s.next_trade) s.orders
      → All (IsEven (λ t. exits_of t s.orders)) s.trades
      → Ensures (Settles entry old n qty s) (apply_entry_fill row payload qty price id s)
  unfolding apply_entry_fill
  entry_fill-Settles row payload qty price none old n s first known even =
      Ensures-or (Settles entry old n qty s) (any (is_entry_of row.id) s.trades) integrity_error _
        λ _ after shift.
          let same : (t : ℕ) → after t ≡ exits_of t s.orders =
            λ t. let k = shift t in omega arith in
          let none_yet = exits_of_fresh s.next_trade s.orders known in
          let fresh = same s.next_trade in
          All-append (IsEven after) s.trades (entry_trade row payload s.next_trade qty price ∷ [])
            (All-IsEven (λ t. exits_of t s.orders) after s.trades same even) (omega arith, tt)
  entry_fill-Settles row payload qty price (some id) old n s first known even = λ after shift.
      let same : (t : ℕ) → after t ≡ exits_of t s.orders = λ t. let k = shift t in omega arith in
      entered-IsEven id qty price after s.trades (same id ∙ first id refl)
        (All-IsEven (λ t. exits_of t s.orders) after s.trades same even)

  exit_values-IsEven :
      (payload : Payload F) (gross : F) (after : ℕ → ℕ) (remaining : ℕ) (t : TradeRow F)
      → remaining + after t.id ≡ t.shares
      → IsEven after (exit_values payload gross remaining t)
  exit_values-IsEven payload gross after remaining t h = elim (Bool-cases (remaining == 0)) [
    | inl gone ↦ let z : remaining ≡ 0 = (==_iff remaining 0).0 gone in rw gone (omega arith)
    | inr some_left ↦ rw some_left h
  ]

  pub exit_of-Settles :
      (row : OrderRow F) (payload : Payload F) (qty : ℕ) (price : F) (s : Store F) (id : ℕ)
      (t : TradeRow F)
      → row.trade_id ≡ some id
      → row.applied_qty ≤ qty
      → IsValid s
      → find? (is_trade_id id) s.trades ≡ some t
      → All (IsEven (λ t. exits_of t s.orders)) s.trades
      → Ensures
          (Settles exit row.trade_id row.applied_qty qty s)
          (exit_of row payload qty price s t)
  exit_of-Settles row payload qty price s id t r more v e even =
      let same : t.id ≡ id = (==_iff t.id id).0 (find?-test (is_trade_id id) s.trades t e) in
      let found = subst (λ i. find? (is_trade_id i) s.trades ≡ some t) (sym same) e in
      let remaining = t.remaining_shares - (qty - row.applied_qty) in
      let P = Settles exit row.trade_id row.applied_qty qty s in
      Ensures-or P (ltb t.remaining_shares (qty - row.applied_qty)) exceeds_exposure _ λ enough.
        Ensures-or P (remaining == 0 && t.shares == 0) zero_division _ λ _ after shift.
          let moved : (i : ℕ)
              → after i + weight_of exit (some id) row.applied_qty i
                ≡ exits_of i s.orders + weight_of exit (some id) qty i =
            λ i.
              subst
                (λ o.
                  after i + weight_of exit o row.applied_qty i
                  ≡ exits_of i s.orders + weight_of exit o qty i)
                r (shift i) in
          All-update_apart (λ y. y.id) (IsEven (λ i. exits_of i s.orders)) (IsEven after)
            (exit_values payload (gross_after row t qty price) remaining) t.id s.trades t
            v.trade_ids found
            (λ y other h.
              let k =
                shifts_other (after y.id) (exits_of y.id s.orders) row.applied_qty qty id y.id
                  (λ q. other (sym q ∙ sym same)) (moved y.id) in
              omega arith)
            (λ h.
              let k =
                shifts_same (after t.id) (exits_of t.id s.orders) row.applied_qty qty id t.id
                  (sym same) (moved t.id) in
              exit_values-IsEven payload (gross_after row t qty price) after remaining t (
                taken_even t.remaining_shares row.applied_qty qty (after t.id)
                  (exits_of t.id s.orders) t.shares more enough k h))
            even
