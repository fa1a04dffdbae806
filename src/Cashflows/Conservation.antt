-- ===== src/Cashflows/Conservation.antt =====
-- trades/cashflows.py: a settlement moves money between cash and the balances, and is no income.
use stock_signal.Common.{
  Bool, true, false, Option, none, some, List, ◌≡◌, refl, sym, ap, ◌∙◌, arith, if◌then◌else◌, ◌⊎◌,
  subst,
}
use stock_signal.Common.Int.{ℤ, pos, negsuc, ◌+ℤ◌, ◌-ℤ◌, ◌≤ℤ◌}
use stock_signal.Cashflows.Base.{Text, Result, ok, err, ◌>>=◌, max_ℤ, neg, eq_ℤ}
use stock_signal.Cashflows.Allocation.{Amounts, allocate_cents}
use stock_signal.Cashflows.Records.{
  Side, long, short, DistributionAction, TimeWindow, Settlement, Holding, in_window?, contains,
  balance_of, opening,
}
use stock_signal.Cashflows.Targets.{
  Found, Amount, no_amounts, Status, known, found, missing, DistributionResult, is_inherited,
}
use stock_signal.Cashflows.Distribution.{
  amounts, target_delta, delta_from, opening_balance, status_of, sorted_ids, net_settlement,
  distribution_for_side,
}

-- What is owed to the book less what it owes.
abbrev pub balance : Amount → ℤ
balance m = m.receivable -ℤ m.payable +ℤ (m.refund_receivable -ℤ m.repayment_liability)

-- An amount of a target, as income of the side.
abbrev pub income_of : Side → ℤ → ℤ
income_of long x = x
income_of short x = neg x

-- No balance is below zero, and of two opposite ones at least one is zero.
abbrev pub IsSettled : Amount → Type 0
IsSettled m =
    (pos 0 ≤ℤ m.receivable)
    × (pos 0 ≤ℤ m.payable)
    × (pos 0 ≤ℤ m.refund_receivable)
    × (pos 0 ≤ℤ m.repayment_liability)
    × ((m.receivable ≡ pos 0) ⊎ (m.repayment_liability ≡ pos 0))
    × ((m.payable ≡ pos 0) ⊎ (m.refund_receivable ≡ pos 0))

pub net_of_parts : (z : ℤ) → max_ℤ z (pos 0) -ℤ max_ℤ (neg z) (pos 0) ≡ z
unfolding ◌-ℤ◌
net_of_parts (pos n) = ground arith
net_of_parts (negsuc n) = ground arith

move_net : (start net : ℤ) → net +ℤ (start -ℤ net) ≡ start
unfolding ◌-ℤ◌ ◌+ℤ◌
move_net a b = ground arith

balance-amounts :
    (side : Side) (t : ℤ × ℤ) (settled net z : ℤ) (inside : Bool) (al : Amounts) (ids : List Text)
    → balance (amounts side t settled net z inside al ids) ≡ income_of side z
unfolding amounts ◌-ℤ◌ ◌+ℤ◌
balance-amounts long t settled net (pos n) inside al ids = ground arith
balance-amounts long t settled net (negsuc n) inside al ids = ground arith
balance-amounts short t settled net (pos n) inside al ids = ground arith
balance-amounts short t settled net (negsuc n) inside al ids = ground arith

amounts-IsSettled :
    (side : Side) (t : ℤ × ℤ) (settled net z : ℤ) (inside : Bool) (al : Amounts) (ids : List Text)
    → IsSettled (amounts side t settled net z inside al ids)
unfolding amounts ◌-ℤ◌
amounts-IsSettled long t settled net (pos n) inside al ids = ground arith
amounts-IsSettled long t settled net (negsuc n) inside al ids = ground arith
amounts-IsSettled short t settled net (pos n) inside al ids = ground arith
amounts-IsSettled short t settled net (negsuc n) inside al ids = ground arith

move_neg : (start net : ℤ) → neg net +ℤ neg (start -ℤ net) ≡ neg start
unfolding ◌-ℤ◌ ◌+ℤ◌
move_neg a b = ground arith

ok_injective : {A : Type 0} (x y : A) → ok x ≡ ok y → x ≡ y
ok_injective x y e = cc

known_injective : (x y : Amount) → known x ≡ known y → x ≡ y
known_injective x y e = cc

amounts_conserved :
    (side : Side) (t : ℤ × ℤ) (settled net start : ℤ) (inside : Bool) (al : Amounts)
    (ids : List Text)
    → let m = amounts side t settled net (start -ℤ net) inside al ids in
      m.cash_delta +ℤ balance m ≡ income_of side start
unfolding amounts
amounts_conserved long t settled net start inside al ids =
    ap (λ b. net +ℤ b) (balance-amounts long t settled net (start -ℤ net) inside al ids)
    ∙ move_net start net
amounts_conserved short t settled net start inside al ids =
    ap (λ b. neg net +ℤ b) (balance-amounts short t settled net (start -ℤ net) inside al ids)
    ∙ move_neg start net

income_of-+ℤ :
    (side : Side) (x y : ℤ) → income_of side (x +ℤ y) ≡ income_of side x +ℤ income_of side y
unfolding ◌-ℤ◌ ◌+ℤ◌
income_of-+ℤ long x y = refl
income_of-+ℤ short x y = ground arith

amounts_income :
    (side : Side) (t : ℤ × ℤ) (settled net z : ℤ) (al : Amounts) (ids : List Text)
    → (amounts side t settled net z true al ids).economic_income ≡ income_of side t.1
unfolding amounts
amounts_income long t settled net z al ids = refl
amounts_income short t settled net z al ids = refl

target_delta_inside :
    (window : Option TimeWindow) (a : DistributionAction) (side : Side) (target : ℤ)
    → in_window? window a.ex_at ≡ true
    → target_delta window a side target ≡ target
target_delta_inside none a side target h = refl
target_delta_inside (some w) a side target h =
    inside (balance_of a.action_id side w.opening_targets) (contains w a.ex_at) h
  where
    inside : (o : Option ℤ) (b : Bool) → b ≡ true → delta_from o b target ≡ target
    inside none b e = refl
    inside (some v) true e = refl
    inside (some v) false e = cc

-- The amounts of a result move money between cash and balances, and add its income.
abbrev Conserves : Option TimeWindow → DistributionAction → Side → Amount → Type 0
Conserves window a side m =
    (m.cash_delta +ℤ balance m
      ≡ income_of side (opening_balance window a.action_id side) +ℤ m.economic_income)
    × IsSettled m

amounts-Conserves :
    (window : Option TimeWindow) (a : DistributionAction) (side : Side) (t : ℤ × ℤ)
    (settled net : ℤ) (al : Amounts) (ids : List Text) (inside : Bool)
    → in_window? window a.ex_at ≡ true
    → inside ≡ true
    → Conserves window a side (
        amounts side t settled net
          (opening_balance window a.action_id side +ℤ target_delta window a side t.1 -ℤ net)
          inside
          al
          ids)
amounts-Conserves window a side t settled net al ids false h e = absurd (cc e)
amounts-Conserves window a side t settled net al ids true h e =
    let z = opening_balance window a.action_id side in
    let d = target_delta window a side t.1 in
    (
      amounts_conserved side t settled net (z +ℤ d) true al ids
          ∙ income_of-+ℤ side z d
          ∙ ap (λ x. income_of side z +ℤ x)
              (ap (income_of side) (target_delta_inside window a side t.1 h)
                ∙ sym (amounts_income side t settled net (z +ℤ d -ℤ net) al ids)),
      amounts-IsSettled side t settled net (z +ℤ d -ℤ net) true al ids,
    )

status_of-Conserves :
    (a : DistributionAction) (side : Side) (window : Option TimeWindow) (exact : List (Text × ℤ))
    (t : Found (ℤ × ℤ)) (ss : Found (List Settlement)) (m : Amount)
    → in_window? window a.ex_at ≡ true
    → status_of a side window exact t ss ≡ ok (known m)
    → Conserves window a side m
status_of-Conserves a side window exact (missing r) ss m h e = absurd (cc e)
status_of-Conserves a side window exact (found t) (missing r) m h e = absurd (cc e)
status_of-Conserves a side window exact (found t) (found deduped) m h e =
    allocated (allocate_cents exact (some t.1)) e
  where
    net : ℤ
    net = net_settlement deduped

    made : Amounts → Amount
    made al =
        amounts side t (opening window (λ w. w.opening_settled) a.action_id side +ℤ net) net
          (opening_balance window a.action_id side +ℤ target_delta window a side t.1 -ℤ net)
          (in_window? window a.ex_at) al (sorted_ids deduped)

    allocated :
        (r : Result Amounts)
        → (r >>= λ al. ok (known (made al))) ≡ ok (known m)
        → Conserves window a side m
    allocated (err x) k = absurd (cc k)
    allocated (ok al) k =
        subst (Conserves window a side) (known_injective (made al) m (ok_injective _ _ k)) (
          amounts-Conserves window a side t _ net al (sorted_ids deduped)
            (in_window? window a.ex_at) h h)

zero_parts : (x y : ℤ) → eq_ℤ x (pos 0) ≡ true → eq_ℤ y (pos 0) ≡ true → x -ℤ y ≡ pos 0
unfolding ◌-ℤ◌
zero_parts x y h k = ground arith

-- The early return is taken only where nothing is open.
opening_zero :
    (window : Option TimeWindow) (id : Text) (side : Side)
    → is_inherited window id side ≡ false
    → opening_balance window id side ≡ pos 0
unfolding opening_balance ◌-ℤ◌
opening_zero window id long h =
    zero_parts (opening window (λ x. x.opening_receivables) id long)
      (opening window (λ x. x.opening_repayment_liabilities) id long) (ground arith) (ground arith)
opening_zero window id short h =
    zero_parts (opening window (λ x. x.opening_payables) id short)
      (opening window (λ x. x.opening_refund_receivables) id short) (ground arith) (ground arith)

net_zero : pos 0 +ℤ (pos 0 -ℤ pos 0 +ℤ (pos 0 -ℤ pos 0)) ≡ pos 0 +ℤ pos 0
unfolding ◌+ℤ◌ ◌-ℤ◌
net_zero = refl

no_amounts-Conserves :
    (window : Option TimeWindow) (a : DistributionAction) (side : Side)
    → is_inherited window a.action_id side ≡ false
    → Conserves window a side no_amounts
unfolding ◌-ℤ◌
no_amounts-Conserves window a side h =
    rw (opening_zero window a.action_id side h) (nothing side, ground arith)
  where
    nothing :
        (s : Side)
        → no_amounts.cash_delta +ℤ balance no_amounts
          ≡ income_of s (pos 0) +ℤ no_amounts.economic_income
    nothing long = net_zero
    nothing short = net_zero

-- The two ways to a known result.
either-Conserves :
    (window : Option TimeWindow) (a : DistributionAction) (side : Side) (early : Bool)
    (s : Result Status) (mk : Status → DistributionResult) (r : DistributionResult) (m : Amount)
    → (early ≡ true → is_inherited window a.action_id side ≡ false)
    → (s ≡ ok (known m) → Conserves window a side m)
    → ((x : Status) → (mk x).status ≡ x)
    → ((if early then ok (known no_amounts) else s) >>= λ x. ok (mk x)) ≡ ok r
    → r.status ≡ known m
    → Conserves window a side m
either-Conserves window a side true s mk r m i c p e k =
    let q : known no_amounts ≡ known m =
      sym (p (known no_amounts))
      ∙ ap (λ (x : DistributionResult). x.status) (ok_injective _ _ e)
      ∙ k in
    subst (Conserves window a side) (known_injective no_amounts m q)
      (no_amounts-Conserves window a side (i refl))
either-Conserves window a side false (err x) mk r m i c p e k = absurd (cc e)
either-Conserves window a side false (ok x) mk r m i c p e k =
    c (ap ok (sym (p x) ∙ ap (λ (y : DistributionResult). y.status) (ok_injective _ _ e) ∙ k))

-- Let an action fall in the window, or let there be no window. Where the result for a side is
-- known, its cash and its balances together are the opening balance and its income, so that a
-- settlement is no second item of income; no balance is below zero, and a receivable and a
-- repayment, or a payable and a refund, are never both above it.
pub distribution_for_side_conserves :
    (holdings : List Holding) (a : DistributionAction) (side : Side) (settlements : List Settlement)
    (window : Option TimeWindow) (r : DistributionResult) (m : Amount)
    → in_window? window a.ex_at ≡ true
    → distribution_for_side holdings a side settlements window ≡ ok r
    → r.status ≡ known m
    → (m.cash_delta +ℤ balance m
        ≡ income_of side (opening_balance window a.action_id side) +ℤ m.economic_income)
      × IsSettled m
unfolding distribution_for_side
distribution_for_side_conserves holdings a side settlements window r m h e k =
    either-Conserves window a side _ _ _ r m (λ c. ground arith)
      (status_of-Conserves a side window _ _ _ m h) (λ x. refl) e k
