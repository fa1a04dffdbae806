-- ===== src/Cashflows/Tests.antt =====
-- trades/cashflows.py: concrete amounts, and the theorems on them.
use stock_signal.Common.{
  ℕ, ◌+◌, ◌≡◌, refl, ◌≢◌, true, none, some, List, [], ◌∷◌, arith, ◌⊎◌, ◌↔◌, ◌/◌, ◌*◌,
}
use stock_signal.Common.Int.{ℤ, pos, negsuc, ◌+ℤ◌, ◌≤ℤ◌, ◌-ℤ◌}
use stock_signal.Cashflows.Base.{Text, ok, err, value_error}
use stock_signal.Cashflows.Decimal.{cent, round_cents, round_cents_bounds, IsCents}
use stock_signal.Cashflows.Allocation.{
  Amounts, positive, total, round_down, sorted, give_cents, share_out, allocate_cents, target_of,
}
use stock_signal.Cashflows.Cents.{amount_of}
use stock_signal.Cashflows.Shares.{
  HasDistinctLots, allocate_cents_shares, allocate_cents_reconciles,
}
use stock_signal.Cashflows.Refusals.{HasNoSharing, allocate_cents_refuses}
use stock_signal.Common.{false}
use stock_signal.Common.Int.{◌*ℤ◌}
use stock_signal.Cashflows.Base.{exact, aware, sum_from}
use stock_signal.Cashflows.Decimal.{decimal}
use stock_signal.Cashflows.Records.{
  long, payment, one, Holding, DistributionAction, Settlement, holding, distribution_action,
  settlement,
}
use stock_signal.Cashflows.Entitlements.{
  qualified, dedupe_settlements, dedupe_from, same_settlement, signed_settlement_amount,
}
use stock_signal.Cashflows.Targets.{
  Amount, DistributionResult, known, settlements_for, target_for, exact_from,
}
use stock_signal.Cashflows.Distribution.{
  distribution_for_side, net_settlement, opening_balance, amounts,
}
use stock_signal.Cashflows.Conservation.{
  balance, income_of, IsSettled, distribution_for_side_conserves,
}
use stock_signal.Common.{◌*◌}
use stock_signal.Common.Int.{pos_part}
use stock_signal.Cashflows.Borrow.{
  BorrowInterval, BorrowSettlement, Charge, Arithmetic, sum_fees, charged, calculate_borrow, charge,
  postings, dedupe_borrow_from, relevant_for, refusal_of, current_settlement,
  same_borrow_settlement,
}
use stock_signal.Cashflows.Posting.{IsPosted, calculate_borrow_posts}

-- 2.345 and -2.345, in ticks.
half_up : round_cents (pos 234500000) ≡ pos 235000000
unfolding round_cents
half_up = refl

half_down : round_cents (negsuc 234499999) ≡ negsuc 234999999
unfolding round_cents ◌-ℤ◌
half_down = refl

round_cents_bounds_example :
    IsCents (round_cents (negsuc 234499999))
    × (round_cents (negsuc 234499999) +ℤ round_cents (negsuc 234499999)
        ≤ℤ negsuc 234499999 +ℤ negsuc 234499999 +ℤ pos cent)
    × (negsuc 234499999 +ℤ negsuc 234499999
        ≤ℤ round_cents (negsuc 234499999) +ℤ round_cents (negsuc 234499999) +ℤ pos cent)
round_cents_bounds_example = round_cents_bounds (negsuc 234499999)

-- Three lots of 0.335, 0.335 and 0.331, and one of nothing.
abbrev lots : List (Text × ℤ)
lots = (3, pos 33500000) ∷ (1, pos 33500000) ∷ (2, pos 33100000) ∷ (4, pos 0) ∷ []

abbrev parts : Amounts
parts = (3, 33000000) ∷ (1, 34000000) ∷ (2, 33000000) ∷ []

allocate_cents-lots : allocate_cents lots none ≡ ok parts
unfolding allocate_cents share_out sorted give_cents round_cents
allocate_cents-lots = refl

lots-HasDistinctLots : HasDistinctLots lots
lots-HasDistinctLots = ground arith

positive-lots : positive lots ≢ []
positive-lots e = cc

allocate_cents_shares_example :
    (pos (total parts) ≡ target_of (positive lots) none)
    × ((lot v : ℕ)
        → amount_of lot (positive lots) ≡ some v
        → (amount_of lot parts ≡ some (round_down v))
          ⊎ (amount_of lot parts ≡ some (round_down v + cent)))
allocate_cents_shares_example =
    allocate_cents_shares lots none parts lots-HasDistinctLots positive-lots allocate_cents-lots

allocate_cents_reconciles_example :
    (ys : Amounts) × (allocate_cents lots none ≡ ok ys)
    × (pos (total ys) ≡ round_cents (pos (total (positive lots))))
allocate_cents_reconciles_example = allocate_cents_reconciles lots

-- A target of nothing, as of a cancelled action, for lots that are worth whole cents.
allocate_cents_refuses_example :
    (allocate_cents lots (some (pos 0)) ≡ err value_error)
    ↔ HasNoSharing (positive lots) (round_cents (pos 0))
allocate_cents_refuses_example = allocate_cents_refuses lots (pos 0) positive-lots

-- 100 units of symbol 7, held over the cutoff at 50, for 0.33333333 each.
abbrev lot : Holding
lot = record {
  lot_id = 1;
  symbol = 7;
  side = long;
  quantity = pos 100;
  entry_at = 40;
  exit_at = none;
}

abbrev dividend : DistributionAction
dividend = record {
  action_id = 21;
  symbol = 7;
  ex_at = 50;
  per_share = some (pos 33333333);
  currency = some 1;
  revision_id = 9;
  supersedes_revision = none;
  knowledge_at = none;
  cancelled = false;
}

-- A receipt of 20.00, and the same again.
abbrev receipt : Settlement
receipt = record {
  payment_id = 31;
  action_id = 21;
  amount = some (pos 2000000000);
  occurred_at = 60;
  kind = payment;
  knowledge_at = none;
  side = some long;
  currency = some 1;
}

lot_built : holding 1 7 (one long) (exact (pos 100)) (aware 40) none ≡ ok lot
unfolding holding decimal
lot_built = refl

lot_refused :
    holding 1 7 (one long) (exact (pos 100)) (aware 40) (some (aware 39)) ≡ err value_error
unfolding holding decimal
lot_refused = refl

receipt_built :
    settlement 31 21
      (some (exact (pos 2000000000)))
      (aware 60)
      (one payment)
      none
      (some (one long))
      (some 1)
    ≡ ok receipt
unfolding settlement decimal
receipt_built = refl

dividend_built :
    distribution_action 21 7 (aware 50) (some (exact (pos 33333333))) (some 1) 9 none none false
    ≡ ok dividend
unfolding distribution_action decimal
dividend_built = refl

abbrev long_amounts : Amount
long_amounts = record {
  exact_target = pos 3333333300;
  target = pos 3333000000;
  settled = pos 2000000000;
  cash_delta = pos 2000000000;
  economic_income = pos 3333000000;
  receivable = pos 1333000000;
  payable = pos 0;
  refund_receivable = pos 0;
  repayment_liability = pos 0;
  lot_allocations = (1, 3333000000) ∷ [];
  included_settlements = 31 ∷ [];
}

abbrev long_result : DistributionResult
long_result = record {
  side = long;
  action_id = 21;
  qualified_quantity = pos 100;
  status = known long_amounts;
  accepted_revision = some 9;
}

distribution_for_side-dividend :
    distribution_for_side (lot ∷ []) dividend long (receipt ∷ receipt ∷ []) none ≡ ok long_result
unfolding distribution_for_side settlements_for target_for exact_from qualified dedupe_settlements
    dedupe_from same_settlement signed_settlement_amount net_settlement opening_balance amounts
    sum_from round_cents allocate_cents share_out sorted give_cents ◌+ℤ◌ ◌-ℤ◌ ◌*ℤ◌
distribution_for_side-dividend = refl

-- The cancelled action raises where the lot's amount is a cent or more.
cancelled_raises :
    distribution_for_side (lot ∷ []) (record dividend { cancelled = true }) long [] none
    ≡ err value_error
unfolding distribution_for_side settlements_for target_for exact_from qualified dedupe_settlements
    dedupe_from net_settlement opening_balance amounts sum_from round_cents allocate_cents share_out
    sorted give_cents ◌+ℤ◌ ◌-ℤ◌ ◌*ℤ◌
cancelled_raises = refl

distribution_for_side_conserves_example :
    (long_amounts.cash_delta +ℤ balance long_amounts
      ≡ income_of long (opening_balance none 21 long) +ℤ long_amounts.economic_income)
    × IsSettled long_amounts
distribution_for_side_conserves_example =
    distribution_for_side_conserves (lot ∷ []) dividend long (receipt ∷ receipt ∷ []) none
      long_result long_amounts refl distribution_for_side-dividend refl

-- 100 units at 0.50000000 over three days.
abbrev lent : BorrowInterval
lent = record {
  interval_id = 41;
  quantity = pos 100;
  base_price = pos 50000000;
  annual_rate = some (pos 24);
  start_date = 5;
  end_date = 8;
  denominator = pos 360;
  knowledge_at = some 3;
  currency = some 1;
}

-- Fees in thirds of a tick, where a sum is rounded up to a whole number of hundreds of them: the
-- daily fee is 0.33333333 and a third of a tick.
abbrev thirds : Arithmetic ℕ
thirds = record {
  zero_fee = 0;
  plus = λ x y. (x + y + 99) / 100 * 100;
  to_cents = λ x. round_cents (pos (x / 3));
  daily_fee = λ quantity base_price annual_rate denominator. pos_part quantity * 1000000;
  notional = λ quantity base_price days. pos_part quantity * pos_part base_price * days;
}

abbrev repaid : BorrowSettlement
repaid = record {
  payment_id = 51;
  charge_id = 41;
  amount = some (pos 90000000);
  occurred_at = 9;
  kind = payment;
  knowledge_at = none;
  currency = some 1;
}

-- The postings are 0.33, 0.34 and 0.33.
abbrev three_days : Charge ℕ
three_days = record {
  exact_fee = 300000000;
  rounded_target = pos 100000000;
  posted_fee = pos 100000000;
  daily_exact = 100000000 ∷ 100000000 ∷ 100000000 ∷ [];
  cumulative_postings = pos 33000000 ∷ pos 34000000 ∷ pos 33000000 ∷ [];
  settled = pos 90000000;
  cash_delta = negsuc 89999999;
  economic_expense = pos 100000000;
  payable = pos 10000000;
  refund_receivable = pos 0;
}

calculate_borrow-lent :
    (calculate_borrow thirds lent (repaid ∷ repaid ∷ []) none none 0 (pos 0) (pos 0)).status
    ≡ charged three_days
unfolding calculate_borrow charge postings sum_fees dedupe_borrow_from relevant_for refusal_of
    current_settlement same_borrow_settlement sum_from round_cents ◌+ℤ◌ ◌-ℤ◌ ◌*ℤ◌
calculate_borrow-lent = refl

calculate_borrow_posts_example : IsPosted thirds 3 none 0 (pos 0) three_days
unfolding calculate_borrow
calculate_borrow_posts_example =
    calculate_borrow_posts thirds lent (repaid ∷ repaid ∷ []) none none 0 (pos 0) (pos 0) three_days
      calculate_borrow-lent
