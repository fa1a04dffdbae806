-- ===== src/Cashflows/Distribution.antt =====
-- trades/cashflows.py: `_distribution_for_side`.
use stock_signal.Common.{
  Bool, false, not, ◌&&◌, Option, none, some, List, [], ◌∷◌, leb, if◌then◌else◌, select, map,
}
use stock_signal.Common.Int.{ℤ, ◌+ℤ◌, ◌-ℤ◌}
use stock_signal.Cashflows.Base.{Text, Result, ok, ◌>>=◌, eq_ℤ, max_ℤ, zero_amount, neg, sum_from}
use stock_signal.Cashflows.Allocation.{Amounts, allocate_cents}
use stock_signal.Cashflows.Records.{
  Side, long, short, same_side, Holding, DistributionAction, Settlement, TimeWindow, contains,
  in_window?, balance_of, opening,
}
use stock_signal.Cashflows.Entitlements.{qualified, signed_settlement_amount}
use stock_signal.Cashflows.Targets.{
  Found, Amount, DistributionResult, Status, exact_by_lot, found, is_future, is_inherited, known,
  missing, no_amounts, settlements_for, target_for, unknown,
}

-- The new target, less the one that the window opens with for an action outside it.
abbrev pub delta_from : Option ℤ → Bool → ℤ → ℤ
delta_from (some prior) false target = target -ℤ prior
delta_from _ _ target = target

abbrev pub target_delta : Option TimeWindow → DistributionAction → Side → ℤ → ℤ
target_delta none a side target = target
target_delta (some w) a side target =
    delta_from (balance_of a.action_id side w.opening_targets) (contains w a.ex_at) target

-- The opening part of `net_balance`.
unfoldable pub opening_balance : Option TimeWindow → Text → Side → ℤ
opening_balance w id long =
    opening w (λ x. x.opening_receivables) id long
    -ℤ opening w (λ x. x.opening_repayment_liabilities) id long
opening_balance w id short =
    opening w (λ x. x.opening_payables) id short
    -ℤ opening w (λ x. x.opening_refund_receivables) id short

-- `sorted(settlement.payment_id for settlement in deduped)`
abbrev pub insert_id : Text → List Text → List Text
insert_id a [] = a ∷ []
insert_id a (b ∷ bs) = let rest = insert_id a bs in if leb a b then a ∷ b ∷ bs else b ∷ rest

abbrev pub sorted_ids : List Settlement → List Text
sorted_ids [] = []
sorted_ids (s ∷ rest) = insert_id s.payment_id (sorted_ids rest)

-- The two results at the end: `net` is `net_settlement`, `balance` is `net_balance`.
unfoldable pub amounts :
    Side → ℤ × ℤ → (settled net balance : ℤ) → Bool → Amounts → List Text → Amount
amounts long (exact, target) settled net balance inside allocations ids = record {
  exact_target = exact;
  target = target;
  settled = settled;
  cash_delta = net;
  economic_income = if inside then target else zero_amount;
  receivable = max_ℤ balance zero_amount;
  payable = zero_amount;
  refund_receivable = zero_amount;
  repayment_liability = max_ℤ (neg balance) zero_amount;
  lot_allocations = allocations;
  included_settlements = ids;
}
amounts short (exact, target) settled net balance inside allocations ids = record {
  exact_target = exact;
  target = target;
  settled = settled;
  cash_delta = neg net;
  economic_income = if inside then neg target else zero_amount;
  receivable = zero_amount;
  payable = max_ℤ balance zero_amount;
  refund_receivable = max_ℤ (neg balance) zero_amount;
  repayment_liability = zero_amount;
  lot_allocations = allocations;
  included_settlements = ids;
}

unfoldable pub net_settlement : List Settlement → ℤ
net_settlement deduped = sum_from zero_amount (map signed_settlement_amount deduped)

-- From `target_delta` on, for a known target and checked settlements.
abbrev pub status_of :
    DistributionAction
    → Side
    → Option TimeWindow
    → List (Text × ℤ)
    → Found (ℤ × ℤ)
    → Found (List Settlement)
    → Result Status
status_of a side window exact (missing reason) settlements = ok (unknown reason)
status_of a side window exact (found target) (missing reason) = ok (unknown reason)
status_of a side window exact (found target) (found deduped) = do
  let net = net_settlement deduped
  let settled = opening window (λ w. w.opening_settled) a.action_id side +ℤ net
  let balance =
      opening_balance window a.action_id side +ℤ target_delta window a side target.1 -ℤ net
  allocations ← allocate_cents exact (some target.1)
  ok (
      known (
        amounts side target settled net balance (in_window? window a.ex_at) allocations
          (sorted_ids deduped)))

-- `_distribution_for_side` after the early return for nothing held, nothing open and no future.
abbrev pub distribution_status :
    List Holding
    → DistributionAction
    → Side
    → List Settlement
    → Option TimeWindow
    → List (Text × ℤ)
    → Result Status
distribution_status holdings a side settlements window exact =
    status_of a side window exact (target_for a window (is_inherited window a.action_id side) exact)
      (settlements_for holdings a side settlements window)

unfoldable pub distribution_for_side :
    List Holding
    → DistributionAction
    → Side
    → List Settlement
    → Option TimeWindow
    → Result DistributionResult
distribution_for_side holdings a side settlements window = do
  let entitled = select (λ h. same_side h.side side && qualified h a) holdings
  let quantity = sum_from zero_amount (map (λ h. h.quantity) entitled)
  status ←
      if eq_ℤ quantity zero_amount
        && (not (is_inherited window a.action_id side) && not (is_future window a.ex_at))
      then ok (known no_amounts)
      else distribution_status holdings a side settlements window
          (exact_by_lot a.per_share entitled)
  ok (record {
    side = side;
    action_id = a.action_id;
    qualified_quantity = quantity;
    status = status;
    accepted_revision = some a.revision_id;
  })
