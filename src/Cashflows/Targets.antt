-- ===== src/Cashflows/Targets.antt =====
-- trades/cashflows.py: the results of `_distribution_for_side`, and the target and the settlements
-- that one is made from.
use stock_signal.Common.{
  ℕ, Bool, true, false, not, ◌&&◌, ◌||◌, Option, none, some, List, [], ◌∷◌, ltb, ◌==◌,
  if◌then◌else◌, select, any, map,
}
use stock_signal.Common.Int.{ℤ, ◌*ℤ◌}
use stock_signal.Cashflows.Base.{Text, eq_ℤ, zero_amount, sum_from, same_text?}
use stock_signal.Cashflows.Decimal.{round_cents}
use stock_signal.Cashflows.Allocation.{Amounts}
use stock_signal.Cashflows.Records.{
  Side, same_side, Holding, DistributionAction, Settlement, TimeWindow, in_window?, opening,
}
use stock_signal.Cashflows.Entitlements.{qualified, dedupe_settlements}

pub data Reason : Type 0 where
  missing_distribution_rate missing_currency : Reason
  unscoped_settlement_with_multiple_sides : Reason
  conflicting_settlement : Text → Reason
  missing_settlement_amount missing_settlement_currency settlement_currency_mismatch : Reason
  conflicting_action_revision : Reason

-- The amounts of a result that is known.
pub record Amount : Type 0 where
  pub exact_target : ℤ
  pub target : ℤ
  pub settled : ℤ
  pub cash_delta : ℤ
  pub economic_income : ℤ
  pub receivable : ℤ
  pub payable : ℤ
  pub refund_receivable : ℤ
  pub repayment_liability : ℤ
  pub lot_allocations : Amounts
  pub included_settlements : List Text

-- DistributionResult, by its status; in an unknown one every amount is None.
pub data Status : Type 0 where
  known : Amount → Status
  unknown : Reason → Status

pub record DistributionResult : Type 0 where
  pub side : Side
  pub action_id : Text
  pub qualified_quantity : ℤ
  pub status : Status
  pub accepted_revision : Option Text

-- `{holding.lot_id: … for holding in qualified}`: a later holding of one lot replaces the amount.
abbrev pub put : Text → ℤ → List (Text × ℤ) → List (Text × ℤ)
put lot v [] = (lot, v) ∷ []
put lot v ((i, w) ∷ xs) = let rest = put lot v xs in if i == lot then (i, v) ∷ xs else (i, w) ∷ rest

unfoldable pub exact_from : ℤ → List Holding → List (Text × ℤ) → List (Text × ℤ)
exact_from rate [] acc = acc
exact_from rate (h ∷ hs) acc = exact_from rate hs (put h.lot_id (h.quantity *ℤ rate) acc)

abbrev pub exact_by_lot : Option ℤ → List Holding → List (Text × ℤ)
exact_by_lot none hs = []
exact_by_lot (some rate) hs = exact_from rate hs []

abbrev pub no_amounts : Amount
no_amounts = record {
  exact_target = zero_amount;
  target = zero_amount;
  settled = zero_amount;
  cash_delta = zero_amount;
  economic_income = zero_amount;
  receivable = zero_amount;
  payable = zero_amount;
  refund_receivable = zero_amount;
  repayment_liability = zero_amount;
  lot_allocations = [];
  included_settlements = [];
}

-- What is known, or the reason why nothing is.
pub data Found (A : Type 0) : Type 0 where
  found : A → Found A
  missing : Reason → Found A

-- `future`
abbrev pub is_future : Option TimeWindow → ℕ → Bool
is_future none ex = false
is_future (some w) ex = ltb w.end ex

abbrev pub is_inherited : Option TimeWindow → Text → Side → Bool
is_inherited w id side =
    not (eq_ℤ (opening w (λ x. x.opening_receivables) id side) zero_amount)
    || (not (eq_ℤ (opening w (λ x. x.opening_payables) id side) zero_amount)
        || (not (eq_ℤ (opening w (λ x. x.opening_refund_receivables) id side) zero_amount)
            || not (eq_ℤ (opening w (λ x. x.opening_repayment_liabilities) id side) zero_amount)))

-- `not action.currency`
abbrev pub is_no_text : Option Text → Bool
is_no_text none = true
is_no_text (some t) = t == 0

-- The last three branches for `exact_target` and `target`.
abbrev pub rated_target : Option ℤ → Option Text → List (Text × ℤ) → Found (ℤ × ℤ)
rated_target none currency exact = missing missing_distribution_rate
rated_target (some rate) currency exact =
    let sum = sum_from zero_amount (map (λ x. x.1) exact) in
    if is_no_text currency then missing missing_currency else found (sum, round_cents sum)

-- `exact_target` and `target`
unfoldable pub target_for :
    DistributionAction → Option TimeWindow → Bool → List (Text × ℤ) → Found (ℤ × ℤ)
target_for a window inherited exact =
    if is_future window a.ex_at || (a.cancelled || not (in_window? window a.ex_at) && inherited)
    then found (zero_amount, zero_amount)
    else rated_target a.per_share a.currency exact

abbrev pub is_for_side : Side → Option Side → Bool
is_for_side side none = true
is_for_side side (some s) = same_side s side

abbrev pub is_unscoped : Option Side → Bool
is_unscoped none = true
is_unscoped (some s) = false

abbrev pub is_none : {A : Type 0} → Option A → Bool
is_none none = true
is_none (some a) = false

-- The first of the sorted conflicts.
abbrev pub least : Text → List Text → Text
least a [] = a
least a (b ∷ rest) = if ltb b a then least b rest else least a rest

-- The checks of the settlements without their repeats.
abbrev pub checked_settlements : Option Text → List Settlement × List Text → Found (List Settlement)
checked_settlements currency (deduped, conflict ∷ more) =
    missing (conflicting_settlement (least conflict more))
checked_settlements currency (deduped, []) =
    if any (λ s. is_none s.amount) deduped
    then missing missing_settlement_amount
    else if any (λ s. is_none s.currency) deduped
    then missing missing_settlement_currency
    else if any (λ s. not (same_text? s.currency currency)) deduped
    then missing settlement_currency_mismatch
    else found deduped

-- From `relevant` to the checked settlements.
unfoldable pub settlements_for :
    List Holding
    → DistributionAction
    → Side
    → List Settlement
    → Option TimeWindow
    → Found (List Settlement)
settlements_for holdings a side settlements window =
    let relevant =
      select (λ s. s.action_id == a.action_id && is_for_side side s.side) settlements in
    let elsewhere = any (λ h. not (same_side h.side side) && qualified h a) holdings in
    if any (λ s. is_unscoped s.side && elsewhere) relevant
    then missing unscoped_settlement_with_multiple_sides
    else checked_settlements a.currency
        (dedupe_settlements (select (λ s. in_window? window s.occurred_at) relevant))
