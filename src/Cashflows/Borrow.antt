-- ===== src/Cashflows/Borrow.antt =====
-- trades/cashflows.py: `calculate_borrow`, with the records that it reads.
use stock_signal.Common.{
  ℕ, zero, suc, ◌-◌, Bool, true, false, not, ◌&&◌, ◌||◌, Option, none, some, List, [], ◌∷◌, ◌++◌,
  leb, ◌==◌, if◌then◌else◌, select, any, map, find?,
}
use stock_signal.Common.Int.{ℤ, ◌+ℤ◌, ◌-ℤ◌}
use stock_signal.Cashflows.Base.{Text, eq_ℤ, max_ℤ, zero_amount, neg, sum_from, same_text?}
use stock_signal.Cashflows.Decimal.{round_cents}
use stock_signal.Cashflows.Targets.{is_none, is_no_text}
use stock_signal.Cashflows.Records.{
  Kind, payment, refund, TimeWindow, in_window?, or_zero, balance_of, short,
}
use stock_signal.Cashflows.Entitlements.{same_amount?, same_kind}

-- An interval that passed its checks: the local dates of its ends, counted in days, are what
-- `calculate_borrow` reads of them.
pub record BorrowInterval : Type 0 where
  pub interval_id : Text
  pub quantity : ℤ
  pub base_price : ℤ
  pub annual_rate : Option ℤ
  pub start_date : ℕ
  pub end_date : ℕ
  pub denominator : ℤ
  pub knowledge_at : Option ℕ
  pub currency : Option Text

pub record BorrowSettlement : Type 0 where
  pub payment_id : Text
  pub charge_id : Text
  pub amount : Option ℤ
  pub occurred_at : ℕ
  pub kind : Kind
  pub knowledge_at : Option ℕ
  pub currency : Option Text

pub data BorrowReason : Type 0 where
  rate_not_known_at_decision missing_borrow_rate missing_currency : BorrowReason
  conflicting_borrow_settlement missing_borrow_settlement_amount : BorrowReason
  missing_borrow_settlement_currency settlement_currency_mismatch : BorrowReason

-- The arithmetic of Python's decimal context on fees, which are no whole ticks: every sum and
-- product is rounded to the digits of the context. `daily_fee` of a quantity, a base price, a rate
-- and a denominator is `quantity * base_price * annual_rate / denominator`, and `notional` of a
-- quantity, a base price and days is their product.
pub record Arithmetic (E : Type 0) : Type 0 where
  pub zero_fee : E
  pub plus : E → E → E
  pub to_cents : E → ℤ
  pub daily_fee : (quantity base_price annual_rate denominator : ℤ) → E
  pub notional : (quantity base_price : ℤ) → ℕ → E

-- The amounts of a BorrowResult that is known.
pub record Charge (E : Type 0) : Type 0 where
  pub exact_fee : E
  pub rounded_target : ℤ
  pub posted_fee : ℤ
  pub daily_exact : List E
  pub cumulative_postings : List ℤ
  pub settled : ℤ
  pub cash_delta : ℤ
  pub economic_expense : ℤ
  pub payable : ℤ
  pub refund_receivable : ℤ

-- In an unknown result, `missing_rate_days` and the reason.
pub data BorrowStatus (E : Type 0) : Type 0 where
  charged : Charge E → BorrowStatus E
  uncharged : ℕ → BorrowReason → BorrowStatus E

pub record BorrowResult (E : Type 0) : Type 0 where
  pub interval_id : Text
  pub calendar_days : ℕ
  pub notional_days : E
  pub status : BorrowStatus E

abbrev pub signed : Kind → ℤ → ℤ
signed payment a = a
signed refund a = neg a

unfoldable pub same_borrow_settlement : BorrowSettlement → BorrowSettlement → Bool
same_borrow_settlement s t =
    s.payment_id == t.payment_id
    && (s.charge_id == t.charge_id
        && (same_amount? s.amount t.amount
            && (s.occurred_at == t.occurred_at
                && (same_kind s.kind t.kind
                    && (same_text? s.knowledge_at t.knowledge_at
                        && same_text? s.currency t.currency)))))

-- `_dedupe_borrow_settlements`: the settlements that are kept, and whether there is a conflict.
abbrev pub keep_borrow :
    Option BorrowSettlement
    → BorrowSettlement
    → List BorrowSettlement × Bool
    → List BorrowSettlement × Bool
keep_borrow none s (kept, conflict) = (kept ++ s ∷ [], conflict)
keep_borrow (some prior) s (kept, conflict) =
    (kept, conflict || not (same_borrow_settlement prior s))

unfoldable pub dedupe_borrow_from :
    List BorrowSettlement → List BorrowSettlement × Bool → List BorrowSettlement × Bool
dedupe_borrow_from [] acc = acc
dedupe_borrow_from (s ∷ rest) acc =
    dedupe_borrow_from rest (keep_borrow (find? (λ k. k.payment_id == s.payment_id) acc.0) s acc)

-- `_known_by`, of a decision time with its offset
abbrev pub known_by : Option ℕ → Option ℕ → Bool
known_by value none = true
known_by none (some decision) = false
known_by (some value) (some decision) = leb value decision

-- `tuple(fee for _ in range(days))`
abbrev pub repeat : {A : Type 0} → ℕ → A → List A
repeat zero fee = []
repeat (suc days) fee = fee ∷ repeat days fee

-- `opening_borrow_payables.get(interval_id, ZERO)`
abbrev pub borrow_payable : Text → List (Text × ℤ) → ℤ
borrow_payable id [] = zero_amount
borrow_payable id ((i, v) ∷ rest) = if i == id then v else borrow_payable id rest

-- `opening_borrow - opening_refund`, and `net_balance`
unfoldable pub opening_borrow : TimeWindow → Text → ℤ
opening_borrow w id =
    borrow_payable id w.opening_borrow_payables
    -ℤ or_zero (balance_of id short w.opening_refund_receivables)

abbrev pub net_balance : Option TimeWindow → Text → (rounded delta net current : ℤ) → ℤ
net_balance none id rounded delta net current = rounded -ℤ net
net_balance (some w) id rounded delta net current = opening_borrow w id +ℤ delta -ℤ current

-- The checks of the settlements without their repeats.
unfoldable pub refusal_of : Option Text → List BorrowSettlement × Bool → Option BorrowReason
refusal_of currency (deduped, conflict) =
    if conflict
    then some conflicting_borrow_settlement
    else if any (λ s. is_none s.amount) deduped
    then some missing_borrow_settlement_amount
    else if any (λ s. is_none s.currency) deduped
    then some missing_borrow_settlement_currency
    else if any (λ s. not (same_text? s.currency currency)) deduped
    then some settlement_currency_mismatch
    else none

-- `relevant`, for the settlements that are known and in the window
unfoldable pub relevant_for :
    Text → List BorrowSettlement → Option TimeWindow → Option ℕ → List BorrowSettlement
relevant_for id settlements window decision =
    select
      (λ s.
        s.charge_id == id && (known_by s.knowledge_at decision && in_window? window s.occurred_at))
      settlements

-- `current_settlement`
unfoldable pub current_settlement : List BorrowSettlement → ℤ
current_settlement deduped =
    sum_from zero_amount (map (λ s. signed s.kind (or_zero s.amount)) deduped)

abbrev pub settled_status : {E : Type 0} → Option BorrowReason → Charge E → BorrowStatus E
settled_status (some reason) c = uncharged 0 reason
settled_status none c = charged c

module _ {E : Type 0} (a : Arithmetic E) where
  open a use {zero_fee, plus, to_cents, daily_fee, notional}

  -- `sum(fees, start)`, from the left.
  unfoldable pub sum_fees : E → List E → E
  sum_fees acc [] = acc
  sum_fees acc (fee ∷ fees) = sum_fees (plus acc fee) fees

  -- The loop over `daily_exact`.
  unfoldable pub postings : List E → (cumulative : E) → (prior_target : ℤ) → List ℤ
  postings [] cumulative prior_target = []
  postings (fee ∷ fees) cumulative prior_target =
      let target = to_cents (plus cumulative fee) in
      (target -ℤ prior_target) ∷ postings fees (plus cumulative fee) target

  abbrev pub no_charge : ℕ → Charge E
  no_charge days = record {
    exact_fee = zero_fee;
    rounded_target = zero_amount;
    posted_fee = zero_amount;
    daily_exact = repeat days zero_fee;
    cumulative_postings = repeat days zero_amount;
    settled = zero_amount;
    cash_delta = zero_amount;
    economic_expense = zero_amount;
    payable = zero_amount;
    refund_receivable = zero_amount;
  }

  -- The known result at the end. The three last amounts are `previous_exact`,
  -- `previous_rounded_target` and `prior_settled`.
  unfoldable pub charge :
      List E
      → Option TimeWindow
      → Text
      → (current : ℤ) → (prior_exact : E) → (previous prior_settled : ℤ) → Charge E
  charge fees w id current prior_exact previous prior_settled =
      let exact_fee = sum_fees zero_fee fees in
      let rounded = to_cents (plus prior_exact exact_fee) in
      let delta = rounded -ℤ round_cents previous in
      let posted = postings fees prior_exact (round_cents previous) in
      let balance = net_balance w id rounded delta (prior_settled +ℤ current) current in
      record {
        exact_fee = exact_fee;
        rounded_target = rounded;
        posted_fee = sum_from zero_amount posted;
        daily_exact = fees;
        cumulative_postings = posted;
        settled = prior_settled +ℤ current;
        cash_delta = neg current;
        economic_expense = delta;
        payable = max_ℤ balance zero_amount;
        refund_receivable = max_ℤ (neg balance) zero_amount;
      }

  -- From `daily` on, for a rate that is not None.
  abbrev pub borrow_from_rate :
      BorrowInterval
      → ℤ
      → ℕ
      → List BorrowSettlement
      → Option TimeWindow
      → Option ℕ
      → (previous_exact : E) → (previous_rounded_target prior_settled : ℤ) → BorrowStatus E
  borrow_from_rate i rate days settlements window decision prior_exact previous prior_settled =
      let fees = repeat days (daily_fee i.quantity i.base_price rate i.denominator) in
      let deduped =
        dedupe_borrow_from (relevant_for i.interval_id settlements window decision) ([], false) in
      settled_status (refusal_of i.currency deduped) (
        charge fees window i.interval_id (current_settlement deduped.0) prior_exact previous
          prior_settled)

  abbrev pub borrow_status :
      BorrowInterval
      → Option ℤ
      → ℕ
      → List BorrowSettlement
      → Option TimeWindow
      → Option ℕ
      → (previous_exact : E) → (previous_rounded_target prior_settled : ℤ) → BorrowStatus E
  borrow_status i none days settlements window decision prior_exact previous prior_settled =
      uncharged days missing_borrow_rate
  borrow_status i (some rate) days settlements window decision prior_exact previous prior_settled =
      if is_no_text i.currency
      then uncharged days missing_currency
      else borrow_from_rate i rate days settlements window decision prior_exact previous
          prior_settled

  unfoldable pub calculate_borrow :
      BorrowInterval
      → List BorrowSettlement
      → Option TimeWindow
      → Option ℕ
      → (previous_exact : E) → (previous_rounded_target prior_settled : ℤ) → BorrowResult E
  calculate_borrow i settlements window decision prior_exact previous prior_settled =
      let days = i.end_date - i.start_date in
      record {
        interval_id = i.interval_id;
        calendar_days = days;
        notional_days = notional i.quantity i.base_price days;
        status =
            if eq_ℤ i.quantity zero_amount || days == 0
            then charged (no_charge days)
            else if not (known_by i.knowledge_at decision)
            then uncharged days rate_not_known_at_decision
            else borrow_status i i.annual_rate days settlements window decision prior_exact previous
                prior_settled;
      }
