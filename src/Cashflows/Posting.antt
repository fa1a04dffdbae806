-- ===== src/Cashflows/Posting.antt =====
-- trades/cashflows.py: the cents that a borrow charge posts, day by day.
use stock_signal.Common.{
  ℕ, zero, suc, ◌-◌, Bool, true, false, not, ◌||◌, Option, none, some, List, [], ◌∷◌, ◌≡◌, refl, ap,
  ◌∙◌, subst, length, take, ◌⊎◌, inl, inr, arith, if◌then◌else◌, ◌==◌,
}
use stock_signal.Common.Int.{ℤ, pos, ◌+ℤ◌, ◌-ℤ◌, ◌≤ℤ◌, +ℤ_parts, -ℤ_parts, eq_of_parts}
use stock_signal.Cashflows.Base.{sum_from, zero_amount, eq_ℤ}
use stock_signal.Cashflows.Decimal.{round_cents}
use stock_signal.Cashflows.Records.{TimeWindow}
use stock_signal.Cashflows.Targets.{is_no_text}
use stock_signal.Cashflows.Conservation.{net_of_parts}
use stock_signal.Cashflows.Borrow.{
  BorrowInterval, BorrowSettlement, BorrowReason, missing_currency, rate_not_known_at_decision,
  known_by, BorrowStatus, charged, uncharged, Charge, Arithmetic, repeat, sum_fees, postings,
  no_charge, charge, settled_status, borrow_status, borrow_from_rate, calculate_borrow,
}

skip_middle : (a t p r : ℤ) → a +ℤ (t -ℤ p) +ℤ (r -ℤ t) ≡ a +ℤ (r -ℤ p)
skip_middle a t p r = eq_of_parts _ _ (
    omega (
      arith,
      -ℤ_parts t p,
      -ℤ_parts r t,
      -ℤ_parts r p,
      +ℤ_parts a (t -ℤ p),
      +ℤ_parts (a +ℤ (t -ℤ p)) (r -ℤ t),
      +ℤ_parts a (r -ℤ p),
    ))

zero_left : (a : ℤ) → pos 0 +ℤ a ≡ a
unfolding ◌+ℤ◌
zero_left a = ground arith

add_back : (a b : ℤ) → a -ℤ b +ℤ b ≡ a
unfolding ◌+ℤ◌ ◌-ℤ◌
add_back a b = ground arith

cancel_middle : (x y p : ℤ) → x -ℤ p -ℤ (y -ℤ p) ≡ x -ℤ y
cancel_middle x y p =
    eq_of_parts _ _
      (omega (arith, -ℤ_parts x p, -ℤ_parts y p, -ℤ_parts (x -ℤ p) (y -ℤ p), -ℤ_parts x y))

length-repeat : {A : Type 0} (n : ℕ) (fee : A) → length (repeat n fee) ≡ n
length-repeat zero fee = refl
length-repeat (suc n) fee = ap suc (length-repeat n fee)

zeros : (n : ℕ) → sum_from (pos 0) (repeat n (pos 0)) ≡ pos 0
unfolding sum_from
zeros zero = refl
zeros (suc n) = ap (λ z. sum_from z (repeat n (pos 0))) (zero_left (pos 0)) ∙ zeros n

-- Without a window, what is settled and what is still owed are the target; with one, the
-- opening balances have a part in what is owed.
abbrev pub IsBalanced : {E : Type 0} → Option TimeWindow → Charge E → Type 0
IsBalanced none m = m.payable -ℤ m.refund_receivable +ℤ m.settled ≡ m.rounded_target
IsBalanced (some w) m = Unit

charged_injective : {E : Type 0} (x y : Charge E) → charged x ≡ charged y → x ≡ y
charged_injective x y e = cc

module _ {E : Type 0} (a : Arithmetic E) where
  open a use {zero_fee, plus, to_cents, daily_fee}

  -- The postings add up to the last target less the first.
  sum_from-postings :
      (acc : ℤ) (fee : E) (fees : List E) (cumulative : E) (prior : ℤ)
      → sum_from acc (postings a (fee ∷ fees) cumulative prior)
        ≡ acc +ℤ (to_cents (sum_fees a cumulative (fee ∷ fees)) -ℤ prior)
  unfolding sum_from sum_fees postings
  sum_from-postings acc fee [] cumulative prior = refl
  sum_from-postings acc fee (next ∷ fees) cumulative prior =
      sum_from-postings (acc +ℤ (to_cents (plus cumulative fee) -ℤ prior)) next fees
        (plus cumulative fee) (to_cents (plus cumulative fee))
      ∙ skip_middle acc (to_cents (plus cumulative fee)) prior _

  length-postings :
      (fees : List E) (cumulative : E) (prior : ℤ)
      → length (postings a fees cumulative prior) ≡ length fees
  unfolding postings
  length-postings [] cumulative prior = refl
  length-postings (fee ∷ fees) cumulative prior = ap suc (length-postings fees _ _)

  -- The postings of the first days are those of their fees alone.
  take-postings :
      (n : ℕ) (fees : List E) (cumulative : E) (prior : ℤ)
      → take n (postings a fees cumulative prior) ≡ postings a (take n fees) cumulative prior
  unfolding postings
  take-postings zero fees cumulative prior = refl
  take-postings (suc n) [] cumulative prior = refl
  take-postings (suc n) (fee ∷ fees) cumulative prior =
      ap (λ ps. (to_cents (plus cumulative fee) -ℤ prior) ∷ ps)
        (take-postings n fees (plus cumulative fee) (to_cents (plus cumulative fee)))

  -- What has been posted after each day is the fees up to it, added day by day and rounded, less
  -- the target before; the expense is the fees added on their own and then to what was before,
  -- rounded, less that target.
  pub record IsCumulative (prior_exact : E) (previous : ℤ) (m : Charge E) : Type 0 where
    pub so_far :
        (n : ℕ)
        → sum_from (pos 0) (take (suc n) m.cumulative_postings)
          ≡ to_cents (sum_fees a prior_exact (take (suc n) m.daily_exact)) -ℤ round_cents previous
    pub expense :
        m.economic_expense
        ≡ to_cents (plus prior_exact (sum_fees a zero_fee m.daily_exact)) -ℤ round_cents previous
    pub difference :
        m.posted_fee -ℤ m.economic_expense
        ≡ to_cents (sum_fees a prior_exact m.daily_exact)
          -ℤ to_cents (plus prior_exact (sum_fees a zero_fee m.daily_exact))

  -- There is a posting for each day, the postings add up to the fee that is posted, neither balance
  -- is below zero, and nothing is charged or the postings follow the rounded fees.
  pub record IsPosted (days : ℕ) (window : Option TimeWindow) (prior_exact : E) (previous : ℤ)
      (m : Charge E) : Type 0 where
    pub daily : length m.cumulative_postings ≡ days
    pub posted : sum_from (pos 0) m.cumulative_postings ≡ m.posted_fee
    pub owed : (pos 0 ≤ℤ m.payable) × (pos 0 ≤ℤ m.refund_receivable)
    pub balanced : IsBalanced window m
    pub cumulative : (m ≡ no_charge a days) ⊎ IsCumulative prior_exact previous m

  charge-IsBalanced :
      (window : Option TimeWindow) (fees : List E) (id : ℕ) (current : ℤ) (prior_exact : E)
      (previous prior_settled : ℤ)
      → IsBalanced window (charge a fees window id current prior_exact previous prior_settled)
  unfolding charge
  charge-IsBalanced none fees id current prior_exact previous prior_settled =
      let target = to_cents (plus prior_exact (sum_fees a zero_fee fees)) in
      let net = prior_settled +ℤ current in
      ap (λ b. b +ℤ net) (net_of_parts (target -ℤ net)) ∙ add_back target net
  charge-IsBalanced (some w) fees id current prior_exact previous prior_settled = tt

  no_charge-IsBalanced :
      (days : ℕ) (window : Option TimeWindow) → IsBalanced window (no_charge a days)
  unfolding ◌+ℤ◌ ◌-ℤ◌
  no_charge-IsBalanced days none = refl
  no_charge-IsBalanced days (some w) = tt

  charge-IsCumulative :
      (fee : E) (fees : List E) (window : Option TimeWindow) (id : ℕ) (current : ℤ)
      (prior_exact : E) (previous prior_settled : ℤ)
      → IsCumulative prior_exact previous
          (charge a (fee ∷ fees) window id current prior_exact previous prior_settled)
  unfolding charge
  charge-IsCumulative fee fees window id current prior_exact previous prior_settled =
      let target = to_cents (plus prior_exact (sum_fees a zero_fee (fee ∷ fees))) in
      let whole =
        sum_from-postings (pos 0) fee fees prior_exact (round_cents previous) ∙ zero_left _ in
      record {
        so_far = λ n.
            ap (sum_from (pos 0))
              (take-postings (suc n) (fee ∷ fees) prior_exact (round_cents previous))
            ∙ sum_from-postings (pos 0) fee (take n fees) prior_exact (round_cents previous)
            ∙ zero_left _;
        expense = refl;
        difference =
            ap (λ x. x -ℤ (target -ℤ round_cents previous)) whole
            ∙ cancel_middle _ target (round_cents previous);
      }

  charge-IsPosted :
      (n : ℕ) (fee : E) (window : Option TimeWindow) (id : ℕ) (current : ℤ) (prior_exact : E)
      (previous prior_settled : ℤ)
      → IsPosted
          (suc n)
          window
          prior_exact
          previous
          (charge a (repeat (suc n) fee) window id current prior_exact previous prior_settled)
  unfolding charge
  charge-IsPosted n fee window id current prior_exact previous prior_settled = record {
    daily = length-postings (repeat (suc n) fee) _ _ ∙ length-repeat (suc n) fee;
    posted = refl;
    owed = ground arith;
    balanced =
        charge-IsBalanced window (repeat (suc n) fee) id current prior_exact previous prior_settled;
    cumulative = inr (
        charge-IsCumulative fee (repeat n fee) window id current prior_exact previous
          prior_settled);
  }

  no_charge-IsPosted :
      (days : ℕ) (window : Option TimeWindow) (prior_exact : E) (previous : ℤ)
      → IsPosted days window prior_exact previous (no_charge a days)
  unfolding ◌+ℤ◌ ◌-ℤ◌
  no_charge-IsPosted days window prior_exact previous = record {
    daily = length-repeat days (pos 0);
    posted = zeros days;
    owed = ground arith;
    balanced = no_charge-IsBalanced days window;
    cumulative = inl refl;
  }

  settled-IsPosted :
      (days : ℕ) (window : Option TimeWindow) (prior_exact : E) (previous : ℤ)
      (refusal : Option BorrowReason) (c m : Charge E)
      → IsPosted days window prior_exact previous c
      → settled_status refusal c ≡ charged m
      → IsPosted days window prior_exact previous m
  settled-IsPosted days window prior_exact previous (some reason) c m p e = absurd (cc e)
  settled-IsPosted days window prior_exact previous none c m p e =
      subst (IsPosted days window prior_exact previous) (charged_injective c m e) p

  rate-IsPosted :
      (i : BorrowInterval) (rate : Option ℤ) (n : ℕ) (ss : List BorrowSettlement)
      (window : Option TimeWindow) (decision : Option ℕ) (prior_exact : E)
      (previous prior_settled : ℤ) (m : Charge E)
      → borrow_status a i rate (suc n) ss window decision prior_exact previous prior_settled
        ≡ charged m
      → IsPosted (suc n) window prior_exact previous m
  rate-IsPosted i none n ss window decision prior_exact previous prior_settled m e = absurd (cc e)
  rate-IsPosted i (some rate) n ss window decision prior_exact previous prior_settled m e =
      currency (is_no_text i.currency) e
    where
      currency :
          (b : Bool)
          → (if b
              then uncharged (suc n) missing_currency
              else borrow_from_rate a i rate
                  (suc n)
                  ss
                  window
                  decision
                  prior_exact
                  previous
                  prior_settled)
            ≡ charged m
          → IsPosted (suc n) window prior_exact previous m
      currency true k = absurd (cc k)
      currency false k =
          settled-IsPosted (suc n) window prior_exact previous _ _ m
            (charge-IsPosted n (daily_fee i.quantity i.base_price rate i.denominator) window
              i.interval_id _ prior_exact previous prior_settled)
            k

  status-IsPosted :
      (early unknown : Bool) (days : ℕ) (window : Option TimeWindow) (prior_exact : E)
      (previous : ℤ) (reason : BorrowReason) (s : ℕ → BorrowStatus E) (m : Charge E)
      → ((n : ℕ) → s (suc n) ≡ charged m → IsPosted (suc n) window prior_exact previous m)
      → (days ≡ 0 → early ≡ true)
      → (if early
          then charged (no_charge a days)
          else if unknown
          then uncharged days reason
          else s days)
        ≡ charged m
      → IsPosted days window prior_exact previous m
  status-IsPosted true unknown days window prior_exact previous reason s m f z e =
      subst (IsPosted days window prior_exact previous) (charged_injective (no_charge a days) m e)
        (no_charge-IsPosted days window prior_exact previous)
  status-IsPosted false true days window prior_exact previous reason s m f z e = absurd (cc e)
  status-IsPosted false false zero window prior_exact previous reason s m f z e =
      absurd (cc (z refl))
  status-IsPosted false false (suc n) window prior_exact previous reason s m f z e = f n e

  -- Whatever the decimal arithmetic of the fees is, a charge that is known has a posting for each
  -- calendar day, the postings add up to the posted fee, and no balance is below zero; without a
  -- window, what is settled and what is still owed together are the rounded target. Nothing is
  -- charged, or what has been posted after each day is the rounded sum of the fees up to it less
  -- the target before, and the posted fee differs from the expense by what the sum taken day by day
  -- and the sum of the fees on their own differ by when they are rounded.
  pub calculate_borrow_posts :
      (i : BorrowInterval) (ss : List BorrowSettlement) (window : Option TimeWindow)
      (decision : Option ℕ) (prior_exact : E) (previous prior_settled : ℤ) (m : Charge E)
      → let r = calculate_borrow a i ss window decision prior_exact previous prior_settled in
        r.status ≡ charged m → IsPosted r.calendar_days window prior_exact previous m
  unfolding calculate_borrow
  calculate_borrow_posts i ss window decision prior_exact previous prior_settled m e =
      status-IsPosted (eq_ℤ i.quantity zero_amount || i.end_date - i.start_date == 0)
        (not (known_by i.knowledge_at decision)) (i.end_date - i.start_date) window prior_exact
        previous rate_not_known_at_decision
        (λ days.
          borrow_status a i i.annual_rate days ss window decision prior_exact previous
            prior_settled)
        m
        (λ n k.
          rate-IsPosted i i.annual_rate n ss window decision prior_exact previous prior_settled m k)
        (λ d. ground arith) e
