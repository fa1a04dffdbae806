-- ===== src/Cashflows/BookTests.antt =====
-- trades/cashflows.py: runs of `_accepted_actions` and `calculate_distributions`, and their theorems
-- at inputs that meet their hypotheses.
use stock_signal.Common.{◌≡◌, refl, false, none, some, [], ◌∷◌, ◌++◌, arith}
use stock_signal.Common.Int.{pos, negsuc}
use stock_signal.Cashflows.Base.{ok, err, value_error, aware, exact}
use stock_signal.Cashflows.Decimal.{decimal}
use stock_signal.Cashflows.Checks.{time_window, borrow_interval, borrow_settlement}
use stock_signal.Cashflows.Records.{Holding, DistributionAction, long, payment, one}
use stock_signal.Cashflows.Revisions.{
  same_action, by_revision, follow, accepted_revision_of, grouped_from, accepted_of_groups,
  accepted_actions,
}
use stock_signal.Cashflows.Book.{calculate_distributions}
use stock_signal.Cashflows.Chains.{EndsChain, accepted_revision_of-EndsChain}
use stock_signal.Cashflows.Passes.{follow_enough}
use stock_signal.Cashflows.Causal.{view, calculate_distributions_causal}

abbrev lot : Holding
lot = record {
  lot_id = 1;
  symbol = 7;
  side = long;
  quantity = pos 100;
  entry_at = 40;
  exit_at = none;
}

abbrev first_revision : DistributionAction
first_revision = record {
  action_id = 21;
  symbol = 7;
  ex_at = 50;
  per_share = some (pos 33333333);
  currency = some 1;
  revision_id = 1;
  supersedes_revision = none;
  knowledge_at = some 45;
  cancelled = false;
}

abbrev second_revision : DistributionAction
second_revision = record first_revision {
  revision_id = 2;
  supersedes_revision = some 1;
  per_share = some (pos 20000000);
  knowledge_at = some 60;
}

abbrev third_revision : DistributionAction
third_revision = record second_revision { revision_id = 3; supersedes_revision = some 2 }

-- Given out of order, and one twice.
accepts_third :
    accepted_revision_of (third_revision ∷ first_revision ∷ second_revision ∷ first_revision ∷ [])
    ≡ some third_revision
unfolding accepted_revision_of by_revision follow same_action
accepts_third = refl

refuses_branch :
    accepted_actions
      (first_revision ∷ second_revision ∷ record second_revision { revision_id = 4 } ∷ [])
    ≡ ([], 21 ∷ [])
unfolding accepted_actions accepted_of_groups grouped_from accepted_revision_of by_revision follow
    same_action
refuses_branch = refl

accepted_revision_of-EndsChain_example :
    EndsChain
      (third_revision ∷ first_revision ∷ second_revision ∷ first_revision ∷ [])
      third_revision
accepted_revision_of-EndsChain_example =
    accepted_revision_of-EndsChain
      (third_revision ∷ first_revision ∷ second_revision ∷ first_revision ∷ []) third_revision
      accepts_third

follow_enough_example :
    follow 2 first_revision (third_revision ∷ second_revision ∷ [])
    ≡ follow 9 first_revision (third_revision ∷ second_revision ∷ [])
follow_enough_example =
    follow_enough 2 9 first_revision (third_revision ∷ second_revision ∷ []) (omega arith)
      (omega arith)

-- The correction comes to be known after the decision.
calculate_distributions_causal_example :
    view (
      calculate_distributions
        (lot ∷ [])
        ((first_revision ∷ []) ++ second_revision ∷ [])
        ([] ++ [])
        (some 55)
        none)
    ≡ view (calculate_distributions (lot ∷ []) (first_revision ∷ []) [] (some 55) none)
calculate_distributions_causal_example =
    calculate_distributions_causal (lot ∷ []) (first_revision ∷ []) (second_revision ∷ []) [] [] 55
      none (refl, tt) tt

window_built :
    time_window (aware 10) (aware 20) (((21, long), pos 3) ∷ []) [] [] [] [] [] []
    ≡ ok (record {
      start = 10;
      end = 20;
      opening_receivables = ((21, long), pos 3) ∷ [];
      opening_payables = [];
      opening_borrow_payables = [];
      opening_refund_receivables = [];
      opening_repayment_liabilities = [];
      opening_targets = [];
      opening_settled = [];
    })
unfolding time_window
window_built = refl

negative_refused :
    time_window (aware 10) (aware 20) (((21, long), negsuc 3) ∷ []) [] [] [] [] [] []
    ≡ err value_error
unfolding time_window
negative_refused = refl

payment_built :
    borrow_settlement 31 41 (some (exact (pos 5))) (aware 12) (one payment) none (some 1)
    ≡ ok (record {
      payment_id = 31;
      charge_id = 41;
      amount = some (pos 5);
      occurred_at = 12;
      kind = payment;
      knowledge_at = none;
      currency = some 1;
    })
unfolding borrow_settlement decimal
payment_built = refl

backward_interval :
    borrow_interval 41
      (exact (pos 1))
      (exact (pos 1))
      none
      (record { stamp = aware 9; date = 2 })
      (record { stamp = aware 8; date = 2 })
      (exact (pos 360))
      none
      none
    ≡ err value_error
unfolding borrow_interval decimal
backward_interval = refl
