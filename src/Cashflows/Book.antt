-- ===== src/Cashflows/Book.antt =====
-- trades/cashflows.py: `calculate_distributions`. A decision time is aware, or none.
use stock_signal.Common.{
  ℕ, not, ◌&&◌, Option, none, List, [], ◌∷◌, ◌==◌, if◌then◌else◌, select, any, map,
}
use stock_signal.Cashflows.Base.{Text, Result, ok, ◌>>=◌, zero_amount}
use stock_signal.Cashflows.Records.{
  Side, long, short, same_side, Holding, DistributionAction, Settlement, TimeWindow,
}
use stock_signal.Cashflows.Targets.{DistributionResult, unknown, conflicting_action_revision}
use stock_signal.Cashflows.Distribution.{distribution_for_side, insert_id}
use stock_signal.Cashflows.Borrow.{known_by}
use stock_signal.Cashflows.Revisions.{accepted_actions}

-- The dictionary of results.
abbrev pub Results : Type 0
Results = List ((Text × Side) × DistributionResult)

abbrev pub put_result : Text → Side → DistributionResult → Results → Results
put_result id side r [] = ((id, side), r) ∷ []
put_result id side r (((i, s), x) ∷ rest) =
    let later = put_result id side r rest in
    if i == id && same_side s side then ((i, s), r) ∷ rest else ((i, s), x) ∷ later

pub record DistributionBook : Type 0 where
  pub results : Results
  pub visible_action_ids : List Text
  pub hidden_action_ids : List Text

-- The loop over the visible actions, each with its two sides.
abbrev pub result_for :
    List Holding
    → List Settlement
    → Option TimeWindow
    → DistributionAction
    → Side
    → Results
    → Result Results
result_for holdings settlements window a side results = do
  r ← distribution_for_side holdings a side settlements window
  ok (put_result a.action_id side r results)

unfoldable pub results_for :
    List Holding
    → List Settlement
    → Option TimeWindow
    → List DistributionAction
    → Results
    → Result Results
results_for holdings settlements window [] results = ok results
results_for holdings settlements window (a ∷ rest) results = do
  one ← result_for holdings settlements window a long results
  both ← result_for holdings settlements window a short one
  results_for holdings settlements window rest both

-- `_unknown_result` for a conflict
abbrev pub conflict_result : Text → Side → DistributionResult
conflict_result id side = record {
  side = side;
  action_id = id;
  qualified_quantity = zero_amount;
  status = unknown conflicting_action_revision;
  accepted_revision = none;
}

unfoldable pub with_conflicts : List Text → Results → Results
with_conflicts [] results = results
with_conflicts (id ∷ ids) results = with_conflicts ids (
    put_result id short (conflict_result id short)
      (put_result id long (conflict_result id long) results))

abbrev pub sort_ids : List Text → List Text
sort_ids [] = []
sort_ids (x ∷ xs) = insert_id x (sort_ids xs)

abbrev pub ids_of : List DistributionAction → List Text
ids_of = map (λ a. a.action_id)

-- `hidden_ids`
abbrev pub hidden_actions :
    List DistributionAction → List DistributionAction → Option ℕ → List DistributionAction
hidden_actions visible actions decision =
    select
      (λ a.
        not (any (λ v. v.action_id == a.action_id) visible)
        && not (known_by a.knowledge_at decision))
      actions

abbrev pub known_actions : Option ℕ → List DistributionAction → List DistributionAction
known_actions decision = select (λ a. known_by a.knowledge_at decision)

abbrev pub known_settlements : Option ℕ → List Settlement → List Settlement
known_settlements decision = select (λ s. known_by s.knowledge_at decision)

unfoldable pub calculate_distributions :
    List Holding
    → List DistributionAction
    → List Settlement
    → Option ℕ
    → Option TimeWindow
    → Result DistributionBook
calculate_distributions holdings actions settlements decision window = do
  let accepted = accepted_actions (known_actions decision actions)
  results ← results_for holdings (known_settlements decision settlements) window accepted.0 []
  ok (record {
    results = with_conflicts accepted.1 results;
    visible_action_ids = sort_ids (ids_of accepted.0);
    hidden_action_ids = sort_ids (ids_of (hidden_actions accepted.0 actions decision));
  })

unfoldable pub calculate_distribution :
    List Holding
    → DistributionAction
    → List Settlement
    → Option ℕ
    → Option TimeWindow
    → Result DistributionBook
unfolding calculate_distributions
calculate_distribution holdings action settlements decision window =
    calculate_distributions holdings (action ∷ []) settlements decision window
