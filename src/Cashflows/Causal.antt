-- ===== src/Cashflows/Causal.antt =====
-- trades/cashflows.py, `calculate_distributions`: what a decision may know.
use stock_signal.Common.{
  ℕ, ◌≡◌, refl, sym, ap, ◌∙◌, Bool, false, Option, some, List, [], ◌∷◌, ◌++◌, All, select,
  Bool-cases, inl, inr,
}
use stock_signal.Cashflows.Base.{Result, ok, err}
use stock_signal.Cashflows.Records.{Holding, DistributionAction, Settlement, TimeWindow}
use stock_signal.Cashflows.Revisions.{accepted_actions}
use stock_signal.Cashflows.Borrow.{known_by}
use stock_signal.Cashflows.Book.{
  DistributionBook, Results, results_for, with_conflicts, sort_ids, ids_of, hidden_actions,
  known_actions, known_settlements, calculate_distributions,
}

module _ {A : Type 0} where
  select_none : (p : A → Bool) (xs : List A) → All (λ x. p x ≡ false) xs → select p xs ≡ []
  select_none p [] h = refl
  select_none p (x ∷ xs) h = rw h.0 (select_none p xs h.1)

  -- What no later element passes is selected as if they were not there.
  select_earlier :
      (p : A → Bool) (xs ys : List A)
      → All (λ y. p y ≡ false) ys
      → select p (xs ++ ys) ≡ select p xs
  select_earlier p [] ys h = select_none p ys h
  select_earlier p (x ∷ xs) ys h = elim (Bool-cases (p x)) [
    | inl hit ↦ rw hit (ap (λ zs. x ∷ zs) (select_earlier p xs ys h))
    | inr miss ↦ rw miss (select_earlier p xs ys h)
  ]

-- The book that is made of these results.
abbrev book_of : List DistributionAction → Option ℕ → Result Results → Result DistributionBook
book_of actions decision (err e) = err e
book_of actions decision (ok results) =
    let accepted = accepted_actions (known_actions decision actions) in
    ok (record {
      results = with_conflicts accepted.1 results;
      visible_action_ids = sort_ids (ids_of accepted.0);
      hidden_action_ids = sort_ids (ids_of (hidden_actions accepted.0 actions decision));
    })

calculate_lem :
    (holdings : List Holding) (actions : List DistributionAction) (settlements : List Settlement)
    (decision : Option ℕ) (window : Option TimeWindow) (r : Result Results)
    → results_for holdings
        (known_settlements decision settlements)
        window
        (accepted_actions (known_actions decision actions)).0
        []
      ≡ r
    → calculate_distributions holdings actions settlements decision window
      ≡ book_of actions decision r
unfolding calculate_distributions
calculate_lem holdings actions settlements decision window (ok results) h = rw h refl
calculate_lem holdings actions settlements decision window (err e) h = rw h refl

-- What a decision sees of a book, its results and the ids of its visible actions, or the exception.
pub data View : Type 0 where
  sees : Results → List ℕ → View
  raises : View

abbrev pub view : Result DistributionBook → View
view (ok b) = sees b.results b.visible_action_ids
view (err e) = raises

view_of :
    (actions later : List DistributionAction) (decision : Option ℕ) (r : Result Results)
    → known_actions decision (actions ++ later) ≡ known_actions decision actions
    → view (book_of (actions ++ later) decision r) ≡ view (book_of actions decision r)
view_of actions later decision (err e) h = refl
view_of actions later decision (ok results) h =
    ap
      (λ known.
        sees (with_conflicts (accepted_actions known).1 results)
          (sort_ids (ids_of (accepted_actions known).0)))
      h

-- Actions, corrections and settlements that come to be known after the decision, or of which it is
-- not known when, change neither the results nor the visible actions of the book, nor whether an
-- exception is raised.
pub calculate_distributions_causal :
    (holdings : List Holding) (actions later : List DistributionAction)
    (settlements later_settlements : List Settlement) (decision : ℕ) (window : Option TimeWindow)
    → All (λ a. known_by a.knowledge_at (some decision) ≡ false) later
    → All (λ s. known_by s.knowledge_at (some decision) ≡ false) later_settlements
    → view (
        calculate_distributions holdings
          (actions ++ later)
          (settlements ++ later_settlements)
          (some decision)
          window)
      ≡ view (calculate_distributions holdings actions settlements (some decision) window)
calculate_distributions_causal holdings actions later settlements later_settlements decision window
      a s =
    let t = some decision in
    let known : known_actions t (actions ++ later) ≡ known_actions t actions =
      select_earlier _ actions later a in
    let paid : known_settlements t (settlements ++ later_settlements)
        ≡ known_settlements t settlements =
      select_earlier _ settlements later_settlements s in
    let r =
      results_for holdings (known_settlements t settlements) window
        (accepted_actions (known_actions t actions)).0 [] in
    ap view (
      calculate_lem holdings (actions ++ later) (settlements ++ later_settlements) t window r
        (rw known (rw paid refl)))
    ∙ view_of actions later t r known
    ∙ sym (ap view (calculate_lem holdings actions settlements t window r refl))
