-- ===== src/Jobs/Tables.antt =====
-- demo/jobs.py: what the unique ids and the numbers of the rows say of a query.
use stock_signal.Common.{
  ℕ, ◌+◌, ◌≡◌, sym, ap, subst, ◌∙◌, ◌≢◌, Bool, true, false, some, List, [], ◌∷◌, All, All-map,
  update, update-hit, update-miss, find?, find?-head, find?-tail, find?-cons, find?-All, ◌==◌,
  ==_iff, Bool-cases, inl, inr, ◌⊎◌, arith,
}
use stock_signal.Jobs.Data.{Row, queued, is_queued}
use stock_signal.Jobs.Moves.{HasUniqueIds}
use stock_signal.Jobs.Invariant.{IsNumbered}
use Prim.Native.Nat.{◌≤◌}

other_id : (a b : ℕ) → a ≢ b → (a == b) ≡ false
other_id a b h = ground arith

-- A row that some query found is the row of its id.
pub find?-id :
    (p : Row → Bool) (xs : List Row) (r : Row)
    → HasUniqueIds xs
    → find? p xs ≡ some r
    → find? (λ y. y.id == r.id) xs ≡ some r
find?-id p [] r u e = cc
find?-id p (x ∷ xs) r u e = elim (find?-cons p x xs r e) [
  | inl (_, here) ↦
      find?-head (λ y. y.id == r.id) x xs ((==_iff x.id r.id).1 (ap (λ (y : Row). y.id) here))
      ∙ ap some here
  | inr (_, later) ↦
      find?-tail (λ y. y.id == r.id) x xs
        (other_id x.id r.id (λ q. find?-All (λ y. y.id ≢ x.id) p xs r u.0 later (sym q)))
      ∙ find?-id p xs r u.1 later
]

-- After an UPDATE that passes it, the row of that id is the updated one.
pub find?-id-update :
    (p q : Row → Bool) (f : Row → Row) (xs : List Row) (r : Row)
    → HasUniqueIds xs
    → find? p xs ≡ some r
    → ((y : Row) → q y ≡ true → y.id ≡ r.id)
    → q r ≡ true
    → (f r).id ≡ r.id
    → find? (λ y. y.id == r.id) (update q f xs) ≡ some (f r)
find?-id-update p q f [] r u e only hit same = cc
find?-id-update p q f (x ∷ xs) r u e only hit same = elim (find?-cons p x xs r e) [
  | inl (_, here) ↦
      ap (find? (λ y. y.id == r.id)) (update-hit q f x xs (subst (λ y. q y ≡ true) (sym here) hit))
      ∙ find?-head (λ y. y.id == r.id) (f x) _
          ((==_iff (f x).id r.id).1 (ap (λ (y : Row). (f y).id) here ∙ same))
      ∙ ap (λ y. some (f y)) here
  | inr (_, later) ↦
      let ne : x.id ≢ r.id = λ k. find?-All (λ y. y.id ≢ x.id) p xs r u.0 later (sym k) in
      ap (find? (λ y. y.id == r.id)) (update-miss q f x xs (not_hit x (Bool-cases (q x)) ne))
      ∙ find?-tail (λ y. y.id == r.id) x _ (other_id x.id r.id ne)
      ∙ find?-id-update p q f xs r u.1 later only hit same
]
  where
    not_hit : (y : Row) → (q y ≡ true) ⊎ (q y ≡ false) → y.id ≢ r.id → q y ≡ false
    not_hit y (inl hit') ne = absurd (ne (only y hit'))
    not_hit y (inr miss) ne = miss

pub IsNumbered-All : (lo hi : ℕ) (xs : List Row) → IsNumbered lo xs hi → All (λ y. lo ≤ y.seq) xs
IsNumbered-All lo hi [] h = tt
IsNumbered-All lo hi (x ∷ xs) h =
    (h.0, All-map _ _ xs (λ y k. omega arith) (IsNumbered-All (x.seq + 1) hi xs h.1))

-- The first queued row has the lowest number of the queued ones.
pub first_queued_lowest :
    (lo hi : ℕ) (xs : List Row) (r : Row)
    → IsNumbered lo xs hi
    → find? (λ y. is_queued y.state) xs ≡ some r
    → All (λ y. y.state ≡ queued → r.seq ≤ y.seq) xs
first_queued_lowest lo hi [] r n e = tt
first_queued_lowest lo hi (x ∷ xs) r n e = elim (find?-cons (λ y. is_queued y.state) x xs r e) [
  | inl (_, here) ↦
      subst (λ z. All (λ y. y.state ≡ queued → z.seq ≤ y.seq) (x ∷ xs)) here
        (
          λ _. omega arith,
          All-map _ _ xs (λ y k _. omega arith) (IsNumbered-All (x.seq + 1) hi xs n.1),
        )
  | inr (miss, later) ↦
      (λ is. absurd (cc (ap is_queued is)), first_queued_lowest (x.seq + 1) hi xs r n.1 later)
]
