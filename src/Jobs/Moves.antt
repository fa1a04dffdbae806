-- ===== src/Jobs/Moves.antt =====
-- demo/jobs.py, abstractly: the moves that a single run can make, and what a call may do to
-- the table of runs. `IN` holds the instant of the call.
use stock_signal.Common.{
  ◌+◌, ℕ, ◌≡◌, sym, ap, subst, ◌∙◌, ◌≢◌, Bool, true, false, Option, some, List, [], ◌∷◌, ◌++◌, All,
  Pairwise, update, find?, Bool-cases, find?-cons, find?-All, update-none, update-hit, update-miss,
  All-map, inl, inr,
}
use stock_signal.Jobs.Data.{
  Text, Instant, queued, running, cancel_requested, cancelled, Phase, Failure, Row, is_active,
  Fields, Built, Database, max_attempts,
}
use stock_signal.Jobs.Owner.{Env, queued_row, cancel_queued, cancel_running}
use stock_signal.Jobs.Lease.{start_attempt, extend_lease, complete_row, fail_row, finish, requeue}
use Prim.Native.Nat.{◌<◌}

-- The moves of a run, each with the state that it starts from.
pub data Move (now : Instant) : Row → Row → Type 0 where
  claim :
      (r : Row) (token : Text) (seconds : ℕ)
      → r.state ≡ queued
      → Move now r (start_attempt token seconds now r)
  beat :
      (r : Row) (phase : Option Phase) (seconds : ℕ)
      → is_active r.state ≡ true
      → Move now r (extend_lease phase seconds now r)
  withdraw :
      (r : Row) (env : Env) (owner : Text)
      → r.state ≡ queued
      → Move now r (cancel_queued env owner now r)
  ask_cancel :
      (r : Row) (env : Env) (owner : Text)
      → r.state ≡ running
      → Move now r (cancel_running env owner now r)
  publish :
      (r : Row) (engine_run_id result_id : Text)
      → is_active r.state ≡ true
      → Move now r (complete_row engine_run_id result_id now r)
  give_up :
      (r : Row) (failure : Failure) → is_active r.state ≡ true → Move now r (fail_row failure now r)
  confirm : (r : Row) → r.state ≡ cancel_requested → Move now r (finish cancelled now r)
  retry : (r : Row) → r.state ≡ running → r.attempt < max_attempts → Move now r (requeue r)

-- The row has another id, and another owner or another key.
abbrev pub IsOther : Text → Text → Text → Row → Type 0
IsOther id owner key r = (r.id ≢ id) × (r.owner_id ≡ owner → r.idempotency_key ≢ key)

-- What an update at `now` does to the table: each run stays or moves.
pub data Evolves (now : Instant) : List Row → List Row → Type 0 where
  done : Evolves now [] []
  stay : {xs ys : List Row} (x : Row) → Evolves now xs ys → Evolves now (x ∷ xs) (x ∷ ys)
  move :
      {xs ys : List Row} {x y : Row}
      → Move now x y
      → Evolves now xs ys
      → Evolves now (x ∷ xs) (y ∷ ys)

-- What a call at `now` does: the runs evolve, or a queued one with a new id and a new pair of
-- owner and key, and the next number, is added at the end.
pub data TableStep (now : Instant) (d d' : Database) : Type 0 where
  evolve : Evolves now d.jobs d'.jobs → d'.next_seq ≡ d.next_seq → TableStep now d d'
  enqueue :
      (owner : Text) (fields : Fields) (built : Built)
      → All (IsOther built.run_id owner built.idempotency_key) d.jobs
      → d'.jobs ≡ d.jobs ++ queued_row d.next_seq owner fields built now ∷ []
      → d'.next_seq ≡ d.next_seq + 1
      → TableStep now d d'

-- No two rows have one id.
abbrev pub HasUniqueIds : List Row → Type 0
HasUniqueIds = Pairwise (λ x y. y.id ≢ x.id)

pub Evolves-refl : {now : Instant} (xs : List Row) → Evolves now xs xs
Evolves-refl [] = done
Evolves-refl (x ∷ xs) = stay x (Evolves-refl xs)

-- An UPDATE whose test passes rows of one id alone, in a table without that id.
pub update-absent :
    (q : Row → Bool) (id : Text) (f : Row → Row) (xs : List Row)
    → ((y : Row) → q y ≡ true → y.id ≡ id)
    → All (λ y. y.id ≢ id) xs
    → update q f xs ≡ xs
update-absent q id f xs only h =
    update-none q f xs (All-map (λ y. y.id ≢ id) (λ y. q y ≡ false) xs misses h)
  where
    misses : (y : Row) → y.id ≢ id → q y ≡ false
    misses y ne = elim (Bool-cases (q y)) [ inl hit ↦ absurd (ne (only y hit)) | inr miss ↦ miss ]

-- Such an UPDATE moves the row that a query found, and no other one.
pub Evolves-update :
    (now : Instant) (p q : Row → Bool) (f : Row → Row) (xs : List Row) (r : Row)
    → HasUniqueIds xs
    → find? p xs ≡ some r
    → ((y : Row) → q y ≡ true → y.id ≡ r.id)
    → q r ≡ true
    → Move now r (f r)
    → Evolves now xs (update q f xs)
Evolves-update now p q f [] r u e only hit m = cc
Evolves-update now p q f (x ∷ xs) r u e only hit m = elim (find?-cons p x xs r e) [
  | inl (_, here) ↦
      subst (Evolves now (x ∷ xs))
        (sym (
          update-hit q f x xs (subst (λ y. q y ≡ true) (sym here) hit)
          ∙ ap (λ ys. f x ∷ ys)
              (update-absent q r.id f xs only
                (subst (λ (y : Row). All (λ z. z.id ≢ y.id) xs) here u.0))))
        (move (subst (λ y. Move now y (f y)) (sym here) m) (Evolves-refl xs))
  | inr (_, later) ↦ elim (Bool-cases (q x)) [
    | inl same ↦ absurd (find?-All (λ y. y.id ≢ x.id) p xs r u.0 later (sym (only x same)))
    | inr miss ↦
        subst (Evolves now (x ∷ xs)) (sym (update-miss q f x xs miss))
          (stay x (Evolves-update now p q f xs r u.1 later only hit m))
  ]
]
