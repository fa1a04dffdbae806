-- ===== src/Jobs/Lifecycle.antt =====
-- demo/jobs.py: the life of one run under any calls.
use stock_signal.Common.{
  ℕ, zero, suc, ◌+◌, ◌≡◌, refl, sym, ap, subst, ◌∙◌, true, false, some, List, [], ◌∷◌, arith, inl,
  inr, ◌⊎◌, get_elem?, get_elem?-append,
}
use stock_signal.Jobs.Data.{
  Instant, State, queued, running, cancel_requested, completed, failed, cancelled, Row, Database,
}
use mathlib.Core.Option.{some-injective}
use stock_signal.Jobs.Owner.{Env}
use stock_signal.Jobs.Calls.{Call, perform, history}
use stock_signal.Jobs.Moves.{
  Move, claim, beat, withdraw, ask_cancel, publish, give_up, confirm, retry, Evolves, done, stay,
  move, TableStep, evolve, enqueue, HasUniqueIds,
}
use stock_signal.Jobs.Refines.{perform-TableStep}
use stock_signal.Jobs.Valid.{is_ended}
use stock_signal.Jobs.Invariant.{
  IsValid, perform-IsValid, IsSameRun, IsSameRun-refl, Move-IsSameRun,
}

-- The transition diagram of the states.
infix 40 ◌⟶◌
pub data ◌⟶◌ : State → State → Type 0 where
  starts : queued ⟶ running
  withdrawn : queued ⟶ cancelled
  works : running ⟶ running
  asked : running ⟶ cancel_requested
  waits : cancel_requested ⟶ cancel_requested
  publishes : running ⟶ completed
  publishes_anyway : cancel_requested ⟶ completed
  fails : running ⟶ failed
  fails_anyway : cancel_requested ⟶ failed
  stops : cancel_requested ⟶ cancelled
  requeued : running ⟶ queued

ruleset edges = (
  starts, withdrawn, works, asked, waits, publishes, publishes_anyway, fails, fails_anyway, stops,
  requeued,
)

pub Move-edge : {now : Instant} {r s : Row} → Move now r s → r.state ⟶ s.state
Move-edge (claim r token seconds e) = rw e starts
Move-edge (beat r phase seconds e) = grind (arith, works, waits)
Move-edge (withdraw r env owner e) = rw e withdrawn
Move-edge (ask_cancel r env owner e) = rw e asked
Move-edge (publish r engine result e) = grind (arith, publishes, publishes_anyway)
Move-edge (give_up r failure e) = grind (arith, fails, fails_anyway)
Move-edge (confirm r e) = rw e stops
Move-edge (retry r e more) = rw e requeued

-- A move counts an attempt exactly when it starts one.
pub Move-attempt :
    {now : Instant} {r s : Row}
    → Move now r s
    → ((r.state ≡ queued) × (s.state ≡ running) × (s.attempt ≡ r.attempt + 1))
      ⊎ (s.attempt ≡ r.attempt)
Move-attempt (claim r token seconds e) = inl (e, refl, refl)
Move-attempt (beat r phase seconds e) = inr refl
Move-attempt (withdraw r env owner e) = inr refl
Move-attempt (ask_cancel r env owner e) = inr refl
Move-attempt (publish r engine result e) = inr refl
Move-attempt (give_up r failure e) = inr refl
Move-attempt (confirm r e) = inr refl
Move-attempt (retry r e more) = inr refl

Move-not_ended : {now : Instant} {r s : Row} → Move now r s → is_ended r.state ≡ false
Move-not_ended (claim r token seconds e) = rw e
Move-not_ended (beat r phase seconds e) = ground arith
Move-not_ended (withdraw r env owner e) = rw e
Move-not_ended (ask_cancel r env owner e) = rw e
Move-not_ended (publish r engine result e) = ground arith
Move-not_ended (give_up r failure e) = ground arith
Move-not_ended (confirm r e) = rw e
Move-not_ended (retry r e more) = rw e

Evolves-get_elem? :
    {now : Instant} {xs ys : List Row}
    → Evolves now xs ys
    → (i : ℕ) (r : Row) → get_elem? xs i ≡ some r
    → (s : Row) × (get_elem? ys i ≡ some s) × ((s ≡ r) ⊎ Move now r s)
Evolves-get_elem? done i r h = cc
Evolves-get_elem? (stay x e) zero r h = (x, refl, inl (some-injective x r h))
Evolves-get_elem? {now} (move {x} {y} m e) zero r h =
    (y, refl, inr (subst (λ z. Move now z y) (some-injective x r h) m))
Evolves-get_elem? (stay x e) (suc i) r h = Evolves-get_elem? e i r h
Evolves-get_elem? (move m e) (suc i) r h = Evolves-get_elem? e i r h

-- A call finds each run where it was, as it was or moved.
pub perform-get_elem? :
    (env : Env) (now : Instant) (c : Call) (d : Database)
    → HasUniqueIds d.jobs
    → (i : ℕ) (r : Row) → get_elem? d.jobs i ≡ some r
    → (s : Row) × (get_elem? (perform env now c d).jobs i ≡ some s) × ((s ≡ r) ⊎ Move now r s)
perform-get_elem? env now c d u i r h = step (perform-TableStep env now c d u)
  where
    step :
        {d' : Database}
        → TableStep now d d'
        → (s : Row) × (get_elem? d'.jobs i ≡ some s) × ((s ≡ r) ⊎ Move now r s)
    step (evolve e n) = Evolves-get_elem? e i r h
    step (enqueue owner fields built fresh e n) =
        (r, rw e (get_elem?-append d.jobs _ i r h), inl refl)

-- What a call may do to a run.
pub record RunStep (r s : Row) : Type 0 where
  pub same_run : IsSameRun r s
  pub edge : (s.state ≡ r.state) ⊎ (r.state ⟶ s.state)
  pub counted :
      ((r.state ≡ queued) × (s.state ≡ running) × (s.attempt ≡ r.attempt + 1))
      ⊎ (s.attempt ≡ r.attempt)

follow :
    {now : Instant} (r : Row) (xs : List Row) (i : ℕ)
    → (s : Row) × (get_elem? xs i ≡ some s) × ((s ≡ r) ⊎ Move now r s)
    → (s : Row) × (get_elem? xs i ≡ some s) × RunStep r s
follow r xs i (s, g, inl e) = (
  s,
  g,
  record {
    same_run = subst (IsSameRun r) (sym e) (IsSameRun-refl r);
    edge = inl (ap (λ (x : Row). x.state) e);
    counted = inr (ap (λ (x : Row). x.attempt) e);
  },
)
follow r xs i (s, g, inr m) = (
  s,
  g,
  record { same_run = Move-IsSameRun m; edge = inr (Move-edge m); counted = Move-attempt m },
)

-- Where the invariant holds, one call, whatever it is, leaves each run in its place: it keeps the
-- columns that identify the run, keeps its state or takes it along an edge of the diagram, and
-- keeps the number of attempts unless it starts the queued run, which counts one.
pub perform-RunStep :
    (env : Env) (t now : Instant) (c : Call) (d : Database) (i : ℕ) (r : Row)
    → IsValid t d
    → get_elem? d.jobs i ≡ some r
    → (s : Row) × (get_elem? (perform env now c d).jobs i ≡ some s) × RunStep r s
perform-RunStep env t now c d i r v h =
    follow r (perform env now c d).jobs i (perform-get_elem? env now c d v.ids i r h)

-- From a database where the invariant holds, a run that is completed, failed or cancelled stays in
-- its place as it is, whatever history of calls follows.
pub history_keeps_ended :
    (env : Env) (t : Instant) (cs : List (ℕ × Call)) (d : Database) (i : ℕ) (r : Row)
    → IsValid t d
    → get_elem? d.jobs i ≡ some r
    → is_ended r.state ≡ true
    → get_elem? (history env t cs d).1.jobs i ≡ some r
unfolding history
history_keeps_ended env t [] d i r v h e = h
history_keeps_ended env t ((elapsed, c) ∷ cs) d i r v h e =
    history_keeps_ended env (t + elapsed) cs (perform env (t + elapsed) c d) i r
      (perform-IsValid env t (t + elapsed) c d (omega arith) v)
      (keep (perform-get_elem? env (t + elapsed) c d v.ids i r h)) e
  where
    keep :
        (s : Row) × (get_elem? (perform env (t + elapsed) c d).jobs i ≡ some s)
          × ((s ≡ r) ⊎ Move (t + elapsed) r s)
        → get_elem? (perform env (t + elapsed) c d).jobs i ≡ some r
    keep (s, g, inl same) = g ∙ ap some same
    keep (s, g, inr m) = absurd (cc (Move-not_ended m))
