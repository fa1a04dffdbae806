-- ===== src/Worker/Loop.antt =====
-- demo/worker.py: the loop of `_supervise` ends at its deadline.
use stock_signal.Common.{
  ℕ, Text, zero, suc, ◌+◌, ◌≤◌, ◌<◌, ◌≡◌, ◌≢◌, refl, sym, ap, ◌∙◌, Bool, true, false, Option, none,
  some, Bool-cases, inl, inr, arith, ◌==◌,
}
use stock_signal.Common.Int.{ℤ, leb_ℤ, ◌+ℤ◌}
use stock_signal.Jobs.Data.{
  State, Instant, Claimed, Database, FailureCode, is_cancel_requested, timeout, artifact_invalid,
  execution_failed, given, verifying,
}
use stock_signal.Jobs.Monad.{Result, ok, err, Action, ◌>>◌, and_then, pure}
use stock_signal.Jobs.Owner.{Env}
use stock_signal.Jobs.Lease.{heartbeat, complete, fail, confirm_cancelled}
use stock_signal.Worker.Rules.{
  Worker, Tick, World, Verified, Interruption, by_timeout, by_cancel, exited, Outcome, is_failed,
  is_cancelled, is_completed, unfinished, same_code, failure_code, lease_of, meanwhile, beat, go_on,
  pass, watch, report_failure, report_cancelled, published, complete_with, publish_output,
  unless_cancelled, after_loop, supervise,
}

-- The loop did not run out of fuel.
abbrev Ends : Result (Option Interruption) → Type 0
Ends r = r ≢ ok none

go_on-Ends :
    (c : Bool) (rest : Action (Option Interruption)) (d : Database)
    → Ends (rest d).0
    → Ends (go_on c rest d).0
go_on-Ends true rest d h = λ e. cc
go_on-Ends false rest d h = h

beat-Ends :
    (p : Result State × Database) (rest : Action (Option Interruption))
    → ((e : Database) → Ends (rest e).0)
    → Ends (and_then p (λ s. go_on (is_cancel_requested s) rest)).0
beat-Ends (ok s, e) rest h = go_on-Ends (is_cancel_requested s) rest e (h e)
beat-Ends (err x, e) rest h = λ k. cc

pass-Ends :
    (o : Option ℤ) (late : Bool) (b : Action State) (rest : Action (Option Interruption))
    (d : Database)
    → (late ≡ false → (e : Database) → Ends (rest e).0)
    → Ends (pass o late b rest d).0
pass-Ends (some code) late b rest d h = λ k. cc
pass-Ends none true b rest d h = λ k. cc
pass-Ends none false b rest d h = beat-Ends (b d) rest (h refl)

-- What the loop may still do before its deadline.
watch-Ends :
    (w : Worker) (env : Env) (job : Claimed) (ticks : ℕ → Tick) (deadline : ℤ) (limit fuel i : ℕ)
    (d : Database)
    → leb_ℤ deadline (ticks limit).monotonic ≡ true
    → i ≤ limit
    → limit < i + fuel
    → Ends (watch w env fuel i deadline ticks job d).0
unfolding watch
watch-Ends w env job ticks deadline limit zero i d t low high = absurd (omega (arith, low, high))
watch-Ends w env job ticks deadline limit (suc fuel) i d t low high =
    pass-Ends (ticks i).returncode (leb_ℤ deadline (ticks i).monotonic) (beat w env job (ticks i))
      (watch w env fuel (suc i) deadline ticks job) d
      (λ early e.
        watch-Ends w env job ticks deadline limit fuel (suc i) e t (not_last early)
          (omega (arith, high)))
  where
    true-≢-false : true ≢ false
    true-≢-false e = cc

    not_last : leb_ℤ deadline (ticks i).monotonic ≡ false → suc i ≤ limit
    not_last early = elim (Bool-cases (i == limit)) [
      | inl here ↦
          let same : i ≡ limit = ground arith in
          absurd
            (true-≢-false (sym t ∙ ap (λ n. leb_ℤ deadline (ticks n).monotonic) (sym same) ∙ early))
      | inr before ↦ ground arith
    ]

-- A report is no loop that still runs.
abbrev Finished : Result Outcome × Database → Type 0
Finished p = p.0 ≢ ok unfinished

then-Finished :
    (o : Outcome) (p : Result (Unit {0}) × Database)
    → o ≢ unfinished
    → Finished (and_then p (λ _. pure o))
then-Finished o (ok _, e) h = λ k. h (same_outcome o unfinished k)
  where
    same_outcome : (a b : Outcome) → ok a ≡ ok b → a ≡ b
    same_outcome a b e = ground arith
then-Finished o (err x, e) h = λ k. cc

and_then-Finished :
    {A : Type 0} (p : Result A × Database) (f : A → Action Outcome)
    → ((a : A) (e : Database) → p.0 ≡ ok a → Finished (f a e))
    → Finished (and_then p f)
and_then-Finished (ok a, e) f h = h a e refl
and_then-Finished (err x, e) f h = λ k. cc

failure-Finished :
    (code : FailureCode) (now : Instant) (job : Claimed) (d : Database)
    → Finished (report_failure code now job d)
failure-Finished code now job d =
    then-Finished is_failed (fail job.id job.lease_token (given code) (given false) now d) (λ e. cc)

cancelled-Finished :
    (now : Instant) (job : Claimed) (d : Database) → Finished (report_cancelled now job d)
cancelled-Finished now job d =
    then-Finished is_cancelled (confirm_cancelled job.id job.lease_token now d) (λ e. cc)

output-Finished :
    (env : Env) (world : World) (job : Claimed) (o : Option Verified) (d : Database)
    → Finished (publish_output env world job o d)
output-Finished env world job none d = failure-Finished artifact_invalid world.reported_at job d
output-Finished env world job (some v) d = directory (world.publish v.id)
  where
    directory : (t : Option Text) → Finished (complete_with env world job v t d)
    directory none = failure-Finished execution_failed world.reported_at job d
    directory (some t) =
        then-Finished is_completed
          (complete env job.id job.lease_token v.engine_run_id (published v t) world.reported_at d)
          (λ e. cc)

checked-Finished :
    (env : Env) (world : World) (job : Claimed) (s : State) (d : Database)
    → Finished (unless_cancelled env world job s d)
checked-Finished env world job s d = elim (Bool-cases (is_cancel_requested s)) [
  | inl asked ↦ rw asked (cancelled-Finished world.reported_at job d)
  | inr wanted ↦ rw wanted (output-Finished env world job world.output d)
]

after_loop-Finished :
    (w : Worker) (env : Env) (world : World) (job : Claimed) (o : Option Interruption)
    (d : Database)
    → o ≢ none
    → Finished (after_loop w env world job o d)
after_loop-Finished w env world job none d h = absurd (h refl)
after_loop-Finished w env world job (some by_timeout) d h =
    failure-Finished timeout world.ended_at job d
after_loop-Finished w env world job (some by_cancel) d h = cancelled-Finished world.ended_at job d
after_loop-Finished w env world job (some (exited code)) d h =
    elim (Bool-cases (same_code code 0)) [
      | inl zero_code ↦ rw zero_code (
          and_then-Finished
            (heartbeat job.id job.lease_token (lease_of w) (some (given verifying)) world.ended_at
              d)
            (λ s. meanwhile env world.before_report >> unless_cancelled env world job s)
            (λ s e k.
              and_then-Finished (meanwhile env world.before_report e)
                (λ _. unless_cancelled env world job s)
                (λ u e' k'. checked-Finished env world job s e')))
      | inr other_code ↦ rw other_code (failure-Finished (failure_code code) world.ended_at job d)
    ]

-- Where the clock is at the deadline by the pass of number `limit`, more fuel than that is enough:
-- the supervision of a run ends, with an outcome or an exception.
pub supervise_ends :
    (w : Worker) (env : Env) (world : World) (job : Claimed) (limit fuel : ℕ) (d : Database)
    → leb_ℤ (world.started +ℤ w.timeout_seconds) (world.tick limit).monotonic ≡ true
    → limit < fuel
    → (supervise w env world fuel job d).0 ≢ ok unfinished
unfolding supervise
supervise_ends w env world job limit fuel d t h =
    and_then-Finished (watch w env fuel 0 (world.started +ℤ w.timeout_seconds) world.tick job d)
      (λ o. meanwhile env world.before_end >> after_loop w env world job o)
      (λ o e k.
        and_then-Finished (meanwhile env world.before_end e) (λ _. after_loop w env world job o)
          (λ u e' k'. after_loop-Finished w env world job o e' (λ q.
            watch-Ends w env job world.tick (world.started +ℤ w.timeout_seconds) limit fuel 0 d t
              (omega arith) (omega (arith, h)) (k ∙ ap ok q))))
