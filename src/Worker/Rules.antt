-- ===== src/Worker/Rules.antt =====
-- demo/worker.py: `DemoWorker`, up to what the operating system, the replay and the checks of its
-- output give it.
use stock_signal.Common.{
  ℕ, zero, suc, Text, Bool, true, false, not, ◌&&◌, Option, none, some, List, [], ◌∷◌, ◌==◌,
  if◌then◌else◌,
}
use stock_signal.Common.Int.{ℤ, pos, negsuc, leb_ℤ, ltb_ℤ, ◌+ℤ◌}
use stock_signal.Jobs.Data.{
  Instant, State, Phase, verifying, FailureCode, timeout, validation_failed, input_unavailable,
  execution_failed, artifact_invalid, Checked, given, Number, finite, Artifact, ResultRecord,
  Published, Claimed, is_cancel_requested,
}
use stock_signal.Jobs.Monad.{lease_lost, value_error, Result, ok, err, Action, ◌>>=◌, ◌>>◌, pure}
use stock_signal.Jobs.Owner.{Env}
use stock_signal.Jobs.Calls.{Call, perform}
use stock_signal.Jobs.Lease.{
  claim_next, heartbeat, complete, fail, confirm_cancelled, recover_expired_leases,
}

-- The settings of `DemoWorker`, in clock ticks.
pub record Worker : Type 0 where
  pub lease_seconds : ℤ
  pub heartbeat_seconds : ℤ
  pub timeout_seconds : ℤ

-- `__init__`, without its directories
unfoldable pub demo_worker : ℤ → ℤ → ℤ → Result Worker
demo_worker lease beat limit =
    if not (ltb_ℤ (pos 0) beat && ltb_ℤ beat lease)
    then err value_error
    else if not (ltb_ℤ (pos 0) limit)
    then err value_error
    else ok (record { lease_seconds = lease; heartbeat_seconds = beat; timeout_seconds = limit })

-- One pass of the loop: what `child.wait` gives, none where it times out, `time.monotonic()` after
-- it, the phase that the child wrote, the instant of the heartbeat, and the calls of others that
-- come before it.
pub record Tick : Type 0 where
  pub returncode : Option ℤ
  pub monotonic : ℤ
  pub phase : Option Phase
  pub now : Instant
  pub others : List (Instant × Call)

-- What `_verified_output` returns.
pub record Verified : Type 0 where
  pub engine_run_id : Checked Text
  pub id : Text
  pub result : ResultRecord
  pub artifacts : List Artifact

-- What a run of the worker meets: the passes of the loop, the instants of the calls that follow it,
-- the verified output, none where that raises, and the directory that `_publish` makes, none where
-- it raises an OSError. Owners and other workers call the store between the worker's calls: the
-- lists have those before the claim, before the first call after the loop, and before the last.
pub record World : Type 0 where
  pub recovered_at : Instant
  pub claimed_at : Instant
  pub token : Text
  pub started : ℤ
  pub tick : ℕ → Tick
  pub ended_at : Instant
  pub reported_at : Instant
  pub output : Option Verified
  pub publish : Text → Option Text
  pub before_claim : List (Instant × Call)
  pub before_end : List (Instant × Call)
  pub before_report : List (Instant × Call)

-- The calls of others, each with its instant.
unfoldable pub meanwhile : Env → List (Instant × Call) → Action (Unit {0})
meanwhile env [] d = (ok tt, d)
meanwhile env ((now, c) ∷ cs) d = meanwhile env cs (perform env now c d)

-- `interrupted_by` and `returncode` after the loop.
pub data Interruption : Type 0 where
  by_timeout by_cancel : Interruption
  exited : ℤ → Interruption

-- The text that `run_once` returns; `unfinished` is a loop that still runs when the fuel is used.
pub data Outcome : Type 0 where
  is_failed is_cancelled is_completed is_lost unfinished : Outcome

-- CHILD_FAILURES, with the exit codes of demo/replay_child.py
abbrev pub same_code : ℤ → ℕ → Bool
same_code (pos n) m = n == m
same_code (negsuc n) m = false

abbrev pub failure_code : ℤ → FailureCode
failure_code c =
    if same_code c 3
    then validation_failed
    else if same_code c 4
    then input_unavailable
    else execution_failed

abbrev pub phase_given : Option Phase → Option (Checked Phase)
phase_given none = none
phase_given (some p) = some (given p)

abbrev pub go_on : Bool → Action (Option Interruption) → Action (Option Interruption)
go_on true rest = pure (some by_cancel)
go_on false rest = rest

-- One pass: an exit, the deadline, or a heartbeat and what comes after it.
abbrev pub pass :
    Option ℤ → Bool → Action State → Action (Option Interruption) → Action (Option Interruption)
pass (some code) late beat rest = pure (some (exited code))
pass none true beat rest = pure (some by_timeout)
pass none false beat rest = beat >>= λ s. go_on (is_cancel_requested s) rest

-- The worker's calls after the loop.
abbrev pub report_failure : FailureCode → Instant → Claimed → Action Outcome
report_failure code now job =
    fail job.id job.lease_token (given code) (given false) now >> pure is_failed

abbrev pub report_cancelled : Instant → Claimed → Action Outcome
report_cancelled now job = confirm_cancelled job.id job.lease_token now >> pure is_cancelled

abbrev pub published : Verified → Text → Published
published v directory = record {
  id = v.id;
  directory = directory;
  result = v.result;
  artifacts = v.artifacts;
}

abbrev pub complete_with : Env → World → Claimed → Verified → Option Text → Action Outcome
complete_with env world job v none = report_failure execution_failed world.reported_at job
complete_with env world job v (some directory) =
    complete env job.id job.lease_token v.engine_run_id (published v directory) world.reported_at
    >> pure is_completed

abbrev pub publish_output : Env → World → Claimed → Option Verified → Action Outcome
publish_output env world job none = report_failure artifact_invalid world.reported_at job
publish_output env world job (some v) = complete_with env world job v (world.publish v.id)

-- `except LeaseLost: return "lease_lost"`
abbrev pub lost_or : Result Outcome → Result (Option Outcome)
lost_or (ok o) = ok (some o)
lost_or (err lease_lost) = ok (some is_lost)
lost_or (err e) = err e

abbrev pub unless_cancelled : Env → World → Claimed → State → Action Outcome
unless_cancelled env world job s =
    if is_cancel_requested s
    then report_cancelled world.reported_at job
    else publish_output env world job world.output

module _ (w : Worker) where
  abbrev pub lease_of : Number
  lease_of = finite w.lease_seconds

  -- `self.store.heartbeat(…)` of the loop
  abbrev pub beat : Env → Claimed → Tick → Action State
  beat env job t =
      meanwhile env t.others
      >> heartbeat job.id job.lease_token lease_of (phase_given t.phase) t.now

  -- The `while True` of `_supervise`, from its i-th pass on; none where the fuel is used.
  unfoldable pub watch : Env → ℕ → ℕ → ℤ → (ℕ → Tick) → Claimed → Action (Option Interruption)
  watch env zero i deadline ticks job = pure none
  watch env (suc fuel) i deadline ticks job =
      pass (ticks i).returncode (leb_ℤ deadline (ticks i).monotonic) (beat env job (ticks i))
        (watch env fuel (suc i) deadline ticks job)

  abbrev pub verify : Env → World → Claimed → Action Outcome
  verify env world job =
      heartbeat job.id job.lease_token lease_of (some (given verifying)) world.ended_at >>= λ s.
      meanwhile env world.before_report >> unless_cancelled env world job s

  abbrev pub after_loop : Env → World → Claimed → Option Interruption → Action Outcome
  after_loop env world job none = pure unfinished
  after_loop env world job (some by_timeout) = report_failure timeout world.ended_at job
  after_loop env world job (some by_cancel) = report_cancelled world.ended_at job
  after_loop env world job (some (exited code)) =
      if not (same_code code 0)
      then report_failure (failure_code code) world.ended_at job
      else verify env world job

  -- `_supervise`
  unfoldable pub supervise : Env → World → ℕ → Claimed → Action Outcome
  supervise env world fuel job =
      watch env fuel 0 (world.started +ℤ w.timeout_seconds) world.tick job >>= λ o.
      meanwhile env world.before_end >> after_loop env world job o

  abbrev pub run_claimed : Env → World → ℕ → Option Claimed → Action (Option Outcome)
  run_claimed env world fuel none d = (ok none, d)
  run_claimed env world fuel (some job) d =
      let p = supervise env world fuel job d in (lost_or p.0, p.1)

  unfoldable pub run_once : Env → World → ℕ → Action (Option Outcome)
  run_once env world fuel =
      recover_expired_leases world.recovered_at
      >> (meanwhile env world.before_claim
          >> (claim_next lease_of world.token world.claimed_at >>= run_claimed env world fuel))
