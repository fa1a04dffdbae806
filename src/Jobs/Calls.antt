-- ===== src/Jobs/Calls.antt =====
-- demo/jobs.py: the calls that a client or a worker makes, and a history of them. A caller
-- handles an exception, so the history goes on with the database that the call leaves.
use stock_signal.Common.{ℕ, ◌+◌, Bool, Option, List, [], ◌∷◌}
use stock_signal.Jobs.Data.{Text, Instant, Phase, FailureCode, Checked, Number, Published, Database}
use stock_signal.Jobs.Monad.{Action, ◌>>◌, pure}
use stock_signal.Jobs.Owner.{Env, submit, cancel_run}
use stock_signal.Jobs.Lease.{
  claim_next, heartbeat, complete, fail, confirm_cancelled, recover_expired_leases,
}

pub data Call : Type 0 where
  -- the owner, the request, and the run id that is drawn
  submits : Checked Text → Text → Text → Call
  cancels : Text → Text → Call
  -- the lease's length, and the token that is drawn
  claims : Number → Text → Call
  beats : Text → Text → Number → Option (Checked Phase) → Call
  completes : Text → Text → Checked Text → Published → Call
  fails : Text → Text → Checked FailureCode → Checked Bool → Call
  confirms : Text → Text → Call
  recovers : Call

-- The call, whatever value it returns. A cancel is its transaction: the `job_detail` that follows it
-- writes nothing (Jobs/Shown).
unfoldable pub attempt : Env → Instant → Call → Action (Unit {0})
attempt env now (Call.submits owner request drawn) = submit env owner request drawn now >> pure tt
attempt env now (Call.cancels owner id) = cancel_run env owner id now >> pure tt
attempt env now (Call.claims seconds token) = claim_next seconds token now >> pure tt
attempt env now (Call.beats id token seconds phase) =
    heartbeat id token seconds phase now >> pure tt
attempt env now (Call.completes id token run result) =
    complete env id token run result now >> pure tt
attempt env now (Call.fails id token code retryable) = fail id token code retryable now >> pure tt
attempt env now (Call.confirms id token) = confirm_cancelled id token now >> pure tt
attempt env now Call.recovers = recover_expired_leases now >> pure tt

unfoldable pub perform : Env → Instant → Call → Database → Database
unfolding attempt
perform env now c d = (attempt env now c d).1

-- Each call with the time since the one before; the clock of one host does not run back.
unfoldable pub history : Env → Instant → List (ℕ × Call) → Database → Instant × Database
history env now [] d = (now, d)
history env now ((elapsed, c) ∷ cs) d =
    history env (now + elapsed) cs (perform env (now + elapsed) c d)
