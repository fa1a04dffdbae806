-- ===== src/Jobs/Refines.antt =====
-- demo/jobs.py: every call does to the table of runs what the moves of a run allow.
mod Rules
pub mod Worker
mod Owner
use stock_signal.Jobs.Data.{Instant, Database}
use stock_signal.Jobs.Owner.{Env}
use stock_signal.Jobs.Calls.{Call, perform}
use stock_signal.Jobs.Moves.{TableStep, HasUniqueIds}
use stock_signal.Jobs.Recovery.{recover-TableStep}
use Rules.{then_pure-TableStep}
use Worker.{
  fail-TableStep, confirm-TableStep, heartbeat-TableStep, complete-TableStep, claim-TableStep,
}
use Owner.{cancel-TableStep, submit-TableStep}

-- Where ids are unique, whatever is called, either each run stays as it is or makes one of the
-- moves of a run, or a queued row with a new id and a new pair of owner and key is added.
pub perform-TableStep :
    (env : Env) (now : Instant) (c : Call) (d : Database)
    → HasUniqueIds d.jobs
    → TableStep now d (perform env now c d)
unfolding perform
perform-TableStep env now (Call.submits owner request drawn) d u =
    then_pure-TableStep _ tt now d (submit-TableStep env owner request drawn now d)
perform-TableStep env now (Call.cancels owner id) d u =
    then_pure-TableStep _ tt now d (cancel-TableStep env owner id now d u)
perform-TableStep env now (Call.claims lease token) d u =
    then_pure-TableStep _ tt now d (claim-TableStep lease token now d u)
perform-TableStep env now (Call.beats id token lease phase) d u =
    then_pure-TableStep _ tt now d (heartbeat-TableStep id token lease phase now d u)
perform-TableStep env now (Call.completes id token run result) d u =
    then_pure-TableStep _ tt now d (complete-TableStep env id token run result now d u)
perform-TableStep env now (Call.fails id token code retryable) d u =
    then_pure-TableStep _ tt now d (fail-TableStep id token code retryable now d u)
perform-TableStep env now (Call.confirms id token) d u =
    then_pure-TableStep _ tt now d (confirm-TableStep id token now d u)
perform-TableStep env now Call.recovers d u =
    then_pure-TableStep _ tt now d (recover-TableStep now d u)
