-- ===== src/Worker/Tests.antt =====
-- demo/worker.py: a run of the worker, and the theorems at inputs that meet their hypotheses.
use stock_signal.Common.{ℕ, zero, suc, ◌+◌, ◌*◌, ◌≡◌, ◌≢◌, refl, true, none, some, [], ◌∷◌, arith}
use stock_signal.Common.Int.{pos, leb_ℤ, ◌+ℤ◌}
use stock_signal.Jobs.Data.{Row, State, Database, queued, given, Phase, Claimed}
use stock_signal.Jobs.Monad.{ok}
use stock_signal.Jobs.Owner.{Env, lease_duration, cancel_run, owned_row}
use stock_signal.Jobs.Calls.{Call, perform, attempt}
use stock_signal.Jobs.Lease.{
  claim_next, claim_in, leased_row, heartbeat, beat_in, complete, complete_in, insert_rows,
  insert_result, insert_artifacts, recover_expired_leases, recover_each, is_expired, start_attempt,
  complete_row, confirm_cancelled,
}
use stock_signal.Worker.Rules.{
  Worker, demo_worker, Tick, World, is_completed, is_cancelled, unfinished, meanwhile, lease_of,
  watch, supervise, run_once,
}
use stock_signal.Worker.Reports.{Reported, run_once-Reported}
use stock_signal.Worker.Loop.{supervise_ends}

abbrev env : Env
env = record {
  parse_uuid = λ v. some v;
  requester_id_for = λ o. o + 1000;
  validated_request_fields = λ r. ok (record { idempotency_key = r; document = r });
  request_fingerprint = λ f. f.document;
  build_replay_request = λ f drawn. ok (record {
    run_id = drawn;
    idempotency_key = f.idempotency_key;
    request_fingerprint = f.document;
    normalized_run = drawn;
    strategy_configuration = 7;
  });
}

abbrev worker : Worker
worker = record { lease_seconds = pos 30; heartbeat_seconds = pos 5; timeout_seconds = pos 20 }

built : demo_worker (pos 30) (pos 5) (pos 20) ≡ ok worker
unfolding demo_worker
built = refl

abbrev waiting_run : Row
waiting_run = record {
  seq = 1;
  id = 11;
  owner_id = 5;
  idempotency_key = 1;
  request_fingerprint = 1;
  request = 1;
  normalized_run = 11;
  strategy_configuration = 7;
  state = queued;
  phase = none;
  created_at = 1;
  started_at = none;
  ended_at = none;
  heartbeat_at = none;
  attempt = 0;
  lease_token = none;
  lease_expires_at = none;
  engine_run_id = none;
  result_id = none;
  failure = none;
  cancel_requested_at = none;
  cancel_requester_id = none;
}

abbrev one_run : Database
one_run = record { jobs = waiting_run ∷ []; results = []; artifacts = []; next_seq = 2 }

-- A wait of five ticks times out, and then the child exits with 0.
abbrev ticks : ℕ → Tick
ticks zero = record {
  returncode = none;
  monotonic = pos 105;
  phase = some Phase.replaying;
  now = 10;
  others = [];
}
ticks (suc n) = record {
  returncode = some (pos 0);
  monotonic = pos (105 + 5 * n);
  phase = none;
  now = 15;
  others = [];
}

abbrev world : World
world = record {
  recovered_at = 4;
  claimed_at = 5;
  token = 31;
  started = pos 100;
  tick = ticks;
  ended_at = 16;
  reported_at = 17;
  output = some (record {
    engine_run_id = given 9;
    id = 70;
    result = record { id = some 70; run_id = some 11; artifact_ids = some []; document = 0 };
    artifacts = [];
  });
  publish = λ id. some (id + 1);
  before_claim = [];
  before_end = [];
  before_report = [];
}

abbrev after : Database
after = record one_run {
  jobs =
      complete_row 9 70 17 (record (start_attempt 31 30 5 waiting_run) {
        heartbeat_at = some 16;
        lease_expires_at = some 46;
        phase = some Phase.verifying;
      })
      ∷ [];
  results =
      record {
        id = 70;
        job_id = 11;
        directory = 71;
        result = record { id = some 70; run_id = some 11; artifact_ids = some []; document = 0 };
      }
      ∷ [];
}

runs : run_once worker env world 5 one_run ≡ (ok (some is_completed), after)
unfolding run_once supervise watch meanwhile perform attempt cancel_run owned_row
    recover_expired_leases recover_each is_expired claim_next claim_in lease_duration leased_row
    heartbeat beat_in complete complete_in insert_rows insert_result insert_artifacts ◌+ℤ◌
runs = refl

-- The owner asks for a cancel while the replay runs; the next heartbeat sees it.
abbrev cancelled_ticks : ℕ → Tick
cancelled_ticks n = record {
  returncode = none;
  monotonic = pos 105;
  phase = some Phase.replaying;
  now = 10;
  others = (8, Call.cancels 5 11) ∷ [];
}

abbrev cancelled_world : World
cancelled_world = record world { tick = cancelled_ticks; before_claim = (4, Call.recovers) ∷ [] }

abbrev after_cancel : Database
after_cancel = record one_run {
  jobs =
      record (start_attempt 31 30 5 waiting_run) {
        heartbeat_at = some 10;
        phase = some Phase.replaying;
        state = State.cancelled;
        ended_at = some 16;
        lease_token = none;
        lease_expires_at = none;
        cancel_requested_at = some 8;
        cancel_requester_id = some 1005;
      }
      ∷ [];
}

is_stopped : run_once worker env cancelled_world 5 one_run ≡ (ok (some is_cancelled), after_cancel)
unfolding run_once supervise watch meanwhile perform attempt cancel_run owned_row
    recover_expired_leases recover_each is_expired claim_next claim_in lease_duration leased_row
    heartbeat beat_in confirm_cancelled ◌+ℤ◌
is_stopped = refl

abbrev job : Claimed
job = record {
  id = 11;
  lease_token = 31;
  attempt = 1;
  request = 1;
  normalized_run = 11;
  strategy_configuration = 7;
}

run_once-Reported_example :
    (job : Claimed) × (e : Database) × (claim_next
        (lease_of worker)
        31
        5
        (meanwhile env ((4, Call.recovers) ∷ []) (recover_expired_leases 4 one_run).1).1
      ≡ (ok (some job), e))
    × Reported job.id is_cancelled after_cancel
run_once-Reported_example =
    run_once-Reported worker env cancelled_world 5 one_run after_cancel is_cancelled (tt, tt)
      is_stopped

at_deadline : leb_ℤ (pos 100 +ℤ pos 20) (ticks 4).monotonic ≡ true
unfolding ◌+ℤ◌
at_deadline = refl

supervise_ends_example : (supervise worker env world 5 job after).0 ≢ ok unfinished
supervise_ends_example = supervise_ends worker env world job 4 5 after at_deadline (omega arith)
