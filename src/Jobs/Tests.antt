-- ===== src/Jobs/Tests.antt =====
-- demo/jobs.py: runs of the model at small inputs, and the theorems at inputs that meet their
-- hypotheses.
mod Rounds
use stock_signal.Common.{
  ℕ, ◌/◌, ◌%◌, ◌+◌, ◌≡◌, refl, ◌≢◌, true, false, none, some, List, [], ◌∷◌, All, arith, get_elem?,
  find?, ◌==◌, ◌&&◌, map,
}
use stock_signal.Common.Int.{pos}
use stock_signal.Jobs.Data.{
  State, queued, running, completed, Row, Database, empty, Claimed, Published, given, Number, Phase,
  timeout,
}
use stock_signal.Jobs.Monad.{ok, err, lease_lost, idempotency_conflict, integrity_error}
use stock_signal.Jobs.Owner.{
  Env, submit, cancel_run, job_for_key, insert_job, owned_row, lease_duration,
}
use stock_signal.Jobs.Lease.{
  claim_next, claim_in, leased_row, heartbeat, beat_in, complete, complete_in, insert_rows,
  insert_result, insert_artifact, insert_artifacts, fail, confirm_cancelled, start_attempt,
  recover_expired_leases, recover_each, is_expired,
}
use stock_signal.Jobs.Calls.{Call, attempt, perform, history}
use stock_signal.Jobs.Invariant.{IsValid, empty-IsValid, history-IsValid}
use stock_signal.Jobs.Lifecycle.{RunStep, perform-RunStep, history_keeps_ended}
use stock_signal.Jobs.Rollback.{attempt_rolls_back}
use stock_signal.Jobs.Leases.{stale_token_refused, claim_takes_oldest}
use stock_signal.Jobs.Repeats.{IsFaithful, submit_repeats, submit_conflicts}
use Prim.Native.Nat.{◌≤◌}
use stock_signal.Jobs.Moves.{TableStep}
use stock_signal.Jobs.Refines.{perform-TableStep}

-- Every text is a UUID. The last two digits of a request are its document, the rest its key.
abbrev env : Env
env = record {
  parse_uuid = λ v. some v;
  requester_id_for = λ o. o + 1000;
  validated_request_fields = λ r. ok (record { idempotency_key = r / 100; document = r % 100 });
  request_fingerprint = λ f. f.document;
  build_replay_request = λ f drawn. ok (record {
    run_id = drawn;
    idempotency_key = f.idempotency_key;
    request_fingerprint = f.document;
    normalized_run = drawn;
    strategy_configuration = 7;
  });
}

env-IsFaithful : IsFaithful env
env-IsFaithful = record {
  same_key = λ f drawn b e. ground arith;
  same_fingerprint = λ f drawn b e. ground arith;
}

abbrev lease : Number
lease = Number.finite (pos 30)

abbrev published : Published
published = record {
  id = 70;
  directory = 71;
  result = record { id = some 70; run_id = some 11; artifact_ids = some (72 ∷ []); document = 0 };
  artifacts =
      record { id = 72; kind = 1; relative_path = 2; sha256 = 3; mime_type = 4; byte_size = 5 }
      ∷ [];
}

-- Two runs are asked for; the first is claimed, lost, claimed again and completed.
abbrev calls : List (ℕ × Call)
calls =
    (1, Call.submits (given 5) 101 11)
    ∷ (1, Call.submits (given 5) 202 12)
    ∷ (1, Call.claims lease 31)
    ∷ (31, Call.recovers)
    ∷ (1, Call.claims lease 32)
    ∷ []

abbrev more : List (ℕ × Call)
more = (2, Call.completes 11 32 (given 9) published) ∷ []

program : Unit {0}
unfolding history perform attempt submit job_for_key insert_job cancel_run owned_row claim_next
    claim_in lease_duration leased_row heartbeat beat_in complete complete_in insert_rows
    insert_result insert_artifact insert_artifacts fail confirm_cancelled recover_expired_leases
    recover_each is_expired
program = tt

abbrev states : Database → List State
states d = map (λ r. r.state) d.jobs

claimed_twice :
    let (now, d) = history env 0 calls empty in
    (states d ≡ running ∷ queued ∷ []) × (now ≡ 35) × (map (λ r. r.attempt) d.jobs ≡ 2 ∷ 0 ∷ [])
unfolding program
claimed_twice = (refl, refl, refl)

completed_once :
    let d = (history env 35 more (history env 0 calls empty).1).1 in
    (states d ≡ completed ∷ queued ∷ []) × (map (λ r. r.job_id) d.results ≡ 11 ∷ [])
unfolding program
completed_once = (refl, refl)

abbrev working : Database
working = (history env 0 calls empty).1

working-IsValid : IsValid 35 working
unfolding program
working-IsValid = history-IsValid env 0 calls empty (empty-IsValid 0)

history-IsValid_example : IsValid (history env 0 calls empty).0 (history env 0 calls empty).1
history-IsValid_example = history-IsValid env 0 calls empty (empty-IsValid 0)

-- The run of the first row, as it is after the calls.
abbrev first_row : Row
first_row = record {
  seq = 1;
  id = 11;
  owner_id = 5;
  idempotency_key = 1;
  request_fingerprint = 1;
  request = 1;
  normalized_run = 11;
  strategy_configuration = 7;
  state = running;
  phase = some Phase.validating;
  created_at = 1;
  started_at = some 35;
  ended_at = none;
  heartbeat_at = some 35;
  attempt = 2;
  lease_token = some 32;
  lease_expires_at = some 65;
  engine_run_id = none;
  result_id = none;
  failure = none;
  cancel_requested_at = none;
  cancel_requester_id = none;
}

perform-RunStep_example :
    (s : Row) × (get_elem? (perform env 40 (Call.cancels 5 11) working).jobs 0 ≡ some s)
    × RunStep first_row s
unfolding program
perform-RunStep_example =
    perform-RunStep env 35 40 (Call.cancels 5 11) working 0 first_row working-IsValid refl

abbrev finished : Database
finished = (history env 35 more working).1

finished-IsValid : IsValid 37 finished
unfolding program
finished-IsValid = history-IsValid env 35 more working working-IsValid

abbrev finished_row : Row
finished_row = record first_row {
  state = completed;
  ended_at = some 37;
  lease_token = none;
  lease_expires_at = none;
  engine_run_id = some 9;
  result_id = some 70;
}

history_keeps_ended_example : get_elem? (history env 37 calls finished).1.jobs 0 ≡ some finished_row
unfolding program
history_keeps_ended_example =
    history_keeps_ended env 37 calls finished 0 finished_row finished-IsValid refl refl

-- The second attempt is under way, and an artifact 72 is there already: the row of the result
-- is written first, and rolled back.
abbrev crowded : Database
crowded = record {
  jobs = first_row ∷ [];
  results = [];
  artifacts =
      record {
        result_id = 60;
        artifact = record {
          id = 72;
          kind = 1;
          relative_path = 2;
          sha256 = 3;
          mime_type = 4;
          byte_size = 5;
        };
      }
      ∷ [];
  next_seq = 2;
}

crowded_raises :
    (attempt env 41 (Call.completes 11 32 (given 9) published) crowded).0 ≡ err integrity_error
unfolding program
crowded_raises = refl

attempt_rolls_back_example :
    (attempt env 41 (Call.completes 11 32 (given 9) published) crowded).1 ≡ crowded
attempt_rolls_back_example =
    attempt_rolls_back env 41 (Call.completes 11 32 (given 9) published) crowded crowded_raises

abbrev second_row : Row
second_row = record {
  seq = 2;
  id = 12;
  owner_id = 5;
  idempotency_key = 2;
  request_fingerprint = 2;
  request = 2;
  normalized_run = 12;
  strategy_configuration = 7;
  state = queued;
  phase = none;
  created_at = 2;
  started_at = none;
  ended_at = none;
  heartbeat_at = none;
  attempt = 0;
  lease_token = none;
  lease_expires_at = none;
  engine_run_id = none;
  result_id = none;
  failure = none;
  cancel_requested_at = none;
  cancel_requester_id = none;
}

abbrev waiting : Database
waiting = record { jobs = first_row ∷ second_row ∷ []; results = []; artifacts = []; next_seq = 3 }

waiting-IsValid : IsValid 37 waiting
waiting-IsValid = ground arith

abbrev second_claim : Claimed
second_claim = record {
  id = 12;
  lease_token = 33;
  attempt = 1;
  request = 2;
  normalized_run = 12;
  strategy_configuration = 7;
}

abbrev both : Database
both = record waiting {
  jobs =
      first_row
      ∷ record second_row {
        state = running;
        phase = some Phase.validating;
        started_at = some 40;
        heartbeat_at = some 40;
        attempt = 1;
        lease_token = some 33;
        lease_expires_at = some 70;
      }
      ∷ [];
}

waiting_claimed : claim_in 30 33 40 waiting ≡ (ok (some second_claim), both)
unfolding program
waiting_claimed = refl

claim_takes_oldest_example :
    (r : Row) × (find? (λ y. y.id == 12) waiting.jobs ≡ some r)
    × (r.state ≡ queued)
    × All (λ y. y.state ≡ queued → r.seq ≤ y.seq) waiting.jobs
    × (find? (λ y. y.id == 12) both.jobs ≡ some (start_attempt 33 30 40 r))
claim_takes_oldest_example =
    claim_takes_oldest 37 40 30 33 second_claim waiting both waiting-IsValid waiting_claimed

waiting_stale : All (λ r. r.id ≡ 11 → r.lease_token ≢ some 31) waiting.jobs
waiting_stale = (λ _ e. ground arith, (λ _ e. ground arith, tt))

-- The token of the first attempt, which recovery took back.
stale_token_refused_example :
    (beat_in 11 31 none 30 36 waiting ≡ (err lease_lost, waiting))
    × (complete_in 11 31 9 70 published 36 waiting ≡ (err lease_lost, waiting))
    × (fail 11 31 (given timeout) (given true) 36 waiting ≡ (err lease_lost, waiting))
    × (confirm_cancelled 11 31 36 waiting ≡ (err lease_lost, waiting))
stale_token_refused_example =
    stale_token_refused 11 31 36 waiting none 30 9 70 published timeout true waiting_stale

abbrev one : Database
one = (submit env (given 5) 101 11 1 empty).1

one-IsValid : IsValid 1 one
unfolding program
one-IsValid =
    history-IsValid env 0 ((1, Call.submits (given 5) 101 11) ∷ []) empty (empty-IsValid 0)

submit_repeats_example :
    submit env (given 5) 101 99 50 (history env 1 calls one).1
    ≡ (ok (11, false), (history env 1 calls one).1)
submit_repeats_example =
    submit_repeats env 5 101 11 99 11 1 50 true calls empty one
      (record { idempotency_key = 1; document = 1 }) env-IsFaithful (omega arith) refl
      (unfold program in
        let returned : submit env (given 5) 101 11 1 empty ≡ (ok (11, true), one) = refl in
        returned)
      one-IsValid

submit_conflicts_example :
    submit env (given 5) 103 99 50 (history env 1 calls one).1
    ≡ (err idempotency_conflict, (history env 1 calls one).1)
submit_conflicts_example =
    submit_conflicts env 5 101 103 11 99 11 1 50 true calls empty one
      (record { idempotency_key = 1; document = 1 }) (record { idempotency_key = 1; document = 3 })
      env-IsFaithful (omega arith) refl refl refl (omega arith)
      (unfold program in
        let returned : submit env (given 5) 101 11 1 empty ≡ (ok (11, true), one) = refl in
        returned)
      one-IsValid

perform-TableStep_example : TableStep 90 working (perform env 90 Call.recovers working)
perform-TableStep_example = perform-TableStep env 90 Call.recovers working working-IsValid.ids
