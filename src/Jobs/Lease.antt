-- ===== src/Jobs/Lease.antt =====
-- demo/jobs.py: the methods of `JobStore` that a worker calls under its lease, and recovery.
use stock_signal.Common.{
  ℕ, ◌+◌, Bool, false, not, ◌&&◌, ◌||◌, Option, none, some, List, [], ◌∷◌, ◌++◌, ltb, ◌==◌,
  if◌then◌else◌, update, any, select, coalesce, map,
}
use stock_signal.Jobs.Data.{
  Text, Instant, State, queued, running, completed, failed, cancelled, Phase, validating,
  FailureCode, worker_lost, Checked, given, other, Number, Failure, Row, Artifact, Published,
  ResultRow, Claimed, max_attempts, is_active, is_queued, is_cancel_requested, is_text, is_texts,
}
use stock_signal.Jobs.Monad.{
  value_error, lease_lost, integrity_error, type_error, Result, ok, err, Action, ◌>>=◌, ◌>>◌, pure,
  raise, gets, returned, transaction, raise_if, write,
}
use stock_signal.Jobs.Owner.{Env, update_job, select_job, lease_duration}

-- `claim_next`: the first queued job by `seq` is leased to the drawn token.
abbrev pub start_attempt : Text → ℕ → Instant → Row → Row
start_attempt token seconds now r = record r {
  state = running;
  phase = some validating;
  started_at = some now;
  heartbeat_at = some now;
  attempt = r.attempt + 1;
  lease_token = some token;
  lease_expires_at = some (now + seconds);
}

abbrev pub claimed : Text → Row → Claimed
claimed token r = record {
  id = r.id;
  lease_token = token;
  attempt = r.attempt + 1;
  request = r.request;
  normalized_run = r.normalized_run;
  strategy_configuration = r.strategy_configuration;
}

abbrev pub claim_row : Option Row → Text → ℕ → Instant → Action (Option Claimed)
claim_row none token seconds now = pure none
claim_row (some row) token seconds now = do
  write (λ d. record d {
    jobs =
        update (λ r. r.id == row.id && is_queued r.state) (start_attempt token seconds now) d.jobs;
  })
  pure (some (claimed token row))

-- The transaction of `claim_next`.
unfoldable pub claim_in : ℕ → Text → Instant → Action (Option Claimed)
claim_in seconds token now =
    transaction (do row ← select_job (λ r. is_queued r.state); claim_row row token seconds now)

unfoldable pub claim_next : Number → Text → Instant → Action (Option Claimed)
unfolding claim_in
claim_next lease_seconds token now = do
  seconds ← returned (lease_duration lease_seconds)
  claim_in seconds token now

-- `_leased_row`: `lease_expires_at < now` is asked of a row that was found, if a time is given.
abbrev pub is_past : Option Instant → Option Instant → Result Bool
is_past none expires = ok false
is_past (some now) none = err type_error
is_past (some now) (some expires) = ok (ltb expires now)

abbrev pub leased : Option Row → Option Instant → Action Row
leased none now = raise lease_lost
leased (some r) now = do
  expired ← returned (is_past now r.lease_expires_at)
  raise_if (not (is_active r.state) || expired) lease_lost
  pure r

unfoldable pub leased_row : Text → Text → Option Instant → Action Row
leased_row id token now = do
  row ← select_job (λ r. r.id == id && is_text r.lease_token token)
  leased row now

-- `heartbeat`; `phase` is none, one of PHASES, or another text.
abbrev pub checked_phase : Option (Checked Phase) → Result (Option Phase)
checked_phase none = ok none
checked_phase (some (given p)) = ok (some p)
checked_phase (some other) = err value_error

abbrev pub extend_lease : Option Phase → ℕ → Instant → Row → Row
extend_lease phase seconds now r = record r {
  heartbeat_at = some now;
  lease_expires_at = some (now + seconds);
  phase = coalesce phase r.phase;
}

-- The transaction of `heartbeat`.
unfoldable pub beat_in : Text → Text → Option Phase → ℕ → Instant → Action State
beat_in id token phase seconds now = transaction (do
  row ← leased_row id token (some now)
  update_job id (extend_lease phase seconds now)
  pure row.state)

unfoldable pub heartbeat : Text → Text → Number → Option (Checked Phase) → Instant → Action State
unfolding beat_in
heartbeat id token lease_seconds phase_arg now = do
  phase ← returned (checked_phase phase_arg)
  seconds ← returned (lease_duration lease_seconds)
  beat_in id token phase seconds now

-- The INSERT of `complete` into `demo_job_results`: each of its three texts is unique.
unfoldable pub insert_result : ResultRow → Action (Unit {0})
insert_result new d =
    if any (λ r. r.id == new.id || r.job_id == new.job_id || r.directory == new.directory) d.results
    then (err integrity_error, d)
    else (ok tt, record d { results = d.results ++ new ∷ [] })

-- One INSERT into `demo_job_artifacts`: the id is unique, and the path within a result.
unfoldable pub insert_artifact : Text → Artifact → Action (Unit {0})
insert_artifact result_id a d =
    if any
      (λ r.
        r.artifact.id == a.id
        || r.result_id == result_id && r.artifact.relative_path == a.relative_path)
      d.artifacts
    then (err integrity_error, d)
    else (
      ok tt,
      record d { artifacts = d.artifacts ++ record { result_id = result_id; artifact = a } ∷ [] },
    )

-- `executemany`
unfoldable pub insert_artifacts : Text → List Artifact → Action (Unit {0})
insert_artifacts result_id [] = pure tt
insert_artifacts result_id (a ∷ rest) =
    insert_artifact result_id a >> insert_artifacts result_id rest

abbrev pub ids : List Artifact → List Text
ids = map (λ a. a.id)

abbrev pub finish : State → Instant → Row → Row
finish state now r = record r {
  state = state;
  ended_at = some now;
  lease_token = none;
  lease_expires_at = none;
}

abbrev pub complete_row : Text → Text → Instant → Row → Row
complete_row engine_run_id result_id now r = record (finish completed now r) {
  engine_run_id = some engine_run_id;
  result_id = some result_id;
}

-- `str(uuid.UUID(result.id))`, which raises a ValueError.
abbrev pub uuid_or_raise : Option Text → Result Text
uuid_or_raise none = err value_error
uuid_or_raise (some id) = ok id

-- The two INSERTs of `complete`.
unfoldable pub insert_rows : Text → Text → Published → Action (Unit {0})
insert_rows result_id id result = do
  insert_result
      (record { id = result_id; job_id = id; directory = result.directory; result = result.result })
  insert_artifacts result_id result.artifacts

-- The transaction of `complete`.
unfoldable pub complete_in : Text → Text → Text → Text → Published → Instant → Action (Unit {0})
unfolding insert_rows
complete_in id token engine_run_id result_id result now = transaction (do
  leased_row id token none
  insert_rows result_id id result
  update_job id (complete_row engine_run_id result_id now))

-- Whether the result's record names the run and the artifacts that it is published with.
abbrev pub is_consistent : Text → Text → Published → Bool
is_consistent id result_id result =
    is_text result.result.id result_id
    && (is_text result.result.run_id id
        && is_texts result.result.artifact_ids (ids result.artifacts))

-- `complete`: engine run 0 is the empty text.
unfoldable pub complete : Env → Text → Text → Checked Text → Published → Instant → Action (Unit {0})
unfolding complete_in
complete env id token other result now = raise value_error
complete env id token (given engine_run_id) result now = do
  raise_if (engine_run_id == 0) value_error
  result_id ← returned (uuid_or_raise (env.parse_uuid result.id))
  raise_if (not (is_consistent id result_id result)) value_error
  complete_in id token engine_run_id result_id result now

-- `_failure`: a code that is no key of FAILURE_SUMMARIES and a flag that is no bool are refused.
abbrev pub failure_of : Checked FailureCode → Instant → Checked Bool → Result Failure
failure_of other now retryable = err value_error
failure_of (given code) now other = err value_error
failure_of (given code) now (given retryable) =
    ok (record { code = code; at = now; retryable = retryable })

abbrev pub fail_row : Failure → Instant → Row → Row
fail_row failure now r = record (finish failed now r) { failure = some failure }

unfoldable pub fail : Text → Text → Checked FailureCode → Checked Bool → Instant → Action (Unit {0})
fail id token code retryable now = transaction (do
  failure ← returned (failure_of code now retryable)
  leased_row id token (some now)
  update_job id (fail_row failure now))

unfoldable pub confirm_cancelled : Text → Text → Instant → Action (Unit {0})
confirm_cancelled id token now = transaction (do
  row ← leased_row id token (some now)
  raise_if (not (is_cancel_requested row.state)) lease_lost
  update_job id (finish cancelled now))

-- `lease_expires_at < now` in SQL, where a NULL is not less.
abbrev pub is_lapsed : Instant → Option Instant → Bool
is_lapsed now none = false
is_lapsed now (some expires) = ltb expires now

abbrev pub requeue : Row → Row
requeue r = record r {
  state = queued;
  phase = none;
  started_at = none;
  heartbeat_at = none;
  lease_token = none;
  lease_expires_at = none;
}

-- `self._failure("worker_lost", recovered_at, False)`
abbrev pub lost : Instant → Failure
lost now = record { code = worker_lost; at = now; retryable = false }

-- What the loop of `recover_expired_leases` writes for a selected row, and its outcome.
abbrev pub recovery : Row → Instant → Row → Row
recovery row now =
    if is_cancel_requested row.state
    then finish cancelled now
    else if ltb row.attempt max_attempts
    then requeue
    else fail_row (lost now) now

abbrev pub recovered_state : Row → State
recovered_state row =
    if is_cancel_requested row.state
    then cancelled
    else if ltb row.attempt max_attempts
    then queued
    else failed

-- The loop over the rows that were fetched before it, on the table of jobs.
unfoldable pub recover_each : List Row → Instant → List Row → List Row
recover_each [] now jobs = jobs
recover_each (row ∷ rows) now jobs =
    recover_each rows now (update (λ r. r.id == row.id) (recovery row now) jobs)

unfoldable pub is_expired : Instant → Row → Bool
is_expired now r = is_active r.state && is_lapsed now r.lease_expires_at

unfoldable pub recover_expired_leases : Instant → Action (List (Text × State))
recover_expired_leases now = transaction (do
  expired ← gets (λ d. select (is_expired now) d.jobs)
  write (λ d. record d { jobs = recover_each expired now d.jobs })
  pure (map (λ r. (r.id, recovered_state r)) expired))
