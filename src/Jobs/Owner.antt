-- ===== src/Jobs/Owner.antt =====
-- demo/jobs.py: the methods of `JobStore` that an owner calls, statement by statement.
-- The clock, read inside the transaction, and a drawn UUID are arguments.
use stock_signal.Common.{
  ℕ, ◌+◌, Bool, true, false, not, ◌&&◌, ◌||◌, Option, none, some, [], ◌∷◌, ◌++◌, ◌==◌,
  if◌then◌else◌, find?, update, any,
}
use stock_signal.Common.Int.{pos, leb_ℤ, pos_part}
use stock_signal.Jobs.Data.{
  Text, Instant, State, queued, running, cancel_requested, cancelled, Checked, given, other, Number,
  boolean, not_a_number, not_finite, finite, Row, Fields, Built, is_text,
}
use stock_signal.Jobs.Monad.{
  not_found, value_error, idempotency_conflict, integrity_error, Result, ok, err, Action, ◌>>=◌,
  ◌>>◌, pure, raise, gets, or_raise, returned, transaction, raise_if, write,
}

-- What the queue uses of demo/replay_catalog.py and of Python's `uuid`.
pub record Env : Type 0 where
  -- `str(uuid.UUID(value))`, or none where it raises
  pub parse_uuid : Text → Option Text
  pub requester_id_for : Text → Text
  pub validated_request_fields : Text → Result Fields
  pub request_fingerprint : Fields → Text
  -- a run id is drawn, and the data set is read, on each call
  pub build_replay_request : Fields → Text → Result Built

-- `UPDATE demo_jobs SET f WHERE id=?`
abbrev pub update_job : Text → (Row → Row) → Action (Unit {0})
update_job id f = write (λ d. record d { jobs = update (λ r. r.id == id) f d.jobs })

-- `SELECT … FROM demo_jobs WHERE p`
abbrev pub select_job : (Row → Bool) → Action (Option Row)
select_job p = gets (λ d. find? p d.jobs)

-- A bool, a value that is no number, an infinite one and one that is not positive are refused.
unfoldable pub lease_duration : Number → Result ℕ
lease_duration boolean = err value_error
lease_duration not_a_number = err value_error
lease_duration not_finite = err value_error
lease_duration (finite v) = if leb_ℤ v (pos 0) then err value_error else ok (pos_part v)

-- `_job_for_key`
abbrev pub matched_key : Option Row → Text → Action (Option Text)
matched_key none fingerprint = pure none
matched_key (some r) fingerprint =
    if not (r.request_fingerprint == fingerprint)
    then raise idempotency_conflict
    else pure (some r.id)

unfoldable pub job_for_key : Text → Text → Text → Action (Option Text)
job_for_key owner key fingerprint = do
  existing ← select_job (λ r. r.owner_id == owner && r.idempotency_key == key)
  matched_key existing fingerprint

-- The INSERT of `submit`; `id` is UNIQUE, and so is the pair of owner and key.
abbrev pub queued_row : ℕ → Text → Fields → Built → Instant → Row
queued_row seq owner fields built now = record {
  seq = seq;
  id = built.run_id;
  owner_id = owner;
  idempotency_key = built.idempotency_key;
  request_fingerprint = built.request_fingerprint;
  request = fields.document;
  normalized_run = built.normalized_run;
  strategy_configuration = built.strategy_configuration;
  state = queued;
  phase = none;
  created_at = now;
  started_at = none;
  ended_at = none;
  heartbeat_at = none;
  attempt = 0;
  lease_token = none;
  lease_expires_at = none;
  engine_run_id = none;
  result_id = none;
  failure = none;
  cancel_requested_at = none;
  cancel_requester_id = none;
}

unfoldable pub insert_job : Text → Fields → Built → Instant → Action (Unit {0})
insert_job owner fields built now d =
    if any
      (λ r.
        r.id == built.run_id || r.owner_id == owner && r.idempotency_key == built.idempotency_key)
      d.jobs
    then (err integrity_error, d)
    else (
      ok tt,
      record d {
        jobs = d.jobs ++ queued_row d.next_seq owner fields built now ∷ [];
        next_seq = d.next_seq + 1;
      },
    )

-- The transaction of `submit`; the pair is the run's id and whether it is new.
abbrev pub insert_unless : Option Text → Text → Fields → Built → Instant → Action (Text × Bool)
insert_unless (some id) owner fields built now = pure (id, false)
insert_unless none owner fields built now = do
  insert_job owner fields built now
  pure (built.run_id, true)

abbrev pub submit_new : Env → Text → Fields → Text → Text → Instant → Action (Text × Bool)
submit_new env owner fields fingerprint drawn now = do
  built ← returned (env.build_replay_request fields drawn)
  transaction (do
    existing ← job_for_key owner fields.idempotency_key fingerprint
    insert_unless existing owner fields built now)

abbrev pub submit_or_repeat :
    Option Text → Env → Text → Fields → Text → Text → Instant → Action (Text × Bool)
submit_or_repeat (some id) env owner fields fingerprint drawn now = pure (id, false)
submit_or_repeat none env owner fields fingerprint drawn now =
    submit_new env owner fields fingerprint drawn now

-- `submit`: owner 0 is the empty name. A repeat returns its run without a look at the data set.
unfoldable pub submit : Env → Checked Text → Text → Text → Instant → Action (Text × Bool)
submit env other request drawn now = raise value_error
submit env (given owner) request drawn now = do
  raise_if (owner == 0) value_error
  fields ← returned (env.validated_request_fields request)
  let fingerprint = env.request_fingerprint fields
  existing ← job_for_key owner fields.idempotency_key fingerprint
  submit_or_repeat existing env owner fields fingerprint drawn now

-- `_owned_row`, with `_canonical_job_id`
unfoldable pub owned_row : Env → Text → Text → Action Row
owned_row env owner id = do
  raise_if (not (is_text (env.parse_uuid id) id)) not_found
  row ← select_job (λ r. r.id == id && r.owner_id == owner)
  or_raise row not_found

-- The two UPDATEs of `request_cancel`; in any other state nothing is written.
abbrev pub cancel_queued : Env → Text → Instant → Row → Row
cancel_queued env owner now r = record r {
  state = cancelled;
  ended_at = some now;
  cancel_requested_at = some now;
  cancel_requester_id = some (env.requester_id_for owner);
}

abbrev pub cancel_running : Env → Text → Instant → Row → Row
cancel_running env owner now r = record r {
  state = cancel_requested;
  cancel_requested_at = some now;
  cancel_requester_id = some (env.requester_id_for owner);
}

abbrev pub cancel_in : State → Env → Text → Text → Instant → Action (Unit {0})
cancel_in queued env owner id now = update_job id (cancel_queued env owner now)
cancel_in running env owner id now = update_job id (cancel_running env owner now)
cancel_in _ env owner id now = pure tt

-- The transaction of `request_cancel`
unfoldable pub cancel_run : Env → Text → Text → Instant → Action (Unit {0})
cancel_run env owner id now =
    transaction (do row ← owned_row env owner id; cancel_in row.state env owner row.id now)
