-- ===== src/Jobs/Rollback.antt =====
-- demo/jobs.py: a call that raises leaves the database as it was, also where it raises after
-- a statement has written.
use stock_signal.Common.{◌≡◌, refl, sym, subst, Bool, Option, none, some, if◌then◌else◌, ◌==◌, not}
use stock_signal.Jobs.Data.{Text, Instant, Checked, given, other, Database, Fields, Published}
use stock_signal.Jobs.Monad.{
  Error, Result, ok, err, Action, ◌>>=◌, and_then, pure, returned, close_transaction, value_error,
}
use stock_signal.Jobs.Owner.{Env, submit, submit_or_repeat, job_for_key, cancel_run, lease_duration}
use stock_signal.Jobs.Lease.{
  claim_next, heartbeat, checked_phase, complete, uuid_or_raise, is_consistent, fail,
  confirm_cancelled, recover_expired_leases,
}
use stock_signal.Jobs.Calls.{Call, attempt}
use stock_signal.Jobs.Lookups.{job_for_key-reads}

-- The outcome of a call that began at `d`: if it raised, nothing is written.
abbrev RollsBack : {A : Type 0} → Database → Result A × Database → Type 0
RollsBack d (ok a, d') = Unit
RollsBack d (err e, d') = d' ≡ d

transaction-RollsBack :
    {A : Type 0} (d : Database) (p : Result A × Database) → RollsBack d (close_transaction p d)
transaction-RollsBack d (ok a, d') = tt
transaction-RollsBack d (err e, d') = refl

returned-RollsBack :
    {A B : Type 0} (d : Database) (r : Result A) (f : A → Action B)
    → ((a : A) → RollsBack d (f a d))
    → RollsBack d ((returned r >>= f) d)
returned-RollsBack d (ok a) f h = h a
returned-RollsBack d (err e) f h = refl

reading-RollsBack :
    {A B : Type 0} (d : Database) (p : Result A × Database) (f : A → Action B)
    → p.1 ≡ d
    → ((a : A) → RollsBack d (f a d))
    → RollsBack d (and_then p f)
reading-RollsBack d (ok a, d') f e h = subst (λ (x : Database). RollsBack d (f a x)) (sym e) (h a)
reading-RollsBack d (err x, d') f e h = e

then_pure-RollsBack :
    {A B : Type 0} (d : Database) (p : Result A × Database) (b : B)
    → RollsBack d p
    → RollsBack d (and_then p (λ _. pure b))
then_pure-RollsBack d (ok a, d') b h = tt
then_pure-RollsBack d (err e, d') b h = h

-- What `raise_if` returns for a ValueError.
abbrev guard : Bool → Result (Unit {0})
guard c = if c then err value_error else ok tt

submit_or_repeat-RollsBack :
    (d : Database) (existing : Option Text) (env : Env) (owner : Text) (fields : Fields)
    (fingerprint drawn : Text) (now : Instant)
    → RollsBack d (submit_or_repeat existing env owner fields fingerprint drawn now d)
submit_or_repeat-RollsBack d (some id) env owner fields fingerprint drawn now = tt
submit_or_repeat-RollsBack d none env owner fields fingerprint drawn now =
    returned-RollsBack d (env.build_replay_request fields drawn) _
      λ built. transaction-RollsBack d _

submit-RollsBack :
    (d : Database) (env : Env) (owner : Checked Text) (request drawn : Text) (now : Instant)
    → RollsBack d (submit env owner request drawn now d)
unfolding submit
submit-RollsBack d env other request drawn now = refl
submit-RollsBack d env (given owner) request drawn now =
    returned-RollsBack d (guard (owner == 0)) _ λ _.
      returned-RollsBack d (env.validated_request_fields request) _ λ fields.
        reading-RollsBack d
          (job_for_key owner fields.idempotency_key (env.request_fingerprint fields) d)
          (λ existing.
            submit_or_repeat existing env owner fields (env.request_fingerprint fields) drawn now)
          (job_for_key-reads owner fields.idempotency_key (env.request_fingerprint fields) d)
          λ existing.
            submit_or_repeat-RollsBack d existing env owner fields (env.request_fingerprint fields)
              drawn now

complete-RollsBack :
    (d : Database) (env : Env) (id token : Text) (run : Checked Text) (result : Published)
    (now : Instant)
    → RollsBack d (complete env id token run result now d)
unfolding complete
complete-RollsBack d env id token other result now = refl
complete-RollsBack d env id token (given run) result now =
    returned-RollsBack d (guard (run == 0)) _ λ _.
      returned-RollsBack d (uuid_or_raise (env.parse_uuid result.id)) _ λ result_id.
        returned-RollsBack d (guard (not (is_consistent id result_id result))) _
          λ _. transaction-RollsBack d _

attempt-RollsBack :
    (env : Env) (now : Instant) (c : Call) (d : Database) → RollsBack d (attempt env now c d)
unfolding attempt cancel_run claim_next heartbeat fail confirm_cancelled recover_expired_leases
attempt-RollsBack env now (Call.submits owner request drawn) d =
    then_pure-RollsBack d _ tt (submit-RollsBack d env owner request drawn now)
attempt-RollsBack env now (Call.cancels owner id) d =
    then_pure-RollsBack d _ tt (transaction-RollsBack d _)
attempt-RollsBack env now (Call.claims lease token) d =
    then_pure-RollsBack d _ tt
      (returned-RollsBack d (lease_duration lease) _ λ s. transaction-RollsBack d _)
attempt-RollsBack env now (Call.beats id token lease phase) d = then_pure-RollsBack d _ tt (
    returned-RollsBack d (checked_phase phase) _
      λ p. returned-RollsBack d (lease_duration lease) _ λ s. transaction-RollsBack d _)
attempt-RollsBack env now (Call.completes id token run result) d =
    then_pure-RollsBack d _ tt (complete-RollsBack d env id token run result now)
attempt-RollsBack env now (Call.fails id token code retryable) d =
    then_pure-RollsBack d _ tt (transaction-RollsBack d _)
attempt-RollsBack env now (Call.confirms id token) d =
    then_pure-RollsBack d _ tt (transaction-RollsBack d _)
attempt-RollsBack env now Call.recovers d = tt

-- A call that raises leaves the database as it found it, whichever call it is and whichever
-- statement raises.
pub attempt_rolls_back :
    (env : Env) (now : Instant) (c : Call) (d : Database) {e : Error}
    → (attempt env now c d).0 ≡ err e
    → (attempt env now c d).1 ≡ d
attempt_rolls_back env now c d h = back (attempt env now c d) h (attempt-RollsBack env now c d)
  where
    back : {e : Error} (p : Result (Unit {0}) × Database) → p.0 ≡ err e → RollsBack d p → p.1 ≡ d
    back (ok a, d') h k = cc
    back (err x, d') h k = k
