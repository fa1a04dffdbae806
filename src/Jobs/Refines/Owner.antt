-- ===== src/Jobs/Refines/Owner.antt =====
-- demo/jobs.py: the calls of an owner are moves, or add a queued run.
use stock_signal.Common.{
  ◌≡◌, refl, false, Option, none, some, List, [], ◌∷◌, ◌&&◌, ◌||◌, any, All, ◌==◌, Bool-cases, inl,
  inr, arith,
}
use stock_signal.Jobs.Data.{
  Text, Instant, State, queued, running, Row, Fields, Built, Database, Checked, given, other,
}
use stock_signal.Jobs.Monad.{value_error}
use stock_signal.Jobs.Owner.{
  Env, insert_unless, submit_or_repeat, cancel_in, cancel_run, insert_job, job_for_key, submit,
}
use stock_signal.Jobs.Moves.{Move, TableStep, HasUniqueIds, IsOther}
use stock_signal.Jobs.Lookups.{job_for_key-reads, IsOwned, owned_row-cases}
use stock_signal.Jobs.Refines.Rules.{
  owned-update, nothing, returned-TableStep, raise_if-TableStep, committed-TableStep,
  reading-TableStep, then_pure-TableStep,
}

pub cancel_in-TableStep :
    (env : Env) (owner id : Text) (now : Instant) (d : Database) (r : Row) (s : State)
    → HasUniqueIds d.jobs
    → IsOwned owner id d r
    → r.state ≡ s
    → TableStep now d (cancel_in s env owner r.id now d).1
cancel_in-TableStep env owner id now d r queued u o is =
    owned-update now owner id d r _ u o (Move.withdraw r env owner is)
cancel_in-TableStep env owner id now d r running u o is =
    owned-update now owner id d r _ u o (Move.ask_cancel r env owner is)
cancel_in-TableStep env owner id now d r _ u o is = nothing now d

pub cancel-TableStep :
    (env : Env) (owner id : Text) (now : Instant) (d : Database)
    → HasUniqueIds d.jobs
    → TableStep now d (cancel_run env owner id now d).1
unfolding cancel_run
cancel-TableStep env owner id now d u = elim (owned_row-cases env owner id d) [
  | inl (r, o, e) ↦ rw e (
      committed-TableStep now d (cancel_in r.state env owner r.id now d)
        (cancel_in-TableStep env owner id now d r r.state u o refl))
  | inr e ↦ rw e (nothing now d)
]

-- The rows that the two UNIQUE constraints of the table do not refuse.
pub any-IsOther :
    (id owner key : Text) (xs : List Row)
    → any (λ r. r.id == id || r.owner_id == owner && r.idempotency_key == key) xs ≡ false
    → All (IsOther id owner key) xs
any-IsOther id owner key [] h = tt
any-IsOther id owner key (x ∷ xs) h =
    ((λ e. ground arith, λ e k. ground arith), any-IsOther id owner key xs (ground arith))

pub insert_job-TableStep :
    (owner : Text) (fields : Fields) (built : Built) (now : Instant) (d : Database)
    → TableStep now d (insert_job owner fields built now d).1
unfolding insert_job
insert_job-TableStep owner fields built now d =
    elim (Bool-cases (
      any
        (λ r.
          r.id == built.run_id || r.owner_id == owner && r.idempotency_key == built.idempotency_key)
        d.jobs)) [
          | inl taken ↦ rw taken (nothing now d)
          | inr free ↦ rw free (
              TableStep.enqueue owner fields built
                (any-IsOther built.run_id owner built.idempotency_key d.jobs free) refl refl)
        ]

pub insert_unless-TableStep :
    (existing : Option Text) (owner : Text) (fields : Fields) (built : Built) (now : Instant)
    (d : Database)
    → TableStep now d (insert_unless existing owner fields built now d).1
insert_unless-TableStep (some id) owner fields built now d = nothing now d
insert_unless-TableStep none owner fields built now d =
    then_pure-TableStep (insert_job owner fields built now d) _ now d
      (insert_job-TableStep owner fields built now d)

pub submit_or_repeat-TableStep :
    (existing : Option Text) (env : Env) (owner : Text) (fields : Fields) (fingerprint drawn : Text)
    (now : Instant) (d : Database)
    → TableStep now d (submit_or_repeat existing env owner fields fingerprint drawn now d).1
submit_or_repeat-TableStep (some id) env owner fields fingerprint drawn now d = nothing now d
submit_or_repeat-TableStep none env owner fields fingerprint drawn now d =
    returned-TableStep (env.build_replay_request fields drawn) _ now d λ built.
      committed-TableStep now d _ (
        reading-TableStep (job_for_key owner fields.idempotency_key fingerprint d)
          (λ existing. insert_unless existing owner fields built now) now d
          (job_for_key-reads owner fields.idempotency_key fingerprint d)
          (λ existing. insert_unless-TableStep existing owner fields built now d))

pub submit-TableStep :
    (env : Env) (owner : Checked Text) (request drawn : Text) (now : Instant) (d : Database)
    → TableStep now d (submit env owner request drawn now d).1
unfolding submit
submit-TableStep env other request drawn now d = nothing now d
submit-TableStep env (given owner) request drawn now d =
    raise_if-TableStep (owner == 0) value_error _ now d (
      returned-TableStep (env.validated_request_fields request) _ now d λ fields.
        reading-TableStep
          (job_for_key owner fields.idempotency_key (env.request_fingerprint fields) d)
          (λ existing.
            submit_or_repeat existing env owner fields (env.request_fingerprint fields) drawn now)
          now d (job_for_key-reads owner fields.idempotency_key (env.request_fingerprint fields) d)
          (λ existing.
            submit_or_repeat-TableStep existing env owner fields (env.request_fingerprint fields)
              drawn now d))
