-- ===== src/Jobs/Refines/Worker.antt =====
-- demo/jobs.py: the calls of a worker are moves.
use stock_signal.Common.{
  ℕ, ◌≡◌, refl, Bool, Option, none, some, List, [], ◌∷◌, ◌&&◌, not, find?, find?-test, ◌==◌,
  Option-cases, inl, inr, arith,
}
use stock_signal.Jobs.Data.{
  Text, Instant, queued, Phase, is_queued, Database, FailureCode, ResultRow, Artifact, Published,
  Checked, given, other, Number,
}
use stock_signal.Jobs.Monad.{value_error}
use stock_signal.Jobs.Owner.{Env, lease_duration}
use stock_signal.Jobs.Lease.{
  beat_in, insert_rows, complete_in, complete, is_consistent, uuid_or_raise, claim_in,
  insert_result, insert_artifact, insert_artifacts, claim_next, heartbeat, checked_phase,
  confirm_cancelled, fail,
}
use stock_signal.Jobs.Moves.{Move, TableStep, HasUniqueIds, Evolves-update}
use stock_signal.Jobs.Lookups.{leased_id, leased_row-cases, state-cases, and_true, queued-cases}
use stock_signal.Jobs.Refines.Rules.{
  leased-update, leased-Evolves, HasQueueOf, nothing, returned-TableStep, raise_if-TableStep,
  update-TableStep, and_then-HasQueueOf,
}

pub fail-TableStep :
    (id token : Text) (code : Checked FailureCode) (retryable : Checked Bool) (now : Instant)
    (d : Database)
    → HasUniqueIds d.jobs
    → TableStep now d (fail id token code retryable now d).1
unfolding fail
fail-TableStep id token other retryable now d u = nothing now d
fail-TableStep id token (given code) other now d u = nothing now d
fail-TableStep id token (given code) (given retryable) now d u =
    elim (leased_row-cases id token (some now) d) [
      | inl (r, l, e) ↦
          rw e (leased-update now id token (some now) d r _ u l (Move.give_up r _ l.active))
      | inr (x, e) ↦ rw e (nothing now d)
    ]

pub confirm-TableStep :
    (id token : Text) (now : Instant) (d : Database)
    → HasUniqueIds d.jobs
    → TableStep now d (confirm_cancelled id token now d).1
unfolding confirm_cancelled
confirm-TableStep id token now d u = elim (leased_row-cases id token (some now) d) [
  | inl (r, l, e) ↦ elim (state-cases r.state) [
    | inl asked ↦
        rw (e, asked) (leased-update now id token (some now) d r _ u l (Move.confirm r asked))
    | inr not_asked ↦ rw (e, not_asked) (nothing now d)
  ]
  | inr (x, e) ↦ rw e (nothing now d)
]

pub beat_in-TableStep :
    (id token : Text) (phase : Option Phase) (seconds : ℕ) (now : Instant) (d : Database)
    → HasUniqueIds d.jobs
    → TableStep now d (beat_in id token phase seconds now d).1
unfolding beat_in
beat_in-TableStep id token phase seconds now d u = elim (leased_row-cases id token (some now) d) [
  | inl (r, l, e) ↦
      rw e (leased-update now id token (some now) d r _ u l (Move.beat r phase seconds l.active))
  | inr (x, e) ↦ rw e (nothing now d)
]

pub heartbeat-TableStep :
    (id token : Text) (lease : Number) (phase : Option (Checked Phase)) (now : Instant)
    (d : Database)
    → HasUniqueIds d.jobs
    → TableStep now d (heartbeat id token lease phase now d).1
unfolding heartbeat
heartbeat-TableStep id token lease phase now d u =
    returned-TableStep (checked_phase phase) _ now d λ p.
      returned-TableStep (lease_duration lease) _ now d
        λ s. unfold beat_in in beat_in-TableStep id token p s now d u

insert_result-HasQueueOf : (new : ResultRow) (d : Database) → HasQueueOf d (insert_result new d).1
unfolding insert_result
insert_result-HasQueueOf new d = (ground arith, ground arith)

insert_artifact-HasQueueOf :
    (id : Text) (a : Artifact) (d e : Database)
    → HasQueueOf d e
    → HasQueueOf d (insert_artifact id a e).1
unfolding insert_artifact
insert_artifact-HasQueueOf id a d e h = (ground arith, ground arith)

insert_artifacts-HasQueueOf :
    (id : Text) (xs : List Artifact) (d e : Database)
    → HasQueueOf d e
    → HasQueueOf d (insert_artifacts id xs e).1
unfolding insert_artifacts
insert_artifacts-HasQueueOf id [] d e h = h
insert_artifacts-HasQueueOf id (a ∷ xs) d e h =
    and_then-HasQueueOf (insert_artifact id a e) (λ _. insert_artifacts id xs) d
      (insert_artifact-HasQueueOf id a d e h) (λ _ e' k. insert_artifacts-HasQueueOf id xs d e' k)

-- The INSERTs of `complete` leave the runs alone.
pub insert_rows-HasQueueOf :
    (result_id id : Text) (result : Published) (d : Database)
    → HasQueueOf d (insert_rows result_id id result d).1
unfolding insert_rows
insert_rows-HasQueueOf result_id id result d =
    and_then-HasQueueOf (insert_result _ d) (λ _. insert_artifacts result_id result.artifacts) d
      (insert_result-HasQueueOf _ d)
      (λ _ e h. insert_artifacts-HasQueueOf result_id result.artifacts d e h)

pub complete_in-TableStep :
    (id token engine_run_id result_id : Text) (result : Published) (now : Instant) (d : Database)
    → HasUniqueIds d.jobs
    → TableStep now d (complete_in id token engine_run_id result_id result now d).1
unfolding complete_in
complete_in-TableStep id token engine_run_id result_id result now d u =
    elim (leased_row-cases id token none d) [
      | inl (r, l, e) ↦ rw e (
          update-TableStep id _ now d (insert_rows result_id id result d)
            (insert_rows-HasQueueOf result_id id result d)
            (leased-Evolves now id token none d r _ u l
              (Move.publish r engine_run_id result_id l.active)))
      | inr (x, e) ↦ rw e (nothing now d)
    ]

pub complete-TableStep :
    (env : Env) (id token : Text) (run : Checked Text) (result : Published) (now : Instant)
    (d : Database)
    → HasUniqueIds d.jobs
    → TableStep now d (complete env id token run result now d).1
unfolding complete
complete-TableStep env id token other result now d u = nothing now d
complete-TableStep env id token (given run) result now d u =
    raise_if-TableStep (run == 0) value_error _ now d (
      returned-TableStep (uuid_or_raise (env.parse_uuid result.id)) _ now d λ result_id.
        raise_if-TableStep (not (is_consistent id result_id result)) value_error _ now d
          (unfold complete_in in complete_in-TableStep id token run result_id result now d u))

pub claim_in-TableStep :
    (seconds : ℕ) (token : Text) (now : Instant) (d : Database)
    → HasUniqueIds d.jobs
    → TableStep now d (claim_in seconds token now d).1
unfolding claim_in
claim_in-TableStep seconds token now d u =
    elim (Option-cases (find? (λ r. is_queued r.state) d.jobs)) [
      | inl idle ↦ rw idle (nothing now d)
      | inr (r, e) ↦
          let is : r.state ≡ queued = queued-cases r.state (find?-test _ d.jobs r e) in
          rw e (
            TableStep.evolve
              (Evolves-update now _ (λ y. y.id == r.id && is_queued y.state) _ d.jobs r u e
                (λ y h. leased_id y.id r.id _ h)
                (and_true r.id (is_queued r.state) (find?-test _ d.jobs r e))
                (Move.claim r token seconds is))
              refl)
    ]

pub claim-TableStep :
    (lease : Number) (token : Text) (now : Instant) (d : Database)
    → HasUniqueIds d.jobs
    → TableStep now d (claim_next lease token now d).1
unfolding claim_next
claim-TableStep lease token now d u =
    returned-TableStep (lease_duration lease) _ now d
      λ s. unfold claim_in in claim_in-TableStep s token now d u
