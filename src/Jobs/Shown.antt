-- ===== src/Jobs/Shown.antt =====
-- demo/jobs.py: `job_detail` after `complete`.
use stock_signal.Common.{
  ◌≡◌, refl, sym, ap, subst, ◌∙◌, Bool, true, ◌&&◌, Option, none, some, List, [], ◌∷◌, ◌==◌, find?,
  find?-test, find?-head, find?-tail, find?-cons, inl, inr, arith,
}
use stock_signal.Jobs.Data.{Text, Instant, completed, Checked, Row, Published, ResultRow, Database}
use stock_signal.Jobs.Monad.{Result, ok, err, Action, and_then, returned}
use stock_signal.Jobs.Owner.{Env, owned_row, cancel_run}
use stock_signal.Jobs.Lookups.{owned_row-cases}
use stock_signal.Jobs.Lease.{complete_row, complete}
use stock_signal.Jobs.Reads.{
  Detail, Status, request_cancel, job_detail, status_of, shown_artifacts, shown_result, result_row,
  cancellation_of,
}
use stock_signal.Jobs.Moves.{HasUniqueIds}
use stock_signal.Jobs.Tables.{find?-id-update}
use stock_signal.Jobs.Completes.{Completes, complete-Completes, of_test}

find?-and :
    (p q : Row → Bool) (xs : List Row) (r : Row)
    → find? p xs ≡ some r
    → q r ≡ true
    → find? (λ y. p y && q y) xs ≡ some r
find?-and p q [] r e h = cc
find?-and p q (x ∷ xs) r e h = elim (find?-cons p x xs r e) [
  | inl (hit, same) ↦
      find?-head (λ y. p y && q y) x xs (rw hit (subst (λ y. q y ≡ true) (sym same) h))
      ∙ ap some same
  | inr (miss, later) ↦
      find?-tail (λ y. p y && q y) x xs (rw miss refl) ∙ find?-and p q xs r later h
]

-- The run's row after it was completed, as its owner finds it.
owned_after :
    (env : Env) (id run result_id : Text) (result : Published) (now : Instant) (d d' : Database)
    (r : Row)
    → HasUniqueIds d.jobs
    → env.parse_uuid id ≡ some id
    → find? (λ y. y.id == id) d.jobs ≡ some r
    → Completes id run result_id result now d d'
    → owned_row env r.owner_id id d' ≡ (ok (complete_row run result_id now r), d')
unfolding owned_row
owned_after env id run result_id result now d d' r u canonical e c =
    let same : r.id ≡ id = of_test r.id id (find?-test (λ y. y.id == id) d.jobs r e) in
    let there : find? (λ y. y.id == r.id) d'.jobs ≡ some (complete_row run result_id now r) =
      ap (find? (λ y. y.id == r.id)) c.jobs
      ∙ find?-id-update (λ y. y.id == id) (λ y. y.id == id) (complete_row run result_id now) d.jobs
          r u e (λ y k. ground arith) (find?-test (λ y. y.id == id) d.jobs r e) refl in
    let found : find? (λ y. y.id == id && y.owner_id == r.owner_id) d'.jobs
        ≡ some (complete_row run result_id now r) =
      find?-and (λ y. y.id == id) (λ y. y.owner_id == r.owner_id) d'.jobs _
        (subst (λ i. find? (λ y. y.id == i) d'.jobs ≡ some (complete_row run result_id now r)) same
          there)
        (ground arith) in
    let k : (id == id) ≡ true = ground arith in rw canonical (rw k (rw found refl))

abbrev completed_status : Text → Text → Instant → Row → Status
completed_status run result_id now r = record {
  run_id = r.id;
  state = completed;
  created_at = r.created_at;
  started_at = r.started_at;
  ended_at = some now;
  phase = r.phase;
  heartbeat_at = r.heartbeat_at;
  attempt = r.attempt;
  engine_run_id = some run;
  result_id = some (some result_id);
  failure = none;
  cancellation = cancellation_of r.cancel_requested_at r.cancel_requester_id;
}

job_detail-completed :
    (env : Env) (precedes : Text → Text → Bool) (id run result_id : Text) (now : Instant)
    (d : Database) (r : Row)
    → let row = complete_row run result_id now r in
      owned_row env r.owner_id id d ≡ (ok row, d)
      → job_detail env precedes r.owner_id id d ≡ (
        ok (record {
          run = r.normalized_run;
          status = completed_status run result_id now r;
          result = shown_result (result_row row d);
          artifacts = shown_artifacts precedes (result_row row d) d.artifacts;
        }),
        d,
      )
unfolding job_detail status_of
job_detail-completed env precedes id run result_id now d r h = rw h refl

-- On a database whose run ids are unique, where `complete` returns, the run's owner then sees the
-- run as completed, with the record and the id of the published result.
pub complete-job_detail :
    (env : Env) (precedes : Text → Text → Bool) (id token : Text) (run : Checked Text)
    (result : Published) (now : Instant) (d d' : Database) (r : Row)
    → HasUniqueIds d.jobs
    → env.parse_uuid id ≡ some id
    → find? (λ y. y.id == id) d.jobs ≡ some r
    → complete env id token run result now d ≡ (ok tt, d')
    → (detail : Detail) × (job_detail env precedes r.owner_id id d' ≡ (ok detail, d'))
      × (detail.run ≡ r.normalized_run)
      × (detail.result ≡ some result.result)
      × (detail.status.state ≡ completed)
      × (detail.status.result_id ≡ some (env.parse_uuid result.id))
complete-job_detail env precedes id token run result now d d' r u canonical e h =
    let (engine_run_id, result_id, parsed, c) =
      complete-Completes env id token run result now d d' h in
    let row : Row = complete_row engine_run_id result_id now r in
    let found : Option ResultRow = result_row row d' in
    let same : r.id ≡ id = of_test r.id id (find?-test (λ y. y.id == id) d.jobs r e) in
    let shown : found
        ≡ some (record {
          id = result_id;
          job_id = id;
          directory = result.directory;
          result = result.result;
        }) =
      ap (λ i. find? (λ x. x.job_id == i) d'.results) same ∙ c.shown in
    (
      record {
        run = r.normalized_run;
        status = completed_status engine_run_id result_id now r;
        result = shown_result found;
        artifacts = shown_artifacts precedes found d'.artifacts;
      },
      job_detail-completed env precedes id engine_run_id result_id now d' r
          (owned_after env id engine_run_id result_id result now d d' r u canonical e c),
      refl,
      ap shown_result shown,
      refl,
      ap some (sym parsed),
    )

-- A read after a read.
reads-and_then :
    {A B : Type 0} (p : Result A × Database) (f : A → Action B) (d : Database)
    → p.1 ≡ d
    → ((a : A) → (f a d).1 ≡ d)
    → (and_then p f).1 ≡ d
reads-and_then (ok a, e) f d h k = subst (λ x. (f a x).1 ≡ d) (sym h) (k a)
reads-and_then (err x, e) f d h k = h

owned_row-reads : (env : Env) (owner id : Text) (d : Database) → (owned_row env owner id d).1 ≡ d
owned_row-reads env owner id d = elim (owned_row-cases env owner id d) [
  | inl (r, _, e) ↦ ap (λ p. p.1) e
  | inr e ↦ ap (λ p. p.1) e
]

job_detail-reads :
    (env : Env) (precedes : Text → Text → Bool) (owner id : Text) (d : Database)
    → (job_detail env precedes owner id d).1 ≡ d
unfolding job_detail
job_detail-reads env precedes owner id d =
    reads-and_then (owned_row env owner id d) _ d (owned_row-reads env owner id d)
      λ row. reads-and_then (returned (status_of row) d) _ d refl λ status. refl

-- What `request_cancel` writes is what its transaction writes.
request_cancel-cancel_run :
    (env : Env) (precedes : Text → Text → Bool) (owner id : Text) (now : Instant) (d : Database)
    → (request_cancel env precedes owner id now d).1 ≡ (cancel_run env owner id now d).1
unfolding request_cancel
request_cancel-cancel_run env precedes owner id now d =
    reads-and_then (cancel_run env owner id now d) (λ _. job_detail env precedes owner id)
      (cancel_run env owner id now d).1 refl
      (λ _. job_detail-reads env precedes owner id (cancel_run env owner id now d).1)
