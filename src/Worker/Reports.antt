-- ===== src/Worker/Reports.antt =====
-- demo/worker.py: what the worker returns and what the database has then; the loop ends.
use stock_signal.Common.{
  ℕ, zero, suc, ◌≡◌, ◌≢◌, refl, ap, subst, ◌∙◌, Bool, true, false, Option, none, some, List, [],
  ◌∷◌, Bool-cases, inl, inr, arith,
}
use stock_signal.Common.Int.{ℤ, ◌+ℤ◌}
use stock_signal.Jobs.Data.{
  Text, Instant, State, completed, failed, cancelled, timeout, artifact_invalid, execution_failed,
  Claimed, Database, FailureCode, given, verifying, is_cancel_requested,
}
use stock_signal.Jobs.Monad.{Result, ok, err, Action, ◌>>=◌, ◌>>◌, and_then, pure}
use stock_signal.Jobs.Owner.{Env}
use stock_signal.Jobs.Calls.{Call, perform}
use stock_signal.Jobs.Refines.{perform-TableStep}
use stock_signal.Jobs.Lease.{
  claim_next, heartbeat, complete, fail, confirm_cancelled, recover_expired_leases,
}
use stock_signal.Jobs.Moves.{HasUniqueIds}
use stock_signal.Jobs.Invariant.{TableStep-HasUniqueIds}
use stock_signal.Jobs.Refines.Worker.{heartbeat-TableStep, claim-TableStep}
use stock_signal.Jobs.Recovery.{recover-TableStep}
use stock_signal.Jobs.Returns.{both_returned}
use stock_signal.Worker.Rules.{
  Worker, Tick, World, Verified, Interruption, by_timeout, by_cancel, exited, Outcome, is_failed,
  is_cancelled, is_completed, is_lost, unfinished, same_code, failure_code, lease_of, meanwhile,
  phase_given, beat, go_on, pass, watch, report_failure, report_cancelled, published, complete_with,
  publish_output, unless_cancelled, verify, after_loop, supervise, lost_or, run_claimed, run_once,
}
use stock_signal.Worker.Ends.{IsIn, fail-IsIn, confirm_cancelled-IsIn, complete-IsIn}

-- What the database has of a run when the worker returns this outcome.
abbrev pub Reported : Text → Outcome → Database → Type 0
Reported id is_failed d = IsIn id failed d
Reported id is_cancelled d = IsIn id cancelled d
Reported id is_completed d = IsIn id completed d
Reported id is_lost d = Unit
Reported id unfinished d = Unit

-- An action that keeps the ids of the runs apart.
abbrev KeepsIds : {A : Type 0} → Action A → Type 0
KeepsIds m = (d : Database) → HasUniqueIds d.jobs → HasUniqueIds (m d).1.jobs

and_then-keeps :
    {A B : Type 0} (p : Result A × Database) (f : A → Action B)
    → HasUniqueIds p.1.jobs
    → ((a : A) → KeepsIds (f a))
    → HasUniqueIds (and_then p f).1.jobs
and_then-keeps (ok a, e) f u k = k a e u
and_then-keeps (err x, e) f u k = u

go_on-keeps :
    (c : Bool) (rest : Action (Option Interruption)) → KeepsIds rest → KeepsIds (go_on c rest)
go_on-keeps true rest k d u = u
go_on-keeps false rest k d u = k d u

pass-keeps :
    (o : Option ℤ) (late : Bool) (b : Action State) (rest : Action (Option Interruption))
    → KeepsIds b
    → KeepsIds rest
    → KeepsIds (pass o late b rest)
pass-keeps (some code) late b rest h k d u = u
pass-keeps none true b rest h k d u = u
pass-keeps none false b rest h k d u =
    and_then-keeps (b d) (λ s. go_on (is_cancel_requested s) rest) (h d u)
      (λ s. go_on-keeps (is_cancel_requested s) rest k)

pub meanwhile-keeps : (env : Env) (cs : List (Instant × Call)) → KeepsIds (meanwhile env cs)
unfolding meanwhile
meanwhile-keeps env [] d u = u
meanwhile-keeps env ((now, c) ∷ cs) d u =
    meanwhile-keeps env cs (perform env now c d)
      (TableStep-HasUniqueIds now d _ (perform-TableStep env now c d u) u)

-- A report of the worker, or an exception.
abbrev ReportedBy : Text → Result Outcome × Database → Type 0
ReportedBy id (ok o, d) = Reported id o d
ReportedBy id (err e, d) = Unit

then-Reported :
    (id : Text) (o : Outcome) (p : Result (Unit {0}) × Database)
    → ((e : Database) → p ≡ (ok tt, e) → Reported id o e)
    → ReportedBy id (and_then p (λ _. pure o))
then-Reported id o (ok _, e) h = h e refl
then-Reported id o (err x, e) h = tt

and_then-Reported :
    {A : Type 0} (id : Text) (p : Result A × Database) (f : A → Action Outcome)
    → HasUniqueIds p.1.jobs
    → ((a : A) (e : Database) → HasUniqueIds e.jobs → ReportedBy id (f a e))
    → ReportedBy id (and_then p f)
and_then-Reported id (ok a, e) f u h = h a e u
and_then-Reported id (err x, e) f u h = tt

module _ (w : Worker) (env : Env) (world : World) (job : Claimed) where
  beat-keeps : (t : Tick) → KeepsIds (beat w env job t)
  beat-keeps t d u =
      and_then-keeps (meanwhile env t.others d)
        (λ _. heartbeat job.id job.lease_token (lease_of w) (phase_given t.phase) t.now)
        (meanwhile-keeps env t.others d u)
        (λ a e v.
          TableStep-HasUniqueIds t.now e _
            (heartbeat-TableStep job.id job.lease_token _ _ t.now e v) v)

  watch-keeps : (fuel i : ℕ) (deadline : ℤ) → KeepsIds (watch w env fuel i deadline world.tick job)
  unfolding watch
  watch-keeps zero i deadline d u = u
  watch-keeps (suc fuel) i deadline d u =
      pass-keeps _ _ _ _ (beat-keeps (world.tick i)) (watch-keeps fuel (suc i) deadline) d u

  failure-Reported :
      (code : FailureCode) (now : Instant) (d : Database)
      → HasUniqueIds d.jobs
      → ReportedBy job.id (report_failure code now job d)
  failure-Reported code now d u =
      then-Reported job.id is_failed (fail job.id job.lease_token (given code) (given false) now d)
        (λ e h. fail-IsIn job.id job.lease_token (given code) (given false) now d e u h)

  cancelled-Reported :
      (now : Instant) (d : Database)
      → HasUniqueIds d.jobs
      → ReportedBy job.id (report_cancelled now job d)
  cancelled-Reported now d u =
      then-Reported job.id is_cancelled (confirm_cancelled job.id job.lease_token now d)
        (λ e h. confirm_cancelled-IsIn job.id job.lease_token now d e u h)

  output-Reported :
      (o : Option Verified) (d : Database)
      → HasUniqueIds d.jobs
      → ReportedBy job.id (publish_output env world job o d)
  output-Reported none d u = failure-Reported artifact_invalid world.reported_at d u
  output-Reported (some v) d u = directory (world.publish v.id)
    where
      directory : (t : Option Text) → ReportedBy job.id (complete_with env world job v t d)
      directory none = failure-Reported execution_failed world.reported_at d u
      directory (some t) =
          then-Reported job.id is_completed
            (complete env job.id job.lease_token v.engine_run_id (published v t) world.reported_at
              d)
            (λ e h.
              complete-IsIn env job.id job.lease_token v.engine_run_id (published v t)
                world.reported_at d e u h)

  checked-Reported :
      (s : State) (d : Database)
      → HasUniqueIds d.jobs
      → ReportedBy job.id (unless_cancelled env world job s d)
  checked-Reported s d u = elim (Bool-cases (is_cancel_requested s)) [
    | inl asked ↦ rw asked (cancelled-Reported world.reported_at d u)
    | inr wanted ↦ rw wanted (output-Reported world.output d u)
  ]

  verify-Reported :
      (d : Database) → HasUniqueIds d.jobs → ReportedBy job.id (verify w env world job d)
  verify-Reported d u =
      and_then-Reported job.id
        (heartbeat job.id job.lease_token (lease_of w) (some (given verifying)) world.ended_at d)
        (λ s. meanwhile env world.before_report >> unless_cancelled env world job s)
        (TableStep-HasUniqueIds world.ended_at d _
          (heartbeat-TableStep job.id job.lease_token _ _ world.ended_at d u) u)
        (λ s e k.
          and_then-Reported job.id (meanwhile env world.before_report e)
            (λ _. unless_cancelled env world job s) (meanwhile-keeps env world.before_report e k)
            (λ a e' k'. checked-Reported s e' k'))

  after_loop-Reported :
      (o : Option Interruption) (d : Database)
      → HasUniqueIds d.jobs
      → ReportedBy job.id (after_loop w env world job o d)
  after_loop-Reported none d u = tt
  after_loop-Reported (some by_timeout) d u = failure-Reported timeout world.ended_at d u
  after_loop-Reported (some by_cancel) d u = cancelled-Reported world.ended_at d u
  after_loop-Reported (some (exited code)) d u = elim (Bool-cases (same_code code 0)) [
    | inl zero_code ↦ rw zero_code (verify-Reported d u)
    | inr other_code ↦ rw other_code (failure-Reported (failure_code code) world.ended_at d u)
  ]

  supervise-Reported :
      (fuel : ℕ) (d : Database)
      → HasUniqueIds d.jobs
      → ReportedBy job.id (supervise w env world fuel job d)
  unfolding supervise
  supervise-Reported fuel d u =
      and_then-Reported job.id
        (watch w env fuel 0 (world.started +ℤ w.timeout_seconds) world.tick job d)
        (λ o. meanwhile env world.before_end >> after_loop w env world job o)
        (watch-keeps fuel 0 _ d u)
        (λ o e k.
          and_then-Reported job.id (meanwhile env world.before_end e)
            (λ _. after_loop w env world job o) (meanwhile-keeps env world.before_end e k)
            (λ a e' k'. after_loop-Reported o e' k'))

-- What `run_once` returns of it.
abbrev ReturnedBy : Text → Result (Option Outcome) × Database → Type 0
ReturnedBy id (ok none, d) = Unit
ReturnedBy id (ok (some o), d) = Reported id o d
ReturnedBy id (err e, d) = Unit

lost_or-Reported :
    (id : Text) (r : Result Outcome) (d : Database)
    → ReportedBy id (r, d)
    → ReturnedBy id (lost_or r, d)
lost_or-Reported id (ok o) d h = h
lost_or-Reported id (err x) d h = ground arith

run_claimed-Reported :
    (w : Worker) (env : Env) (world : World) (fuel : ℕ) (job : Claimed) (d : Database)
    → HasUniqueIds d.jobs
    → ReturnedBy job.id (run_claimed w env world fuel (some job) d)
run_claimed-Reported w env world fuel job d u =
    let p = supervise w env world fuel job d in
    lost_or-Reported job.id p.0 p.1 (supervise-Reported w env world job fuel d u)

claimed_run :
    (w : Worker) (env : Env) (world : World) (fuel : ℕ) (c : Option Claimed) (d d' : Database)
    (o : Outcome)
    → HasUniqueIds d.jobs
    → run_claimed w env world fuel c d ≡ (ok (some o), d')
    → (job : Claimed) × (c ≡ some job) × Reported job.id o d'
claimed_run w env world fuel none d d' o u h = absurd (ok_none-≢ (ap (λ p. p.0) h))
  where
    ok_none-≢ : {x : Outcome} → ◌≢◌ {A = Result (Option Outcome)} (ok none) (ok (some x))
    ok_none-≢ e = cc
claimed_run w env world fuel (some job) d d' o u h =
    (job, refl, subst (ReturnedBy job.id) h (run_claimed-Reported w env world fuel job d u))

-- Where run ids are unique and `run_once` returns a text, whatever others call between the worker's
-- calls, the worker claimed a run after the recovery, and the database has that run as failed,
-- cancelled or completed when the text says so; the text for a lost lease says nothing of the run.
pub run_once-Reported :
    (w : Worker) (env : Env) (world : World) (fuel : ℕ) (d d' : Database) (o : Outcome)
    → HasUniqueIds d.jobs
    → run_once w env world fuel d ≡ (ok (some o), d')
    → (job : Claimed) × (e : Database) × (claim_next
          (lease_of w)
          world.token
          world.claimed_at
          (meanwhile env world.before_claim (recover_expired_leases world.recovered_at d).1).1
        ≡ (ok (some job), e))
      × Reported job.id o d'
unfolding run_once
run_once-Reported w env world fuel d d' o u h =
    let claim : Database → Result (Option Claimed) × Database =
      claim_next (lease_of w) world.token world.claimed_at in
    let others : Database → Result (Unit {0}) × Database = meanwhile env world.before_claim in
    let (_, e1, one, rest) =
      both_returned (recover_expired_leases world.recovered_at d)
        (λ _. others >> (claim >>= run_claimed w env world fuel)) (some o) d' h in
    let (_, e2, two, then_claim) =
      both_returned (others e1) (λ _. claim >>= run_claimed w env world fuel) (some o) d' rest in
    let (c, e3, three, last) =
      both_returned (claim e2) (run_claimed w env world fuel) (some o) d' then_claim in
    let recovered : (recover_expired_leases world.recovered_at d).1 ≡ e1 = ap (λ p. p.1) one in
    let u1 =
      subst (λ (x : Database). HasUniqueIds x.jobs) recovered
        (TableStep-HasUniqueIds world.recovered_at d _ (recover-TableStep world.recovered_at d u)
          u) in
    let u2 =
      subst (λ (x : Database). HasUniqueIds x.jobs) (ap (λ p. p.1) two)
        (meanwhile-keeps env world.before_claim e1 u1) in
    let u3 =
      subst (λ (x : Database). HasUniqueIds x.jobs) (ap (λ p. p.1) three)
        (TableStep-HasUniqueIds world.claimed_at e2 _
          (claim-TableStep (lease_of w) world.token world.claimed_at e2 u2) u2) in
    let (job, same, r) = claimed_run w env world fuel c e3 d' o u3 last in
    let reached : (others (recover_expired_leases world.recovered_at d).1).1 ≡ e2 =
      ap (λ x. (others x).1) recovered ∙ ap (λ p. p.1) two in
    (job, e3, ap claim reached ∙ three ∙ ap (λ x. (ok x, e3)) same, r)
