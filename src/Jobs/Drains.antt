-- ===== src/Jobs/Drains.antt =====
-- demo/jobs.py: the queue where each worker that claims a run stops before it reports anything.
use stock_signal.Common.{
  ℕ, ◌+◌, ◌-◌, ◌*◌, ◌≡◌, refl, sym, subst, ◌∙◌, Bool, true, ◌&&◌, Option, some, List, [], ◌∷◌,
  length, All, update, find?, All-map, lt→ltb, ap, find?-test, ◌==◌, Option-cases, inl, inr, arith,
}
use stock_signal.Jobs.Data.{Text, Instant, Row, Claimed, Database, Number, is_queued}
use stock_signal.Jobs.Monad.{Result, ok, err, and_then, pure}
use stock_signal.Jobs.Owner.{Env, lease_duration}
use stock_signal.Jobs.Lease.{
  claim_in, claim_next, recover_expired_leases, recovery, is_expired, start_attempt,
}
use stock_signal.Jobs.Calls.{Call, attempt, perform, history}
use stock_signal.Jobs.Invariant.{IsValid, perform-IsValid}
use stock_signal.Jobs.Leases.{claim_in-idle, claim_in-found, after_claim}
use stock_signal.Jobs.Valid.{is_ended}
use stock_signal.Jobs.Recovery.{recover-jobs}
use stock_signal.Jobs.Moves.{HasUniqueIds}
use stock_signal.Jobs.Lookups.{and_true}
use Prim.Native.Nat.{◌≤◌, ◌<◌}
use stock_signal.Jobs.ClaimsLeft.{
  claims_left, total_left, IsDue, IsIdle, claims_left-recovery, recovery-IsIdle,
  claims_left-start_attempt, is_expired-active, unexpired-IsIdle, total_left_bound,
  total_left-update, total_left-update-found, total_left_idle, All-update,
}

perform-recovers :
    (env : Env) (now : Instant) (d : Database)
    → HasUniqueIds d.jobs
    → (perform env now Call.recovers d).jobs
      ≡ update (is_expired now) (λ r. recovery r now r) d.jobs
unfolding perform attempt recover_expired_leases
perform-recovers env now d u = recover-jobs now d u

recovers-IsIdle :
    (env : Env) (now : Instant) (d : Database)
    → HasUniqueIds d.jobs
    → All (IsDue now) d.jobs
    → All IsIdle (perform env now Call.recovers d).jobs
recovers-IsIdle env now d u due = subst (All IsIdle) (sym (perform-recovers env now d u)) (
    All-update (IsDue now) IsIdle _ _ d.jobs (λ r k e. recovery-IsIdle r r now)
      (λ r k e. unexpired-IsIdle r now k e) due)

total_left-recovers :
    (env : Env) (now : Instant) (d : Database)
    → HasUniqueIds d.jobs
    → total_left (perform env now Call.recovers d).jobs ≤ total_left d.jobs
total_left-recovers env now d u =
    subst (λ xs. total_left xs ≤ total_left d.jobs) (sym (perform-recovers env now d u))
      (total_left-update _ _ d.jobs (λ r e. claims_left-recovery r now (is_expired-active now r e)))

claim_next-claim_in :
    (now : Instant) (number : Number) (seconds : ℕ) (token : Text) (d : Database)
    → lease_duration number ≡ ok seconds
    → claim_next number token now d ≡ claim_in seconds token now d
unfolding claim_next
claim_next-claim_in now number seconds token d h = rw h refl

-- What a call leaves does not depend on what becomes of its value.
discard :
    {A : Type 0} (p : Result A × Database) → (and_then p (λ a. pure {A = Unit {0}} tt)).1 ≡ p.1
discard (ok a, d) = refl
discard (err e, d) = refl

perform-claims :
    (env : Env) (now : Instant) (number : Number) (seconds : ℕ) (token : Text) (d : Database)
    → lease_duration number ≡ ok seconds
    → perform env now (Call.claims number token) d ≡ (claim_in seconds token now d).1
unfolding perform attempt
perform-claims env now number seconds token d h =
    discard (claim_next number token now d)
    ∙ ap (λ (p : Result (Option Claimed) × Database). p.1)
        (claim_next-claim_in now number seconds token d h)

-- After a claim each active run's lease is over when `seconds` have passed.
abbrev pub IsDueAfter : Instant → Database → Type 0
IsDueAfter t d = (now : Instant) → t < now → All (IsDue now) d.jobs

IsIdle-IsDue : (now : Instant) (xs : List Row) → All IsIdle xs → All (IsDue now) xs
IsIdle-IsDue now xs h = All-map IsIdle (IsDue now) xs (λ r k e. cc) h

started-IsDue :
    (token : Text) (seconds : ℕ) (at now : Instant) (r : Row)
    → at + seconds < now
    → IsDue now (start_attempt token seconds at r)
started-IsDue token seconds at now r h e = lt→ltb (at + seconds) now h

-- What a claim of the found row does to a table without active runs.
module _ (now : Instant) (seconds : ℕ) (token : Text) (d : Database) (r : Row)
    (idle : All IsIdle d.jobs) (found : find? (λ y. is_queued y.state) d.jobs ≡ some r) where
  takes : Row → Bool
  takes y = y.id == r.id && is_queued y.state

  takes-queued : (y : Row) → takes y ≡ true → is_queued y.state ≡ true
  unfolding takes
  takes-queued y h = ground arith

  after_claim-total_left : total_left (after_claim seconds token now d r).jobs < total_left d.jobs
  unfolding takes
  after_claim-total_left =
      total_left-update-found (λ y. is_queued y.state) takes (start_attempt token seconds now)
        d.jobs r (λ y k. claims_left-start_attempt token seconds now y (takes-queued y k)) found
        (and_true r.id (is_queued r.state) (find?-test _ d.jobs r found))

  after_claim-IsDue : IsDueAfter (now + seconds) (after_claim seconds token now d r)
  unfolding takes
  after_claim-IsDue later h =
      All-update IsIdle (IsDue later) takes (start_attempt token seconds now) d.jobs
        (λ y k q. started-IsDue token seconds now later y h) (λ y k q p. cc) idle

-- A claim from a table without active runs uses up one of the claims that are left.
claim_in-total_left :
    (now : Instant) (seconds : ℕ) (token : Text) (d : Database)
    → All IsIdle d.jobs
    → (total_left (claim_in seconds token now d).1.jobs ≤ total_left d.jobs - 1)
      × IsDueAfter (now + seconds) (claim_in seconds token now d).1
claim_in-total_left now seconds token d idle =
    elim (Option-cases (find? (λ r. is_queued r.state) d.jobs)) [
      | inl e ↦
          rw (claim_in-idle seconds token now d e) (
            omega (arith, total_left_idle d.jobs idle e),
            λ later h. IsIdle-IsDue later d.jobs idle,
          )
      | inr (r, e) ↦ rw (claim_in-found seconds token now d r e) (
        omega (arith, after_claim-total_left now seconds token d r idle e),
        after_claim-IsDue now seconds token d r idle e,
      )
    ]

-- A round: after `wait` the recovery, and after `pause` a claim whose worker then stops.
pub record Round : Type 0 where
  pub wait : ℕ
  pub pause : ℕ
  pub token : Text

abbrev pub abandoned : Number → List Round → List (ℕ × Call)
abandoned number [] = []
abandoned number (x ∷ rounds) =
    (x.wait, Call.recovers) ∷ (x.pause, Call.claims number x.token) ∷ abandoned number rounds

-- Where a round starts, with the leases no longer than `seconds`.
record IsReady (seconds : ℕ) (t : Instant) (d : Database) : Type 0 where
  valid : IsValid t d
  due : IsDueAfter (t + seconds) d

round-IsReady :
    (env : Env) (t : Instant) (number : Number) (seconds : ℕ) (x : Round) (d : Database)
    → lease_duration number ≡ ok seconds
    → seconds < x.wait
    → IsReady seconds t d
    → let e = perform env (t + x.wait) Call.recovers d in
      let last = t + x.wait + x.pause in
      let d' = perform env last (Call.claims number x.token) e in
      IsReady seconds last d' × (total_left d'.jobs ≤ total_left d.jobs - 1)
round-IsReady env t number seconds x d h late ready =
    let now = t + x.wait in
    let e = perform env now Call.recovers d in
    let last = now + x.pause in
    let idle = recovers-IsIdle env now d ready.valid.ids (ready.due now (omega arith)) in
    let same = perform-claims env last number seconds x.token e h in
    let claim = claim_in-total_left last seconds x.token e idle in
    let fewer =
      subst (λ (y : Database). total_left y.jobs ≤ total_left e.jobs - 1) (sym same) claim.0 in
    let less = total_left-recovers env now d ready.valid.ids in
    let v = perform-IsValid env t now Call.recovers d (omega arith) ready.valid in
    (
      record {
        valid = perform-IsValid env now last (Call.claims number x.token) e (omega arith) v;
        due = subst (IsDueAfter (last + seconds)) (sym same) claim.1;
      },
      omega arith,
    )

history-IsReady :
    (env : Env) (t : Instant) (number : Number) (seconds : ℕ) (rounds : List Round) (d : Database)
    → lease_duration number ≡ ok seconds
    → All (λ x. seconds < x.wait) rounds
    → IsReady seconds t d
    → let (last, d') = history env t (abandoned number rounds) d in
      IsReady seconds last d' × (total_left d'.jobs ≤ total_left d.jobs - length rounds)
unfolding history
history-IsReady env t number seconds [] d h late ready = (ready, omega arith)
history-IsReady env t number seconds (x ∷ rounds) d h late ready =
    let (next, fewer) = round-IsReady env t number seconds x d h late.0 ready in
    let (end, less) =
      history-IsReady env (t + x.wait + x.pause) number seconds rounds
        (perform env (t + x.wait + x.pause) (Call.claims number x.token)
          (perform env (t + x.wait) Call.recovers d))
        h late.1 next in
    (end, omega arith)

claims_left_none : (r : Row) → IsIdle r → claims_left r ≡ 0 → is_ended r.state ≡ true
claims_left_none r h k = ground arith

total_left_none :
    (xs : List Row) → All IsIdle xs → total_left xs ≡ 0 → All (λ r. is_ended r.state ≡ true) xs
unfolding total_left
total_left_none [] h k = tt
total_left_none (x ∷ xs) h k =
    (claims_left_none x h.0 (omega arith), total_left_none xs h.1 (omega arith))

-- Let the invariant hold, and let each active run have a lease that ends within `seconds`, the
-- length of the leases that are given. After rounds of a recovery and a claim, at least two for
-- each run, and a last recovery, where nothing else is called and each recovery comes more than
-- `seconds` after the call before it, every run has ended.
pub abandoned_runs_end :
    (env : Env) (t : Instant) (number : Number) (seconds wait : ℕ) (rounds : List Round)
    (d : Database)
    → IsValid t d
    → IsDueAfter (t + seconds) d
    → lease_duration number ≡ ok seconds
    → All (λ x. seconds < x.wait) rounds
    → seconds < wait
    → 2 * length d.jobs ≤ length rounds
    → let (last, d') = history env t (abandoned number rounds) d in
      All (λ r. is_ended r.state ≡ true) (perform env (last + wait) Call.recovers d').jobs
abandoned_runs_end env t number seconds wait rounds d v due h late later enough =
    let last = (history env t (abandoned number rounds) d).0 in
    let d' = (history env t (abandoned number rounds) d).1 in
    let (ready, fewer) =
      history-IsReady env t number seconds rounds d h late (record { valid = v; due = due }) in
    let less = total_left-recovers env (last + wait) d' ready.valid.ids in
    total_left_none _
      (recovers-IsIdle env (last + wait) d' ready.valid.ids (ready.due (last + wait) (omega arith)))
      (omega (arith, less, fewer, enough, total_left_bound d.jobs))
