-- ===== src/Jobs/Leases.antt =====
-- demo/jobs.py: what a lease gives its holder, and what it refuses everybody else.
use stock_signal.Common.{
  ℕ, ◌≡◌, refl, sym, ap, subst, ◌∙◌, ◌≢◌, Bool, true, false, ◌&&◌, Option, none, some, List, [],
  ◌∷◌, All, update, find?, find?-test, ◌==◌, Bool-cases, Option-cases, inl, inr, arith,
}
use stock_signal.Jobs.Data.{
  Text, Instant, queued, Phase, FailureCode, Published, Row, Claimed, Database, is_queued, is_text,
  given,
}
use stock_signal.Jobs.Monad.{Result, ok, err, lease_lost}
use stock_signal.Jobs.Lease.{
  leased_row, beat_in, complete_in, fail, confirm_cancelled, claim_in, is_expired, recovery,
  recover_expired_leases, start_attempt, claimed,
}
use stock_signal.Jobs.Invariant.{IsValid}
use stock_signal.Jobs.Recovery.{recover-jobs}
use stock_signal.Jobs.Lookups.{leased_id, and_true, queued-cases}
use stock_signal.Jobs.Tables.{find?-id, find?-id-update, first_queued_lowest}
use Prim.Native.Nat.{◌≤◌}

-- In the table no row of this id has this token.
abbrev pub IsStale : Text → Text → Database → Type 0
IsStale id token d = All (λ r. r.id ≡ id → r.lease_token ≢ some token) d.jobs

is_text-some : (o : Option Text) (t : Text) → is_text o t ≡ true → o ≡ some t
is_text-some o t h = ground arith

find?-stale :
    (id token : Text) (xs : List Row)
    → All (λ r. r.id ≡ id → r.lease_token ≢ some token) xs
    → find? (λ y. y.id == id && is_text y.lease_token token) xs ≡ none
find?-stale id token [] h = refl
find?-stale id token (x ∷ xs) h = elim (Bool-cases (x.id == id && is_text x.lease_token token)) [
  | inl hit ↦ absurd (h.0 (ground arith) (ground arith))
  | inr miss ↦ rw miss (find?-stale id token xs h.1)
]

leased_row-stale :
    (id token : Text) (now : Option Instant) (d : Database)
    → IsStale id token d
    → leased_row id token now d ≡ (err lease_lost, d)
unfolding leased_row
leased_row-stale id token now d h = rw (find?-stale id token d.jobs h)

-- Where no row of the id has the token, because the lease was never given, has ended or has gone to
-- another attempt, each method of a worker whose other arguments pass their checks raises
-- LeaseLost and writes nothing.
pub stale_token_refused :
    (id token : Text) (now : Instant) (d : Database) (phase : Option Phase) (seconds : ℕ)
    (engine_run_id result_id : Text) (result : Published) (code : FailureCode) (retryable : Bool)
    → IsStale id token d
    → (beat_in id token phase seconds now d ≡ (err lease_lost, d))
      × (complete_in id token engine_run_id result_id result now d ≡ (err lease_lost, d))
      × (fail id token (given code) (given retryable) now d ≡ (err lease_lost, d))
      × (confirm_cancelled id token now d ≡ (err lease_lost, d))
unfolding beat_in complete_in fail confirm_cancelled
stale_token_refused id token now d phase seconds engine_run_id result_id result code retryable h = (
  rw (leased_row-stale id token (some now) d h),
  rw (leased_row-stale id token none d h),
  rw (leased_row-stale id token (some now) d h),
  rw (leased_row-stale id token (some now) d h),
)

recovery-calm : (r x : Row) (now : Instant) → is_expired now (recovery r now x) ≡ false
unfolding is_expired
recovery-calm r x now = ground arith

-- Recovery of a database where the invariant holds leaves no active run whose lease has expired.
pub recover_leaves_none_expired :
    (t now : Instant) (d : Database)
    → IsValid t d
    → All (λ r. is_expired now r ≡ false) (recover_expired_leases now d).1.jobs
recover_leaves_none_expired t now d v =
    subst (All (λ r. is_expired now r ≡ false)) (sym (recover-jobs now d v.ids)) (swept d.jobs)
  where
    swept :
        (xs : List Row)
        → All (λ r. is_expired now r ≡ false) (update (is_expired now) (λ r. recovery r now r) xs)
    swept [] = tt
    swept (x ∷ xs) = elim (Bool-cases (is_expired now x)) [
      | inl hit ↦ rw hit (recovery-calm x x now, swept xs)
      | inr miss ↦ rw miss (miss, swept xs)
    ]

ok_none≢ok_some : (c : Claimed) → ◌≡◌ {A = Result (Option Claimed)} (ok none) (ok (some c)) → ⊥
ok_none≢ok_some c h = ground arith

-- The table after a claim of this row.
abbrev pub after_claim : ℕ → Text → Instant → Database → Row → Database
after_claim seconds token now d r = record d {
  jobs = update (λ y. y.id == r.id && is_queued y.state) (start_attempt token seconds now) d.jobs;
}

pub claim_in-idle :
    (seconds : ℕ) (token : Text) (now : Instant) (d : Database)
    → find? (λ r. is_queued r.state) d.jobs ≡ none
    → claim_in seconds token now d ≡ (ok none, d)
unfolding claim_in
claim_in-idle seconds token now d h = rw h

pub claim_in-found :
    (seconds : ℕ) (token : Text) (now : Instant) (d : Database) (r : Row)
    → find? (λ y. is_queued y.state) d.jobs ≡ some r
    → claim_in seconds token now d
      ≡ (ok (some (claimed token r)), after_claim seconds token now d r)
unfolding claim_in
claim_in-found seconds token now d r h = rw h

-- The claimed job of an outcome, or another where there is none.
abbrev job_or : Claimed → Result (Option Claimed) × Database → Claimed
job_or z (ok (some c), d) = c
job_or z _ = z

-- Where the invariant holds, a claim that returns a run has taken the queued run with the lowest
-- number: the row is leased to the drawn token from then on, and its attempt is counted.
pub claim_takes_oldest :
    (t now : Instant) (seconds : ℕ) (token : Text) (c : Claimed) (d e : Database)
    → IsValid t d
    → claim_in seconds token now d ≡ (ok (some c), e)
    → (r : Row) × (find? (λ y. y.id == c.id) d.jobs ≡ some r)
      × (r.state ≡ queued)
      × All (λ y. y.state ≡ queued → r.seq ≤ y.seq) d.jobs
      × (find? (λ y. y.id == c.id) e.jobs ≡ some (start_attempt token seconds now r))
claim_takes_oldest t now seconds token c d e v h =
    elim (Option-cases (find? (λ r. is_queued r.state) d.jobs)) [
      | inl idle ↦
          let q : ◌≡◌ {A = Result (Option Claimed) × Database} (ok none, d) (ok (some c), e) =
            sym (claim_in-idle seconds token now d idle) ∙ h in
          absurd (ok_none≢ok_some c (ap (λ (p : Result (Option Claimed) × Database). p.0) q))
      | inr (r, f) ↦
          let q : (ok (some (claimed token r)), after_claim seconds token now d r)
              ≡ (ok (some c), e) =
            sym (claim_in-found seconds token now d r f) ∙ h in
          let after : after_claim seconds token now d r ≡ e =
            ap (λ (p : Result (Option Claimed) × Database). p.1) q in
          let same : r.id ≡ c.id = ap (λ p. (job_or c p).id) q in
          let is : is_queued r.state ≡ true = find?-test _ d.jobs r f in
          (
            r,
            subst (λ i. find? (λ y. y.id == i) d.jobs ≡ some r) same
                (find?-id (λ y. is_queued y.state) d.jobs r v.ids f),
            queued-cases r.state is,
            first_queued_lowest 1 d.next_seq d.jobs r v.numbers f,
            subst (λ i. find? (λ y. y.id == i) e.jobs ≡ some (start_attempt token seconds now r))
                same
                (subst
                  (λ (x : Database).
                    find? (λ y. y.id == r.id) x.jobs ≡ some (start_attempt token seconds now r))
                  after
                  (find?-id-update (λ y. is_queued y.state) _ (start_attempt token seconds now)
                    d.jobs r v.ids f (λ y k. leased_id y.id r.id (is_queued y.state) k)
                    (and_true r.id (is_queued r.state) is) refl)),
          )
    ]
