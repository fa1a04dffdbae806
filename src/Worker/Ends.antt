-- ===== src/Worker/Ends.antt =====
-- demo/jobs.py: the state of a run after a report of its worker returns.
use stock_signal.Common.{
  ◌≡◌, refl, sym, ap, subst, ◌∙◌, Bool, not, Option, none, some, ◌==◌, ==_iff, find?, update,
}
use stock_signal.Jobs.Data.{
  Text, Instant, State, completed, failed, cancelled, Checked, Row, Published, Database,
  FailureCode, is_cancel_requested, Failure,
}
use stock_signal.Jobs.Monad.{Result, ok, ◌>>◌, raise_if, returned, lease_lost}
use stock_signal.Jobs.Owner.{Env, update_job}
use stock_signal.Jobs.Lease.{
  leased_row, fail, fail_row, failure_of, finish, confirm_cancelled, complete_row, complete,
}
use stock_signal.Jobs.Lookups.{IsLeased}
use stock_signal.Jobs.Moves.{HasUniqueIds}
use stock_signal.Jobs.Tables.{find?-id-update}
use stock_signal.Jobs.Returns.{both_returned, transaction_returned}
use stock_signal.Jobs.Completes.{
  complete-Completes, complete-IsLeased, leased_row-IsLeased, leased_row-keeps,
}

-- The run of this id is there, in this state.
pub record IsIn (id : Text) (s : State) (d : Database) : Type 0 where
  pub row : Row
  pub found : find? (λ y. y.id == id) d.jobs ≡ some row
  pub state : row.state ≡ s

-- The UPDATE of a run under a lease.
update-IsIn :
    (id token : Text) (now : Option Instant) (s : State) (f : Row → Row) (d : Database) (r : Row)
    → HasUniqueIds d.jobs
    → IsLeased id token now d r
    → (f r).id ≡ r.id
    → (f r).state ≡ s
    → IsIn id s (record d { jobs = update (λ y. y.id == id) f d.jobs })
update-IsIn id token now s f d r u l same is = record {
  row = f r;
  found =
      subst (λ i. find? (λ y. y.id == i) (update (λ y. y.id == id) f d.jobs) ≡ some (f r)) l.same_id
        (find?-id-update _ (λ y. y.id == id) f d.jobs r u l.found
          (λ y h. (==_iff y.id id).0 h ∙ sym l.same_id) ((==_iff r.id id).1 l.same_id) same);
  state = is;
}

pub fail-IsIn :
    (id token : Text) (code : Checked FailureCode) (retryable : Checked Bool) (now : Instant)
    (d d' : Database)
    → HasUniqueIds d.jobs
    → fail id token code retryable now d ≡ (ok tt, d')
    → IsIn id failed d'
unfolding fail
fail-IsIn id token code retryable now d d' u h =
    let last : Failure → Database → Result (Unit {0}) × Database =
      λ f. update_job id (fail_row f now) in
    let (f, e1, one, rest) =
      both_returned (returned (failure_of code now retryable) d)
        (λ f. leased_row id token (some now) >> last f) tt d' (transaction_returned _ d d' tt h) in
    let (r, e2, two, done) =
      both_returned (leased_row id token (some now) e1) (λ _. last f) tt d' rest in
    let same : e1 ≡ d = sym (ap (λ p. p.1) one) in
    let kept : e2 ≡ d = leased_row-keeps id token (some now) e1 e2 r two ∙ same in
    let (s, l) = leased_row-IsLeased id token (some now) d d r (
      subst (λ x. leased_row id token (some now) d ≡ (ok r, x)) kept
        (subst (λ x. leased_row id token (some now) x ≡ (ok r, e2)) same two)) in
    subst (IsIn id failed) (ap (λ x. (last f x).1) (sym kept) ∙ ap (λ p. p.1) done)
      (update-IsIn id token (some now) failed (fail_row f now) d s u l refl refl)

pub confirm_cancelled-IsIn :
    (id token : Text) (now : Instant) (d d' : Database)
    → HasUniqueIds d.jobs
    → confirm_cancelled id token now d ≡ (ok tt, d')
    → IsIn id cancelled d'
unfolding confirm_cancelled
confirm_cancelled-IsIn id token now d d' u h =
    let last : Database → Result (Unit {0}) × Database = update_job id (finish cancelled now) in
    let (r, e1, one, rest) =
      both_returned (leased_row id token (some now) d)
        (λ r. raise_if (not (is_cancel_requested r.state)) lease_lost >> last) tt d'
        (transaction_returned _ d d' tt h) in
    let (_, e2, two, done) =
      both_returned (raise_if (not (is_cancel_requested r.state)) lease_lost e1) (λ _. last) tt d'
        rest in
    let kept : e2 ≡ d = sym (ap (λ p. p.1) two) ∙ leased_row-keeps id token (some now) d e1 r one in
    let (s, l) = leased_row-IsLeased id token (some now) d e1 r one in
    subst (IsIn id cancelled) (ap (λ x. (last x).1) (sym kept) ∙ ap (λ p. p.1) done)
      (update-IsIn id token (some now) cancelled (finish cancelled now) d s u l refl refl)

pub complete-IsIn :
    (env : Env) (id token : Text) (run : Checked Text) (result : Published) (now : Instant)
    (d d' : Database)
    → HasUniqueIds d.jobs
    → complete env id token run result now d ≡ (ok tt, d')
    → IsIn id completed d'
complete-IsIn env id token run result now d d' u h =
    let (engine_run_id, result_id, _, c) = complete-Completes env id token run result now d d' h in
    let (s, l) = complete-IsLeased env id token run result now d d' h in
    let i =
      update-IsIn id token none completed (complete_row engine_run_id result_id now) d s u l refl
        refl in
    record { row = i.row; found = ap (find? (λ y. y.id == id)) c.jobs ∙ i.found; state = i.state }
