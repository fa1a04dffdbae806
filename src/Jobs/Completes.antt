-- ===== src/Jobs/Completes.antt =====
-- demo/jobs.py: what a call of `complete` that returns has done.
use stock_signal.Common.{
  ℕ, ◌≡◌, refl, sym, ap, subst, ◌∙◌, true, false, not, ◌||◌, Option, none, some, List, [], ◌∷◌,
  ◌++◌, ◌==◌, find?, find?-head, find?-tail, update, any, inl, inr, arith,
}
use stock_signal.Jobs.Data.{
  Text, Instant, Checked, given, other, Row, Artifact, Published, ResultRow, Database,
}
use stock_signal.Jobs.Monad.{
  Result, ok, err, ◌>>=◌, ◌>>◌, and_then, raise_if, returned, value_error, integrity_error,
}
use stock_signal.Jobs.Owner.{Env, update_job}
use stock_signal.Jobs.Lease.{
  leased_row, insert_result, insert_artifact, insert_artifacts, insert_rows, complete_row,
  complete_in, complete, uuid_or_raise, is_consistent,
}
use stock_signal.Jobs.Lookups.{IsLeased, leased_row-cases}
use stock_signal.Jobs.Returns.{err-≢-ok, both_returned, transaction_returned, not_raised}

-- What a call of `complete` that returns has done.
pub record Completes (id run result_id : Text) (result : Published) (now : Instant)
    (d d' : Database) : Type 0 where
  pub jobs : d'.jobs ≡ update (λ y. y.id == id) (complete_row run result_id now) d.jobs
  pub shown :
      find? (λ x. x.job_id == id) d'.results
      ≡ some (record {
        id = result_id;
        job_id = id;
        directory = result.directory;
        result = result.result;
      })

fresh :
    (a j c : Text) (xs : List ResultRow) (new : ResultRow)
    → any (λ r. r.id == a || r.job_id == j || r.directory == c) xs ≡ false
    → new.job_id ≡ j
    → find? (λ x. x.job_id == j) (xs ++ new ∷ []) ≡ some new
fresh a j c [] new h e = find?-head (λ x. x.job_id == j) new [] (ground arith)
fresh a j c (x ∷ xs) new h e =
    find?-tail (λ x. x.job_id == j) x (xs ++ new ∷ []) (ground arith)
    ∙ fresh a j c xs new (ground arith) e

-- The INSERTs of artifacts write no other table.
abbrev KeepsRest : Database → Database → Type 0
KeepsRest d e = (e.jobs ≡ d.jobs) × (e.results ≡ d.results)

insert_artifact-KeepsRest :
    (id : Text) (a : Artifact) (d : Database) → KeepsRest d (insert_artifact id a d).1
unfolding insert_artifact
insert_artifact-KeepsRest id a d = (ground arith, ground arith)

then-KeepsRest :
    {A B : Type 0} (p : Result A × Database) (f : A → Database → Result B × Database) (d : Database)
    → KeepsRest d p.1
    → ((a : A) (e : Database) → KeepsRest e (f a e).1)
    → KeepsRest d (and_then p f).1
then-KeepsRest (ok a, e) f d h k = ((k a e).0 ∙ h.0, (k a e).1 ∙ h.1)
then-KeepsRest (err x, e) f d h k = h

insert_artifacts-KeepsRest :
    (id : Text) (xs : List Artifact) (d : Database) → KeepsRest d (insert_artifacts id xs d).1
unfolding insert_artifacts
insert_artifacts-KeepsRest id [] d = (refl, refl)
insert_artifacts-KeepsRest id (a ∷ xs) d =
    then-KeepsRest (insert_artifact id a d) (λ _. insert_artifacts id xs) d
      (insert_artifact-KeepsRest id a d) (λ _ e. insert_artifacts-KeepsRest id xs e)

inserted :
    (new : ResultRow) (d e : Database)
    → insert_result new d ≡ (ok tt, e)
    → (any (λ r. r.id == new.id || r.job_id == new.job_id || r.directory == new.directory) d.results
        ≡ false)
      × (e ≡ record d { results = d.results ++ new ∷ [] })
unfolding insert_result
inserted new d e h = not_raised _ integrity_error tt tt d _ e h

pub leased_row-IsLeased :
    (id token : Text) (now : Option Instant) (d e : Database) (r : Row)
    → leased_row id token now d ≡ (ok r, e)
    → (s : Row) × IsLeased id token now d s
leased_row-IsLeased id token now d e r h = elim (leased_row-cases id token now d) [
  | inl (s, l, _) ↦ (s, l)
  | inr (x, k) ↦ absurd (err-≢-ok (ap (λ p. p.0) (sym k ∙ h)))
]

pub leased_row-keeps :
    (id token : Text) (now : Option Instant) (d e : Database) (r : Row)
    → leased_row id token now d ≡ (ok r, e)
    → e ≡ d
leased_row-keeps id token now d e r h = elim (leased_row-cases id token now d) [
  | inl (s, _, k) ↦ ap (λ p. p.1) (sym h ∙ k)
  | inr (x, k) ↦ ap (λ p. p.1) (sym h ∙ k)
]

insert_rows-Completes :
    (id run result_id : Text) (result : Published) (now : Instant) (d e : Database)
    → insert_rows result_id id result d ≡ (ok tt, e)
    → Completes id run result_id result now d
        (record e { jobs = update (λ y. y.id == id) (complete_row run result_id now) e.jobs })
unfolding insert_rows
insert_rows-Completes id run result_id result now d e h =
    let new : ResultRow = record {
      id = result_id;
      job_id = id;
      directory = result.directory;
      result = result.result;
    } in
    let (_, e1, one, two) =
      both_returned (insert_result new d) (λ _. insert_artifacts result_id result.artifacts) tt e
        h in
    let (away, added) = inserted new d e1 one in
    let keeps = insert_artifacts-KeepsRest result_id result.artifacts e1 in
    let ended : (insert_artifacts result_id result.artifacts e1).1 ≡ e = ap (λ p. p.1) two in
    record {
      jobs =
          ap (λ (x : Database). update (λ y. y.id == id) (complete_row run result_id now) x.jobs)
            (sym ended)
          ∙ ap (update (λ y. y.id == id) (complete_row run result_id now))
              (keeps.0 ∙ ap (λ (x : Database). x.jobs) added);
      shown =
          ap (find? (λ x. x.job_id == id)) (
            ap (λ (x : Database). x.results) (sym ended)
            ∙ keeps.1
            ∙ ap (λ (x : Database). x.results) added)
          ∙ fresh result_id id result.directory d.results new away refl;
    }

complete_in-Completes :
    (id token run result_id : Text) (result : Published) (now : Instant) (d d' : Database)
    → complete_in id token run result_id result now d ≡ (ok tt, d')
    → Completes id run result_id result now d d'
unfolding complete_in
complete_in-Completes id token run result_id result now d d' h =
    let update_it : Database → Result (Unit {0}) × Database =
      update_job id (complete_row run result_id now) in
    let (r, e, leased, rest) =
      both_returned (leased_row id token none d) (λ _. insert_rows result_id id result >> update_it)
        tt d' (transaction_returned _ d d' tt h) in
    let same = leased_row-keeps id token none d e r leased in
    let (_, e2, rows, last) =
      both_returned (insert_rows result_id id result e) (λ _. update_it) tt d' rest in
    let done = insert_rows-Completes id run result_id result now e e2 rows in
    subst (λ x. Completes id run result_id result now x d') same
      (subst (Completes id run result_id result now e) (ap (λ p. p.1) last) done)

parsed_id : (o : Option Text) (id : Text) → uuid_or_raise o ≡ ok id → o ≡ some id
parsed_id none id h = cc
parsed_id (some i) id h = ground arith

pub of_test : (a b : ℕ) → (a == b) ≡ true → a ≡ b
of_test a b h = ground arith

complete_returned :
    (env : Env) (id token : Text) (run : Checked Text) (result : Published) (now : Instant)
    (d d' : Database)
    → complete env id token run result now d ≡ (ok tt, d')
    → (engine_run_id : Text) × (result_id : Text) × (env.parse_uuid result.id ≡ some result_id)
      × (complete_in id token engine_run_id result_id result now d ≡ (ok tt, d'))
unfolding complete
complete_returned env id token other result now d d' h = absurd (err-≢-ok (ap (λ r. r.0) h))
complete_returned env id token (given run) result now d d' h =
    let finish_in : Text → Database → Result (Unit {0}) × Database =
      λ result_id. complete_in id token run result_id result now in
    let checked : Text → Database → Result (Unit {0}) × Database = λ result_id.
      raise_if (not (is_consistent id result_id result)) value_error >> finish_in result_id in
    let (_, d1, one, parsed) =
      both_returned (raise_if (run == 0) value_error d)
        (λ _. returned (uuid_or_raise (env.parse_uuid result.id)) >>= checked) tt d' h in
    let (result_id, d2, two, consistent) =
      both_returned (returned (uuid_or_raise (env.parse_uuid result.id)) d1) checked tt d' parsed in
    let (_, d3, three, last) =
      both_returned (raise_if (not (is_consistent id result_id result)) value_error d2)
        (λ _. finish_in result_id) tt d' consistent in
    let same : d3 ≡ d =
      sym (ap (λ p. p.1) three) ∙ sym (ap (λ p. p.1) two) ∙ sym (ap (λ p. p.1) one) in
    (
      run,
      result_id,
      parsed_id (env.parse_uuid result.id) result_id (ap (λ p. p.0) two),
      subst (λ x. complete_in id token run result_id result now x ≡ (ok tt, d')) same last,
    )

pub complete-Completes :
    (env : Env) (id token : Text) (run : Checked Text) (result : Published) (now : Instant)
    (d d' : Database)
    → complete env id token run result now d ≡ (ok tt, d')
    → (engine_run_id : Text) × (result_id : Text) × (env.parse_uuid result.id ≡ some result_id)
      × Completes id engine_run_id result_id result now d d'
complete-Completes env id token run result now d d' h =
    let (engine_run_id, result_id, parsed, k) =
      complete_returned env id token run result now d d' h in
    (
      engine_run_id,
      result_id,
      parsed,
      complete_in-Completes id token engine_run_id result_id result now d d' k,
    )

complete_in-IsLeased :
    (id token run result_id : Text) (result : Published) (now : Instant) (d d' : Database)
    → complete_in id token run result_id result now d ≡ (ok tt, d')
    → (r : Row) × IsLeased id token none d r
unfolding complete_in
complete_in-IsLeased id token run result_id result now d d' h =
    let update_it : Database → Result (Unit {0}) × Database =
      update_job id (complete_row run result_id now) in
    let (r, e, leased, rest) =
      both_returned (leased_row id token none d) (λ _. insert_rows result_id id result >> update_it)
        tt d' (transaction_returned _ d d' tt h) in
    leased_row-IsLeased id token none d e r leased

-- A call of `complete` that returns held the lease.
pub complete-IsLeased :
    (env : Env) (id token : Text) (run : Checked Text) (result : Published) (now : Instant)
    (d d' : Database)
    → complete env id token run result now d ≡ (ok tt, d')
    → (r : Row) × IsLeased id token none d r
complete-IsLeased env id token run result now d d' h =
    let (engine_run_id, result_id, parsed, k) =
      complete_returned env id token run result now d d' h in
    complete_in-IsLeased id token engine_run_id result_id result now d d' k
