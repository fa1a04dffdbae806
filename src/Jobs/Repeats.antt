-- ===== src/Jobs/Repeats.antt =====
-- demo/jobs.py: `submit` under an idempotency key that was used before.
use stock_signal.Common.{
  ℕ, ◌+◌, ◌≡◌, refl, sym, ap, subst, ◌∙◌, ◌≢◌, Bool, true, false, ◌&&◌, ◌||◌, none, some, List, [],
  ◌∷◌, ◌++◌, find?, find?-cons, find?-head, find?-tail, find?-append, any, ◌==◌, Bool-cases,
  Option-cases, inl, inr, arith,
}
use native.Mathlib.Decide.{ℕ_discrete}
use stock_signal.Jobs.Data.{Text, Instant, Row, Database, Fields, Built, given}
use stock_signal.Jobs.Monad.{Result, ok, err, and_then, idempotency_conflict, close_transaction}
use stock_signal.Jobs.Owner.{
  Env, submit, submit_or_repeat, submit_new, insert_unless, insert_job, job_for_key, queued_row,
}
use stock_signal.Jobs.Calls.{Call, perform, history}
use stock_signal.Jobs.Moves.{Evolves, done, stay, move, TableStep, evolve, enqueue}
use stock_signal.Jobs.Refines.{perform-TableStep}
use stock_signal.Jobs.Invariant.{IsValid, perform-IsValid, IsSameRun, Move-IsSameRun}

-- The facts about `build_replay_request` of demo/replay_catalog.py that `submit` relies on.
pub record IsFaithful (env : Env) : Type 0 where
  pub same_key :
      (fields : Fields) (drawn : Text) (built : Built)
      → env.build_replay_request fields drawn ≡ ok built
      → built.idempotency_key ≡ fields.idempotency_key
  pub same_fingerprint :
      (fields : Fields) (drawn : Text) (built : Built)
      → env.build_replay_request fields drawn ≡ ok built
      → built.request_fingerprint ≡ env.request_fingerprint fields

-- The query of `_job_for_key`.
abbrev has_key : Text → Text → Row → Bool
has_key owner key r = r.owner_id == owner && r.idempotency_key == key

-- The table knows the key: its run is `id`, and it was asked for with this fingerprint.
abbrev IsKnown : Text → Text → Text → Text → List Row → Type 0
IsKnown owner key fingerprint id xs =
    (r : Row) × (find? (has_key owner key) xs ≡ some r)
    × (r.request_fingerprint ≡ fingerprint)
    × (r.id ≡ id)

has_key-same :
    (owner key : Text) (r s : Row) → IsSameRun r s → has_key owner key s ≡ has_key owner key r
has_key-same owner key r s h = rw (h.owner_id, h.idempotency_key)

Evolves-IsKnown :
    (owner key fingerprint id : Text) {now : Instant} {xs ys : List Row}
    → Evolves now xs ys
    → IsKnown owner key fingerprint id xs
    → IsKnown owner key fingerprint id ys
Evolves-IsKnown owner key fingerprint id done (r, f, p, q) = cc
Evolves-IsKnown owner key fingerprint id (stay {xs} {ys} x e) (r, f, p, q) =
    elim (find?-cons (has_key owner key) x xs r f) [
      | inl (hit, here) ↦ (
        x,
        find?-head (has_key owner key) x ys hit,
        ap (λ (y : Row). y.request_fingerprint) here ∙ p,
        ap (λ (y : Row). y.id) here ∙ q,
      )
      | inr (miss, later) ↦
          let (s, g, p', q') = Evolves-IsKnown owner key fingerprint id e (r, later, p, q) in
          (s, find?-tail (has_key owner key) x ys miss ∙ g, p', q')
    ]
Evolves-IsKnown owner key fingerprint id (move {xs} {ys} {x} {y} m e) (r, f, p, q) =
    let same : IsSameRun x y = Move-IsSameRun m in
    elim (find?-cons (has_key owner key) x xs r f) [
      | inl (hit, here) ↦ (
        y,
        find?-head (has_key owner key) y ys (has_key-same owner key x y same ∙ hit),
        same.request_fingerprint ∙ ap (λ (z : Row). z.request_fingerprint) here ∙ p,
        same.id ∙ ap (λ (z : Row). z.id) here ∙ q,
      )
      | inr (miss, later) ↦
          let (s, g, p', q') = Evolves-IsKnown owner key fingerprint id e (r, later, p, q) in
          (
            s,
            find?-tail (has_key owner key) y ys (has_key-same owner key x y same ∙ miss) ∙ g,
            p',
            q',
          )
    ]

TableStep-IsKnown :
    (owner key fingerprint id : Text) {now : Instant} (d d' : Database)
    → TableStep now d d'
    → IsKnown owner key fingerprint id d.jobs
    → IsKnown owner key fingerprint id d'.jobs
TableStep-IsKnown owner key fingerprint id d d' (evolve e n) h =
    Evolves-IsKnown owner key fingerprint id e h
TableStep-IsKnown owner key fingerprint id d d' (enqueue o fields built fresh e n) (r, f, p, q) =
    (r, ap (find? (has_key owner key)) e ∙ find?-append _ d.jobs _ r f, p, q)

history-IsKnown :
    (owner key fingerprint id : Text) (env : Env) (t : Instant) (cs : List (ℕ × Call))
    (d : Database)
    → IsValid t d
    → IsKnown owner key fingerprint id d.jobs
    → IsKnown owner key fingerprint id (history env t cs d).1.jobs
unfolding history
history-IsKnown owner key fingerprint id env t [] d v h = h
history-IsKnown owner key fingerprint id env t ((elapsed, c) ∷ cs) d v h =
    history-IsKnown owner key fingerprint id env (t + elapsed) cs (perform env (t + elapsed) c d)
      (perform-IsValid env t (t + elapsed) c d (omega arith) v)
      (TableStep-IsKnown owner key fingerprint id d _
        (perform-TableStep env (t + elapsed) c d v.ids) h)

find?-append-none :
    (p : Row → Bool) (xs : List Row) (r : Row)
    → find? p xs ≡ none
    → p r ≡ true
    → find? p (xs ++ r ∷ []) ≡ some r
find?-append-none p [] r h k = rw k
find?-append-none p (x ∷ xs) r h k = elim (Bool-cases (p x)) [
  | inl hit ↦ absurd (cc (find?-head p x xs hit))
  | inr miss ↦ rw miss (find?-append-none p xs r (sym (find?-tail p x xs miss) ∙ h) k)
]

-- The three outcomes of `_job_for_key`.
job_for_key-known :
    (owner key fingerprint : Text) (d : Database) (r : Row)
    → find? (has_key owner key) d.jobs ≡ some r
    → r.request_fingerprint ≡ fingerprint
    → job_for_key owner key fingerprint d ≡ (ok (some r.id), d)
unfolding job_for_key
job_for_key-known owner key fingerprint d r f p = rw f (ground arith)

job_for_key-other :
    (owner key fingerprint : Text) (d : Database) (r : Row)
    → find? (has_key owner key) d.jobs ≡ some r
    → r.request_fingerprint ≢ fingerprint
    → job_for_key owner key fingerprint d ≡ (err idempotency_conflict, d)
unfolding job_for_key
job_for_key-other owner key fingerprint d r f p = rw f (ground arith)

job_for_key-new :
    (owner key fingerprint : Text) (d : Database)
    → find? (has_key owner key) d.jobs ≡ none
    → job_for_key owner key fingerprint d ≡ (ok none, d)
unfolding job_for_key
job_for_key-new owner key fingerprint d f = rw f

-- A valid request of an owner with a name runs to the look at the key.
submit-valid :
    (env : Env) (owner request drawn : Text) (now : Instant) (d : Database) (fields : Fields)
    → owner ≢ 0
    → env.validated_request_fields request ≡ ok fields
    → submit env (given owner) request drawn now d
      ≡ and_then
          (job_for_key owner fields.idempotency_key (env.request_fingerprint fields) d)
          (λ existing.
            submit_or_repeat existing env owner fields (env.request_fingerprint fields) drawn now)
unfolding submit
submit-valid env owner request drawn now d fields o v = rw (named owner o, v)
  where
    named : (a : ℕ) → a ≢ 0 → (a == 0) ≡ false
    named a h = ground arith

-- Once a key is known, a submit with it returns the run of the first one, reads no data set and
-- writes nothing; with another request it raises.
submit-known :
    (env : Env) (owner request drawn id : Text) (now : Instant) (d : Database) (fields : Fields)
    → owner ≢ 0
    → env.validated_request_fields request ≡ ok fields
    → IsKnown owner fields.idempotency_key (env.request_fingerprint fields) id d.jobs
    → submit env (given owner) request drawn now d ≡ (ok (id, false), d)
submit-known env owner request drawn id now d fields o v (r, f, p, q) =
    submit-valid env owner request drawn now d fields o v
    ∙ rw (job_for_key-known owner fields.idempotency_key (env.request_fingerprint fields) d r f p)
        (rw q refl)

-- What the table knows after a submit: its key, with the run that it returned.
abbrev Knows : Text → Text → Text → Result (Text × Bool) × Database → Type 0
Knows owner key fingerprint (ok (id, new), e) = IsKnown owner key fingerprint id e.jobs
Knows owner key fingerprint (err x, e) = Unit

key_of_self : (owner key k : Text) → k ≡ key → (owner == owner && k == key) ≡ true
key_of_self owner key k h = ground arith

insert-Knows :
    (owner key fingerprint : Text) (fields : Fields) (built : Built) (now : Instant) (d : Database)
    → built.idempotency_key ≡ key
    → built.request_fingerprint ≡ fingerprint
    → find? (has_key owner key) d.jobs ≡ none
    → Knows owner key fingerprint
        (close_transaction (insert_unless none owner fields built now d) d)
unfolding insert_job
insert-Knows owner key fingerprint fields built now d k p f =
    elim (Bool-cases (
      any
        (λ r.
          r.id == built.run_id || r.owner_id == owner && r.idempotency_key == built.idempotency_key)
        d.jobs)) [
          | inl taken ↦ rw taken tt
          | inr free ↦ rw free (
            queued_row d.next_seq owner fields built now,
            find?-append-none (has_key owner key) d.jobs _ f (key_of_self owner key _ k),
            p,
            refl,
          )
        ]

new-Knows :
    (env : Env) (owner : Text) (fields : Fields) (drawn : Text) (now : Instant) (d : Database)
    (b : Result Built)
    → IsFaithful env
    → env.build_replay_request fields drawn ≡ b
    → find? (has_key owner fields.idempotency_key) d.jobs ≡ none
    → Knows owner fields.idempotency_key
        (env.request_fingerprint fields)
        (submit_new env owner fields (env.request_fingerprint fields) drawn now d)
new-Knows env owner fields drawn now d (err x) g e f = rw e tt
new-Knows env owner fields drawn now d (ok built) g e f =
    rw (e, job_for_key-new owner fields.idempotency_key (env.request_fingerprint fields) d f)
      (insert-Knows owner fields.idempotency_key (env.request_fingerprint fields) fields built now d
        (g.same_key fields drawn built e) (g.same_fingerprint fields drawn built e) f)

submit-Knows :
    (env : Env) (owner request drawn : Text) (now : Instant) (d : Database) (fields : Fields)
    → IsFaithful env
    → owner ≢ 0
    → env.validated_request_fields request ≡ ok fields
    → Knows owner fields.idempotency_key
        (env.request_fingerprint fields)
        (submit env (given owner) request drawn now d)
submit-Knows env owner request drawn now d fields g o v =
    rw (submit-valid env owner request drawn now d fields o v)
      (elim (Option-cases (find? (has_key owner fields.idempotency_key) d.jobs)) [
        | inl new ↦
            rw (job_for_key-new owner fields.idempotency_key (env.request_fingerprint fields) d new)
              (new-Knows env owner fields drawn now d (env.build_replay_request fields drawn) g refl
                new)
        | inr (r, f) ↦ elim (ℕ_discrete r.request_fingerprint (env.request_fingerprint fields)) [
          | yes p ↦
              rw
                (job_for_key-known owner fields.idempotency_key (env.request_fingerprint fields) d r
                  f p)
                (r, f, p, refl)
          | no p ↦
              rw
                (job_for_key-other owner fields.idempotency_key (env.request_fingerprint fields) d r
                  f p)
                tt
        ]
      ])

-- Let a named owner's submit of a valid request have returned a run and left a database where the
-- invariant holds, and let built requests keep their key and fingerprint. After any history of
-- calls, a submit of the same request by the same owner returns that run as one that is not new,
-- and writes nothing.
pub submit_repeats :
    (env : Env) (owner request drawn drawn' id : Text) (t now : Instant) (new : Bool)
    (cs : List (ℕ × Call)) (d e : Database) (fields : Fields)
    → IsFaithful env
    → owner ≢ 0
    → env.validated_request_fields request ≡ ok fields
    → submit env (given owner) request drawn t d ≡ (ok (id, new), e)
    → IsValid t e
    → let e' = (history env t cs e).1 in
      submit env (given owner) request drawn' now e' ≡ (ok (id, false), e')
submit_repeats env owner request drawn drawn' id t now new cs d e fields g o v h w =
    submit-known env owner request drawn' id now (history env t cs e).1 fields o v (
      history-IsKnown owner fields.idempotency_key (env.request_fingerprint fields) id env t cs e w
        (subst (Knows owner fields.idempotency_key (env.request_fingerprint fields)) h
          (submit-Knows env owner request drawn t d fields g o v)))

-- Let a named owner's submit of a valid request have returned a run and left a database where the
-- invariant holds, and let built requests keep their key and fingerprint. After any history of
-- calls, a submit by the same owner of a valid request with the same key and another fingerprint
-- raises a conflict and writes nothing.
pub submit_conflicts :
    (env : Env) (owner request other_request drawn drawn' id : Text) (t now : Instant) (new : Bool)
    (cs : List (ℕ × Call)) (d e : Database) (fields others : Fields)
    → IsFaithful env
    → owner ≢ 0
    → env.validated_request_fields request ≡ ok fields
    → env.validated_request_fields other_request ≡ ok others
    → others.idempotency_key ≡ fields.idempotency_key
    → env.request_fingerprint others ≢ env.request_fingerprint fields
    → submit env (given owner) request drawn t d ≡ (ok (id, new), e)
    → IsValid t e
    → let e' = (history env t cs e).1 in
      submit env (given owner) other_request drawn' now e' ≡ (err idempotency_conflict, e')
submit_conflicts env owner request other_request drawn drawn' id t now new cs d e fields others g o
      v v' same differs h w =
    let e' = (history env t cs e).1 in
    let (r, f, p, _) =
      history-IsKnown owner fields.idempotency_key (env.request_fingerprint fields) id env t cs e w
        (subst (Knows owner fields.idempotency_key (env.request_fingerprint fields)) h
          (submit-Knows env owner request drawn t d fields g o v)) in
    let found : find? (has_key owner others.idempotency_key) e'.jobs ≡ some r =
      subst (λ k. find? (has_key owner k) e'.jobs ≡ some r) (sym same) f in
    submit-valid env owner other_request drawn' now e' others o v'
    ∙ rw
        (job_for_key-other owner others.idempotency_key (env.request_fingerprint others) e' r found
          (λ k. differs (sym k ∙ p)))
        refl
