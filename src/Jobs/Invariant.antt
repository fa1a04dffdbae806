-- ===== src/Jobs/Invariant.antt =====
-- demo/jobs.py: what holds of the database after any history of calls.
use stock_signal.Common.{
  ℕ, ◌+◌, ◌≡◌, sym, subst, ◌∙◌, ◌≢◌, List, [], ◌∷◌, ◌++◌, All, All-map, All-append, Pairwise,
  Pairwise-append, arith,
}
use stock_signal.Jobs.Data.{Instant, Row, Database, empty}
use stock_signal.Jobs.Owner.{Env, queued_row}
use stock_signal.Jobs.Calls.{Call, perform, history}
use stock_signal.Jobs.Moves.{
  Move, claim, beat, withdraw, ask_cancel, publish, give_up, confirm, retry, Evolves, done, stay,
  move, TableStep, evolve, enqueue, HasUniqueIds,
}
use stock_signal.Jobs.Refines.{perform-TableStep}
use stock_signal.Jobs.Valid.{RowIsValid, RowIsValid-later, Move-IsValid, queued_row-IsValid}
use Prim.Native.Nat.{◌≤◌}

-- The columns that no UPDATE writes.
pub record IsSameRun (r s : Row) : Type 0 where
  pub seq : s.seq ≡ r.seq
  pub id : s.id ≡ r.id
  pub owner_id : s.owner_id ≡ r.owner_id
  pub idempotency_key : s.idempotency_key ≡ r.idempotency_key
  pub request_fingerprint : s.request_fingerprint ≡ r.request_fingerprint
  pub request : s.request ≡ r.request
  pub normalized_run : s.normalized_run ≡ r.normalized_run
  pub strategy_configuration : s.strategy_configuration ≡ r.strategy_configuration
  pub created_at : s.created_at ≡ r.created_at

pub Move-IsSameRun : {now : Instant} {r s : Row} → Move now r s → IsSameRun r s
Move-IsSameRun (claim r token seconds e) = ground arith
Move-IsSameRun (beat r phase seconds e) = ground arith
Move-IsSameRun (withdraw r env owner e) = ground arith
Move-IsSameRun (ask_cancel r env owner e) = ground arith
Move-IsSameRun (publish r engine result e) = ground arith
Move-IsSameRun (give_up r failure e) = ground arith
Move-IsSameRun (confirm r e) = ground arith
Move-IsSameRun (retry r e more) = ground arith

-- No two runs of one owner have one key.
abbrev pub HasUniqueKeys : List Row → Type 0
HasUniqueKeys = Pairwise (λ x y. y.owner_id ≡ x.owner_id → y.idempotency_key ≢ x.idempotency_key)

-- The rows are numbered upwards, from `lo` on and below `hi`.
abbrev pub IsNumbered : ℕ → List Row → ℕ → Type 0
IsNumbered lo [] hi = lo ≤ hi
IsNumbered lo (x ∷ xs) hi = (lo ≤ x.seq) × IsNumbered (x.seq + 1) xs hi

pub record IsValid (now : Instant) (d : Database) : Type 0 where
  pub ids : HasUniqueIds d.jobs
  pub keys : HasUniqueKeys d.jobs
  pub numbers : IsNumbered 1 d.jobs d.next_seq
  pub rows : All (RowIsValid now) d.jobs

pub empty-IsValid : (now : Instant) → IsValid now empty
empty-IsValid now = ground arith

Evolves-All :
    (P Q : Row → Type 0) {now : Instant} {xs ys : List Row}
    → ((x : Row) → P x → Q x)
    → ((x y : Row) → Move now x y → P x → Q y)
    → Evolves now xs ys
    → All P xs
    → All Q ys
Evolves-All P Q keep step done h = tt
Evolves-All P Q keep step (stay x e) h = (keep x h.0, Evolves-All P Q keep step e h.1)
Evolves-All P Q keep step (move {x} {y} m e) h = (step x y m h.0, Evolves-All P Q keep step e h.1)

pub IsSameRun-refl : (r : Row) → IsSameRun r r
IsSameRun-refl r = ground arith

-- A relation on the columns that stay, between each row and the later ones.
Evolves-Pairwise :
    (R : Row → Row → Type 0) {now : Instant} {xs ys : List Row}
    → ((x x' y y' : Row) → IsSameRun x x' → IsSameRun y y' → R x y → R x' y')
    → Evolves now xs ys
    → Pairwise R xs
    → Pairwise R ys
Evolves-Pairwise R fixed done h = tt
Evolves-Pairwise R fixed (stay x e) h = (
  Evolves-All (R x) (R x) (λ y k. k)
      (λ y y' m k. fixed x x y y' (IsSameRun-refl x) (Move-IsSameRun m) k) e h.0,
  Evolves-Pairwise R fixed e h.1,
)
Evolves-Pairwise R fixed (move {x} {y = x'} m e) h = (
  Evolves-All (R x) (R x') (λ y k. fixed x x' y y (Move-IsSameRun m) (IsSameRun-refl y) k)
      (λ y y' n k. fixed x x' y y' (Move-IsSameRun m) (Move-IsSameRun n) k) e h.0,
  Evolves-Pairwise R fixed e h.1,
)

Evolves-IsNumbered :
    {now : Instant} {xs ys : List Row} (lo hi : ℕ)
    → Evolves now xs ys
    → IsNumbered lo xs hi
    → IsNumbered lo ys hi
Evolves-IsNumbered lo hi done h = h
Evolves-IsNumbered lo hi (stay x e) h = (h.0, Evolves-IsNumbered (x.seq + 1) hi e h.1)
Evolves-IsNumbered lo hi (move {xs = rest} {x} {y} m e) h =
    let same : y.seq ≡ x.seq = (Move-IsSameRun m).seq in
    (
      omega arith,
      Evolves-IsNumbered (y.seq + 1) hi e (subst (λ n. IsNumbered (n + 1) rest hi) (sym same) h.1),
    )

IsNumbered-append :
    (lo : ℕ) (xs : List Row) (r : Row)
    → IsNumbered lo xs r.seq
    → IsNumbered lo (xs ++ r ∷ []) (r.seq + 1)
IsNumbered-append lo [] r h = (h, omega arith)
IsNumbered-append lo (x ∷ xs) r h = (h.0, IsNumbered-append (x.seq + 1) xs r h.1)

-- A step of the table keeps the ids of its runs apart.
pub TableStep-HasUniqueIds :
    (now : Instant) (d d' : Database)
    → TableStep now d d'
    → HasUniqueIds d.jobs
    → HasUniqueIds d'.jobs
TableStep-HasUniqueIds now d d' (evolve e n) u =
    Evolves-Pairwise _ (λ x x' y y' s k ne q. ne (sym k.id ∙ (q ∙ s.id))) e u
TableStep-HasUniqueIds now d d' (enqueue owner fields built fresh e n) u =
    subst HasUniqueIds (sym e) (
      Pairwise-append _ d.jobs (queued_row d.next_seq owner fields built now) u
        (All-map _ _ d.jobs (λ x k q. k.0 (sym q)) fresh))

-- A step of the table keeps the invariant.
TableStep-IsValid :
    (t now : Instant) (d d' : Database)
    → t ≤ now
    → TableStep now d d'
    → IsValid t d
    → IsValid now d'
TableStep-IsValid t now d d' h (evolve e n) v = record {
  ids = TableStep-HasUniqueIds now d d' (evolve e n) v.ids;
  keys =
      Evolves-Pairwise _
        (λ x x' y y' s k ne o q.
          ne (sym k.owner_id ∙ (o ∙ s.owner_id)) (sym k.idempotency_key ∙ (q ∙ s.idempotency_key)))
        e v.keys;
  numbers = subst (IsNumbered 1 d'.jobs) (sym n) (Evolves-IsNumbered 1 d.next_seq e v.numbers);
  rows =
      Evolves-All (RowIsValid t) (RowIsValid now) (λ x k. RowIsValid-later t now h k)
        (λ x y m k. Move-IsValid t now h m k) e v.rows;
}
TableStep-IsValid t now d d' h (enqueue owner fields built fresh e n) v =
    let new : Row = queued_row d.next_seq owner fields built now in
    record {
      ids = TableStep-HasUniqueIds now d d' (enqueue owner fields built fresh e n) v.ids;
      keys = subst HasUniqueKeys (sym e) (
          Pairwise-append _ d.jobs new v.keys
            (All-map _ _ d.jobs (λ x k o q. k.1 (sym o) (sym q)) fresh));
      numbers = rw (e, n) (IsNumbered-append 1 d.jobs new v.numbers);
      rows = subst (All (RowIsValid now)) (sym e) (
          All-append (RowIsValid now) d.jobs (new ∷ [])
            (All-map (RowIsValid t) (RowIsValid now) d.jobs (λ x k. RowIsValid-later t now h k)
              v.rows)
            (queued_row-IsValid d.next_seq owner fields built now, tt));
    }

-- Every call keeps the invariant of the database, when the clock does not run back: ids, and
-- pairs of owner and key, are unique, the rows stand in the order of their numbers, and each row
-- has the columns of its state, at most two attempts, and its instants in order.
pub perform-IsValid :
    (env : Env) (t now : Instant) (c : Call) (d : Database)
    → t ≤ now
    → IsValid t d
    → IsValid now (perform env now c d)
perform-IsValid env t now c d h v =
    TableStep-IsValid t now d (perform env now c d) h (perform-TableStep env now c d v.ids) v

-- After every history of calls from a database where the invariant holds, by a clock that does
-- not run back, it holds: ids, and pairs of owner and key, are unique, the rows stand in the order
-- of their numbers, and each row has the columns of its state, at most two attempts, and its
-- instants in order.
pub history-IsValid :
    (env : Env) (t : Instant) (cs : List (ℕ × Call)) (d : Database)
    → IsValid t d
    → let (now, d') = history env t cs d in IsValid now d'
unfolding history
history-IsValid env t [] d v = v
history-IsValid env t ((elapsed, c) ∷ cs) d v =
    history-IsValid env (t + elapsed) cs (perform env (t + elapsed) c d)
      (perform-IsValid env t (t + elapsed) c d (omega arith) v)
