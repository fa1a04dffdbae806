-- ===== src/Jobs/Refines/Rules.antt =====
-- demo/jobs.py: how a step of the table runs through the statements of an action.
use stock_signal.Common.{
  ◌≡◌, refl, sym, subst, ◌∙◌, Bool, true, false, Option, update, ◌==◌, ==_iff,
}
use stock_signal.Jobs.Data.{Text, Instant, Row, Database}
use stock_signal.Jobs.Monad.{
  Error, Result, ok, err, Action, returned, and_then, pure, raise_if, close_transaction, ◌>>=◌,
}
use stock_signal.Jobs.Owner.{update_job}
use stock_signal.Jobs.Moves.{Move, Evolves, TableStep, HasUniqueIds, Evolves-refl, Evolves-update}
use stock_signal.Jobs.Lookups.{IsLeased, IsOwned}

-- The update of a leased row.
pub leased-Evolves :
    (now : Instant) (id token : Text) (t : Option Instant) (d : Database) (r : Row) (f : Row → Row)
    → HasUniqueIds d.jobs
    → IsLeased id token t d r
    → Move now r (f r)
    → Evolves now d.jobs (update (λ y. y.id == id) f d.jobs)
leased-Evolves now id token t d r f u l m =
    Evolves-update now _ (λ y. y.id == id) f d.jobs r u l.found
      (λ y h. (==_iff y.id id).0 h ∙ sym l.same_id) ((==_iff r.id id).1 l.same_id) m

-- The update of a leased row.
pub leased-update :
    (now : Instant) (id token : Text) (t : Option Instant) (d : Database) (r : Row) (f : Row → Row)
    → HasUniqueIds d.jobs
    → IsLeased id token t d r
    → Move now r (f r)
    → TableStep now d (record d { jobs = update (λ y. y.id == id) f d.jobs })
leased-update now id token t d r f u l m =
    TableStep.evolve (leased-Evolves now id token t d r f u l m) refl

pub nothing : (now : Instant) (d : Database) → TableStep now d d
nothing now d = TableStep.evolve (Evolves-refl d.jobs) refl

-- A call that first computes a value, or raises, and then goes on.
pub returned-TableStep :
    {A B : Type 0} (r : Result A) (f : A → Action B) (now : Instant) (d : Database)
    → ((a : A) → TableStep now d (f a d).1)
    → TableStep now d ((returned r >>= f) d).1
returned-TableStep (ok a) f now d h = h a
returned-TableStep (err e) f now d h = nothing now d

-- The rows and the counter are those of `d`.
abbrev pub HasQueueOf : Database → Database → Type 0
HasQueueOf d e = (e.jobs ≡ d.jobs) × (e.next_seq ≡ d.next_seq)

pub and_then-HasQueueOf :
    {A B : Type 0} (p : Result A × Database) (f : A → Action B) (d : Database)
    → HasQueueOf d p.1
    → ((a : A) (e : Database) → HasQueueOf d e → HasQueueOf d (f a e).1)
    → HasQueueOf d (and_then p f).1
and_then-HasQueueOf (ok a, e) f d h k = k a e h
and_then-HasQueueOf (err x, e) f d h k = h

pub update-TableStep :
    (id : Text) (f : Row → Row) (now : Instant) (d : Database) (p : Result (Unit {0}) × Database)
    → HasQueueOf d p.1
    → Evolves now d.jobs (update (λ y. y.id == id) f d.jobs)
    → TableStep now d (close_transaction (and_then p (λ _. update_job id f)) d).1
update-TableStep id f now d (ok a, d') e h =
    TableStep.evolve (subst (λ xs. Evolves now d.jobs (update (λ y. y.id == id) f xs)) (sym e.0) h)
      e.1
update-TableStep id f now d (err x, d') e h = nothing now d

pub raise_if-TableStep :
    {B : Type 0} (c : Bool) (x : Error) (f : Unit {0} → Action B) (now : Instant) (d : Database)
    → TableStep now d (f tt d).1
    → TableStep now d ((raise_if c x >>= f) d).1
raise_if-TableStep true x f now d h = nothing now d
raise_if-TableStep false x f now d h = h

pub owned-update :
    (now : Instant) (owner id : Text) (d : Database) (r : Row) (f : Row → Row)
    → HasUniqueIds d.jobs
    → IsOwned owner id d r
    → Move now r (f r)
    → TableStep now d (record d { jobs = update (λ y. y.id == r.id) f d.jobs })
owned-update now owner id d r f u o m =
    TableStep.evolve
      (Evolves-update now _ (λ y. y.id == r.id) f d.jobs r u o.found (λ y h. (==_iff y.id r.id).0 h)
        ((==_iff r.id r.id).1 refl) m)
      refl

-- What a transaction commits is the table that its body leaves, or the one before it.
pub committed-TableStep :
    {A : Type 0} (now : Instant) (d : Database) (p : Result A × Database)
    → TableStep now d p.1
    → TableStep now d (close_transaction p d).1
committed-TableStep now d (ok a, d') h = h
committed-TableStep now d (err e, d') h = nothing now d

pub reading-TableStep :
    {A B : Type 0} (p : Result A × Database) (f : A → Action B) (now : Instant) (d : Database)
    → p.1 ≡ d
    → ((a : A) → TableStep now d (f a d).1)
    → TableStep now d (and_then p f).1
reading-TableStep (ok a, d') f now d e h =
    subst (λ (d'' : Database). TableStep now d (f a d'').1) (sym e) (h a)
reading-TableStep (err x, d') f now d e h =
    subst (λ (d'' : Database). TableStep now d d'') (sym e) (nothing now d)

pub then_pure-TableStep :
    {A B : Type 0} (p : Result A × Database) (b : B) (now : Instant) (d : Database)
    → TableStep now d p.1
    → TableStep now d (and_then p (λ _. pure b)).1
then_pure-TableStep (ok a, d') b now d h = h
then_pure-TableStep (err x, d') b now d h = h
