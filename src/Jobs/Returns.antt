-- ===== src/Jobs/Returns.antt =====
-- demo/jobs.py: what is known of the steps of a call that returns.
use stock_signal.Common.{◌≡◌, ◌≢◌, refl, sym, ap, Bool, true, false, if◌then◌else◌}
use stock_signal.Jobs.Data.{Database}
use stock_signal.Jobs.Monad.{Error, Result, ok, err, and_then, close_transaction}

pub err-≢-ok : {A : Type 0} {e : Error} {a : A} → err e ≢ ok a
err-≢-ok h = cc

-- Where a body of two steps returns, both did.
pub both_returned :
    {A B : Type 0} (p : Result A × Database) (f : A → Database → Result B × Database) (b : B)
    (d' : Database)
    → and_then p f ≡ (ok b, d')
    → (a : A) × (e : Database) × (p ≡ (ok a, e)) × (f a e ≡ (ok b, d'))
both_returned (ok a, e) f b d' h = (a, e, refl, h)
both_returned (err x, e) f b d' h = absurd (err-≢-ok (ap (λ r. r.0) h))

pub transaction_returned :
    {A : Type 0} (p : Result A × Database) (d d' : Database) (a : A)
    → close_transaction p d ≡ (ok a, d')
    → p ≡ (ok a, d')
transaction_returned (ok b, e) d d' a h = h
transaction_returned (err x, e) d d' a h = absurd (err-≢-ok (ap (λ r. r.0) h))

pub not_raised :
    {A : Type 0} (c : Bool) (x : Error) (a b : A) (d e d' : Database)
    → ◌≡◌ {A = Result A × Database} (if c then (err x, d) else (ok a, e)) (ok b, d')
    → (c ≡ false) × (d' ≡ e)
not_raised true x a b d e d' h = absurd (err-≢-ok (ap (λ r. r.0) h))
not_raised false x a b d e d' h = (refl, sym (ap (λ r. r.1) h))
