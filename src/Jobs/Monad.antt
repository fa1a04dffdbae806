-- ===== src/Jobs/Monad.antt =====
-- demo/jobs.py: a method acts on the database and returns or raises. What a statement wrote
-- stays written when a later one raises, until `_transaction` rolls it back.
use stock_signal.Common.{Bool, Option, none, some, if◌then◌else◌}
use stock_signal.Jobs.Data.{Database}

-- The exceptions of the module. `integrity_error` is that of sqlite3 for a broken UNIQUE,
-- `type_error` that of Python for an order with None.
pub data Error : Type 0 where
  not_found invalid_page value_error lease_lost : Error
  idempotency_conflict integrity_error request_rejected type_error content_too_large : Error

pub data Result (A : Type 0) : Type 0 where
  ok : A → Result A
  err : Error → Result A

abbrev pub Action : Type 0 → Type 0
Action A = Database → Result A × Database

abbrev pub and_then : {A B : Type 0} → Result A × Database → (A → Action B) → Result B × Database
and_then (ok a, d) f = f a d
and_then (err e, d) f = (err e, d)

infixl 5 ◌>>=◌ ◌>>◌
abbrev pub ◌>>=◌ : {A B : Type 0} → Action A → (A → Action B) → Action B
◌>>=◌ m f d = and_then (m d) f

abbrev pub ◌>>◌ : {A B : Type 0} → Action A → Action B → Action B
m >> k = m >>= λ _. k

module _ {A : Type 0} where
  abbrev pub pure : A → Action A
  pure a d = (ok a, d)

  abbrev pub raise : Error → Action A
  raise e d = (err e, d)

  abbrev pub gets : (Database → A) → Action A
  gets f d = (ok (f d), d)

  abbrev pub or_raise : Option A → Error → Action A
  or_raise none e = raise e
  or_raise (some a) e = pure a

  abbrev pub returned : Result A → Action A
  returned r d = (r, d)

  -- `_transaction`: an exception of the body rolls back, and is raised again.
  abbrev pub close_transaction : Result A × Database → Database → Result A × Database
  close_transaction (ok a, d') d = (ok a, d')
  close_transaction (err e, d') d = (err e, d)

  abbrev pub transaction : Action A → Action A
  transaction m d = close_transaction (m d) d

abbrev pub raise_if : Bool → Error → Action (Unit {0})
raise_if c e d = (if c then err e else ok tt, d)

abbrev pub write : (Database → Database) → Action (Unit {0})
write f d = (ok tt, f d)
