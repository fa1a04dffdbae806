-- ===== src/Jobs/Lookups.antt =====
-- demo/jobs.py: what the two lookups, under a lease and by an owner, return or raise.
use stock_signal.Common.{
  ℕ, ◌≡◌, refl, Bool, true, false, Option, some, ◌&&◌, find?, find?-test, ◌==◌, Bool-cases,
  Option-cases, inl, inr, ◌⊎◌, arith,
}
use stock_signal.Jobs.Data.{
  Text, Instant, State, queued, running, cancel_requested, completed, failed, cancelled, Row,
  is_active, is_queued, is_cancel_requested, is_text, Database,
}
use stock_signal.Jobs.Monad.{Error, Result, ok, err, lease_lost, not_found}
use stock_signal.Jobs.Owner.{job_for_key, Env, owned_row}
use stock_signal.Jobs.Lease.{leased, is_past, leased_row}

-- What a worker knows of the row that its lease gives it.
pub record IsLeased (id token : Text) (now : Option Instant) (d : Database) (r : Row) : Type 0 where
  pub found : find? (λ y. y.id == id && is_text y.lease_token token) d.jobs ≡ some r
  pub same_id : r.id ≡ id
  pub active : is_active r.state ≡ true

pub leased-cases :
    (r : Row) (now : Option Instant) (d : Database) (past : Result Bool)
    → is_past now r.lease_expires_at ≡ past
    → ((is_active r.state ≡ true) × (leased (some r) now d ≡ (ok r, d)))
      ⊎ ((e : Error) × (leased (some r) now d ≡ (err e, d)))
leased-cases r now d (err e) h = inr (e, rw h)
leased-cases r now d (ok true) h = inr (lease_lost, rw h (ground arith))
leased-cases r now d (ok false) h = elim (Bool-cases (is_active r.state)) [
  | inl active ↦ inl (active, rw (h, active))
  | inr ended ↦ inr (lease_lost, rw (h, ended))
]

pub leased_id : (a b : ℕ) (c : Bool) → (a == b && c) ≡ true → a ≡ b
leased_id a b c h = ground arith

-- The lease is there, or the call raises and writes nothing.
pub leased_row-cases :
    (id token : Text) (now : Option Instant) (d : Database)
    → ((r : Row) × IsLeased id token now d r × (leased_row id token now d ≡ (ok r, d)))
      ⊎ ((e : Error) × (leased_row id token now d ≡ (err e, d)))
unfolding leased_row
leased_row-cases id token now d =
    elim (Option-cases (find? (λ y. y.id == id && is_text y.lease_token token) d.jobs)) [
      | inl absent ↦ inr (lease_lost, rw absent)
      | inr (r, e) ↦ elim (leased-cases r now d (is_past now r.lease_expires_at) refl) [
        | inl (active, q) ↦ inl (
          r,
          record {
            found = e;
            same_id = leased_id r.id id _ (find?-test _ d.jobs r e);
            active = active;
          },
          rw e q,
        )
        | inr (x, q) ↦ inr (x, rw e q)
      ]
    ]

pub state-cases : (s : State) → (s ≡ cancel_requested) ⊎ (is_cancel_requested s ≡ false)
state-cases cancel_requested = inl refl
state-cases queued = inr refl
state-cases running = inr refl
state-cases completed = inr refl
state-cases failed = inr refl
state-cases cancelled = inr refl

pub and_true : (a : ℕ) (b : Bool) → b ≡ true → (a == a && b) ≡ true
and_true a b h = ground arith

pub queued-cases : (s : State) → is_queued s ≡ true → s ≡ queued
queued-cases s h = ground arith

pub both_ids : (a b c d : ℕ) → (a == b && c == d) ≡ true → c ≡ d
both_ids a b c d h = ground arith

-- `_owned_row` finds a row of this owner and this id, or raises and writes nothing.
pub record IsOwned (owner id : Text) (d : Database) (r : Row) : Type 0 where
  pub found : find? (λ y. y.id == id && y.owner_id == owner) d.jobs ≡ some r
  pub same_id : r.id ≡ id
  pub same_owner : r.owner_id ≡ owner

pub owned_row-cases :
    (env : Env) (owner id : Text) (d : Database)
    → ((r : Row) × IsOwned owner id d r × (owned_row env owner id d ≡ (ok r, d)))
      ⊎ (owned_row env owner id d ≡ (err not_found, d))
unfolding owned_row
owned_row-cases env owner id d = elim (Bool-cases (is_text (env.parse_uuid id) id)) [
  | inl canonical ↦ elim (Option-cases (find? (λ y. y.id == id && y.owner_id == owner) d.jobs)) [
    | inl absent ↦ inr (rw (canonical, absent))
    | inr (r, e) ↦ inl (
      r,
      record {
        found = e;
        same_id = leased_id r.id id _ (find?-test _ d.jobs r e);
        same_owner = both_ids r.id id r.owner_id owner (find?-test _ d.jobs r e);
      },
      rw (canonical, e),
    )
  ]
  | inr malformed ↦ inr (rw malformed)
]

-- `_job_for_key` reads only.
pub job_for_key-reads :
    (owner key fingerprint : Text) (d : Database) → (job_for_key owner key fingerprint d).1 ≡ d
unfolding job_for_key
job_for_key-reads owner key fingerprint d = ground arith
