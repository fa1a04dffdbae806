-- ===== src/Jobs/Recovery.antt =====
-- demo/jobs.py: the loop of `recover_expired_leases` moves each expired run once.
use stock_signal.Common.{
  ◌≡◌, refl, sym, ap, subst, ◌∙◌, ◌≢◌, Bool, true, false, List, [], ◌∷◌, All, select, update,
  update-hit, update-miss, ◌==◌, ==_iff, Bool-cases, inl, inr, ◌⊎◌, arith, ltb, ltb→lt,
}
use stock_signal.Jobs.Data.{
  Instant, Row, State, running, cancel_requested, cancelled, is_cancel_requested, is_active,
  max_attempts, Database,
}
use stock_signal.Jobs.Lease.{
  recover_each, recovery, lost, finish, requeue, fail_row, is_expired, recover_expired_leases,
}
use stock_signal.Jobs.Moves.{Move, Evolves, TableStep, HasUniqueIds, update-absent}

-- Rows that the table's first row is not among leave that row as it is.
recover_each-cons :
    (rows : List Row) (now : Instant) (x : Row) (xs : List Row)
    → All (λ y. y.id ≢ x.id) rows
    → recover_each rows now (x ∷ xs) ≡ x ∷ recover_each rows now xs
unfolding recover_each
recover_each-cons [] now x xs h = refl
recover_each-cons (r ∷ rows) now x xs h =
    ap (recover_each rows now)
      (update-miss (λ y. y.id == r.id) (recovery r now) x xs (ground arith))
    ∙ recover_each-cons rows now x _ h.1

select-All {κ} :
    (P : Row → Type κ) (p : Row → Bool) (xs : List Row) → All P xs → All P (select p xs)
select-All P p [] h = tt
select-All P p (x ∷ xs) h = elim (Bool-cases (p x)) [
  | inl hit ↦ rw hit (h.0, select-All P p xs h.1)
  | inr miss ↦ rw miss (select-All P p xs h.1)
]

recovery-id : (r x : Row) (now : Instant) → (recovery r now x).id ≡ x.id
recovery-id r x now = ground arith

-- The loop over the selected rows is one update of the table.
pub recover_each-select :
    (p : Row → Bool) (now : Instant) (xs : List Row)
    → HasUniqueIds xs
    → recover_each (select p xs) now xs ≡ update p (λ r. recovery r now r) xs
unfolding recover_each
recover_each-select p now [] u = refl
recover_each-select p now (x ∷ xs) u = elim (Bool-cases (p x)) [
  | inl hit ↦ rw hit (
      ap (recover_each (select p xs) now) (
        update-hit (λ y. y.id == x.id) (recovery x now) x xs (ground arith)
        ∙ ap (λ ys. recovery x now x ∷ ys)
            (update-absent (λ y. y.id == x.id) x.id (recovery x now) xs
              (λ y h. (==_iff y.id x.id).0 h) u.0))
      ∙ (recover_each-cons (select p xs) now (recovery x now x) xs (
            select-All _ p xs (subst (λ i. All (λ y. y.id ≢ i) xs) (sym (recovery-id x x now)) u.0))
          ∙ ap (λ ys. recovery x now x ∷ ys) (recover_each-select p now xs u.1)))
  | inr miss ↦ rw miss (
      recover_each-cons (select p xs) now x xs (select-All _ p xs u.0)
      ∙ ap (λ ys. x ∷ ys) (recover_each-select p now xs u.1))
]

pub active-cases : (s : State) → is_active s ≡ true → (s ≡ running) ⊎ (s ≡ cancel_requested)
active-cases s h = ground arith

recovery-asked :
    (r : Row) (now : Instant)
    → is_cancel_requested r.state ≡ true
    → recovery r now r ≡ finish cancelled now r
recovery-asked r now h = simp h

recovery-again :
    (r : Row) (now : Instant)
    → is_cancel_requested r.state ≡ false
    → ltb r.attempt max_attempts ≡ true
    → recovery r now r ≡ requeue r
recovery-again r now h k = simp (h, k)

recovery-last :
    (r : Row) (now : Instant)
    → is_cancel_requested r.state ≡ false
    → ltb r.attempt max_attempts ≡ false
    → recovery r now r ≡ fail_row (lost now) now r
recovery-last r now h k = simp (h, k)

-- What recovery does to an expired run is a move.
recovery-Move : (r : Row) (now : Instant) → is_active r.state ≡ true → Move now r (recovery r now r)
recovery-Move r now a = elim (active-cases r.state a) [
  | inr asked ↦
      subst (Move now r) (sym (recovery-asked r now (rw asked refl))) (Move.confirm r asked)
  | inl working ↦ elim (Bool-cases (ltb r.attempt max_attempts)) [
    | inl again ↦
        subst (Move now r) (sym (recovery-again r now (rw working refl) again))
          (Move.retry r working (ltb→lt r.attempt max_attempts again))
    | inr last ↦
        subst (Move now r) (sym (recovery-last r now (rw working refl) last))
          (Move.give_up r (lost now) a)
  ]
]

is_expired-active : (now : Instant) (r : Row) → is_expired now r ≡ true → is_active r.state ≡ true
unfolding is_expired
is_expired-active now r h = ground arith

Evolves-recovery :
    (now : Instant) (xs : List Row)
    → Evolves now xs (update (is_expired now) (λ r. recovery r now r) xs)
Evolves-recovery now [] = Evolves.done
Evolves-recovery now (x ∷ xs) = elim (Bool-cases (is_expired now x)) [
  | inl hit ↦
      subst (Evolves now (x ∷ xs))
        (sym (update-hit (is_expired now) (λ r. recovery r now r) x xs hit))
        (Evolves.move (recovery-Move x now (is_expired-active now x hit)) (Evolves-recovery now xs))
  | inr miss ↦
      subst (Evolves now (x ∷ xs))
        (sym (update-miss (is_expired now) (λ r. recovery r now r) x xs miss))
        (Evolves.stay x (Evolves-recovery now xs))
]

-- The table after `recover_expired_leases`.
pub recover-jobs :
    (now : Instant) (d : Database)
    → HasUniqueIds d.jobs
    → (recover_expired_leases now d).1.jobs ≡ update (is_expired now) (λ r. recovery r now r) d.jobs
unfolding recover_expired_leases
recover-jobs now d u = recover_each-select (is_expired now) now d.jobs u

pub recover-TableStep :
    (now : Instant) (d : Database)
    → HasUniqueIds d.jobs
    → TableStep now d (recover_expired_leases now d).1
unfolding recover_expired_leases
recover-TableStep now d u =
    TableStep.evolve
      (subst (Evolves now d.jobs) (sym (recover-jobs now d u)) (Evolves-recovery now d.jobs)) refl
