-- ===== src/Jobs/ClaimsLeft.antt =====
-- demo/jobs.py: how many claims the runs of the table can still take.
use stock_signal.Common.{
  ℕ, zero, suc, ◌+◌, ◌*◌, ◌≡◌, refl, sym, subst, ◌∙◌, Bool, true, false, none, some, List, [], ◌∷◌,
  length, All, update, find?, find?-cons, find?-head, find?-tail, ltb, ltb→lt, Bool-cases, inl, inr,
  arith,
}
use stock_signal.Jobs.Data.{
  Text, Instant, State, queued, running, Row, is_active, is_queued, max_attempts,
}
use stock_signal.Jobs.Lease.{recovery, is_expired, is_lapsed, start_attempt}
use stock_signal.Jobs.Recovery.{active-cases}
use stock_signal.Jobs.Lookups.{queued-cases}
use Prim.Native.Nat.{◌≤◌, ◌<◌}

-- How many claims a run in this state, after this many attempts, can still take.
abbrev left_of : State → ℕ → ℕ
left_of queued zero = 2
left_of queued (suc n) = 1
left_of running zero = 2
left_of running (suc zero) = 1
left_of _ _ = 0

abbrev pub claims_left : Row → ℕ
claims_left r = left_of r.state r.attempt

unfoldable pub total_left : List Row → ℕ
total_left [] = 0
total_left (x ∷ xs) = claims_left x + total_left xs

-- Each active run has a lease that has expired at the instant.
abbrev pub IsDue : Instant → Row → Type 0
IsDue now r = is_active r.state ≡ true → is_lapsed now r.lease_expires_at ≡ true

abbrev pub IsIdle : Row → Type 0
IsIdle r = is_active r.state ≡ false

pub claims_left-recovery :
    (r : Row) (now : Instant)
    → is_active r.state ≡ true
    → claims_left (recovery r now r) ≤ claims_left r
claims_left-recovery r now h = elim (active-cases r.state h) [
  | inl is ↦ elim (Bool-cases (ltb r.attempt max_attempts)) [
    | inl more ↦ rw (is, more, retried r.attempt (ltb→lt r.attempt 2 more)) (omega arith)
    | inr last ↦ rw (is, last) (omega arith)
  ]
  | inr is ↦ rw is (omega arith)
]
  where
    retried : (n : ℕ) → n < 2 → left_of queued n ≡ left_of running n
    retried zero h = refl
    retried (suc zero) h = refl
    retried (suc (suc n)) h = absurd (omega (arith, h))

pub recovery-IsIdle : (r x : Row) (now : Instant) → IsIdle (recovery r now x)
recovery-IsIdle r x now = ground arith

pub claims_left-start_attempt :
    (token : Text) (seconds : ℕ) (now : Instant) (r : Row)
    → is_queued r.state ≡ true
    → claims_left (start_attempt token seconds now r) < claims_left r
claims_left-start_attempt token seconds now r h =
    subst (λ s. left_of running (r.attempt + 1) < left_of s r.attempt)
      (sym (queued-cases r.state h)) (fewer r.attempt)
  where
    fewer : (n : ℕ) → left_of running (n + 1) < left_of queued n
    fewer zero = omega arith
    fewer (suc n) = ground arith

claims_left_bound : (r : Row) → claims_left r ≤ 2
claims_left_bound r = ground arith

claims_left_idle : (r : Row) → IsIdle r → is_queued r.state ≡ false → claims_left r ≡ 0
claims_left_idle r h k = ground arith

pub is_expired-active :
    (now : Instant) (r : Row) → is_expired now r ≡ true → is_active r.state ≡ true
unfolding is_expired
is_expired-active now r h = ground arith

pub unexpired-IsIdle : (r : Row) (now : Instant) → IsDue now r → is_expired now r ≡ false → IsIdle r
unfolding is_expired
unexpired-IsIdle r now due h = ground arith

pub total_left_bound : (xs : List Row) → total_left xs ≤ 2 * length xs
unfolding total_left
total_left_bound [] = omega arith
total_left_bound (x ∷ xs) = omega (arith, claims_left_bound x, total_left_bound xs)

-- An update that raises no row's count does not raise the total.
pub total_left-update :
    (q : Row → Bool) (f : Row → Row) (xs : List Row)
    → ((r : Row) → q r ≡ true → claims_left (f r) ≤ claims_left r)
    → total_left (update q f xs) ≤ total_left xs
unfolding total_left
total_left-update q f [] h = omega arith
total_left-update q f (x ∷ xs) h = elim (Bool-cases (q x)) [
  | inl hit ↦ rw hit (omega (arith, h x hit, total_left-update q f xs h))
  | inr miss ↦ rw miss (omega (arith, total_left-update q f xs h))
]

-- One that lowers the count of each row it passes, and passes a row that a query found, lowers it.
pub total_left-update-found :
    (p q : Row → Bool) (f : Row → Row) (xs : List Row) (r : Row)
    → ((y : Row) → q y ≡ true → claims_left (f y) < claims_left y)
    → find? p xs ≡ some r
    → q r ≡ true
    → total_left (update q f xs) < total_left xs
unfolding total_left
total_left-update-found p q f [] r h e k = cc
total_left-update-found p q f (x ∷ xs) r h e k = elim (find?-cons p x xs r e) [
  | inl (_, here) ↦
      let hit : q x ≡ true = subst (λ y. q y ≡ true) (sym here) k in
      let rest = total_left-update q f xs (λ y m. omega (arith, h y m)) in
      rw hit (omega (arith, h x hit, rest))
  | inr (_, later) ↦
      let rest = total_left-update-found p q f xs r h later k in
      elim (Bool-cases (q x)) [
        | inl hit ↦ rw hit (omega (arith, h x hit, rest))
        | inr miss ↦ rw miss (omega (arith, rest))
      ]
]

pub total_left_idle :
    (xs : List Row) → All IsIdle xs → find? (λ r. is_queued r.state) xs ≡ none → total_left xs ≡ 0
unfolding total_left
total_left_idle [] h e = refl
total_left_idle (x ∷ xs) h e = elim (Bool-cases (is_queued x.state)) [
  | inl hit ↦ cc (find?-head (λ r. is_queued r.state) x xs hit)
  | inr miss ↦
      let rest : find? (λ r. is_queued r.state) xs ≡ none =
        sym (find?-tail (λ r. is_queued r.state) x xs miss) ∙ e in
      omega (arith, claims_left_idle x h.0 miss, total_left_idle xs h.1 rest)
]

pub All-update :
    (P Q : Row → Type 0) (q : Row → Bool) (f : Row → Row) (xs : List Row)
    → ((r : Row) → P r → q r ≡ true → Q (f r))
    → ((r : Row) → P r → q r ≡ false → Q r)
    → All P xs
    → All Q (update q f xs)
All-update P Q q f [] hit miss h = tt
All-update P Q q f (x ∷ xs) hit miss h = elim (Bool-cases (q x)) [
  | inl e ↦ rw e (hit x h.0 e, All-update P Q q f xs hit miss h.1)
  | inr e ↦ rw e (miss x h.0 e, All-update P Q q f xs hit miss h.1)
]
