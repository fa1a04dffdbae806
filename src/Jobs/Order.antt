-- ===== src/Jobs/Order.antt =====
-- demo/jobs.py, `list_jobs`: the rows in the order of the page, newest first.
use stock_signal.Common.{
  ℕ, ◌+◌, ◌<◌, ◌≡◌, refl, sym, ap, subst, ◌∙◌, Bool, true, false, ◌&&◌, List, [], ◌∷◌, ◌++◌, ltb,
  select, All, All-map, Pairwise, Pairwise-append, Bool-cases, inl, inr, arith,
}
use stock_signal.Jobs.Data.{Row}
use stock_signal.Jobs.Reads.{insert_newest, newest_first}
use stock_signal.Jobs.Invariant.{IsNumbered}
use stock_signal.Jobs.Tables.{IsNumbered-All}

abbrev pub IsDescending : List Row → Type 0
IsDescending = Pairwise (λ x y. y.seq < x.seq)

pub All-select :
    (P : Row → Type 0) (p : Row → Bool) (xs : List Row) → All P xs → All P (select p xs)
All-select P p [] h = tt
All-select P p (x ∷ xs) h = elim (Bool-cases (p x)) [
  | inl hit ↦ rw hit (h.0, All-select P p xs h.1)
  | inr miss ↦ rw miss (All-select P p xs h.1)
]

All-insert_newest :
    (P : Row → Type 0) (r : Row) (xs : List Row) → P r → All P xs → All P (insert_newest r xs)
All-insert_newest P r [] k h = (k, tt)
All-insert_newest P r (x ∷ xs) k h = elim (Bool-cases (ltb x.seq r.seq)) [
  | inl first ↦ rw first (k, h)
  | inr later ↦ rw later (h.0, All-insert_newest P r xs k h.1)
]

pub All-newest_first : (P : Row → Type 0) (xs : List Row) → All P xs → All P (newest_first xs)
unfolding newest_first
All-newest_first P [] h = tt
All-newest_first P (x ∷ xs) h =
    All-insert_newest P x (newest_first xs) h.0 (All-newest_first P xs h.1)

-- The row with the lowest number goes to the end.
insert_newest-lowest :
    (r : Row) (xs : List Row) → All (λ x. r.seq < x.seq) xs → insert_newest r xs ≡ xs ++ r ∷ []
insert_newest-lowest r [] h = refl
insert_newest-lowest r (x ∷ xs) h =
    let e : ltb x.seq r.seq ≡ false = ground arith in
    rw e (ap (λ ys. x ∷ ys) (insert_newest-lowest r xs h.1))

select-append :
    (p : Row → Bool) (xs ys : List Row) → select p (xs ++ ys) ≡ select p xs ++ select p ys
select-append p [] ys = refl
select-append p (x ∷ xs) ys = elim (Bool-cases (p x)) [
  | inl hit ↦ rw hit (ap (λ zs. x ∷ zs) (select-append p xs ys))
  | inr miss ↦ rw miss (select-append p xs ys)
]

append_nil : (xs : List Row) → xs ++ [] ≡ xs
append_nil [] = refl
append_nil (x ∷ xs) = ap (λ ys. x ∷ ys) (append_nil xs)

later_rows :
    (lo hi : ℕ) (x : Row) (xs : List Row) (p : Row → Bool)
    → IsNumbered lo (x ∷ xs) hi
    → All (λ y. x.seq < y.seq) (newest_first (select p xs))
later_rows lo hi x xs p n = All-newest_first _ _ (
    All-select _ p xs
      (All-map _ _ xs (λ y k. omega (arith, k)) (IsNumbered-All (x.seq + 1) hi xs n.1)))

newest_first-cons :
    (lo hi : ℕ) (x : Row) (xs : List Row) (p : Row → Bool)
    → IsNumbered lo (x ∷ xs) hi
    → newest_first (x ∷ select p xs) ≡ newest_first (select p xs) ++ x ∷ []
unfolding newest_first
newest_first-cons lo hi x xs p n = insert_newest-lowest x _ (later_rows lo hi x xs p n)

pub newest_first-IsDescending :
    (lo hi : ℕ) (p : Row → Bool) (xs : List Row)
    → IsNumbered lo xs hi
    → IsDescending (newest_first (select p xs))
unfolding newest_first
newest_first-IsDescending lo hi p [] n = tt
newest_first-IsDescending lo hi p (x ∷ xs) n =
    let rest = newest_first-IsDescending (x.seq + 1) hi p xs n.1 in
    elim (Bool-cases (p x)) [
      | inl hit ↦ rw hit (
          subst IsDescending (sym (newest_first-cons lo hi x xs p n))
            (Pairwise-append _ _ x rest (later_rows lo hi x xs p n)))
      | inr miss ↦ rw miss rest
    ]

-- A condition more on the rows is a condition more on the sorted rows.
pub newest_first-select :
    (lo hi : ℕ) (p q : Row → Bool) (xs : List Row)
    → IsNumbered lo xs hi
    → newest_first (select (λ r. p r && q r) xs) ≡ select q (newest_first (select p xs))
unfolding newest_first
newest_first-select lo hi p q [] n = refl
newest_first-select lo hi p q (x ∷ xs) n =
    let rest = newest_first-select (x.seq + 1) hi p q xs n.1 in
    elim (Bool-cases (p x)) [
      | inr miss ↦ rw miss rest
      | inl hit ↦ elim (Bool-cases (q x)) [
        | inl both ↦ rw hit (
            rw both (
              newest_first-cons lo hi x xs (λ r. p r && q r) n
              ∙ ap (λ ys. ys ++ x ∷ []) rest
              ∙ sym (
                  ap (select q) (newest_first-cons lo hi x xs p n)
                  ∙ select-append q _ (x ∷ [])
                  ∙ ap (λ ys. select q (newest_first (select p xs)) ++ ys) (select_one q x both))))
        | inr only ↦ rw hit (
            rw only (
              rest
              ∙ sym (
                  ap (select q) (newest_first-cons lo hi x xs p n)
                  ∙ select-append q _ (x ∷ [])
                  ∙ ap (λ ys. select q (newest_first (select p xs)) ++ ys) (select_not q x only)
                  ∙ append_nil _)))
      ]
    ]
  where
    select_one : (q : Row → Bool) (x : Row) → q x ≡ true → select q (x ∷ []) ≡ x ∷ []
    select_one q x h = rw h refl

    select_not : (q : Row → Bool) (x : Row) → q x ≡ false → select q (x ∷ []) ≡ []
    select_not q x h = rw h refl

pub select_all : (q : Row → Bool) (xs : List Row) → All (λ x. q x ≡ true) xs → select q xs ≡ xs
select_all q [] h = refl
select_all q (x ∷ xs) h = rw (h.0) (ap (λ ys. x ∷ ys) (select_all q xs h.1))

pub All-middle :
    (P : Row → Type 0) (xs : List Row) (r : Row) (ys : List Row) → All P (xs ++ r ∷ ys) → P r
All-middle P [] r ys h = h.0
All-middle P (x ∷ xs) r ys h = All-middle P xs r ys h.1

-- The rows below a row are those that stand after it.
pub select-after :
    (xs : List Row) (r : Row) (ys : List Row)
    → IsDescending (xs ++ r ∷ ys)
    → select (λ x. ltb x.seq r.seq) (xs ++ r ∷ ys) ≡ ys
select-after [] r ys h =
    let e : ltb r.seq r.seq ≡ false = ground arith in
    rw e (select_all (λ x. ltb x.seq r.seq) ys (All-map _ _ ys (λ x k. ground arith) h.0))
select-after (x ∷ xs) r ys h =
    let k = All-middle (λ y. y.seq < x.seq) xs r ys h.0 in
    let e : ltb x.seq r.seq ≡ false = ground arith in rw e (select-after xs r ys h.1)
