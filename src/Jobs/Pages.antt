-- ===== src/Jobs/Pages.antt =====
-- demo/jobs.py, `list_jobs`: what the pages are that a client gets by following `next_cursor`.
use stock_signal.Common.{
  ℕ, zero, suc, ◌≤◌, ◌<◌, ◌≡◌, refl, sym, ap, subst, ◌∙◌, Bool, true, ◌&&◌, Option, none, some,
  List, [], ◌∷◌, ◌++◌, ◌==◌, ltb, if◌then◌else◌, find?, find?-head, find?-tail, select, take,
  length, All, Bool-cases, inl, inr, arith,
}
use stock_signal.Common.Int.{ℤ}
use stock_signal.Jobs.Data.{Text, Instant, Checked, Row, Database}
use stock_signal.Jobs.Monad.{Result, ok, err}
use stock_signal.Jobs.Owner.{Env, owned_row}
use stock_signal.Jobs.Reads.{
  Status, statuses, status_of, cons_status, newest_first, is_before, select_page, seq_or_invalid,
  before_seq, page_size, page_of, Page, list_jobs, last?, id_of,
}
use stock_signal.Jobs.Moves.{HasUniqueIds}
use stock_signal.Jobs.Invariant.{IsNumbered, IsValid}
use stock_signal.Jobs.Cut.{
  IsCut, cut, take-more, take-all, length-take_more, append_assoc, cut_whole, All-both,
  All-select_owned,
}
use stock_signal.Jobs.Order.{
  IsDescending, All-newest_first, newest_first-IsDescending, newest_first-select, select-after,
  select_all, All-middle,
}

abbrev pub append_runs : Result (List Status) → Result (List Status) → Result (List Status)
append_runs (err e) rest = err e
append_runs (ok xs) (err e) = err e
append_runs (ok xs) (ok ys) = ok (xs ++ ys)

-- The runs of a page, and what its cursor leads to.
abbrev pub runs_and_rest :
    List Status → Option Text → (Text → Result (List Status)) → Result (List Status)
runs_and_rest runs none next = ok runs
runs_and_rest runs (some c) next = append_runs (ok runs) (next c)

abbrev pub with_next : Result Page → (Text → Result (List Status)) → Result (List Status)
with_next (err e) next = err e
with_next (ok page) next = runs_and_rest page.runs page.next_cursor next

-- The runs of at most `fuel` pages.
unfoldable pub pages :
    ℕ → Env → Text → Option (Checked ℤ) → Option Text → Database → Result (List Status)
pages zero env owner limit cursor d = ok []
pages (suc fuel) env owner limit cursor d =
    with_next (list_jobs env owner limit cursor d).0 (λ c. pages fuel env owner limit (some c) d)

append_nothing : (r : Result (List Status)) → append_runs (ok []) r ≡ r
append_nothing (ok xs) = refl
append_nothing (err e) = refl

append_status :
    (s : Result Status) (xs ys : Result (List Status))
    → append_runs (cons_status s xs) ys ≡ cons_status s (append_runs xs ys)
append_status (err e) xs ys = refl
append_status (ok s) (err e) ys = refl
append_status (ok s) (ok xs) (err e) = refl
append_status (ok s) (ok xs) (ok ys) = refl

statuses-append : (xs ys : List Row) → statuses (xs ++ ys) ≡ append_runs (statuses xs) (statuses ys)
unfolding statuses
statuses-append [] ys = sym (append_nothing (statuses ys))
statuses-append (x ∷ xs) ys =
    rw (statuses-append xs ys) (sym (append_status (status_of x) (statuses xs) (statuses ys)))

-- The row of an id that an owner's query finds.
cursor_row :
    (own : Row → Bool) (xs : List Row)
    → HasUniqueIds xs
    → All (λ r. own r ≡ true → find? (λ y. y.id == r.id && own y) xs ≡ some r) xs
cursor_row own [] u = tt
cursor_row own (x ∷ xs) u = (
  λ h. find?-head (λ y. y.id == x.id && own y) x xs (ground arith),
  All-both _ _ _ xs
      (λ r ne later h. find?-tail (λ y. y.id == r.id && own y) x xs (ground arith) ∙ later h) u.0
      (cursor_row own xs u.1),
)

-- A page of its statuses.
abbrev page_with : Result (List Status) → Option Text → Result Page
page_with (err e) next = err e
page_with (ok runs) next = ok (record { runs = runs; next_cursor = next })

page_of_lem :
    (size : ℕ) (rows : List Row) (d : Database) (r : Result (List Status))
    → statuses (take size rows) ≡ r
    → (page_of size rows d).0
      ≡ page_with r (if ltb size (length rows) then id_of (last? (take size rows)) else none)
page_of_lem size rows d (ok runs) h = rw h refl
page_of_lem size rows d (err e) h = rw h refl

with_next-none :
    (r : Result (List Status)) (next : Text → Result (List Status))
    → with_next (page_with r none) next ≡ r
with_next-none (ok runs) next = refl
with_next-none (err e) next = refl

with_next-some :
    (r : Result (List Status)) (c : Text) (next : Text → Result (List Status))
    → with_next (page_with r (some c)) next ≡ append_runs r (next c)
with_next-some (ok runs) c next = refl
with_next-some (err e) c next = refl

owned_row-found :
    (env : Env) (owner : Text) (d : Database) (r : Row)
    → env.parse_uuid r.id ≡ some r.id
    → find? (λ y. y.id == r.id && y.owner_id == owner) d.jobs ≡ some r
    → owned_row env owner r.id d ≡ (ok r, d)
unfolding owned_row
owned_row-found env owner d r c e =
    let k : (r.id == r.id) ≡ true = ground arith in rw c (rw k (rw e refl))

joined_statuses :
    (n : ℕ) (xs ys : List Row) (r : Row) (zs : List Row) (rest : Result (List Status))
    → IsCut (suc n) xs ys r zs
    → rest ≡ statuses zs
    → append_runs (statuses (take (suc n) xs)) rest ≡ statuses xs
joined_statuses n xs ys r zs rest k h =
    ap (λ ts. append_runs (statuses ts) rest) k.page
    ∙ ap (append_runs (statuses (ys ++ r ∷ []))) h
    ∙ sym (statuses-append (ys ++ r ∷ []) zs)
    ∙ ap statuses (append_assoc ys (r ∷ []) zs)
    ∙ ap statuses (sym k.whole)

module _ (env : Env) (owner : Text) (d : Database) where
  -- The owner's rows, newest first.
  abbrev pub rows_of : List Row
  rows_of = newest_first (select (λ r. r.owner_id == owner) d.jobs)

  abbrev IsCursor : Row → Type 0
  IsCursor r = before_seq env owner (some r.id) d ≡ (ok (some r.seq), d)

  rows_of-IsCursor :
      HasUniqueIds d.jobs → All (λ r. env.parse_uuid r.id ≡ some r.id) d.jobs → All IsCursor rows_of
  rows_of-IsCursor u c = All-newest_first IsCursor _ (
      All-select_owned IsCursor _ d.jobs (
        All-both _ _ _ d.jobs
          (λ r canonical found own.
            ap seq_or_invalid (owned_row-found env owner d r canonical (found own)))
          c (cursor_row (λ r. r.owner_id == owner) d.jobs u)))

  -- The cursor's page starts with these rows.
  abbrev Leads : Option Text → List Row → Type 0
  Leads cursor xs =
      (before : Option ℕ) × (before_seq env owner cursor d ≡ (ok before, d))
      × (select (is_before before) rows_of ≡ xs)

  select_page-rows :
      (before : Option ℕ) (limit : ℕ)
      → IsNumbered 1 d.jobs d.next_seq
      → select_page owner before limit d ≡ take limit (select (is_before before) rows_of)
  select_page-rows before limit n =
      ap (take limit)
        (newest_first-select 1 d.next_seq (λ r. r.owner_id == owner) (is_before before) d.jobs n)

  list_jobs-page :
      (limit : Option (Checked ℤ)) (cursor : Option Text) (size : ℕ) (xs : List Row)
      → IsNumbered 1 d.jobs d.next_seq
      → page_size limit ≡ ok size
      → Leads cursor xs
      → list_jobs env owner limit cursor d ≡ page_of size (take (suc size) xs) d
  unfolding list_jobs
  list_jobs-page limit cursor size xs n p (before, b, e) =
      rw p (rw b (rw (select_page-rows before (suc size) n) (rw e refl)))

  page_lem :
      (limit : Option (Checked ℤ)) (cursor : Option Text) (size : ℕ) (xs : List Row)
      → IsNumbered 1 d.jobs d.next_seq
      → page_size limit ≡ ok size
      → Leads cursor xs
      → (list_jobs env owner limit cursor d).0
        ≡ page_with
            (statuses (take size xs))
            (if ltb size (length xs) then id_of (last? (take size xs)) else none)
  page_lem limit cursor size xs n p leads =
      ap (λ r. r.0) (list_jobs-page limit cursor size xs n p leads)
      ∙ page_of_lem size (take (suc size) xs) d (statuses (take size xs))
          (ap statuses (take-more size xs))
      ∙ rw (take-more size xs) (rw (length-take_more size xs) refl)

  next-Leads :
      (before xs : List Row) (r : Row)
      → IsDescending rows_of
      → All IsCursor rows_of
      → rows_of ≡ before ++ r ∷ xs
      → Leads (some r.id) xs
  next-Leads before xs r s c e = (
    some r.seq,
    All-middle IsCursor before r xs (subst (All IsCursor) e c),
    ap (select (λ x. ltb x.seq r.seq)) e ∙ select-after before r xs (subst IsDescending e s),
  )

  pages_from :
      (fuel n : ℕ) (limit : Option (Checked ℤ)) (cursor : Option Text) (before xs : List Row)
      → IsNumbered 1 d.jobs d.next_seq
      → IsDescending rows_of
      → All IsCursor rows_of
      → page_size limit ≡ ok (suc n)
      → rows_of ≡ before ++ xs
      → Leads cursor xs
      → length xs < fuel
      → pages fuel env owner limit cursor d ≡ statuses xs
  unfolding pages
  pages_from zero n limit cursor before xs o s c p e leads h = absurd (omega (arith, h))
  pages_from (suc fuel) n limit cursor before xs o s c p e leads h =
      elim (Bool-cases (ltb (suc n) (length xs))) [
        | inr last_page ↦
            rw (page_lem limit cursor (suc n) xs o p leads)
              (rw last_page (with_next-none _ _ ∙ ap statuses (take-all (suc n) xs (ground arith))))
        | inl more ↦
            let (ys, r, zs, k) = cut n xs more in
            let whole = cut_whole before xs ys r zs n e k in
            let rest =
              pages_from fuel n limit (some r.id) ((before ++ ys) ++ r ∷ []) zs o s c p
                (whole ∙ sym (append_assoc (before ++ ys) (r ∷ []) zs))
                (next-Leads (before ++ ys) zs r s c whole) (omega (arith, h, k.shorter)) in
            rw (page_lem limit cursor (suc n) xs o p leads) (
              rw more (
                rw k.last (
                  with_next-some (statuses (take (suc n) xs)) r.id
                    (λ x. pages fuel env owner limit (some x) d)
                  ∙ joined_statuses n xs ys r zs _ k rest)))
      ]

page_size-positive : (limit : Option (Checked ℤ)) (size : ℕ) → page_size limit ≡ ok size → 1 ≤ size
unfolding page_size
page_size-positive limit size h = ground arith

-- On a database of a history, whose ids are UUIDs, a client with a valid limit that follows
-- `next_cursor` from the first page on, for more pages than its owner has runs, gets the status of
-- each of the owner's runs, once and newest first, whatever the limit is.
pub pages-newest_first :
    (env : Env) (owner : Text) (limit : Option (Checked ℤ)) (now : Instant) (d : Database)
    (size fuel : ℕ)
    → IsValid now d
    → All (λ r. env.parse_uuid r.id ≡ some r.id) d.jobs
    → page_size limit ≡ ok size
    → length (newest_first (select (λ r. r.owner_id == owner) d.jobs)) < fuel
    → pages fuel env owner limit none d
      ≡ statuses (newest_first (select (λ r. r.owner_id == owner) d.jobs))
pages-newest_first env owner limit now d zero fuel v c p h =
    absurd (omega (arith, page_size-positive limit 0 p))
pages-newest_first env owner limit now d (suc n) fuel v c p h =
    pages_from env owner d fuel n limit none [] _ v.numbers
      (newest_first-IsDescending 1 d.next_seq (λ r. r.owner_id == owner) d.jobs v.numbers)
      (rows_of-IsCursor env owner d v.ids c) p refl
      (none, refl, select_all (λ r. true) _ (all_true _)) h
  where
    all_true : (xs : List Row) → All (λ x. true ≡ true) xs
    all_true [] = tt
    all_true (x ∷ xs) = (refl, all_true xs)
