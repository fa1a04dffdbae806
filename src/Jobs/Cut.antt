-- ===== src/Jobs/Cut.antt =====
-- demo/jobs.py, `list_jobs`: a list of rows cut after a page.
use stock_signal.Common.{
  ℕ, zero, suc, ◌≤◌, ◌<◌, ◌≡◌, refl, sym, ap, ◌∙◌, Bool, true, some, List, [], ◌∷◌, ◌++◌, ltb,
  select, take, length, All, Bool-cases, inl, inr, arith,
}
use stock_signal.Jobs.Data.{Row}
use stock_signal.Jobs.Reads.{last?}

pub All-both :
    (P Q R : Row → Type 0) (xs : List Row)
    → ((x : Row) → P x → Q x → R x)
    → All P xs
    → All Q xs
    → All R xs
All-both P Q R [] f h k = tt
All-both P Q R (x ∷ xs) f h k = (f x h.0 k.0, All-both P Q R xs f h.1 k.1)

pub All-select_owned :
    (P : Row → Type 0) (p : Row → Bool) (xs : List Row)
    → All (λ r. p r ≡ true → P r) xs
    → All P (select p xs)
All-select_owned P p [] h = tt
All-select_owned P p (x ∷ xs) h = elim (Bool-cases (p x)) [
  | inl hit ↦ rw hit (h.0 hit, All-select_owned P p xs h.1)
  | inr miss ↦ rw miss (All-select_owned P p xs h.1)
]

-- A list longer than a page, cut after the page.
pub record IsCut (n : ℕ) (xs : List Row) (ys : List Row) (r : Row) (zs : List Row) : Type 0 where
  pub page : take n xs ≡ ys ++ r ∷ []
  pub whole : xs ≡ ys ++ r ∷ zs
  pub last : last? (take n xs) ≡ some r
  pub shorter : length zs < length xs

IsCut-cons :
    (n : ℕ) (x y : Row) (xs ys : List Row) (r : Row) (zs : List Row)
    → IsCut (suc n) (y ∷ xs) ys r zs
    → IsCut (suc (suc n)) (x ∷ y ∷ xs) (x ∷ ys) r zs
IsCut-cons n x y xs ys r zs c = record {
  page = ap (λ ts. x ∷ ts) c.page;
  whole = ap (λ ts. x ∷ ts) c.whole;
  last = c.last;
  shorter = omega (arith, c.shorter);
}

pub cut :
    (n : ℕ) (xs : List Row)
    → ltb (suc n) (length xs) ≡ true
    → (ys : List Row) × (r : Row) × (zs : List Row) × IsCut (suc n) xs ys r zs
cut n [] h = absurd (ground arith)
cut n (x ∷ []) h = absurd (ground arith)
cut zero (x ∷ y ∷ xs) h =
    ([], x, y ∷ xs, record { page = refl; whole = refl; last = refl; shorter = omega arith })
cut (suc n) (x ∷ y ∷ xs) h =
    let (ys, r, zs, c) = cut n (y ∷ xs) (ground arith) in
    (x ∷ ys, r, zs, IsCut-cons n x y xs ys r zs c)

pub take-more : (n : ℕ) (xs : List Row) → take n (take (suc n) xs) ≡ take n xs
take-more zero xs = refl
take-more (suc n) [] = refl
take-more (suc n) (x ∷ xs) = ap (λ ys. x ∷ ys) (take-more n xs)

pub take-all : (n : ℕ) (xs : List Row) → length xs ≤ n → take n xs ≡ xs
take-all zero [] h = refl
take-all zero (x ∷ xs) h = absurd (omega (arith, h))
take-all (suc n) [] h = refl
take-all (suc n) (x ∷ xs) h = ap (λ ys. x ∷ ys) (take-all n xs (omega (arith, h)))

pub length-take_more :
    (n : ℕ) (xs : List Row) → ltb n (length (take (suc n) xs)) ≡ ltb n (length xs)
length-take_more zero [] = refl
length-take_more zero (x ∷ xs) = ground arith
length-take_more (suc n) [] = refl
length-take_more (suc n) (x ∷ xs) = let k = length-take_more n xs in ground arith

pub append_assoc : (xs ys zs : List Row) → (xs ++ ys) ++ zs ≡ xs ++ (ys ++ zs)
append_assoc [] ys zs = refl
append_assoc (x ∷ xs) ys zs = ap (λ ts. x ∷ ts) (append_assoc xs ys zs)

pub cut_whole :
    {rows : List Row} (before xs ys : List Row) (r : Row) (zs : List Row) (n : ℕ)
    → rows ≡ before ++ xs
    → IsCut (suc n) xs ys r zs
    → rows ≡ (before ++ ys) ++ r ∷ zs
cut_whole before xs ys r zs n e k =
    e ∙ ap (λ ts. before ++ ts) k.whole ∙ sym (append_assoc before ys (r ∷ zs))
