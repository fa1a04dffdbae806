-- ===== src/Cashflows/Following.antt =====
-- trades/cashflows.py, `_accepted_actions`: the loop from the root follows a chain.
use mathlib.Core.Option.{some-injective}
use stock_signal.Common.{
  ℕ, zero, suc, ◌≡◌, refl, sym, subst, Bool, true, false, Option, none, some, List, [], ◌∷◌, ◌==◌,
  All, All-map, any, select, Bool-cases, inl, inr, ◌⊎◌, arith,
}
use stock_signal.Cashflows.Base.{Text, same_text?}
use stock_signal.Cashflows.Records.{DistributionAction}
use stock_signal.Cashflows.Revisions.{supersedes, without, only_child, follow}

-- Each revision of the path supersedes the one before it, and the path ends at the last.
abbrev pub Chain : DistributionAction → List DistributionAction → DistributionAction → Type 0
Chain current [] last = current ≡ last
Chain current (r ∷ rs) last = (r.supersedes_revision ≡ some current.revision_id) × Chain r rs last

-- The revision is one of these.
abbrev pub IsAmong : List DistributionAction → DistributionAction → Type 0
IsAmong [] x = ⊥
IsAmong (y ∷ ys) x = (y ≡ x) ⊎ IsAmong ys x

-- The revision's id stands among these.
abbrev pub Covered : List DistributionAction → DistributionAction → Type 0
Covered path x = any (λ p. p.revision_id == x.revision_id) path ≡ true

pub only_child-some :
    (cs : List DistributionAction) (k : DistributionAction → Option DistributionAction)
    (v : DistributionAction)
    → only_child cs k ≡ some v
    → (c : DistributionAction) × (cs ≡ c ∷ []) × (k c ≡ some v)
only_child-some [] k v h = cc
only_child-some (c ∷ []) k v h = (c, refl, h)
only_child-some (c ∷ d ∷ cs) k v h = cc

select_passes :
    (p : DistributionAction → Bool) (xs : List DistributionAction)
    → All (λ y. p y ≡ true) (select p xs)
select_passes p [] = tt
select_passes p (x ∷ xs) = elim (Bool-cases (p x)) [
  | inl hit ↦ rw hit (hit, select_passes p xs)
  | inr miss ↦ rw miss (select_passes p xs)
]

pub one_selected :
    (p : DistributionAction → Bool) (xs : List DistributionAction) (c : DistributionAction)
    → select p xs ≡ c ∷ []
    → p c ≡ true
one_selected p xs c e =
    let h : All (λ y. p y ≡ true) (c ∷ []) = subst (All (λ y. p y ≡ true)) e (select_passes p xs) in
    h.0

pub without-same :
    (id : Text) (x : DistributionAction) (xs : List DistributionAction)
    → x.revision_id == id ≡ true
    → without id (x ∷ xs) ≡ without id xs
without-same id x xs h = rw h refl

pub without-other :
    (id : Text) (x : DistributionAction) (xs : List DistributionAction)
    → x.revision_id == id ≡ false
    → without id (x ∷ xs) ≡ x ∷ without id xs
without-other id x xs h = rw h refl

IsAmong-cons :
    (y x : DistributionAction) (xs ys : List DistributionAction)
    → (IsAmong xs x → IsAmong ys x)
    → IsAmong (y ∷ xs) x
    → IsAmong (y ∷ ys) x
IsAmong-cons y x xs ys f (inl here) = inl here
IsAmong-cons y x xs ys f (inr later) = inr (f later)

select-IsAmong :
    (p : DistributionAction → Bool) (xs : List DistributionAction) (x : DistributionAction)
    → IsAmong (select p xs) x
    → IsAmong xs x
select-IsAmong p [] x h = h
select-IsAmong p (y ∷ ys) x h = elim (Bool-cases (p y)) [
  | inl hit ↦
      let k : IsAmong (y ∷ select p ys) x = rw hit at h in
      IsAmong-cons y x (select p ys) ys (select-IsAmong p ys x) k
  | inr miss ↦ let k : IsAmong (select p ys) x = rw miss at h in inr (select-IsAmong p ys x k)
]

pub only_selected :
    (p : DistributionAction → Bool) (xs : List DistributionAction) (c : DistributionAction)
    → select p xs ≡ c ∷ []
    → IsAmong xs c
only_selected p xs c e = select-IsAmong p xs c (subst (λ ys. IsAmong ys c) (sym e) (inl refl))

pub without-IsAmong :
    (id : Text) (xs : List DistributionAction) (x : DistributionAction)
    → IsAmong (without id xs) x
    → IsAmong xs x
without-IsAmong id [] x h = h
without-IsAmong id (y ∷ ys) x h = elim (Bool-cases (y.revision_id == id)) [
  | inl same ↦
      inr (without-IsAmong id ys x (subst (λ zs. IsAmong zs x) (without-same id y ys same) h))
  | inr other ↦
      IsAmong-cons y x (without id ys) ys (without-IsAmong id ys x)
        (subst (λ zs. IsAmong zs x) (without-other id y ys other) h)
]

pub Covered-next :
    (c : DistributionAction) (path : List DistributionAction) (x : DistributionAction)
    → Covered path x
    → Covered (c ∷ path) x
Covered-next c path x h = ground arith

same_text?-some : (o : Option Text) (t : Text) → same_text? o (some t) ≡ true → o ≡ some t
same_text?-some none t h = cc
same_text?-some (some a) t h = ground arith

pub same_text?-none : (o : Option Text) → same_text? o none ≡ true → o ≡ none
same_text?-none none h = refl
same_text?-none (some a) h = cc

-- What is covered without a revision is covered with it.
pub without-Covered :
    (c : DistributionAction) (path xs : List DistributionAction)
    → All (Covered path) (without c.revision_id xs)
    → All (Covered (c ∷ path)) xs
without-Covered c path [] h = tt
without-Covered c path (x ∷ xs) h = elim (Bool-cases (x.revision_id == c.revision_id)) [
  | inl here ↦ (
    ground arith,
    without-Covered c path xs (subst (All (Covered path)) (without-same c.revision_id x xs here) h),
  )
  | inr away ↦
      let k = subst (All (Covered path)) (without-other c.revision_id x xs away) h in
      (Covered-next c path x k.0, without-Covered c path xs k.1)
]

pub follow-Chain :
    (fuel : ℕ) (current : DistributionAction) (remaining : List DistributionAction)
    (last : DistributionAction)
    → follow fuel current remaining ≡ some last
    → (path : List DistributionAction) × Chain current path last
      × All (Covered path) remaining
      × All (IsAmong remaining) path
unfolding follow
follow-Chain fuel current [] last h = ([], some-injective current last h, tt, tt)
follow-Chain zero current (x ∷ xs) last h = cc
follow-Chain (suc fuel) current (x ∷ xs) last h =
    let (child, one, rest) = only_child-some (select (supersedes current) (x ∷ xs)) _ last h in
    let (path, chain, covered, given) =
      follow-Chain fuel child (without child.revision_id (x ∷ xs)) last rest in
    (
      child ∷ path,
      (
        same_text?-some child.supersedes_revision current.revision_id
            (one_selected (supersedes current) (x ∷ xs) child one),
        chain,
      ),
      without-Covered child path (x ∷ xs) covered,
      (
        only_selected (supersedes current) (x ∷ xs) child one,
        All-map _ _ path (without-IsAmong child.revision_id (x ∷ xs)) given,
      ),
    )
