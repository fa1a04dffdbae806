-- ===== src/Cashflows/Chains.antt =====
-- trades/cashflows.py, `_accepted_actions`: the accepted revision ends a chain of all revisions.
use mathlib.Core.Option.{some-injective}
use stock_signal.Common.{
  ℕ, ◌≡◌, refl, sym, ap, subst, ◌∙◌, Bool, true, false, Option, none, some, List, [], ◌∷◌, ◌++◌,
  ◌==◌, All, All-map, any, find?, find?-test, find?-All, select, length, Bool-cases, Option-cases,
  if◌then◌else◌, inl, inr, ◌⊎◌, arith,
}
use stock_signal.Cashflows.Records.{DistributionAction}
use stock_signal.Cashflows.Revisions.{
  same_action, add_revision, with_kept, by_revision, is_root, without, last_of, last_revision,
  accepted_revision_of,
}
use stock_signal.Cashflows.Following.{
  Chain, IsAmong, Covered, only_child-some, one_selected, only_selected, without-IsAmong,
  same_text?-none, Covered-next, without-Covered, follow-Chain,
}

last_and_rest :
    (P : DistributionAction → Type 0) (xs : List DistributionAction) (y : DistributionAction)
    → All P (xs ++ y ∷ [])
    → P y × All P xs
last_and_rest P [] y h = (h.0, tt)
last_and_rest P (x ∷ xs) y h = let (a, b) = last_and_rest P xs y h.1 in (a, (h.0, b))

if_kept :
    (c : Bool) (kept next : List DistributionAction)
    → (if c then some kept else none) ≡ some next
    → kept ≡ next
if_kept true kept next h = some-injective kept next h
if_kept false kept next h = cc

of_test : (a b : ℕ) → (a == b) ≡ true → a ≡ b
of_test a b h = ground arith

-- The revisions that are kept cover those that were given.
add_revision-Covered :
    (kept : List DistributionAction) (r : DistributionAction)
    (next values : List DistributionAction)
    → add_revision (find? (λ k. k.revision_id == r.revision_id) kept) r kept ≡ some next
    → All (Covered values) next
    → Covered values r × All (Covered values) kept
add_revision-Covered kept r next values h c =
    elim (Option-cases (find? (λ k. k.revision_id == r.revision_id) kept)) [
      | inl new ↦ last_and_rest (Covered values) kept r (
          subst (All (Covered values))
            (sym (
              some-injective (kept ++ r ∷ []) next (sym (ap (λ o. add_revision o r kept) new) ∙ h)))
            c)
      | inr (prior, e) ↦
          let same : kept ≡ next =
            if_kept (same_action prior r) kept next (sym (ap (λ o. add_revision o r kept) e) ∙ h) in
          let all = subst (All (Covered values)) (sym same) c in
          let id : prior.revision_id ≡ r.revision_id =
            of_test prior.revision_id r.revision_id
              (find?-test (λ k. k.revision_id == r.revision_id) kept prior e) in
          (
            subst (λ t. any (λ p. p.revision_id == t) values ≡ true) id
                (find?-All (Covered values) (λ k. k.revision_id == r.revision_id) kept prior all e),
            all,
          )
    ]

by_revision-Covered :
    (revisions kept values : List DistributionAction)
    → by_revision revisions kept ≡ some values
    → All (Covered values) values
    → All (Covered values) revisions × All (Covered values) kept
unfolding by_revision
by_revision-Covered [] kept values h c =
    (tt, subst (All (Covered values)) (sym (some-injective kept values h)) c)
by_revision-Covered (r ∷ rest) kept values h c =
    elim (Option-cases (add_revision (find? (λ k. k.revision_id == r.revision_id) kept) r kept)) [
      | inl differs ↦
          absurd (none-≢-some (sym (ap (λ o. with_kept o (by_revision rest)) differs) ∙ h))
      | inr (next, e) ↦
          let (later, all) =
            by_revision-Covered rest next values
              (sym (ap (λ o. with_kept o (by_revision rest)) e) ∙ h) c in
          let (now, before) = add_revision-Covered kept r next values e all in
          ((now, later), before)
    ]
  where
    none-≢-some : {x : List DistributionAction} → none ≡ some x → ⊥
    none-≢-some e = cc

append-IsAmong :
    (xs : List DistributionAction) (y x : DistributionAction)
    → IsAmong (xs ++ y ∷ []) x
    → IsAmong xs x ⊎ (y ≡ x)
append-IsAmong [] y x (inl here) = inr here
append-IsAmong [] y x (inr later) = absurd later
append-IsAmong (z ∷ zs) y x (inl here) = inl (inl here)
append-IsAmong (z ∷ zs) y x (inr later) = elim (append-IsAmong zs y x later) [
  | inl old ↦ inl (inr old)
  | inr new ↦ inr new
]

-- Nothing is kept that was not given.
add_revision-given :
    (o : Option DistributionAction) (r x : DistributionAction) (kept next : List DistributionAction)
    → add_revision o r kept ≡ some next
    → IsAmong next x
    → IsAmong kept x ⊎ (r ≡ x)
add_revision-given none r x kept next h k =
    append-IsAmong kept r x
      (subst (λ zs. IsAmong zs x) (sym (some-injective (kept ++ r ∷ []) next h)) k)
add_revision-given (some prior) r x kept next h k =
    inl (subst (λ zs. IsAmong zs x) (sym (if_kept (same_action prior r) kept next h)) k)

by_revision-given :
    (revisions kept values : List DistributionAction) (x : DistributionAction)
    → by_revision revisions kept ≡ some values
    → IsAmong values x
    → IsAmong revisions x ⊎ IsAmong kept x
unfolding by_revision
by_revision-given [] kept values x h k =
    inr (subst (λ zs. IsAmong zs x) (sym (some-injective kept values h)) k)
by_revision-given (r ∷ rest) kept values x h k =
    let seen = find? (λ y. y.revision_id == r.revision_id) kept in
    elim (Option-cases (add_revision seen r kept)) [
      | inl differs ↦ absurd (cc (sym (ap (λ o. with_kept o (by_revision rest)) differs) ∙ h))
      | inr (next, e) ↦ earlier next e (
          by_revision-given rest next values x
            (sym (ap (λ o. with_kept o (by_revision rest)) e) ∙ h) k)
    ]
  where
    earlier :
        (next : List DistributionAction)
        → add_revision (find? (λ y. y.revision_id == r.revision_id) kept) r kept ≡ some next
        → IsAmong rest x ⊎ IsAmong next x
        → IsAmong (r ∷ rest) x ⊎ IsAmong kept x
    earlier next e (inl later) = inl (inr later)
    earlier next e (inr now) =
        elim (add_revision-given (find? (λ y. y.revision_id == r.revision_id) kept) r x kept next e
          now) [ inl old ↦ inr old | inr new ↦ inl (inl new) ]

covers_itself : (xs : List DistributionAction) → All (Covered xs) xs
covers_itself [] = tt
covers_itself (x ∷ xs) =
    (ground arith, All-map _ _ xs (λ y h. Covered-next x xs y h) (covers_itself xs))

last_of-Chain :
    (values : List DistributionAction) (last : DistributionAction)
    → last_of values ≡ some last
    → (first : DistributionAction) × (path : List DistributionAction) × (first.supersedes_revision
        ≡ none)
      × Chain first path last
      × All (Covered (first ∷ path)) values
      × All (IsAmong values) (first ∷ path)
last_of-Chain values last h =
    let (root, one, rest) = only_child-some (select is_root values) _ last h in
    let (path, chain, covered, given) =
      follow-Chain (length values) root (without root.revision_id values) last rest in
    (
      root,
      path,
      same_text?-none root.supersedes_revision (one_selected is_root values root one),
      chain,
      without-Covered root path values covered,
      (
        only_selected is_root values root one,
        All-map _ _ path (without-IsAmong root.revision_id values) given,
      ),
    )

Covered-through :
    (path values : List DistributionAction) (r : DistributionAction)
    → Covered values r
    → All (Covered path) values
    → Covered path r
Covered-through path [] r c h = cc
Covered-through path (v ∷ vs) r c h = elim (Bool-cases (v.revision_id == r.revision_id)) [
  | inl here ↦
      subst (λ t. any (λ p. p.revision_id == t) path ≡ true)
        (of_test v.revision_id r.revision_id here) h.0
  | inr away ↦ Covered-through path vs r (ground arith) h.1
]

All-Covered :
    (path values revisions : List DistributionAction)
    → All (Covered values) revisions
    → All (Covered path) values
    → All (Covered path) revisions
All-Covered path values [] h k = tt
All-Covered path values (r ∷ rs) h k =
    (Covered-through path values r h.0 k, All-Covered path values rs h.1 k)

-- The chain that an accepted revision ends; a single revision may name one that is not given.
pub record EndsChain (revisions : List DistributionAction) (last : DistributionAction)
    : Type 0 where
  pub first : DistributionAction
  pub path : List DistributionAction
  pub starts : (first.supersedes_revision ≡ none) ⊎ (path ≡ [])
  pub chain : Chain first path last
  pub given : All (IsAmong revisions) (first ∷ path)
  pub covers : All (Covered (first ∷ path)) revisions

last_revision-EndsChain :
    (values : List DistributionAction) (last : DistributionAction)
    → last_revision (some values) ≡ some last
    → EndsChain values last
last_revision-EndsChain [] last h = absurd (cc h)
last_revision-EndsChain (r ∷ []) last h = record {
  first = r;
  path = [];
  starts = inr refl;
  chain = some-injective r last h;
  given = (inl refl, tt);
  covers = covers_itself (r ∷ []);
}
last_revision-EndsChain (r ∷ s ∷ rest) last h =
    let (first, path, root, chain, covered, given) = last_of-Chain (r ∷ s ∷ rest) last h in
    record {
      first = first;
      path = path;
      starts = inl root;
      chain = chain;
      given = given;
      covers = covered;
    }

kept-EndsChain :
    (revisions : List DistributionAction) (o : Option (List DistributionAction))
    (last : DistributionAction)
    → by_revision revisions [] ≡ o
    → last_revision o ≡ some last
    → EndsChain revisions last
kept-EndsChain revisions none last e h = absurd (cc h)
kept-EndsChain revisions (some values) last e h =
    let c = last_revision-EndsChain values last h in
    let (all, _) = by_revision-Covered revisions [] values e (covers_itself values) in
    record {
      first = c.first;
      path = c.path;
      starts = c.starts;
      chain = c.chain;
      given =
          All-map _ _ (c.first ∷ c.path)
            (λ x k. all_given x (by_revision-given revisions [] values x e k)) c.given;
      covers = All-Covered (c.first ∷ c.path) values revisions all c.covers;
    }
  where
    all_given : (x : DistributionAction) → IsAmong revisions x ⊎ IsAmong [] x → IsAmong revisions x
    all_given x (inl h) = h
    all_given x (inr h) = absurd h

-- Where a revision is accepted of some revisions of an action, in whatever order they are given,
-- the given ones form a chain: it consists of given revisions, starts at one that supersedes none,
-- or has one revision alone, each of it supersedes the one before, it ends at the accepted one, and
-- the id of every given revision stands in it.
pub accepted_revision_of-EndsChain :
    (revisions : List DistributionAction) (last : DistributionAction)
    → accepted_revision_of revisions ≡ some last
    → EndsChain revisions last
unfolding accepted_revision_of
accepted_revision_of-EndsChain revisions last h =
    kept-EndsChain revisions (by_revision revisions []) last refl h
