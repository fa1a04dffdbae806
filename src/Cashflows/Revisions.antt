-- ===== src/Cashflows/Revisions.antt =====
-- trades/cashflows.py: `_accepted_actions`, which picks the last revision of each action.
use stock_signal.Common.{
  ℕ, zero, suc, Bool, true, false, not, ◌&&◌, Option, none, some, List, [], ◌∷◌, ◌++◌, leb, ◌==◌,
  if◌then◌else◌, select, find?, length,
}
use stock_signal.Cashflows.Base.{Text, same_text?}
use stock_signal.Cashflows.Records.{DistributionAction}
use stock_signal.Cashflows.Entitlements.{same_amount?}

-- `prior != revision`, field by field.
abbrev pub same_flag : Bool → Bool → Bool
same_flag true b = b
same_flag false b = not b

unfoldable pub same_action : DistributionAction → DistributionAction → Bool
same_action a b =
    a.action_id == b.action_id
    && (a.symbol == b.symbol
        && (a.ex_at == b.ex_at
            && (same_amount? a.per_share b.per_share
                && (same_text? a.currency b.currency
                    && (a.revision_id == b.revision_id
                        && (same_text? a.supersedes_revision b.supersedes_revision
                            && (same_text? a.knowledge_at b.knowledge_at
                                && same_flag a.cancelled b.cancelled)))))))

-- `grouped.setdefault(action_id, []).append(action)`
abbrev pub add_to_group :
    DistributionAction
    → List (Text × List DistributionAction)
    → List (Text × List DistributionAction)
add_to_group a [] = (a.action_id, a ∷ []) ∷ []
add_to_group a ((id, revisions) ∷ groups) =
    let rest = add_to_group a groups in
    if id == a.action_id then (id, revisions ++ a ∷ []) ∷ groups else (id, revisions) ∷ rest

unfoldable pub grouped_from :
    List DistributionAction
    → List (Text × List DistributionAction)
    → List (Text × List DistributionAction)
grouped_from [] groups = groups
grouped_from (a ∷ rest) groups = grouped_from rest (add_to_group a groups)

-- The loop that makes `by_revision`; none once a revision differs from the one of its id.
abbrev pub add_revision :
    Option DistributionAction
    → DistributionAction
    → List DistributionAction
    → Option (List DistributionAction)
add_revision none r kept = some (kept ++ r ∷ [])
add_revision (some prior) r kept = if same_action prior r then some kept else none

abbrev pub with_kept :
    Option (List DistributionAction)
    → (List DistributionAction → Option (List DistributionAction))
    → Option (List DistributionAction)
with_kept none rest = none
with_kept (some kept) rest = rest kept

unfoldable pub by_revision :
    List DistributionAction → List DistributionAction → Option (List DistributionAction)
by_revision [] kept = some kept
by_revision (r ∷ rest) kept =
    with_kept (add_revision (find? (λ k. k.revision_id == r.revision_id) kept) r kept)
      (by_revision rest)

abbrev pub is_root : DistributionAction → Bool
is_root r = same_text? r.supersedes_revision none

abbrev pub supersedes : DistributionAction → DistributionAction → Bool
supersedes current r = same_text? r.supersedes_revision (some current.revision_id)

-- `del remaining[revision_id]`
abbrev pub without : Text → List DistributionAction → List DistributionAction
without id = select (λ r. not (r.revision_id == id))

-- A list of one alone.
abbrev pub only_child :
    List DistributionAction
    → (DistributionAction → Option DistributionAction)
    → Option DistributionAction
only_child [] k = none
only_child (c ∷ []) k = k c
only_child (c ∷ d ∷ cs) k = none

-- The `while remaining` loop with its `else`; none where it breaks, or where the fuel is used.
unfoldable pub follow : ℕ → DistributionAction → List DistributionAction → Option DistributionAction
follow fuel current [] = some current
follow zero current (x ∷ xs) = none
follow (suc fuel) current (x ∷ xs) =
    only_child (select (supersedes current) (x ∷ xs))
      (λ child. follow fuel child (without child.revision_id (x ∷ xs)))

-- What follows `by_revision`; none is a conflict.
abbrev pub last_of : List DistributionAction → Option DistributionAction
last_of values =
    only_child (select is_root values)
      (λ root. follow (length values) root (without root.revision_id values))

abbrev pub last_revision : Option (List DistributionAction) → Option DistributionAction
last_revision none = none
last_revision (some []) = none
last_revision (some (r ∷ [])) = some r
last_revision (some (r ∷ s ∷ rest)) = last_of (r ∷ s ∷ rest)

unfoldable pub accepted_revision_of : List DistributionAction → Option DistributionAction
accepted_revision_of revisions = last_revision (by_revision revisions [])

-- `sorted(set(conflicts))`
abbrev pub insert_conflict : Text → List Text → List Text
insert_conflict a [] = a ∷ []
insert_conflict a (b ∷ bs) =
    let rest = insert_conflict a bs in
    if a == b then b ∷ bs else if leb a b then a ∷ b ∷ bs else b ∷ rest

abbrev pub add_accepted :
    Text
    → Option DistributionAction
    → List DistributionAction × List Text
    → List DistributionAction × List Text
add_accepted id none (accepted, conflicts) = (accepted, insert_conflict id conflicts)
add_accepted id (some a) (accepted, conflicts) = (a ∷ accepted, conflicts)

unfoldable pub accepted_of_groups :
    List (Text × List DistributionAction) → List DistributionAction × List Text
accepted_of_groups [] = ([], [])
accepted_of_groups ((id, revisions) ∷ groups) =
    add_accepted id (accepted_revision_of revisions) (accepted_of_groups groups)

unfoldable pub accepted_actions : List DistributionAction → List DistributionAction × List Text
accepted_actions actions = accepted_of_groups (grouped_from actions [])
