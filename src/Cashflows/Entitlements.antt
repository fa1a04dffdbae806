-- ===== src/Cashflows/Entitlements.antt =====
-- trades/cashflows.py: what is known, who is entitled, and settlements without their repeats.
use stock_signal.Common.{
  ℕ, Bool, true, false, not, ◌&&◌, ◌||◌, Option, none, some, List, [], ◌∷◌, ◌++◌, ltb, leb, ◌==◌,
  if◌then◌else◌, find?,
}
use stock_signal.Common.Int.{ℤ}
use stock_signal.Cashflows.Base.{Text, eq_ℤ, zero_amount, neg, same_text?}
use stock_signal.Cashflows.Records.{
  Side, Kind, payment, refund, same_side, Holding, DistributionAction, Settlement, or_zero,
}

-- `holding.exit_at is None or holding.exit_at >= action.ex_at`
abbrev pub held_at : Option ℕ → ℕ → Bool
held_at none ex = true
held_at (some exit) ex = leb ex exit

-- `_qualified`
unfoldable pub qualified : Holding → DistributionAction → Bool
qualified h a =
    if not (h.symbol == a.symbol) || eq_ℤ h.quantity zero_amount
    then false
    else ltb h.entry_at a.ex_at && held_at h.exit_at a.ex_at

-- `_signed_settlement_amount`; the callers have refused an amount that is None, where it raises.
unfoldable pub signed_settlement_amount : Settlement → ℤ
signed_settlement_amount s = signed s.kind (or_zero s.amount)
  where
    signed : Kind → ℤ → ℤ
    signed payment a = a
    signed refund a = neg a

-- `prior != settlement`, field by field.
abbrev pub same_amount? : Option ℤ → Option ℤ → Bool
same_amount? none none = true
same_amount? (some a) (some b) = eq_ℤ a b
same_amount? _ _ = false

abbrev pub same_kind : Kind → Kind → Bool
same_kind payment payment = true
same_kind refund refund = true
same_kind _ _ = false

abbrev pub same_side? : Option Side → Option Side → Bool
same_side? none none = true
same_side? (some s) (some t) = same_side s t
same_side? _ _ = false

unfoldable pub same_settlement : Settlement → Settlement → Bool
same_settlement s t =
    s.payment_id == t.payment_id
    && (s.action_id == t.action_id
        && (same_amount? s.amount t.amount
            && (s.occurred_at == t.occurred_at
                && (same_kind s.kind t.kind
                    && (same_text? s.knowledge_at t.knowledge_at
                        && (same_side? s.side t.side && same_text? s.currency t.currency))))))

-- The loop of `_dedupe_settlements`, on the settlements kept so far in their order.
abbrev pub kept_or_conflict :
    Option Settlement → Settlement → List Settlement × List Text → List Settlement × List Text
kept_or_conflict none s (kept, conflicts) = (kept ++ s ∷ [], conflicts)
kept_or_conflict (some prior) s (kept, conflicts) =
    if same_settlement prior s then (kept, conflicts) else (kept, conflicts ++ s.payment_id ∷ [])

unfoldable pub dedupe_from :
    List Settlement → List Settlement × List Text → List Settlement × List Text
dedupe_from [] acc = acc
dedupe_from (s ∷ rest) acc =
    dedupe_from rest (kept_or_conflict (find? (λ k. k.payment_id == s.payment_id) acc.0) s acc)

-- `_dedupe_settlements`; the conflicts are not sorted, and a payment can stand there twice.
unfoldable pub dedupe_settlements : List Settlement → List Settlement × List Text
dedupe_settlements settlements = dedupe_from settlements ([], [])
