-- ===== src/Metrics/Drawdown.antt =====
-- analytics/metrics.py: what `_max_drawdown` returns.
use stock_signal.Common.{
  ◌≡◌, refl, subst, Bool, true, false, List, [], ◌∷◌, if◌then◌else◌, All, Bool-cases, inl, inr, ◌⊎◌,
}
use stock_signal.Common.Float.{Float, zero_float, max_float}
use stock_signal.Metrics.Rules.{Trade, Curve, pass, drawdown_from, start_of, max_drawdown, pnls}

-- What is asked of floats: `<` is irreflexive and transitive.
pub record IsOrdered (F : Type 0) ⦃f : Float F⦄ : Type 0 where
  pub irreflexive : (a : F) → f.lt a a ≡ false
  pub transitive : (a b c : F) → f.lt a b ≡ true → f.lt b c ≡ true → f.lt a c ≡ true

module _ {F : Type 0} ⦃f : Float F⦄ where
  open f use {lt, add, sub, round}

  -- The distance of the equity below its peak so far, after each trade.
  abbrev pub drawdowns : List F → F → F → List F
  drawdowns [] equity peak = []
  drawdowns (p ∷ ps) equity peak =
      let next = add equity p in
      let top = max_float peak next in sub top next ∷ drawdowns ps next top

  -- The element stands in the list.
  abbrev pub IsOneOf : F → List F → Type 0
  IsOneOf m [] = ⊥
  IsOneOf m (x ∷ xs) = (m ≡ x) ⊎ IsOneOf m xs

  -- Not below any of these, and one of them or the value that was there before.
  pub record IsGreatest (low : F) (xs : List F) (m : F) : Type 0 where
    pub bounds : All (λ x. lt m x ≡ false) xs
    pub grows : (low ≡ m) ⊎ (lt low m ≡ true)
    pub attained : (m ≡ low) ⊎ IsOneOf m xs

  module _ (o : IsOrdered F) where
    refuted : (a b : F) → (lt a b ≡ true → ⊥) → lt a b ≡ false
    refuted a b h = elim (Bool-cases (lt a b)) [ inl is ↦ absurd (h is) | inr not_so ↦ not_so ]

    true-≢-false : {b : Bool} → b ≡ true → b ≡ false → ⊥
    true-≢-false h k = cc

    not_below : (a m : F) → (a ≡ m) ⊎ (lt a m ≡ true) → lt m a ≡ false
    not_below a m (inl same) = subst (λ x. lt x a ≡ false) same (o.irreflexive a)
    not_below a m (inr up) =
        refuted m a (λ down. true-≢-false (o.transitive m a m down up) (o.irreflexive m))

    still_not_below : (a m x : F) → lt a x ≡ false → (a ≡ m) ⊎ (lt a m ≡ true) → lt m x ≡ false
    still_not_below a m x h (inl same) = subst (λ y. lt y x ≡ false) same h
    still_not_below a m x h (inr up) = refuted m x (λ k. true-≢-false (o.transitive a m x up k) h)

    grows_further :
        (a b m : F) → lt a b ≡ true → (b ≡ m) ⊎ (lt b m ≡ true) → (a ≡ m) ⊎ (lt a m ≡ true)
    grows_further a b m h (inl same) = inr (subst (λ y. lt a y ≡ true) same h)
    grows_further a b m h (inr up) = inr (o.transitive a b m h up)

    -- One more point, above the greatest so far or not.
    IsGreatest-next :
        (low x : F) (xs : List F) (m : F)
        → IsGreatest (if lt low x then x else low) xs m
        → IsGreatest low (x ∷ xs) m
    IsGreatest-next low x xs m g = elim (Bool-cases (lt low x)) [
      | inl up ↦
          let h : IsGreatest x xs m = subst (λ b. IsGreatest (if b then x else low) xs m) up g in
          record {
            bounds = (not_below x m h.grows, h.bounds);
            grows = grows_further low x m up h.grows;
            attained = inr h.attained;
          }
      | inr flat ↦
          let h : IsGreatest low xs m =
            subst (λ b. IsGreatest (if b then x else low) xs m) flat g in
          record {
            bounds = (still_not_below low m x flat h.grows, h.bounds);
            grows = h.grows;
            attained = elim h.attained [ inl same ↦ inl same | inr later ↦ inr (inr later) ];
          }
    ]

    drawdown_from-IsGreatest :
        (ps : List F) (c : Curve F)
        → IsGreatest c.max_abs (drawdowns ps c.equity c.peak) (drawdown_from ps c).max_abs
    unfolding drawdown_from
    drawdown_from-IsGreatest [] c = record { bounds = tt; grows = inl refl; attained = inl refl }
    drawdown_from-IsGreatest (p ∷ ps) c =
        IsGreatest-next c.max_abs _ _ _ (drawdown_from-IsGreatest ps (pass p c))

    -- The drawdown that `_max_drawdown` returns is the rounding of a number that is not below any
    -- distance of the equity under its peak so far, and that is one of these distances or 0.
    pub max_drawdown-IsGreatest :
        (closed : List (Trade F)) (capital : F)
        → (m : F) × ((max_drawdown closed capital).0 ≡ round 2 m)
          × IsGreatest zero_float (drawdowns (pnls closed) capital capital) m
    unfolding max_drawdown
    max_drawdown-IsGreatest closed capital = (
      (drawdown_from (pnls closed) (start_of capital)).max_abs,
      refl,
      drawdown_from-IsGreatest (pnls closed) (start_of capital),
    )
