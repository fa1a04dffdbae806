-- ===== src/Signals/Quality/Causal.antt =====
-- signals/quality.py: what the checks of the gate read.
use stock_signal.Common.{
  ℕ, ◌+◌, ◌-◌, ◌≤◌, ◌≡◌, refl, Text, false, Option, List, [], ◌∷◌, ltb, Bool-cases, inl, inr, arith,
}
use stock_signal.Common.Float.{Float}
use stock_signal.Signals.Base.{Direction}
use stock_signal.Signals.Quality.{
  Frame, bar_of, bar_length, hour, strength_check, rvol_check, prior_volumes, spy_symbol,
}

-- Two histories have the same bars up to an instant.
unfoldable pub SameUntil :
    {F : Type 0} → ℕ → (Text → Option (Frame F)) → (Text → Option (Frame F)) → Type 0
SameUntil ts bars others =
    (symbol : Text) (t : ℕ) → t ≤ ts → bar_of (bars symbol) t ≡ bar_of (others symbol) t

unfoldable pub ClosedBy : ℕ → List (ℕ × ℕ) → Type 0
ClosedBy ts [] = Unit
ClosedBy ts ((opening, closing) ∷ rest) = (closing ≤ ts) × ClosedBy ts rest

bucket_before : (o d c ts : ℕ) → c ≤ ts → ltb c (o + d + bar_length) ≡ false → o + d ≤ ts
bucket_before o d c ts h e = ground arith

module _ {F : Type 0} ⦃f : Float F⦄ where
  prior_volumes_causal :
      (bars others : Text → Option (Frame F)) (symbol : Text) (ts offset : ℕ)
      (sessions : List (ℕ × ℕ))
      → SameUntil ts bars others
      → ClosedBy ts sessions
      → prior_volumes (bars symbol) offset sessions ≡ prior_volumes (others symbol) offset sessions
  unfolding prior_volumes SameUntil ClosedBy
  prior_volumes_causal bars others symbol ts offset [] same closed = refl
  prior_volumes_causal bars others symbol ts offset ((opening, closing) ∷ rest) same closed =
      let later = prior_volumes_causal bars others symbol ts offset rest same closed.1 in
      elim (Bool-cases (ltb closing (opening + offset + bar_length))) [
        | inl late ↦ simp (late, later)
        | inr in_time ↦
            let now =
              same symbol (opening + offset)
                (bucket_before opening offset closing ts closed.0 in_time) in
            simp (in_time, later, now)
      ]

  -- Neither the strength check nor the volume check reads a bar after the bar of the decision: on two
  -- histories with the same bars up to it, they give the same results, if the sessions before have
  -- closed by then.
  pub checks_causal :
      (log : F → F) (bars others : Text → Option (Frame F)) (symbol : Text) (ts opening : ℕ)
      (direction : Direction) (sessions : List (ℕ × ℕ))
      → SameUntil ts bars others
      → ClosedBy ts sessions
      → (strength_check log bars symbol ts direction opening
          ≡ strength_check log others symbol ts direction opening)
        × (rvol_check bars symbol ts opening sessions
            ≡ rvol_check others symbol ts opening sessions)
  unfolding strength_check rvol_check SameUntil
  checks_causal log bars others symbol ts opening direction sessions same closed = (
    elim (Bool-cases (ltb ts (opening + hour))) [
      | inl early ↦ simp early
      | inr later ↦
          let a = same symbol (ts - hour) (omega arith) in
          let b = same symbol ts (omega arith) in
          let c = same spy_symbol (ts - hour) (omega arith) in
          let d = same spy_symbol ts (omega arith) in simp (a, b, c, d)
    ],
    simp (
      same symbol ts (omega arith),
      prior_volumes_causal bars others symbol ts (ts - opening) sessions same closed,
    ),
  )
