-- ===== src/Risk/Gates.antt =====
-- The gates on the scored events of a window, event by event.
use swar.Prelude.{
  ℕ, ◌≡◌, refl, arith, List, [], ◌∷◌, Bool, Option, none, some, true, false, any, not, includes,
  All, string_eq, ◌||◌, ◌≤◌, ◌===◌,
}
use swar.Risk.Types.{EvidenceReadiness, Floats, readiness_eq, target_eq, state_eq}
use swar.Risk.Evidence.{Evidence, RiskPolicy}
use swar.Risk.Window.{some_not_ready, quality_gate_failed, quality_below, duration_below}

module _ ⦃fp : Floats⦄ where
  open fp use {Number, of_nat, add, sub, mul, lt, le}

  -- The quality gate that a scored event passes.
  unfoldable pub IsGood : RiskPolicy Number → Evidence Number → Type 0
  IsGood policy e =
      ((q : Number) × (e.quality_score ≡ some q) × (lt q policy.quality.minimum_score ≡ false))
      × ((d : ℕ) × (e.speech_duration_ms ≡ some d)
          × (policy.quality.minimum_speech_duration_ms ≤ d))
      × All (λ code. includes code policy.quality.rejecting_reason_codes ≡ false) e.reason_codes

  neither : (a b : Bool) → (a || b) ≡ false → (a ≡ false) × (b ≡ false)
  neither true b h = cc
  neither false b h = (refl, h)

  any-All : {A : Type 0} (p : A → Bool) (xs : List A) → any p xs ≡ false → All (λ x. p x ≡ false) xs
  any-All p [] h = tt
  any-All p (x ∷ xs) h = let (a, b) = neither (p x) (any p xs) h in (a, any-All p xs b)

  quality_reached :
      (minimum : Number) (o : Option Number)
      → quality_below minimum o ≡ false
      → (q : Number) × (o ≡ some q) × (lt q minimum ≡ false)
  quality_reached minimum none h = cc
  quality_reached minimum (some q) h = (q, refl, h)

  duration_reached :
      (minimum : ℕ) (o : Option ℕ)
      → duration_below minimum o ≡ false
      → (d : ℕ) × (o ≡ some d) × (minimum ≤ d)
  duration_reached minimum none h = cc
  duration_reached minimum (some d) h = (d, refl, ground (arith, h))

  gate-All :
      (policy : RiskPolicy Number) (xs : List (Evidence Number))
      → All (λ e. quality_below policy.quality.minimum_score e.quality_score ≡ false) xs
      → All
          (λ e.
            duration_below policy.quality.minimum_speech_duration_ms e.speech_duration_ms ≡ false)
          xs
      → All
          (λ e.
            any (λ code. includes code policy.quality.rejecting_reason_codes) e.reason_codes
            ≡ false)
          xs
      → All (IsGood policy) xs
  unfolding IsGood
  gate-All policy [] q d c = tt
  gate-All policy (e ∷ xs) q d c = (
    (
      quality_reached policy.quality.minimum_score e.quality_score q.0,
      duration_reached policy.quality.minimum_speech_duration_ms e.speech_duration_ms d.0,
      any-All (λ code. includes code policy.quality.rejecting_reason_codes) e.reason_codes c.0,
    ),
    gate-All policy xs q.1 d.1 c.1,
  )

  pub quality_gate_failed-All :
      (policy : RiskPolicy Number) (xs : List (Evidence Number))
      → quality_gate_failed policy xs ≡ false
      → All (IsGood policy) xs
  unfolding quality_gate_failed
  quality_gate_failed-All policy xs h =
      let (qd, c) = neither _ _ h in
      let (q, d) = neither _ _ qd in
      gate-All policy xs (any-All _ xs q) (any-All _ xs d) (any-All _ xs c)

  pub some_not_ready-All :
      (xs : List (Evidence Number))
      → some_not_ready xs ≡ false
      → All (λ e. e.readiness ≡ EvidenceReadiness.ready) xs
  unfolding some_not_ready
  some_not_ready-All [] h = tt
  some_not_ready-All (e ∷ xs) h =
      let (a, b) = neither (not (e.readiness === EvidenceReadiness.ready)) _ h in
      (ground (arith, a), some_not_ready-All xs b)
