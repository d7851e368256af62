-- ===== src/Risk/Readings.antt =====
-- What the scores of a window say, as the sources of the evidence recorded them.
use swar.Prelude.{
  ◌≡◌, ◌⊎◌, inl, inr, refl, Option, none, some, false, Bool-cases, Option-cases, string_eq, sym,
  ◌∙◌, subst, some-injective,
}
use swar.Risk.Types.{ScoreTarget, ScoreDirection, Floats, readiness_eq, target_eq, state_eq}
use swar.Risk.Evidence.{Evidence, RiskPolicy}
use swar.Risk.Window.{
  target_score, spoof_score, spoof_of, read_score, or_else, towards, more_of_recorded_target,
}

module _ ⦃fp : Floats⦄ where
  open fp use {Number, of_nat, add, sub, mul, lt, le}

  -- A score from 0 to 1: the calibrated one, or the raw one where there is none.
  unfoldable pub Shown : Evidence Number → Number → Type 0
  Shown e n =
      ((e.calibrated_score ≡ some n) ⊎ ((e.calibrated_score ≡ none) × (e.raw_score ≡ some n)))
      × (lt n (of_nat 0) ≡ false)
      × (lt (of_nat 1) n ≡ false)

  -- What a score says of the expected speaker, or of a spoof: a score of the bona fide says the
  -- opposite of a spoof.
  pub data Reads (e : Evidence Number) : ScoreTarget → Number → Type 0 where
    as_it_is :
        {t : ScoreTarget} {n : Number}
        → Shown e n
        → e.score_target ≡ some t
        → e.score_direction ≡ ScoreDirection.higher_means_more
        → Reads e t n
    inverted :
        {t : ScoreTarget} {n : Number}
        → Shown e n
        → e.score_target ≡ some t
        → e.score_direction ≡ ScoreDirection.lower_means_more
        → Reads e t (sub (of_nat 1) n)
    of_bonafide :
        {n : Number}
        → Shown e n
        → e.score_target ≡ some ScoreTarget.bonafide
        → e.score_direction ≡ ScoreDirection.higher_means_more
        → Reads e ScoreTarget.spoof (sub (of_nat 1) n)
    of_bonafide_inverted :
        {n : Number}
        → Shown e n
        → e.score_target ≡ some ScoreTarget.bonafide
        → e.score_direction ≡ ScoreDirection.lower_means_more
        → Reads e ScoreTarget.spoof (sub (of_nat 1) (sub (of_nat 1) n))

  unfoldable pub IsUnreadable : Option (Evidence Number) → Type 0
  IsUnreadable none = Unit
  IsUnreadable (some e) = (v : Number) → Reads e ScoreTarget.spoof v → ⊥

  -- The score of the two detectors: weighed against each other, or that of the only one that has a
  -- readable score.
  pub data Combined (policy : RiskPolicy Number)
      : Option (Evidence Number) → Option (Evidence Number) → Number → Type 0 where
    both :
        {f d : Evidence Number} {x y : Number}
        → Reads f ScoreTarget.spoof x
        → Reads d ScoreTarget.spoof y
        → Combined policy
            (some f)
            (some d)
            (add (mul x policy.fusion.fast_weight) (mul y policy.fusion.deep_weight))
    only_fast :
        {f : Evidence Number} {d : Option (Evidence Number)} {x : Number}
        → Reads f ScoreTarget.spoof x
        → IsUnreadable d
        → Combined policy (some f) d x
    only_deep :
        {f : Option (Evidence Number)} {d : Evidence Number} {y : Number}
        → IsUnreadable f
        → Reads d ScoreTarget.spoof y
        → Combined policy f (some d) y

  read_score-parts :
      (desired : ScoreTarget) (direction : ScoreDirection) (o : Option Number)
      (target : Option ScoreTarget) (v : Number)
      → read_score desired direction o target ≡ some v
      → (n : Number) × (o ≡ some n)
        × (lt n (of_nat 0) ≡ false)
        × (lt (of_nat 1) n ≡ false)
        × ((recorded : ScoreTarget) × (target ≡ some recorded)
            × (towards recorded desired (more_of_recorded_target direction n) ≡ some v))
  read_score-parts desired direction none target v h = cc
  read_score-parts desired direction (some n) none v h = cc
  read_score-parts desired direction (some n) (some recorded) v h =
      elim (Bool-cases (lt n (of_nat 0))) [
        | inl low ↦ absurd (cc (rw low at h))
        | inr lo ↦ elim (Bool-cases (lt (of_nat 1) n)) [
          | inl high ↦ absurd (cc (rw (lo, high) at h))
          | inr hi ↦ (n, refl, lo, hi, (recorded, refl, rw (lo, hi) at h))
        ]
      ]

  or_else-cases :
      (a b : Option Number) (n : Number)
      → or_else a b ≡ some n
      → (a ≡ some n) ⊎ ((a ≡ none) × (b ≡ some n))
  or_else-cases none b n h = inr (refl, h)
  or_else-cases (some a) b n h = inl h

  speaker_read :
      (e : Evidence Number) (n v : Number) (recorded : ScoreTarget) (direction : ScoreDirection)
      → Shown e n
      → e.score_target ≡ some recorded
      → e.score_direction ≡ direction
      → towards recorded ScoreTarget.expected_speaker (more_of_recorded_target direction n) ≡ some v
      → Reads e ScoreTarget.expected_speaker v
  speaker_read e n v ScoreTarget.expected_speaker ScoreDirection.higher_means_more s t d h =
      subst (Reads e ScoreTarget.expected_speaker) (some-injective n v h) (as_it_is s t d)
  speaker_read e n v ScoreTarget.expected_speaker ScoreDirection.lower_means_more s t d h =
      subst (Reads e ScoreTarget.expected_speaker) (some-injective (sub (of_nat 1) n) v h)
        (inverted s t d)
  speaker_read e n v ScoreTarget.expected_speaker ScoreDirection.not_applicable s t d h = cc
  speaker_read e n v ScoreTarget.spoof ScoreDirection.higher_means_more s t d h = cc
  speaker_read e n v ScoreTarget.spoof ScoreDirection.lower_means_more s t d h = cc
  speaker_read e n v ScoreTarget.spoof ScoreDirection.not_applicable s t d h = cc
  speaker_read e n v ScoreTarget.bonafide ScoreDirection.higher_means_more s t d h = cc
  speaker_read e n v ScoreTarget.bonafide ScoreDirection.lower_means_more s t d h = cc
  speaker_read e n v ScoreTarget.bonafide ScoreDirection.not_applicable s t d h = cc
  speaker_read e n v ScoreTarget.audio_quality ScoreDirection.higher_means_more s t d h = cc
  speaker_read e n v ScoreTarget.audio_quality ScoreDirection.lower_means_more s t d h = cc
  speaker_read e n v ScoreTarget.audio_quality ScoreDirection.not_applicable s t d h = cc

  spoof_read :
      (e : Evidence Number) (n v : Number) (recorded : ScoreTarget) (direction : ScoreDirection)
      → Shown e n
      → e.score_target ≡ some recorded
      → e.score_direction ≡ direction
      → towards recorded ScoreTarget.spoof (more_of_recorded_target direction n) ≡ some v
      → Reads e ScoreTarget.spoof v
  spoof_read e n v ScoreTarget.spoof ScoreDirection.higher_means_more s t d h =
      subst (Reads e ScoreTarget.spoof) (some-injective n v h) (as_it_is s t d)
  spoof_read e n v ScoreTarget.spoof ScoreDirection.lower_means_more s t d h =
      subst (Reads e ScoreTarget.spoof) (some-injective (sub (of_nat 1) n) v h) (inverted s t d)
  spoof_read e n v ScoreTarget.bonafide ScoreDirection.higher_means_more s t d h =
      subst (Reads e ScoreTarget.spoof) (some-injective (sub (of_nat 1) n) v h) (of_bonafide s t d)
  spoof_read e n v ScoreTarget.bonafide ScoreDirection.lower_means_more s t d h =
      subst (Reads e ScoreTarget.spoof) (some-injective (sub (of_nat 1) (sub (of_nat 1) n)) v h)
        (of_bonafide_inverted s t d)
  spoof_read e n v ScoreTarget.spoof ScoreDirection.not_applicable s t d h = cc
  spoof_read e n v ScoreTarget.bonafide ScoreDirection.not_applicable s t d h = cc
  spoof_read e n v ScoreTarget.expected_speaker ScoreDirection.higher_means_more s t d h = cc
  spoof_read e n v ScoreTarget.expected_speaker ScoreDirection.lower_means_more s t d h = cc
  spoof_read e n v ScoreTarget.expected_speaker ScoreDirection.not_applicable s t d h = cc
  spoof_read e n v ScoreTarget.audio_quality ScoreDirection.higher_means_more s t d h = cc
  spoof_read e n v ScoreTarget.audio_quality ScoreDirection.lower_means_more s t d h = cc
  spoof_read e n v ScoreTarget.audio_quality ScoreDirection.not_applicable s t d h = cc

  pub identity-Reads :
      (e : Evidence Number) (v : Number)
      → target_score e ScoreTarget.expected_speaker ≡ some v
      → Reads e ScoreTarget.expected_speaker v
  unfolding target_score Shown
  identity-Reads e v h =
      let (n, o, lo, hi, k) =
        read_score-parts ScoreTarget.expected_speaker e.score_direction
          (or_else e.calibrated_score e.raw_score) e.score_target v h in
      speaker_read e n v k.0 e.score_direction
        (or_else-cases e.calibrated_score e.raw_score n o, lo, hi) k.1 refl k.2

  spoof-Reads :
      (e : Evidence Number) (v : Number)
      → target_score e ScoreTarget.spoof ≡ some v
      → Reads e ScoreTarget.spoof v
  unfolding target_score Shown
  spoof-Reads e v h =
      let (n, o, lo, hi, k) =
        read_score-parts ScoreTarget.spoof e.score_direction
          (or_else e.calibrated_score e.raw_score) e.score_target v h in
      spoof_read e n v k.0 e.score_direction
        (or_else-cases e.calibrated_score e.raw_score n o, lo, hi) k.1 refl k.2

  or_else-some :
      (a b : Option Number) (n : Number)
      → (a ≡ some n) ⊎ ((a ≡ none) × (b ≡ some n))
      → or_else a b ≡ some n
  or_else-some a b n (inl h) = rw h refl
  or_else-some a b n (inr h) = rw (h.0, h.1) refl

  Shown-score :
      (e : Evidence Number) (n : Number) (t r : ScoreTarget)
      → Shown e n
      → e.score_target ≡ some r
      → target_score e t ≡ towards r t (more_of_recorded_target e.score_direction n)
  unfolding target_score Shown
  Shown-score e n t r s h = rw (or_else-some e.calibrated_score e.raw_score n s.0, h, s.1, s.2) refl

  -- Only one number is read from an event.
  Reads-score :
      (e : Evidence Number) (v : Number)
      → Reads e ScoreTarget.spoof v
      → target_score e ScoreTarget.spoof ≡ some v
  Reads-score e v (as_it_is s t d) =
      Shown-score e v ScoreTarget.spoof ScoreTarget.spoof s t ∙ rw d refl
  Reads-score e v (inverted {n = n} s t d) =
      Shown-score e n ScoreTarget.spoof ScoreTarget.spoof s t ∙ rw d refl
  Reads-score e v (of_bonafide {n = n} s t d) =
      Shown-score e n ScoreTarget.spoof ScoreTarget.bonafide s t ∙ rw d refl
  Reads-score e v (of_bonafide_inverted {n = n} s t d) =
      Shown-score e n ScoreTarget.spoof ScoreTarget.bonafide s t ∙ rw d refl

  none-IsUnreadable : (o : Option (Evidence Number)) → spoof_of o ≡ none → IsUnreadable o
  unfolding IsUnreadable
  none-IsUnreadable none h = tt
  none-IsUnreadable (some e) h = λ v r. cc (sym h ∙ Reads-score e v r)

  detected :
      (o : Option (Evidence Number)) (x : Number)
      → spoof_of o ≡ some x
      → (e : Evidence Number) × (o ≡ some e) × Reads e ScoreTarget.spoof x
  detected none x h = cc
  detected (some e) x h = (e, refl, spoof-Reads e x h)

  pub spoof_score-Combined :
      (policy : RiskPolicy Number) (fast deep : Option (Evidence Number)) (y : Number)
      → spoof_score policy (spoof_of fast) (spoof_of deep) ≡ some y
      → Combined policy fast deep y
  unfolding spoof_score
  spoof_score-Combined policy fast deep y h = elim (Option-cases (spoof_of fast)) [
    | inl n ↦
        let (d, q, r) = detected deep y (rw n at h) in
        subst (λ o. Combined policy fast o y) (sym q) (only_deep (none-IsUnreadable fast n) r)
    | inr (x, xe) ↦
        let (f, p, r) = detected fast x xe in
        elim (Option-cases (spoof_of deep)) [
          | inl m ↦
              subst (λ z. Combined policy fast deep z) (some-injective x y (rw (xe, m) at h))
                (subst (λ o. Combined policy o deep x) (sym p)
                  (only_fast r (none-IsUnreadable deep m)))
          | inr (z, ze) ↦
              let (d, q, t) = detected deep z ze in
              subst (λ v. Combined policy fast deep v) (some-injective _ y (rw (xe, ze) at h))
                (rw (p, q) (both r t))
        ]
  ]
