-- ===== src/Risk/Window.antt =====
-- `targetScore`, `insufficient` and `evaluateWindow` of backend/src/modules/risk/risk-engine.ts: the
-- decision on the events of one window.
use swar.Prelude.{
  ℕ, max, Bool, true, false, List, [], ◌∷◌, ◌++◌, ◌||◌, ltb, ◌===◌, if◌then◌else◌, not, Option,
  none, some, any, find, includes, string_eq, map,
}
use swar.Risk.Types.{
  EvidenceType, ScoreDirection, ScoreTarget, RiskState, RiskAssessmentOutcome, Floats,
  EvidenceReadiness, evidence_type_eq, readiness_eq, target_eq, state_eq,
}
use swar.Risk.Evidence.{Evidence, RiskPolicy}

-- The reason codes of the engine. The source writes them as texts, in capitals; `matrix s` is
-- `MATRIX_${s}`.
pub data ReasonCode : Type 0 where
  audio_insufficient pipeline_degraded evidence_component_missing model_not_ready : ReasonCode
  audio_quality_gate_failed score_semantics_unusable hysteresis_pending : ReasonCode
  matrix : RiskState → ReasonCode

pub record WindowDecision : Type 0 where
  pub outcome : RiskAssessmentOutcome
  pub state : Option RiskState
  pub reason_code : ReasonCode
  pub sequence : ℕ
  pub observed_at : ℕ

unfoldable pub insufficient : ℕ → ℕ → ReasonCode → WindowDecision
insufficient sequence observed_at reason = record {
  outcome = RiskAssessmentOutcome.insufficient_evidence;
  state = none;
  reason_code = reason;
  sequence = sequence;
  observed_at = observed_at;
}

-- `a ?? b`
abbrev pub or_else {ℓ} : {A : Type ℓ} → Option A → Option A → Option A
or_else none b = b
or_else (some a) b = some a

abbrev pub to_list {ℓ} : {A : Type ℓ} → Option A → List A
to_list none = []
to_list (some a) = a ∷ []

-- `Math.max(x, ...xs)`
abbrev pub maximum : ℕ → List ℕ → ℕ
maximum x [] = x
maximum x (y ∷ ys) = max x (maximum y ys)

-- The two targets that are each other's complement.
abbrev pub opposite : ScoreTarget → ScoreTarget → Bool
opposite ScoreTarget.bonafide ScoreTarget.spoof = true
opposite ScoreTarget.spoof ScoreTarget.bonafide = true
opposite _ _ = false

abbrev pub of_type : {Number : Type 0} → EvidenceType → Evidence Number → Bool
of_type t e = e.evidence_type === t

module _ ⦃fp : Floats⦄ where
  open fp use {Number, of_nat, add, sub, mul, lt, le}

  -- The score read as more of its own target.
  abbrev pub more_of_recorded_target : ScoreDirection → Number → Option Number
  more_of_recorded_target ScoreDirection.higher_means_more score = some score
  more_of_recorded_target ScoreDirection.lower_means_more score = some (sub (of_nat 1) score)
  more_of_recorded_target ScoreDirection.not_applicable score = none

  abbrev pub towards : ScoreTarget → ScoreTarget → Option Number → Option Number
  towards recorded desired none = none
  towards recorded desired (some more) =
      if recorded === desired
      then some more
      else if opposite recorded desired
      then some (sub (of_nat 1) more)
      else none

  abbrev pub read_score :
      ScoreTarget → ScoreDirection → Option Number → Option ScoreTarget → Option Number
  read_score desired direction none target = none
  read_score desired direction (some score) none = none
  read_score desired direction (some score) (some recorded) =
      if lt score (of_nat 0) || lt (of_nat 1) score
      then none
      else towards recorded desired (more_of_recorded_target direction score)

  unfoldable pub target_score : Evidence Number → ScoreTarget → Option Number
  target_score event desired =
      read_score desired event.score_direction (or_else event.calibrated_score event.raw_score)
        event.score_target

  abbrev pub quality_below : Number → Option Number → Bool
  quality_below minimum none = true
  quality_below minimum (some value) = lt value minimum

  abbrev pub duration_below : ℕ → Option ℕ → Bool
  duration_below minimum none = true
  duration_below minimum (some value) = ltb value minimum

  unfoldable pub quality_gate_failed : RiskPolicy Number → List (Evidence Number) → Bool
  quality_gate_failed policy scored =
      any (λ e. quality_below policy.quality.minimum_score e.quality_score) scored
      || any (λ e. duration_below policy.quality.minimum_speech_duration_ms e.speech_duration_ms)
          scored
      || any (λ e. any (λ code. includes code policy.quality.rejecting_reason_codes) e.reason_codes)
          scored

  -- The weighted sum where both detectors have a score, and else the one that has.
  unfoldable pub spoof_score : RiskPolicy Number → Option Number → Option Number → Option Number
  spoof_score policy (some fast) (some deep) =
      some (add (mul fast policy.fusion.fast_weight) (mul deep policy.fusion.deep_weight))
  spoof_score policy (some fast) none = some fast
  spoof_score policy none deep = deep

  unfoldable pub identity_threshold : RiskPolicy Number → RiskState → Number
  identity_threshold policy current =
      if current === RiskState.verified || current === RiskState.critical
      then policy.thresholds.identity_clear
      else policy.thresholds.identity_enter

  unfoldable pub spoof_threshold : RiskPolicy Number → RiskState → Number
  spoof_threshold policy current =
      if current === RiskState.high_risk || current === RiskState.critical
      then policy.thresholds.spoof_clear
      else policy.thresholds.spoof_enter

  -- The matrix over whether the identity and the spoof score are high.
  abbrev pub matrix_state : Bool → Bool → RiskState
  matrix_state true true = RiskState.critical
  matrix_state true false = RiskState.verified
  matrix_state false true = RiskState.high_risk
  matrix_state false false = RiskState.unverified

  abbrev pub decided : RiskState → ℕ → ℕ → WindowDecision
  decided state sequence observed_at = record {
    outcome = RiskAssessmentOutcome.state state;
    state = some state;
    reason_code = matrix state;
    sequence = sequence;
    observed_at = observed_at;
  }

  -- From the scores on.
  unfoldable pub decide_scores :
      RiskPolicy Number
      → RiskState
      → Evidence Number
      → Option Number
      → Option Number
      → ℕ
      → WindowDecision
  unfolding insufficient
  decide_scores policy current first (some identity) (some spoof) observed_at =
      decided
        (matrix_state (le (identity_threshold policy current) identity)
          (le (spoof_threshold policy current) spoof))
        first.window_sequence observed_at
  decide_scores policy current first _ _ observed_at =
      insufficient first.window_sequence first.observed_at score_semantics_unusable

  abbrev pub spoof_of : Option (Evidence Number) → Option Number
  spoof_of none = none
  spoof_of (some e) = target_score e ScoreTarget.spoof

  unfoldable pub some_not_ready : List (Evidence Number) → Bool
  some_not_ready = any (λ e. not (e.readiness === EvidenceReadiness.ready))

  -- The gates on the components that have a score: readiness, then quality.
  unfoldable pub decide_scored :
      RiskPolicy Number
      → RiskState
      → Evidence Number
      → Evidence Number
      → Option (Evidence Number)
      → Option (Evidence Number)
      → WindowDecision
  unfolding insufficient
  decide_scored policy current first identity fast deep =
      let others = to_list fast ++ to_list deep in
      let scored = identity ∷ others in
      if some_not_ready scored
      then insufficient first.window_sequence first.observed_at model_not_ready
      else if quality_gate_failed policy scored
      then insufficient first.window_sequence first.observed_at audio_quality_gate_failed
      else decide_scores policy current first (target_score identity ScoreTarget.expected_speaker)
          (spoof_score policy (spoof_of fast) (spoof_of deep))
          (maximum identity.observed_at (map (λ e. e.observed_at) others))

  -- The guard on the components: an identity, and at least one of the two detectors.
  unfoldable pub decide_components :
      RiskPolicy Number
      → RiskState
      → Evidence Number
      → Option (Evidence Number)
      → Option (Evidence Number)
      → Option (Evidence Number)
      → WindowDecision
  unfolding insufficient decide_scored
  decide_components policy current first none fast deep =
      insufficient first.window_sequence first.observed_at evidence_component_missing
  decide_components policy current first (some identity) none none =
      insufficient first.window_sequence first.observed_at evidence_component_missing
  decide_components policy current first (some identity) fast deep =
      decide_scored policy current first identity fast deep

  -- The window is `first ∷ rest`; the source never evaluates an empty one.
  unfoldable pub evaluate_window :
      RiskPolicy Number → RiskState → Evidence Number → List (Evidence Number) → WindowDecision
  unfolding insufficient decide_components
  evaluate_window policy current first rest =
      let events = first ∷ rest in
      elim (find (of_type EvidenceType.insufficient_evidence) events) [
        | some e ↦ insufficient first.window_sequence e.observed_at audio_insufficient
        | none ↦
            if any (of_type EvidenceType.pipeline_error) events
            then insufficient first.window_sequence first.observed_at pipeline_degraded
            else decide_components policy current first
                (find (of_type EvidenceType.identity) events)
                (find (of_type EvidenceType.spoof_fast) events)
                (find (of_type EvidenceType.spoof_deep) events)
      ]
