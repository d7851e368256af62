-- ===== src/Risk/Sticky.antt =====
-- The two thresholds of each score: evidence that led to a state keeps it there.
use swar.Prelude.{◌≡◌, List, ◌∷◌, ◌++◌, Option, none, some, arith, true, false, ◌∙◌, ap}
use swar.Risk.Types.{ScoreTarget, RiskState, Floats, state_eq}
use swar.Risk.Evidence.{Evidence, RiskPolicy}
use swar.Risk.Window.{
  evaluate_window, decide_components, decide_scored, decide_scores, identity_threshold,
  spoof_threshold, matrix_state, to_list, target_score, spoof_score, spoof_of, some_not_ready,
  quality_gate_failed,
}
use swar.Risk.Decisions.{Backing, decision-Backing}

module _ ⦃fp : Floats⦄ where
  open fp use {Number, le}

  -- `<=` of numbers is transitive.
  abbrev pub IsTransitive : Type 0
  IsTransitive = (a b c : Number) → le a b ≡ true → le b c ≡ true → le a c ≡ true

  -- A score is easier to keep high than to bring high.
  abbrev pub HasOrderedThresholds : RiskPolicy Number → Type 0
  HasOrderedThresholds policy =
      (le policy.thresholds.identity_clear policy.thresholds.identity_enter ≡ true)
      × (le policy.thresholds.spoof_clear policy.thresholds.spoof_enter ≡ true)

  matrix_keeps :
      (policy : RiskPolicy Number) (current s : RiskState) (x y : Number)
      → IsTransitive
      → HasOrderedThresholds policy
      → s
        ≡ matrix_state
            (le (identity_threshold policy current) x)
            (le (spoof_threshold policy current) y)
      → matrix_state (le (identity_threshold policy s) x) (le (spoof_threshold policy s) y) ≡ s
  unfolding identity_threshold spoof_threshold
  matrix_keeps policy current s x y trans (i, p) e = ground (
    arith,
    trans policy.thresholds.identity_clear policy.thresholds.identity_enter x i,
    trans policy.thresholds.spoof_clear policy.thresholds.spoof_enter y p,
  )

  scored_state :
      (policy : RiskPolicy Number) (t : RiskState) (first i : Evidence Number)
      (fast deep : Option (Evidence Number)) (x y : Number)
      → some_not_ready (i ∷ to_list fast ++ to_list deep) ≡ false
      → quality_gate_failed policy (i ∷ to_list fast ++ to_list deep) ≡ false
      → target_score i ScoreTarget.expected_speaker ≡ some x
      → spoof_score policy (spoof_of fast) (spoof_of deep) ≡ some y
      → (decide_scored policy t first i fast deep).state
        ≡ some (matrix_state (le (identity_threshold policy t) x) (le (spoof_threshold policy t) y))
  unfolding decide_scored decide_scores
  scored_state policy t first i fast deep x y ready good ex ey =
      rw (ready, good, ex, ey, decide_scored)

  components_state :
      (policy : RiskPolicy Number) (t : RiskState) (first i : Evidence Number)
      (fast deep : Option (Evidence Number)) {y : Number} (r : Option RiskState)
      → spoof_score policy (spoof_of fast) (spoof_of deep) ≡ some y
      → (decide_scored policy t first i fast deep).state ≡ r
      → (decide_components policy t first (some i) fast deep).state ≡ r
  unfolding decide_components spoof_score
  components_state policy t first i none none r ey h = cc
  components_state policy t first i none (some d) r ey h = h
  components_state policy t first i (some f) none r ey h = h
  components_state policy t first i (some f) (some d) r ey h = h

  Backing-decision :
      (policy : RiskPolicy Number) (current : RiskState) (first : Evidence Number)
      (rest : List (Evidence Number)) (s t : RiskState)
      (b : Backing policy current (first ∷ rest) s)
      → (evaluate_window policy t first rest).state
        ≡ some (
            matrix_state
              (le (identity_threshold policy t) b.identity_score)
              (le (spoof_threshold policy t) b.spoof))
  unfolding evaluate_window
  Backing-decision policy current first rest s t b =
      rw
        (
          b.not_insufficient, b.not_broken, b.identity_found, b.fast_found, b.deep_found,
          evaluate_window,
        )
        (components_state policy t first b.identity b.fast b.deep _ b.spoof_scored (
          scored_state policy t first b.identity b.fast b.deep b.identity_score b.spoof b.all_ready
            b.good_quality b.identity_scored b.spoof_scored))

  -- Under a policy whose clear thresholds are not above its enter thresholds, and with `<=` of
  -- numbers transitive, a window that is decided for a state from any state is decided for it again
  -- once that state holds.
  pub decision_keeps :
      (policy : RiskPolicy Number) (current : RiskState) (first : Evidence Number)
      (rest : List (Evidence Number)) (s : RiskState)
      → IsTransitive
      → HasOrderedThresholds policy
      → (evaluate_window policy current first rest).state ≡ some s
      → (evaluate_window policy s first rest).state ≡ some s
  decision_keeps policy current first rest s trans ordered h =
      let b = decision-Backing policy current first rest s h in
      Backing-decision policy current first rest s s b
      ∙ ap some (matrix_keeps policy current s b.identity_score b.spoof trans ordered b.in_matrix)
