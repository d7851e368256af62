-- ===== src/Risk/Decisions.antt =====
-- What a window is decided on: every gate before a state, and the thresholds that depend on the
-- state that holds.
use swar.Prelude.{
  ℕ, ◌≡◌, inl, inr, refl, List, ◌∷◌, ◌++◌, Option, none, some, false, any, find, Option-cases,
  Bool-cases,
}
use swar.Risk.Types.{EvidenceType, ScoreTarget, RiskState, Floats, readiness_eq, state_eq}
use swar.Risk.Evidence.{Evidence, RiskPolicy}
use swar.Risk.Window.{
  evaluate_window, decide_components, decide_scored, decide_scores, insufficient, of_type, to_list,
  quality_gate_failed, target_score, spoof_score, spoof_of, some_not_ready, identity_threshold,
  spoof_threshold, matrix_state,
}

module _ ⦃fp : Floats⦄ where
  open fp use {Number, le}

  -- What stands behind a decision for the state `s`.
  pub record Backing (policy : RiskPolicy Number) (current : RiskState)
      (events : List (Evidence Number)) (s : RiskState) : Type 0 where
    pub identity : Evidence Number
    pub fast : Option (Evidence Number)
    pub deep : Option (Evidence Number)
    pub identity_found : find (of_type EvidenceType.identity) events ≡ some identity
    pub fast_found : find (of_type EvidenceType.spoof_fast) events ≡ fast
    pub deep_found : find (of_type EvidenceType.spoof_deep) events ≡ deep
    pub not_insufficient : find (of_type EvidenceType.insufficient_evidence) events ≡ none
    pub not_broken : any (of_type EvidenceType.pipeline_error) events ≡ false
    pub all_ready : some_not_ready (identity ∷ to_list fast ++ to_list deep) ≡ false
    pub good_quality : quality_gate_failed policy (identity ∷ to_list fast ++ to_list deep) ≡ false
    pub identity_score : Number
    pub spoof : Number
    pub identity_scored : target_score identity ScoreTarget.expected_speaker ≡ some identity_score
    pub spoof_scored : spoof_score policy (spoof_of fast) (spoof_of deep) ≡ some spoof
    pub in_matrix :
        s
        ≡ matrix_state
            (le (identity_threshold policy current) identity_score)
            (le (spoof_threshold policy current) spoof)

  decide_scores-state :
      (policy : RiskPolicy Number) (current : RiskState) (first : Evidence Number)
      (i p : Option Number) (at : ℕ) (s : RiskState)
      → (decide_scores policy current first i p at).state ≡ some s
      → (x : Number) × (y : Number) × (i ≡ some x)
        × (p ≡ some y)
        × (s
            ≡ matrix_state
                (le (identity_threshold policy current) x)
                (le (spoof_threshold policy current) y))
  unfolding decide_scores insufficient
  decide_scores-state policy current first none p at s h = cc
  decide_scores-state policy current first (some x) none at s h = cc
  decide_scores-state policy current first (some x) (some y) at s h = (x, y, refl, refl, cc)

  decide_scored-state :
      (policy : RiskPolicy Number) (current : RiskState) (first i : Evidence Number)
      (fast deep : Option (Evidence Number)) (s : RiskState)
      → (decide_scored policy current first i fast deep).state ≡ some s
      → (some_not_ready (i ∷ to_list fast ++ to_list deep) ≡ false)
        × (quality_gate_failed policy (i ∷ to_list fast ++ to_list deep) ≡ false)
        × ((x : Number) × (y : Number) × (target_score i ScoreTarget.expected_speaker ≡ some x)
            × (spoof_score policy (spoof_of fast) (spoof_of deep) ≡ some y)
            × (s
                ≡ matrix_state
                    (le (identity_threshold policy current) x)
                    (le (spoof_threshold policy current) y)))
  unfolding decide_scored insufficient
  decide_scored-state policy current first i fast deep s h =
      elim (Bool-cases (some_not_ready scored)) [
        | inl late ↦ absurd (cc (rw (late, decide_scored) at h))
        | inr ready ↦ elim (Bool-cases (quality_gate_failed policy scored)) [
          | inl poor ↦ absurd (cc (rw (ready, poor, decide_scored) at h))
          | inr good ↦ (
            ready,
            good,
            decide_scores-state policy current first _ _ _ s (rw (ready, good, decide_scored) at h),
          )
        ]
      ]
    where
      scored : List (Evidence Number)
      scored = i ∷ to_list fast ++ to_list deep

  scored-Backing :
      (policy : RiskPolicy Number) (current : RiskState) (first : Evidence Number)
      (events : List (Evidence Number)) (i : Evidence Number) (fast deep : Option (Evidence Number))
      (s : RiskState)
      → find (of_type EvidenceType.identity) events ≡ some i
      → find (of_type EvidenceType.spoof_fast) events ≡ fast
      → find (of_type EvidenceType.spoof_deep) events ≡ deep
      → find (of_type EvidenceType.insufficient_evidence) events ≡ none
      → any (of_type EvidenceType.pipeline_error) events ≡ false
      → (decide_scored policy current first i fast deep).state ≡ some s
      → Backing policy current events s
  scored-Backing policy current first events i fast deep s ei ef ed no_i no_p h =
      let (ready, good, scores) = decide_scored-state policy current first i fast deep s h in
      let (x, y, ex, ey, m) = scores in
      record {
        identity = i;
        fast = fast;
        deep = deep;
        identity_found = ei;
        fast_found = ef;
        deep_found = ed;
        not_insufficient = no_i;
        not_broken = no_p;
        all_ready = ready;
        good_quality = good;
        identity_score = x;
        spoof = y;
        identity_scored = ex;
        spoof_scored = ey;
        in_matrix = m;
      }

  decide_components-Backing :
      (policy : RiskPolicy Number) (current : RiskState) (first : Evidence Number)
      (events : List (Evidence Number)) (i fast deep : Option (Evidence Number)) (s : RiskState)
      → find (of_type EvidenceType.identity) events ≡ i
      → find (of_type EvidenceType.spoof_fast) events ≡ fast
      → find (of_type EvidenceType.spoof_deep) events ≡ deep
      → find (of_type EvidenceType.insufficient_evidence) events ≡ none
      → any (of_type EvidenceType.pipeline_error) events ≡ false
      → (decide_components policy current first i fast deep).state ≡ some s
      → Backing policy current events s
  unfolding decide_components insufficient
  decide_components-Backing policy current first events none fast deep s ei ef ed no_i no_p h = cc
  decide_components-Backing policy current first events (some i) none none s ei ef ed no_i no_p h =
      cc
  decide_components-Backing policy current first events (some i) (some f) deep s ei ef ed no_i no_p
        h =
      scored-Backing policy current first events i (some f) deep s ei ef ed no_i no_p h
  decide_components-Backing policy current first events (some i) none (some d) s ei ef ed no_i no_p
        h =
      scored-Backing policy current first events i none (some d) s ei ef ed no_i no_p h

  -- A decided window passed every guard of the evaluation.
  pub decision-Backing :
      (policy : RiskPolicy Number) (current : RiskState) (first : Evidence Number)
      (rest : List (Evidence Number)) (s : RiskState)
      → (evaluate_window policy current first rest).state ≡ some s
      → Backing policy current (first ∷ rest) s
  unfolding evaluate_window insufficient
  decision-Backing policy current first rest s h =
      elim (Option-cases (find (of_type EvidenceType.insufficient_evidence) events)) [
        | inr (e, found) ↦ absurd (cc (rw (found, evaluate_window) at h))
        | inl no_i ↦ elim (Bool-cases (any (of_type EvidenceType.pipeline_error) events)) [
          | inl broken ↦ absurd (cc (rw (no_i, broken, evaluate_window) at h))
          | inr no_p ↦
              decide_components-Backing policy current first events _ _ _ s refl refl refl no_i no_p
                (rw (no_i, no_p, evaluate_window) at h)
        ]
      ]
    where
      events : List (Evidence Number)
      events = first ∷ rest
