-- ===== src/Tests/Risk.antt =====
-- Runs of the risk engine, and its theorems at concrete evidence.
use swar.Prelude.{
  ℕ, ◌*◌, IsSorted, ◌≡◌, refl, true, false, List, [], ◌∷◌, ◌++◌, none, some, All, Any, ok, String,
  ◌↔◌,
}
use swar.Risk.Types.{
  EvidenceType, EvidenceReadiness, EvidenceMode, ScoreDirection, ScoreTarget, ModelLifecycleStatus,
  RiskState, RiskAssessmentOutcome, InterventionType, RiskDecisionMode,
}
use swar.Risk.Evidence.{Evidence, RiskPolicy, engineering_only, engineering_fixture_not_calibrated}
use swar.Risk.Select.{select_latest, before}
use swar.Risk.Window.{evaluate_window, matrix, decided, WindowDecision, evidence_component_missing}
use swar.Risk.Engine.{evaluate_risk_evidence, RiskEngineResult, start, advance}
use swar.Risk.Json.{Json, num, str, arr, obj, null, Items, nil, cons, end, field}
use swar.Risk.Policy.{
  parse_risk_policy_document, parse_quality, parse_thresholds, parse_fusion, weights_off,
  parse_hysteresis, parse_interventions, intervention_item, inconsistent_production,
  activation_mode_of, classification_of,
}
use swar.Risk.Accepted.{IsAccepted, parse-IsAccepted}
use swar.Risk.Debounce.{History, Streak, change_is_earned}
use swar.Risk.Escalation.{alarm_is_earned, decisions_on}
use swar.Risk.Newest.{select_latest_newest, Covers, IsIn, HasDistinctKeys}
use swar.Risk.Cells.{Decided, decision-Decided}
use swar.Risk.Sticky.{decision_keeps}
use swar.Risk.Silence.{no_identity_no_alarm}
use swar.Risk.Gate.{
  RiskConfiguration, ProductionEvidenceStatus, evaluate, gate_exact, IsPromoted, blocked,
  engineering_only_deployment,
}
use swar.Tests.Numbers.{hundredths, hundredths_read, hundredths_ordered}

-- docs/contracts/risk-policy.engineering-fixture.v1.json
abbrev texts : List String → Items ℕ
texts [] = nil
texts (s ∷ ss) = cons (str s) (texts ss)

abbrev fixture : Json ℕ
fixture = obj (
    field "schemaVersion" (str "1.0.0") (
      field "activationMode" (str "ENGINEERING_ONLY") (
        field "thresholdClassification" (str "ENGINEERING_FIXTURE_NOT_CALIBRATED") (
          field "thresholdVersion" (str "engineering-fixture-thresholds-v1-not-calibrated") (
            field "calibrationVersion" null (
              field "quality" quality (
                field "thresholds" thresholds (
                  field "fusion" fusion
                    (field "hysteresis" hysteresis (field "interventions" actions end))))))))))
  where
    quality : Json ℕ
    quality = obj (
        field "minimumScore" (num 50) (
          field "minimumSpeechDurationMs" (num 100000) (
            field "rejectingReasonCodes" (arr (texts ("SEVERE_CLIPPING" ∷ "DISCONTINUITY" ∷ [])))
              end)))

    thresholds : Json ℕ
    thresholds = obj (
        field "identityEnter" (num 70) (
          field "identityClear" (num 60)
            (field "spoofEnter" (num 70) (field "spoofClear" (num 60) end))))

    fusion : Json ℕ
    fusion = obj (field "fastWeight" (num 20) (field "deepWeight" (num 80) end))

    hysteresis : Json ℕ
    hysteresis = obj (
        field "entryConsecutiveWindows" (num 200)
          (field "clearConsecutiveWindows" (num 300) (field "maximumWindowGap" (num 0) end)))

    actions : Json ℕ
    actions = obj (
        field "highRisk" (arr (texts ("WARN" ∷ []))) (
          field "critical" (arr (texts ("WARN" ∷ "HOLD_PROTECTED_ACTION" ∷ "REQUIRE_STEP_UP" ∷ [])))
            end))

abbrev policy : RiskPolicy ℕ
policy = record {
  activation_mode = engineering_only;
  threshold_classification = engineering_fixture_not_calibrated;
  threshold_version = "engineering-fixture-thresholds-v1-not-calibrated";
  calibration_version = none;
  quality = record {
    minimum_score = 50;
    minimum_speech_duration_ms = 1000;
    rejecting_reason_codes = "SEVERE_CLIPPING" ∷ "DISCONTINUITY" ∷ [];
  };
  thresholds = record {
    identity_enter = 70;
    identity_clear = 60;
    spoof_enter = 70;
    spoof_clear = 60;
  };
  fusion = record { fast_weight = 20; deep_weight = 80 };
  hysteresis = record {
    entry_consecutive_windows = 2;
    clear_consecutive_windows = 3;
    maximum_window_gap = 0;
  };
  interventions = record {
    high_risk = InterventionType.warn ∷ [];
    critical =
        InterventionType.warn ∷ InterventionType.hold_protected_action
        ∷ InterventionType.require_step_up ∷ [];
  };
}

fixture_parses : parse_risk_policy_document fixture ≡ ok policy
unfolding parse_risk_policy_document parse_quality parse_thresholds parse_fusion weights_off
    parse_hysteresis parse_interventions intervention_item inconsistent_production
    activation_mode_of classification_of
fixture_parses = refl

parse-IsAccepted_example : IsAccepted policy
parse-IsAccepted_example = parse-IsAccepted fixture policy hundredths_read fixture_parses

-- An event of one window, with a score of 90 hundredths.
abbrev scored : ℕ → ℕ → EvidenceType → ScoreTarget → Evidence ℕ
scored id window type target = record {
  id = id;
  evidence_mode = EvidenceMode.simulated;
  evidence_type = type;
  readiness = EvidenceReadiness.ready;
  window_sequence = window;
  event_sequence = id;
  revision = 0;
  observed_at = window * 1000;
  quality_score = some 80;
  speech_duration_ms = some 2000;
  reason_codes = [];
  raw_score = some 90;
  calibrated_score = none;
  calibration_version = none;
  score_direction = ScoreDirection.higher_means_more;
  score_target = some target;
  model_status = some ModelLifecycleStatus.active;
  model_trace_matches = true;
}

abbrev speaker : ℕ → ℕ → Evidence ℕ
speaker id window = scored id window EvidenceType.identity ScoreTarget.expected_speaker

abbrev spoofed : ℕ → ℕ → Evidence ℕ
spoofed id window = scored id window EvidenceType.spoof_fast ScoreTarget.spoof

-- Two windows in a row, in which the voice is the expected one and is spoofed.
abbrev attack : List (Evidence ℕ)
attack = spoofed 4 6 ∷ speaker 1 5 ∷ spoofed 2 5 ∷ speaker 3 6 ∷ []

abbrev attack_result : RiskEngineResult
attack_result = record {
  outcome = RiskAssessmentOutcome.state RiskState.critical;
  effective_state = RiskState.critical;
  reason_code = matrix RiskState.critical;
  proposed_interventions = policy.interventions.critical;
  evidence_event_ids = 1 ∷ 2 ∷ 3 ∷ 4 ∷ [];
  max_window_sequence = 6;
  occurred_at = 6000;
  all_scores_calibrated = false;
  calibration_versions = [];
  all_models_active_and_traceable = true;
}

attack_is_critical : evaluate_risk_evidence attack policy ≡ ok attack_result
unfolding evaluate_risk_evidence swar.Risk.Engine.advance evaluate_window
    swar.Risk.Window.some_not_ready swar.Risk.Window.quality_gate_failed
    swar.Risk.Window.decide_scores swar.Risk.Window.target_score swar.Risk.Window.spoof_score
    swar.Risk.Window.identity_threshold swar.Risk.Window.spoof_threshold
attack_is_critical = refl

alarm_is_earned_example :
    (newer : History) × (older : History) × (decisions_on policy attack ≡ newer ++ older)
    × Streak policy.hysteresis RiskState.critical 2 older
alarm_is_earned_example = alarm_is_earned policy attack attack_result attack_is_critical (λ e. cc)

select_latest_newest_example :
    All (λ e. Any (Covers e) (select_latest attack)) attack
    × All (λ e. IsIn e attack) (select_latest attack)
    × HasDistinctKeys (select_latest attack)
    × IsSorted before (select_latest attack)
select_latest_newest_example = select_latest_newest attack

first_window_critical :
    (evaluate_window policy RiskState.unverified (speaker 1 5) (spoofed 2 5 ∷ [])).state
    ≡ some RiskState.critical
unfolding evaluate_window swar.Risk.Window.some_not_ready swar.Risk.Window.quality_gate_failed
    swar.Risk.Window.decide_scores swar.Risk.Window.target_score swar.Risk.Window.spoof_score
    swar.Risk.Window.identity_threshold swar.Risk.Window.spoof_threshold
first_window_critical = refl

decision-Decided_example :
    Decided policy RiskState.unverified (speaker 1 5 ∷ spoofed 2 5 ∷ []) RiskState.critical
decision-Decided_example =
    decision-Decided policy RiskState.unverified (speaker 1 5) (spoofed 2 5 ∷ []) RiskState.critical
      first_window_critical

decision_keeps_example :
    (evaluate_window policy RiskState.critical (speaker 1 5) (spoofed 2 5 ∷ [])).state
    ≡ some RiskState.critical
decision_keeps_example =
    decision_keeps policy RiskState.unverified (speaker 1 5) (spoofed 2 5 ∷ []) RiskState.critical
      hundredths_ordered (refl, refl) first_window_critical

-- The detector alone, and no identity.
abbrev faceless : List (Evidence ℕ)
faceless = spoofed 2 5 ∷ spoofed 4 6 ∷ []

abbrev faceless_result : RiskEngineResult
faceless_result = record {
  outcome = RiskAssessmentOutcome.insufficient_evidence;
  effective_state = RiskState.unverified;
  reason_code = evidence_component_missing;
  proposed_interventions = [];
  evidence_event_ids = 2 ∷ 4 ∷ [];
  max_window_sequence = 6;
  occurred_at = 6000;
  all_scores_calibrated = false;
  calibration_versions = [];
  all_models_active_and_traceable = true;
}

faceless_is_quiet : evaluate_risk_evidence faceless policy ≡ ok faceless_result
unfolding evaluate_risk_evidence swar.Risk.Engine.advance evaluate_window
faceless_is_quiet = refl

no_identity_no_alarm_example :
    (faceless_result.effective_state ≡ RiskState.unverified)
    × (faceless_result.outcome ≡ RiskAssessmentOutcome.insufficient_evidence)
    × (faceless_result.proposed_interventions ≡ [])
no_identity_no_alarm_example =
    no_identity_no_alarm policy faceless faceless_result ((λ e. cc), ((λ e. cc), tt))
      faceless_is_quiet

-- One decision before, and one more.
abbrev critical_decision : ℕ → WindowDecision
critical_decision n = decided RiskState.critical n (n * 1000)

change_is_earned_example :
    Streak policy.hysteresis RiskState.critical 2
      ((6, critical_decision 6) ∷ (5, critical_decision 5) ∷ [])
unfolding start advance
change_is_earned_example =
    change_is_earned policy.hysteresis 0 6 (critical_decision 6) ((5, critical_decision 5) ∷ [])
      (λ e. cc)

abbrev deployment : RiskConfiguration
deployment = record {
  intervention_mode = engineering_only_deployment;
  phase_o_scientific_status = blocked;
  phase_p_production_status = blocked;
  phase_q_production_status = blocked;
}

abbrev attack_status : ProductionEvidenceStatus
attack_status = record {
  evidence_mode = EvidenceMode.simulated;
  sufficient_evidence = true;
  all_scores_calibrated = false;
  calibration_versions = [];
  all_models_active_and_traceable = true;
}

gate_exact_example :
    let d = evaluate deployment policy attack_status in
    ((d.production_eligible ≡ true) ↔ IsPromoted deployment policy attack_status)
    × ((d.blocker_codes ≡ []) ↔ IsPromoted deployment policy attack_status)
    × ((d.decision_mode ≡ RiskDecisionMode.production_eligible)
        ↔ IsPromoted deployment policy attack_status)
    × ((d.activation_suppressed ≡ false) ↔ IsPromoted deployment policy attack_status)
gate_exact_example = gate_exact deployment policy attack_status
