-- ===== src/Risk/Gate.antt =====
-- backend/src/modules/risk/risk-activation-gate.service.ts: what keeps a decision from counting in
-- production.
use swar.Prelude.{
  ◌≡◌, refl, ◌↔◌, Bool, true, false, List, [], ◌∷◌, ◌||◌, not, Option, none, some, length, ◌==◌,
  ◌===◌, includes, if◌then◌else◌, String, string_eq, eq_iff, arith,
}
use swar.Risk.Types.{EvidenceMode, RiskDecisionMode, mode_eq}
use swar.Risk.Evidence.{
  ActivationMode, production, ThresholdClassification, promoted_calibration, RiskPolicy,
}

-- `RiskInterventionMode`
pub data InterventionMode : Type 0 where
  engineering_only_deployment production_deployment : InterventionMode

-- `PhaseOScientificStatus` and its like: each has one blocked value.
pub data PhaseStatus : Type 0 where
  blocked promoted : PhaseStatus

-- `configuration.values.risk`
pub record RiskConfiguration : Type 0 where
  pub intervention_mode : InterventionMode
  pub phase_o_scientific_status : PhaseStatus
  pub phase_p_production_status : PhaseStatus
  pub phase_q_production_status : PhaseStatus

pub record ProductionEvidenceStatus : Type 0 where
  pub evidence_mode : EvidenceMode
  pub sufficient_evidence : Bool
  pub all_scores_calibrated : Bool
  pub calibration_versions : List String
  pub all_models_active_and_traceable : Bool

pub data Blocker : Type 0 where
  engineering_only_mode phase_o_scientific_calibration_blocked phase_p_not_production_promoted :
      Blocker
  phase_q_engineering_only policy_engineering_only thresholds_not_promoted : Blocker
  evidence_not_calibrated_mode insufficient_evidence calibrated_score_missing : Blocker
  model_trace_not_active calibration_version_mismatch : Blocker

pub record RiskActivationDecision : Type 0 where
  pub decision_mode : RiskDecisionMode
  pub production_eligible : Bool
  pub activation_suppressed : Bool
  pub blocker_codes : List Blocker

abbrev pub is_production : ActivationMode → Bool
is_production production = true
is_production _ = false

abbrev pub is_production_deployment : InterventionMode → Bool
is_production_deployment production_deployment = true
is_production_deployment engineering_only_deployment = false

abbrev pub is_promoted : PhaseStatus → Bool
is_promoted promoted = true
is_promoted blocked = false

abbrev pub is_promoted_calibration : ThresholdClassification → Bool
is_promoted_calibration promoted_calibration = true
is_promoted_calibration _ = false

-- `if (b) blockers.push(code)`
abbrev pub push_if : Bool → Blocker → List Blocker → List Blocker
push_if b code rest = if b then code ∷ rest else rest

-- The versions, a Set, are the policy's version and no other.
unfoldable pub version_mismatch : Option String → List String → Bool
version_mismatch none versions = true
version_mismatch (some version) versions =
    not (length versions == 1) || not (includes version versions)

abbrev pub is_empty {ℓ} : {A : Type ℓ} → List A → Bool
is_empty [] = true
is_empty (x ∷ xs) = false

abbrev pub mode_of : Bool → EvidenceMode → RiskDecisionMode
mode_of true mode = RiskDecisionMode.production_eligible
mode_of false EvidenceMode.simulated = RiskDecisionMode.engineering_test
mode_of false EvidenceMode.shadow = RiskDecisionMode.shadow
mode_of false EvidenceMode.calibrated = RiskDecisionMode.calibrated_blocked

one_version_iff :
    (version : Option String) (versions : List String)
    → (version_mismatch version versions ≡ false)
      ↔ ((v : String) × (version ≡ some v) × (versions ≡ v ∷ []))
unfolding version_mismatch
one_version_iff none versions = (λ h. cc, λ h. cc h.1)
one_version_iff (some v) [] = (λ h. cc, λ h. cc h.2)
one_version_iff (some v) (w ∷ []) =
    (λ h. (v, refl, ground (arith, eq_iff w v)), λ h. ground (arith, eq_iff w v))
one_version_iff (some v) (w ∷ x ∷ xs) = (λ h. ground arith, λ h. cc h.2)

eligible_of_mode :
    (codes : List Blocker) (mode : EvidenceMode)
    → mode_of (is_empty codes) mode ≡ RiskDecisionMode.production_eligible
    → codes ≡ []
eligible_of_mode [] mode h = refl
eligible_of_mode (c ∷ cs) EvidenceMode.simulated h = cc
eligible_of_mode (c ∷ cs) EvidenceMode.shadow h = cc
eligible_of_mode (c ∷ cs) EvidenceMode.calibrated h = cc

module _ {Number : Type 0} where
  unfoldable pub blockers :
      RiskConfiguration → RiskPolicy Number → ProductionEvidenceStatus → List Blocker
  blockers configured policy evidence =
      push_if (not (is_production_deployment configured.intervention_mode)) engineering_only_mode (
        push_if (not (is_promoted configured.phase_o_scientific_status))
          phase_o_scientific_calibration_blocked
          (push_if (not (is_promoted configured.phase_p_production_status))
            phase_p_not_production_promoted
            (push_if (not (is_promoted configured.phase_q_production_status))
              phase_q_engineering_only
              (push_if (not (is_production policy.activation_mode)) policy_engineering_only (
                push_if (not (is_promoted_calibration policy.threshold_classification))
                  thresholds_not_promoted
                  (push_if (not (evidence.evidence_mode === EvidenceMode.calibrated))
                    evidence_not_calibrated_mode
                    (push_if (not evidence.sufficient_evidence) insufficient_evidence (
                      push_if (not evidence.all_scores_calibrated) calibrated_score_missing (
                        push_if (not evidence.all_models_active_and_traceable)
                          model_trace_not_active
                          (push_if
                            (version_mismatch policy.calibration_version
                              evidence.calibration_versions)
                            calibration_version_mismatch []))))))))))

  unfoldable pub evaluate :
      RiskConfiguration → RiskPolicy Number → ProductionEvidenceStatus → RiskActivationDecision
  unfolding blockers
  evaluate configured policy evidence =
      let codes = blockers configured policy evidence in
      let eligible = is_empty codes in
      record {
        decision_mode = mode_of eligible evidence.evidence_mode;
        production_eligible = eligible;
        activation_suppressed = not eligible;
        blocker_codes = codes;
      }

  -- Everything that production asks for.
  pub record IsPromoted (configured : RiskConfiguration) (policy : RiskPolicy Number)
      (evidence : ProductionEvidenceStatus) : Type 0 where
    pub mode_on : configured.intervention_mode ≡ production_deployment
    pub phase_o : configured.phase_o_scientific_status ≡ promoted
    pub phase_p : configured.phase_p_production_status ≡ promoted
    pub phase_q : configured.phase_q_production_status ≡ promoted
    pub policy_on : policy.activation_mode ≡ production
    pub thresholds : policy.threshold_classification ≡ promoted_calibration
    pub mode_calibrated : evidence.evidence_mode ≡ EvidenceMode.calibrated
    pub sufficient : evidence.sufficient_evidence ≡ true
    pub calibrated : evidence.all_scores_calibrated ≡ true
    pub traceable : evidence.all_models_active_and_traceable ≡ true
    pub one_version :
        (v : String) × (policy.calibration_version ≡ some v)
        × (evidence.calibration_versions ≡ v ∷ [])

  clear-IsPromoted :
      (configured : RiskConfiguration) (policy : RiskPolicy Number)
      (evidence : ProductionEvidenceStatus)
      → blockers configured policy evidence ≡ []
      → IsPromoted configured policy evidence
  unfolding blockers
  clear-IsPromoted configured policy evidence h = record {
    mode_on = ground arith;
    phase_o = ground arith;
    phase_p = ground arith;
    phase_q = ground arith;
    policy_on = ground arith;
    thresholds = ground arith;
    mode_calibrated = ground arith;
    sufficient = ground arith;
    calibrated = ground arith;
    traceable = ground arith;
    one_version =
        (one_version_iff policy.calibration_version evidence.calibration_versions).0 (ground arith);
  }

  IsPromoted-clear :
      (configured : RiskConfiguration) (policy : RiskPolicy Number)
      (evidence : ProductionEvidenceStatus)
      → IsPromoted configured policy evidence
      → blockers configured policy evidence ≡ []
  unfolding blockers
  IsPromoted-clear configured policy evidence p = ground (
    arith,
    (one_version_iff policy.calibration_version evidence.calibration_versions).1 p.one_version,
  )

  -- A decision counts in production exactly when the deployment, the policy, the evidence and the
  -- models all are promoted, with one calibration version, the policy's. Then there is no
  -- blocker code and the mode says so, and otherwise the activation is suppressed in a mode that is
  -- not the production one.
  pub gate_exact :
      (configured : RiskConfiguration) (policy : RiskPolicy Number)
      (evidence : ProductionEvidenceStatus)
      → let d = evaluate configured policy evidence in
        ((d.production_eligible ≡ true) ↔ IsPromoted configured policy evidence)
        × ((d.blocker_codes ≡ []) ↔ IsPromoted configured policy evidence)
        × ((d.decision_mode ≡ RiskDecisionMode.production_eligible)
            ↔ IsPromoted configured policy evidence)
        × ((d.activation_suppressed ≡ false) ↔ IsPromoted configured policy evidence)
  unfolding evaluate
  gate_exact configured policy evidence =
      let to = clear-IsPromoted configured policy evidence in
      let from = IsPromoted-clear configured policy evidence in
      (
        (λ h. to (ground arith), λ p. rw (from p)),
        (to, from),
        (λ h. to (eligible_of_mode _ evidence.evidence_mode h), λ p. rw (from p)),
        (λ h. to (ground arith), λ p. rw (from p)),
      )
