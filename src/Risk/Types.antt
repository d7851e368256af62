-- ===== src/Risk/Types.antt =====
-- The enumerations of backend/prisma/schema.prisma that the risk engine reads, and the numbers of
-- JavaScript that it calculates with.
use swar.Prelude.{ℕ, Bool, ◌≡◌, ◌↔◌, ◌==◌, true, arith, Eq, String}

pub data EvidenceType : Type 0 where
  identity spoof_fast spoof_deep audio_quality insufficient_evidence pipeline_error : EvidenceType

pub data EvidenceReadiness : Type 0 where
  ready insufficient error : EvidenceReadiness

pub data EvidenceMode : Type 0 where
  simulated shadow calibrated : EvidenceMode

pub data ScoreDirection : Type 0 where
  higher_means_more lower_means_more not_applicable : ScoreDirection

pub data ScoreTarget : Type 0 where
  expected_speaker spoof bonafide audio_quality : ScoreTarget

pub data ModelLifecycleStatus : Type 0 where
  registered validated active retired rejected : ModelLifecycleStatus

pub data RiskState : Type 0 where
  verified unverified high_risk critical : RiskState

pub data RiskAssessmentOutcome : Type 0 where
  state : RiskState → RiskAssessmentOutcome
  insufficient_evidence : RiskAssessmentOutcome

pub data RiskDecisionMode : Type 0 where
  engineering_test shadow calibrated_blocked production_eligible : RiskDecisionMode

pub data InterventionType : Type 0 where
  warn hold_protected_action require_step_up require_callback supervisor_escalation end_call :
      InterventionType

abbrev pub intervention_type_index : InterventionType → ℕ
intervention_type_index warn = 0
intervention_type_index hold_protected_action = 1
intervention_type_index require_step_up = 2
intervention_type_index require_callback = 3
intervention_type_index supervisor_escalation = 4
intervention_type_index end_call = 5

pub intervention_type_eq_iff :
    (a b : InterventionType)
    → ((intervention_type_index a == intervention_type_index b) ≡ true) ↔ (a ≡ b)
intervention_type_eq_iff a b = ground arith

instance abbrev pub intervention_type_eq : Eq InterventionType
intervention_type_eq = record {
  same = λ a b. intervention_type_index a == intervention_type_index b;
  same_iff = intervention_type_eq_iff;
}

-- The order in which `localeCompare` puts the names of the evidence types.
abbrev pub locale_rank : EvidenceType → ℕ
locale_rank EvidenceType.audio_quality = 0
locale_rank EvidenceType.identity = 1
locale_rank EvidenceType.insufficient_evidence = 2
locale_rank EvidenceType.pipeline_error = 3
locale_rank EvidenceType.spoof_deep = 4
locale_rank EvidenceType.spoof_fast = 5

pub evidence_type_eq_iff :
    (a b : EvidenceType) → ((locale_rank a == locale_rank b) ≡ true) ↔ (a ≡ b)
evidence_type_eq_iff a b = ground arith

instance abbrev pub evidence_type_eq : Eq EvidenceType
evidence_type_eq = record {
  same = λ a b. locale_rank a == locale_rank b;
  same_iff = evidence_type_eq_iff;
}

abbrev pub readiness_index : EvidenceReadiness → ℕ
readiness_index EvidenceReadiness.ready = 0
readiness_index EvidenceReadiness.insufficient = 1
readiness_index EvidenceReadiness.error = 2

pub readiness_eq_iff :
    (a b : EvidenceReadiness) → ((readiness_index a == readiness_index b) ≡ true) ↔ (a ≡ b)
readiness_eq_iff a b = ground arith

instance abbrev pub readiness_eq : Eq EvidenceReadiness
readiness_eq = record {
  same = λ a b. readiness_index a == readiness_index b;
  same_iff = readiness_eq_iff;
}

abbrev pub mode_index : EvidenceMode → ℕ
mode_index EvidenceMode.simulated = 0
mode_index EvidenceMode.shadow = 1
mode_index EvidenceMode.calibrated = 2

pub mode_eq_iff : (a b : EvidenceMode) → ((mode_index a == mode_index b) ≡ true) ↔ (a ≡ b)
mode_eq_iff a b = ground arith

instance abbrev pub mode_eq : Eq EvidenceMode
mode_eq = record { same = λ a b. mode_index a == mode_index b; same_iff = mode_eq_iff }

abbrev pub target_index : ScoreTarget → ℕ
target_index ScoreTarget.expected_speaker = 0
target_index ScoreTarget.spoof = 1
target_index ScoreTarget.bonafide = 2
target_index ScoreTarget.audio_quality = 3

pub target_eq_iff : (a b : ScoreTarget) → ((target_index a == target_index b) ≡ true) ↔ (a ≡ b)
target_eq_iff a b = ground arith

instance abbrev pub target_eq : Eq ScoreTarget
target_eq = record { same = λ a b. target_index a == target_index b; same_iff = target_eq_iff }

abbrev pub model_status_index : ModelLifecycleStatus → ℕ
model_status_index ModelLifecycleStatus.registered = 0
model_status_index ModelLifecycleStatus.validated = 1
model_status_index ModelLifecycleStatus.active = 2
model_status_index ModelLifecycleStatus.retired = 3
model_status_index ModelLifecycleStatus.rejected = 4

pub model_status_eq_iff :
    (a b : ModelLifecycleStatus) → ((model_status_index a == model_status_index b) ≡ true) ↔ (a ≡ b)
model_status_eq_iff a b = ground arith

instance abbrev pub model_status_eq : Eq ModelLifecycleStatus
model_status_eq = record {
  same = λ a b. model_status_index a == model_status_index b;
  same_iff = model_status_eq_iff;
}

-- stateSeverity
abbrev pub state_severity : RiskState → ℕ
state_severity RiskState.verified = 0
state_severity RiskState.unverified = 1
state_severity RiskState.high_risk = 2
state_severity RiskState.critical = 3

pub state_eq_iff : (a b : RiskState) → ((state_severity a == state_severity b) ≡ true) ↔ (a ≡ b)
state_eq_iff a b = ground arith

instance abbrev pub state_eq : Eq RiskState
state_eq = record { same = λ a b. state_severity a == state_severity b; same_iff = state_eq_iff }

-- IEEE numbers, of which the sources use these operations: they are a parameter of the model.
-- `of_nat` is a literal, `to_nat` reads a number that is an integer from 0 on, `show` is `String(x)` and
-- `epsilon` is `Number.EPSILON`.
pub record Floats : Type 1 where
  pub Number : Type 0
  pub of_nat : ℕ → Number
  pub to_nat : Number → ℕ
  pub add : Number → Number → Number
  pub sub : Number → Number → Number
  pub mul : Number → Number → Number
  pub abs : Number → Number
  pub epsilon : Number
  pub lt : Number → Number → Bool
  pub le : Number → Number → Bool
  pub is_finite : Number → Bool
  pub is_integer : Number → Bool
  pub show : Number → String
