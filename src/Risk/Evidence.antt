-- ===== src/Risk/Evidence.antt =====
-- The input of the engine: `RiskEngineEvidence` of risk-engine.ts and the policy document
-- `RiskPolicyDocumentV1` of risk-policy.ts, both under backend/src/modules/risk. Identifiers are only
-- compared, so they are numbers; times are milliseconds.
use swar.Prelude.{ℕ, Bool, String, List, Option}
use swar.Risk.Types.{
  EvidenceType, EvidenceReadiness, EvidenceMode, ScoreDirection, ScoreTarget, ModelLifecycleStatus,
  InterventionType,
}

pub record Evidence (Number : Type 0) : Type 0 where
  pub id : ℕ
  pub evidence_mode : EvidenceMode
  pub evidence_type : EvidenceType
  pub readiness : EvidenceReadiness
  pub window_sequence : ℕ
  pub event_sequence : ℕ
  pub revision : ℕ
  pub observed_at : ℕ
  pub quality_score : Option Number
  pub speech_duration_ms : Option ℕ
  pub reason_codes : List String
  pub raw_score : Option Number
  pub calibrated_score : Option Number
  pub calibration_version : Option String
  pub score_direction : ScoreDirection
  pub score_target : Option ScoreTarget
  pub model_status : Option ModelLifecycleStatus
  pub model_trace_matches : Bool

-- The last constructor is a value that is no text, and that `String` turns into one of the two names.
pub data ActivationMode : Type 0 where
  engineering_only production coerced_mode : ActivationMode

pub data ThresholdClassification : Type 0 where
  engineering_fixture_not_calibrated promoted_calibration coerced_classification :
      ThresholdClassification

pub record Hysteresis : Type 0 where
  pub entry_consecutive_windows : ℕ
  pub clear_consecutive_windows : ℕ
  pub maximum_window_gap : ℕ

pub record Quality (Number : Type 0) : Type 0 where
  pub minimum_score : Number
  pub minimum_speech_duration_ms : ℕ
  pub rejecting_reason_codes : List String

pub record Thresholds (Number : Type 0) : Type 0 where
  pub identity_enter : Number
  pub identity_clear : Number
  pub spoof_enter : Number
  pub spoof_clear : Number

pub record Fusion (Number : Type 0) : Type 0 where
  pub fast_weight : Number
  pub deep_weight : Number

pub record Interventions : Type 0 where
  pub high_risk : List InterventionType
  pub critical : List InterventionType

-- `schemaVersion` has one value and is left out.
pub record RiskPolicy (Number : Type 0) : Type 0 where
  pub activation_mode : ActivationMode
  pub threshold_classification : ThresholdClassification
  pub threshold_version : String
  pub calibration_version : Option String
  pub quality : Quality Number
  pub thresholds : Thresholds Number
  pub fusion : Fusion Number
  pub hysteresis : Hysteresis
  pub interventions : Interventions
