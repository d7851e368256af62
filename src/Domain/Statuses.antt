-- ===== src/Domain/Statuses.antt =====
-- The status enumerations of backend/prisma/schema.prisma that carry a life cycle. Constructors are the
-- source's names in lower case; two types share some of them.
use swar.Prelude.{ℕ, true, ◌≡◌, ◌↔◌, ◌==◌, arith, Eq}

pub data CallStatus : Type 0 where
  requested authorized active ending ended cancelled failed : CallStatus

pub data ConsentStatus : Type 0 where
  granted revoked expired : ConsentStatus

pub data VoiceprintStatus : Type 0 where
  enrolling active revoked deleted failed : VoiceprintStatus

pub data TrackBindingStatus : Type 0 where
  authorized active superseded revoked rejected : TrackBindingStatus

pub data AnalysisSessionStatus : Type 0 where
  authorized starting active degraded stopping stopped failed expired revoked :
      AnalysisSessionStatus

pub data InterventionStatus : Type 0 where
  required acknowledged in_progress satisfied declined expired cancelled failed : InterventionStatus

pub data VerificationStatus : Type 0 where
  pending passed failed expired cancelled : VerificationStatus

pub data AlertStatus : Type 0 where
  pending delivered failed cancelled : AlertStatus

-- Each status has a position in its enumeration, by which statuses are compared.

abbrev pub call_status_index : CallStatus → ℕ
call_status_index CallStatus.requested = 0
call_status_index CallStatus.authorized = 1
call_status_index CallStatus.active = 2
call_status_index CallStatus.ending = 3
call_status_index CallStatus.ended = 4
call_status_index CallStatus.cancelled = 5
call_status_index CallStatus.failed = 6

pub call_status_eq_iff :
    (a b : CallStatus) → ((call_status_index a == call_status_index b) ≡ true) ↔ (a ≡ b)
call_status_eq_iff a b = ground arith

instance abbrev pub call_status_eq : Eq CallStatus
call_status_eq = record {
  same = λ a b. call_status_index a == call_status_index b;
  same_iff = call_status_eq_iff;
}

abbrev pub consent_status_index : ConsentStatus → ℕ
consent_status_index ConsentStatus.granted = 0
consent_status_index ConsentStatus.revoked = 1
consent_status_index ConsentStatus.expired = 2

pub consent_status_eq_iff :
    (a b : ConsentStatus) → ((consent_status_index a == consent_status_index b) ≡ true) ↔ (a ≡ b)
consent_status_eq_iff a b = ground arith

instance abbrev pub consent_status_eq : Eq ConsentStatus
consent_status_eq = record {
  same = λ a b. consent_status_index a == consent_status_index b;
  same_iff = consent_status_eq_iff;
}

abbrev pub voiceprint_status_index : VoiceprintStatus → ℕ
voiceprint_status_index VoiceprintStatus.enrolling = 0
voiceprint_status_index VoiceprintStatus.active = 1
voiceprint_status_index VoiceprintStatus.revoked = 2
voiceprint_status_index VoiceprintStatus.deleted = 3
voiceprint_status_index VoiceprintStatus.failed = 4

pub voiceprint_status_eq_iff :
    (a b : VoiceprintStatus)
    → ((voiceprint_status_index a == voiceprint_status_index b) ≡ true) ↔ (a ≡ b)
voiceprint_status_eq_iff a b = ground arith

instance abbrev pub voiceprint_status_eq : Eq VoiceprintStatus
voiceprint_status_eq = record {
  same = λ a b. voiceprint_status_index a == voiceprint_status_index b;
  same_iff = voiceprint_status_eq_iff;
}

abbrev pub track_binding_status_index : TrackBindingStatus → ℕ
track_binding_status_index TrackBindingStatus.authorized = 0
track_binding_status_index TrackBindingStatus.active = 1
track_binding_status_index TrackBindingStatus.superseded = 2
track_binding_status_index TrackBindingStatus.revoked = 3
track_binding_status_index TrackBindingStatus.rejected = 4

pub track_binding_status_eq_iff :
    (a b : TrackBindingStatus)
    → ((track_binding_status_index a == track_binding_status_index b) ≡ true) ↔ (a ≡ b)
track_binding_status_eq_iff a b = ground arith

instance abbrev pub track_binding_status_eq : Eq TrackBindingStatus
track_binding_status_eq = record {
  same = λ a b. track_binding_status_index a == track_binding_status_index b;
  same_iff = track_binding_status_eq_iff;
}

abbrev pub analysis_session_status_index : AnalysisSessionStatus → ℕ
analysis_session_status_index AnalysisSessionStatus.authorized = 0
analysis_session_status_index AnalysisSessionStatus.starting = 1
analysis_session_status_index AnalysisSessionStatus.active = 2
analysis_session_status_index AnalysisSessionStatus.degraded = 3
analysis_session_status_index AnalysisSessionStatus.stopping = 4
analysis_session_status_index AnalysisSessionStatus.stopped = 5
analysis_session_status_index AnalysisSessionStatus.failed = 6
analysis_session_status_index AnalysisSessionStatus.expired = 7
analysis_session_status_index AnalysisSessionStatus.revoked = 8

pub analysis_session_status_eq_iff :
    (a b : AnalysisSessionStatus)
    → ((analysis_session_status_index a == analysis_session_status_index b) ≡ true) ↔ (a ≡ b)
analysis_session_status_eq_iff a b = ground arith

instance abbrev pub analysis_session_status_eq : Eq AnalysisSessionStatus
analysis_session_status_eq = record {
  same = λ a b. analysis_session_status_index a == analysis_session_status_index b;
  same_iff = analysis_session_status_eq_iff;
}

abbrev pub intervention_status_index : InterventionStatus → ℕ
intervention_status_index InterventionStatus.required = 0
intervention_status_index InterventionStatus.acknowledged = 1
intervention_status_index InterventionStatus.in_progress = 2
intervention_status_index InterventionStatus.satisfied = 3
intervention_status_index InterventionStatus.declined = 4
intervention_status_index InterventionStatus.expired = 5
intervention_status_index InterventionStatus.cancelled = 6
intervention_status_index InterventionStatus.failed = 7

pub intervention_status_eq_iff :
    (a b : InterventionStatus)
    → ((intervention_status_index a == intervention_status_index b) ≡ true) ↔ (a ≡ b)
intervention_status_eq_iff a b = ground arith

instance abbrev pub intervention_status_eq : Eq InterventionStatus
intervention_status_eq = record {
  same = λ a b. intervention_status_index a == intervention_status_index b;
  same_iff = intervention_status_eq_iff;
}

abbrev pub verification_status_index : VerificationStatus → ℕ
verification_status_index VerificationStatus.pending = 0
verification_status_index VerificationStatus.passed = 1
verification_status_index VerificationStatus.failed = 2
verification_status_index VerificationStatus.expired = 3
verification_status_index VerificationStatus.cancelled = 4

pub verification_status_eq_iff :
    (a b : VerificationStatus)
    → ((verification_status_index a == verification_status_index b) ≡ true) ↔ (a ≡ b)
verification_status_eq_iff a b = ground arith

instance abbrev pub verification_status_eq : Eq VerificationStatus
verification_status_eq = record {
  same = λ a b. verification_status_index a == verification_status_index b;
  same_iff = verification_status_eq_iff;
}

abbrev pub alert_status_index : AlertStatus → ℕ
alert_status_index AlertStatus.pending = 0
alert_status_index AlertStatus.delivered = 1
alert_status_index AlertStatus.failed = 2
alert_status_index AlertStatus.cancelled = 3

pub alert_status_eq_iff :
    (a b : AlertStatus) → ((alert_status_index a == alert_status_index b) ≡ true) ↔ (a ≡ b)
alert_status_eq_iff a b = ground arith

instance abbrev pub alert_status_eq : Eq AlertStatus
alert_status_eq = record {
  same = λ a b. alert_status_index a == alert_status_index b;
  same_iff = alert_status_eq_iff;
}
