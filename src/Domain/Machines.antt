-- ===== src/Domain/Machines.antt =====
-- backend/src/modules/domain/domain-state-machines.ts: which status may follow which, and the
-- check that every service makes before it writes a status.
use swar.Prelude.{List, [], ◌∷◌, String, Eq, includes, Result, throw_if, not}
use swar.Domain.Statuses.{
  CallStatus, ConsentStatus, VoiceprintStatus, TrackBindingStatus, AnalysisSessionStatus,
  InterventionStatus, VerificationStatus, AlertStatus,
}

-- `Readonly<Record<T, ReadonlySet<T>>>`
abbrev pub TransitionMap : Type 0 → Type 0
TransitionMap T = T → List T

abbrev pub call_transitions : TransitionMap CallStatus
call_transitions CallStatus.requested =
    CallStatus.authorized ∷ CallStatus.cancelled ∷ CallStatus.failed ∷ []
call_transitions CallStatus.authorized =
    CallStatus.active ∷ CallStatus.cancelled ∷ CallStatus.failed ∷ []
call_transitions CallStatus.active = CallStatus.ending ∷ CallStatus.failed ∷ []
call_transitions CallStatus.ending = CallStatus.ended ∷ CallStatus.failed ∷ []
call_transitions CallStatus.ended = []
call_transitions CallStatus.cancelled = []
call_transitions CallStatus.failed = []

abbrev pub consent_transitions : TransitionMap ConsentStatus
consent_transitions ConsentStatus.granted = ConsentStatus.revoked ∷ ConsentStatus.expired ∷ []
consent_transitions ConsentStatus.revoked = []
consent_transitions ConsentStatus.expired = []

abbrev pub voiceprint_transitions : TransitionMap VoiceprintStatus
voiceprint_transitions VoiceprintStatus.enrolling =
    VoiceprintStatus.active ∷ VoiceprintStatus.failed ∷ []
voiceprint_transitions VoiceprintStatus.active =
    VoiceprintStatus.revoked ∷ VoiceprintStatus.deleted ∷ []
voiceprint_transitions VoiceprintStatus.revoked = VoiceprintStatus.deleted ∷ []
voiceprint_transitions VoiceprintStatus.failed = VoiceprintStatus.deleted ∷ []
voiceprint_transitions VoiceprintStatus.deleted = []

abbrev pub track_binding_transitions : TransitionMap TrackBindingStatus
track_binding_transitions TrackBindingStatus.authorized =
    TrackBindingStatus.active ∷ TrackBindingStatus.rejected ∷ TrackBindingStatus.revoked ∷ []
track_binding_transitions TrackBindingStatus.active =
    TrackBindingStatus.superseded ∷ TrackBindingStatus.revoked ∷ []
track_binding_transitions TrackBindingStatus.superseded = []
track_binding_transitions TrackBindingStatus.revoked = []
track_binding_transitions TrackBindingStatus.rejected = []

abbrev pub analysis_transitions : TransitionMap AnalysisSessionStatus
analysis_transitions AnalysisSessionStatus.authorized =
    AnalysisSessionStatus.starting ∷ AnalysisSessionStatus.revoked ∷ AnalysisSessionStatus.expired
    ∷ []
analysis_transitions AnalysisSessionStatus.starting =
    AnalysisSessionStatus.active ∷ AnalysisSessionStatus.failed ∷ AnalysisSessionStatus.revoked ∷ []
analysis_transitions AnalysisSessionStatus.active =
    AnalysisSessionStatus.degraded ∷ AnalysisSessionStatus.stopping ∷ AnalysisSessionStatus.failed
    ∷ AnalysisSessionStatus.expired ∷ AnalysisSessionStatus.revoked ∷ []
analysis_transitions AnalysisSessionStatus.degraded =
    AnalysisSessionStatus.active ∷ AnalysisSessionStatus.stopping ∷ AnalysisSessionStatus.failed
    ∷ AnalysisSessionStatus.expired ∷ AnalysisSessionStatus.revoked ∷ []
analysis_transitions AnalysisSessionStatus.stopping =
    AnalysisSessionStatus.stopped ∷ AnalysisSessionStatus.failed ∷ []
analysis_transitions AnalysisSessionStatus.stopped = []
analysis_transitions AnalysisSessionStatus.failed = []
analysis_transitions AnalysisSessionStatus.expired = []
analysis_transitions AnalysisSessionStatus.revoked = []

abbrev pub intervention_transitions : TransitionMap InterventionStatus
intervention_transitions InterventionStatus.required =
    InterventionStatus.acknowledged ∷ InterventionStatus.in_progress ∷ InterventionStatus.expired
    ∷ InterventionStatus.cancelled ∷ InterventionStatus.failed ∷ []
intervention_transitions InterventionStatus.acknowledged =
    InterventionStatus.in_progress ∷ InterventionStatus.expired ∷ InterventionStatus.cancelled
    ∷ InterventionStatus.failed ∷ []
intervention_transitions InterventionStatus.in_progress =
    InterventionStatus.satisfied ∷ InterventionStatus.declined ∷ InterventionStatus.expired
    ∷ InterventionStatus.failed ∷ []
intervention_transitions InterventionStatus.satisfied = []
intervention_transitions InterventionStatus.declined = []
intervention_transitions InterventionStatus.expired = []
intervention_transitions InterventionStatus.cancelled = []
intervention_transitions InterventionStatus.failed = []

abbrev pub verification_transitions : TransitionMap VerificationStatus
verification_transitions VerificationStatus.pending =
    VerificationStatus.passed ∷ VerificationStatus.failed ∷ VerificationStatus.expired
    ∷ VerificationStatus.cancelled ∷ []
verification_transitions VerificationStatus.passed = []
verification_transitions VerificationStatus.failed = []
verification_transitions VerificationStatus.expired = []
verification_transitions VerificationStatus.cancelled = []

abbrev pub alert_transitions : TransitionMap AlertStatus
alert_transitions AlertStatus.pending =
    AlertStatus.delivered ∷ AlertStatus.failed ∷ AlertStatus.cancelled ∷ []
alert_transitions AlertStatus.delivered = []
alert_transitions AlertStatus.failed = []
alert_transitions AlertStatus.cancelled = []

-- IllegalDomainTransitionError carries the aggregate and the two statuses.
pub data TransitionError (T : Type 0) : Type 0 where
  illegal_transition : String → T → T → TransitionError T

-- assertTransition
unfoldable pub assert_transition :
    {T : Type 0} ⦃e : Eq T⦄
    → String
    → TransitionMap T
    → T
    → T
    → Result (TransitionError T) (Unit {0})
assert_transition aggregate transitions from to =
    throw_if (not (includes to (transitions from))) (illegal_transition aggregate from to)
