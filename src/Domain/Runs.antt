-- ===== src/Domain/Runs.antt =====
-- Histories of statuses in which every change passes `assert_transition`.
use swar.Prelude.{ℕ, suc, ◌+◌, ◌≤◌, ◌<◌, ◌≡◌, String, Eq, ok, arith, zero}
use swar.Domain.Statuses.{
  CallStatus, ConsentStatus, VoiceprintStatus, InterventionStatus, call_status_eq,
  consent_status_eq, voiceprint_status_eq, track_binding_status_eq, analysis_session_status_eq,
  intervention_status_eq, verification_status_eq, alert_status_eq,
}
use swar.Domain.Machines.{
  TransitionMap, assert_transition, call_transitions, consent_transitions, voiceprint_transitions,
  intervention_transitions,
}

-- `Run map n s t`: n accepted changes lead from status s to status t.
pub data Run {T : Type 0} ⦃e : Eq T⦄ (m : TransitionMap T) : ℕ → T → T → Type 0 where
  stay : {s : T} → Run m zero s s
  change :
      {n : ℕ} {s t u : T} (aggregate : String)
      → assert_transition aggregate m s t ≡ ok tt
      → Run m n t u
      → Run m (suc n) s u

-- `Falls rank m`: every accepted change lowers the rank.
abbrev pub Falls : {T : Type 0} ⦃e : Eq T⦄ → (T → ℕ) → TransitionMap T → Type 0
Falls {T} rank m =
    (aggregate : String) (s t : T) → assert_transition aggregate m s t ≡ ok tt → rank t < rank s

-- Where each change lowers a rank, a history is no longer than the rank that it began with.
pub Run-bounded :
    {T : Type 0} ⦃e : Eq T⦄ (rank : T → ℕ) (m : TransitionMap T)
    → Falls rank m
    → {n : ℕ} {s t : T} → Run m n s t
    → n + rank t ≤ rank s
Run-bounded rank m f stay = omega arith
Run-bounded rank m f (change {s = s} {t = t} aggregate h r) =
    omega (arith, f aggregate s t h, Run-bounded rank m f r)

abbrev pub call_rank : CallStatus → ℕ
call_rank CallStatus.requested = 4
call_rank CallStatus.authorized = 3
call_rank CallStatus.active = 2
call_rank CallStatus.ending = 1
call_rank _ = 0

abbrev pub consent_rank : ConsentStatus → ℕ
consent_rank ConsentStatus.granted = 1
consent_rank _ = 0

abbrev pub voiceprint_rank : VoiceprintStatus → ℕ
voiceprint_rank VoiceprintStatus.enrolling = 3
voiceprint_rank VoiceprintStatus.active = 2
voiceprint_rank VoiceprintStatus.deleted = 0
voiceprint_rank _ = 1

abbrev pub intervention_rank : InterventionStatus → ℕ
intervention_rank InterventionStatus.required = 3
intervention_rank InterventionStatus.acknowledged = 2
intervention_rank InterventionStatus.in_progress = 1
intervention_rank _ = 0

call-Falls : Falls call_rank call_transitions
unfolding assert_transition
call-Falls aggregate s t h = ground arith

consent-Falls : Falls consent_rank consent_transitions
unfolding assert_transition
consent-Falls aggregate s t h = ground arith

voiceprint-Falls : Falls voiceprint_rank voiceprint_transitions
unfolding assert_transition
voiceprint-Falls aggregate s t h = ground arith

intervention-Falls : Falls intervention_rank intervention_transitions
unfolding assert_transition
intervention-Falls aggregate s t h = ground arith

-- In a history of which every change is one that assertTransition accepts, a call changes status at
-- most four times, a voiceprint and an intervention at most three times, and a consent at most once.
-- A write of a status that does not ask assertTransition is no part of such a history.
pub lifecycles_end :
    (n : ℕ)
    → ((s t : CallStatus) → Run call_transitions n s t → n ≤ 4)
      × ((s t : VoiceprintStatus) → Run voiceprint_transitions n s t → n ≤ 3)
      × ((s t : InterventionStatus) → Run intervention_transitions n s t → n ≤ 3)
      × ((s t : ConsentStatus) → Run consent_transitions n s t → n ≤ 1)
lifecycles_end n = (
  λ s t r. ground (arith, Run-bounded call_rank call_transitions call-Falls r),
  λ s t r. ground (arith, Run-bounded voiceprint_rank voiceprint_transitions voiceprint-Falls r),
  λ s t r.
      ground (arith, Run-bounded intervention_rank intervention_transitions intervention-Falls r),
  λ s t r. ground (arith, Run-bounded consent_rank consent_transitions consent-Falls r),
)
