-- ===== src/Interventions/Service.antt =====
-- backend/src/modules/interventions/interventions.service.ts, method by method, with the demo adapter
-- as the provider. Whether the audit log takes an entry is part of a call; its entries are kept with
-- their actions.
use swar.Prelude.{
  ℕ, Bool, List, ◌∷◌, ◌&&◌, ◌||◌, not, Option, none, some, ◌==◌, ◌===◌, leb, if◌then◌else◌, Result,
  ok, err, ◌>>◌,
}
use swar.Domain.{
  InterventionStatus, intervention_status_eq, VerificationStatus, verification_status_eq,
  TransitionError, intervention_transitions, assert_transition,
}
use swar.Risk.Types.{InterventionType, intervention_type_eq}
use swar.Auth.Accounts.{AuthPrincipal}
use swar.Auth.Limiter.{AuthError}
use swar.Auth.Permissions.{assert, intervention_resolve}
use swar.Interventions.Holds.{HoldRequest, HoldRecord, hold, release, IdempotencyConflict}
use swar.Interventions.Rows.{
  Intervention, Challenge, InterventionError, not_authorized, persistence_conflict, illegal,
  provider_error, audit_error, find_intervention, find_challenge, update_intervention_status,
}

pub data AuditAction : Type 0 where
  acknowledged cancelled hold_provider_unknown hold_applied release_provider_unknown hold_released :
      AuditAction

pub record InterventionState : Type 0 where
  pub rows : List Intervention
  pub challenges : List Challenge
  pub holds : List HoldRecord
  pub audit : List AuditAction

pub record InterventionCall : Type 0 where
  pub principal : AuthPrincipal
  pub intervention_id : ℕ
  pub idempotency_key : ℕ
  pub now : ℕ
  pub audited : Bool

abbrev pub Outcome : Type 0
Outcome = Result InterventionError Intervention × InterventionState

-- What precedes every method: the permission, and the intervention.
unfoldable pub authorized :
    InterventionCall → InterventionState → Result InterventionError Intervention
unfolding assert find_intervention
authorized call s =
    permitted (assert call.principal intervention_resolve call.principal.organization_id)
    >> find_intervention call.principal.organization_id call.intervention_id s.rows
  where
    permitted : Result AuthError (Unit {0}) → Result InterventionError (Unit {0})
    permitted (ok _) = ok tt
    permitted (err e) = err (not_authorized e)

unfoldable pub assert_intervention :
    InterventionStatus → InterventionStatus → Result InterventionError (Unit {0})
unfolding assert_transition
assert_intervention from to =
    lift (assert_transition "Intervention" intervention_transitions from to)
  where
    lift :
        Result (TransitionError InterventionStatus) (Unit {0}) → Result InterventionError (Unit {0})
    lift (ok _) = ok tt
    lift (err e) = err (illegal e)

-- An audit entry that is refused throws after the change that it is about.
unfoldable pub audit_with :
    InterventionCall
    → AuditAction
    → Result InterventionError Intervention
    → InterventionState
    → Outcome
audit_with call action result s =
    if call.audited then (result, record s { audit = action ∷ s.audit }) else (err audit_error, s)

unfoldable pub after_update :
    InterventionCall
    → AuditAction
    → InterventionState
    → Result InterventionError Intervention × List Intervention
    → Outcome
unfolding audit_with
after_update call action s (err e, after) = (err e, record s { rows = after })
after_update call action s (ok i, after) = audit_with call action (ok i) (record s { rows = after })

-- The update and the audit entry that end every method.
unfoldable pub finish :
    InterventionCall
    → ℕ
    → InterventionStatus
    → InterventionStatus
    → Option ℕ
    → AuditAction
    → InterventionState
    → Outcome
unfolding update_intervention_status after_update
finish call id from to resolved_by action s = after_update call action s (
    update_intervention_status call.now call.principal.organization_id id from to resolved_by
      s.rows)

-- `if` a test throws, with the state as it is.
abbrev pub checked : Result InterventionError (Unit {0}) → InterventionState → Outcome → Outcome
checked (err e) s k = (err e, s)
checked (ok _) s k = k

unfoldable pub acknowledge_found :
    InterventionCall → Result InterventionError Intervention → InterventionState → Outcome
unfolding assert_intervention finish
acknowledge_found call (err e) s = (err e, s)
acknowledge_found call (ok i) s =
    if i.status === InterventionStatus.acknowledged
    then (ok i, s)
    else checked (assert_intervention i.status InterventionStatus.acknowledged) s (
        finish call i.id i.status InterventionStatus.acknowledged
          (some call.principal.membership_id) acknowledged s)

unfoldable pub acknowledge : InterventionCall → InterventionState → Outcome
unfolding authorized acknowledge_found
acknowledge call s = acknowledge_found call (authorized call s) s

unfoldable pub cancel_found :
    InterventionCall → Result InterventionError Intervention → InterventionState → Outcome
unfolding assert_intervention finish
cancel_found call (err e) s = (err e, s)
cancel_found call (ok i) s =
    if i.status === InterventionStatus.cancelled
    then (ok i, s)
    else (if i.status === InterventionStatus.in_progress
        then (err persistence_conflict, s)
        else checked (assert_intervention i.status InterventionStatus.cancelled) s (
            finish call i.id i.status InterventionStatus.cancelled
              (some call.principal.membership_id) cancelled s))

unfoldable pub cancel : InterventionCall → InterventionState → Outcome
unfolding authorized cancel_found
cancel call s = cancel_found call (authorized call s) s

abbrev pub request_of : InterventionCall → Intervention → ℕ → HoldRequest
request_of call i reference = record {
  organization_id = call.principal.organization_id;
  intervention_id = i.id;
  protected_action_reference = reference;
  idempotency_key = call.idempotency_key;
}

-- A call of the provider: where it throws, that is audited, and the method throws.
unfoldable pub provided :
    InterventionCall
    → Result IdempotencyConflict (HoldRecord × List HoldRecord)
    → AuditAction
    → InterventionStatus
    → InterventionState
    → (InterventionState → Outcome)
    → Outcome
unfolding audit_with
provided call (err e) action status s k = audit_with call action (err (provider_error status)) s
provided call (ok answer) action status s k = k (record s { holds = answer.1 })

unfoldable pub hold_referenced :
    InterventionCall → Intervention → Option ℕ → InterventionState → Outcome
unfolding assert_intervention finish provided hold
hold_referenced call i none s = (err persistence_conflict, s)
hold_referenced call i (some reference) s =
    if not (i.kind === InterventionType.hold_protected_action)
    then (err persistence_conflict, s)
    else (if i.status === InterventionStatus.in_progress
        then (ok i, s)
        else checked (assert_intervention i.status InterventionStatus.in_progress) s (
            provided call (hold (request_of call i reference) s.holds) hold_provider_unknown
              i.status s
              (finish call i.id i.status InterventionStatus.in_progress none hold_applied)))

unfoldable pub hold_found :
    InterventionCall → Result InterventionError Intervention → InterventionState → Outcome
unfolding hold_referenced
hold_found call (err e) s = (err e, s)
hold_found call (ok i) s = hold_referenced call i i.protected_action_reference s

unfoldable pub hold_action : InterventionCall → InterventionState → Outcome
unfolding authorized hold_found
hold_action call s = hold_found call (authorized call s) s

-- The challenge is about this intervention on this call, was passed, and has not run out.
unfoldable pub verifies : ℕ → Challenge → Intervention → Bool
verifies now c i =
    c.challenge_intervention == i.id
    && (c.challenge_call == i.call_id
        && (c.challenge_status === VerificationStatus.passed
            && not (leb c.challenge_expires_at now)))

unfoldable pub release_verified :
    InterventionCall → Intervention → Challenge → Option ℕ → InterventionState → Outcome
unfolding assert_intervention finish provided release verifies
release_verified call i c none s = (err persistence_conflict, s)
release_verified call i c (some reference) s =
    if not (i.kind === InterventionType.hold_protected_action)
      || (not (i.status === InterventionStatus.in_progress) || not (verifies call.now c i))
    then (err persistence_conflict, s)
    else checked (assert_intervention i.status InterventionStatus.satisfied) s (
        provided call (release (request_of call i reference) s.holds) release_provider_unknown
          InterventionStatus.in_progress s
          (finish call i.id InterventionStatus.in_progress InterventionStatus.satisfied
            (some call.principal.membership_id) hold_released))

unfoldable pub release_found :
    InterventionCall
    → Result InterventionError Intervention
    → Result InterventionError Challenge
    → InterventionState
    → Outcome
unfolding release_verified
release_found call (err e) c s = (err e, s)
release_found call (ok i) (err e) s = (err e, s)
release_found call (ok i) (ok c) s = release_verified call i c i.protected_action_reference s

-- releaseAfterIndependentVerification
unfoldable pub release_after_verification : InterventionCall → ℕ → InterventionState → Outcome
unfolding authorized release_found find_challenge
release_after_verification call challenge_id s =
    release_found call (authorized call s)
      (find_challenge call.principal.organization_id challenge_id s.challenges) s
