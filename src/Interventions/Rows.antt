-- ===== src/Interventions/Rows.antt =====
-- The rows of interventions and of verification challenges, and the methods of
-- backend/src/modules/risk/risk.repository.ts on them that the interventions service calls.
use swar.Prelude.{
  String, ℕ, Bool, true, false, List, ◌&&◌, not, Option, none, some, ◌==◌, ◌===◌, if◌then◌else◌,
  find, update_many, count_many, Result, throw_if, or_throw, ◌>>◌,
}
use swar.Domain.{
  InterventionStatus, intervention_status_eq, VerificationStatus, verification_status_eq,
  TransitionError,
}
use swar.Risk.Types.{InterventionType}
use swar.Auth.Limiter.{AuthError}
use swar.Outbox.Alerts.{SecurityControlMode}

pub record Intervention : Type 0 where
  pub id : ℕ
  pub organization_id : ℕ
  pub call_id : ℕ
  pub kind : InterventionType
  pub status : InterventionStatus
  pub protected_action_reference : Option ℕ
  pub acknowledged_at : Option ℕ
  pub resolved_at : Option ℕ
  pub resolved_by : Option ℕ
  pub execution_lease_id : Option ℕ
  pub execution_lease_expires_at : Option ℕ
  pub next_attempt_at : Option ℕ
  pub mode : SecurityControlMode
  pub required_at : ℕ
  pub execution_attempt_count : ℕ
  pub dead_lettered_at : Option ℕ
  pub execution_failure_code : Option String

pub record Challenge : Type 0 where
  pub challenge_key : ℕ
  pub challenge_organization : ℕ
  pub challenge_intervention : ℕ
  pub challenge_call : ℕ
  pub challenge_status : VerificationStatus
  pub challenge_expires_at : ℕ
  pub challenge_performed_by : Option ℕ
  pub challenge_idempotency_key : ℕ
  pub challenge_method : String
  pub challenge_attempt : ℕ
  pub challenge_requested_at : ℕ
  pub challenge_completed_at : Option ℕ
  pub challenge_result_code : Option String

pub data InterventionError : Type 0 where
  not_authorized : AuthError → InterventionError
  resource_not_found : InterventionError
  persistence_conflict : InterventionError
  illegal : TransitionError InterventionStatus → InterventionError
  provider_error : InterventionStatus → InterventionError
  audit_error : InterventionError
  key_conflict : InterventionError  -- IdempotencyConflictError
  step_up_not_required : InterventionError

-- findIntervention
unfoldable pub find_intervention : ℕ → ℕ → List Intervention → Result InterventionError Intervention
find_intervention organization_id id rows =
    or_throw (find (λ i. i.organization_id == organization_id && i.id == id) rows)
      resource_not_found

-- findVerificationChallenge
unfoldable pub find_challenge : ℕ → ℕ → List Challenge → Result InterventionError Challenge
find_challenge organization_id id rows =
    or_throw (find (λ c. c.challenge_organization == organization_id && c.challenge_key == id) rows)
      resource_not_found

unfoldable pub is_resolved : InterventionStatus → Bool
is_resolved InterventionStatus.satisfied = true
is_resolved InterventionStatus.declined = true
is_resolved InterventionStatus.expired = true
is_resolved InterventionStatus.cancelled = true
is_resolved InterventionStatus.failed = true
is_resolved _ = false

abbrev pub or_previous : Option ℕ → Option ℕ → Option ℕ
or_previous none previous = previous
or_previous (some a) previous = some a

-- The `data` of updateInterventionStatus.
unfoldable pub with_status : ℕ → InterventionStatus → Option ℕ → Intervention → Intervention
unfolding is_resolved
with_status now next resolved_by i = record i {
  status = next;
  acknowledged_at =
      if next === InterventionStatus.acknowledged then some now else i.acknowledged_at;
  resolved_by = or_previous resolved_by i.resolved_by;
  resolved_at = if is_resolved next then some now else i.resolved_at;
  execution_lease_id = if is_resolved next then none else i.execution_lease_id;
  execution_lease_expires_at = if is_resolved next then none else i.execution_lease_expires_at;
  next_attempt_at = if is_resolved next then none else i.next_attempt_at;
}

unfoldable pub expected : ℕ → ℕ → InterventionStatus → Intervention → Bool
expected organization_id id status i =
    i.organization_id == organization_id && (i.id == id && i.status === status)

-- updateInterventionStatus: the result, and the rows after it.
unfoldable pub update_intervention_status :
    ℕ
    → ℕ
    → ℕ
    → InterventionStatus
    → InterventionStatus
    → Option ℕ
    → List Intervention
    → Result InterventionError Intervention × List Intervention
unfolding with_status expected update_many count_many
update_intervention_status now organization_id id status next resolved_by rows =
    let after =
      update_many (expected organization_id id status) (with_status now next resolved_by) rows in
    (
      throw_if (not (count_many (expected organization_id id status) rows == 1))
            persistence_conflict
          >> or_throw (find (λ i. i.id == id) after) resource_not_found,
      after,
    )
