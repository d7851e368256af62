-- ===== src/Tests/Executor.antt =====
-- A run of the executor of demo interventions, and the theorem on it applied there.
use swar.Prelude.{any, ◌&&◌, ◌≡◌, refl, true, false, [], ◌∷◌, none, err, arith}
use swar.Domain.{InterventionStatus}
use swar.Risk.Types.{InterventionType}
use swar.Outbox.Alerts.{demo}
use swar.Interventions.Rows.{Intervention}
use swar.Outbox.Repository.{is_null}
use swar.Interventions.Executor.{
  ExecutorLimits, ExecutorState, execute_pending, execution_lease, execution_held,
  attempt_execution, execute_claimed, write_refused, hold_reference_missing,
}
use swar.Interventions.Executions.{AllAttempts, execute-AllAttempts, last_failure_throws}

-- A hold without a reference, which was tried twice and always fails.
abbrev hopeless : Intervention
hopeless = record {
  id = 5;
  organization_id = 1;
  call_id = 20;
  kind = InterventionType.hold_protected_action;
  status = InterventionStatus.required;
  protected_action_reference = none;
  acknowledged_at = none;
  resolved_at = none;
  resolved_by = none;
  execution_lease_id = none;
  execution_lease_expires_at = none;
  next_attempt_at = none;
  mode = demo;
  required_at = 90;
  execution_attempt_count = 2;
  dead_lettered_at = none;
  execution_failure_code = none;
}

abbrev three_attempts : ExecutorLimits
three_attempts = record {
  batch_size = 10;
  maximum_attempts = 3;
  lease_ms = 1000;
  retry_base_ms = 500;
}

abbrev one_hopeless : ExecutorState
one_hopeless = record {
  interventions = hopeless ∷ [];
  hold_records = [];
  receipts = [];
  audited_actions = [];
  running = false;
  stopping = false;
}

abbrev leased_hopeless : ExecutorState
leased_hopeless = record one_hopeless { interventions = execution_lease 70 1100 hopeless ∷ [] }

no_reference :
    attempt_execution three_attempts 100 (λ k. k) (λ a id. true) 70 hopeless leased_hopeless
    ≡ (err hold_reference_missing, leased_hopeless)
unfolding attempt_execution
no_reference = refl

unresolved :
    any (λ i. execution_held 70 hopeless i && is_null i.resolved_at) leased_hopeless.interventions
    ≡ true
unfolding execution_held execution_lease
unresolved = refl

last_failure_throws_example :
    execute_claimed three_attempts 100 (λ k. k) (λ a id. true) 70 hopeless true leased_hopeless
    ≡ (err write_refused, leased_hopeless)
last_failure_throws_example =
    last_failure_throws three_attempts 100 (λ k. k) (λ a id. true) 70 hopeless leased_hopeless
      leased_hopeless hold_reference_missing no_reference (omega arith) unresolved

never_given_up :
    (execute_pending three_attempts 100 (λ k. k) (λ a id. true) false (λ k. 70) one_hopeless).0
    ≡ err write_refused
unfolding execute_pending
never_given_up = refl

execute-AllAttempts_example :
    AllAttempts 3
      (execute_pending three_attempts 100 (λ k. k) (λ a id. true) false (λ k. 70) one_hopeless).1
execute-AllAttempts_example =
    execute-AllAttempts three_attempts 100 (λ k. k) (λ a id. true) false (λ k. 70) one_hopeless
      ((omega arith, λ e. ground (arith, e)), tt)
