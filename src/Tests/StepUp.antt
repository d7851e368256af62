-- ===== src/Tests/StepUp.antt =====
-- Runs of the step-up verification, and the theorems on it applied there.
use swar.Prelude.{◌≡◌, refl, true, [], ◌∷◌, none, some, ok, err, any, find, count_many, arith, ◌≤◌}
use swar.Domain.{InterventionStatus, VerificationStatus}
use swar.Risk.Types.{InterventionType}
use swar.Auth.Accounts.{AuthPrincipal, security_analyst}
use swar.Outbox.Alerts.{demo}
use swar.Interventions.Rows.{Challenge, Intervention, key_conflict, persistence_conflict}
use swar.Interventions.StepUp.{
  StepUpInput, request, complete, passed, failed, is_attempt, has_key, is_challenge, completed,
}
use swar.Interventions.Challenges.{IsRefused, request-IsRefused}
use swar.Interventions.Completions.{completed_once}

abbrev a_hold_row : Intervention
a_hold_row = record {
  id = 5;
  organization_id = 1;
  call_id = 20;
  kind = InterventionType.hold_protected_action;
  status = InterventionStatus.in_progress;
  protected_action_reference = some 60;
  acknowledged_at = none;
  resolved_at = none;
  resolved_by = none;
  execution_lease_id = none;
  execution_lease_expires_at = none;
  next_attempt_at = none;
  mode = demo;
  required_at = 90;
  execution_attempt_count = 0;
  dead_lettered_at = none;
  execution_failure_code = none;
}

abbrev an_analyst : AuthPrincipal
an_analyst = record {
  user_id = 2;
  organization_id = 1;
  membership_id = 3;
  device_id = 4;
  session_id = 10;
  roles = security_analyst ∷ [];
}

abbrev second_request : StepUpInput
second_request = record {
  step_up_challenge = 10;
  step_up_intervention = 5;
  step_up_method = "CALLBACK";
  step_up_key = 41;
}

abbrev open_challenge : Challenge
open_challenge = record {
  challenge_key = 9;
  challenge_organization = 1;
  challenge_intervention = 5;
  challenge_call = 20;
  challenge_status = VerificationStatus.pending;
  challenge_expires_at = 500;
  challenge_performed_by = some 3;
  challenge_idempotency_key = 40;
  challenge_method = "CALLBACK";
  challenge_attempt = 1;
  challenge_requested_at = 50;
  challenge_completed_at = none;
  challenge_result_code = none;
}

-- The first challenge was failed; a second one is refused.
abbrev failed_challenge : Challenge
failed_challenge = completed 60 failed "MISMATCH" open_challenge

second_refused :
    request 300 (a_hold_row ∷ []) 1000 an_analyst second_request (failed_challenge ∷ [])
    ≡ (err key_conflict, failed_challenge ∷ [])
unfolding request completed
second_refused = refl

attempted : any (is_attempt 1 5 1) (failed_challenge ∷ []) ≡ true
unfolding is_attempt completed
attempted = refl

unused_key : find (has_key 1 41) (failed_challenge ∷ []) ≡ none
unfolding has_key completed
unused_key = refl

request-IsRefused_example :
    IsRefused
      (request 300 (a_hold_row ∷ []) 1000 an_analyst second_request (failed_challenge ∷ []))
      (failed_challenge ∷ [])
request-IsRefused_example =
    request-IsRefused 300 1000 (a_hold_row ∷ []) an_analyst second_request (failed_challenge ∷ [])
      attempted unused_key

first_completion :
    complete 1 9 60 failed "MISMATCH" (open_challenge ∷ [])
    ≡ (ok failed_challenge, failed_challenge ∷ [])
unfolding complete completed
first_completion = refl

one_row : count_many (is_challenge 1 9) (open_challenge ∷ []) ≤ 1
unfolding count_many is_challenge
one_row = omega arith

completed_once_example :
    complete 1 9 70 passed "MATCHED" (failed_challenge ∷ [])
    ≡ (err persistence_conflict, failed_challenge ∷ [])
unfolding swar.Interventions.StepUp.status_of
completed_once_example =
    completed_once 1 9 60 70 failed passed "MISMATCH" "MATCHED" (open_challenge ∷ [])
      (failed_challenge ∷ []) failed_challenge one_row first_completion
