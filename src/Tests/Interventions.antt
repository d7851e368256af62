-- ===== src/Tests/Interventions.antt =====
-- Runs of the interventions service, and its theorems at concrete rows.
use swar.Prelude.{◌≡◌, refl, true, [], ◌∷◌, none, some, ok, err}
use swar.Domain.{InterventionStatus, VerificationStatus}
use swar.Risk.Types.{InterventionType}
use swar.Auth.Accounts.{security_analyst}
use swar.Outbox.Alerts.{demo}
use swar.Interventions.Holds.{HoldRequest, HoldRecord, hold, release, new_hold, held}
use swar.Interventions.Rows.{
  Challenge, find_intervention, find_challenge, Intervention, persistence_conflict,
}
use swar.Interventions.Service.{
  release_after_verification, InterventionCall, InterventionState, cancel, hold_action,
}
use swar.Interventions.Progress.{Follows, perform, hold_it, methods_follow_transitions}
use swar.Interventions.Verified.{IsVerified, release-IsVerified}
use swar.Interventions.Replays.{release_repeats_hold}

abbrev an_intervention : Intervention
an_intervention = record {
  id = 5;
  organization_id = 1;
  call_id = 20;
  kind = InterventionType.hold_protected_action;
  status = InterventionStatus.required;
  protected_action_reference = some 60;
  acknowledged_at = none;
  resolved_at = none;
  resolved_by = none;
  execution_lease_id = none;
  execution_lease_expires_at = none;
  next_attempt_at = none;
  mode = demo;
  required_at = 90;
  execution_attempt_count = 0;
  dead_lettered_at = none;
  execution_failure_code = none;
}

abbrev a_call : InterventionCall
a_call = record {
  principal = record {
    user_id = 2;
    organization_id = 1;
    membership_id = 3;
    device_id = 4;
    session_id = 10;
    roles = security_analyst ∷ [];
  };
  intervention_id = 5;
  idempotency_key = 8;
  now = 100;
  audited = true;
}

abbrev initial : InterventionState
initial = record { rows = an_intervention ∷ []; challenges = []; holds = []; audit = [] }

abbrev in_progress : Intervention
in_progress = record an_intervention { status = InterventionStatus.in_progress }

held_now : (hold_action a_call initial).0 ≡ ok in_progress
unfolding hold_action
held_now = refl

not_cancelled :
    (cancel a_call (record initial { rows = in_progress ∷ [] })).0 ≡ err persistence_conflict
unfolding cancel
not_cancelled = refl

methods_follow_transitions_example :
    Follows (an_intervention ∷ []) (perform hold_it a_call initial).1.rows
methods_follow_transitions_example = methods_follow_transitions hold_it a_call initial

abbrev a_request : HoldRequest
a_request = record {
  organization_id = 1;
  intervention_id = 5;
  protected_action_reference = 60;
  idempotency_key = 8;
}

abbrev a_hold : HoldRecord
a_hold = new_hold held a_request

release_repeats_hold_example :
    (hold a_request (a_hold ∷ []) ≡ ok (a_hold, a_hold ∷ []))
    × (release a_request (a_hold ∷ []) ≡ ok (a_hold, a_hold ∷ []))
unfolding hold
release_repeats_hold_example = release_repeats_hold a_request [] (a_hold ∷ []) a_hold refl

abbrev a_challenge : Challenge
a_challenge = record {
  challenge_key = 9;
  challenge_organization = 1;
  challenge_intervention = 5;
  challenge_call = 20;
  challenge_status = VerificationStatus.passed;
  challenge_expires_at = 500;
  challenge_performed_by = none;
  challenge_idempotency_key = 40;
  challenge_method = "CALLBACK";
  challenge_attempt = 1;
  challenge_requested_at = 50;
  challenge_completed_at = some 60;
  challenge_result_code = some "MATCHED";
}

abbrev holding : InterventionState
holding = record { rows = in_progress ∷ []; challenges = a_challenge ∷ []; holds = []; audit = [] }

abbrev satisfied : Intervention
satisfied = record in_progress {
  status = InterventionStatus.satisfied;
  resolved_at = some 100;
  resolved_by = some 3;
}

released_now : (release_after_verification a_call 9 holding).0 ≡ ok satisfied
unfolding release_after_verification
released_now = refl

release-IsVerified_example :
    (i : Intervention) × (c : Challenge) × (find_intervention 1 5 holding.rows ≡ ok i)
    × (find_challenge 1 9 holding.challenges ≡ ok c)
    × IsVerified a_call i c
release-IsVerified_example = release-IsVerified a_call 9 holding satisfied released_now
