-- ===== src/Interventions/StepUp.antt =====
-- backend/src/modules/interventions/step-up.service.ts, and the methods of
-- backend/src/modules/risk/risk.repository.ts on verification challenges that it calls.
use swar.Prelude.{
  ℕ, Bool, true, false, List, [], ◌∷◌, ◌++◌, ◌&&◌, ◌||◌, ◌+◌, ◌*◌, not, Option, none, some, String,
  ltb, ◌==◌, ◌===◌, if◌then◌else◌, find, any, string_eq, update_many, count_many, Result, ok, err,
}
use swar.Domain.{VerificationStatus, verification_status_eq}
use swar.Effects.{Effect, done, throws, query, reads, refuse_if, ◌>>=◌, ◌>>◌}
use swar.Risk.Types.{
  InterventionType, hold_protected_action, require_step_up, require_callback, intervention_type_eq,
}
use swar.Auth.Accounts.{AuthPrincipal}
use swar.Auth.Limiter.{AuthError}
use swar.Auth.Permissions.{assert, intervention_resolve}
use swar.Interventions.Rows.{
  Intervention, Challenge, InterventionError, not_authorized, persistence_conflict, key_conflict,
  step_up_not_required, find_intervention, find_challenge,
}

abbrev pub ChallengeEffect : Type 0 → Type 0
ChallengeEffect A = Effect (List Challenge) InterventionError A

-- The input of createVerificationChallenge, with the identifier that the row gets.
pub record ChallengeInput : Type 0 where
  pub new_challenge : ℕ
  pub input_call : ℕ
  pub input_intervention : ℕ
  pub input_performed_by : Option ℕ
  pub input_challenge_key : ℕ
  pub input_method : String
  pub input_attempt : ℕ
  pub input_expires_at : ℕ

unfoldable pub challenge_row : ℕ → ℕ → ChallengeInput → Challenge
challenge_row organization_id now input = record {
  challenge_key = input.new_challenge;
  challenge_organization = organization_id;
  challenge_intervention = input.input_intervention;
  challenge_call = input.input_call;
  challenge_status = VerificationStatus.pending;
  challenge_expires_at = input.input_expires_at;
  challenge_performed_by = input.input_performed_by;
  challenge_idempotency_key = input.input_challenge_key;
  challenge_method = input.input_method;
  challenge_attempt = input.input_attempt;
  challenge_requested_at = now;
  challenge_completed_at = none;
  challenge_result_code = none;
}

unfoldable pub has_key : ℕ → ℕ → Challenge → Bool
has_key organization_id key c =
    c.challenge_organization == organization_id && c.challenge_idempotency_key == key

-- `@@unique([organizationId, interventionId, attemptNumber])` of the table.
unfoldable pub is_attempt : ℕ → ℕ → ℕ → Challenge → Bool
is_attempt organization_id intervention_id attempt c =
    c.challenge_organization == organization_id
    && (c.challenge_intervention == intervention_id && c.challenge_attempt == attempt)

unfoldable pub same_challenge : ChallengeInput → Challenge → Bool
same_challenge input c =
    c.challenge_call == input.input_call
    && (c.challenge_intervention == input.input_intervention
        && (c.challenge_method === input.input_method
            && c.challenge_attempt == input.input_attempt))

abbrev pub stored_or_conflict : Option Challenge → ChallengeEffect Challenge
stored_or_conflict none rows = (err key_conflict, rows)
stored_or_conflict (some c) rows = (ok c, rows)

-- The create, which the unique indexes refuse where another row stands.
unfoldable pub insert_challenge : ℕ → ℕ → ChallengeInput → ChallengeEffect Challenge
unfolding has_key is_attempt challenge_row
insert_challenge organization_id now input rows =
    if any (has_key organization_id input.input_challenge_key) rows
      || any (is_attempt organization_id input.input_intervention input.input_attempt) rows
    then stored_or_conflict (find (has_key organization_id input.input_challenge_key) rows) rows
    else (
      ok (challenge_row organization_id now input),
      rows ++ challenge_row organization_id now input ∷ [],
    )

unfoldable pub create_found : ℕ → ℕ → ChallengeInput → Option Challenge → ChallengeEffect Challenge
unfolding done throws insert_challenge same_challenge
create_found organization_id now input none = insert_challenge organization_id now input
create_found organization_id now input (some c) =
    if same_challenge input c then done c else throws key_conflict

-- createVerificationChallenge
unfoldable pub create_challenge : ℕ → ℕ → ChallengeInput → ChallengeEffect Challenge
unfolding ◌>>=◌ reads refuse_if has_key create_found
create_challenge organization_id now input = do
  refuse_if (ltb input.input_attempt 1) persistence_conflict
  existing ← reads (λ rows. find (has_key organization_id input.input_challenge_key) rows)
  create_found organization_id now input existing

pub data VerificationResult : Type 0 where
  passed failed : VerificationResult

unfoldable pub status_of : VerificationResult → VerificationStatus
status_of passed = VerificationStatus.passed
status_of failed = VerificationStatus.failed

unfoldable pub is_challenge : ℕ → ℕ → Challenge → Bool
is_challenge organization_id id c =
    c.challenge_organization == organization_id && c.challenge_key == id

unfoldable pub completable : ℕ → ℕ → ℕ → Challenge → Bool
unfolding is_challenge
completable organization_id id now c =
    is_challenge organization_id id c
    && (c.challenge_status === VerificationStatus.pending && ltb now c.challenge_expires_at)

unfoldable pub completed : ℕ → VerificationResult → String → Challenge → Challenge
unfolding status_of
completed now result code c = record c {
  challenge_status = status_of result;
  challenge_result_code = some code;
  challenge_completed_at = some now;
}

abbrev pub has_code : String → Option String → Bool
has_code code none = false
has_code code (some c) = c === code

unfoldable pub completed_before :
    VerificationResult → String → Challenge → ChallengeEffect Challenge
unfolding done throws status_of
completed_before result code c =
    if c.challenge_status === status_of result && has_code code c.challenge_result_code
    then done c
    else throws persistence_conflict

unfoldable pub after_completion :
    ℕ → ℕ → VerificationResult → String → Bool → ChallengeEffect Challenge
unfolding ◌>>=◌ query completed_before find_challenge
after_completion organization_id id result code true =
    query (λ rows. find_challenge organization_id id rows)
after_completion organization_id id result code false =
    query (λ rows. find_challenge organization_id id rows) >>= completed_before result code

-- completeVerificationChallenge
unfoldable pub complete_challenge :
    ℕ → ℕ → ℕ → VerificationResult → String → ChallengeEffect Challenge
unfolding completable completed after_completion update_many count_many
complete_challenge organization_id id now result code rows =
    after_completion organization_id id result code
      (count_many (completable organization_id id now) rows == 1)
      (update_many (completable organization_id id now) (completed now result code) rows)

abbrev pub permits_step_up : InterventionType → Bool
permits_step_up kind =
    kind === require_step_up || (kind === require_callback || kind === hold_protected_action)

pub record StepUpInput : Type 0 where
  pub step_up_challenge : ℕ
  pub step_up_intervention : ℕ
  pub step_up_method : String
  pub step_up_key : ℕ

unfoldable pub allowed_to_resolve : Result AuthError (Unit {0}) → ChallengeEffect (Unit {0})
unfolding done throws
allowed_to_resolve (ok _) = done tt
allowed_to_resolve (err e) = throws (not_authorized e)

unfoldable pub step_up_input : ℕ → ℕ → AuthPrincipal → StepUpInput → Intervention → ChallengeInput
step_up_input ttl_seconds now principal input i = record {
  new_challenge = input.step_up_challenge;
  input_call = i.call_id;
  input_intervention = i.id;
  input_performed_by = some principal.membership_id;
  input_challenge_key = input.step_up_key;
  input_method = input.step_up_method;
  input_attempt = 1;
  input_expires_at = now + ttl_seconds * 1000;
}

-- request; `interventions` is the table of interventions.
unfoldable pub request :
    ℕ → List Intervention → ℕ → AuthPrincipal → StepUpInput → ChallengeEffect Challenge
unfolding ◌>>=◌ assert allowed_to_resolve query find_intervention refuse_if step_up_input
    create_challenge
request ttl_seconds interventions now principal input = do
  allowed_to_resolve (assert principal intervention_resolve principal.organization_id)
  i ←
      query
        (λ _. find_intervention principal.organization_id input.step_up_intervention interventions)
  refuse_if (not (permits_step_up i.kind)) step_up_not_required
  create_challenge principal.organization_id now (step_up_input ttl_seconds now principal input i)

-- complete
unfoldable pub complete : ℕ → ℕ → ℕ → VerificationResult → String → ChallengeEffect Challenge
unfolding complete_challenge
complete organization_id id now result code = complete_challenge organization_id id now result code
