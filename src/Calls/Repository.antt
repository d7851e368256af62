-- ===== src/Calls/Repository.antt =====
-- backend/src/modules/calls/call.repository.ts: the methods on calls, participants and analysis
-- sessions. A serializable transaction is one step.
use swar.Prelude.{
  ℕ, Bool, true, false, List, [], ◌∷◌, ◌++◌, ◌&&◌, ◌||◌, not, Option, none, some, String, ◌==◌,
  ◌===◌, if◌then◌else◌, find, any, keep, map, length, unique, nat_eq, Result, ok, err,
}
use swar.Domain.{CallStatus, call_status_eq, analysis_session_status_eq}
use swar.Effects.{Effect, done, query, reads, transaction, refuse_if, ◌>>=◌, ◌>>◌}
use swar.Calls.Rows.{
  ParticipantRole, participant_role_eq, ParticipantStatus, participant_status_eq, Call,
  CallParticipant, PolicyVersion, CallTables, CallError, resource_not_found, persistence_conflict,
  idempotency_conflict, unique_violation,
}

abbrev pub CallEffect : Type 0 → Type 0
CallEffect A = Effect CallTables CallError A

-- CallParticipantInput, with the identifier that the row gets.
pub record ParticipantInput : Type 0 where
  pub new_participant : ℕ
  pub input_membership : Option ℕ
  pub input_speaker : Option ℕ
  pub input_livekit_identity : ℕ
  pub input_authorized_identity : ℕ
  pub input_display_name : Option ℕ
  pub input_role : ParticipantRole

unfoldable pub participant_row : ℕ → ℕ → ℕ → ParticipantInput → CallParticipant
participant_row organization_id call_id now p = record {
  participant_key = p.new_participant;
  participant_organization = organization_id;
  participant_call = call_id;
  membership_id = p.input_membership;
  trusted_speaker_id = p.input_speaker;
  livekit_identity = p.input_livekit_identity;
  authorized_identity = p.input_authorized_identity;
  display_name = p.input_display_name;
  role = p.input_role;
  participant_status = ParticipantStatus.authorized;
  participant_authorized_at = now;
  joined_at = none;
  left_at = none;
}

-- The input of createCallWithParticipants.
pub record CallInput : Type 0 where
  pub new_call : ℕ
  pub input_room : ℕ
  pub input_expected_speaker : Option ℕ
  pub input_policy : ℕ
  pub input_policy_version : ℕ
  pub input_creator : ℕ
  pub input_key : ℕ
  pub input_reference : Option ℕ
  pub input_participants : List ParticipantInput

unfoldable pub call_row : ℕ → ℕ → CallInput → Call
call_row organization_id now input = record {
  id = input.new_call;
  organization_id = organization_id;
  room_name = input.input_room;
  expected_trusted_speaker = input.input_expected_speaker;
  risk_policy_id = input.input_policy;
  risk_policy_version = input.input_policy_version;
  created_by = input.input_creator;
  idempotency_key = input.input_key;
  protected_action_reference = input.input_reference;
  status = CallStatus.authorized;
  authorized_at = some now;
  started_at = none;
  ended_at = none;
  created_at = now;
}

unfoldable pub policy_matches : ℕ → CallInput → Option PolicyVersion → Bool
policy_matches organization_id input none = false
policy_matches organization_id input (some p) = p.version == input.input_policy_version

unfoldable pub find_policy : ℕ → ℕ → List PolicyVersion → Option PolicyVersion
find_policy organization_id id policies =
    find (λ p. p.policy_organization == organization_id && p.policy_key == id) policies

-- The row that `call.create` and `createMany` leave; the table of calls has no two calls of one
-- organization and room.
unfoldable pub insert_call : ℕ → ℕ → CallInput → CallTables → Result CallError (Call × CallTables)
unfolding call_row participant_row
insert_call organization_id now input s =
    if any (λ c. c.organization_id == organization_id && c.room_name == input.input_room) s.calls
    then err unique_violation
    else ok (
      call_row organization_id now input,
      record s {
        calls = s.calls ++ call_row organization_id now input ∷ [];
        participants =
            s.participants
            ++ map (participant_row organization_id input.new_call now) input.input_participants;
      },
    )

unfoldable pub call_of_key :
    ℕ → ℕ → CallInput → Option Call → CallTables → Result CallError (Call × CallTables)
unfolding insert_call policy_matches find_policy
call_of_key organization_id now input (some existing) s =
    if existing.room_name == input.input_room
    then ok (existing, s)
    else err (resource_not_found "Idempotent call input")
call_of_key organization_id now input none s =
    if policy_matches organization_id input
      (find_policy organization_id input.input_policy s.policies)
    then insert_call organization_id now input s
    else err (resource_not_found "Versioned risk policy")

unfoldable pub create_transaction :
    ℕ → ℕ → CallInput → CallTables → Result CallError (Call × CallTables)
unfolding call_of_key
create_transaction organization_id now input s =
    call_of_key organization_id now input
      (find (λ c. c.organization_id == organization_id && c.idempotency_key == input.input_key)
        s.calls)
      s

-- createCallWithParticipants
unfoldable pub create_call_with_participants : ℕ → ℕ → CallInput → CallEffect Call
unfolding ◌>>=◌ create_transaction unique
create_call_with_participants organization_id now input = do
  refuse_if (length input.input_participants == 0) (resource_not_found "Call participant")
  refuse_if
      (not (
        length (unique (map (λ p. p.input_livekit_identity) input.input_participants))
        == length input.input_participants))
      (resource_not_found "Unique participant identity")
  transaction (create_transaction organization_id now input)

abbrev pub or_missing : {A : Type 0} → String → Option A → Result CallError A
or_missing what none = err (resource_not_found what)
or_missing what (some a) = ok a

abbrev pub is_call : ℕ → ℕ → Call → Bool
is_call organization_id id c = c.organization_id == organization_id && c.id == id

-- findTenantCall
unfoldable pub find_tenant_call : ℕ → ℕ → CallEffect Call
find_tenant_call organization_id id =
    query (λ s. or_missing "Call" (find (is_call organization_id id) s.calls))

-- findCallAggregate; the participants are those of the call, in the order of the table.
unfoldable pub find_call_aggregate : ℕ → ℕ → CallEffect (Call × List CallParticipant)
unfolding ◌>>=◌ find_tenant_call
find_call_aggregate organization_id id = do
  call ← find_tenant_call organization_id id
  participants ← reads (λ s.
      keep (λ p. p.participant_organization == organization_id && p.participant_call == id)
        s.participants)
  done (call, participants)

-- Whom a room and an identity of a participant name: the participants of the calls with that room.
unfoldable pub in_room : ℕ → CallTables → Call → List CallParticipant
in_room identity s c =
    keep
      (λ p.
        p.participant_organization == c.organization_id
        && (p.participant_call == c.id && p.livekit_identity == identity))
      s.participants

abbrev pub only_match :
    List (Call × List CallParticipant) → Result CallError (Call × CallParticipant)
only_match ((c, p ∷ ps) ∷ []) = ok (c, p)
only_match _ = err (resource_not_found "Authoritative room participant")

abbrev pub has_any {ℓ} : {A : Type ℓ} → List A → Bool
has_any [] = false
has_any (x ∷ xs) = true

-- findByVerifiedRoomParticipant
unfoldable pub find_by_verified_room_participant : ℕ → ℕ → CallEffect (Call × CallParticipant)
unfolding in_room
find_by_verified_room_participant room_name identity = query (λ s. only_match (
    map (λ c. (c, in_room identity s c))
      (keep (λ c. c.room_name == room_name && has_any (in_room identity s c)) s.calls)))

abbrev pub same_optional : Option ℕ → Option ℕ → Bool
same_optional none none = true
same_optional (some a) (some b) = a == b
same_optional _ _ = false

-- Whether an invitation says of a participant what is on record.
unfoldable pub same_invitation : ParticipantInput → CallParticipant → Bool
same_invitation input p =
    p.role === input.input_role
    && (p.authorized_identity == input.input_authorized_identity
        && (same_optional p.membership_id input.input_membership
            && same_optional p.trusted_speaker_id input.input_speaker))

unfoldable pub participant_of_identity :
    ℕ
    → ℕ
    → ℕ
    → ParticipantInput
    → Option CallParticipant
    → CallTables
    → Result CallError (CallParticipant × CallTables)
unfolding same_invitation participant_row
participant_of_identity organization_id call_id now input (some existing) s =
    if same_invitation input existing then ok (existing, s) else err idempotency_conflict
participant_of_identity organization_id call_id now input none s = ok (
  participant_row organization_id call_id now input,
  record s {
    participants = s.participants ++ participant_row organization_id call_id now input ∷ [];
  },
)

abbrev pub is_invitable : Option Call → Bool
is_invitable none = false
is_invitable (some c) = c.status === CallStatus.requested || c.status === CallStatus.authorized

unfoldable pub add_transaction :
    ℕ → ℕ → ℕ → ParticipantInput → CallTables → Result CallError (CallParticipant × CallTables)
unfolding participant_of_identity
add_transaction organization_id call_id now input s =
    if is_invitable (find (is_call organization_id call_id) s.calls)
    then participant_of_identity organization_id call_id now input
        (find
          (λ p.
            p.participant_organization == organization_id
            && (p.participant_call == call_id
                && p.livekit_identity == input.input_livekit_identity))
          s.participants)
        s
    else err persistence_conflict

-- addParticipant
unfoldable pub add_participant : ℕ → ℕ → ℕ → ParticipantInput → CallEffect CallParticipant
unfolding add_transaction
add_participant organization_id call_id now input =
    transaction (add_transaction organization_id call_id now input)
