-- ===== src/Calls/Service.antt =====
-- backend/src/modules/calls/calls.service.ts. The identities that it derives from texts by a hash come
-- in with a command.
use swar.Prelude.{
  ℕ, Bool, true, false, List, [], ◌∷◌, ◌&&◌, ◌||◌, not, Option, none, some, ltb, ◌==◌, ◌===◌,
  if◌then◌else◌, find,
}
use swar.Domain.{CallStatus, call_status_eq}
use swar.Effects.{done, throws, catching, refuse_if, requires, for_each, ◌>>=◌, ◌>>◌}
use swar.Auth.Accounts.{AuthPrincipal}
use swar.Auth.Permissions.{call_create, call_read, call_end}
use swar.Calls.Rows.{
  ParticipantRole, participant_role_eq, Call, CallParticipant, persistence_conflict,
  provider_failed, call_provider, participant_provider,
}
use swar.Calls.Repository.{
  CallEffect, CallInput, ParticipantInput, create_call_with_participants, find_tenant_call,
  find_call_aggregate, add_participant, has_any,
}
use swar.Calls.Changes.{transition_call, list_open_analysis_sessions}
use swar.Calls.Outside.{Outside, record_audit, authorize, assert_call}

pub record CreateCallCommand : Type 0 where
  pub create_new_call : ℕ
  pub create_new_participant : ℕ
  pub create_policy : ℕ
  pub create_policy_version : ℕ
  pub create_expected_speaker : Option ℕ
  pub create_reference : Option ℕ
  pub create_key : ℕ
  pub maximum_participants : ℕ
  pub create_room_name : ℕ
  pub customer_identity : ℕ
  pub customer_authorized_identity : ℕ

pub record InviteCommand : Type 0 where
  pub invite_call : ℕ
  pub invite_new_participant : ℕ
  pub invite_role : ParticipantRole
  pub invite_membership : Option ℕ
  pub invite_speaker : Option ℕ
  pub invite_display_name : Option ℕ
  pub invite_livekit_identity : ℕ
  pub invite_authorized_identity : ℕ

module _ (outside : Outside) (principal : AuthPrincipal) (now : ℕ) where
  abbrev organization : ℕ
  organization = principal.organization_id

  unfoldable pub create_input : CreateCallCommand → CallInput
  create_input command = record {
    new_call = command.create_new_call;
    input_room = command.create_room_name;
    input_expected_speaker = command.create_expected_speaker;
    input_policy = command.create_policy;
    input_policy_version = command.create_policy_version;
    input_creator = principal.membership_id;
    input_key = command.create_key;
    input_reference = command.create_reference;
    input_participants =
        (record {
          new_participant = command.create_new_participant;
          input_membership = some principal.membership_id;
          input_speaker = none;
          input_livekit_identity = command.customer_identity;
          input_authorized_identity = command.customer_authorized_identity;
          input_display_name = none;
          input_role = ParticipantRole.customer;
        })
        ∷ [];
  }

  -- A call that was just authorized fails with its room.
  unfoldable pub fail_authorized : Call → CallEffect (Unit {0})
  unfolding ◌>>=◌ done assert_call transition_call
  fail_authorized call =
      if call.status === CallStatus.authorized
      then (do
        assert_call call.status CallStatus.failed
        transition_call principal.organization_id call.id CallStatus.authorized CallStatus.failed
            now
        done tt)
      else done tt

  unfoldable pub room_failed : Call → CallEffect (Unit {0})
  unfolding ◌>>=◌ fail_authorized record_audit throws
  room_failed call = do
    fail_authorized call
    record_audit outside "call.room.create.failed"
    throws (call_provider "room-create" CallStatus.failed)

  -- create
  unfoldable pub create_call : CreateCallCommand → CallEffect Call
  unfolding ◌>>=◌ authorize create_call_with_participants create_input catching room_failed
      record_audit refuse_if requires
  create_call command = do
    authorize principal call_create
    refuse_if (ltb command.maximum_participants 2 || ltb 20 command.maximum_participants)
        persistence_conflict
    call ← create_call_with_participants principal.organization_id now (create_input command)
    catching (requires (outside.creates_room call.room_name) provider_failed) (room_failed call)
    record_audit outside "call.created"
    done call

  abbrev pub is_missing {ℓ} : {A : Type ℓ} → Option A → Bool
  is_missing none = true
  is_missing (some a) = false

  unfoldable pub invite_input : InviteCommand → ParticipantInput
  invite_input command = record {
    new_participant = command.invite_new_participant;
    input_membership = command.invite_membership;
    input_speaker = command.invite_speaker;
    input_livekit_identity = command.invite_livekit_identity;
    input_authorized_identity = command.invite_authorized_identity;
    input_display_name = command.invite_display_name;
    input_role = command.invite_role;
  }

  -- A grant for a participant of a room, which LiveKit issues or not.
  unfoldable pub grant_for : CallParticipant → CallEffect (Unit {0})
  unfolding requires
  grant_for p = requires (outside.grants p.livekit_identity) provider_failed

  unfoldable pub grant_failed : CallParticipant → CallEffect (Unit {0})
  unfolding ◌>>=◌ record_audit throws
  grant_failed p = do
    record_audit outside "call.participant.grant.failed"
    throws (participant_provider p.participant_status)

  -- invite
  unfoldable pub invite : InviteCommand → CallEffect CallParticipant
  unfolding ◌>>=◌ authorize refuse_if find_tenant_call add_participant invite_input catching
      grant_for grant_failed record_audit done
  invite command = do
    authorize principal call_create
    refuse_if
        ((command.invite_role === ParticipantRole.customer
            || command.invite_role === ParticipantRole.observer)
          && is_missing command.invite_membership)
        persistence_conflict
    refuse_if
        (command.invite_role === ParticipantRole.caller
          && (is_missing command.invite_membership && is_missing command.invite_speaker))
        persistence_conflict
    call ← find_tenant_call principal.organization_id command.invite_call
    p ← add_participant principal.organization_id call.id now (invite_input command)
    catching (grant_for p >> record_audit outside "call.participant.invited") (grant_failed p)
    done p

  abbrev pub is_member : Option CallParticipant → Bool
  is_member none = false
  is_member (some p) = belongs p.membership_id
    where
      belongs : Option ℕ → Bool
      belongs none = false
      belongs (some m) = m == principal.membership_id

  unfoldable pub answer_as : Option CallParticipant → CallEffect CallParticipant
  unfolding ◌>>=◌ grant_for record_audit done throws
  answer_as none = throws persistence_conflict
  answer_as (some p) =
      if is_member (some p)
      then (do grant_for p; record_audit outside "call.participant.answer.authorized"; done p)
      else throws persistence_conflict

  -- answer
  unfoldable pub answer_call : ℕ → ℕ → CallEffect CallParticipant
  unfolding ◌>>=◌ authorize find_call_aggregate answer_as
  answer_call call_id participant_id = do
    authorize principal call_read
    aggregate ← find_call_aggregate principal.organization_id call_id
    answer_as (find (λ p. p.participant_key == participant_id) aggregate.1)

  unfoldable pub cancel_failed : CallEffect (Unit {0})
  unfolding ◌>>=◌ record_audit throws
  cancel_failed = do
    record_audit outside "call.cancel.provider-unknown"
    throws (call_provider "call-cancel" CallStatus.authorized)

  -- The end of a call that nobody joined.
  unfoldable pub cancel_call : Call → CallEffect Call
  unfolding ◌>>=◌ catching requires cancel_failed assert_call transition_call record_audit done
  cancel_call call = do
    catching (requires (outside.closes_room call.room_name) provider_failed) cancel_failed
    assert_call CallStatus.authorized CallStatus.cancelled
    cancelled ←
        transition_call principal.organization_id call.id CallStatus.authorized CallStatus.cancelled
          now
    record_audit outside "call.cancelled"
    done cancelled

  -- The body of the `try`: sessions are stopped, participants removed, the room closed.
  unfoldable pub clean_up : Call → List CallParticipant → CallEffect Call
  unfolding ◌>>=◌ list_open_analysis_sessions refuse_if for_each requires assert_call
      transition_call record_audit done
  clean_up call participants = do
    open_sessions ← list_open_analysis_sessions principal.organization_id call.id
    refuse_if (has_any open_sessions && not outside.has_ml) provider_failed
    for_each open_sessions (λ x. requires (outside.stops x.session_key) provider_failed)
    for_each participants (λ p. requires (outside.removes p.livekit_identity) provider_failed)
    requires (outside.closes_room call.room_name) provider_failed
    assert_call CallStatus.ending CallStatus.ended
    ended ← transition_call principal.organization_id call.id CallStatus.ending CallStatus.ended now
    record_audit outside "call.ended"
    done ended

  unfoldable pub clean_up_failed : Call → CallEffect Call
  unfolding ◌>>=◌ assert_call transition_call record_audit throws
  clean_up_failed call = do
    assert_call CallStatus.ending CallStatus.failed
    transition_call principal.organization_id call.id CallStatus.ending CallStatus.failed now
    record_audit outside "call.cleanup.failed"
    throws (call_provider "call-cleanup" CallStatus.failed)

  unfoldable pub start_ending : Call → CallEffect (Unit {0})
  unfolding ◌>>=◌ assert_call transition_call done
  start_ending call =
      if call.status === CallStatus.active
      then (do
        assert_call CallStatus.active CallStatus.ending
        transition_call principal.organization_id call.id CallStatus.active CallStatus.ending now
        done tt)
      else done tt

  unfoldable pub end_joined : Call → List CallParticipant → CallEffect Call
  unfolding ◌>>=◌ start_ending catching clean_up clean_up_failed
  end_joined call participants = do
    start_ending call
    catching (clean_up call participants) (clean_up_failed call)

  unfoldable pub end_found : Call → List CallParticipant → CallEffect Call
  unfolding done throws cancel_call end_joined
  end_found call participants =
      if call.status === CallStatus.ended || call.status === CallStatus.cancelled
      then done call
      else (if call.status === CallStatus.authorized
          then cancel_call call
          else (if call.status === CallStatus.active || call.status === CallStatus.ending
              then end_joined call participants
              else throws persistence_conflict))

  -- end
  unfoldable pub end : ℕ → CallEffect Call
  unfolding ◌>>=◌ authorize find_call_aggregate end_found
  end call_id = do
    authorize principal call_end
    aggregate ← find_call_aggregate principal.organization_id call_id
    end_found aggregate.0 aggregate.1
