-- ===== src/Calls/Rows.antt =====
-- The tables of calls: Call, CallParticipant, MediaTrack, TrackBinding and AnalysisSession of
-- backend/prisma/schema.prisma. Texts that are only compared (room names, identities of
-- participants, keys) are numbers.
use swar.Prelude.{
  ℕ, Bool, true, false, Option, List, String, Eq, ◌==◌, ◌↔◌, ◌≡◌, arith, ◌||◌, ◌===◌,
}
use swar.Domain.{
  CallStatus, TrackBindingStatus, AnalysisSessionStatus, TransitionError, call_status_eq,
  analysis_session_status_eq,
}
use swar.Risk.Types.{EvidenceMode}
use swar.Auth.Limiter.{AuthError}

pub data ParticipantRole : Type 0 where
  caller customer observer ml_subscriber : ParticipantRole

abbrev pub participant_role_index : ParticipantRole → ℕ
participant_role_index caller = 0
participant_role_index customer = 1
participant_role_index observer = 2
participant_role_index ml_subscriber = 3

pub participant_role_eq_iff :
    (a b : ParticipantRole)
    → ((participant_role_index a == participant_role_index b) ≡ true) ↔ (a ≡ b)
participant_role_eq_iff a b = ground arith

instance abbrev pub participant_role_eq : Eq ParticipantRole
participant_role_eq = record {
  same = λ a b. participant_role_index a == participant_role_index b;
  same_iff = participant_role_eq_iff;
}

pub data ParticipantStatus : Type 0 where
  authorized joined disconnected left revoked : ParticipantStatus

abbrev pub participant_status_index : ParticipantStatus → ℕ
participant_status_index authorized = 0
participant_status_index joined = 1
participant_status_index disconnected = 2
participant_status_index left = 3
participant_status_index revoked = 4

pub participant_status_eq_iff :
    (a b : ParticipantStatus)
    → ((participant_status_index a == participant_status_index b) ≡ true) ↔ (a ≡ b)
participant_status_eq_iff a b = ground arith

instance abbrev pub participant_status_eq : Eq ParticipantStatus
participant_status_eq = record {
  same = λ a b. participant_status_index a == participant_status_index b;
  same_iff = participant_status_eq_iff;
}

pub data TrackStatus : Type 0 where
  published muted unpublished ended : TrackStatus

pub record Call : Type 0 where
  pub id : ℕ
  pub organization_id : ℕ
  pub room_name : ℕ
  pub expected_trusted_speaker : Option ℕ
  pub risk_policy_id : ℕ
  pub risk_policy_version : ℕ
  pub created_by : ℕ
  pub idempotency_key : ℕ
  pub protected_action_reference : Option ℕ
  pub status : CallStatus
  pub authorized_at : Option ℕ
  pub started_at : Option ℕ
  pub ended_at : Option ℕ
  pub created_at : ℕ

pub record CallParticipant : Type 0 where
  pub participant_key : ℕ
  pub participant_organization : ℕ
  pub participant_call : ℕ
  pub membership_id : Option ℕ
  pub trusted_speaker_id : Option ℕ
  pub livekit_identity : ℕ
  pub authorized_identity : ℕ
  pub display_name : Option ℕ
  pub role : ParticipantRole
  pub participant_status : ParticipantStatus
  pub participant_authorized_at : ℕ
  pub joined_at : Option ℕ
  pub left_at : Option ℕ

pub record MediaTrack : Type 0 where
  pub track_key : ℕ
  pub track_organization : ℕ
  pub track_call : ℕ
  pub track_participant : ℕ
  pub track_sid : ℕ
  pub track_source : String
  pub mime_type : Option String
  pub track_status : TrackStatus
  pub published_at : ℕ
  pub track_ended_at : Option ℕ

pub record TrackBinding : Type 0 where
  pub binding_key : ℕ
  pub binding_organization : ℕ
  pub binding_call : ℕ
  pub binding_participant : ℕ
  pub media_track_id : ℕ
  pub revision : ℕ
  pub binding_status : TrackBindingStatus
  pub binding_authorized_at : ℕ
  pub activated_at : Option ℕ
  pub binding_ended_at : Option ℕ

pub record AnalysisSession : Type 0 where
  pub session_key : ℕ
  pub session_organization : ℕ
  pub session_call : ℕ
  pub track_binding_id : ℕ
  pub voiceprint_id : Option ℕ
  pub session_idempotency_key : ℕ
  pub binding_revision : ℕ
  pub evidence_mode : Option EvidenceMode
  pub session_status : AnalysisSessionStatus
  pub session_authorized_at : ℕ
  pub session_started_at : Option ℕ
  pub stopped_at : Option ℕ
  pub expires_at : ℕ
  pub failure_code : Option String
  pub session_created_at : ℕ

-- What a call reads of a risk policy.
pub record PolicyVersion : Type 0 where
  pub policy_key : ℕ
  pub policy_organization : ℕ
  pub version : ℕ

-- The rows of a database that the repository of calls works on, and the audit log's actions, of
-- which the newest stands first.
pub record CallTables : Type 0 where
  pub policies : List PolicyVersion
  pub calls : List Call
  pub participants : List CallParticipant
  pub tracks : List MediaTrack
  pub bindings : List TrackBinding
  pub sessions : List AnalysisSession
  pub audit : List String

pub data CallError : Type 0 where
  not_authorized : AuthError → CallError
  resource_not_found : String → CallError  -- TenantResourceNotFoundError
  persistence_conflict idempotency_conflict unique_violation : CallError
  illegal_call : TransitionError CallStatus → CallError
  illegal_session : TransitionError AnalysisSessionStatus → CallError
  call_provider : String → CallStatus → CallError  -- DomainProviderError
  participant_provider : ParticipantStatus → CallError
  analysis_provider : String → AnalysisSessionStatus → CallError
  provider_failed audit_failed : CallError

-- AUTHORIZED, STARTING, ACTIVE and DEGRADED
unfoldable pub is_running : AnalysisSessionStatus → Bool
is_running AnalysisSessionStatus.authorized = true
is_running AnalysisSessionStatus.starting = true
is_running AnalysisSessionStatus.active = true
is_running AnalysisSessionStatus.degraded = true
is_running _ = false

-- The same and STOPPING.
unfoldable pub is_open : AnalysisSessionStatus → Bool
unfolding is_running
is_open s = is_running s || s === AnalysisSessionStatus.stopping
