-- ===== src/Calls/Lifecycle.antt =====
-- backend/src/modules/media/track-binding.service.ts: what a verified event of LiveKit does.
use swar.Prelude.{
  ℕ, Bool, true, ◌&&◌, ◌||◌, ◌+◌, ◌*◌, not, Option, none, some, String, ◌===◌, string_eq,
  if◌then◌else◌,
}
use swar.Domain.{CallStatus, call_status_eq}
use swar.Risk.Types.{EvidenceMode}
use swar.Effects.{done, throws, catching, refuse_if, requires, for_each, ◌>>=◌, ◌>>◌}
use swar.Calls.Rows.{
  ParticipantRole, participant_role_eq, Call, CallParticipant, AnalysisSession,
  persistence_conflict, provider_failed,
}
use swar.Calls.Repository.{CallEffect, find_by_verified_room_participant}
use swar.Calls.Changes.{mark_participant_joined, mark_participant_ended, transition_call}
use swar.Calls.Tracks.{BindInput, bind_track_and_create_analysis}
use swar.Calls.Closing.{close_verified_track}
use swar.Calls.Outside.{Outside, record_audit, assert_call}
use swar.Calls.Analysis.{start_analysis}

pub data LifecycleEventType : Type 0 where
  room_finished participant_joined participant_left participant_connection_aborted track_published
        track_unpublished :
      LifecycleEventType

-- VerifiedLiveKitLifecycleEvent, with the identifiers of the rows that it leads to. Whether the
-- type of the media is audio is `is_audio`, and `analysis_event_key` is the key of its analysis.
pub record LifecycleEvent : Type 0 where
  pub signature_verified : Bool
  pub event_type : LifecycleEventType
  pub event_room : ℕ
  pub event_participant : Option ℕ
  pub event_track : Option ℕ
  pub event_track_source : String
  pub event_mime : Option String
  pub is_audio : Bool
  pub event_time : ℕ
  pub analysis_event_key : ℕ
  pub event_new_track : ℕ
  pub event_new_binding : ℕ
  pub event_new_session : ℕ

module _ (outside : Outside) (session_ttl_seconds : ℕ) (mode : Option EvidenceMode) (now : ℕ) where
  -- A provider that fails to stop a session is noted, and no error.
  unfoldable pub stop_or_note : String → ℕ → CallEffect (Unit {0})
  unfolding ◌>>=◌ catching requires record_audit
  stop_or_note action session_id =
      catching
        (requires outside.has_ml provider_failed
          >> requires (outside.stops session_id) provider_failed)
        (record_audit outside action)

  unfoldable pub activate_on_join : ℕ → Call → CallEffect (Unit {0})
  unfolding ◌>>=◌ assert_call transition_call done
  activate_on_join occurred_at call =
      if call.status === CallStatus.authorized
      then (do
        assert_call CallStatus.authorized CallStatus.active
        transition_call call.organization_id call.id CallStatus.authorized CallStatus.active
            occurred_at
        done tt)
      else done tt

  unfoldable pub handle_joined :
      LifecycleEvent → Call → CallParticipant → CallEffect (Option AnalysisSession)
  unfolding ◌>>=◌ mark_participant_joined activate_on_join record_audit done
  handle_joined event call p = do
    mark_participant_joined call.organization_id p.participant_key event.event_time
    activate_on_join event.event_time call
    record_audit outside "media.participant.joined"
    done none

  unfoldable pub handle_left :
      LifecycleEvent → Call → CallParticipant → CallEffect (Option AnalysisSession)
  unfolding ◌>>=◌ mark_participant_ended record_audit done
  handle_left event call p = do
    mark_participant_ended call.organization_id p.participant_key event.event_time
    record_audit outside "media.participant.ended"
    done none

  unfoldable pub handle_unpublished :
      LifecycleEvent → ℕ → Call → CallEffect (Option AnalysisSession)
  unfolding ◌>>=◌ close_verified_track for_each stop_or_note record_audit done
  handle_unpublished event sid call = do
    closed ← close_verified_track call.organization_id call.id sid event.event_time
    for_each closed (stop_or_note "analysis.session.revoke.provider-unknown")
    record_audit outside "media.track.unpublished"
    done none

  unfoldable pub bind_input : LifecycleEvent → ℕ → Call → CallParticipant → Option ℕ → BindInput
  bind_input event sid call p voiceprint = record {
    bind_call = call.id;
    bind_participant = p.participant_key;
    bind_track_sid = sid;
    bind_source = event.event_track_source;
    bind_mime = event.event_mime;
    analysis_key = event.analysis_event_key;
    analysis_expires_at = event.event_time + session_ttl_seconds * 1000;
    bind_evidence_mode = mode;
    bind_voiceprint = voiceprint;
    new_track = event.event_new_track;
    new_binding = event.event_new_binding;
    new_session = event.event_new_session;
  }

  abbrev pub expected_voiceprint : ℕ → Option ℕ → Option ℕ
  expected_voiceprint organization_id none = none
  expected_voiceprint organization_id (some speaker) =
      outside.active_voiceprint organization_id speaker

  -- Only the microphone of the caller, as audio, is bound.
  unfoldable pub is_caller_microphone : LifecycleEvent → CallParticipant → Bool
  is_caller_microphone event p =
      p.role === ParticipantRole.caller
      && (event.event_track_source === "MICROPHONE" && audio event.event_mime)
    where
      audio : Option String → Bool
      audio none = true
      audio (some m) = event.is_audio

  unfoldable pub handle_published :
      LifecycleEvent → ℕ → Call → CallParticipant → CallEffect (Option AnalysisSession)
  unfolding ◌>>=◌ refuse_if is_caller_microphone bind_track_and_create_analysis bind_input for_each
      stop_or_note record_audit start_analysis done
  handle_published event sid call p = do
    refuse_if (not (is_caller_microphone event p)) persistence_conflict
    refuse_if (not (call.status === CallStatus.authorized || call.status === CallStatus.active))
        persistence_conflict
    bound ← bind_track_and_create_analysis call.organization_id now (
        bind_input event sid call p
          (expected_voiceprint call.organization_id call.expected_trusted_speaker))
    for_each bound.superseded_sessions (stop_or_note "analysis.session.superseded.provider-unknown")
    record_audit outside "media.track.bound"
    started ← start_analysis outside call.organization_id now bound.analysis_session.session_key
    done (some started)

  unfoldable pub handle_track_type :
      LifecycleEvent
      → LifecycleEventType
      → ℕ
      → Call
      → CallParticipant
      → CallEffect (Option AnalysisSession)
  unfolding handle_unpublished handle_published
  handle_track_type event track_unpublished sid call p = handle_unpublished event sid call
  handle_track_type event _ sid call p = handle_published event sid call p

  unfoldable pub handle_track :
      LifecycleEvent → Call → CallParticipant → Option ℕ → CallEffect (Option AnalysisSession)
  unfolding throws handle_track_type
  handle_track event call p none = throws persistence_conflict
  handle_track event call p (some sid) = handle_track_type event event.event_type sid call p

  unfoldable pub handle_resolved :
      LifecycleEvent
      → LifecycleEventType
      → Call
      → CallParticipant
      → CallEffect (Option AnalysisSession)
  unfolding handle_joined handle_left handle_track
  handle_resolved event participant_joined call p = handle_joined event call p
  handle_resolved event participant_left call p = handle_left event call p
  handle_resolved event participant_connection_aborted call p = handle_left event call p
  handle_resolved event _ call p = handle_track event call p event.event_track

  unfoldable pub handle_participant :
      LifecycleEvent → Option ℕ → CallEffect (Option AnalysisSession)
  unfolding ◌>>=◌ throws find_by_verified_room_participant handle_resolved
  handle_participant event none = throws persistence_conflict
  handle_participant event (some identity) = do
    resolved ← find_by_verified_room_participant event.event_room identity
    handle_resolved event event.event_type resolved.0 resolved.1

  unfoldable pub handle_verified :
      LifecycleEvent → LifecycleEventType → CallEffect (Option AnalysisSession)
  unfolding done handle_participant
  handle_verified event room_finished = done none
  handle_verified event _ = handle_participant event event.event_participant

  -- handleVerifiedLifecycle
  unfoldable pub handle_verified_lifecycle : LifecycleEvent → CallEffect (Option AnalysisSession)
  unfolding ◌>>=◌ refuse_if handle_verified
  handle_verified_lifecycle event = do
    refuse_if (not event.signature_verified) persistence_conflict
    handle_verified event event.event_type
