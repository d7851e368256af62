-- ===== src/Calls/Tracks.antt =====
-- backend/src/modules/calls/call.repository.ts: bindTrackAndCreateAnalysis, closeVerifiedTrack and
-- findAnalysisGrantContext.
use swar.Prelude.{
  ℕ, Bool, false, List, [], ◌∷◌, ◌++◌, ◌&&◌, ◌||◌, not, Option, none, some, String, leb, ◌==◌,
  ◌===◌, ◌+◌, max, if◌then◌else◌, find, any, keep, map, includes, nat_eq, update_many, Result, ok,
  err, ◌>>=◌, or_throw, throw_if, ◌>>◌,
}
use swar.Domain.{
  CallStatus, AnalysisSessionStatus, TrackBindingStatus, call_status_eq, track_binding_status_eq,
  analysis_session_status_eq,
}
use swar.Risk.Types.{EvidenceMode}
use swar.Effects.{transaction}
use swar.Calls.Rows.{
  TrackStatus, Call, CallParticipant, MediaTrack, TrackBinding, AnalysisSession, CallTables,
  CallError, resource_not_found, idempotency_conflict, unique_violation, is_running,
}
use swar.Calls.Repository.{CallEffect, is_call}
use swar.Calls.Changes.{active_binding, session_in_call}

-- The input of bindTrackAndCreateAnalysis, with the identifiers of the rows it creates.
pub record BindInput : Type 0 where
  pub bind_call : ℕ
  pub bind_participant : ℕ
  pub bind_track_sid : ℕ
  pub bind_source : String
  pub bind_mime : Option String
  pub analysis_key : ℕ
  pub analysis_expires_at : ℕ
  pub bind_evidence_mode : Option EvidenceMode
  pub bind_voiceprint : Option ℕ
  pub new_track : ℕ
  pub new_binding : ℕ
  pub new_session : ℕ

pub record BindTrackResult : Type 0 where
  pub binding : TrackBinding
  pub analysis_session : AnalysisSession
  pub media_track : MediaTrack
  pub superseded_sessions : List ℕ

abbrev pub call_accepts : Call → Bool
call_accepts c = c.status === CallStatus.authorized || c.status === CallStatus.active

unfoldable pub track_of_sid : ℕ → ℕ → CallTables → Option MediaTrack
track_of_sid organization_id sid s =
    find (λ t. t.track_organization == organization_id && t.track_sid == sid) s.tracks

unfoldable pub binding_of_track : ℕ → ℕ → CallTables → Option TrackBinding
binding_of_track organization_id track s =
    find (λ b. b.binding_organization == organization_id && b.media_track_id == track) s.bindings

-- A repeated request, for a track that is on record.
unfoldable pub rebind :
    ℕ → BindInput → MediaTrack → CallTables → Result CallError (BindTrackResult × CallTables)
unfolding binding_of_track
rebind organization_id input track s =
    throw_if
      (not (track.track_call == input.bind_call)
        || not (track.track_participant == input.bind_participant))
      idempotency_conflict
    >> (or_throw (binding_of_track organization_id track.track_key s) idempotency_conflict >>= λ b.
        or_throw
          (find
            (λ x.
              x.session_organization == organization_id
              && x.session_idempotency_key == input.analysis_key)
            s.sessions)
          idempotency_conflict
        >>= λ x.
            throw_if (not (x.track_binding_id == b.binding_key)) idempotency_conflict
            >> ok (
              (record {
                binding = b;
                analysis_session = x;
                media_track = track;
                superseded_sessions = [];
              }),
              s,
            ))

unfoldable pub binding_in_call : ℕ → ℕ → TrackBinding → Bool
binding_in_call organization_id call_id b =
    b.binding_organization == organization_id && b.binding_call == call_id

-- `_max.revision`, and 0 where there is none.
unfoldable pub max_revision : ℕ → ℕ → List TrackBinding → ℕ
unfolding binding_in_call
max_revision organization_id call_id [] = 0
max_revision organization_id call_id (b ∷ bindings) =
    let rest = max_revision organization_id call_id bindings in
    if binding_in_call organization_id call_id b then max b.revision rest else rest

unfoldable pub supersede : ℕ → TrackBinding → TrackBinding
supersede now b = record b {
  binding_status = TrackBindingStatus.superseded;
  binding_ended_at = some now;
}

unfoldable pub running_in_call : ℕ → ℕ → AnalysisSession → Bool
unfolding session_in_call is_running
running_in_call organization_id call_id x =
    session_in_call organization_id call_id x && is_running x.session_status

unfoldable pub revoke_session : ℕ → AnalysisSession → AnalysisSession
revoke_session now x = record x {
  session_status = AnalysisSessionStatus.revoked;
  stopped_at = some now;
}

-- `updateMany({ where: { id: { in: ids } }, data: { status: REVOKED, … } })`
unfoldable pub revoke_sessions : List ℕ → ℕ → List AnalysisSession → List AnalysisSession
unfolding revoke_session update_many
revoke_sessions ids now sessions =
    update_many (λ x. includes x.session_key ids) (revoke_session now) sessions

abbrev pub session_ids : List AnalysisSession → List ℕ
session_ids sessions = map (λ x. x.session_key) sessions

unfoldable pub superseded_of : ℕ → ℕ → CallTables → List ℕ
unfolding running_in_call
superseded_of organization_id call_id s =
    session_ids (keep (running_in_call organization_id call_id) s.sessions)

unfoldable pub new_track_row : ℕ → ℕ → BindInput → MediaTrack
new_track_row organization_id now input = record {
  track_key = input.new_track;
  track_organization = organization_id;
  track_call = input.bind_call;
  track_participant = input.bind_participant;
  track_sid = input.bind_track_sid;
  track_source = input.bind_source;
  mime_type = input.bind_mime;
  track_status = TrackStatus.published;
  published_at = now;
  track_ended_at = none;
}

unfoldable pub new_binding_row : ℕ → ℕ → BindInput → ℕ → TrackBinding
new_binding_row organization_id now input revision = record {
  binding_key = input.new_binding;
  binding_organization = organization_id;
  binding_call = input.bind_call;
  binding_participant = input.bind_participant;
  media_track_id = input.new_track;
  revision = revision;
  binding_status = TrackBindingStatus.active;
  binding_authorized_at = now;
  activated_at = some now;
  binding_ended_at = none;
}

unfoldable pub new_session_row : ℕ → ℕ → BindInput → ℕ → AnalysisSession
new_session_row organization_id now input revision = record {
  session_key = input.new_session;
  session_organization = organization_id;
  session_call = input.bind_call;
  track_binding_id = input.new_binding;
  voiceprint_id = input.bind_voiceprint;
  session_idempotency_key = input.analysis_key;
  binding_revision = revision;
  evidence_mode = input.bind_evidence_mode;
  session_status = AnalysisSessionStatus.authorized;
  session_authorized_at = now;
  session_started_at = none;
  stopped_at = none;
  expires_at = input.analysis_expires_at;
  failure_code = none;
  session_created_at = now;
}

abbrev pub or_now : ℕ → Option ℕ → Option ℕ
or_now now none = some now
or_now now (some t) = some t

abbrev pub activate_call : ℕ → Call → Call
activate_call now c = record c { status = CallStatus.active; started_at = or_now now c.started_at }

unfoldable pub next_revision : ℕ → ℕ → CallTables → ℕ
unfolding max_revision
next_revision organization_id call_id s = max_revision organization_id call_id s.bindings + 1

-- The tables after the writes for a track that is new.
unfoldable pub bound_tables : ℕ → ℕ → BindInput → CallTables → CallTables
unfolding active_binding supersede superseded_of revoke_sessions new_track_row new_binding_row
    new_session_row next_revision update_many
bound_tables organization_id now input s =
    let revision = next_revision organization_id input.bind_call s in
    record s {
      calls = update_many (is_call organization_id input.bind_call) (activate_call now) s.calls;
      tracks = s.tracks ++ new_track_row organization_id now input ∷ [];
      bindings =
          update_many (active_binding organization_id input.bind_call) (supersede now) s.bindings
          ++ new_binding_row organization_id now input revision ∷ [];
      sessions =
          revoke_sessions (superseded_of organization_id input.bind_call s) now s.sessions
          ++ new_session_row organization_id now input revision ∷ [];
    }

unfoldable pub bind_new :
    ℕ → ℕ → BindInput → CallTables → Result CallError (BindTrackResult × CallTables)
unfolding bound_tables superseded_of new_track_row new_binding_row new_session_row next_revision
bind_new organization_id now input s =
    if any
      (λ x.
        x.session_organization == organization_id
        && x.session_idempotency_key == input.analysis_key)
      s.sessions
    then err unique_violation
    else ok (
      (record {
        binding =
            new_binding_row organization_id now input
              (next_revision organization_id input.bind_call s);
        analysis_session =
            new_session_row organization_id now input
              (next_revision organization_id input.bind_call s);
        media_track = new_track_row organization_id now input;
        superseded_sessions = superseded_of organization_id input.bind_call s;
      }),
      bound_tables organization_id now input s,
    )

abbrev pub accepts : Option Call → Bool
accepts none = false
accepts (some c) = call_accepts c

unfoldable pub participant_in_call : ℕ → ℕ → ℕ → CallParticipant → Bool
participant_in_call organization_id call_id id p =
    p.participant_organization == organization_id
    && (p.participant_call == call_id && p.participant_key == id)

unfoldable pub bind_track_of :
    ℕ
    → ℕ
    → BindInput
    → Option MediaTrack
    → CallTables
    → Result CallError (BindTrackResult × CallTables)
unfolding rebind bind_new
bind_track_of organization_id now input (some track) s = rebind organization_id input track s
bind_track_of organization_id now input none s = bind_new organization_id now input s

unfoldable pub bind_transaction :
    ℕ → ℕ → BindInput → CallTables → Result CallError (BindTrackResult × CallTables)
unfolding bind_track_of track_of_sid participant_in_call
bind_transaction organization_id now input s =
    throw_if (leb input.analysis_expires_at now) (resource_not_found "Future analysis expiry")
    >> (throw_if
          (not (
              any (participant_in_call organization_id input.bind_call input.bind_participant)
                s.participants)
            || not (accepts (find (is_call organization_id input.bind_call) s.calls)))
          (resource_not_found "Authorized call participant")
        >> bind_track_of organization_id now input
            (track_of_sid organization_id input.bind_track_sid s) s)

-- bindTrackAndCreateAnalysis
unfoldable pub bind_track_and_create_analysis : ℕ → ℕ → BindInput → CallEffect BindTrackResult
unfolding bind_transaction
bind_track_and_create_analysis organization_id now input =
    transaction (bind_transaction organization_id now input)
