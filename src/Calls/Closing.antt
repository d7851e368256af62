-- ===== src/Calls/Closing.antt =====
-- backend/src/modules/calls/call.repository.ts: closeVerifiedTrack and findAnalysisGrantContext.
use swar.Prelude.{
  ℕ, Bool, false, List, ◌&&◌, not, Option, none, some, ◌==◌, ◌===◌, if◌then◌else◌, find, keep,
  nat_eq, update_many, Result, ok, ◌>>=◌, or_throw, throw_if, ◌>>◌,
}
use swar.Domain.{TrackBindingStatus, track_binding_status_eq}
use swar.Effects.{query, transaction}
use swar.Calls.Rows.{
  TrackStatus, Call, CallParticipant, MediaTrack, TrackBinding, AnalysisSession, CallTables,
  CallError, resource_not_found, is_open,
}
use swar.Calls.Repository.{CallEffect, or_missing, is_call}
use swar.Calls.Changes.{revoke_binding, is_session}
use swar.Calls.Tracks.{track_of_sid, binding_of_track, revoke_sessions, session_ids}

unfoldable pub open_on_binding : ℕ → Option TrackBinding → AnalysisSession → Bool
unfolding is_open
open_on_binding organization_id none x = false
open_on_binding organization_id (some b) x =
    x.session_organization == organization_id
    && (x.track_binding_id == b.binding_key && is_open x.session_status)

abbrev pub is_binding : ℕ → ℕ → TrackBinding → Bool
is_binding organization_id id b = b.binding_organization == organization_id && b.binding_key == id

-- The binding is revoked if it is active.
unfoldable pub revoke_if_active :
    ℕ → ℕ → Option TrackBinding → List TrackBinding → List TrackBinding
unfolding revoke_binding update_many
revoke_if_active organization_id now none bindings = bindings
revoke_if_active organization_id now (some b) bindings =
    if b.binding_status === TrackBindingStatus.active
    then update_many (is_binding organization_id b.binding_key) (revoke_binding now) bindings
    else bindings

abbrev pub unpublish : ℕ → MediaTrack → MediaTrack
unpublish now t = record t { track_status = TrackStatus.unpublished; track_ended_at = some now }

abbrev pub is_track : ℕ → ℕ → MediaTrack → Bool
is_track organization_id id t = t.track_organization == organization_id && t.track_key == id

unfoldable pub closed_sessions : ℕ → Option TrackBinding → CallTables → List ℕ
unfolding open_on_binding
closed_sessions organization_id b s =
    session_ids (keep (open_on_binding organization_id b) s.sessions)

unfoldable pub closed_tables : ℕ → ℕ → MediaTrack → Option TrackBinding → CallTables → CallTables
unfolding revoke_if_active closed_sessions revoke_sessions update_many
closed_tables organization_id now track b s = record s {
  tracks = update_many (is_track organization_id track.track_key) (unpublish now) s.tracks;
  bindings = revoke_if_active organization_id now b s.bindings;
  sessions = revoke_sessions (closed_sessions organization_id b s) now s.sessions;
}

unfoldable pub close_track :
    ℕ → ℕ → MediaTrack → CallTables → Result CallError (List ℕ × CallTables)
unfolding closed_tables closed_sessions binding_of_track
close_track organization_id now track s =
    let b = binding_of_track organization_id track.track_key s in
    ok (closed_sessions organization_id b s, closed_tables organization_id now track b s)

unfoldable pub close_transaction :
    ℕ → ℕ → ℕ → ℕ → CallTables → Result CallError (List ℕ × CallTables)
unfolding close_track track_of_sid
close_transaction organization_id call_id sid now s =
    or_throw (track_of_sid organization_id sid s) (resource_not_found "Media track") >>= λ track.
    throw_if (not (track.track_call == call_id)) (resource_not_found "Media track")
    >> close_track organization_id now track s

-- closeVerifiedTrack
unfoldable pub close_verified_track : ℕ → ℕ → ℕ → ℕ → CallEffect (List ℕ)
unfolding close_transaction
close_verified_track organization_id call_id sid now =
    transaction (close_transaction organization_id call_id sid now)

-- AnalysisGrantContext
pub record AnalysisGrant : Type 0 where
  pub session : AnalysisSession
  pub grant_call : Call
  pub participant : CallParticipant
  pub track : MediaTrack
  pub binding : TrackBinding

-- findAnalysisGrantContext; a session's call, binding, participant and track are found by its keys.
unfoldable pub find_analysis_grant_context : ℕ → ℕ → CallEffect AnalysisGrant
find_analysis_grant_context organization_id id = query found
  where
    found : CallTables → Result CallError AnalysisGrant
    found s =
        or_missing "Analysis session" (find (is_session organization_id id) s.sessions) >>= λ x.
        or_missing "Analysis session" (find (is_call organization_id x.session_call) s.calls)
        >>= λ c.
            or_missing "Analysis session"
              (find (is_binding organization_id x.track_binding_id) s.bindings)
            >>= λ b.
                or_missing "Analysis session" (
                  find
                    (λ p.
                      p.participant_organization == organization_id
                      && p.participant_key == b.binding_participant)
                    s.participants)
                >>= λ p.
                    or_missing "Analysis session"
                      (find (is_track organization_id b.media_track_id) s.tracks)
                    >>= λ t. ok (record {
                      session = x;
                      grant_call = c;
                      participant = p;
                      track = t;
                      binding = b;
                    })
