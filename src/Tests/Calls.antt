-- ===== src/Tests/Calls.antt =====
-- Runs of the calls, and the theorems on them applied there.
use swar.Prelude.{
  ℕ, Bool, true, false, List, [], ◌∷◌, ◌&&◌, ◌≤◌, ◌<◌, Option, none, some, Result, ok, err, ◌≡◌,
  refl, arith, keep, count_many, All, length,
}
use swar.Domain.{CallStatus}
use swar.Calls.Rows.{ParticipantRole, ParticipantStatus, Call, CallParticipant, CallTables}
use swar.Calls.Changes.{active_binding}
use swar.Calls.Tracks.{
  BindInput, BindTrackResult, bind_transaction, bound_tables, new_binding_row, new_session_row,
  new_track_row, track_of_sid, binding_of_track, binding_in_call, running_in_call,
}
use swar.Calls.Outside.{Outside}
use swar.Calls.Lifecycle.{LifecycleEvent, track_published}
use swar.Calls.Requests.{event_it, TimedRequest, serve}
use swar.Calls.Exclusive.{IsExclusive, bound_tracks, running_sessions}
use swar.Calls.History.{one_analysis_per_call}
use swar.Calls.Binding.{bind_latest, bind_again}

abbrev open_call : Call
open_call = record {
  id = 5;
  organization_id = 1;
  room_name = 50;
  expected_trusted_speaker = none;
  risk_policy_id = 2;
  risk_policy_version = 1;
  created_by = 3;
  idempotency_key = 9;
  protected_action_reference = none;
  status = CallStatus.active;
  authorized_at = some 10;
  started_at = some 20;
  ended_at = none;
  created_at = 10;
}

abbrev caller_row : CallParticipant
caller_row = record {
  participant_key = 7;
  participant_organization = 1;
  participant_call = 5;
  membership_id = none;
  trusted_speaker_id = none;
  livekit_identity = 70;
  authorized_identity = 70;
  display_name = none;
  role = ParticipantRole.caller;
  participant_status = ParticipantStatus.joined;
  participant_authorized_at = 10;
  joined_at = some 20;
  left_at = none;
}

abbrev call_rows : CallTables
call_rows = record {
  policies = [];
  calls = open_call ∷ [];
  participants = caller_row ∷ [];
  tracks = [];
  bindings = [];
  sessions = [];
  audit = [];
}

abbrev track_input : ℕ → BindInput
track_input n = record {
  bind_call = 5;
  bind_participant = 7;
  bind_track_sid = n;
  bind_source = "MICROPHONE";
  bind_mime = none;
  analysis_key = n;
  analysis_expires_at = 9000;
  bind_evidence_mode = none;
  bind_voiceprint = none;
  new_track = n;
  new_binding = n;
  new_session = n;
}

-- The tables after a first track, and what a second one leads to.
abbrev one_track : CallTables
one_track = bound_tables 1 100 (track_input 80) call_rows

abbrev second_result : BindTrackResult
second_result = record {
  binding = new_binding_row 1 200 (track_input 81) 2;
  analysis_session = new_session_row 1 200 (track_input 81) 2;
  media_track = new_track_row 1 200 (track_input 81);
  superseded_sessions = 80 ∷ [];
}

abbrev two_tracks : CallTables
two_tracks = bound_tables 1 200 (track_input 81) one_track

second_bound : bind_transaction 1 200 (track_input 81) one_track ≡ ok (second_result, two_tracks)
unfolding bind_transaction
second_bound = refl

unknown_sid : track_of_sid 1 81 one_track ≡ none
unfolding track_of_sid bound_tables
unknown_sid = refl

unknown_track : binding_of_track 1 81 one_track ≡ none
unfolding binding_of_track bound_tables
unknown_track = refl

bind_latest_example :
    All (λ b. binding_in_call 1 5 b ≡ true → b.revision < 2) one_track.bindings
    × (keep (active_binding 1 5) two_tracks.bindings ≡ second_result.binding ∷ [])
    × (keep (running_in_call 1 5) two_tracks.sessions ≡ second_result.analysis_session ∷ [])
unfolding new_binding_row
bind_latest_example =
    bind_latest 1 200 (track_input 81) one_track second_result two_tracks unknown_sid second_bound

bind_again_example :
    bind_transaction 1 300 (track_input 81) two_tracks
    ≡ ok (record second_result { superseded_sessions = [] }, two_tracks)
bind_again_example =
    bind_again 1 200 300 (track_input 81) one_track second_result two_tracks unknown_sid
      unknown_track (omega arith) second_bound

-- Every service outside answers, but the stop of a session fails.
abbrev outside_services : Outside
outside_services = record {
  creates_room = λ _. true;
  closes_room = λ _. true;
  grants = λ _. true;
  removes = λ _. true;
  has_ml = true;
  starts = λ _. true;
  stops = λ _. false;
  audits = λ _. true;
  active_voiceprint = λ _ _. none;
}

abbrev published_event : ℕ → LifecycleEvent
published_event n = record {
  signature_verified = true;
  event_type = track_published;
  event_room = 50;
  event_participant = some 70;
  event_track = some n;
  event_track_source = "MICROPHONE";
  event_mime = none;
  is_audio = true;
  event_time = 100;
  analysis_event_key = n;
  event_new_track = n;
  event_new_binding = n;
  event_new_session = n;
}

abbrev two_events : List TimedRequest
two_events =
    (outside_services, 100, event_it 60 none (published_event 80))
    ∷ (outside_services, 200, event_it 60 none (published_event 81))
    ∷ []

two_sessions : length (serve two_events call_rows).sessions ≡ 2
unfolding serve
two_sessions = refl

last_running : running_sessions 1 5 (serve two_events call_rows) ≡ 1
unfolding running_sessions swar.Prelude.count_many serve
last_running = refl

no_rows-IsExclusive : IsExclusive call_rows
unfolding bound_tracks running_sessions swar.Prelude.count_many
no_rows-IsExclusive o c = (omega arith, omega arith)

one_analysis_per_call_example : IsExclusive (serve two_events call_rows)
one_analysis_per_call_example = one_analysis_per_call two_events call_rows no_rows-IsExclusive
