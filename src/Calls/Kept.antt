-- ===== src/Calls/Kept.antt =====
-- What each method of the services keeps: at most one analysis on each call.
use swar.Prelude.{ℕ, true, false, List, Option, none, some, String, ◌≡◌, refl, arith}
use swar.Domain.{AnalysisSessionStatus}
use swar.Risk.Types.{EvidenceMode}
use swar.Effects.Preserves.{Preserves, preserves_rules}
use swar.Auth.Accounts.{AuthPrincipal}
use swar.Calls.Rows.{Call, CallParticipant, AnalysisSession, is_running}
use swar.Calls.Changes.{transition_analysis_session}
use swar.Calls.Outside.{Outside}
use swar.Calls.Exclusive.{IsExclusive}
use swar.Calls.OneAnalysis.{transition_analysis-Preserves, repository_rules}
use swar.Calls.Service.{
  CreateCallCommand, InviteCommand, fail_authorized, room_failed, create_call, invite, grant_for,
  grant_failed, answer_as, answer_call, cancel_failed, cancel_call, clean_up, clean_up_failed,
  start_ending, end_joined, end_found, end,
}
use swar.Calls.Closing.{AnalysisGrant}
use swar.Calls.Analysis.{
  expire_session, voiceprint_lost, check_voiceprint, mark_starting, activate, start_pending,
  start_unexpired, start_found, start_analysis, revoke_unstarted, mark_stopping, stop_provider,
  stop_pending, stop_running, stop_found, stop_analysis,
}
use swar.Calls.Lifecycle.{
  LifecycleEvent, LifecycleEventType, stop_or_note, activate_on_join, handle_joined, handle_left,
  handle_unpublished, handle_published, handle_track, handle_track_type, handle_resolved,
  handle_participant, handle_verified, handle_verified_lifecycle, room_finished, participant_joined,
  participant_left, participant_connection_aborted, track_published, track_unpublished,
}

to_over :
    (o id : ℕ) (from to : AnalysisSessionStatus) (code : Option String) (now : ℕ)
    → is_running to ≡ false
    → Preserves IsExclusive (transition_analysis_session o id from to code now)
to_over o id from to code now h =
    transition_analysis-Preserves o id from to code now (λ k. ground arith)

from_running :
    (o id : ℕ) (from to : AnalysisSessionStatus) (code : Option String) (now : ℕ)
    → is_running from ≡ true
    → Preserves IsExclusive (transition_analysis_session o id from to code now)
from_running o id from to code now h = transition_analysis-Preserves o id from to code now (λ k. h)

expired_over : is_running AnalysisSessionStatus.expired ≡ false
unfolding is_running
expired_over = refl

revoked_over : is_running AnalysisSessionStatus.revoked ≡ false
unfolding is_running
revoked_over = refl

stopping_over : is_running AnalysisSessionStatus.stopping ≡ false
unfolding is_running
stopping_over = refl

stopped_over : is_running AnalysisSessionStatus.stopped ≡ false
unfolding is_running
stopped_over = refl

authorized_runs : is_running AnalysisSessionStatus.authorized ≡ true
unfolding is_running
authorized_runs = refl

starting_runs : is_running AnalysisSessionStatus.starting ≡ true
unfolding is_running
starting_runs = refl

ruleset session_rules = (
  preserves_rules, repository_rules, to_over, from_running, expired_over, revoked_over,
  stopping_over, stopped_over, authorized_runs, starting_runs,
)

module _ (outside : Outside) (principal : AuthPrincipal) (now : ℕ) where
  pub create-Kept :
      (command : CreateCallCommand)
      → Preserves IsExclusive (create_call outside principal now command)
  unfolding create_call room_failed fail_authorized
  create-Kept command = search session_rules depth 24

  pub invite-Kept :
      (command : InviteCommand) → Preserves IsExclusive (invite outside principal now command)
  unfolding invite grant_for grant_failed
  invite-Kept command = search session_rules depth 24

  answer_as-Kept :
      (p : Option CallParticipant) → Preserves IsExclusive (answer_as outside principal now p)
  unfolding answer_as grant_for
  answer_as-Kept none = search session_rules depth 24
  answer_as-Kept (some p) = search session_rules depth 24

  pub answer-Kept :
      (call participant : ℕ)
      → Preserves IsExclusive (answer_call outside principal now call participant)
  unfolding answer_call
  answer-Kept call participant = search (session_rules, answer_as-Kept) depth 24

  end_found-Kept :
      (call : Call) (ps : List CallParticipant)
      → Preserves IsExclusive (end_found outside principal now call ps)
  unfolding end_found cancel_call cancel_failed end_joined start_ending clean_up clean_up_failed
  end_found-Kept call ps = search session_rules depth 24

  pub end-Kept : (call : ℕ) → Preserves IsExclusive (end outside principal now call)
  unfolding end
  end-Kept call = search (session_rules, end_found-Kept) depth 24

module _ (outside : Outside) (organization_id now : ℕ) where
  voiceprint-Kept :
      (x : AnalysisSession) (v speaker : Option ℕ)
      → Preserves IsExclusive (check_voiceprint outside organization_id now x v speaker)
  unfolding check_voiceprint voiceprint_lost
  voiceprint-Kept x none speaker = search session_rules depth 24
  voiceprint-Kept x (some v) none = search session_rules depth 24
  voiceprint-Kept x (some v) (some speaker) = search session_rules depth 24

  start_found-Kept :
      (g : AnalysisGrant) → Preserves IsExclusive (start_found outside organization_id now g)
  unfolding start_found expire_session start_unexpired mark_starting activate start_pending
  start_found-Kept g = search (session_rules, voiceprint-Kept) depth 24

  pub start-Kept : (id : ℕ) → Preserves IsExclusive (start_analysis outside organization_id now id)
  unfolding start_analysis
  start-Kept id = search (session_rules, start_found-Kept) depth 24

  stop_found-Kept :
      (x : AnalysisSession) → Preserves IsExclusive (stop_found outside organization_id now x)
  unfolding stop_found revoke_unstarted stop_running mark_stopping stop_provider stop_pending
  stop_found-Kept x = search session_rules depth 24

  pub stop-Kept : (id : ℕ) → Preserves IsExclusive (stop_analysis outside organization_id now id)
  unfolding stop_analysis
  stop-Kept id = search (session_rules, stop_found-Kept) depth 24

module _ (outside : Outside) (ttl : ℕ) (mode : Option EvidenceMode) (now : ℕ) where
  stop_or_note-Kept :
      (action : String) (id : ℕ)
      → Preserves IsExclusive (stop_or_note outside ttl mode now action id)
  unfolding stop_or_note
  stop_or_note-Kept action id = search session_rules depth 24

  joined-Kept :
      (event : LifecycleEvent) (call : Call) (p : CallParticipant)
      → Preserves IsExclusive (handle_joined outside ttl mode now event call p)
  unfolding handle_joined activate_on_join
  joined-Kept event call p = search session_rules depth 24

  left-Kept :
      (event : LifecycleEvent) (call : Call) (p : CallParticipant)
      → Preserves IsExclusive (handle_left outside ttl mode now event call p)
  unfolding handle_left
  left-Kept event call p = search session_rules depth 24

  unpublished-Kept :
      (event : LifecycleEvent) (sid : ℕ) (call : Call)
      → Preserves IsExclusive (handle_unpublished outside ttl mode now event sid call)
  unfolding handle_unpublished
  unpublished-Kept event sid call = search (session_rules, stop_or_note-Kept) depth 24

  published-Kept :
      (event : LifecycleEvent) (sid : ℕ) (call : Call) (p : CallParticipant)
      → Preserves IsExclusive (handle_published outside ttl mode now event sid call p)
  unfolding handle_published
  published-Kept event sid call p = search (session_rules, stop_or_note-Kept, start-Kept) depth 24

  track_type-Kept :
      (event : LifecycleEvent) (type : LifecycleEventType) (sid : ℕ) (call : Call)
      (p : CallParticipant)
      → Preserves IsExclusive (handle_track_type outside ttl mode now event type sid call p)
  unfolding handle_track_type
  track_type-Kept event track_unpublished sid call p = unpublished-Kept event sid call
  track_type-Kept event room_finished sid call p = published-Kept event sid call p
  track_type-Kept event participant_joined sid call p = published-Kept event sid call p
  track_type-Kept event participant_left sid call p = published-Kept event sid call p
  track_type-Kept event participant_connection_aborted sid call p = published-Kept event sid call p
  track_type-Kept event track_published sid call p = published-Kept event sid call p

  track-Kept :
      (event : LifecycleEvent) (call : Call) (p : CallParticipant) (sid : Option ℕ)
      → Preserves IsExclusive (handle_track outside ttl mode now event call p sid)
  unfolding handle_track
  track-Kept event call p none = search session_rules depth 24
  track-Kept event call p (some sid) = track_type-Kept event event.event_type sid call p

  resolved-Kept :
      (event : LifecycleEvent) (type : LifecycleEventType) (call : Call) (p : CallParticipant)
      → Preserves IsExclusive (handle_resolved outside ttl mode now event type call p)
  unfolding handle_resolved
  resolved-Kept event participant_joined call p = joined-Kept event call p
  resolved-Kept event participant_left call p = left-Kept event call p
  resolved-Kept event participant_connection_aborted call p = left-Kept event call p
  resolved-Kept event room_finished call p = track-Kept event call p event.event_track
  resolved-Kept event track_published call p = track-Kept event call p event.event_track
  resolved-Kept event track_unpublished call p = track-Kept event call p event.event_track

  participant-Kept :
      (event : LifecycleEvent) (identity : Option ℕ)
      → Preserves IsExclusive (handle_participant outside ttl mode now event identity)
  unfolding handle_participant
  participant-Kept event none = search session_rules depth 24
  participant-Kept event (some identity) = search (session_rules, resolved-Kept) depth 24

  verified-Kept :
      (event : LifecycleEvent) (type : LifecycleEventType)
      → Preserves IsExclusive (handle_verified outside ttl mode now event type)
  unfolding handle_verified
  verified-Kept event room_finished = search session_rules depth 24
  verified-Kept event participant_joined = participant-Kept event event.event_participant
  verified-Kept event participant_left = participant-Kept event event.event_participant
  verified-Kept event participant_connection_aborted =
      participant-Kept event event.event_participant
  verified-Kept event track_published = participant-Kept event event.event_participant
  verified-Kept event track_unpublished = participant-Kept event event.event_participant

  pub lifecycle-Kept :
      (event : LifecycleEvent)
      → Preserves IsExclusive (handle_verified_lifecycle outside ttl mode now event)
  unfolding handle_verified_lifecycle
  lifecycle-Kept event = search (session_rules, verified-Kept) depth 24
