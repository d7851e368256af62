-- ===== src/Calls/Changes.antt =====
-- backend/src/modules/calls/call.repository.ts: the methods that change a status.
use swar.Prelude.{
  ℕ, Bool, true, false, List, ◌&&◌, ◌||◌, Option, none, some, String, ltb, ◌==◌, ◌===◌,
  if◌then◌else◌, find, keep, sort, update_many, count_many, Result, ok, err,
}
use swar.Domain.{
  CallStatus, AnalysisSessionStatus, TrackBindingStatus, call_status_eq, analysis_session_status_eq,
  track_binding_status_eq,
}
use swar.Effects.{done, throws, query, reads, transaction, ◌>>=◌, ◌>>◌}
use swar.Calls.Rows.{
  ParticipantStatus, participant_status_eq, Call, CallParticipant, TrackBinding, AnalysisSession,
  CallTables, CallError, resource_not_found, persistence_conflict, is_open,
}
use swar.Calls.Repository.{CallEffect, or_missing, is_call, find_tenant_call}

abbrev pub set_calls : (List Call → List Call) → CallEffect (Unit {0})
set_calls f s = (ok tt, record s { calls = f s.calls })

abbrev pub set_participants : (List CallParticipant → List CallParticipant) → CallEffect (Unit {0})
set_participants f s = (ok tt, record s { participants = f s.participants })

abbrev pub set_sessions : (List AnalysisSession → List AnalysisSession) → CallEffect (Unit {0})
set_sessions f s = (ok tt, record s { sessions = f s.sessions })

abbrev pub is_participant : ℕ → ℕ → CallParticipant → Bool
is_participant organization_id id p =
    p.participant_organization == organization_id && p.participant_key == id

abbrev pub find_participant : ℕ → ℕ → CallTables → Result CallError CallParticipant
find_participant organization_id id s =
    or_missing "Call participant" (find (is_participant organization_id id) s.participants)

unfoldable pub may_join : ℕ → ℕ → CallParticipant → Bool
may_join organization_id id p =
    is_participant organization_id id p && p.participant_status === ParticipantStatus.authorized

abbrev pub join_row : ℕ → CallParticipant → CallParticipant
join_row now p = record p { participant_status = ParticipantStatus.joined; joined_at = some now }

abbrev pub joined_before : Option CallParticipant → Result CallError CallParticipant
joined_before none = err persistence_conflict
joined_before (some p) =
    if p.participant_status === ParticipantStatus.joined then ok p else err persistence_conflict

abbrev pub joined_after : ℕ → ℕ → Bool → CallTables → Result CallError CallParticipant
joined_after organization_id id true s =
    joined_before (find (is_participant organization_id id) s.participants)
joined_after organization_id id false s = find_participant organization_id id s

-- markParticipantJoined
unfoldable pub mark_participant_joined : ℕ → ℕ → ℕ → CallEffect CallParticipant
unfolding ◌>>=◌ may_join update_many count_many
mark_participant_joined organization_id id now = do
  count ← reads (λ s. count_many (may_join organization_id id) s.participants)
  set_participants (update_many (may_join organization_id id) (join_row now))
  query (joined_after organization_id id (count == 0))

unfoldable pub may_leave : ℕ → ℕ → CallParticipant → Bool
may_leave organization_id id p =
    is_participant organization_id id p
    && (p.participant_status === ParticipantStatus.authorized
        || p.participant_status === ParticipantStatus.joined)

abbrev pub leave_row : ℕ → CallParticipant → CallParticipant
leave_row now p = record p { participant_status = ParticipantStatus.left; left_at = some now }

-- markParticipantEnded
unfoldable pub mark_participant_ended : ℕ → ℕ → ℕ → CallEffect CallParticipant
unfolding ◌>>=◌ may_leave update_many
mark_participant_ended organization_id id now = do
  set_participants (update_many (may_leave organization_id id) (leave_row now))
  query (find_participant organization_id id)

unfoldable pub call_in_status : ℕ → ℕ → CallStatus → Call → Bool
call_in_status organization_id id expected c = is_call organization_id id c && c.status === expected

abbrev pub is_call_over : CallStatus → Bool
is_call_over s = s === CallStatus.ended || (s === CallStatus.cancelled || s === CallStatus.failed)

unfoldable pub call_with_status : ℕ → CallStatus → Call → Call
call_with_status now next c = record c {
  status = next;
  started_at = if next === CallStatus.active then some now else c.started_at;
  ended_at = if is_call_over next then some now else c.ended_at;
}

-- transitionCall
unfoldable pub transition_call : ℕ → ℕ → CallStatus → CallStatus → ℕ → CallEffect Call
unfolding ◌>>=◌ call_in_status call_with_status update_many count_many find_tenant_call
transition_call organization_id id expected next now = do
  count ← reads (λ s. count_many (call_in_status organization_id id expected) s.calls)
  set_calls (update_many (call_in_status organization_id id expected) (call_with_status now next))
  call ← find_tenant_call organization_id id
  if count == 1 || call.status === next then done call else throws persistence_conflict

unfoldable pub session_in_call : ℕ → ℕ → AnalysisSession → Bool
session_in_call organization_id call_id x =
    x.session_organization == organization_id && x.session_call == call_id

unfoldable pub open_in_call : ℕ → ℕ → AnalysisSession → Bool
unfolding session_in_call is_open
open_in_call organization_id call_id x =
    session_in_call organization_id call_id x && is_open x.session_status

abbrev pub created_before : AnalysisSession → AnalysisSession → Bool
created_before a b = ltb a.session_created_at b.session_created_at

-- listOpenAnalysisSessions
unfoldable pub list_open_analysis_sessions : ℕ → ℕ → CallEffect (List AnalysisSession)
unfolding open_in_call sort
list_open_analysis_sessions organization_id call_id =
    reads (λ s. sort created_before (keep (open_in_call organization_id call_id) s.sessions))

unfoldable pub session_in_status : ℕ → ℕ → AnalysisSessionStatus → AnalysisSession → Bool
session_in_status organization_id id expected x =
    x.session_organization == organization_id
    && (x.session_key == id && x.session_status === expected)

unfoldable pub is_session_over : AnalysisSessionStatus → Bool
is_session_over AnalysisSessionStatus.stopped = true
is_session_over AnalysisSessionStatus.failed = true
is_session_over AnalysisSessionStatus.expired = true
is_session_over AnalysisSessionStatus.revoked = true
is_session_over _ = false

abbrev pub or_kept {ℓ} : {A : Type ℓ} → Option A → Option A → Option A
or_kept none kept = kept
or_kept (some a) kept = some a

unfoldable pub session_with_status :
    ℕ → AnalysisSessionStatus → Option String → AnalysisSession → AnalysisSession
unfolding is_session_over
session_with_status now next code x = record x {
  session_status = next;
  session_started_at =
      if next === AnalysisSessionStatus.active then some now else x.session_started_at;
  stopped_at = if is_session_over next then some now else x.stopped_at;
  failure_code = or_kept code x.failure_code;
}

abbrev pub is_session : ℕ → ℕ → AnalysisSession → Bool
is_session organization_id id x = x.session_organization == organization_id && x.session_key == id

-- A row that must be there (findUniqueOrThrow), or else the replayed row of that status.
abbrev pub session_after :
    Bool → AnalysisSessionStatus → Option AnalysisSession → Result CallError AnalysisSession
session_after counted next none = err persistence_conflict
session_after counted next (some x) =
    if counted || x.session_status === next then ok x else err persistence_conflict

-- transitionAnalysisSession
unfoldable pub transition_analysis_session :
    ℕ
    → ℕ
    → AnalysisSessionStatus
    → AnalysisSessionStatus
    → Option String
    → ℕ
    → CallEffect AnalysisSession
unfolding ◌>>=◌ session_in_status session_with_status update_many count_many
transition_analysis_session organization_id id expected next code now = do
  count ← reads (λ s. count_many (session_in_status organization_id id expected) s.sessions)
  set_sessions (
      update_many (session_in_status organization_id id expected)
        (session_with_status now next code))
  query (λ s. session_after (count == 1) next (find (is_session organization_id id) s.sessions))

unfoldable pub may_end : ℕ → ℕ → Call → Bool
may_end organization_id id c =
    is_call organization_id id c
    && (c.status === CallStatus.authorized
        || (c.status === CallStatus.active || c.status === CallStatus.ending))

abbrev pub end_call_row : ℕ → Call → Call
end_call_row now c = record c { status = CallStatus.ended; ended_at = some now }

unfoldable pub active_binding : ℕ → ℕ → TrackBinding → Bool
active_binding organization_id call_id b =
    b.binding_organization == organization_id
    && (b.binding_call == call_id && b.binding_status === TrackBindingStatus.active)

unfoldable pub revoke_binding : ℕ → TrackBinding → TrackBinding
revoke_binding now b = record b {
  binding_status = TrackBindingStatus.revoked;
  binding_ended_at = some now;
}

unfoldable pub stop_session : ℕ → AnalysisSession → AnalysisSession
stop_session now x = record x {
  session_status = AnalysisSessionStatus.stopped;
  stopped_at = some now;
}

-- The tables after the writes of endCall.
unfoldable pub end_tables : ℕ → ℕ → ℕ → CallTables → CallTables
unfolding may_end active_binding revoke_binding open_in_call stop_session update_many
end_tables organization_id id now s = record s {
  calls = update_many (may_end organization_id id) (end_call_row now) s.calls;
  bindings = update_many (active_binding organization_id id) (revoke_binding now) s.bindings;
  sessions = update_many (open_in_call organization_id id) (stop_session now) s.sessions;
}

unfoldable pub end_transaction : ℕ → ℕ → ℕ → CallTables → Result CallError (Call × CallTables)
unfolding end_tables may_end count_many
end_transaction organization_id id now s =
    if count_many (may_end organization_id id) s.calls == 1
    then of (find (λ c. c.id == id) (end_tables organization_id id now s).calls)
    else err (resource_not_found "Active call")
  where
    of : Option Call → Result CallError (Call × CallTables)
    of none = err (resource_not_found "Call")
    of (some c) = ok (c, end_tables organization_id id now s)

-- endCall
unfoldable pub end_call : ℕ → ℕ → ℕ → CallEffect Call
unfolding end_transaction
end_call organization_id id now = transaction (end_transaction organization_id id now)
