-- ===== src/Calls/OneAnalysis.antt =====
-- No request and no event of LiveKit leads to two running analyses on one call.
use swar.Prelude.{
  ℕ, true, List, ◌&&◌, ◌||◌, not, Option, none, some, String, ◌==◌, find, any, update_many,
  count_many, Result, ok, err, ◌≡◌, leb, arith, inl, inr, Bool-cases, Option-cases, >>=-elim,
  >>-elim, ok-injective, subst, ap, nat_eq, or_throw,
}
use swar.Domain.{
  CallStatus, AnalysisSessionStatus, TransitionError, call_status_eq, analysis_session_status_eq,
  assert_transition, call_transitions, analysis_transitions,
}
use swar.Effects.{transaction}
use swar.Effects.Preserves.{Preserves, preserves_rules, Preserves-transaction}
use swar.Auth.Accounts.{AuthPrincipal}
use swar.Auth.Limiter.{AuthError}
use swar.Auth.Permissions.{Permission, assert}
use swar.Calls.Rows.{
  Call, CallParticipant, MediaTrack, CallTables, CallError, is_running, resource_not_found,
  idempotency_conflict,
}
use swar.Calls.Repository.{
  CallInput, ParticipantInput, create_call_with_participants, create_transaction, call_of_key,
  insert_call, find_tenant_call, find_call_aggregate, find_by_verified_room_participant,
  add_participant, add_transaction, participant_of_identity, is_invitable, is_call,
}
use swar.Calls.Changes.{
  set_calls, set_participants, set_sessions, mark_participant_joined, mark_participant_ended,
  transition_call, list_open_analysis_sessions, transition_analysis_session, end_call,
  end_transaction, end_tables, session_in_status, session_with_status, may_end,
}
use swar.Calls.Tracks.{
  BindInput, BindTrackResult, bind_track_and_create_analysis, bind_transaction, bind_track_of,
  bind_new, rebind, track_of_sid, participant_in_call, accepts, binding_of_track,
}
use swar.Calls.Closing.{
  close_verified_track, close_transaction, close_track, find_analysis_grant_context,
}
use swar.Calls.Outside.{
  Outside, record_audit, authorize, assert_call, assert_session, permitted, call_allowed,
  session_allowed,
}
use swar.Calls.Exclusive.{
  IsExclusive, IsExclusive-same, bound_tracks, running_sessions, bound_tables-IsExclusive,
  closed_tables-IsExclusive, end_tables-IsExclusive, session_with_status_unraised,
}

set_calls-Preserves : (f : List Call → List Call) → Preserves IsExclusive (set_calls f)
unfolding bound_tracks running_sessions
set_calls-Preserves f = record { holds = λ s h. h }

set_participants-Preserves :
    (f : List CallParticipant → List CallParticipant) → Preserves IsExclusive (set_participants f)
unfolding bound_tracks running_sessions
set_participants-Preserves f = record { holds = λ s h. h }

pub err-not-ok : {A : Type 0} {e : CallError} {a : A} → err e ≡ ok a → ⊥
err-not-ok h = cc

call_of_key-same :
    (o now : ℕ) (input : CallInput) (found : Option Call) (s : CallTables) (c : Call)
    (t : CallTables)
    → call_of_key o now input found s ≡ ok (c, t)
    → (t.bindings ≡ s.bindings) × (t.sessions ≡ s.sessions)
unfolding call_of_key insert_call
call_of_key-same o now input none s c t h = ground arith
call_of_key-same o now input (some e) s c t h = ground arith

participant-same :
    (o id now : ℕ) (input : ParticipantInput) (found : Option CallParticipant) (s : CallTables)
    (p : CallParticipant) (t : CallTables)
    → participant_of_identity o id now input found s ≡ ok (p, t)
    → (t.bindings ≡ s.bindings) × (t.sessions ≡ s.sessions)
unfolding participant_of_identity
participant-same o id now input none s p t h = ground arith
participant-same o id now input (some e) s p t h = ground arith

create-Preserves :
    (o now : ℕ) (input : CallInput)
    → Preserves IsExclusive (transaction (create_transaction o now input))
unfolding create_transaction
create-Preserves o now input = Preserves-transaction (create_transaction o now input) (λ s c t e h.
    let same =
      call_of_key-same o now input
        (find (λ c. c.organization_id == o && c.idempotency_key == input.input_key) s.calls) s c t
        e in
    IsExclusive-same s t same.0 same.1 h)

pub create_call-Preserves :
    (o now : ℕ) (input : CallInput)
    → Preserves IsExclusive (create_call_with_participants o now input)
unfolding create_call_with_participants
create_call-Preserves o now input = search (preserves_rules, create-Preserves)

pub find_tenant_call-Preserves : (o id : ℕ) → Preserves IsExclusive (find_tenant_call o id)
unfolding find_tenant_call
find_tenant_call-Preserves o id = search preserves_rules

pub find_call_aggregate-Preserves : (o id : ℕ) → Preserves IsExclusive (find_call_aggregate o id)
unfolding find_call_aggregate
find_call_aggregate-Preserves o id = search preserves_rules

pub find_by_room-Preserves :
    (r i : ℕ) → Preserves IsExclusive (find_by_verified_room_participant r i)
unfolding find_by_verified_room_participant
find_by_room-Preserves r i = search preserves_rules

pub find_grant-Preserves : (o id : ℕ) → Preserves IsExclusive (find_analysis_grant_context o id)
unfolding find_analysis_grant_context
find_grant-Preserves o id = search preserves_rules

pub list_open-Preserves : (o id : ℕ) → Preserves IsExclusive (list_open_analysis_sessions o id)
unfolding list_open_analysis_sessions
list_open-Preserves o id = search preserves_rules

pub add_participant-Preserves :
    (o id now : ℕ) (input : ParticipantInput)
    → Preserves IsExclusive (add_participant o id now input)
unfolding add_participant add_transaction
add_participant-Preserves o id now input =
    Preserves-transaction (add_transaction o id now input) (λ s p t e h.
      elim (Bool-cases (is_invitable (find (is_call o id) s.calls))) [
        | inl i ↦
            (let same =
                participant-same o id now input
                  (find
                    (λ p.
                      p.participant_organization == o
                      && (p.participant_call == id
                          && p.livekit_identity == input.input_livekit_identity))
                    s.participants)
                  s p t (rw i at e) in
              IsExclusive-same s t same.0 same.1 h)
        | inr i ↦ elim (err-not-ok (rw i at e)) [ ]
      ])

pub joined-Preserves : (o id now : ℕ) → Preserves IsExclusive (mark_participant_joined o id now)
unfolding mark_participant_joined
joined-Preserves o id now = search (preserves_rules, set_participants-Preserves)

pub ended-Preserves : (o id now : ℕ) → Preserves IsExclusive (mark_participant_ended o id now)
unfolding mark_participant_ended
ended-Preserves o id now = search (preserves_rules, set_participants-Preserves)

pub transition_call-Preserves :
    (o id : ℕ) (from to : CallStatus) (now : ℕ)
    → Preserves IsExclusive (transition_call o id from to now)
unfolding transition_call
transition_call-Preserves o id from to now = search (preserves_rules, set_calls-Preserves)

sessions_unraised :
    (o id : ℕ) (from to : AnalysisSessionStatus) (code : Option String) (now : ℕ)
    → (is_running to ≡ true → is_running from ≡ true)
    → Preserves IsExclusive
        (set_sessions (update_many (session_in_status o id from) (session_with_status now to code)))
unfolding bound_tracks running_sessions
sessions_unraised o id from to code now h = record {
  holds = λ s k o' c'. (
    (k o' c').0,
    omega (arith, k o' c', session_with_status_unraised o' c' o id now from to code s.sessions h),
  );
}

-- A session is set to a running status from a running one only.
pub transition_analysis-Preserves :
    (o id : ℕ) (from to : AnalysisSessionStatus) (code : Option String) (now : ℕ)
    → (is_running to ≡ true → is_running from ≡ true)
    → Preserves IsExclusive (transition_analysis_session o id from to code now)
unfolding transition_analysis_session
transition_analysis-Preserves o id from to code now h =
    let step = sessions_unraised o id from to code now h in search (preserves_rules, step)

bind_of-kept :
    (o now : ℕ) (input : BindInput) (found : Option MediaTrack) (s : CallTables)
    (r : BindTrackResult) (t : CallTables)
    → bind_track_of o now input found s ≡ ok (r, t)
    → IsExclusive s
    → IsExclusive t
unfolding bind_track_of bind_new rebind
bind_of-kept o now input none s r t e h =
    elim (Bool-cases (
      any (λ x. x.session_organization == o && x.session_idempotency_key == input.analysis_key)
        s.sessions)) [
          | inl d ↦ elim (err-not-ok (rw d at e)) [ ]
          | inr d ↦
              subst IsExclusive (ap (λ x. x.1) (ok-injective (rw d at e)))
                (bound_tables-IsExclusive o now input s h)
        ]
bind_of-kept o now input (some track) s r t e h =
    >>-elim
      (not (track.track_call == input.bind_call)
        || not (track.track_participant == input.bind_participant))
      idempotency_conflict _ e
      λ a e₁.
        >>=-elim (or_throw (binding_of_track o track.track_key s) idempotency_conflict) _ e₁
          λ b i e₂.
            >>=-elim
              (or_throw
                (find
                  (λ x.
                    x.session_organization == o && x.session_idempotency_key == input.analysis_key)
                  s.sessions)
                idempotency_conflict)
              _ e₂
              λ x k e₃.
                >>-elim (not (x.track_binding_id == b.binding_key)) idempotency_conflict _ e₃
                  λ l e₄. subst IsExclusive (ap (λ x. x.1) (ok-injective e₄)) h

pub bind-Preserves :
    (o now : ℕ) (input : BindInput)
    → Preserves IsExclusive (bind_track_and_create_analysis o now input)
unfolding bind_track_and_create_analysis bind_transaction
bind-Preserves o now input = Preserves-transaction (bind_transaction o now input) (λ s r t e h.
    >>-elim (leb input.analysis_expires_at now) (resource_not_found "Future analysis expiry") _ e
      λ a e'.
        >>-elim
          (not (any (participant_in_call o input.bind_call input.bind_participant) s.participants)
            || not (accepts (find (is_call o input.bind_call) s.calls)))
          (resource_not_found "Authorized call participant") _ e'
          λ b e''. bind_of-kept o now input (track_of_sid o input.bind_track_sid s) s r t e'' h)

pub close-Preserves : (o id sid now : ℕ) → Preserves IsExclusive (close_verified_track o id sid now)
unfolding close_verified_track close_transaction close_track
close-Preserves o id sid now = Preserves-transaction (close_transaction o id sid now) (λ s r t e h.
    >>=-elim (or_throw (track_of_sid o sid s) (resource_not_found "Media track")) _ e λ track i e'.
      >>-elim (not (track.track_call == id)) (resource_not_found "Media track") _ e' λ a e''.
        subst IsExclusive (ap (λ x. x.1) (ok-injective e''))
          (closed_tables-IsExclusive o now track (binding_of_track o track.track_key s) s h))

pub end-Preserves : (o id now : ℕ) → Preserves IsExclusive (end_call o id now)
unfolding end_call end_transaction
end-Preserves o id now = Preserves-transaction (end_transaction o id now) (λ s c t e h.
    elim (Bool-cases (count_many (may_end o id) s.calls == 1)) [
      | inr n ↦ elim (err-not-ok (rw n at e)) [ ]
      | inl n ↦ elim (Option-cases (find (λ c. c.id == id) (end_tables o id now s).calls)) [
        | inl m ↦ elim (err-not-ok (rw (n, m) at e)) [ ]
        | inr x ↦
            subst IsExclusive (ap (λ x. x.1) (ok-injective (rw (n, x.1) at e)))
              (end_tables-IsExclusive o id now s h)
      ]
    ])

permitted-Preserves : (r : Result AuthError (Unit {0})) → Preserves IsExclusive (permitted r)
unfolding permitted
permitted-Preserves (ok _) = search preserves_rules
permitted-Preserves (err e) = search preserves_rules

pub authorize-Preserves :
    (principal : AuthPrincipal) (p : Permission) → Preserves IsExclusive (authorize principal p)
unfolding authorize
authorize-Preserves principal p = permitted-Preserves (assert principal p principal.organization_id)

call_allowed-Preserves :
    (r : Result (TransitionError CallStatus) (Unit {0})) → Preserves IsExclusive (call_allowed r)
unfolding call_allowed
call_allowed-Preserves (ok _) = search preserves_rules
call_allowed-Preserves (err e) = search preserves_rules

session_allowed-Preserves :
    (r : Result (TransitionError AnalysisSessionStatus) (Unit {0}))
    → Preserves IsExclusive (session_allowed r)
unfolding session_allowed
session_allowed-Preserves (ok _) = search preserves_rules
session_allowed-Preserves (err e) = search preserves_rules

pub assert_call-Preserves : (from to : CallStatus) → Preserves IsExclusive (assert_call from to)
unfolding assert_call
assert_call-Preserves from to =
    call_allowed-Preserves (assert_transition "Call" call_transitions from to)

pub assert_session-Preserves :
    (from to : AnalysisSessionStatus) → Preserves IsExclusive (assert_session from to)
unfolding assert_session
assert_session-Preserves from to =
    session_allowed-Preserves (assert_transition "AnalysisSession" analysis_transitions from to)

pub record_audit-Preserves :
    (outside : Outside) (action : String) → Preserves IsExclusive (record_audit outside action)
unfolding record_audit bound_tracks running_sessions
record_audit-Preserves outside action = record {
  holds = λ s h. elim (Bool-cases (outside.audits action)) [ inl t ↦ rw t h | inr e ↦ rw e h ];
}

-- Each method of the repository, but for the changes of a session's status.
pub ruleset repository_rules = (
  create_call-Preserves, find_tenant_call-Preserves, find_call_aggregate-Preserves,
  find_by_room-Preserves, find_grant-Preserves, list_open-Preserves, add_participant-Preserves,
  joined-Preserves, ended-Preserves, transition_call-Preserves, bind-Preserves, close-Preserves,
  end-Preserves, authorize-Preserves, assert_call-Preserves, assert_session-Preserves,
  record_audit-Preserves,
)
