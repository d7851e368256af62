-- ===== src/Calls/Outside.antt =====
-- What the services of calls, analysis and media await, and the checks that they share.
use swar.Prelude.{ℕ, Bool, ◌∷◌, Option, String, if◌then◌else◌, Result, ok, err, string_eq}
use swar.Domain.{
  CallStatus, AnalysisSessionStatus, TransitionError, call_status_eq, analysis_session_status_eq,
  call_transitions, analysis_transitions, assert_transition,
}
use swar.Effects.{done, throws}
use swar.Auth.Accounts.{AuthPrincipal}
use swar.Auth.Limiter.{AuthError}
use swar.Auth.Permissions.{Permission, assert}
use swar.Calls.Rows.{not_authorized, illegal_call, illegal_session, audit_failed}
use swar.Calls.Repository.{CallEffect}

-- The answers of LiveKit, of the ML control service, of the audit log by action, and of the
-- enrollment repository, which is asked for the active voiceprint of a speaker.
pub record Outside : Type 0 where
  pub creates_room : ℕ → Bool
  pub closes_room : ℕ → Bool
  pub grants : ℕ → Bool
  pub removes : ℕ → Bool
  pub has_ml : Bool
  pub starts : ℕ → Bool
  pub stops : ℕ → Bool
  pub audits : String → Bool
  pub active_voiceprint : ℕ → ℕ → Option ℕ

-- `this.audit.record({ …, action, … })`
unfoldable pub record_audit : Outside → String → CallEffect (Unit {0})
record_audit outside action s =
    if outside.audits action
    then (ok tt, record s { audit = action ∷ s.audit })
    else (err audit_failed, s)

unfoldable pub permitted : Result AuthError (Unit {0}) → CallEffect (Unit {0})
unfolding done throws
permitted (ok _) = done tt
permitted (err e) = throws (not_authorized e)

unfoldable pub authorize : AuthPrincipal → Permission → CallEffect (Unit {0})
unfolding assert permitted
authorize principal p = permitted (assert principal p principal.organization_id)

unfoldable pub call_allowed : Result (TransitionError CallStatus) (Unit {0}) → CallEffect (Unit {0})
unfolding done throws
call_allowed (ok _) = done tt
call_allowed (err e) = throws (illegal_call e)

unfoldable pub assert_call : CallStatus → CallStatus → CallEffect (Unit {0})
unfolding assert_transition call_allowed
assert_call from to = call_allowed (assert_transition "Call" call_transitions from to)

unfoldable pub session_allowed :
    Result (TransitionError AnalysisSessionStatus) (Unit {0}) → CallEffect (Unit {0})
unfolding done throws
session_allowed (ok _) = done tt
session_allowed (err e) = throws (illegal_session e)

unfoldable pub assert_session :
    AnalysisSessionStatus → AnalysisSessionStatus → CallEffect (Unit {0})
unfolding assert_transition session_allowed
assert_session from to =
    session_allowed (assert_transition "AnalysisSession" analysis_transitions from to)
