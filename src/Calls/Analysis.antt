-- ===== src/Calls/Analysis.antt =====
-- backend/src/modules/analysis/analysis.service.ts.
use swar.Prelude.{ℕ, ◌||◌, ◌-◌, ◌/◌, Option, none, some, ltb, leb, ◌===◌, if◌then◌else◌}
use swar.Domain.{AnalysisSessionStatus, analysis_session_status_eq}
use swar.Effects.{done, throws, catching, refuse_if, requires, ◌>>=◌, ◌>>◌}
use swar.Calls.Rows.{AnalysisSession, persistence_conflict, provider_failed, analysis_provider}
use swar.Calls.Repository.{CallEffect, same_optional}
use swar.Calls.Changes.{transition_analysis_session}
use swar.Calls.Closing.{AnalysisGrant, find_analysis_grant_context}
use swar.Calls.Outside.{Outside, record_audit, assert_session}

module _ (outside : Outside) (organization_id now : ℕ) where
  unfoldable pub expire_session : AnalysisSession → CallEffect AnalysisSession
  unfolding ◌>>=◌ assert_session transition_analysis_session
  expire_session x = do
    assert_session x.session_status AnalysisSessionStatus.expired
    transition_analysis_session organization_id x.session_key x.session_status
        AnalysisSessionStatus.expired none now

  unfoldable pub voiceprint_lost : AnalysisSession → CallEffect (Unit {0})
  unfolding ◌>>=◌ transition_analysis_session throws
  voiceprint_lost x = do
    transition_analysis_session organization_id x.session_key x.session_status
        AnalysisSessionStatus.revoked (some "VOICEPRINT_NOT_ACTIVE") now
    throws persistence_conflict

  -- The voiceprint of a session is the active one of the speaker whom the call expects.
  unfoldable pub check_voiceprint : AnalysisSession → Option ℕ → Option ℕ → CallEffect (Unit {0})
  unfolding done throws voiceprint_lost
  check_voiceprint x none speaker = done tt
  check_voiceprint x (some voiceprint) none = throws persistence_conflict
  check_voiceprint x (some voiceprint) (some speaker) =
      if same_optional (outside.active_voiceprint organization_id speaker) (some voiceprint)
      then done tt
      else voiceprint_lost x

  unfoldable pub mark_starting : AnalysisSession → CallEffect (Unit {0})
  unfolding ◌>>=◌ assert_session transition_analysis_session done
  mark_starting x =
      if x.session_status === AnalysisSessionStatus.authorized
      then (do
        assert_session AnalysisSessionStatus.authorized AnalysisSessionStatus.starting
        transition_analysis_session organization_id x.session_key AnalysisSessionStatus.authorized
            AnalysisSessionStatus.starting none now
        done tt)
      else done tt

  -- The body of the `try` of start.
  unfoldable pub activate : AnalysisSession → CallEffect AnalysisSession
  unfolding ◌>>=◌ requires refuse_if assert_session transition_analysis_session record_audit done
  activate x = do
    requires outside.has_ml provider_failed
    refuse_if (ltb ((x.expires_at - now) / 1000) 30) provider_failed
    requires (outside.grants x.session_key) provider_failed
    requires (outside.starts x.session_key) provider_failed
    assert_session AnalysisSessionStatus.starting AnalysisSessionStatus.active
    active ←
        transition_analysis_session organization_id x.session_key AnalysisSessionStatus.starting
          AnalysisSessionStatus.active none now
    record_audit outside "analysis.session.active"
    done active

  unfoldable pub start_pending : CallEffect AnalysisSession
  unfolding ◌>>=◌ record_audit throws
  start_pending = do
    record_audit outside "analysis.session.start.provider-unknown"
    throws (analysis_provider "analysis-start" AnalysisSessionStatus.starting)

  unfoldable pub start_unexpired : AnalysisGrant → CallEffect AnalysisSession
  unfolding ◌>>=◌ check_voiceprint mark_starting catching activate start_pending
  start_unexpired grant = do
    check_voiceprint grant.session grant.session.voiceprint_id
        grant.grant_call.expected_trusted_speaker
    mark_starting grant.session
    catching (activate grant.session) start_pending

  unfoldable pub start_found : AnalysisGrant → CallEffect AnalysisSession
  unfolding done throws expire_session start_unexpired
  start_found grant =
      if grant.session.session_status === AnalysisSessionStatus.active
      then done grant.session
      else (if grant.session.session_status === AnalysisSessionStatus.authorized
            || grant.session.session_status === AnalysisSessionStatus.starting
          then (if leb grant.session.expires_at now
              then expire_session grant.session
              else start_unexpired grant)
          else throws persistence_conflict)

  -- start
  unfoldable pub start_analysis : ℕ → CallEffect AnalysisSession
  unfolding ◌>>=◌ find_analysis_grant_context start_found
  start_analysis session_id = do
    grant ← find_analysis_grant_context organization_id session_id
    start_found grant

  -- The stop of a session that has not begun.
  unfoldable pub revoke_unstarted : AnalysisSession → CallEffect AnalysisSession
  unfolding ◌>>=◌ assert_session transition_analysis_session record_audit done
  revoke_unstarted x = do
    assert_session x.session_status AnalysisSessionStatus.revoked
    stopped ←
        transition_analysis_session organization_id x.session_key x.session_status
          AnalysisSessionStatus.revoked none now
    record_audit outside "analysis.session.stopped"
    done stopped

  unfoldable pub mark_stopping : AnalysisSession → CallEffect (Unit {0})
  unfolding ◌>>=◌ assert_session transition_analysis_session done
  mark_stopping x = if x.session_status === AnalysisSessionStatus.stopping then done tt else (do
    assert_session x.session_status AnalysisSessionStatus.stopping
    transition_analysis_session organization_id x.session_key x.session_status
        AnalysisSessionStatus.stopping none now
    done tt)

  -- What the `catch` of stop catches: the last call is returned and not awaited within the `try`, so
  -- that its error is not caught.
  unfoldable pub stop_provider : AnalysisSession → CallEffect (Unit {0})
  unfolding ◌>>=◌ requires assert_session
  stop_provider x = do
    requires outside.has_ml provider_failed
    requires (outside.stops x.session_key) provider_failed
    assert_session AnalysisSessionStatus.stopping AnalysisSessionStatus.stopped

  unfoldable pub stop_pending : CallEffect (Unit {0})
  unfolding ◌>>=◌ record_audit throws
  stop_pending = do
    record_audit outside "analysis.session.stop.provider-unknown"
    throws (analysis_provider "analysis-stop" AnalysisSessionStatus.stopping)

  unfoldable pub stop_running : AnalysisSession → CallEffect AnalysisSession
  unfolding ◌>>=◌ mark_stopping catching stop_provider stop_pending transition_analysis_session
  stop_running x = do
    mark_stopping x
    catching (stop_provider x) stop_pending
    transition_analysis_session organization_id x.session_key AnalysisSessionStatus.stopping
        AnalysisSessionStatus.stopped none now

  unfoldable pub stop_found : AnalysisSession → CallEffect AnalysisSession
  unfolding done throws revoke_unstarted stop_running
  stop_found x =
      if x.session_status === AnalysisSessionStatus.stopped
      then done x
      else (if x.session_status === AnalysisSessionStatus.authorized
            || x.session_status === AnalysisSessionStatus.starting
          then revoke_unstarted x
          else (if x.session_status === AnalysisSessionStatus.active
                || (x.session_status === AnalysisSessionStatus.degraded
                    || x.session_status === AnalysisSessionStatus.stopping)
              then stop_running x
              else throws persistence_conflict))

  -- stop
  unfoldable pub stop_analysis : ℕ → CallEffect AnalysisSession
  unfolding ◌>>=◌ find_analysis_grant_context stop_found
  stop_analysis session_id = do
    grant ← find_analysis_grant_context organization_id session_id
    stop_found grant.session
