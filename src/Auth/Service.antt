-- ===== src/Auth/Service.antt =====
-- backend/src/modules/auth/auth.service.ts: login, refresh and logout. Parameters stand for what it
-- awaits: the hash of a refresh token, whether a password matches, and whether the audit log
-- takes an entry. Access tokens, which are the answer only, are left out.
use swar.Prelude.{
  ℕ, Bool, List, ◌+◌, ◌*◌, not, Option, none, some, String, if◌then◌else◌, Result, ok, err,
  throw_if,
}
use swar.Auth.Accounts.{Directory, AuthPrincipal, LoginIdentity}
use swar.Auth.Sessions.{
  RefreshSession, SessionError, RotationResult, rotation, reuse, invalid, past_expiry, rotate,
  create, revoke_family, find_login_identity,
}
use swar.Auth.Limiter.{
  AuthError, authentication_failed, refresh_reuse_detected, token_invalid, AttemptWindow,
  assert_allowed, failed, succeeded,
}

-- AuthConfiguration
pub record AuthLimits : Type 0 where
  pub login_maximum_attempts : ℕ
  pub login_window_seconds : ℕ
  pub refresh_ttl_seconds : ℕ
  pub tracked_identities : ℕ  -- 10000

pub record AuthState : Type 0 where
  pub sessions : List RefreshSession
  pub attempts : List AttemptWindow

-- What an operation throws: its own errors, one of the sessions' table, or the audit log's.
pub data Failure : Type 0 where
  auth_failure : AuthError → Failure
  storage_failure : SessionError → Failure
  audit_failure : Failure

-- What the caller gets: the principal, and the refresh token.
pub record SessionResponse : Type 0 where
  pub principal : AuthPrincipal
  pub refresh_token : ℕ

-- A call's time, and its fresh values.
pub record Call : Type 0 where
  pub now : ℕ
  pub new_token : ℕ
  pub new_id : ℕ
  pub new_family : ℕ
  pub audited : Bool

module _ (directory : Directory) (limits : AuthLimits) (hash : ℕ → ℕ)
    (verify : String → String → Bool) where
  unfoldable pub refresh_expiry : Call → ℕ
  refresh_expiry call = call.now + limits.refresh_ttl_seconds * 1000

  -- The end of login and of refresh: without an audit entry the new session is revoked again.
  unfoldable pub audited_session :
      Call → AuthPrincipal → AuthError → AuthState → Result Failure SessionResponse × AuthState
  unfolding revoke_family
  audited_session call principal e s =
      if call.audited
      then (ok (record { principal = principal; refresh_token = call.new_token }), s)
      else (
        err (auth_failure e),
        record s {
          sessions = (revoke_family directory call.now (hash call.new_token) s.sessions).1;
        },
      )

  unfoldable pub login_session :
      Call → LoginIdentity → AuthState → Result Failure SessionResponse × AuthState
  unfolding create audited_session refresh_expiry
  login_session call identity s = created (
      create directory call.new_id identity (hash call.new_token) call.new_family
        (refresh_expiry call) s.sessions)
    where
      created :
          Result SessionError (AuthPrincipal × List RefreshSession)
          → Result Failure SessionResponse × AuthState
      created (err e) = (err (auth_failure authentication_failed), s)
      created (ok made) =
          audited_session call made.0 authentication_failed (record s { sessions = made.1 })

  unfoldable pub login_identity :
      Call
      → ℕ
      → Option LoginIdentity
      → String
      → AuthState
      → Result Failure SessionResponse × AuthState
  unfolding login_session failed succeeded
  login_identity call attempt_key none password s = (
    err (auth_failure authentication_failed),
    record s {
      attempts =
          failed limits.tracked_identities limits.login_window_seconds call.now attempt_key
            s.attempts;
    },
  )
  login_identity call attempt_key (some identity) password s =
      if verify identity.identity_password_hash password
      then login_session call identity (record s { attempts = succeeded attempt_key s.attempts })
      else (
        err (auth_failure authentication_failed),
        record s {
          attempts =
              failed limits.tracked_identities limits.login_window_seconds call.now attempt_key
                s.attempts;
        },
      )

  -- login; `attempt_key` is the digest of the organization, the address and the device.
  unfoldable pub login :
      Call
      → ℕ
      → String
      → String
      → String
      → String
      → AuthState
      → Result Failure SessionResponse × AuthState
  unfolding assert_allowed login_identity find_login_identity
  login call attempt_key email organization_slug device_public_id password s =
      allowed (assert_allowed limits.login_maximum_attempts call.now attempt_key s.attempts)
    where
      allowed : Result AuthError (List AttemptWindow) → Result Failure SessionResponse × AuthState
      allowed (err e) = (err (auth_failure e), s)
      allowed (ok attempts) =
          login_identity call attempt_key
            (find_login_identity directory email organization_slug device_public_id) password
            (record s { attempts = attempts })

  unfoldable pub refreshed :
      Call
      → Result SessionError (RotationResult × List RefreshSession)
      → AuthState
      → Result Failure SessionResponse × AuthState
  unfolding audited_session
  refreshed call (err e) s = (err (storage_failure e), s)
  refreshed call (ok (reuse principal, after)) s = (
    (if call.audited then err (auth_failure refresh_reuse_detected) else err audit_failure),
    record s { sessions = after },
  )
  refreshed call (ok (rotation principal, after)) s =
      audited_session call principal token_invalid (record s { sessions = after })
  refreshed call (ok (invalid, after)) s =
      (err (auth_failure token_invalid), record s { sessions = after })
  refreshed call (ok (past_expiry, after)) s =
      (err (auth_failure token_invalid), record s { sessions = after })

  -- refresh
  unfoldable pub refresh : Call → ℕ → AuthState → Result Failure SessionResponse × AuthState
  unfolding rotate refreshed refresh_expiry
  refresh call refresh_token s =
      refreshed call
        (rotate directory call.now call.new_id (hash call.new_token) (refresh_expiry call)
          (hash refresh_token) s.sessions)
        s

  -- logout
  unfoldable pub logout : Call → ℕ → AuthState → Result Failure (Unit {0}) × AuthState
  unfolding revoke_family
  logout call refresh_token s =
      let (principal, after) = revoke_family directory call.now (hash refresh_token) s.sessions in
      (recorded principal, record s { sessions = after })
    where
      recorded : Option AuthPrincipal → Result Failure (Unit {0})
      recorded none = ok tt
      recorded (some p) = throw_if (not call.audited) audit_failure
