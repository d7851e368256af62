-- ===== src/Auth/Refreshes.antt =====
-- The second use of a refresh token, as the authentication service answers it.
use swar.Prelude.{
  ℕ, Bool, List, some, String, if◌then◌else◌, Result, ok, err, ◌≡◌, refl, arith, inl, inr,
  Bool-cases, Option-cases, ap, ok-injective,
}
use swar.Auth.Accounts.{Directory, AuthPrincipal}
use swar.Auth.Sessions.{
  RefreshSession, SessionError, RotationResult, rotation, reuse, invalid, past_expiry, rotate,
  rotate_found, find_by_hash,
}
use swar.Auth.Families.{alive}
use swar.Auth.Reuse.{second_use_is_caught, rotation-not-invalid}
use swar.Auth.Limiter.{refresh_reuse_detected}
use swar.Auth.Service.{
  AuthLimits, AuthState, auth_failure, audit_failure, SessionResponse, Call, refresh, refreshed,
  audited_session, refresh_expiry,
}

module _ (directory : Directory) (limits : AuthLimits) (hash : ℕ → ℕ)
    (verify : String → String → Bool) where
  refreshed-rotation :
      (call : Call) (m : Result SessionError (RotationResult × List RefreshSession))
      (s after : AuthState) (r : SessionResponse)
      → refreshed directory limits hash verify call m s ≡ (ok r, after)
      → (p : AuthPrincipal) × (m ≡ ok (rotation p, after.sessions))
  unfolding refreshed audited_session
  refreshed-rotation call (err e) s after r h = cc
  refreshed-rotation call (ok (reuse p, rows)) s after r h = elim (Bool-cases call.audited) [
    | inl t ↦ ground (arith, rw t at h)
    | inr e ↦ ground (arith, rw e at h)
  ]
  refreshed-rotation call (ok (invalid, rows)) s after r h = cc
  refreshed-rotation call (ok (past_expiry, rows)) s after r h = cc
  refreshed-rotation call (ok (rotation p, rows)) s after r h = elim (Bool-cases call.audited) [
    | inl t ↦ (p, ap (λ x. ok (rotation p, x.1.sessions)) (rw t at h))
    | inr e ↦ ground (arith, rw e at h)
  ]

  rotation-known :
      (now i k e token : ℕ) (sessions after : List RefreshSession) (p : AuthPrincipal)
      → rotate directory now i k e token sessions ≡ ok (rotation p, after)
      → (c : RefreshSession) × (find_by_hash token sessions ≡ some c)
  unfolding rotate rotate_found
  rotation-known now i k e token sessions after p h =
      elim (Option-cases (find_by_hash token sessions)) [
        | inr x ↦ x
        | inl n ↦ elim (rotation-not-invalid p (ap (λ x. x.0) (ok-injective (rw n at h)))) [ ]
      ]

  -- After a refresh that succeeds, another refresh with the same token, at any time and with any
  -- fresh values, throws, and leaves no active session of the family of the token: it reports the
  -- reuse, or the audit log's failure where that refuses the entry.
  pub second_refresh_throws :
      (call later : Call) (token : ℕ) (s after : AuthState) (r : SessionResponse)
      → refresh directory limits hash verify call token s ≡ (ok r, after)
      → ((refresh directory limits hash verify later token after).0 ≡ (
          if later.audited then err (auth_failure refresh_reuse_detected) else err audit_failure))
        × ((c : RefreshSession) × (find_by_hash (hash token) s.sessions ≡ some c)
            × (alive c.family_id (refresh directory limits hash verify later token after).1.sessions
                ≡ 0))
  unfolding refresh refreshed
  second_refresh_throws call later token s after r h =
      let made = refreshed-rotation call _ s after r h in
      let known =
        rotation-known call.now call.new_id (hash call.new_token)
          (refresh_expiry directory limits hash verify call) (hash token) s.sessions after.sessions
          made.0 made.1 in
      let caught =
        second_use_is_caught directory call.now call.new_id (hash call.new_token)
          (refresh_expiry directory limits hash verify call) (hash token) known.0 s.sessions
          after.sessions made.0 known.1 made.1 later.now later.new_id (hash later.new_token)
          (refresh_expiry directory limits hash verify later) in
      rw caught.0 (refl, (known.0, known.1, caught.1))
