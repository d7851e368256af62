-- ===== src/Auth/Sessions.antt =====
-- backend/src/modules/auth/refresh-session.repository.ts, method by method. Each transaction is
-- serializable, and is one step on the table of sessions: one that throws leaves it as it was.
-- Tokens' hashes and identifiers are numbers, and a time or a fresh identifier is an argument.
use swar.Prelude.{
  ℕ, Bool, List, [], ◌∷◌, ◌++◌, ◌&&◌, not, Option, none, some, String, ltb, leb, ◌==◌, ◌===◌,
  if◌then◌else◌, find, any, update_many, count_many, Result, ok, throw_if, or_throw, ◌>>◌, ◌>>=◌,
  string_eq,
}
use swar.Auth.Accounts.{Directory, Device, AuthPrincipal, LoginIdentity}

pub data RefreshSessionStatus : Type 0 where
  active rotated expired revoked : RefreshSessionStatus

abbrev pub session_status_index : RefreshSessionStatus → ℕ
session_status_index RefreshSessionStatus.active = 0
session_status_index RefreshSessionStatus.rotated = 1
session_status_index RefreshSessionStatus.expired = 2
session_status_index RefreshSessionStatus.revoked = 3

abbrev pub is_active : RefreshSessionStatus → Bool
is_active s = session_status_index s == 0

pub record RefreshSession : Type 0 where
  pub id : ℕ
  pub session_organization : ℕ
  pub session_membership : ℕ
  pub session_device : ℕ
  pub token_hash : ℕ
  pub family_id : ℕ
  pub status : RefreshSessionStatus
  pub expires_at : ℕ
  pub rotated_at : Option ℕ
  pub revoked_at : Option ℕ

pub data SessionError : Type 0 where
  auth_identity_changed unique_violation : SessionError

unfoldable pub find_login_identity : Directory → String → String → String → Option LoginIdentity
find_login_identity directory email organization_slug device_public_id =
    found (find matches directory.devices)
  where
    matches : Device → Bool
    matches d =
        d.device_public_id === device_public_id
        && (d.device_active
            && (d.organization_slug === organization_slug
                && (d.organization_active
                    && (d.membership.membership_active
                        && (d.membership.user.email === email && d.membership.user.user_active)))))

    found : Option Device → Option LoginIdentity
    found none = none
    found (some d) = some (record {
      identity_user = d.membership.user.user_key;
      identity_organization = d.device_organization;
      identity_membership = d.membership.membership_key;
      identity_device = d.device_key;
      identity_roles = d.membership.membership_roles;
      identity_password_hash = d.membership.user.password_hash;
    })

-- `refreshSession.create`: the table refuses a second row of a token's hash or of an identifier.
unfoldable pub add_session :
    RefreshSession → List RefreshSession → Result SessionError (List RefreshSession)
add_session s sessions =
    throw_if (any (λ r. r.token_hash == s.token_hash) sessions) unique_violation
    >> (throw_if (any (λ r. r.id == s.id) sessions) unique_violation >> ok (sessions ++ s ∷ []))

-- create
unfoldable pub create :
    Directory
    → ℕ
    → LoginIdentity
    → ℕ
    → ℕ
    → ℕ
    → List RefreshSession
    → Result SessionError (AuthPrincipal × List RefreshSession)
unfolding add_session
create directory session_id identity token_hash family_id expires_at sessions =
    or_throw (find usable directory.devices) auth_identity_changed >>= λ d.
    add_session
      (record {
        id = session_id;
        session_organization = d.device_organization;
        session_membership = d.membership.membership_key;
        session_device = d.device_key;
        token_hash = token_hash;
        family_id = family_id;
        status = RefreshSessionStatus.active;
        expires_at = expires_at;
        rotated_at = none;
        revoked_at = none;
      })
      sessions
    >>= λ after. ok (
      (record {
        user_id = identity.identity_user;
        organization_id = d.device_organization;
        membership_id = d.membership.membership_key;
        device_id = d.device_key;
        session_id = session_id;
        roles = d.membership.membership_roles;
      }),
      after,
    )
  where
    usable : Device → Bool
    usable d =
        d.device_key == identity.identity_device
        && (d.device_organization == identity.identity_organization
            && (d.membership.membership_key == identity.identity_membership
                && (d.device_active
                    && (d.membership.membership_active && d.membership.user.user_active))))

unfoldable pub find_by_hash : ℕ → List RefreshSession → Option RefreshSession
find_by_hash hash sessions = find (λ s. s.token_hash == hash) sessions

unfoldable pub active_in : ℕ → RefreshSession → Bool
active_in family s = s.family_id == family && is_active s.status

unfoldable pub revoke : ℕ → RefreshSession → RefreshSession
revoke now s = record s { status = RefreshSessionStatus.revoked; revoked_at = some now }

-- `updateMany({ where: { familyId, status: ACTIVE }, data: { status: REVOKED, … } })`
unfoldable pub revoke_active : ℕ → ℕ → List RefreshSession → List RefreshSession
unfolding active_in revoke update_many
revoke_active now family sessions = update_many (active_in family) (revoke now) sessions

unfoldable pub expire : ℕ → RefreshSession → RefreshSession
expire now s = record s { status = RefreshSessionStatus.expired; revoked_at = some now }

unfoldable pub rotate_out : ℕ → RefreshSession → RefreshSession
rotate_out now s = record s { status = RefreshSessionStatus.rotated; rotated_at = some now }

-- toPrincipal
unfoldable pub to_principal : Directory → RefreshSession → ℕ → AuthPrincipal
to_principal directory s session_id = record {
  user_id = (directory.membership_of s.session_membership).user.user_key;
  organization_id = s.session_organization;
  membership_id = s.session_membership;
  device_id = s.session_device;
  session_id = session_id;
  roles = (directory.membership_of s.session_membership).membership_roles;
}

-- RotationResult
pub data RotationResult : Type 0 where
  rotation : AuthPrincipal → RotationResult
  invalid past_expiry : RotationResult
  reuse : AuthPrincipal → RotationResult

-- The device, the member and the user of a session are all active.
unfoldable pub account_valid : Directory → RefreshSession → Bool
account_valid directory s =
    (directory.device_of s.session_device).device_active
    && ((directory.membership_of s.session_membership).membership_active
        && (directory.membership_of s.session_membership).user.user_active)

-- The session that takes over from another.
unfoldable pub successor : ℕ → ℕ → ℕ → RefreshSession → RefreshSession
successor next_id next_hash expires_at s = record {
  id = next_id;
  session_organization = s.session_organization;
  session_membership = s.session_membership;
  session_device = s.session_device;
  token_hash = next_hash;
  family_id = s.family_id;
  status = RefreshSessionStatus.active;
  expires_at = expires_at;
  rotated_at = none;
  revoked_at = none;
}

unfoldable pub this_active : RefreshSession → RefreshSession → Bool
this_active current s = s.id == current.id && is_active s.status

module _ (directory : Directory) (now next_id next_hash expires_at : ℕ) where
  -- rotate, from the update of the current session on.
  unfoldable pub take_over :
      RefreshSession
      → List RefreshSession
      → Result SessionError (RotationResult × List RefreshSession)
  unfolding revoke_active to_principal add_session successor rotate_out this_active count_many
      update_many
  take_over current sessions =
      let after = update_many (this_active current) (rotate_out now) sessions in
      if not (count_many (this_active current) sessions == 1)
      then ok (
        reuse (to_principal directory current current.id),
        revoke_active now current.family_id after,
      )
      else (add_session (successor next_id next_hash expires_at current) after >>= λ final.
          ok (rotation (to_principal directory current next_id), final))

  -- rotate, with the session that has the hash.
  unfoldable pub rotate_session :
      RefreshSession
      → List RefreshSession
      → Result SessionError (RotationResult × List RefreshSession)
  unfolding revoke_active to_principal expire account_valid take_over update_many
  rotate_session current sessions =
      if not (is_active current.status)
      then ok (
        reuse (to_principal directory current current.id),
        revoke_active now current.family_id sessions,
      )
      else (if leb current.expires_at now
          then ok (past_expiry, update_many (λ s. s.id == current.id) (expire now) sessions)
          else (if not (account_valid directory current)
              then ok (invalid, revoke_active now current.family_id sessions)
              else take_over current sessions))

  unfoldable pub rotate_found :
      Option RefreshSession
      → List RefreshSession
      → Result SessionError (RotationResult × List RefreshSession)
  unfolding rotate_session
  rotate_found none sessions = ok (invalid, sessions)
  rotate_found (some current) sessions = rotate_session current sessions

  unfoldable pub rotate :
      ℕ → List RefreshSession → Result SessionError (RotationResult × List RefreshSession)
  unfolding rotate_found find_by_hash
  rotate current_hash sessions = rotate_found (find_by_hash current_hash sessions) sessions

-- revokeFamily
unfoldable pub revoke_family :
    Directory → ℕ → ℕ → List RefreshSession → Option AuthPrincipal × List RefreshSession
unfolding revoke_active to_principal find_by_hash
revoke_family directory now token_hash sessions = found (find_by_hash token_hash sessions)
  where
    found : Option RefreshSession → Option AuthPrincipal × List RefreshSession
    found none = (none, sessions)
    found (some s) = (some (to_principal directory s s.id), revoke_active now s.family_id sessions)

-- The claims of an access token.
pub record AccessClaims : Type 0 where
  pub claimed_user : ℕ
  pub claimed_organization : ℕ
  pub claimed_membership : ℕ
  pub claimed_device : ℕ
  pub claimed_session : ℕ

-- findPrincipal
unfoldable pub authenticates : Directory → ℕ → AccessClaims → RefreshSession → Bool
authenticates directory now claims s =
    s.id == claims.claimed_session
    && (s.session_organization == claims.claimed_organization
        && (s.session_membership == claims.claimed_membership
            && (s.session_device == claims.claimed_device
                && (is_active s.status
                    && (ltb now s.expires_at
                        && ((directory.device_of s.session_device).device_active
                            && ((directory.membership_of s.session_membership).user.user_key
                                  == claims.claimed_user
                                && ((directory.membership_of s.session_membership).membership_active
                                    && (directory.membership_of
                                        s.session_membership).user.user_active))))))))

unfoldable pub find_principal :
    Directory → ℕ → AccessClaims → List RefreshSession → Option AuthPrincipal
unfolding authenticates to_principal
find_principal directory now claims sessions =
    found (find (authenticates directory now claims) sessions)
  where
    found : Option RefreshSession → Option AuthPrincipal
    found none = none
    found (some s) = some (to_principal directory s s.id)
