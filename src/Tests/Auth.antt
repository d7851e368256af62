-- ===== src/Tests/Auth.antt =====
-- Runs of the sessions and of the limiter, and their theorems at concrete tables.
use swar.Prelude.{◌≡◌, ◌≤◌, refl, true, false, List, [], ◌∷◌, none, ok, err, arith, some}
use swar.Auth.Accounts.{
  User, Membership, Device, Directory, AuthPrincipal, member, security_analyst,
}
use swar.Auth.Sessions.{
  RefreshSession, RefreshSessionStatus, rotate, rotation, reuse, find_by_hash, rotate_out,
  successor, to_principal, revoke_active, AccessClaims, find_principal, revoke_family,
}
use swar.Auth.Families.{alive, rotate_adds_none}
use swar.Auth.Spent.{spent_token_is_caught, Elsewhere}
use swar.Auth.Limiter.{
  refresh_reuse_detected, assert_allowed, LimiterCall, asks, fails, succeeds, limiter_calls,
  window_of, auth_rate_limited, authentication_failed,
}
use swar.Auth.Lockout.{lockout_exact, Before, failures_of}
use swar.Auth.Permissions.{has_permission, intervention_resolve}
use swar.Auth.Histories.{SessionCall, rotates, revokes, session_calls, Draws}
use swar.Auth.Logout.{logout_ends_family}
use swar.Auth.Refreshes.{second_refresh_throws}
use swar.Auth.Service.{refresh, SessionResponse, AuthState, AuthLimits, Call, login, auth_failure}

abbrev a_user : User
a_user = record { user_key = 2; email = "a@b"; user_active = true; password_hash = "h" }

abbrev a_membership : Membership
a_membership = record {
  membership_key = 3;
  membership_active = true;
  user = a_user;
  membership_roles = security_analyst ∷ [];
}

abbrev a_device : Device
a_device = record {
  device_key = 4;
  device_public_id = "d";
  device_organization = 1;
  organization_slug = "o";
  organization_active = true;
  device_active = true;
  membership = a_membership;
}

abbrev directory : Directory
directory = record {
  devices = a_device ∷ [];
  device_of = λ i. a_device;
  membership_of = λ i. a_membership;
}

abbrev a_session : RefreshSession
a_session = record {
  id = 10;
  session_organization = 1;
  session_membership = 3;
  session_device = 4;
  token_hash = 100;
  family_id = 7;
  status = RefreshSessionStatus.active;
  expires_at = 1000;
  rotated_at = none;
  revoked_at = none;
}

abbrev other_session : RefreshSession
other_session = record a_session { id = 11; token_hash = 101; family_id = 8 }

abbrev table : List RefreshSession
table = a_session ∷ other_session ∷ []

abbrev rotated_table : List RefreshSession
rotated_table = rotate_out 50 a_session ∷ other_session ∷ successor 12 102 2000 a_session ∷ []

abbrev new_principal : AuthPrincipal
new_principal = to_principal directory a_session 12

one_rotation :
    rotate directory 50 12 102 2000 100 table ≡ ok (rotation new_principal, rotated_table)
unfolding rotate
one_rotation = refl

analyst_resolves : has_permission (security_analyst ∷ []) intervention_resolve ≡ true
unfolding has_permission
analyst_resolves = refl

member_does_not : has_permission (member ∷ []) intervention_resolve ≡ false
unfolding has_permission
member_does_not = refl

-- The refresh of another session, and a logout with an unknown token.
abbrev calls_between : List SessionCall
calls_between = rotates 55 15 105 2000 101 ∷ revokes 57 999 ∷ []

abbrev calls_following : List SessionCall
calls_following = rotates 62 14 104 2000 102 ∷ []

spent_token_is_caught_example :
    (rotate directory 60 13 103 3000 100 (session_calls directory calls_between rotated_table)
      ≡ ok (
        reuse (to_principal directory a_session 10),
        revoke_active 60 7 (session_calls directory calls_between rotated_table),
      ))
    × (alive 7 (
          session_calls directory
            (rotates 60 13 103 3000 100 ∷ calls_following)
            (session_calls directory calls_between rotated_table))
        ≡ 0)
unfolding find_by_hash Elsewhere
spent_token_is_caught_example =
    spent_token_is_caught directory 50 12 102 2000 100 a_session table rotated_table new_principal
      refl one_rotation calls_between 60 13 103 3000 calls_following (tt, tt)

rotate_adds_none_example : alive 7 rotated_table ≤ alive 7 table
rotate_adds_none_example =
    rotate_adds_none directory 50 12 102 2000 100 table rotated_table (rotation new_principal)
      one_rotation 7

abbrev attempts : List LimiterCall
attempts = fails 20 78 ∷ asks 25 77 ∷ succeeds 78 ∷ fails 30 77 ∷ fails 35 77 ∷ []

lockout_exact_example :
    assert_allowed 3 40 77 (limiter_calls 3 10000 60 (fails 10 77 ∷ attempts) [])
    ≡ err auth_rate_limited
unfolding window_of Before failures_of
lockout_exact_example =
    (lockout_exact 10000 60 3 77 10 attempts [] refl (omega arith)
        (omega arith, (omega arith, (refl, (omega arith, (omega arith, tt))))) 40 (omega arith)).0
      (omega arith)

abbrev auth_limits : AuthLimits
auth_limits = record {
  login_maximum_attempts = 3;
  login_window_seconds = 60;
  refresh_ttl_seconds = 2;
  tracked_identities = 10000;
}

abbrev a_call : Call
a_call = record { now = 50; new_token = 202; new_id = 20; new_family = 9; audited = true }

abbrev empty_state : AuthState
empty_state = record { sessions = []; attempts = [] }

wrong_password :
    (login directory auth_limits
      (λ t. t)
      (λ h p. false)
      a_call
      77
      "a@b"
      "o"
      "d"
      "guess"
      empty_state).0
    ≡ err (auth_failure authentication_failed)
unfolding login
wrong_password = refl

abbrev state : AuthState
state = record { sessions = table; attempts = [] }

abbrev next_session : RefreshSession
next_session = successor 20 202 2050 a_session

abbrev refreshed_state : AuthState
refreshed_state = record {
  sessions = rotate_out 50 a_session ∷ other_session ∷ next_session ∷ [];
  attempts = [];
}

abbrev response : SessionResponse
response = record { principal = to_principal directory a_session 20; refresh_token = 202 }

abbrev a_later_call : Call
a_later_call = record { now = 60; new_token = 203; new_id = 21; new_family = 9; audited = true }

one_refresh :
    refresh directory auth_limits (λ t. t) (λ h p. false) a_call 100 state
    ≡ (ok response, refreshed_state)
unfolding refresh
one_refresh = refl

second_refresh_throws_example :
    ((refresh directory auth_limits (λ t. t) (λ h p. false) a_later_call 100 refreshed_state).0
      ≡ err (auth_failure refresh_reuse_detected))
    × ((c : RefreshSession) × (find_by_hash 100 table ≡ some c)
        × (alive c.family_id
              (refresh directory auth_limits
                (λ t. t)
                (λ h p. false)
                a_later_call
                100
                refreshed_state).1.sessions
            ≡ 0))
second_refresh_throws_example =
    second_refresh_throws directory auth_limits (λ t. t) (λ h p. false) a_call a_later_call 100
      state refreshed_state response one_refresh

abbrev claims : AccessClaims
claims = record {
  claimed_user = 2;
  claimed_organization = 1;
  claimed_membership = 3;
  claimed_device = 4;
  claimed_session = 11;
}

abbrev last_claims : AccessClaims
last_claims = record claims { claimed_session = 10 }

abbrev calls_after : List SessionCall
calls_after = rotates 62 14 104 2000 101 ∷ revokes 65 101 ∷ []

-- The session of the other family is still accepted.
still_accepted :
    find_principal directory 70 claims (revoke_family directory 60 100 table).1
    ≡ some (to_principal directory other_session 11)
unfolding find_principal revoke_family
still_accepted = refl

logout_ends_family_example :
    find_principal directory 70 last_claims
      (session_calls directory calls_after (revoke_family directory 60 100 table).1)
    ≡ none
unfolding find_by_hash Draws
logout_ends_family_example =
    logout_ends_family directory 60 100 a_session table refl last_claims (λ h. refl, (λ h. cc, tt))
      calls_after (refl, (tt, tt)) 70
