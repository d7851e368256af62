-- ===== src/Auth/Limiter.antt =====
-- backend/src/modules/auth/login-attempt-limiter.ts. The map is an association list, newest entry
-- first, whose keys are the digests of the identities: the digest is not the repository's code, and
-- identities come in as keys.
use swar.Prelude.{
  ℕ, List, [], ◌∷◌, ◌&&◌, ◌+◌, ◌*◌, not, Option, none, some, leb, ltb, ◌==◌, if◌then◌else◌, find,
  keep, Result, ok, err, length,
}

pub data AuthError : Type 0 where
  auth_rate_limited authentication_failed refresh_reuse_detected token_invalid forbidden : AuthError

-- AttemptWindow, with its key.
pub record AttemptWindow : Type 0 where
  pub key : ℕ
  pub count : ℕ
  pub reset_at : ℕ

unfoldable pub window_of : ℕ → List AttemptWindow → Option AttemptWindow
window_of k windows = find (λ w. w.key == k) windows

unfoldable pub forget : ℕ → List AttemptWindow → List AttemptWindow
forget k windows = keep (λ w. not (w.key == k)) windows

unfoldable pub store : AttemptWindow → List AttemptWindow → List AttemptWindow
unfolding forget
store w windows = w ∷ forget w.key windows

-- assertAllowed
unfoldable pub assert_allowed :
    ℕ → ℕ → ℕ → List AttemptWindow → Result AuthError (List AttemptWindow)
unfolding window_of forget
assert_allowed maximum now k windows = of (window_of k windows)
  where
    of : Option AttemptWindow → Result AuthError (List AttemptWindow)
    of none = ok windows
    of (some w) =
        if ltb now w.reset_at && leb maximum w.count
        then err auth_rate_limited
        else ok (if leb w.reset_at now then forget k windows else windows)

unfoldable pub next_window : ℕ → ℕ → ℕ → Option AttemptWindow → AttemptWindow
next_window window_seconds now k none = record {
  key = k;
  count = 1;
  reset_at = now + window_seconds * 1000;
}
next_window window_seconds now k (some w) =
    if leb w.reset_at now
    then record { key = k; count = 1; reset_at = now + window_seconds * 1000 }
    else record w { count = w.count + 1 }

-- failed; `bound` is the size above which windows that are over are dropped.
unfoldable pub failed : ℕ → ℕ → ℕ → ℕ → List AttemptWindow → List AttemptWindow
unfolding window_of next_window store
failed bound window_seconds now k windows =
    let after = store (next_window window_seconds now k (window_of k windows)) windows in
    if ltb bound (length after) then keep (λ w. not (leb w.reset_at now)) after else after

-- succeeded
unfoldable pub succeeded : ℕ → List AttemptWindow → List AttemptWindow
unfolding forget
succeeded k windows = forget k windows

-- A call of the limiter with its time and its identity.
pub data LimiterCall : Type 0 where
  asks fails : ℕ → ℕ → LimiterCall
  succeeds : ℕ → LimiterCall

-- The map after a call: one that throws leaves it as it is.
unfoldable pub limiter_call : ℕ → ℕ → ℕ → LimiterCall → List AttemptWindow → List AttemptWindow
unfolding assert_allowed failed succeeded
limiter_call maximum bound window_seconds (asks now i) windows =
    kept (assert_allowed maximum now i windows)
  where
    kept : Result AuthError (List AttemptWindow) → List AttemptWindow
    kept (err e) = windows
    kept (ok after) = after
limiter_call maximum bound window_seconds (fails now i) windows =
    failed bound window_seconds now i windows
limiter_call maximum bound window_seconds (succeeds i) windows = succeeded i windows

unfoldable pub limiter_calls :
    ℕ → ℕ → ℕ → List LimiterCall → List AttemptWindow → List AttemptWindow
unfolding limiter_call
limiter_calls maximum bound window_seconds [] windows = windows
limiter_calls maximum bound window_seconds (c ∷ calls) windows =
    limiter_calls maximum bound window_seconds calls
      (limiter_call maximum bound window_seconds c windows)
