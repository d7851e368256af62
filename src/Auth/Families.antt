-- ===== src/Auth/Families.antt =====
-- A login starts a family of sessions, in which each use of the refresh token puts a new session in
-- the place of the last.
use swar.Prelude.{
  ℕ, true, false, List, [], ◌∷◌, ◌+◌, ◌≤◌, some, leb, ◌==◌, any, update_many, count_many, Result,
  ok, ◌≡◌, arith, refl, Bool-cases, inl, inr, >>=-elim, >>-elim, ok-injective, subst,
  count_many_lowered, count_many_taken, count_many-append, count_many_cleared, ap, Option-cases,
}
use swar.Auth.Accounts.{Directory}
use swar.Auth.Sessions.{
  RefreshSession, SessionError, unique_violation, RotationResult, reuse, find_by_hash, active_in,
  is_active, revoke, revoke_active, expire, rotate_out, add_session, successor, this_active,
  take_over, rotate_session, rotate_found, rotate, to_principal, account_valid,
}

-- The sessions of a family that are active.
unfoldable pub alive : ℕ → List RefreshSession → ℕ
alive family sessions = count_many (active_in family) sessions

pub revoke_active_lowers :
    (now family other : ℕ) (sessions : List RefreshSession)
    → count_many (active_in other) (revoke_active now family sessions)
      ≤ count_many (active_in other) sessions
unfolding revoke_active revoke active_in
revoke_active_lowers now family other sessions =
    count_many_lowered (active_in other) (active_in family) (revoke now) (λ x h. ground arith)
      sessions

pub revoke_active_ends :
    (now family : ℕ) (sessions : List RefreshSession)
    → count_many (active_in family) (revoke_active now family sessions) ≡ 0
unfolding revoke_active revoke active_in
revoke_active_ends now family sessions =
    count_many_cleared (active_in family) (revoke now) (λ x h. ground arith) sessions

expire_lowers :
    (now id other : ℕ) (sessions : List RefreshSession)
    → count_many (active_in other) (update_many (λ s. s.id == id) (expire now) sessions)
      ≤ count_many (active_in other) sessions
unfolding expire active_in
expire_lowers now id other sessions =
    count_many_lowered (active_in other) (λ s. s.id == id) (expire now) (λ x h. ground arith)
      sessions

rotate_out_lowers :
    (now other : ℕ) (c : RefreshSession) (sessions : List RefreshSession)
    → count_many (active_in other) (update_many (this_active c) (rotate_out now) sessions)
      ≤ count_many (active_in other) sessions
unfolding rotate_out active_in
rotate_out_lowers now other c sessions =
    count_many_lowered (active_in other) (this_active c) (rotate_out now) (λ x h. ground arith)
      sessions

-- What a table gains when a session is added.
add_session-count :
    (other : ℕ) (s : RefreshSession) (sessions final : List RefreshSession)
    → add_session s sessions ≡ ok final
    → count_many (active_in other) final
      ≡ count_many (active_in other) sessions + count_many (active_in other) (s ∷ [])
unfolding add_session
add_session-count other s sessions final h =
    >>-elim (any (λ r. r.token_hash == s.token_hash) sessions) unique_violation _ h λ a h'.
      >>-elim (any (λ r. r.id == s.id) sessions) unique_violation _ h' λ b h''.
        subst
          (λ t.
            count_many (active_in other) t
            ≡ count_many (active_in other) sessions + count_many (active_in other) (s ∷ []))
          (ok-injective h'') (count_many-append (active_in other) sessions (s ∷ []))

module _ (directory : Directory) (now next_id next_hash expires_at : ℕ) where
  -- The new session counts for the one that it replaces.
  exchange :
      (hash other : ℕ) (c : RefreshSession) (sessions : List RefreshSession)
      → find_by_hash hash sessions ≡ some c
      → is_active c.status ≡ true
      → count_many (this_active c) sessions ≡ 1
      → count_many (active_in other) (update_many (this_active c) (rotate_out now) sessions)
          + count_many (active_in other) (successor next_id next_hash expires_at c ∷ [])
        ≤ count_many (active_in other) sessions
  unfolding find_by_hash active_in successor this_active rotate_out count_many
  exchange hash other c sessions f t one = elim (Bool-cases (c.family_id == other)) [
    | inl b ↦ ground (
      arith,
      count_many_taken (λ s. s.token_hash == hash) (active_in other) (this_active c)
          (rotate_out now) c (ground arith) (ground arith) (ground arith) sessions f one,
    )
    | inr b ↦ ground (arith, rotate_out_lowers now other c sessions)
  ]

  take_over_lowers :
      (hash other : ℕ) (c : RefreshSession) (sessions : List RefreshSession) (r : RotationResult)
      (after : List RefreshSession)
      → find_by_hash hash sessions ≡ some c
      → is_active c.status ≡ true
      → take_over directory now next_id next_hash expires_at c sessions ≡ ok (r, after)
      → count_many (active_in other) after ≤ count_many (active_in other) sessions
  unfolding take_over
  take_over_lowers hash other c sessions r after f t h =
      elim (Bool-cases (count_many (this_active c) sessions == 1)) [
        | inl one ↦
            >>=-elim (add_session (successor next_id next_hash expires_at c) updated) _
              (rw one at h)
              λ final q h'.
                subst (λ t. count_many (active_in other) t ≤ count_many (active_in other) sessions)
                  (ap (λ x. x.1) (ok-injective h'))
                  (rw
                    (add_session-count other (successor next_id next_hash expires_at c) updated
                      final q)
                    (exchange hash other c sessions f t (ground arith)))
        | inr e ↦
            subst (λ t. count_many (active_in other) t ≤ count_many (active_in other) sessions)
              (ap (λ x. x.1) (ok-injective (rw e at h)))
              (omega (
                arith,
                revoke_active_lowers now c.family_id other updated,
                rotate_out_lowers now other c sessions,
              ))
      ]
    where
      updated : List RefreshSession
      updated = update_many (this_active c) (rotate_out now) sessions

  rotate_session_lowers :
      (hash other : ℕ) (c : RefreshSession) (sessions : List RefreshSession) (r : RotationResult)
      (after : List RefreshSession)
      → find_by_hash hash sessions ≡ some c
      → rotate_session directory now next_id next_hash expires_at c sessions ≡ ok (r, after)
      → count_many (active_in other) after ≤ count_many (active_in other) sessions
  unfolding rotate_session
  rotate_session_lowers hash other c sessions r after f h = elim (Bool-cases (is_active c.status)) [
    | inr e ↦ moved (rw e at h) (revoke_active_lowers now c.family_id other sessions)
    | inl a ↦ elim (Bool-cases (leb c.expires_at now)) [
      | inl x ↦ moved (rw (a, x) at h) (expire_lowers now c.id other sessions)
      | inr x ↦ elim (Bool-cases (account_valid directory c)) [
        | inr v ↦ moved (rw (a, x, v) at h) (revoke_active_lowers now c.family_id other sessions)
        | inl v ↦ take_over_lowers hash other c sessions r after f a (rw (a, x, v) at h)
      ]
    ]
  ]
    where
      moved :
          {r' : RotationResult} {after' : List RefreshSession}
          → ◌≡◌ {A = Result SessionError (RotationResult × List RefreshSession)}
              (ok (r', after'))
              (ok (r, after))
          → count_many (active_in other) after' ≤ count_many (active_in other) sessions
          → count_many (active_in other) after ≤ count_many (active_in other) sessions
      moved e l =
          subst (λ t. count_many (active_in other) t ≤ count_many (active_in other) sessions)
            (ap (λ x. x.1) (ok-injective e)) l

  -- Whatever a rotation does, it leaves no family with more active sessions than it had: a family
  -- that began with one session never has two.
  pub rotate_adds_none :
      (hash : ℕ) (sessions after : List RefreshSession) (r : RotationResult)
      → rotate directory now next_id next_hash expires_at hash sessions ≡ ok (r, after)
      → (family : ℕ) → alive family after ≤ alive family sessions
  unfolding rotate rotate_found alive
  rotate_adds_none hash sessions after r h family =
      elim (Option-cases (find_by_hash hash sessions)) [
        | inl n ↦
            subst (λ t. count_many (active_in family) t ≤ count_many (active_in family) sessions)
              (ap (λ x. x.1) (ok-injective (rw n at h))) (omega arith)
        | inr x ↦ rotate_session_lowers hash family x.0 sessions r after x.1 (rw x.1 at h)
      ]

  -- The answer to a token that is known, and already spent.
  pub rotate-spent :
      (hash : ℕ) (c : RefreshSession) (sessions : List RefreshSession)
      → find_by_hash hash sessions ≡ some c
      → is_active c.status ≡ false
      → rotate directory now next_id next_hash expires_at hash sessions
        ≡ ok (reuse (to_principal directory c c.id), revoke_active now c.family_id sessions)
  unfolding rotate rotate_found rotate_session
  rotate-spent hash c sessions f e = rw (f, e) refl
