-- ===== src/Auth/Reuse.antt =====
-- A refresh token that is presented a second time.
use swar.Prelude.{
  ℕ, true, List, [], ◌∷◌, ◌++◌, some, leb, ◌==◌, any, update_many, count_many, ok, ◌≡◌, arith, refl,
  Bool-cases, inl, inr, >>=-elim, >>-elim, ok-injective, subst, find-update_many, ap, ◌∙◌,
}
use swar.Auth.Accounts.{Directory, AuthPrincipal}
use swar.Auth.Sessions.{
  RefreshSession, unique_violation, rotation, reuse, invalid, past_expiry, find_by_hash, is_active,
  revoke_active, rotate_out, add_session, successor, this_active, take_over, rotate_session,
  rotate_found, rotate, to_principal, account_valid,
}
use swar.Auth.Families.{alive, rotate-spent, revoke_active_ends}

rotation-not-reuse : (q p : AuthPrincipal) → reuse q ≡ rotation p → ⊥
rotation-not-reuse q p h = cc

rotation-not-past : (p : AuthPrincipal) → past_expiry ≡ rotation p → ⊥
rotation-not-past p h = cc

pub rotation-not-invalid : (p : AuthPrincipal) → invalid ≡ rotation p → ⊥
rotation-not-invalid p h = cc

pub add_session-append :
    (s : RefreshSession) (sessions final : List RefreshSession)
    → add_session s sessions ≡ ok final
    → (sessions ++ s ∷ []) ≡ final
unfolding add_session
add_session-append s sessions final h =
    >>-elim (any (λ r. r.token_hash == s.token_hash) sessions) unique_violation _ h λ a h'.
      >>-elim (any (λ r. r.id == s.id) sessions) unique_violation _ h' λ b h''. ok-injective h''

module _ (directory : Directory) (now next_id next_hash expires_at : ℕ) where
  take_over-rotated :
      (hash : ℕ) (c : RefreshSession) (sessions after : List RefreshSession) (p : AuthPrincipal)
      → find_by_hash hash sessions ≡ some c
      → is_active c.status ≡ true
      → take_over directory now next_id next_hash expires_at c sessions ≡ ok (rotation p, after)
      → find_by_hash hash after ≡ some (rotate_out now c)
  unfolding take_over find_by_hash rotate_out this_active
  take_over-rotated hash c sessions after p f t h =
      elim (Bool-cases (count_many (this_active c) sessions == 1)) [
        | inl one ↦
            >>=-elim (add_session (successor next_id next_hash expires_at c) updated) _
              (rw one at h)
              λ final q h'.
                subst (λ t. find_by_hash hash t ≡ some (rotate_out now c))
                  (add_session-append (successor next_id next_hash expires_at c) updated final q
                    ∙ ap (λ x. x.1) (ok-injective h'))
                  (find-update_many (λ s. s.token_hash == hash) (this_active c) (rotate_out now)
                    (λ x. refl) c (ground arith) sessions
                    (successor next_id next_hash expires_at c ∷ []) f)
        | inr e ↦ elim (rotation-not-reuse _ p (ap (λ x. x.0) (ok-injective (rw e at h)))) [ ]
      ]
    where
      updated : List RefreshSession
      updated = update_many (this_active c) (rotate_out now) sessions

  pub rotate-rotated :
      (hash : ℕ) (c : RefreshSession) (sessions after : List RefreshSession) (p : AuthPrincipal)
      → find_by_hash hash sessions ≡ some c
      → rotate directory now next_id next_hash expires_at hash sessions ≡ ok (rotation p, after)
      → find_by_hash hash after ≡ some (rotate_out now c)
  unfolding rotate rotate_found rotate_session
  rotate-rotated hash c sessions after p f h = elim (Bool-cases (is_active c.status)) [
    | inr e ↦ elim (rotation-not-reuse _ p (ap (λ x. x.0) (ok-injective (rw (f, e) at h)))) [ ]
    | inl a ↦ elim (Bool-cases (leb c.expires_at now)) [
      | inl x ↦ elim (rotation-not-past p (ap (λ x. x.0) (ok-injective (rw (f, a, x) at h)))) [ ]
      | inr x ↦ elim (Bool-cases (account_valid directory c)) [
        | inr v ↦
            elim (rotation-not-invalid p (ap (λ x. x.0) (ok-injective (rw (f, a, x, v) at h)))) [ ]
        | inl v ↦ take_over-rotated hash c sessions after p f a (rw (f, a, x, v) at h)
      ]
    ]
  ]

-- A refresh token that is presented again right after it was exchanged: this is told, and no session
-- of its family is active then.
pub second_use_is_caught :
    (directory : Directory) (now next_id next_hash expires_at : ℕ) (hash : ℕ) (c : RefreshSession)
    (sessions after : List RefreshSession) (p : AuthPrincipal)
    → find_by_hash hash sessions ≡ some c
    → rotate directory now next_id next_hash expires_at hash sessions ≡ ok (rotation p, after)
    → (later other_id other_hash other_expiry : ℕ)
    → (rotate directory later other_id other_hash other_expiry hash after
        ≡ ok (reuse (to_principal directory c c.id), revoke_active later c.family_id after))
      × (alive c.family_id (revoke_active later c.family_id after) ≡ 0)
unfolding alive rotate_out to_principal
second_use_is_caught directory now next_id next_hash expires_at hash c sessions after p f h later i
      k e =
    (
      rotate-spent directory later i k e hash (rotate_out now c) after
          (rotate-rotated directory now next_id next_hash expires_at hash c sessions after p f h)
          refl,
      revoke_active_ends later c.family_id after,
    )
