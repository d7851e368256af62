-- ===== src/Auth/Histories.antt =====
-- Calls of backend/src/modules/auth/refresh-session.repository.ts one after the other, and what
-- every one of them keeps.
use swar.Prelude.{
  ℕ, Bool, List, [], ◌∷◌, ◌++◌, leb, ◌==◌, update_many, count_many, Result, ok, err, ◌≡◌, refl,
  Bool-cases, Option-cases, inl, inr, >>=-elim, ◌>>=◌, ok-injective, subst, ap, All, sym, ◌∙◌,
}
use swar.Auth.Accounts.{Directory, Device, AuthPrincipal, LoginIdentity}
use swar.Auth.Sessions.{
  RefreshSession, SessionError, RotationResult, create, find_by_hash, is_active, revoke_active,
  expire, rotate_out, add_session, successor, this_active, take_over, rotate_session, rotate_found,
  rotate, account_valid, revoke_family,
}
use swar.Auth.Reuse.{add_session-append}

-- A call, with its time and the fresh values that it draws.
pub data SessionCall : Type 0 where
  creates : (session_id : ℕ) → LoginIdentity → (token_hash family_id expires_at : ℕ) → SessionCall
  rotates : (now next_id next_hash expires_at token_hash : ℕ) → SessionCall
  revokes : (now token_hash : ℕ) → SessionCall

-- The table after a transaction: one that throws leaves it as it was.
unfoldable pub committed :
    {A : Type 0}
    → Result SessionError (A × List RefreshSession)
    → List RefreshSession
    → List RefreshSession
committed (err e) sessions = sessions
committed (ok (a, after)) sessions = after

unfoldable pub session_call : Directory → SessionCall → List RefreshSession → List RefreshSession
unfolding create rotate revoke_family committed
session_call directory (creates session_id identity token_hash family_id expires_at) sessions =
    committed (create directory session_id identity token_hash family_id expires_at sessions)
      sessions
session_call directory (rotates now next_id next_hash expires_at token_hash) sessions =
    committed (rotate directory now next_id next_hash expires_at token_hash sessions) sessions
session_call directory (revokes now token_hash) sessions =
    (revoke_family directory now token_hash sessions).1

unfoldable pub session_calls :
    Directory → List SessionCall → List RefreshSession → List RefreshSession
unfolding session_call
session_calls directory [] sessions = sessions
session_calls directory (c ∷ calls) sessions =
    session_calls directory calls (session_call directory c sessions)

-- A session that is added and answered with its principal.
abbrev opened :
    (Device → RefreshSession)
    → (Device → AuthPrincipal)
    → List RefreshSession
    → Device
    → Result SessionError (AuthPrincipal × List RefreshSession)
opened f g sessions d = add_session (f d) sessions >>= λ final. ok (g d, final)

opened-added :
    (m : Result SessionError Device) (f : Device → RefreshSession) (g : Device → AuthPrincipal)
    (sessions after : List RefreshSession) (a : AuthPrincipal)
    → (m >>= opened f g sessions) ≡ ok (a, after)
    → (d : Device) × ((sessions ++ f d ∷ []) ≡ after)
opened-added m f g sessions after a h = >>=-elim m (opened f g sessions) h λ d q h'.
    >>=-elim (add_session (f d) sessions) (λ final. ok (g d, final)) h'
      λ final q' h''.
        (d, add_session-append (f d) sessions final q' ∙ ap (λ x. x.1) (ok-injective h''))

-- The session that a creation adds.
pub create-added :
    (directory : Directory) (i : ℕ) (identity : LoginIdentity) (k family e : ℕ)
    (sessions after : List RefreshSession) (a : AuthPrincipal)
    → create directory i identity k family e sessions ≡ ok (a, after)
    → (s : RefreshSession) × (s.id ≡ i) × (s.family_id ≡ family) × ((sessions ++ s ∷ []) ≡ after)
unfolding create
create-added directory i identity k family e sessions after a h =
    let (d, q) = opened-added _ _ _ sessions after a h in (_, refl, refl, q)

-- What the updates of the repository keep, and the addition of a session of the identifier.
pub record Kept (P : List RefreshSession → Type 0) (Fresh : ℕ → Type 0) : Type 0 where
  pub revoked : (now family : ℕ) (xs : List RefreshSession) → P xs → P (revoke_active now family xs)
  pub expired :
      (now : ℕ) (q : RefreshSession → Bool) (xs : List RefreshSession)
      → P xs
      → P (update_many q (expire now) xs)
  pub rotated :
      (now : ℕ) (q : RefreshSession → Bool) (xs : List RefreshSession)
      → P xs
      → P (update_many q (rotate_out now) xs)
  pub added : (s : RefreshSession) (xs : List RefreshSession) → Fresh s.id → P xs → P (xs ++ s ∷ [])

module _ {P : List RefreshSession → Type 0} {Fresh : ℕ → Type 0} (kept : Kept P Fresh)
    (directory : Directory) where
  add_session-keeps :
      (s : RefreshSession) (sessions final : List RefreshSession)
      → add_session s sessions ≡ ok final
      → Fresh s.id
      → P sessions
      → P final
  add_session-keeps s sessions final h f p =
      subst P (add_session-append s sessions final h) (kept.added s sessions f p)

  create-keeps :
      (i : ℕ) (identity : LoginIdentity) (k family e : ℕ) (sessions after : List RefreshSession)
      (a : AuthPrincipal)
      → create directory i identity k family e sessions ≡ ok (a, after)
      → Fresh i
      → P sessions
      → P after
  create-keeps i identity k family e sessions after a h f p =
      let (s, id, in_family, q) = create-added directory i identity k family e sessions after a h in
      subst P q (kept.added s sessions (subst Fresh (sym id) f) p)

  module _ (now next_id next_hash expires_at : ℕ) (fresh : Fresh next_id) where
    take_over-keeps :
        (c : RefreshSession) (sessions after : List RefreshSession) (r : RotationResult)
        → take_over directory now next_id next_hash expires_at c sessions ≡ ok (r, after)
        → P sessions
        → P after
    unfolding take_over successor
    take_over-keeps c sessions after r h p =
        elim (Bool-cases (count_many (this_active c) sessions == 1)) [
          | inl one ↦
              >>=-elim (add_session (successor next_id next_hash expires_at c) updated) _
                (rw one at h)
                λ final q h'. subst P (ap (λ x. x.1) (ok-injective h')) (
                  add_session-keeps _ updated final q fresh
                    (kept.rotated now (this_active c) sessions p))
          | inr e ↦
              subst P (ap (λ x. x.1) (ok-injective (rw e at h)))
                (kept.revoked now c.family_id updated (kept.rotated now (this_active c) sessions p))
        ]
      where
        updated : List RefreshSession
        updated = update_many (this_active c) (rotate_out now) sessions

    rotate_session-keeps :
        (c : RefreshSession) (sessions after : List RefreshSession) (r : RotationResult)
        → rotate_session directory now next_id next_hash expires_at c sessions ≡ ok (r, after)
        → P sessions
        → P after
    unfolding rotate_session
    rotate_session-keeps c sessions after r h p = elim (Bool-cases (is_active c.status)) [
      | inr e ↦
          subst P (ap (λ x. x.1) (ok-injective (rw e at h)))
            (kept.revoked now c.family_id sessions p)
      | inl a ↦ elim (Bool-cases (leb c.expires_at now)) [
        | inl x ↦
            subst P (ap (λ x. x.1) (ok-injective (rw (a, x) at h)))
              (kept.expired now (λ s. s.id == c.id) sessions p)
        | inr x ↦ elim (Bool-cases (account_valid directory c)) [
          | inr v ↦
              subst P (ap (λ x. x.1) (ok-injective (rw (a, x, v) at h)))
                (kept.revoked now c.family_id sessions p)
          | inl v ↦ take_over-keeps c sessions after r (rw (a, x, v) at h) p
        ]
      ]
    ]

    rotate-keeps :
        (hash : ℕ) (sessions after : List RefreshSession) (r : RotationResult)
        → rotate directory now next_id next_hash expires_at hash sessions ≡ ok (r, after)
        → P sessions
        → P after
    unfolding rotate rotate_found
    rotate-keeps hash sessions after r h p = elim (Option-cases (find_by_hash hash sessions)) [
      | inl n ↦ subst P (ap (λ x. x.1) (ok-injective (rw n at h))) p
      | inr x ↦ rotate_session-keeps x.0 sessions after r (rw x.1 at h) p
    ]

-- The identifiers that a call draws.
unfoldable pub Draws : (ℕ → Type 0) → SessionCall → Type 0
Draws Fresh (creates session_id identity token_hash family_id expires_at) = Fresh session_id
Draws Fresh (rotates now next_id next_hash expires_at token_hash) = Fresh next_id
Draws Fresh (revokes now token_hash) = Unit

module _ {P : List RefreshSession → Type 0} {Fresh : ℕ → Type 0} (kept : Kept P Fresh)
    (directory : Directory) where
  committed-keeps :
      {A : Type 0} (m : Result SessionError (A × List RefreshSession))
      (sessions : List RefreshSession)
      → ((a : A) (after : List RefreshSession) → m ≡ ok (a, after) → P after)
      → P sessions
      → P (committed m sessions)
  unfolding committed
  committed-keeps (err e) sessions f p = p
  committed-keeps (ok (a, after)) sessions f p = f a after refl

  revoke_family-keeps :
      (now hash : ℕ) (sessions : List RefreshSession)
      → P sessions
      → P (revoke_family directory now hash sessions).1
  unfolding revoke_family
  revoke_family-keeps now hash sessions p = elim (Option-cases (find_by_hash hash sessions)) [
    | inl n ↦ rw n p
    | inr x ↦ rw x.1 (kept.revoked now x.0.family_id sessions p)
  ]

  call-keeps :
      (c : SessionCall) (sessions : List RefreshSession)
      → Draws Fresh c
      → P sessions
      → P (session_call directory c sessions)
  unfolding session_call Draws
  call-keeps (creates i identity k family e) sessions f p =
      committed-keeps (create directory i identity k family e sessions) sessions
        (λ a after h. create-keeps kept directory i identity k family e sessions after a h f p) p
  call-keeps (rotates now i k e hash) sessions f p =
      committed-keeps (rotate directory now i k e hash sessions) sessions
        (λ r after h. rotate-keeps kept directory now i k e f hash sessions after r h p) p
  call-keeps (revokes now hash) sessions f p = revoke_family-keeps now hash sessions p

  pub calls-keep :
      (calls : List SessionCall) (sessions : List RefreshSession)
      → All (Draws Fresh) calls
      → P sessions
      → P (session_calls directory calls sessions)
  unfolding session_calls
  calls-keep [] sessions f p = p
  calls-keep (c ∷ calls) sessions f p = calls-keep calls _ f.1 (call-keeps c sessions f.0 p)
