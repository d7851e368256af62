-- ===== src/Auth/Logout.antt =====
-- What a logout takes away.
use swar.Prelude.{
  ℕ, true, false, List, [], ◌∷◌, ◌++◌, some, none, ◌==◌, find, update_many, ◌≡◌, refl, arith, inl,
  inr, Bool-cases, All, All-update_many,
}
use swar.Auth.Accounts.{Directory}
use swar.Auth.Sessions.{
  RefreshSession, AccessClaims, find_by_hash, find_principal, authenticates, revoke_family, revoke,
  revoke_active, expire, rotate_out, active_in, is_active,
}
use swar.Auth.Histories.{SessionCall, session_calls, Kept, Draws, calls-keep}

-- A row of the identifier is not active.
abbrev Closed : ℕ → RefreshSession → Type 0
Closed id s = (s.id == id) ≡ true → is_active s.status ≡ false

abbrev Differs : ℕ → ℕ → Type 0
Differs id i = (i == id) ≡ false

append-Closed :
    (id : ℕ) (s : RefreshSession) (xs : List RefreshSession)
    → (s.id == id) ≡ false
    → All (Closed id) xs
    → All (Closed id) (xs ++ s ∷ [])
append-Closed id s [] other k = (λ h. ground (arith, other), tt)
append-Closed id s (x ∷ xs) other k = (k.0, append-Closed id s xs other k.1)

Closed-Kept : (id : ℕ) → Kept (All (Closed id)) (Differs id)
unfolding revoke_active revoke expire rotate_out
Closed-Kept id = record {
  revoked = λ now family xs p.
      All-update_many (Closed id) (active_in family) (revoke now) (λ x h k i. refl) xs p;
  expired = λ now q xs p. All-update_many (Closed id) q (expire now) (λ x h k i. refl) xs p;
  rotated = λ now q xs p. All-update_many (Closed id) q (rotate_out now) (λ x h k i. refl) xs p;
  added = λ s xs f p. append-Closed id s xs f p;
}

family-Closed :
    (now id family : ℕ) (xs : List RefreshSession)
    → All (λ s. (s.id == id) ≡ true → (s.family_id == family) ≡ true) xs
    → All (Closed id) (revoke_active now family xs)
unfolding revoke_active revoke active_in update_many
family-Closed now id family [] h = tt
family-Closed now id family (x ∷ xs) h = elim (Bool-cases (active_in family x)) [
  | inl t ↦ rw t (λ i. refl, family-Closed now id family xs h.1)
  | inr e ↦ rw e (λ i. ground (arith, h.0 i, e), family-Closed now id family xs h.1)
]

Closed-principal :
    (directory : Directory) (now : ℕ) (claims : AccessClaims) (xs : List RefreshSession)
    → All (Closed claims.claimed_session) xs
    → find (authenticates directory now claims) xs ≡ none
unfolding authenticates
Closed-principal directory now claims [] h = refl
Closed-principal directory now claims (x ∷ xs) h =
    elim (Bool-cases (authenticates directory now claims x)) [
      | inr e ↦ rw e (Closed-principal directory now claims xs h.1)
      | inl t ↦ absurd (not_closed (ground arith) (ground arith))
    ]
  where
    not_closed : (x.id == claims.claimed_session) ≡ true → is_active x.status ≡ true → ⊥
    not_closed i a = ground (arith, h.0 i, a)

-- After a logout with a known refresh token, no access token for a session of this token's family is
-- accepted any more, at whatever time and whatever calls follow: no call draws the identifier of this
-- session anew, and all rows that have it are of the family.
pub logout_ends_family :
    (directory : Directory) (now hash : ℕ) (c : RefreshSession) (sessions : List RefreshSession)
    → find_by_hash hash sessions ≡ some c
    → (claims : AccessClaims)
    → All
        (λ s. (s.id == claims.claimed_session) ≡ true → (s.family_id == c.family_id) ≡ true)
        sessions
    → (calls : List SessionCall) → All (Draws (λ i. (i == claims.claimed_session) ≡ false)) calls
    → (later : ℕ)
    → find_principal directory later claims
        (session_calls directory calls (revoke_family directory now hash sessions).1)
      ≡ none
unfolding find_principal revoke_family
logout_ends_family directory now hash c sessions f claims same calls drawn later =
    rw
      (Closed-principal directory later claims _ (
        calls-keep (Closed-Kept claims.claimed_session) directory calls
          (revoke_family directory now hash sessions).1 drawn
          (rw f (family-Closed now claims.claimed_session c.family_id sessions same))))
      refl
