-- ===== src/Auth/Spent.antt =====
-- A refresh token that was exchanged, over a history of calls.
use swar.Prelude.{
  ℕ, Bool, false, List, [], ◌∷◌, ◌++◌, ◌≤◌, some, ◌==◌, update_many, ok, ◌≡◌, refl, sym, arith, inl,
  inr, Bool-cases, Option-cases, Result-cases, All, ap, ◌∙◌, find-updated, find-not_updated,
  find-append_found, count_many-append,
}
use swar.Auth.Accounts.{Directory, AuthPrincipal}
use swar.Auth.Sessions.{
  RefreshSession, rotation, reuse, create, find_by_hash, is_active, active_in, revoke,
  revoke_active, expire, rotate_out, rotate, revoke_family, to_principal,
}
use swar.Auth.Families.{
  alive, rotate_adds_none, rotate-spent, revoke_active_ends, revoke_active_lowers,
}
use swar.Auth.Reuse.{rotate-rotated}
use swar.Auth.Histories.{
  SessionCall, creates, rotates, revokes, committed, session_call, session_calls, Kept, Draws,
  create-added, calls-keep,
}

-- The row of the hash is one that the session became that was exchanged.
record Spent (directory : Directory) (hash : ℕ) (c : RefreshSession) (xs : List RefreshSession)
    : Type 0 where
  row : RefreshSession
  found : find_by_hash hash xs ≡ some row
  inactive : is_active row.status ≡ false
  same_principal : to_principal directory row row.id ≡ to_principal directory c c.id
  same_family : row.family_id ≡ c.family_id

module _ (directory : Directory) (hash : ℕ) (c : RefreshSession) where
  updated-Spent :
      (q : RefreshSession → Bool) (f : RefreshSession → RefreshSession)
      → ((x : RefreshSession) → (f x).token_hash ≡ x.token_hash)
      → ((x : RefreshSession) → is_active (f x).status ≡ false)
      → ((x : RefreshSession)
          → to_principal directory (f x) (f x).id ≡ to_principal directory x x.id)
      → ((x : RefreshSession) → (f x).family_id ≡ x.family_id)
      → (xs : List RefreshSession) → Spent directory hash c xs
      → Spent directory hash c (update_many q f xs)
  unfolding find_by_hash
  updated-Spent q f h i p m xs s = elim (Bool-cases (q s.row)) [
    | inl t ↦ record {
      row = f s.row;
      found =
          find-updated (λ x. x.token_hash == hash) q f s.row (λ x. ap (λ y. y == hash) (h x)) t xs
            s.found;
      inactive = i s.row;
      same_principal = p s.row ∙ s.same_principal;
      same_family = m s.row ∙ s.same_family;
    }
    | inr e ↦ record {
      row = s.row;
      found =
          find-not_updated (λ x. x.token_hash == hash) q f s.row (λ x. ap (λ y. y == hash) (h x)) e
            xs s.found;
      inactive = s.inactive;
      same_principal = s.same_principal;
      same_family = s.same_family;
    }
  ]

  appended-Spent :
      (x : RefreshSession) (xs : List RefreshSession)
      → Spent directory hash c xs
      → Spent directory hash c (xs ++ x ∷ [])
  unfolding find_by_hash
  appended-Spent x xs s = record {
    row = s.row;
    found = find-append_found (λ y. y.token_hash == hash) s.row x xs s.found;
    inactive = s.inactive;
    same_principal = s.same_principal;
    same_family = s.same_family;
  }

  Spent-Kept : Kept (Spent directory hash c) (λ i. Unit)
  unfolding revoke_active revoke expire rotate_out to_principal
  Spent-Kept = record {
    revoked = λ now family xs s.
        updated-Spent (active_in family) (revoke now) (λ x. refl) (λ x. refl) (λ x. refl)
          (λ x. refl) xs s;
    expired = λ now q xs s.
        updated-Spent q (expire now) (λ x. refl) (λ x. refl) (λ x. refl) (λ x. refl) xs s;
    rotated = λ now q xs s.
        updated-Spent q (rotate_out now) (λ x. refl) (λ x. refl) (λ x. refl) (λ x. refl) xs s;
    added = λ x xs f s. appended-Spent x xs s;
  }

any_history : (calls : List SessionCall) → All (Draws (λ i. Unit)) calls
unfolding Draws
any_history [] = tt
any_history (creates i identity k family e ∷ calls) = (tt, any_history calls)
any_history (rotates now i k e h ∷ calls) = (tt, any_history calls)
any_history (revokes now h ∷ calls) = (tt, any_history calls)

-- A login opens another family.
unfoldable pub Elsewhere : ℕ → SessionCall → Type 0
Elsewhere family (creates session_id identity token_hash opened expires_at) =
    (opened == family) ≡ false
Elsewhere family (rotates now next_id next_hash expires_at token_hash) = Unit
Elsewhere family (revokes now token_hash) = Unit

module _ (directory : Directory) (family : ℕ) where
  revoke_family_lowers :
      (now h : ℕ) (xs : List RefreshSession)
      → alive family (revoke_family directory now h xs).1 ≤ alive family xs
  unfolding revoke_family alive
  revoke_family_lowers now h xs = elim (Option-cases (find_by_hash h xs)) [
    | inl n ↦ rw n (omega arith)
    | inr x ↦ rw x.1 (revoke_active_lowers now x.0.family_id family xs)
  ]

  call_opens_none :
      (call : SessionCall) (xs : List RefreshSession)
      → Elsewhere family call
      → alive family (session_call directory call xs) ≤ alive family xs
  unfolding session_call committed Elsewhere alive active_in
  call_opens_none (creates i identity k opened e) xs other =
      elim (Result-cases (create directory i identity k opened e xs)) [
        | inr x ↦ rw x.1 (omega arith)
        | inl x ↦
            let (s, id, in_family, q) =
              create-added directory i identity k opened e xs x.0.1 x.0.0 x.1 in
            rw (x.1, sym q, count_many-append (active_in family) xs (s ∷ []), in_family)
              (ground arith)
      ]
  call_opens_none (rotates now i k e h) xs other =
      elim (Result-cases (rotate directory now i k e h xs)) [
        | inr x ↦ rw x.1 (omega arith)
        | inl x ↦ rw x.1 (rotate_adds_none directory now i k e h xs x.0.1 x.0.0 x.1 family)
      ]
  call_opens_none (revokes now h) xs other = revoke_family_lowers now h xs

  calls_open_none :
      (calls : List SessionCall) (xs : List RefreshSession)
      → All (Elsewhere family) calls
      → alive family (session_calls directory calls xs) ≤ alive family xs
  unfolding session_calls
  calls_open_none [] xs h = omega arith
  calls_open_none (c ∷ calls) xs h =
      omega
        (arith, call_opens_none c xs h.0, calls_open_none calls (session_call directory c xs) h.1)

nothing_left :
    (later family : ℕ) (xs : List RefreshSession) → alive family (revoke_active later family xs) ≡ 0
unfolding alive
nothing_left later family xs = revoke_active_ends later family xs

exchanged-Spent :
    (directory : Directory) (now next_id next_hash expires_at hash : ℕ) (c : RefreshSession)
    (sessions after : List RefreshSession) (p : AuthPrincipal)
    → find_by_hash hash sessions ≡ some c
    → rotate directory now next_id next_hash expires_at hash sessions ≡ ok (rotation p, after)
    → Spent directory hash c after
unfolding rotate_out to_principal
exchanged-Spent directory now i k e hash c sessions after p f h = record {
  row = rotate_out now c;
  found = rotate-rotated directory now i k e hash c sessions after p f h;
  inactive = refl;
  same_principal = refl;
  same_family = refl;
}

caught_family :
    (directory : Directory) (later i k e hash : ℕ) (c : RefreshSession)
    (following : List SessionCall) (reached : List RefreshSession)
    → All (Elsewhere c.family_id) following
    → rotate directory later i k e hash reached
      ≡ ok (reuse (to_principal directory c c.id), revoke_active later c.family_id reached)
    → alive c.family_id (session_calls directory (rotates later i k e hash ∷ following) reached) ≡ 0
unfolding session_calls session_call committed
caught_family directory later i k e hash c following reached elsewhere again = rw again (
    omega (
      arith,
      calls_open_none directory c.family_id following (revoke_active later c.family_id reached)
          elsewhere,
      nothing_left later c.family_id reached,
    ))

-- Once a refresh token was exchanged, whoever presents it again, at any time and after whatever
-- calls, is told that it was used before. From then on, whatever calls follow of which no login opens
-- a session in its family anew, no session of its family is active.
pub spent_token_is_caught :
    (directory : Directory) (now next_id next_hash expires_at : ℕ) (hash : ℕ) (c : RefreshSession)
    (sessions after : List RefreshSession) (p : AuthPrincipal)
    → find_by_hash hash sessions ≡ some c
    → rotate directory now next_id next_hash expires_at hash sessions ≡ ok (rotation p, after)
    → (between : List SessionCall) (later other_id other_hash other_expiry : ℕ)
    → (following : List SessionCall) → All (Elsewhere c.family_id) following
    → (rotate directory later other_id other_hash other_expiry hash
          (session_calls directory between after)
        ≡ ok (
          reuse (to_principal directory c c.id),
          revoke_active later c.family_id (session_calls directory between after),
        ))
      × (alive c.family_id (
            session_calls directory
              (rotates later other_id other_hash other_expiry hash ∷ following)
              (session_calls directory between after))
          ≡ 0)
spent_token_is_caught directory now next_id next_hash expires_at hash c sessions after p f h between
      later i k e following elsewhere =
    (again, ended)
  where
    reached : List RefreshSession
    reached = session_calls directory between after

    s : Spent directory hash c reached
    s =
        calls-keep (Spent-Kept directory hash c) directory between after (any_history between)
          (exchanged-Spent directory now next_id next_hash expires_at hash c sessions after p f h)

    again :
        rotate directory later i k e hash reached
        ≡ ok (reuse (to_principal directory c c.id), revoke_active later c.family_id reached)
    again =
        rotate-spent directory later i k e hash s.row reached s.found s.inactive
        ∙ (ap (λ x. ok (reuse x, revoke_active later s.row.family_id reached)) s.same_principal
            ∙ ap (λ x. ok (reuse (to_principal directory c c.id), revoke_active later x reached))
                s.same_family)

    ended :
        alive c.family_id (session_calls directory (rotates later i k e hash ∷ following) reached)
        ≡ 0
    ended = caught_family directory later i k e hash c following reached elsewhere again
