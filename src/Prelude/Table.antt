-- ===== src/Prelude/Table.antt =====
-- A table of the database is the list of its rows. A query acts on the rows that its `where` names.
use Prim.Native.Nat.{ℕ, suc, ◌+◌, ◌≤◌}
use mathlib.Core.Path.{◌≡◌, refl}
use mathlib.Core.Logic.{◌⊎◌, inl, inr}
use mathlib.Core.Bool.{Bool, true, false}
use mathlib.Core.List.{List, [], ◌∷◌, ◌++◌}
use mathlib.Core.Option.{some, some-injective}
use native.Mathlib.Omega.{arith}
use swar.Prelude.Tests.{if◌then◌else◌, Bool-cases}
use swar.Prelude.Lists.{All, find}

module _ {ℓ} {A : Type ℓ} where
  -- `updateMany({ where, data })`: the rows after it,
  unfoldable pub update_many : (A → Bool) → (A → A) → List A → List A
  update_many p f [] = []
  update_many p f (x ∷ xs) = (if p x then f x else x) ∷ update_many p f xs

  -- and the `count` that it returns.
  unfoldable pub count_many : (A → Bool) → List A → ℕ
  count_many p [] = 0
  count_many p (x ∷ xs) = if p x then suc (count_many p xs) else count_many p xs

  -- An update that matches no row changes nothing.
  pub update_many_none :
      (p : A → Bool) (f : A → A) (xs : List A) → count_many p xs ≡ 0 → update_many p f xs ≡ xs
  unfolding update_many count_many
  update_many_none p f [] h = refl
  update_many_none p f (x ∷ xs) h = ground (arith, update_many_none p f xs)

  -- If it turns rows that fail a test into rows that pass it, the rows that pass grow by its count.
  pub count_many-update_many :
      (q p : A → Bool) (f : A → A)
      → ((x : A) → p x ≡ true → (q x ≡ false) × (q (f x) ≡ true))
      → (xs : List A) → count_many q (update_many p f xs) ≡ count_many q xs + count_many p xs
  unfolding update_many count_many
  count_many-update_many q p f h [] = omega arith
  count_many-update_many q p f h (x ∷ xs) = ground (arith, h x, count_many-update_many q p f h xs)

  -- If it does not touch what a test reads, as many rows pass.
  pub count_many_same :
      (q p : A → Bool) (f : A → A)
      → ((x : A) → p x ≡ true → q (f x) ≡ q x)
      → (xs : List A) → count_many q (update_many p f xs) ≡ count_many q xs
  unfolding update_many count_many
  count_many_same q p f h [] = refl
  count_many_same q p f h (x ∷ xs) = ground (arith, h x, count_many_same q p f h xs)

  pub All-update_many {κ} :
      (P : A → Type κ) (p : A → Bool) (f : A → A)
      → ((x : A) → p x ≡ true → P x → P (f x))
      → (xs : List A) → All P xs
      → All P (update_many p f xs)
  unfolding update_many
  All-update_many P p f h [] k = tt
  All-update_many P p f h (x ∷ xs) k = (head (Bool-cases (p x)), All-update_many P p f h xs k.1)
    where
      head : (p x ≡ true) ⊎ (p x ≡ false) → P (if p x then f x else x)
      head (inl t) = rw t (h x t k.0)
      head (inr e) = rw e k.0

  pub count_many_monotone :
      (k p : A → Bool)
      → ((x : A) → p x ≡ true → k x ≡ true)
      → (xs : List A) → count_many p xs ≤ count_many k xs
  unfolding count_many
  count_many_monotone k p h [] = omega arith
  count_many_monotone k p h (x ∷ xs) = ground (arith, h x, count_many_monotone k p h xs)

  -- If the updated rows are all that pass, or could, none passes afterwards: no two rows share a
  -- key, and one row of the key is updated to a row that does not pass.
  pub count_many_keyless :
      (k q p : A → Bool) (f : A → A)
      → ((x : A) → q x ≡ true → k x ≡ true)
      → ((x : A) → p x ≡ true → k x ≡ true)
      → (xs : List A) → count_many k xs ≡ 0
      → count_many q (update_many p f xs) ≡ 0
  unfolding update_many count_many
  count_many_keyless k q p f kq kp [] h = refl
  count_many_keyless k q p f kq kp (x ∷ xs) h =
      ground (arith, kq x, kp x, count_many_keyless k q p f kq kp xs)

  pub count_many_replaced :
      (k q p : A → Bool) (f : A → A)
      → ((x : A) → q x ≡ true → k x ≡ true)
      → ((x : A) → p x ≡ true → k x ≡ true)
      → ((x : A) → p x ≡ true → q (f x) ≡ false)
      → (xs : List A) → count_many k xs ≤ 1
      → count_many p xs ≡ 1
      → count_many q (update_many p f xs) ≡ 0
  unfolding update_many count_many
  count_many_replaced k q p f kq kp pf [] u h = refl
  count_many_replaced k q p f kq kp pf (x ∷ xs) u h = ground (
    arith,
    kq x,
    kp x,
    pf x,
    count_many_keyless k q p f kq kp xs,
    count_many_monotone k p kp xs,
    count_many_replaced k q p f kq kp pf xs,
  )

  -- If each updated row passes, and no other did, as many pass as were updated.
  pub count_many_passing :
      (k q p : A → Bool) (f : A → A)
      → ((x : A) → q x ≡ true → k x ≡ true)
      → ((x : A) → p x ≡ true → k x ≡ true)
      → ((x : A) → p x ≡ true → q (f x) ≡ true)
      → (xs : List A) → count_many k xs ≤ 1
      → count_many p xs ≡ 1
      → count_many q (update_many p f xs) ≡ 1
  unfolding update_many count_many
  count_many_passing k q p f kq kp pf [] u h = ground arith
  count_many_passing k q p f kq kp pf (x ∷ xs) u h = ground (
    arith,
    kq x,
    kp x,
    pf x,
    count_many_keyless k q p f kq kp xs,
    count_many_monotone k p kp xs,
    count_many_passing k q p f kq kp pf xs,
  )

  -- An update after which its own rows no longer match leaves no match.
  pub count_many_cleared :
      (p : A → Bool) (f : A → A)
      → ((x : A) → p x ≡ true → p (f x) ≡ false)
      → (xs : List A) → count_many p (update_many p f xs) ≡ 0
  unfolding update_many count_many
  count_many_cleared p f h [] = refl
  count_many_cleared p f h (x ∷ xs) = ground (arith, h x, count_many_cleared p f h xs)

  -- An update whose rows no longer pass lets no more rows pass than before,
  pub count_many_lowered :
      (q p : A → Bool) (f : A → A)
      → ((x : A) → p x ≡ true → q (f x) ≡ false)
      → (xs : List A) → count_many q (update_many p f xs) ≤ count_many q xs
  unfolding update_many count_many
  count_many_lowered q p f h [] = omega arith
  count_many_lowered q p f h (x ∷ xs) = ground (arith, h x, count_many_lowered q p f h xs)

  -- What `find` finds is a row that counts.
  pub count_many-find :
      (h p : A → Bool) (c : A)
      → p c ≡ true
      → (xs : List A) → find h xs ≡ some c
      → 1 ≤ count_many p xs
  unfolding count_many
  count_many-find h p c t [] e = cc
  count_many-find h p c t (x ∷ xs) e = elim (Bool-cases (h x)) [
    | inl b ↦ rw (some-injective x c (rw b at e), t) (omega arith)
    | inr b ↦ ground (arith, count_many-find h p c t xs (rw b at e))
  ]

  -- and fewer, if the only updated row is one that passed.
  pub count_many_taken :
      (h q p : A → Bool) (f : A → A) (c : A)
      → p c ≡ true
      → q c ≡ true
      → q (f c) ≡ false
      → (xs : List A) → find h xs ≡ some c
      → count_many p xs ≡ 1
      → count_many q (update_many p f xs) + 1 ≡ count_many q xs
  unfolding update_many count_many
  count_many_taken h q p f c pc qc qf [] e k = cc
  count_many_taken h q p f c pc qc qf (x ∷ xs) e k = elim (Bool-cases (h x)) [
    | inl b ↦
        (let same = some-injective x c (rw b at e) in
          rw (same, pc, qc, qf)
            (rw (update_many_none p f xs (rest_none (rw (same, pc) at k))) (omega arith)))
    | inr b ↦ elim (Bool-cases (p x)) [
      | inl t ↦ ground (arith, count_many-find h p c pc xs (rw b at e))
      | inr n ↦ ground (arith, count_many_taken h q p f c pc qc qf xs (rw b at e) (rw n at k))
    ]
  ]
    where
      rest_none : suc (count_many p xs) ≡ 1 → count_many p xs ≡ 0
      rest_none n = omega arith

  pub count_many-append :
      (p : A → Bool) (xs ys : List A) → count_many p (xs ++ ys) ≡ count_many p xs + count_many p ys
  unfolding count_many
  count_many-append p [] ys = omega arith
  count_many-append p (x ∷ xs) ys = ground (arith, count_many-append p xs ys)

  -- An update that keeps what is looked for finds the updated row.
  pub find-update_many :
      (h p : A → Bool) (f : A → A)
      → ((x : A) → h (f x) ≡ h x)
      → (c : A) → p c ≡ true
      → (xs ys : List A) → find h xs ≡ some c
      → find h (update_many p f xs ++ ys) ≡ some (f c)
  unfolding update_many
  find-update_many h p f k c pc [] ys e = cc
  find-update_many h p f k c pc (x ∷ xs) ys e = elim (Bool-cases (h x)) [
    | inl b ↦
        rw (some-injective x c (rw b at e), pc, k c, rw (some-injective x c (rw b at e)) at b) refl
    | inr b ↦ elim (Bool-cases (p x)) [
      | inl t ↦ rw (t, k x, b) (find-update_many h p f k c pc xs ys (rw b at e))
      | inr n ↦ rw (n, b) (find-update_many h p f k c pc xs ys (rw b at e))
    ]
  ]
