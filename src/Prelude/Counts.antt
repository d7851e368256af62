-- ===== src/Prelude/Counts.antt =====
-- More on how many rows of a table pass a test.
use Prim.Native.Nat.{ℕ, ◌≤◌}
use mathlib.Core.Path.{◌≡◌, refl, sym, ap, subst}
use mathlib.Core.Logic.{inl, inr}
use mathlib.Core.Bool.{Bool, true, false}
use mathlib.Core.List.{List, [], ◌∷◌, ◌++◌, map, append-nil}
use mathlib.Core.Option.{none, some, some-injective}
use native.Mathlib.Omega.{arith}
use swar.Prelude.Tests.{Bool-cases, nat_eq}
use swar.Prelude.Lists.{All, keep, includes, find, any}
use swar.Prelude.Table.{update_many, count_many, find-update_many, count_many_monotone}
use swar.Prelude.Members.{All-map}

module _ {ℓ} {A : Type ℓ} where
  -- If no row passes after the update that did not pass before, no more rows pass.
  pub count_many_unraised :
      (q p : A → Bool) (f : A → A)
      → ((x : A) → p x ≡ true → q (f x) ≡ true → q x ≡ true)
      → (xs : List A) → count_many q (update_many p f xs) ≤ count_many q xs
  unfolding update_many count_many
  count_many_unraised q p f h [] = omega arith
  count_many_unraised q p f h (x ∷ xs) = ground (arith, h x, count_many_unraised q p f h xs)

  -- If every row that passes is updated to one that does not, none is left.
  pub count_many_emptied :
      (q p : A → Bool) (f : A → A)
      → ((x : A) → p x ≡ true → q (f x) ≡ false)
      → (xs : List A) → All (λ x. q x ≡ true → p x ≡ true) xs
      → count_many q (update_many p f xs) ≡ 0
  unfolding update_many count_many
  count_many_emptied q p f h [] k = refl
  count_many_emptied q p f h (x ∷ xs) k =
      ground (arith, h x, k.0, count_many_emptied q p f h xs k.1)

module _ {A : Type 0} (key : A → ℕ) where
  -- The keys of the rows that pass hold the key of each.
  pub keys_of_passing :
      (q : A → Bool) (xs : List A)
      → All (λ x. q x ≡ true → includes (key x) (map key (keep q xs)) ≡ true) xs
  keys_of_passing q [] = tt
  keys_of_passing q (x ∷ xs) = (
    (λ h. rw h (ground arith)),
    All-map
        (λ y k h. elim (Bool-cases (q x)) [
          | inl t ↦ rw t (ground (arith, k h))
          | inr e ↦ rw e (k h)
        ])
        xs (keys_of_passing q xs),
  )

module _ {ℓ} {A : Type ℓ} where
  -- A row that is appended is found where none was.
  pub find-append :
      (h : A → Bool) (x : A) (xs : List A)
      → find h xs ≡ none
      → h x ≡ true
      → find h (xs ++ x ∷ []) ≡ some x
  find-append h x [] e t = rw t refl
  find-append h x (y ∷ xs) e t = elim (Bool-cases (h y)) [
    | inl k ↦ elim (some-not-none (rw k at e)) [ ]
    | inr k ↦ rw k (find-append h x xs (rw k at e) t)
  ]
    where
      some-not-none : some y ≡ none → ⊥
      some-not-none q = cc

  -- An update that keeps what is looked for finds nothing where nothing was.
  pub find-update_none :
      (h p : A → Bool) (f : A → A)
      → ((x : A) → h (f x) ≡ h x)
      → (xs : List A) → find h xs ≡ none
      → find h (update_many p f xs) ≡ none
  unfolding update_many
  find-update_none h p f k [] e = refl
  find-update_none h p f k (x ∷ xs) e = elim (Bool-cases (h x)) [
    | inl t ↦ elim (some-not-none (rw t at e)) [ ]
    | inr n ↦ elim (Bool-cases (p x)) [
      | inl t ↦ rw (t, k x, n) (find-update_none h p f k xs (rw n at e))
      | inr m ↦ rw (m, n) (find-update_none h p f k xs (rw n at e))
    ]
  ]
    where
      some-not-none : some x ≡ none → ⊥
      some-not-none q = cc

  pub find-none_passes : (h : A → Bool) (xs : List A) → any h xs ≡ false → find h xs ≡ none
  find-none_passes h [] e = refl
  find-none_passes h (x ∷ xs) e = ground (arith, find-none_passes h xs)

  -- If it updates what is found, what is found is updated.
  pub find-updated :
      (h p : A → Bool) (f : A → A) (c : A)
      → ((x : A) → h (f x) ≡ h x)
      → p c ≡ true
      → (xs : List A) → find h xs ≡ some c
      → find h (update_many p f xs) ≡ some (f c)
  find-updated h p f c k t xs e =
      rw (sym (append-nil (update_many p f xs))) (find-update_many h p f k c t xs [] e)

  -- and if it does not, what is found stays.
  pub find-not_updated :
      (h p : A → Bool) (f : A → A) (c : A)
      → ((x : A) → h (f x) ≡ h x)
      → p c ≡ false
      → (xs : List A) → find h xs ≡ some c
      → find h (update_many p f xs) ≡ some c
  unfolding update_many
  find-not_updated h p f c k n [] e = e
  find-not_updated h p f c k n (x ∷ xs) e = elim (Bool-cases (h x)) [
    | inl t ↦
        let same = some-injective x c (rw t at e) in
        rw (subst (λ y. p y ≡ false) (sym same) n, t) (ap some same)
    | inr m ↦ elim (Bool-cases (p x)) [
      | inl t ↦ rw (t, k x, m) (find-not_updated h p f c k n xs (rw m at e))
      | inr o ↦ rw (o, m) (find-not_updated h p f c k n xs (rw m at e))
    ]
  ]

  pub find-append_found :
      (h : A → Bool) (c x : A) (xs : List A) → find h xs ≡ some c → find h (xs ++ x ∷ []) ≡ some c
  find-append_found h c x [] e = cc
  find-append_found h c x (y ∷ xs) e = elim (Bool-cases (h y)) [
    | inl t ↦ rw t (rw t at e)
    | inr m ↦ rw m (find-append_found h c x xs (rw m at e))
  ]

  -- Where no row passes, a row that is appended is the only one that does.
  pub keep_only :
      (q : A → Bool) (x : A) (xs : List A)
      → count_many q xs ≡ 0
      → q x ≡ true
      → keep q (xs ++ x ∷ []) ≡ x ∷ []
  unfolding count_many
  keep_only q x [] e t = rw t refl
  keep_only q x (y ∷ xs) e t = elim (Bool-cases (q y)) [
    | inl k ↦ ground (arith, k)
    | inr k ↦ rw k (keep_only q x xs (rw k at e) t)
  ]

  -- What is found passes.
  pub find-passes : (h : A → Bool) (xs : List A) (c : A) → find h xs ≡ some c → h c ≡ true
  find-passes h [] c e = cc
  find-passes h (x ∷ xs) c e = elim (Bool-cases (h x)) [
    | inl t ↦ rw (sym (some-injective x c (rw t at e))) t
    | inr n ↦ find-passes h xs c (rw n at e)
  ]

  -- What is found stays found where it is kept.
  pub find-keep :
      (h p : A → Bool) (xs : List A) (c : A)
      → find h xs ≡ some c
      → p c ≡ true
      → find h (keep p xs) ≡ some c
  find-keep h p [] c e k = e
  find-keep h p (x ∷ xs) c e k = elim (Bool-cases (h x)) [
    | inl t ↦
        rw (subst (λ y. p y ≡ true) (sym (some-injective x c (rw t at e))) k) (rw t (rw t at e))
    | inr n ↦ elim (Bool-cases (p x)) [
      | inl t ↦ rw (t, n) (find-keep h p xs c (rw n at e) k)
      | inr m ↦ rw m (find-keep h p xs c (rw n at e) k)
    ]
  ]

module _ {ℓ} {A : Type ℓ} (k p : A → Bool) (pk : (x : A) → p x ≡ true → k x ≡ true) where
  -- Where at most one row has a key, no row passes a narrower test that the row of this key fails.
  pub count_only_found :
      (xs : List A) (c : A)
      → count_many k xs ≤ 1
      → find k xs ≡ some c
      → p c ≡ false
      → count_many p xs ≡ 0
  unfolding count_many
  count_only_found [] c h e n = refl
  count_only_found (x ∷ xs) c h e n = elim (Bool-cases (k x)) [
    | inl t ↦
        (let fails = subst (λ y. p y ≡ false) (sym (some-injective x c (rw t at e))) n in
          let none_left = count_many_monotone k p pk xs in ground (arith, t, fails, h, none_left))
    | inr m ↦
        (let rest = count_only_found xs c (rw m at h) (rw m at e) n in
          ground (arith, m, pk x, rest))
  ]
