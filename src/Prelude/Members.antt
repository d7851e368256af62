-- ===== src/Prelude/Members.antt =====
-- Predicates on the members of a list, along with sorting.
use mathlib.Core.Path.{◌≡◌}
use mathlib.Core.Logic.{◌⊎◌, inl, inr}
use mathlib.Core.Bool.{Bool, true, false}
use Prim.Native.Nat.{ℕ, zero, suc}
use swar.Prelude.Tests.{Bool-cases}
use mathlib.Core.List.{List, [], ◌∷◌, ◌++◌, reverse, reverse-cons}
use native.Mathlib.Omega.{arith}
use swar.Prelude.Lists.{All, keep, take}
use swar.Prelude.Sort.{insert, sort}

module _ {ℓ} {A : Type ℓ} where
  abbrev pub Any : (A → Type 0) → List A → Type 0
  Any P [] = ⊥
  Any P (x ∷ xs) = P x ⊎ Any P xs

  pub Any-insert :
      (P : A → Type 0) (less : A → A → Bool) (a : A) (xs : List A)
      → P a ⊎ Any P xs
      → Any P (insert less a xs)
  unfolding insert
  Any-insert P less a [] h = h
  Any-insert P less a (x ∷ xs) h = ground (arith, Any-insert P less a xs)

  pub Any-sort :
      (P : A → Type 0) (less : A → A → Bool) (xs : List A) → Any P xs → Any P (sort less xs)
  unfolding sort
  Any-sort P less [] h = h
  Any-sort P less (x ∷ xs) (inl p) = Any-insert P less x (sort less xs) (inl p)
  Any-sort P less (x ∷ xs) (inr p) = Any-insert P less x (sort less xs) (inr (Any-sort P less xs p))

  pub All-insert {κ} :
      (P : A → Type κ) (less : A → A → Bool) (a : A) (xs : List A)
      → P a
      → All P xs
      → All P (insert less a xs)
  unfolding insert
  All-insert P less a [] p h = (p, h)
  All-insert P less a (x ∷ xs) p h = ground (arith, All-insert P less a xs p h.1)

  pub All-sort {κ} :
      (P : A → Type κ) (less : A → A → Bool) (xs : List A) → All P xs → All P (sort less xs)
  unfolding sort
  All-sort P less [] h = tt
  All-sort P less (x ∷ xs) h = All-insert P less x (sort less xs) h.0 (All-sort P less xs h.1)

  pub All-keep {κ} :
      (P : A → Type κ) (p : A → Bool)
      → ((a : A) → p a ≡ true → P a)
      → (xs : List A) → All P (keep p xs)
  All-keep P p f [] = tt
  All-keep P p f (x ∷ xs) = elim (Bool-cases (p x)) [
    | inl t ↦ rw t (f x t, All-keep P p f xs)
    | inr e ↦ rw e (All-keep P p f xs)
  ]

  pub All-take {κ} : (P : A → Type κ) (n : ℕ) (xs : List A) → All P xs → All P (take n xs)
  All-take P zero xs h = tt
  All-take P (suc n) [] h = tt
  All-take P (suc n) (x ∷ xs) h = (h.0, All-take P n xs h.1)

  pub All-append {κ} : (P : A → Type κ) (xs ys : List A) → All P xs → All P ys → All P (xs ++ ys)
  All-append P [] ys h k = k
  All-append P (x ∷ xs) ys h k = (h.0, All-append P xs ys h.1 k)

  pub All-reverse {κ} : (P : A → Type κ) (xs : List A) → All P xs → All P (reverse xs)
  All-reverse P [] h = tt
  All-reverse P (x ∷ xs) h =
      rw (reverse-cons x xs) (All-append P (reverse xs) (x ∷ []) (All-reverse P xs h.1) (h.0, tt))

  pub All-map {κ μ} :
      {P : A → Type κ} {Q : A → Type μ}
      → ((a : A) → P a → Q a)
      → (xs : List A) → All P xs
      → All Q xs
  All-map f [] h = tt
  All-map f (x ∷ xs) h = (f x h.0, All-map f xs h.1)

-- Neighbours do not stand in the wrong order, and no element stands before a smaller one.
module _ {ℓ} {A : Type ℓ} (less : A → A → Bool) where
  abbrev pub IsSorted : List A → Type 0
  IsSorted [] = Unit
  IsSorted (x ∷ xs) = All (λ y. less y x ≡ false) xs × IsSorted xs
