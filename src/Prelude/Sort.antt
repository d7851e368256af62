-- ===== src/Prelude/Sort.antt =====
-- Sorting an array by a comparator.
use mathlib.Core.Bool.{Bool}
use mathlib.Core.List.{List, [], ◌∷◌}
use swar.Prelude.Tests.{if◌then◌else◌}

-- `xs.sort(compare)`, which is stable: `less a b` is `compare(a, b) < 0`.
module _ {ℓ} {A : Type ℓ} (less : A → A → Bool) where
  unfoldable pub insert : A → List A → List A
  insert x [] = x ∷ []
  insert x (y ∷ ys) = if less y x then y ∷ insert x ys else x ∷ y ∷ ys

  unfoldable pub sort : List A → List A
  unfolding insert
  sort [] = []
  sort (x ∷ xs) = insert x (sort xs)
