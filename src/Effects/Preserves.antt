-- ===== src/Effects/Preserves.antt =====
-- What a method keeps true of the state, whether it returns or throws: a rule for each way to build
-- a method.
use swar.Prelude.{Bool, true, false, Result, ok, err, List, [], ◌∷◌, ◌≡◌, refl, if◌then◌else◌}
use swar.Effects.{
  Effect, done, throws, query, reads, transaction, committed, catching, recovered, refuse_if,
  requires, proceed, ◌>>=◌, for_each,
}

pub record Preserves {ℓ κ} {S E : Type 0} {A : Type ℓ} (P : S → Type κ) (m : Effect S E A)
    : Type (ℓ ⊔ κ) where
  pub holds : (s : S) → P s → P (m s).1

module _ {ℓ κ} {S E : Type 0} {A : Type ℓ} {P : S → Type κ} where
  pub Preserves-done : (a : A) → Preserves {E = E} P (done a)
  unfolding done
  Preserves-done a = record { holds = λ s p. p }

  pub Preserves-throws : (e : E) → Preserves {A = A} P (throws e)
  unfolding throws
  Preserves-throws e = record { holds = λ s p. p }

  pub Preserves-query : (f : S → Result E A) → Preserves P (query f)
  unfolding query
  Preserves-query f = record { holds = λ s p. p }

  pub Preserves-reads : (f : S → A) → Preserves {E = E} P (reads f)
  unfolding reads
  Preserves-reads f = record { holds = λ s p. p }

  committed_keeps :
      (s : S) (r : Result E (A × S))
      → P s
      → ((a : A) (after : S) → r ≡ ok (a, after) → P after)
      → P (committed s r).1
  committed_keeps s (ok (a, after)) p f = f a after refl
  committed_keeps s (err e) p f = p

  -- A transaction preserves what its successes preserve.
  pub Preserves-transaction :
      (t : S → Result E (A × S))
      → ((s : S) (a : A) (after : S) → t s ≡ ok (a, after) → P s → P after)
      → Preserves P (transaction t)
  unfolding transaction
  Preserves-transaction t f = record {
    holds = λ s p. committed_keeps s (t s) p (λ a after e. f s a after e p);
  }

  recovered_keeps :
      (r : Result E A × S) (handler : Effect S E A)
      → P r.1
      → Preserves P handler
      → P (recovered r handler).1
  recovered_keeps (ok a, after) handler p k = p
  recovered_keeps (err e, after) handler p k = k.holds after p

  pub Preserves-catching :
      (m handler : Effect S E A)
      → Preserves P m
      → Preserves P handler
      → Preserves P (catching m handler)
  unfolding catching
  Preserves-catching m handler k l = record {
    holds = λ s p. recovered_keeps (m s) handler (k.holds s p) l;
  }

  pub Preserves-if :
      (b : Bool) (m n : Effect S E A)
      → (b ≡ true → Preserves P m)
      → (b ≡ false → Preserves P n)
      → Preserves P (if b then m else n)
  Preserves-if true m n k l = k refl
  Preserves-if false m n k l = l refl

module _ {κ} {S E : Type 0} {P : S → Type κ} where
  pub Preserves-refuse_if : (b : Bool) (e : E) → Preserves P (refuse_if b e)
  unfolding refuse_if
  Preserves-refuse_if true e = Preserves-throws e
  Preserves-refuse_if false e = Preserves-done tt

  pub Preserves-requires : (b : Bool) (e : E) → Preserves P (requires b e)
  unfolding requires
  Preserves-requires true e = Preserves-done tt
  Preserves-requires false e = Preserves-throws e

module _ {ℓ κ μ} {S E : Type 0} {A : Type ℓ} {B : Type κ} {P : S → Type μ} where
  proceed_keeps :
      (r : Result E A × S) (f : A → Effect S E B)
      → P r.1
      → ((a : A) → Preserves P (f a))
      → P (proceed r f).1
  proceed_keeps (ok a, after) f p k = (k a).holds after p
  proceed_keeps (err e, after) f p k = p

  pub Preserves-bind :
      (m : Effect S E A) (f : A → Effect S E B)
      → Preserves P m
      → ((a : A) → Preserves P (f a))
      → Preserves P (m >>= f)
  unfolding ◌>>=◌
  Preserves-bind m f k l = record { holds = λ s p. proceed_keeps (m s) f (k.holds s p) l }

module _ {κ} {S E A : Type 0} {P : S → Type κ} where
  pub Preserves-for_each :
      (xs : List A) (f : A → Effect S E (Unit {0}))
      → ((a : A) → Preserves P (f a))
      → Preserves P (for_each xs f)
  unfolding for_each
  Preserves-for_each [] f k = Preserves-done tt
  Preserves-for_each (a ∷ xs) f k =
      Preserves-bind (f a) (λ _. for_each xs f) (k a) (λ _. Preserves-for_each xs f k)

pub ruleset preserves_rules = (
  Preserves-done, Preserves-throws, Preserves-query, Preserves-reads, Preserves-catching,
  Preserves-if, Preserves-refuse_if, Preserves-requires, Preserves-bind, Preserves-for_each,
)
