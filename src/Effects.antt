-- ===== src/Effects.antt =====
-- Methods that write to tables and may throw. What was written before an error stays written, except
-- within a transaction, so that a method returns the state beside its result.
use swar.Prelude.{Bool, true, false, Option, none, some, Result, ok, err, List, [], ◌∷◌}
pub mod Preserves

abbrev pub Effect {ℓ} : Type 0 → Type 0 → Type ℓ → Type ℓ
Effect S E A = S → Result E A × S

module _ {ℓ} {S E : Type 0} {A : Type ℓ} where
  unfoldable pub done : A → Effect S E A
  done a s = (ok a, s)

  -- `throw e`
  unfoldable pub throws : E → Effect S E A
  throws e s = (err e, s)

  -- A result that depends on the state only.
  unfoldable pub query : (S → Result E A) → Effect S E A
  query f s = (f s, s)

  unfoldable pub reads : (S → A) → Effect S E A
  reads f s = (ok (f s), s)

  abbrev pub committed : S → Result E (A × S) → Result E A × S
  committed s (ok (a, after)) = (ok a, after)
  committed s (err e) = (err e, s)

  -- A transaction that throws is rolled back.
  unfoldable pub transaction : (S → Result E (A × S)) → Effect S E A
  transaction t s = committed s (t s)

  abbrev pub recovered : Result E A × S → Effect S E A → Result E A × S
  recovered (ok a, after) handler = (ok a, after)
  recovered (err e, after) handler = handler after

  -- `try { m } catch { handler }`
  unfoldable pub catching : Effect S E A → Effect S E A → Effect S E A
  catching m handler s = recovered (m s) handler

module _ {S E : Type 0} where
  -- `if (b) throw e;`
  unfoldable pub refuse_if : Bool → E → Effect S E (Unit {0})
  unfolding done throws
  refuse_if true e = throws e
  refuse_if false e = done tt

  -- A call of a service outside that succeeds or throws.
  unfoldable pub requires : Bool → E → Effect S E (Unit {0})
  unfolding done throws
  requires true e = done tt
  requires false e = throws e

module _ {ℓ κ} {S E : Type 0} {A : Type ℓ} {B : Type κ} where
  abbrev pub proceed : Result E A × S → (A → Effect S E B) → Result E B × S
  proceed (ok a, after) f = f a after
  proceed (err e, after) f = (err e, after)

  infixl 5 ◌>>=◌ ◌>>◌
  unfoldable pub ◌>>=◌ : Effect S E A → (A → Effect S E B) → Effect S E B
  unfolding done throws query reads transaction
  ◌>>=◌ m f s = proceed (m s) f

  abbrev pub ◌>>◌ : Effect S E A → Effect S E B → Effect S E B
  m >> n = m >>= λ _. n

module _ {S E : Type 0} {A : Type 0} where
  -- `for (const a of xs) await f(a);`
  unfoldable pub for_each : List A → (A → Effect S E (Unit {0})) → Effect S E (Unit {0})
  unfolding ◌>>=◌ done
  for_each [] f = done tt
  for_each (a ∷ xs) f = f a >> for_each xs f
