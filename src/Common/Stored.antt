-- ===== src/Common/Stored.antt =====
-- An entry stays in the map until its own operation settles or it is purged.
use swar.Prelude.{
  ℕ, true, false, List, [], ◌∷◌, ◌&&◌, ◌||◌, ◌<◌, ◌∙◌, not, none, some, String, leb, ltb, ◌==◌,
  ◌===◌, Result, ok, err, string_eq, eq_iff, ◌≡◌, refl, sym, ap, arith, inl, inr, Bool-cases,
  false-not-true, Option-cases, All, find-keep, find-passes, length,
}
use swar.Risk.Json.{Json, text_length}
use swar.Common.Responses.{is_key, is_safe}
use swar.Common.Idempotency.{
  IdempotencyEntry, complete, IdempotencyError, IdempotencyInput, is_complete, map_key_of, Entries,
  purge_expired, entry_of, delete_entry, set_entry, begin_entry, begin_keyed, begin, guarded,
  settle_entry, settle,
}

pub data IdempotencyStep (N : Type 0) : Type 0 where
  calls : ℕ → IdempotencyInput → IdempotencyStep N
  settles : IdempotencyEntry N → Result IdempotencyError (Json N) → IdempotencyStep N

differs : (a b k : String) → (a === k) ≡ true → (b === k) ≡ false → (a === b) ≡ false
differs a b k t n = elim (Bool-cases (a === b)) [
  | inl e ↦ elim (false-not-true (rw (sym n, sym ((eq_iff a b).0 e)) t)) [ ]
  | inr e ↦ e
]

pub some-not-none : {A : Type 0} {a : A} → some a ≡ none → ⊥
some-not-none h = cc

module _ {N : Type 0} where
  unfoldable pub entries_after : ℕ → ℕ → List (IdempotencyStep N) → Entries N → Entries N
  unfolding begin settle
  entries_after maximum ttl [] s = s
  entries_after maximum ttl (calls now input ∷ steps) s =
      entries_after maximum ttl steps (begin maximum ttl now input s).1
  entries_after maximum ttl (settles e result ∷ steps) s =
      entries_after maximum ttl steps (settle e result s).1

  -- A step that does not settle the operation of a key.
  abbrev pub Spares : String → IdempotencyStep N → Type 0
  Spares k (calls now input) = Unit
  Spares k (settles e result) = (e.map_key === k) ≡ false

  -- A step that is no call, or one before a time.
  abbrev pub Before : ℕ → IdempotencyStep N → Type 0
  Before until (calls now input) = now < until
  Before until (settles e result) = Unit

  pub purge-keeps :
      (k : String) (now : ℕ) (e : IdempotencyEntry N) (s : Entries N)
      → entry_of k s ≡ some e
      → (leb e.expires_at now && is_complete e.state) ≡ false
      → entry_of k (purge_expired now s) ≡ some e
  unfolding entry_of purge_expired
  purge-keeps k now e s h p = find-keep _ _ s e h (rw p refl)

  delete-keeps :
      (k j : String) (e : IdempotencyEntry N) (s : Entries N)
      → entry_of k s ≡ some e
      → (j === k) ≡ false
      → entry_of k (delete_entry j s) ≡ some e
  unfolding entry_of delete_entry
  delete-keeps k j e s h n =
      find-keep _ _ s e h
        (rw (differs e.map_key j k (find-passes (λ e. e.map_key === k) s e h) n) refl)

  set-keeps :
      (k : String) (x e : IdempotencyEntry N) (s : Entries N)
      → entry_of k s ≡ some e
      → (x.map_key === k) ≡ false
      → entry_of k (set_entry x s) ≡ some e
  unfolding set_entry entry_of
  set-keeps k x e s h n = rw n (delete-keeps k x.map_key e s h n)

  pub set-own :
      (x : IdempotencyEntry N) (s : Entries N) → entry_of x.map_key (set_entry x s) ≡ some x
  unfolding set_entry entry_of
  set-own x s = rw ((eq_iff x.map_key x.map_key).1 refl) refl

  pub unpurged :
      (now : ℕ) (e : IdempotencyEntry N)
      → (is_complete e.state ≡ true → now < e.expires_at)
      → (leb e.expires_at now && is_complete e.state) ≡ false
  unpurged now e h = elim (Bool-cases (is_complete e.state)) [
    | inl t ↦ (let m = h t in ground (arith, t))
    | inr n ↦ ground (arith, n)
  ]

  begin_keyed-keeps :
      (maximum ttl now payload : ℕ) (j k : String) (e : IdempotencyEntry N) (s : Entries N)
      → entry_of k s ≡ some e
      → (leb e.expires_at now && is_complete e.state) ≡ false
      → entry_of k (begin_keyed maximum ttl now j payload s).1 ≡ some e
  unfolding begin_keyed begin_entry
  begin_keyed-keeps maximum ttl now payload j k e s h p =
      let kept = purge-keeps k now e s h p in
      elim (Option-cases (entry_of j (purge_expired now s))) [
        | inr x ↦ rw x.1 (elim (Bool-cases (x.0.fingerprint == payload)) [
          | inl t ↦ rw t kept
          | inr n ↦ rw n kept
        ])
        | inl none_found ↦
            rw none_found (elim (Bool-cases (leb maximum (length (purge_expired now s)))) [
              | inl full ↦ rw full kept
              | inr free ↦
                  rw free (set-keeps k _ e (purge_expired now s) kept (other none_found kept))
            ])
      ]
    where
      other :
          entry_of j (purge_expired now s) ≡ none
          → entry_of k (purge_expired now s) ≡ some e
          → (j === k) ≡ false
      other a b = elim (Bool-cases (j === k)) [
        | inl t ↦
            elim (some-not-none
              (sym b ∙ ap (λ i. entry_of i (purge_expired now s)) (sym ((eq_iff j k).0 t)) ∙ a)) [ ]
        | inr n ↦ n
      ]

  begin-keeps :
      (maximum ttl now : ℕ) (input : IdempotencyInput) (k : String) (e : IdempotencyEntry N)
      (s : Entries N)
      → entry_of k s ≡ some e
      → (leb e.expires_at now && is_complete e.state) ≡ false
      → entry_of k (begin maximum ttl now input s).1 ≡ some e
  unfolding begin
  begin-keeps maximum ttl now input k e s h p =
      elim (Bool-cases (
        not (is_key input.key)
        || (text_length input.scope == 0 || ltb 120 (text_length input.scope)))) [
          | inl bad ↦ rw bad h
          | inr good ↦
              rw good (begin_keyed-keeps maximum ttl now input.payload (map_key_of input) k e s h p)
        ]

  settle-keeps :
      (x : IdempotencyEntry N) (result : Result IdempotencyError (Json N)) (k : String)
      (e : IdempotencyEntry N) (s : Entries N)
      → entry_of k s ≡ some e
      → (x.map_key === k) ≡ false
      → entry_of k (settle x result s).1 ≡ some e
  unfolding settle guarded settle_entry
  settle-keeps x (err y) k e s h n = delete-keeps k x.map_key e s h n
  settle-keeps x (ok v) k e s h n = elim (Bool-cases (is_safe v)) [
    | inl t ↦ rw t (set-keeps k (record x { state = complete v }) e s h n)
    | inr m ↦ rw m (delete-keeps k x.map_key e s h n)
  ]

  pub after-keeps :
      (maximum ttl : ℕ) (k : String) (e : IdempotencyEntry N) (steps : List (IdempotencyStep N))
      (s : Entries N)
      → All (Spares k) steps
      → (is_complete e.state ≡ true → All (Before e.expires_at) steps)
      → entry_of k s ≡ some e
      → entry_of k (entries_after maximum ttl steps s) ≡ some e
  unfolding entries_after
  after-keeps maximum ttl k e [] s a l h = h
  after-keeps maximum ttl k e (calls now input ∷ steps) s a l h =
      after-keeps maximum ttl k e steps _ a.1 (λ t. (l t).1)
        (begin-keeps maximum ttl now input k e s h (unpurged now e (λ t. (l t).0)))
  after-keeps maximum ttl k e (settles x result ∷ steps) s a l h =
      after-keeps maximum ttl k e steps _ a.1 (λ t. (l t).1) (settle-keeps x result k e s h a.0)
