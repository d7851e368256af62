-- ===== src/Common/Idempotency.antt =====
-- backend/src/common/idempotency/idempotency.service.ts: execute and purgeExpired. What runs before
-- the operation is awaited is `begin`, what runs when it has settled is `settle`. The digest of a
-- payload is a number.
use Prim.Native.String.{◌++◌ as text_append}
use swar.Prelude.{
  ℕ, Bool, true, false, List, ◌∷◌, ◌&&◌, ◌||◌, ◌+◌, ◌*◌, not, Option, none, some, String, leb, ltb,
  ◌==◌, ◌===◌, if◌then◌else◌, find, keep, length, Result, ok, err, string_eq,
}
use swar.Effects.{Effect, done, throws}
use swar.Risk.Json.{Json, text_length}
use swar.Common.Responses.{is_key, is_safe}

pub data EntryState (N : Type 0) : Type 0 where
  pending : EntryState N
  complete : Json N → EntryState N

pub record IdempotencyEntry (N : Type 0) : Type 0 where
  pub map_key : String
  pub fingerprint : ℕ
  pub expires_at : ℕ
  pub state : EntryState N

pub data IdempotencyError : Type 0 where
  invalid_key conflict unavailable unsafe_response operation_failed : IdempotencyError

-- What a call does next: run its operation, wait for the one that runs, or return what is stored.
pub data Begun (N : Type 0) : Type 0 where
  started awaiting : Begun N
  replayed : Json N → Begun N

pub record IdempotencyInput : Type 0 where
  pub scope : String
  pub key : String
  pub payload : ℕ

unfoldable pub map_key_of : IdempotencyInput → String
map_key_of input = text_append input.scope (text_append ":" input.key)

abbrev pub Entries : Type 0 → Type 0
Entries N = List (IdempotencyEntry N)

module _ {N : Type 0} where
  abbrev pub is_complete : EntryState N → Bool
  is_complete pending = false
  is_complete (complete v) = true

  -- purgeExpired
  unfoldable pub purge_expired : ℕ → Entries N → Entries N
  purge_expired now entries = keep (λ e. not (leb e.expires_at now && is_complete e.state)) entries

  unfoldable pub entry_of : String → Entries N → Option (IdempotencyEntry N)
  entry_of k entries = find (λ e. e.map_key === k) entries

  unfoldable pub delete_entry : String → Entries N → Entries N
  delete_entry k entries = keep (λ e. not (e.map_key === k)) entries

  unfoldable pub set_entry : IdempotencyEntry N → Entries N → Entries N
  unfolding delete_entry
  set_entry e entries = e ∷ delete_entry e.map_key entries

  abbrev pub begun_as : EntryState N → Begun N
  begun_as pending = awaiting
  begun_as (complete v) = replayed v

  unfoldable pub begin_entry :
      ℕ
      → ℕ
      → ℕ
      → String
      → ℕ
      → Option (IdempotencyEntry N)
      → Effect (Entries N) IdempotencyError (Begun N)
  unfolding done throws set_entry
  begin_entry maximum ttl_seconds now k payload (some e) entries =
      if e.fingerprint == payload then done (begun_as e.state) entries else throws conflict entries
  begin_entry maximum ttl_seconds now k payload none entries =
      if leb maximum (length entries)
      then throws unavailable entries
      else done started (
          set_entry
            (record {
              map_key = k;
              fingerprint = payload;
              expires_at = now + ttl_seconds * 1000;
              state = pending;
            })
            entries)

  unfoldable pub begin_keyed :
      ℕ → ℕ → ℕ → String → ℕ → Effect (Entries N) IdempotencyError (Begun N)
  unfolding begin_entry entry_of purge_expired
  begin_keyed maximum ttl_seconds now k payload entries =
      let kept = purge_expired now entries in
      begin_entry maximum ttl_seconds now k payload (entry_of k kept) kept

  -- execute, up to its first await.
  unfoldable pub begin :
      ℕ → ℕ → ℕ → IdempotencyInput → Effect (Entries N) IdempotencyError (Begun N)
  unfolding throws begin_keyed is_key map_key_of
  begin maximum ttl_seconds now input entries =
      if not (is_key input.key)
        || (text_length input.scope == 0 || ltb 120 (text_length input.scope))
      then throws invalid_key entries
      else begin_keyed maximum ttl_seconds now (map_key_of input) input.payload entries

  -- The promise of an operation, which is refused where its value may not be stored.
  unfoldable pub guarded : Result IdempotencyError (Json N) → Result IdempotencyError (Json N)
  unfolding is_safe
  guarded (ok v) = if is_safe v then ok v else err unsafe_response
  guarded (err e) = err e

  -- The end of execute for the call that ran the operation, whose entry was `e`.
  unfoldable pub settle_entry :
      IdempotencyEntry N
      → Result IdempotencyError (Json N)
      → Effect (Entries N) IdempotencyError (Json N)
  unfolding done throws set_entry delete_entry
  settle_entry e (ok v) entries = done v (set_entry (record e { state = complete v }) entries)
  settle_entry e (err x) entries = throws x (delete_entry e.map_key entries)

  unfoldable pub settle :
      IdempotencyEntry N
      → Result IdempotencyError (Json N)
      → Effect (Entries N) IdempotencyError (Json N)
  unfolding settle_entry guarded
  settle e result = settle_entry e (guarded result)
