-- ===== src/Common/Once.antt =====
-- An operation runs once under its key, whatever else is asked in between.
use swar.Prelude.{
  ℕ, Bool, true, false, List, ◌||◌, ◌+◌, ◌*◌, ◌<◌, not, Option, none, some, leb, ltb, ◌==◌,
  if◌then◌else◌, Result, ok, err, ok-injective, string_eq, ◌≡◌, refl, sym, ap, inl, inr, Bool-cases,
  All, length, false-not-true,
}
use swar.Risk.Json.{Json, text_length}
use swar.Common.Responses.{is_key, is_safe}
use swar.Common.Idempotency.{
  IdempotencyEntry, EntryState, pending, complete, IdempotencyError, conflict, Begun, started,
  awaiting, replayed, IdempotencyInput, is_complete, begun_as, map_key_of, Entries, purge_expired,
  entry_of, set_entry, begin_entry, begin_keyed, begin, guarded, settle_entry, settle,
}
use swar.Common.Stored.{
  IdempotencyStep, entries_after, Spares, Before, purge-keeps, unpurged, after-keeps, set-own,
}

-- The tests of the input's texts.
abbrev is_refused : IdempotencyInput → Bool
is_refused input =
    not (is_key input.key) || (text_length input.scope == 0 || ltb 120 (text_length input.scope))

err-not-ok : {A : Type 0} {e : IdempotencyError} {a : A} → err e ≡ ok a → ⊥
err-not-ok h = cc

module _ {N : Type 0} (maximum ttl : ℕ) (input : IdempotencyInput) where
  -- The entry that a call which starts its operation leaves.
  unfoldable pub new_entry : ℕ → IdempotencyEntry N
  unfolding map_key_of
  new_entry now = record {
    map_key = map_key_of input;
    fingerprint = input.payload;
    expires_at = now + ttl * 1000;
    state = pending;
  }

  begun_as-started : (x : EntryState N) → begun_as x ≡ started → ⊥
  begun_as-started pending h = cc
  begun_as-started (complete v) h = cc

  begin_entry-started :
      (now : ℕ) (found : Option (IdempotencyEntry N)) (s t : Entries N)
      → begin_entry maximum ttl now (map_key_of input) input.payload found s ≡ (ok started, t)
      → t ≡ set_entry (new_entry now) s
  unfolding begin_entry new_entry
  begin_entry-started now (some e) s t h = elim (Bool-cases (e.fingerprint == input.payload)) [
    | inl same ↦ elim (begun_as-started e.state (ok-injective (ap (λ x. x.0) (rw same at h)))) [ ]
    | inr other ↦ elim (err-not-ok (ap (λ x. x.0) (rw other at h))) [ ]
  ]
  begin_entry-started now none s t h = elim (Bool-cases (leb maximum (length s))) [
    | inl full ↦ elim (err-not-ok (ap (λ x. x.0) (rw full at h))) [ ]
    | inr free ↦ sym (ap (λ x. x.1) (rw free at h))
  ]

  begun_keyed-Stored :
      (now : ℕ) (s t : Entries N)
      → begin_keyed maximum ttl now (map_key_of input) input.payload s ≡ (ok started, t)
      → entry_of (map_key_of input) t ≡ some (new_entry now)
  unfolding begin_keyed map_key_of new_entry
  begun_keyed-Stored now s t h =
      rw
        (begin_entry-started now (entry_of (map_key_of input) (purge_expired now s))
          (purge_expired now s) t h)
        (set-own (new_entry now) (purge_expired now s))

  begun-Stored :
      (now : ℕ) (s t : Entries N)
      → begin maximum ttl now input s ≡ (ok started, t)
      → (is_refused input ≡ false) × (entry_of (map_key_of input) t ≡ some (new_entry now))
  unfolding begin
  begun-Stored now s t h = elim (Bool-cases (is_refused input)) [
    | inl bad ↦ elim (err-not-ok (ap (λ x. x.0) (rw bad at h))) [ ]
    | inr good ↦ (good, begun_keyed-Stored now s t (rw good at h))
  ]

  -- A call under the key of an entry that is stored, with some payload.
  stored_call :
      (now payload : ℕ) (e : IdempotencyEntry N) (s : Entries N)
      → is_refused input ≡ false
      → entry_of (map_key_of input) s ≡ some e
      → (is_complete e.state ≡ true → now < e.expires_at)
      → (begin maximum ttl now (record input { payload = payload }) s).0
        ≡ (if e.fingerprint == payload then ok (begun_as e.state) else err conflict)
  unfolding begin begin_keyed begin_entry map_key_of
  stored_call now payload e s good h l =
      rw (good, purge-keeps (map_key_of input) now e s h (unpurged now e l))
        (elim (Bool-cases (e.fingerprint == payload)) [ inl t ↦ rw t refl | inr n ↦ rw n refl ])

  -- What a call under the same key is answered, at a time and with a payload.
  abbrev pub answer_under : ℕ → ℕ → Entries N → Result IdempotencyError (Begun N)
  answer_under now payload s = (begin maximum ttl now (record input { payload = payload }) s).0

  -- If a call starts its operation, then whatever steps follow that do not settle this operation, a call
  -- under the same key waits for it if it has the same payload, and is a conflict otherwise. Once it has
  -- settled with a value that is safe, whatever steps of other operations follow before the entry
  -- expires, such a call before that time returns this value, or is a conflict.
  pub executed_once :
      (now payload soon next : ℕ) (s t : Entries N) (v : Json N)
      (waiting later : List (IdempotencyStep N))
      → begin maximum ttl now input s ≡ (ok started, t)
      → All (Spares (map_key_of input)) waiting
      → All (Spares (map_key_of input)) later
      → is_safe v ≡ true
      → All (Before (now + ttl * 1000)) later
      → next < now + ttl * 1000
      → (answer_under soon payload (entries_after maximum ttl waiting t)
          ≡ (if input.payload == payload then ok awaiting else err conflict))
        × (answer_under next payload (
              entries_after maximum ttl later
                (settle (new_entry now) (ok v) (entries_after maximum ttl waiting t)).1)
            ≡ (if input.payload == payload then ok (replayed v) else err conflict))
  unfolding settle guarded settle_entry new_entry
  executed_once now payload soon next s t v waiting later h w l safe timely m =
      let begun = begun-Stored now s t h in
      let done_entry = record (new_entry now) { state = complete v } in
      let waits =
        after-keeps maximum ttl (map_key_of input) (new_entry now) waiting t w
          (λ e. elim (false-not-true e) [ ]) begun.1 in
      (
        stored_call soon payload (new_entry now) (entries_after maximum ttl waiting t) begun.0 waits
            (λ e. elim (false-not-true e) [ ]),
        rw safe (
            stored_call next payload done_entry _ begun.0
              (after-keeps maximum ttl (map_key_of input) done_entry later _ l (λ e. timely)
                (set-own done_entry _))
              (λ e. m)),
      )
