-- ===== src/Auth/Lockout.antt =====
-- How many failed logins an identity has.
use swar.Prelude.{
  ℕ, true, false, List, [], ◌∷◌, ◌+◌, ◌*◌, ◌≤◌, ◌<◌, none, some, ltb, leb, ◌==◌, not, ok, err,
  if◌then◌else◌, ◌≡◌, arith, refl, length, Bool-cases, Option-cases, inl, inr, All, ap, ◌∙◌, sym,
  subst, find-keep, find-passes, nat_eq, some-injective, ◌&&◌,
}
use swar.Auth.Limiter.{
  auth_rate_limited, AttemptWindow, window_of, forget, store, assert_allowed, next_window, failed,
  succeeded, LimiterCall, asks, fails, succeeds, limiter_call, limiter_calls,
}

-- The failures of an identity among the calls.
unfoldable pub failures_of : ℕ → List LimiterCall → ℕ
failures_of k [] = 0
failures_of k (fails now i ∷ calls) =
    if i == k then 1 + failures_of k calls else failures_of k calls
failures_of k (asks now i ∷ calls) = failures_of k calls
failures_of k (succeeds i ∷ calls) = failures_of k calls

-- A call before a time, of which a success is another identity's.
unfoldable pub Before : ℕ → ℕ → LimiterCall → Type 0
Before k until (asks now i) = now < until
Before k until (fails now i) = now < until
Before k until (succeeds i) = (i == k) ≡ false

counted : ℕ → ℕ → ℕ → AttemptWindow
counted k n until = record { key = k; count = n; reset_at = until }

window_of-failed :
    (bound seconds now k : ℕ) (windows : List AttemptWindow) (w : AttemptWindow)
    → next_window seconds now k (window_of k windows) ≡ w
    → now < w.reset_at
    → w.key ≡ k
    → window_of k (failed bound seconds now k windows) ≡ some w
unfolding failed store window_of
window_of-failed bound seconds now k windows w next live key =
    elim (Bool-cases
      (ltb bound (length (store (next_window seconds now k (window_of k windows)) windows)))) [
        | inl t ↦ rw (t, next) (ground arith)
        | inr e ↦ rw (e, next) (ground arith)
      ]

first-counted :
    (bound seconds first k : ℕ) (windows : List AttemptWindow)
    → window_of k windows ≡ none
    → 0 < seconds
    → window_of k (failed bound seconds first k windows)
      ≡ some (counted k 1 (first + seconds * 1000))
unfolding next_window counted
first-counted bound seconds first k windows h p =
    window_of-failed bound seconds first k windows (counted k 1 (first + seconds * 1000))
      (rw h refl) (omega arith) refl

failed-counted :
    (bound seconds now k n until : ℕ) (windows : List AttemptWindow)
    → now < until
    → window_of k windows ≡ some (counted k n until)
    → window_of k (failed bound seconds now k windows) ≡ some (counted k (n + 1) until)
unfolding next_window counted
failed-counted bound seconds now k n until windows live h =
    window_of-failed bound seconds now k windows (counted k (n + 1) until) (rw h (ground arith))
      live refl

-- The windows of the other identities come and go without it.
forget-counted :
    (i k n until : ℕ) (windows : List AttemptWindow)
    → (i == k) ≡ false
    → window_of k windows ≡ some (counted k n until)
    → window_of k (forget i windows) ≡ some (counted k n until)
unfolding window_of forget counted
forget-counted i k n until windows other h =
    find-keep (λ w. w.key == k) (λ w. not (w.key == i)) windows (counted k n until) h (ground arith)

next_window-key :
    (seconds now i : ℕ) (windows : List AttemptWindow)
    → (next_window seconds now i (window_of i windows)).key ≡ i
unfolding next_window window_of
next_window-key seconds now i windows = elim (Option-cases (window_of i windows)) [
  | inl e ↦ rw e refl
  | inr (w, e) ↦ rw e (ground (arith, find-passes (λ w. w.key == i) windows w e))
]

stored-counted :
    (k n until : ℕ) (w : AttemptWindow) (windows : List AttemptWindow)
    → (w.key == k) ≡ false
    → window_of k windows ≡ some (counted k n until)
    → window_of k (store w windows) ≡ some (counted k n until)
unfolding window_of store
stored-counted k n until w windows other h =
    rw other (forget-counted w.key k n until windows other h)

other-counted :
    (bound seconds now i k n until : ℕ) (windows : List AttemptWindow)
    → now < until
    → (i == k) ≡ false
    → window_of k windows ≡ some (counted k n until)
    → window_of k (failed bound seconds now i windows) ≡ some (counted k n until)
unfolding failed window_of counted
other-counted bound seconds now i k n until windows live other h =
    let next = next_window seconds now i (window_of i windows) in
    let stays =
      stored-counted k n until next windows
        (subst (λ j. (j == k) ≡ false) (sym (next_window-key seconds now i windows)) other) h in
    elim (Bool-cases (ltb bound (length (store next windows)))) [
      | inl t ↦ rw t (
          find-keep (λ w. w.key == k) (λ w. not (leb w.reset_at now)) (store next windows)
            (counted k n until) stays (ground arith))
      | inr e ↦ rw e stays
    ]

assert_allowed-counted :
    (maximum now k n until : ℕ) (windows : List AttemptWindow)
    → window_of k windows ≡ some (counted k n until)
    → now < until
    → (maximum ≤ n → assert_allowed maximum now k windows ≡ err auth_rate_limited)
      × (n < maximum → assert_allowed maximum now k windows ≡ ok windows)
unfolding assert_allowed counted
assert_allowed-counted maximum now k n until windows h live =
    (λ enough. rw h (ground arith), λ few. rw h (ground arith))

-- A window that is over is not the one that is still open.
not_over :
    (i k n until now : ℕ) (w : AttemptWindow) (windows : List AttemptWindow)
    → now < until
    → window_of k windows ≡ some (counted k n until)
    → window_of i windows ≡ some w
    → leb w.reset_at now ≡ true
    → (i == k) ≡ false
unfolding counted
not_over i k n until now w windows live h e over = elim (Bool-cases (i == k)) [
  | inr other ↦ other
  | inl same ↦ absurd (
      too_late (
        some-injective (counted k n until) w
          (sym h ∙ subst (λ j. window_of j windows ≡ some w) ((nat_eq.same_iff i k).0 same) e)))
]
  where
    too_late : counted k n until ≡ w → ⊥
    too_late q = ground (arith, ap (λ v. v.reset_at) q)

asks-counted :
    (maximum bound seconds now i k n until : ℕ) (windows : List AttemptWindow)
    → now < until
    → window_of k windows ≡ some (counted k n until)
    → window_of k (limiter_call maximum bound seconds (asks now i) windows)
      ≡ some (counted k n until)
unfolding limiter_call assert_allowed
asks-counted maximum bound seconds now i k n until windows live h =
    elim (Option-cases (window_of i windows)) [
      | inl e ↦ rw e h
      | inr (w, e) ↦ elim (Bool-cases (ltb now w.reset_at && leb maximum w.count)) [
        | inl refused ↦ rw (e, refused) h
        | inr passed ↦ elim (Bool-cases (leb w.reset_at now)) [
          | inr going ↦ rw (e, passed, going) h
          | inl over ↦
              rw (e, passed, over)
                (forget-counted i k n until windows
                  (not_over i k n until now w windows live h e over) h)
        ]
      ]
    ]

fails-counted :
    (bound seconds now i k n until : ℕ) (windows : List AttemptWindow)
    → now < until
    → window_of k windows ≡ some (counted k n until)
    → window_of k (failed bound seconds now i windows)
      ≡ some (counted k (n + failures_of k (fails now i ∷ [])) until)
unfolding failures_of
fails-counted bound seconds now i k n until windows live h = elim (Bool-cases (i == k)) [
  | inr other ↦
      other-counted bound seconds now i k n until windows live other h
      ∙ ap (λ m. some (counted k m until)) (ground arith)
  | inl same ↦
      subst
        (λ j.
          window_of k (failed bound seconds now j windows)
          ≡ some (counted k (n + failures_of k (fails now j ∷ [])) until))
        (sym ((nat_eq.same_iff i k).0 same))
        (failed-counted bound seconds now k n until windows live h
          ∙ ap (λ m. some (counted k m until)) (ground arith))
]

call-counted :
    (maximum bound seconds k n until : ℕ) (c : LimiterCall) (windows : List AttemptWindow)
    → Before k until c
    → window_of k windows ≡ some (counted k n until)
    → window_of k (limiter_call maximum bound seconds c windows)
      ≡ some (counted k (n + failures_of k (c ∷ [])) until)
unfolding Before limiter_call failures_of succeeded
call-counted maximum bound seconds k n until (asks now i) windows live h =
    asks-counted maximum bound seconds now i k n until windows live h
    ∙ ap (λ m. some (counted k m until)) (omega arith)
call-counted maximum bound seconds k n until (succeeds i) windows other h =
    forget-counted i k n until windows other h ∙ ap (λ m. some (counted k m until)) (omega arith)
call-counted maximum bound seconds k n until (fails now i) windows live h =
    fails-counted bound seconds now i k n until windows live h

failures_of-cons :
    (k : ℕ) (c : LimiterCall) (calls : List LimiterCall)
    → failures_of k (c ∷ calls) ≡ failures_of k (c ∷ []) + failures_of k calls
unfolding failures_of
failures_of-cons k (asks now i) calls = omega arith
failures_of-cons k (succeeds i) calls = omega arith
failures_of-cons k (fails now i) calls = ground arith

calls-counted :
    (maximum bound seconds k n until : ℕ) (calls : List LimiterCall) (windows : List AttemptWindow)
    → All (Before k until) calls
    → window_of k windows ≡ some (counted k n until)
    → window_of k (limiter_calls maximum bound seconds calls windows)
      ≡ some (counted k (n + failures_of k calls) until)
unfolding limiter_calls failures_of
calls-counted maximum bound seconds k n until [] windows live h =
    h ∙ ap (λ m. some (counted k m until)) (omega arith)
calls-counted maximum bound seconds k n until (c ∷ calls) windows live h =
    calls-counted maximum bound seconds k (n + failures_of k (c ∷ [])) until calls _ live.1
      (call-counted maximum bound seconds k n until c windows live.0 h)
    ∙ ap (λ m. some (counted k m until)) (omega (arith, failures_of-cons k c calls))

-- An identity without a window, and one of whose logins fails, is refused until the end of the
-- window that this failure opens once its failures reach the maximum, and not before: whatever calls
-- of the limiter are made on other identities or on this one in the meantime, a success of this one
-- aside, its failures are counted one by one and no clean-up of the map forgets them.
pub lockout_exact :
    (bound seconds maximum k first : ℕ) (calls : List LimiterCall) (windows : List AttemptWindow)
    → window_of k windows ≡ none
    → 0 < seconds
    → All (Before k (first + seconds * 1000)) calls
    → (now : ℕ) → now < first + seconds * 1000
    → (maximum ≤ 1 + failures_of k calls
        → assert_allowed maximum now k
            (limiter_calls maximum bound seconds (fails first k ∷ calls) windows)
          ≡ err auth_rate_limited)
      × (1 + failures_of k calls < maximum
          → assert_allowed maximum now k
              (limiter_calls maximum bound seconds (fails first k ∷ calls) windows)
            ≡ ok (limiter_calls maximum bound seconds (fails first k ∷ calls) windows))
unfolding limiter_calls limiter_call
lockout_exact bound seconds maximum k first calls windows none_yet positive live now early =
    assert_allowed-counted maximum now k (1 + failures_of k calls) (first + seconds * 1000) _
      (calls-counted maximum bound seconds k 1 (first + seconds * 1000) calls _ live
        (first-counted bound seconds first k windows none_yet positive))
      early
