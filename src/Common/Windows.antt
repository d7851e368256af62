-- ===== src/Common/Windows.antt =====
-- How many requests of one key the guard lets pass, whatever else is asked in between.
use swar.Prelude.{
  ℕ, Bool, true, false, List, [], ◌∷◌, ◌+◌, ◌-◌, ◌*◌, ◌≤◌, ◌<◌, Option, none, some, leb, ◌++◌,
  if◌then◌else◌, ◌≡◌, refl, ap, arith, inl, inr, false-not-true, Bool-cases, Option-cases, All,
  count_many,
}
use swar.Common.RateLimit.{
  RateLimits, ApiRequest, RateKey, RateBucket, RateOutcome, allowed, limit_of, key_of, purge,
  bucket_of, current_bucket, raised, judge, can_activate,
}
use swar.Common.Alone.{
  TimedApiRequest, alone, alone_outcomes, asks_for, times_of, outcomes_of, IsFrom, Agrees, live,
  own_step, other_step, same_key_equal,
}

-- The step of a request: it leaves the bucket of the key as the bucket alone.
any_step :
    (limits : RateLimits) (k : RateKey) (t now : ℕ) (r : ApiRequest) (buckets : List RateBucket)
    (b : Option RateBucket)
    → t ≤ now
    → asks_for k r ≡ false
    → Agrees k t buckets b
    → Agrees k now (can_activate limits now r buckets).1 b
unfolding can_activate
any_step limits k t now r buckets b l e h = elim (Option-cases (key_of r)) [
  | inl n ↦ rw n (λ later m. h later (omega (arith, l, m)))
  | inr j ↦ rw j.1 (other_step limits k t now j.0 buckets b l (rw j.1 at e) h)
]

key_step :
    (limits : RateLimits) (k : RateKey) (t now : ℕ) (r : ApiRequest) (buckets : List RateBucket)
    (b : Option RateBucket)
    → t ≤ now
    → asks_for k r ≡ true
    → Agrees k t buckets b
    → ((can_activate limits now r buckets).0 ≡ (alone limits k now b).0)
      × Agrees k now (can_activate limits now r buckets).1 (alone limits k now b).1
unfolding can_activate
key_step limits k t now r buckets b l e h = elim (Option-cases (key_of r)) [
  | inl n ↦ elim (false-not-true (rw n at e)) [ ]
  | inr j ↦ rw (j.1, same_key_equal j.0 k (rw j.1 at e)) (own_step limits k t now buckets b l h)
]

agreed_outcomes :
    (limits : RateLimits) (k : RateKey) (t : ℕ) (requests : List TimedApiRequest)
    (buckets : List RateBucket) (b : Option RateBucket)
    → IsFrom t requests
    → Agrees k t buckets b
    → outcomes_of limits k requests buckets ≡ alone_outcomes limits k (times_of k requests) b
unfolding outcomes_of times_of alone_outcomes IsFrom
agreed_outcomes limits k t [] buckets b o h = refl
agreed_outcomes limits k t ((now, r) ∷ requests) buckets b o h = elim (Bool-cases (asks_for k r)) [
  | inl own ↦
      (let step = key_step limits k t now r buckets b o.0 own h in
        rw (own, step.0)
          (ap (λ rest. (alone limits k now b).0 ∷ rest)
            (agreed_outcomes limits k now requests (can_activate limits now r buckets).1
              (alone limits k now b).1 o.1 step.1)))
  | inr other ↦ rw other (
      agreed_outcomes limits k now requests (can_activate limits now r buckets).1 b o.1
        (any_step limits k t now r buckets b o.0 other h))
]

-- For requests in the order of time, the guard answers those of a key as it would if that key had
-- one bucket of its own and nothing else were asked and nothing purged.
pub purge_unseen :
    (limits : RateLimits) (k : RateKey) (requests : List TimedApiRequest)
    → IsFrom 0 requests
    → outcomes_of limits k requests [] ≡ alone_outcomes limits k (times_of k requests) none
unfolding purge bucket_of live
purge_unseen limits k requests o = agreed_outcomes limits k 0 requests [] none o (λ now l. refl)

unfoldable pub is_allowed : RateOutcome → Bool
is_allowed (allowed _ _ _) = true
is_allowed _ = false

-- How many more a bucket alone lets pass in the stretch of a window from `t`.
unfoldable budget : RateLimits → RateKey → ℕ → Option RateBucket → ℕ
budget limits k t none = limit_of limits k.category
budget limits k t (some b) =
    if leb (t + limits.window_seconds * 1000) b.resets_at
    then limit_of limits k.category - b.count
    else limit_of limits k.category + (limit_of limits k.category - b.count)

abbrev InStretch : RateLimits → ℕ → ℕ → Type 0
InStretch limits t now = (t ≤ now) × (now < t + limits.window_seconds * 1000)

budget_spent :
    (limits : RateLimits) (k : RateKey) (t now : ℕ) (b : Option RateBucket)
    → InStretch limits t now
    → (if is_allowed (alone limits k now b).0 then 1 else 0)
        + budget limits k t (alone limits k now b).1
      ≤ budget limits k t b
unfolding alone current_bucket judge raised is_allowed budget
budget_spent limits k t now none h = ground arith
budget_spent limits k t now (some b) h = ground arith

alone-bounded :
    (limits : RateLimits) (k : RateKey) (t : ℕ) (times : List ℕ) (b : Option RateBucket)
    → All (InStretch limits t) times
    → count_many is_allowed (alone_outcomes limits k times b) ≤ budget limits k t b
unfolding alone_outcomes count_many
alone-bounded limits k t [] b h = omega arith
alone-bounded limits k t (now ∷ times) b h = ground (
  arith,
  budget_spent limits k t now b h.0,
  alone-bounded limits k t times (alone limits k now b).1 h.1,
)

budget_double :
    (limits : RateLimits) (k : RateKey) (t : ℕ) (b : Option RateBucket)
    → budget limits k t b ≤ 2 * limit_of limits k.category
unfolding budget
budget_double limits k t none = omega arith
budget_double limits k t (some b) = ground arith

times-InStretch :
    (limits : RateLimits) (k : RateKey) (t : ℕ) (requests : List TimedApiRequest)
    → All (λ r. InStretch limits t r.0) requests
    → All (InStretch limits t) (times_of k requests)
unfolding times_of
times-InStretch limits k t [] h = tt
times-InStretch limits k t ((now, r) ∷ requests) h = elim (Bool-cases (asks_for k r)) [
  | inl own ↦ rw own (h.0, times-InStretch limits k t requests h.1)
  | inr other ↦ rw other (times-InStretch limits k t requests h.1)
]

-- The buckets after some requests.
unfoldable pub buckets_after : RateLimits → List TimedApiRequest → List RateBucket → List RateBucket
unfolding can_activate
buckets_after limits [] buckets = buckets
buckets_after limits ((now, r) ∷ requests) buckets =
    buckets_after limits requests (can_activate limits now r buckets).1

bounded_after :
    (limits : RateLimits) (k : RateKey) (t from : ℕ) (earlier requests : List TimedApiRequest)
    (buckets : List RateBucket) (b : Option RateBucket)
    → IsFrom from (earlier ++ requests)
    → All (λ r. InStretch limits t r.0) requests
    → Agrees k from buckets b
    → count_many is_allowed (outcomes_of limits k requests (buckets_after limits earlier buckets))
      ≤ 2 * limit_of limits k.category
unfolding buckets_after IsFrom
bounded_after limits k t from [] requests buckets b o h g =
    rw (agreed_outcomes limits k from requests buckets b o g) (
      omega (
        arith,
        budget_double limits k t b,
        alone-bounded limits k t (times_of k requests) b (times-InStretch limits k t requests h),
      ))
bounded_after limits k t from ((now, r) ∷ earlier) requests buckets b o h g =
    elim (Bool-cases (asks_for k r)) [
      | inl own ↦
          bounded_after limits k t now earlier requests _ (alone limits k now b).1 o.1 h
            (key_step limits k from now r buckets b o.0 own g).1
      | inr other ↦
          bounded_after limits k t now earlier requests _ b o.1 h
            (any_step limits k from now r buckets b o.0 other g)
    ]

-- Whatever was asked before, of the requests of a key in a stretch of time as long as the window the
-- guard lets at most twice the limit of its category pass, where requests come in the order of time.
pub window_bounded :
    (limits : RateLimits) (k : RateKey) (t : ℕ) (earlier requests : List TimedApiRequest)
    → IsFrom 0 (earlier ++ requests)
    → All (λ r. (t ≤ r.0) × (r.0 < t + limits.window_seconds * 1000)) requests
    → count_many is_allowed (outcomes_of limits k requests (buckets_after limits earlier []))
      ≤ 2 * limit_of limits k.category
unfolding purge bucket_of live
window_bounded limits k t earlier requests o h =
    bounded_after limits k t 0 earlier requests [] none o h (λ now l. refl)
