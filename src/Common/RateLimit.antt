-- ===== src/Common/RateLimit.antt =====
-- backend/src/common/rate-limit/api-rate-limit.guard.ts. The map of buckets is an association list,
-- newest entry first. Its keys are the parts that the code joins to a text: as a method is a word and
-- a path begins with a slash, different parts give different texts.
use swar.Prelude.{
  ℕ, Bool, List, ◌∷◌, ◌&&◌, ◌+◌, ◌-◌, ◌*◌, ◌/◌, not, Option, none, some, String, leb, ◌==◌, ◌===◌,
  if◌then◌else◌, find, keep, max, string_eq,
}

pub data RateCategory : Type 0 where
  sensitive mutation queries : RateCategory

pub record RateLimits : Type 0 where
  pub sensitive_maximum : ℕ
  pub mutation_maximum : ℕ
  pub query_maximum : ℕ
  pub window_seconds : ℕ

-- What the guard reads of a request; `category` is what the handler or its class is marked with.
pub record ApiRequest : Type 0 where
  pub marked : Option RateCategory
  pub membership : Option String
  pub ip : Option String
  pub method : String
  pub path : String

pub record RateKey : Type 0 where
  pub category : RateCategory
  pub subject : String
  pub key_method : String
  pub key_path : String

pub record RateBucket : Type 0 where
  pub bucket_key : RateKey
  pub count : ℕ
  pub resets_at : ℕ

pub data RateOutcome : Type 0 where
  unmarked : RateOutcome
  allowed : ℕ → ℕ → ℕ → RateOutcome  -- limit, remaining, reset
  rate_limited : ℕ → RateOutcome  -- retry-after

abbrev pub category_index : RateCategory → ℕ
category_index sensitive = 0
category_index mutation = 1
category_index queries = 2

unfoldable pub same_key : RateKey → RateKey → Bool
same_key a b =
    category_index a.category == category_index b.category
    && (a.subject === b.subject && (a.key_method === b.key_method && a.key_path === b.key_path))

-- limit
unfoldable pub limit_of : RateLimits → RateCategory → ℕ
limit_of limits sensitive = limits.sensitive_maximum
limit_of limits mutation = limits.mutation_maximum
limit_of limits queries = limits.query_maximum

abbrev pub or_else : Option String → String → String
or_else none t = t
or_else (some s) t = s

abbrev pub subject_of : ApiRequest → String
subject_of r = or_else r.membership (or_else r.ip "unauthenticated")

unfoldable pub key_of : ApiRequest → Option RateKey
key_of r = of r.marked
  where
    of : Option RateCategory → Option RateKey
    of none = none
    of (some c) =
        some (record {
          category = c;
          subject = subject_of r;
          key_method = r.method;
          key_path = r.path;
        })

-- purge
unfoldable pub purge : ℕ → List RateBucket → List RateBucket
purge now buckets = keep (λ b. not (leb b.resets_at now)) buckets

unfoldable pub bucket_of : RateKey → List RateBucket → Option RateBucket
unfolding same_key
bucket_of k buckets = find (λ b. same_key b.bucket_key k) buckets

-- The bucket that a request is counted in.
unfoldable pub current_bucket : RateLimits → ℕ → RateKey → Option RateBucket → RateBucket
current_bucket limits now k none = record {
  bucket_key = k;
  count = 0;
  resets_at = now + limits.window_seconds * 1000;
}
current_bucket limits now k (some b) =
    if leb b.resets_at now
    then record { bucket_key = k; count = 0; resets_at = now + limits.window_seconds * 1000 }
    else b

-- `Math.max(1, Math.ceil(ms / 1000))`
unfoldable pub retry_after : ℕ → ℕ
retry_after ms = max 1 ((ms + 999) / 1000)

unfoldable pub store_bucket : RateBucket → List RateBucket → List RateBucket
unfolding same_key
store_bucket b buckets = b ∷ keep (λ x. not (same_key x.bucket_key b.bucket_key)) buckets

unfoldable pub raised : RateBucket → RateBucket
raised b = record b { count = b.count + 1 }

unfoldable pub judge : RateLimits → ℕ → RateKey → RateBucket → RateOutcome
unfolding limit_of retry_after
judge limits now k b =
    if leb (limit_of limits k.category) b.count
    then rate_limited (retry_after (b.resets_at - now))
    else allowed (limit_of limits k.category) (limit_of limits k.category - (b.count + 1))
        b.resets_at

unfoldable pub count_request :
    RateLimits → ℕ → RateKey → List RateBucket → RateOutcome × List RateBucket
unfolding judge current_bucket bucket_of store_bucket raised limit_of
count_request limits now k live =
    let b = current_bucket limits now k (bucket_of k live) in
    (
      judge limits now k b,
      (if leb (limit_of limits k.category) b.count then live else store_bucket (raised b) live),
    )

-- canActivate
unfoldable pub can_activate :
    RateLimits → ℕ → ApiRequest → List RateBucket → RateOutcome × List RateBucket
unfolding key_of count_request purge
can_activate limits now r buckets = of (key_of r)
  where
    of : Option RateKey → RateOutcome × List RateBucket
    of none = (unmarked, buckets)
    of (some k) = count_request limits now k (purge now buckets)
