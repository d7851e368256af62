-- ===== src/Common/Alone.antt =====
-- The guard keeps for each key what one bucket alone would keep for it.
use swar.Prelude.{
  ℕ, Bool, true, false, List, [], ◌∷◌, ◌&&◌, ◌≤◌, not, Option, none, some, String, leb, ◌==◌,
  if◌then◌else◌, keep, string_eq, ◌≡◌, refl, sym, ap, arith, inl, inr, Bool-cases, ◌∙◌, find-passes,
  subst, eq_iff,
}
use swar.Common.RateLimit.{
  RateCategory, category_index, RateLimits, ApiRequest, RateKey, RateBucket, RateOutcome, same_key,
  limit_of, key_of, purge, bucket_of, current_bucket, store_bucket, raised, judge, count_request,
  can_activate,
}

abbrev pub TimedApiRequest : Type 0
TimedApiRequest = ℕ × ApiRequest

-- One bucket for one key, which nothing is purged from.
unfoldable pub alone :
    RateLimits → RateKey → ℕ → Option RateBucket → RateOutcome × Option RateBucket
unfolding current_bucket judge raised
alone limits k now b =
    let c = current_bucket limits now k b in
    (
      judge limits now k c,
      (if leb (limit_of limits k.category) c.count then b else some (raised c)),
    )

unfoldable pub alone_outcomes : RateLimits → RateKey → List ℕ → Option RateBucket → List RateOutcome
unfolding alone
alone_outcomes limits k [] b = []
alone_outcomes limits k (now ∷ times) b =
    let step = alone limits k now b in step.0 ∷ alone_outcomes limits k times step.1

abbrev pub asks_for : RateKey → ApiRequest → Bool
asks_for k r = of (key_of r)
  where
    of : Option RateKey → Bool
    of none = false
    of (some j) = same_key j k

-- The times of the requests of a key.
unfoldable pub times_of : RateKey → List TimedApiRequest → List ℕ
times_of k [] = []
times_of k ((now, r) ∷ requests) =
    let rest = times_of k requests in if asks_for k r then now ∷ rest else rest

-- What the guard answers to them, among all others.
unfoldable pub outcomes_of :
    RateLimits → RateKey → List TimedApiRequest → List RateBucket → List RateOutcome
unfolding can_activate
outcomes_of limits k [] buckets = []
outcomes_of limits k ((now, r) ∷ requests) buckets =
    let step = can_activate limits now r buckets in
    let rest = outcomes_of limits k requests step.1 in if asks_for k r then step.0 ∷ rest else rest

-- The requests come in the order of time, from a time on.
unfoldable pub IsFrom : ℕ → List TimedApiRequest → Type 0
IsFrom t [] = Unit
IsFrom t ((now, r) ∷ requests) = (t ≤ now) × IsFrom now requests

category-equal : (a b : RateCategory) → (category_index a == category_index b) ≡ true → a ≡ b
category-equal a b h = ground arith

pub both : (a b : Bool) → (a && b) ≡ true → (a ≡ true) × (b ≡ true)
both a b h = ground arith

rate_key : RateCategory → String → String → String → RateKey
rate_key c s m p = record { category = c; subject = s; key_method = m; key_path = p }

pub same_key_equal : (a b : RateKey) → same_key a b ≡ true → a ≡ b
unfolding same_key rate_key
same_key_equal a b h =
    let c = both _ _ h in
    let s = both _ _ c.1 in
    let m = both _ _ s.1 in
    let ec = category-equal a.category b.category c.0 in
    let es = (eq_iff a.subject b.subject).0 s.0 in
    let em = (eq_iff a.key_method b.key_method).0 m.0 in
    let ep = (eq_iff a.key_path b.key_path).0 m.1 in
    ap (λ c. rate_key c a.subject a.key_method a.key_path) ec
    ∙ ap (λ s. rate_key b.category s a.key_method a.key_path) es
    ∙ ap (λ m. rate_key b.category b.subject m a.key_path) em
    ∙ ap (λ p. rate_key b.category b.subject b.key_method p) ep

same_key_refl : (a : RateKey) → same_key a a ≡ true
unfolding same_key
same_key_refl a =
    let s = (eq_iff a.subject a.subject).1 refl in
    let m = (eq_iff a.key_method a.key_method).1 refl in
    let p = (eq_iff a.key_path a.key_path).1 refl in rw (s, m, p) (ground arith)

keep_weaker :
    {A : Type 0} (p q : A → Bool)
    → ((x : A) → p x ≡ true → q x ≡ true)
    → (xs : List A) → keep p (keep q xs) ≡ keep p xs
keep_weaker p q h [] = refl
keep_weaker p q h (x ∷ xs) = ground (arith, h x, keep_weaker p q h xs)

pub purge-purge :
    (t now : ℕ) (bs : List RateBucket) → t ≤ now → purge now (purge t bs) ≡ purge now bs
unfolding purge
purge-purge t now bs h = keep_weaker _ _ (λ b k. ground arith) bs

-- What is left of a bucket at a time.
unfoldable pub live : ℕ → Option RateBucket → Option RateBucket
live now none = none
live now (some b) = if leb b.resets_at now then none else some b

find_others :
    (k j : RateKey) (now : ℕ) (bs : List RateBucket)
    → same_key j k ≡ false
    → bucket_of k (purge now (keep (λ x. not (same_key x.bucket_key j)) bs))
      ≡ bucket_of k (purge now bs)
unfolding bucket_of purge
find_others k j now [] e = refl
find_others k j now (b ∷ bs) e = elim (Bool-cases (same_key b.bucket_key j)) [
  | inl t ↦
      (let other = subst (λ x. same_key x k ≡ false) (sym (same_key_equal b.bucket_key j t)) e in
        ground (arith, t, other, find_others k j now bs e))
  | inr n ↦ rw n (ground (arith, find_others k j now bs e))
]

find_own :
    (k : RateKey) (now : ℕ) (bs : List RateBucket)
    → bucket_of k (purge now (keep (λ x. not (same_key x.bucket_key k)) bs)) ≡ none
unfolding bucket_of purge
find_own k now [] = refl
find_own k now (b ∷ bs) = ground (arith, find_own k now bs)

stored_other :
    (k : RateKey) (now : ℕ) (b : RateBucket) (bs : List RateBucket)
    → same_key b.bucket_key k ≡ false
    → bucket_of k (purge now (store_bucket b bs)) ≡ bucket_of k (purge now bs)
unfolding store_bucket bucket_of purge
stored_other k now b bs e = ground (arith, e, find_others k b.bucket_key now bs e)

stored_own :
    (now : ℕ) (b : RateBucket) (bs : List RateBucket)
    → bucket_of b.bucket_key (purge now (store_bucket b bs)) ≡ live now (some b)
unfolding store_bucket bucket_of purge live
stored_own now b bs = ground (arith, same_key_refl b.bucket_key, find_own b.bucket_key now bs)

-- From a time on, the table has for a key what one bucket alone would have.
abbrev pub Agrees : RateKey → ℕ → List RateBucket → Option RateBucket → Type 0
Agrees k t buckets b = (now : ℕ) → t ≤ now → bucket_of k (purge now buckets) ≡ live now b

current-live :
    (limits : RateLimits) (now : ℕ) (k : RateKey) (b : Option RateBucket)
    → current_bucket limits now k (live now b) ≡ current_bucket limits now k b
unfolding current_bucket live
current-live limits now k none = refl
current-live limits now k (some b) = ground arith

pub current-key :
    (limits : RateLimits) (now : ℕ) (k : RateKey) (found : Option RateBucket)
    → ((b : RateBucket) → found ≡ some b → same_key b.bucket_key k ≡ true)
    → (current_bucket limits now k found).bucket_key ≡ k
unfolding current_bucket
current-key limits now k none h = refl
current-key limits now k (some b) h = ground (arith, same_key_equal b.bucket_key k (h b refl))

found_passes :
    (k : RateKey) (bs : List RateBucket) (b : RateBucket)
    → bucket_of k bs ≡ some b
    → same_key b.bucket_key k ≡ true
unfolding bucket_of
found_passes k bs b e = find-passes (λ b. same_key b.bucket_key k) bs b e

module _ (limits : RateLimits) (k : RateKey) where
  -- A request of the key itself is answered as by the bucket alone.
  pub own_step :
      (t now : ℕ) (buckets : List RateBucket) (b : Option RateBucket)
      → t ≤ now
      → Agrees k t buckets b
      → ((count_request limits now k (purge now buckets)).0 ≡ (alone limits k now b).0)
        × Agrees k now (count_request limits now k (purge now buckets)).1 (alone limits k now b).1
  unfolding count_request alone raised
  own_step t now buckets b l h =
      let found = h now l in
      let same = ap (current_bucket limits now k) found ∙ current-live limits now k b in
      (
        ap (judge limits now k) same,
        (λ later m.
            rw same
              (elim (Bool-cases
                (leb (limit_of limits k.category) (current_bucket limits now k b).count)) [
                  | inl full ↦ rw full (purge-same later m)
                  | inr free ↦ rw free (stored-at later)
                ])),
      )
    where
      counted : RateBucket
      counted = current_bucket limits now k b

      counted-key : counted.bucket_key ≡ k
      counted-key =
          subst (λ c. c.bucket_key ≡ k)
            (ap (current_bucket limits now k) (h now l) ∙ current-live limits now k b)
            (current-key limits now k (bucket_of k (purge now buckets))
              (λ x e. found_passes k (purge now buckets) x e))

      stored-at :
          (later : ℕ)
          → bucket_of k (purge later (store_bucket (raised counted) (purge now buckets)))
            ≡ live later (some (raised counted))
      stored-at later =
          subst
            (λ j.
              bucket_of j (purge later (store_bucket (raised counted) (purge now buckets)))
              ≡ live later (some (raised counted)))
            counted-key (stored_own later (raised counted) (purge now buckets))

      purge-same :
          (later : ℕ) → now ≤ later → bucket_of k (purge later (purge now buckets)) ≡ live later b
      purge-same later m =
          ap (bucket_of k) (purge-purge now later buckets m) ∙ h later (omega (arith, l, m))

  -- A request of another key, or of none, leaves it to agree.
  pub other_step :
      (t now : ℕ) (j : RateKey) (buckets : List RateBucket) (b : Option RateBucket)
      → t ≤ now
      → same_key j k ≡ false
      → Agrees k t buckets b
      → Agrees k now (count_request limits now j (purge now buckets)).1 b
  unfolding count_request raised
  other_step t now j buckets b l e h later m =
      elim (Bool-cases (leb (limit_of limits j.category) counted.count)) [
        | inl full ↦ rw full purge-same
        | inr free ↦
            rw free (stored_other k later (raised counted) (purge now buckets) other ∙ purge-same)
      ]
    where
      counted : RateBucket
      counted = current_bucket limits now j (bucket_of j (purge now buckets))

      other : same_key counted.bucket_key k ≡ false
      other =
          subst (λ x. same_key x k ≡ false)
            (sym (
              current-key limits now j (bucket_of j (purge now buckets))
                (λ x e. found_passes j (purge now buckets) x e)))
            e

      purge-same : bucket_of k (purge later (purge now buckets)) ≡ live later b
      purge-same =
          ap (bucket_of k) (purge-purge now later buckets m) ∙ h later (omega (arith, l, m))
