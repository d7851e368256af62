-- ===== src/Tests/Common.antt =====
-- Runs of the request limiter and of the idempotent execution, and the theorems on them applied there.
use swar.Prelude.{
  ℕ, true, List, [], ◌∷◌, ◌++◌, ◌≤◌, ◌*◌, none, some, ok, ◌≡◌, refl, arith, String, count_many,
}
use swar.Risk.Json.{Json, str, obj, end, field}
use swar.Common.RateLimit.{
  mutation, RateLimits, ApiRequest, RateKey, allowed, rate_limited, limit_of,
}
use swar.Common.Alone.{TimedApiRequest, alone_outcomes, times_of, outcomes_of, IsFrom}
use swar.Common.Windows.{purge_unseen, is_allowed, buckets_after, window_bounded}
use swar.Common.Responses.{is_safe, is_sensitive}
use swar.Common.Idempotency.{IdempotencyInput, started, awaiting, replayed, Entries, begin, settle}
use swar.Common.Stored.{IdempotencyStep, calls, entries_after}
use swar.Common.Once.{new_entry, executed_once, answer_under}

abbrev two_each : RateLimits
two_each = record {
  sensitive_maximum = 2;
  mutation_maximum = 2;
  query_maximum = 1;
  window_seconds = 60;
}

abbrev post_from : String → ApiRequest
post_from address = record {
  marked = some mutation;
  membership = none;
  ip = some address;
  method = "POST";
  path = "/calls";
}

abbrev post_key : RateKey
post_key = record {
  category = mutation;
  subject = "10.0.0.1";
  key_method = "POST";
  key_path = "/calls";
}

abbrev four_posts : List TimedApiRequest
four_posts =
    (10, post_from "10.0.0.1")
    ∷ (20, post_from "10.0.0.2")
    ∷ (30, post_from "10.0.0.1")
    ∷ (40, post_from "10.0.0.1")
    ∷ []

third_refused :
    outcomes_of two_each post_key four_posts []
    ≡ allowed 2 1 60010 ∷ allowed 2 0 60010 ∷ rate_limited 60 ∷ []
unfolding outcomes_of
third_refused = refl

four_posts-IsFrom : IsFrom 0 four_posts
unfolding IsFrom
four_posts-IsFrom = (omega arith, (omega arith, (omega arith, (omega arith, tt))))

purge_unseen_example :
    outcomes_of two_each post_key four_posts []
    ≡ alone_outcomes two_each post_key (times_of post_key four_posts) none
purge_unseen_example = purge_unseen two_each post_key four_posts four_posts-IsFrom

abbrev later_posts : List TimedApiRequest
later_posts = (60000, post_from "10.0.0.1") ∷ (60020, post_from "10.0.0.1") ∷ []

posts-IsFrom : IsFrom 0 (four_posts ++ later_posts)
unfolding IsFrom
posts-IsFrom =
    (omega arith, (omega arith, (omega arith, (omega arith, (omega arith, (omega arith, tt))))))

window_bounded_example :
    count_many is_allowed
      (outcomes_of two_each post_key later_posts (buckets_after two_each four_posts []))
    ≤ 2 * limit_of two_each mutation
window_bounded_example =
    window_bounded two_each post_key 1000 four_posts later_posts posts-IsFrom
      ((omega arith, omega arith), ((omega arith, omega arith), tt))

abbrev first_input : IdempotencyInput
first_input = record { scope = "livekit-webhook"; key = "event-0001"; payload = 7 }

abbrev second_input : IdempotencyInput
second_input = record { scope = "livekit-webhook"; key = "event-0002"; payload = 8 }

abbrev response : Json ℕ
response = obj (field "status" (str "accepted") end)

sensitive_field : is_sensitive "grantToken" ≡ true
unfolding is_sensitive
sensitive_field = refl

abbrev started_entries : Entries ℕ
started_entries = new_entry 5 60 first_input 1000 ∷ []

first_started : begin 5 60 1000 first_input [] ≡ (ok started, started_entries)
unfolding begin new_entry
first_started = refl

response_safe : is_safe response ≡ true
unfolding is_safe
response_safe = refl

abbrev other_call : List (IdempotencyStep ℕ)
other_call = calls 2000 second_input ∷ []

executed_once_example :
    (answer_under 5 60 first_input 3000 7 (entries_after 5 60 other_call started_entries)
      ≡ ok awaiting)
    × (answer_under 5 60 first_input 5000 7 (
          entries_after 5 60 other_call
            (settle
              (new_entry 5 60 first_input 1000)
              (ok response)
              (entries_after 5 60 other_call started_entries)).1)
        ≡ ok (replayed response))
executed_once_example =
    executed_once 5 60 first_input 1000 7 3000 5000 [] started_entries response other_call
      other_call first_started (tt, tt) (tt, tt) response_safe (omega arith, tt) (omega arith)
