-- ===== src/Outbox/Attempts.antt =====
-- How often an alert is tried.
use swar.Prelude.{
  ℕ, suc, Bool, true, false, List, [], ◌∷◌, ◌+◌, ◌≤◌, ◌||◌, ◌==◌, ◌===◌, Result, ok, err, ◌≡◌, refl,
  arith, update_many, count_many, All-update_many, Bool-cases, inl, inr, All, keep, sort, All-sort,
  All-keep, All-take, take_nil, none, ltb,
}
use swar.Domain.{AlertStatus, alert_status_eq}
use swar.Outbox.Alerts.{Alert, SecurityEvent}
use swar.Outbox.Repository.{
  OutboxError, claim_one, claim_all, claim_dispatchable, claimable, lease, held, delivered, failed,
  write_held, mark_delivered, mark_failed, find_candidates, dispatchable, exhausted,
  dispatched_before,
}
use swar.Outbox.Replay.{to_security_event}
use swar.Outbox.Flush.{
  OutboxLimits, OutboxState, after_failure, after_publish, flush_one, flush_all, flush, published,
  next,
}

-- An alert is not tried more often than the maximum, a failed one was tried that often, and only a
-- pending one has a lease.
pub record IsWellKept (maximum : ℕ) (a : Alert) : Type 0 where
  pub attempts_bounded : a.attempt_count ≤ maximum
  pub failed_late : a.status ≡ AlertStatus.failed → maximum ≤ a.attempt_count
  pub lease_of_pending : (a.status === AlertStatus.pending) ≡ false → a.dispatch_lease_id ≡ none

module _ (maximum : ℕ) where
  lease-IsWellKept :
      (now lease_id at : ℕ) (c x : Alert)
      → ltb c.attempt_count maximum ≡ true
      → claimable now c x ≡ true
      → IsWellKept maximum x
      → IsWellKept maximum (lease lease_id at x)
  unfolding claimable lease
  lease-IsWellKept now l at c x h t w = record {
    attempts_bounded = ground arith;
    failed_late = λ e. ground arith;
    lease_of_pending = λ e. ground arith;
  }

  delivered-IsWellKept :
      (now : ℕ) (rec x : Alert) → IsWellKept maximum x → IsWellKept maximum (delivered now x)
  unfolding delivered
  delivered-IsWellKept now rec x w = record {
    attempts_bounded = w.attempts_bounded;
    failed_late = λ e. ground arith;
    lease_of_pending = λ e. refl;
  }

  failed-IsWellKept :
      (base now : ℕ) (rec x : Alert)
      → held rec x ≡ true
      → IsWellKept maximum x
      → IsWellKept maximum (failed maximum base now rec x)
  unfolding held failed exhausted
  failed-IsWellKept base now rec x t w = record {
    attempts_bounded = w.attempts_bounded;
    failed_late = λ e. ground arith;
    lease_of_pending = λ e. refl;
  }

  claims-IsWellKept :
      (now ms : ℕ) (fresh : ℕ → ℕ) (k : ℕ) (candidates alerts : List Alert)
      → All (λ c. ltb c.attempt_count maximum ≡ true) candidates
      → All (IsWellKept maximum) alerts
      → All (IsWellKept maximum) (claim_all now ms fresh k candidates alerts).0
  unfolding claim_all claim_one
  claims-IsWellKept now ms fresh k [] alerts h w = w
  claims-IsWellKept now ms fresh k (c ∷ cs) alerts h w =
      claims-IsWellKept now ms fresh (suc k) cs _ h.1 (
        All-update_many (IsWellKept maximum) (claimable now c) (lease (fresh k) (now + ms))
          (λ x. lease-IsWellKept now (fresh k) (now + ms) c x h.0) alerts w)

  candidates_dispatchable :
      (limit now : ℕ) (alerts : List Alert)
      → All (λ c. ltb c.attempt_count maximum ≡ true) (find_candidates limit maximum now alerts)
  unfolding find_candidates dispatchable
  candidates_dispatchable limit now alerts = All-take _ limit _ (
      All-sort _ dispatched_before _
        (All-keep _ (dispatchable maximum now) (λ x t. ground arith) alerts))

module _ (limits : OutboxLimits) (now : ℕ) (publishes : SecurityEvent → Bool) where
  abbrev Kept : List Alert → Type 0
  Kept = All (IsWellKept limits.maximum_attempts)

  after_failure-Kept :
      (rec : Alert) (alerts : List Alert)
      → Kept alerts
      → Kept (after_failure limits now publishes rec alerts).1
  unfolding after_failure mark_failed write_held
  after_failure-Kept rec alerts w = elim (Bool-cases (count_many (held rec) alerts == 1)) [
    | inl t ↦ rw t failed_rows
    | inr e ↦ rw e failed_rows
  ]
    where
      failed_rows : Kept (
          update_many
            (held rec)
            (failed limits.maximum_attempts limits.retry_base_ms now rec)
            alerts)
      failed_rows =
          All-update_many (IsWellKept limits.maximum_attempts) (held rec)
            (failed limits.maximum_attempts limits.retry_base_ms now rec)
            (failed-IsWellKept limits.maximum_attempts limits.retry_base_ms now rec) alerts w

  after_publish-Kept :
      (rec : Alert) (alerts : List Alert)
      → Kept alerts
      → Kept (after_publish limits now publishes rec alerts).1
  unfolding after_publish mark_delivered write_held
  after_publish-Kept rec alerts w = elim (Bool-cases (count_many (held rec) alerts == 1)) [
    | inl t ↦ rw t delivered_rows
    | inr e ↦ rw e (after_failure-Kept rec _ delivered_rows)
  ]
    where
      delivered_rows : Kept (update_many (held rec) (delivered now) alerts)
      delivered_rows =
          All-update_many (IsWellKept limits.maximum_attempts) (held rec) (delivered now)
            (λ x t. delivered-IsWellKept limits.maximum_attempts now rec x) alerts w

  flush_one-Kept :
      (rec : Alert) (alerts : List Alert)
      → Kept alerts
      → Kept (flush_one limits now publishes rec alerts).1
  unfolding flush_one
  flush_one-Kept rec alerts w =
      elim (Bool-cases (published publishes (to_security_event now rec))) [
        | inl t ↦ rw t (after_publish-Kept rec alerts w)
        | inr e ↦ rw e (after_failure-Kept rec alerts w)
      ]

  next-Kept :
      (loop : List Alert → Result OutboxError ℕ × List Alert)
      (r : Result OutboxError ℕ × List Alert)
      → ((after : List Alert) → Kept after → Kept (loop after).1)
      → Kept r.1
      → Kept (next limits now publishes loop r).1
  next-Kept loop (err e, after) k w = w
  next-Kept loop (ok m, after) k w = k after w

  flush_all-Kept :
      (records alerts : List Alert)
      → Kept alerts
      → Kept (flush_all limits now publishes records alerts).1
  unfolding flush_all
  flush_all-Kept [] alerts w = w
  flush_all-Kept (rec ∷ records) alerts w =
      next-Kept (flush_all limits now publishes records) (flush_one limits now publishes rec alerts)
        (flush_all-Kept records) (flush_one-Kept rec alerts w)

  -- A flush, whether it returns or throws, keeps it so that no alert is tried more often than the
  -- maximum, that an alert fails only after that many attempts, and that only a pending alert has a
  -- lease.
  pub flush_keeps_attempts :
      (fresh : ℕ → ℕ) (s : OutboxState)
      → All (IsWellKept limits.maximum_attempts) s.alerts
      → All (IsWellKept limits.maximum_attempts) (flush limits now publishes fresh s).1.alerts
  unfolding flush claim_dispatchable
  flush_keeps_attempts fresh s w = elim (Bool-cases (s.flushing || s.shutting_down)) [
    | inl t ↦ rw t w
    | inr e ↦ rw e (
        flush_all-Kept
          (claim_dispatchable limits.batch_size limits.maximum_attempts limits.lease_ms fresh now
            s.alerts).1
          _
          (claims-IsWellKept limits.maximum_attempts now limits.lease_ms fresh 0 _ s.alerts
            (candidates_dispatchable limits.maximum_attempts limits.batch_size now s.alerts) w))
  ]

  none_dispatchable :
      (alerts : List Alert)
      → All (λ a. limits.maximum_attempts ≤ a.attempt_count) alerts
      → keep (dispatchable limits.maximum_attempts now) alerts ≡ []
  unfolding dispatchable
  none_dispatchable [] h = refl
  none_dispatchable (a ∷ alerts) h = ground (arith, none_dispatchable alerts h.1)

  -- Where every alert was tried as often as the maximum, a flush delivers nothing and changes
  -- nothing: an alert that is pending after its last attempt stays so.
  pub last_attempt_lost :
      (fresh : ℕ → ℕ) (s : OutboxState)
      → All (λ a. limits.maximum_attempts ≤ a.attempt_count) s.alerts
      → ((flush limits now publishes fresh s).0 ≡ ok 0)
        × ((flush limits now publishes fresh s).1.alerts ≡ s.alerts)
  unfolding flush claim_dispatchable find_candidates claim_all flush_all sort
  last_attempt_lost fresh s h = elim (Bool-cases (s.flushing || s.shutting_down)) [
    | inl t ↦ rw t (refl, refl)
    | inr e ↦ rw (e, none_dispatchable s.alerts h, take_nil limits.batch_size) (refl, refl)
  ]
