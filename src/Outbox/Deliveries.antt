-- ===== src/Outbox/Deliveries.antt =====
-- What a flush counts.
use swar.Prelude.{
  ℕ, suc, Bool, List, [], ◌∷◌, ◌+◌, ◌||◌, ◌===◌, Result, ok, err, ◌≡◌, refl, arith, update_many,
  count_many, count_many_same, count_many_cleared, Result-cases, count_many-update_many, Bool-cases,
  inl, inr, ◌∙◌, ap, ◌==◌,
}
use swar.Domain.{AlertStatus, alert_status_eq}
use swar.Outbox.Alerts.{Alert, SecurityEvent}
use swar.Outbox.Repository.{
  OutboxError, lease_lost, claim_one, claim_all, claim_dispatchable, claimable, lease, held,
  delivered, failed, write_held, mark_delivered, mark_failed, find_candidates,
}
use swar.Outbox.Replay.{to_security_event}
use swar.Outbox.Flush.{
  OutboxLimits, OutboxState, after_failure, after_publish, flush_one, flush_all, flush, published,
  next,
}

abbrev pub is_delivered : Alert → Bool
is_delivered a = a.status === AlertStatus.delivered

pub deliveries : List Alert → ℕ
deliveries alerts = count_many is_delivered alerts

claims_deliver_nothing :
    (now ms : ℕ) (fresh : ℕ → ℕ) (k : ℕ) (candidates alerts : List Alert)
    → count_many is_delivered (claim_all now ms fresh k candidates alerts).0
      ≡ count_many is_delivered alerts
unfolding claim_all claim_one claimable lease
claims_deliver_nothing now ms fresh k [] alerts = refl
claims_deliver_nothing now ms fresh k (c ∷ cs) alerts =
    claims_deliver_nothing now ms fresh (suc k) cs (claim_one now ms (fresh k) c alerts).0
    ∙ count_many_same is_delivered (claimable now c) (lease (fresh k) (now + ms))
        (λ x h. ground arith) alerts

failures_deliver_nothing :
    (maximum base now : ℕ) (rec : Alert) (alerts : List Alert)
    → count_many is_delivered (mark_failed maximum base now rec alerts).1
      ≡ count_many is_delivered alerts
unfolding mark_failed write_held held failed
failures_deliver_nothing maximum base now rec alerts =
    count_many_same is_delivered (held rec) (failed maximum base now rec) (λ x h. ground arith)
      alerts

reports_deliver :
    (now : ℕ) (rec : Alert) (alerts : List Alert)
    → count_many is_delivered (mark_delivered now rec alerts).1
      ≡ count_many is_delivered alerts + count_many (held rec) alerts
unfolding mark_delivered write_held held delivered
reports_deliver now rec alerts =
    count_many-update_many is_delivered (held rec) (delivered now)
      (λ x h. (ground arith, ground arith)) alerts

no_longer_held :
    (now : ℕ) (rec : Alert) (alerts : List Alert)
    → count_many (held rec) (update_many (held rec) (delivered now) alerts) ≡ 0
unfolding held delivered
no_longer_held now rec alerts =
    count_many_cleared (held rec) (delivered now) (λ x h. ground arith) alerts

-- The table after a step that may throw, with as many more deliveries as the step returns.
abbrev Accounted : List Alert → Result OutboxError ℕ × List Alert → Type 0
Accounted alerts r =
    (n : ℕ) → r.0 ≡ ok n → count_many is_delivered r.1 ≡ count_many is_delivered alerts + n

module _ (limits : OutboxLimits) (now : ℕ) (publishes : SecurityEvent → Bool) where
  after_failure-Accounted :
      (rec : Alert) (alerts : List Alert)
      → Accounted alerts (after_failure limits now publishes rec alerts)
  unfolding after_failure mark_failed write_held
  after_failure-Accounted rec alerts n h = elim (Bool-cases (count_many (held rec) alerts == 1)) [
    | inl t ↦ ground (
      arith,
      failures_deliver_nothing limits.maximum_attempts limits.retry_base_ms now rec alerts,
    )
    | inr e ↦ ground arith
  ]

  refused_failure :
      (rec : Alert) (alerts : List Alert)
      → count_many (held rec) alerts ≡ 0
      → (after_failure limits now publishes rec alerts).0 ≡ err lease_lost
  unfolding after_failure mark_failed write_held
  refused_failure rec alerts h = rw h refl

  after_publish-Accounted :
      (rec : Alert) (alerts : List Alert)
      → Accounted alerts (after_publish limits now publishes rec alerts)
  unfolding after_publish mark_delivered write_held
  after_publish-Accounted rec alerts n h = elim (Bool-cases (count_many (held rec) alerts == 1)) [
    | inl t ↦ ground (arith, reports_deliver now rec alerts)
    | inr e ↦ ground (
      arith,
      refused_failure rec (update_many (held rec) (delivered now) alerts)
          (no_longer_held now rec alerts),
    )
  ]

  flush_one-Accounted :
      (rec : Alert) (alerts : List Alert)
      → Accounted alerts (flush_one limits now publishes rec alerts)
  unfolding flush_one
  flush_one-Accounted rec alerts =
      elim (Bool-cases (published publishes (to_security_event now rec))) [
        | inl t ↦ rw t (after_publish-Accounted rec alerts)
        | inr e ↦ rw e (after_failure-Accounted rec alerts)
      ]

  next-Accounted :
      (loop : List Alert → Result OutboxError ℕ × List Alert) (alerts : List Alert)
      (r : Result OutboxError ℕ × List Alert)
      → ((after : List Alert) → Accounted after (loop after))
      → Accounted alerts r
      → Accounted alerts (next limits now publishes loop r)
  next-Accounted loop alerts (err e, after) k j n h = cc
  next-Accounted loop alerts (ok m, after) k j n h = elim (Result-cases (loop after).0) [
    | inl x ↦ ground (arith, x.1, j m refl, k after x.0 x.1)
    | inr x ↦ ground (arith, x.1)
  ]

  flush_all-Accounted :
      (records alerts : List Alert)
      → Accounted alerts (flush_all limits now publishes records alerts)
  unfolding flush_all
  flush_all-Accounted [] alerts n h = ground arith
  flush_all-Accounted (rec ∷ records) alerts n h =
      next-Accounted (flush_all limits now publishes records) alerts
        (flush_one limits now publishes rec alerts) (flush_all-Accounted records)
        (flush_one-Accounted rec alerts) n h

  -- Whatever is published and whoever else holds a lease, a flush that returns a number has turned
  -- that many alerts of the table, and no other, into delivered ones.
  pub flush_counts_deliveries :
      (fresh : ℕ → ℕ) (s : OutboxState) (n : ℕ)
      → (flush limits now publishes fresh s).0 ≡ ok n
      → deliveries (flush limits now publishes fresh s).1.alerts ≡ deliveries s.alerts + n
  unfolding flush deliveries claim_dispatchable
  flush_counts_deliveries fresh s n = elim (Bool-cases (s.flushing || s.shutting_down)) [
    | inl t ↦ rw t (λ h. ground arith)
    | inr e ↦ rw e (λ h.
        flush_all-Accounted claimed.1 claimed.0 n h
        ∙ ap (λ k. k + n)
            (claims_deliver_nothing now limits.lease_ms fresh 0
              (find_candidates limits.batch_size limits.maximum_attempts now s.alerts) s.alerts))
  ]
    where
      claimed : List Alert × List Alert
      claimed =
          claim_dispatchable limits.batch_size limits.maximum_attempts limits.lease_ms fresh now
            s.alerts
