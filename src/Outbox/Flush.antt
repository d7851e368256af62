-- ===== src/Outbox/Flush.antt =====
-- backend/src/modules/security-events/security-event-outbox.service.ts: flush. What it awaits is a
-- parameter: whether the publisher takes the event of a record, and the clock, which stands still
-- for a flush. The telemetry and the log are left out.
use swar.Prelude.{ℕ, ◌+◌, Bool, false, List, [], ◌∷◌, ◌||◌, if◌then◌else◌, Result, ok, err}
use swar.Outbox.Alerts.{Alert, SecurityEvent}
use swar.Outbox.Repository.{OutboxError, claim_dispatchable, mark_delivered, mark_failed}
use swar.Outbox.Replay.{to_security_event}

-- `this.configuration.values.api`
pub record OutboxLimits : Type 0 where
  pub batch_size : ℕ
  pub maximum_attempts : ℕ
  pub lease_ms : ℕ
  pub retry_base_ms : ℕ

-- The service's own fields, and the table.
pub record OutboxState : Type 0 where
  pub flushing : Bool
  pub shutting_down : Bool
  pub alerts : List Alert

-- Publishing throws, or it does not.
abbrev pub published : (SecurityEvent → Bool) → Result OutboxError SecurityEvent → Bool
published publishes (ok e) = publishes e
published publishes (err x) = false

module _ (limits : OutboxLimits) (now : ℕ) (publishes : SecurityEvent → Bool) where
  -- The `catch` of a record: its error leaves the flush, its success goes on with the next.
  unfoldable pub after_failure : Alert → List Alert → Result OutboxError ℕ × List Alert
  unfolding mark_failed
  after_failure rec alerts =
      continue (mark_failed limits.maximum_attempts limits.retry_base_ms now rec alerts)
    where
      continue : Result OutboxError (Unit {0}) × List Alert → Result OutboxError ℕ × List Alert
      continue (ok _, after) = (ok 0, after)
      continue (err e, after) = (err e, after)

  -- The `try` after the event is published.
  unfoldable pub after_publish : Alert → List Alert → Result OutboxError ℕ × List Alert
  unfolding mark_delivered after_failure
  after_publish rec alerts = continue (mark_delivered now rec alerts)
    where
      continue : Result OutboxError (Unit {0}) × List Alert → Result OutboxError ℕ × List Alert
      continue (ok _, after) = (ok 1, after)
      continue (err e, after) = after_failure rec after

  -- One record: how many it delivers.
  unfoldable pub flush_one : Alert → List Alert → Result OutboxError ℕ × List Alert
  unfolding after_publish after_failure to_security_event
  flush_one rec alerts =
      if published publishes (to_security_event now rec)
      then after_publish rec alerts
      else after_failure rec alerts

  abbrev pub add_delivered : ℕ → Result OutboxError ℕ → Result OutboxError ℕ
  add_delivered n (ok m) = ok (n + m)
  add_delivered n (err e) = err e

  -- An error ends the loop over the claimed records.
  abbrev pub next :
      (List Alert → Result OutboxError ℕ × List Alert)
      → Result OutboxError ℕ × List Alert
      → Result OutboxError ℕ × List Alert
  next loop (err e, after) = (err e, after)
  next loop (ok n, after) = let (rest, final) = loop after in (add_delivered n rest, final)

  unfoldable pub flush_all : List Alert → List Alert → Result OutboxError ℕ × List Alert
  unfolding flush_one
  flush_all [] alerts = (ok 0, alerts)
  flush_all (rec ∷ records) alerts = next (λ after. flush_all records after) (flush_one rec alerts)

  -- `fresh k` is the k-th lease identifier of the claim.
  unfoldable pub flush : (ℕ → ℕ) → OutboxState → Result OutboxError ℕ × OutboxState
  unfolding claim_dispatchable flush_all
  flush fresh s =
      if s.flushing || s.shutting_down
      then (ok 0, s)
      else (let (after, records) =
            claim_dispatchable limits.batch_size limits.maximum_attempts limits.lease_ms fresh now
              s.alerts in
          let (result, final) = flush_all records after in
          (result, record s { flushing = false; alerts = final }))
