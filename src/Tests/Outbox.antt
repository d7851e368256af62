-- ===== src/Tests/Outbox.antt =====
-- Runs of the outbox, and its theorems at concrete tables.
use swar.Prelude.{
  ◌≡◌, ◌≤◌, ◌+◌, refl, true, false, [], ◌∷◌, none, some, All, ok, err, String, arith, count_many,
}
use swar.Domain.{AlertStatus}
use swar.Risk.Types.{RiskState}
use swar.Outbox.Alerts.{
  Alert, AlertChannel, SecurityControlMode, RiskEventRow, is_security_event_id,
}
use swar.Outbox.Repository.{claim_one, mark_delivered, lease_lost, claimed_record, retry_delay}
use swar.Outbox.Replay.{replay, ReplayResult, complete, event_of}
use swar.Outbox.Flush.{OutboxLimits, OutboxState, flush}
use swar.Outbox.Leases.{same_id, newest_holder_writes}
use swar.Outbox.Deliveries.{deliveries, flush_counts_deliveries}
use swar.Outbox.Attempts.{IsWellKept, flush_keeps_attempts, last_attempt_lost}
use swar.Outbox.Scope.{InScope, replay-InScope}

abbrev an_id : String
an_id = "evt_0123456789abcdef0123456789abcdef0123456789abcdef0123456789abcdef"

abbrev a_risk_event : RiskEventRow
a_risk_event = record {
  event_key = 40;
  event_organization = 1;
  event_call = 20;
  event_mode = SecurityControlMode.demo;
  occurred_at = 90;
  state = RiskState.critical;
  transition_reason_code = "CHANGED";
  policy_version = "1";
}

abbrev an_alert : Alert
an_alert = record {
  id = 5;
  organization_id = 1;
  call_id = 20;
  risk_event_id = 40;
  channel = AlertChannel.security_websocket;
  status = AlertStatus.pending;
  mode = SecurityControlMode.demo;
  event_type = "risk.state.changed";
  schema_version = "1.0.0";
  external_event_id = some an_id;
  attempt_count = 0;
  next_attempt_at = none;
  dispatch_lease_id = none;
  dispatch_lease_expires_at = none;
  delivered_at = none;
  acknowledged_at = none;
  acknowledged_by = none;
  failure_code = none;
  created_at = 95;
  risk_event = a_risk_event;
  intervention = none;
}

abbrev other_alert : Alert
other_alert = record an_alert { id = 6; event_type = "unknown" }

-- Tried as often as it may be, by a worker whose lease 3 has run out.
abbrev abandoned : Alert
abandoned = record an_alert {
  attempt_count = 3;
  dispatch_lease_id = some 3;
  dispatch_lease_expires_at = some 80;
}

abbrev delivered_alert : Alert
delivered_alert = record an_alert { status = AlertStatus.delivered; delivered_at = some 99 }

-- The record of a worker whose lease 3 ran out before its second attempt.
abbrev stale : Alert
stale = record an_alert {
  attempt_count = 1;
  dispatch_lease_id = some 3;
  dispatch_lease_expires_at = some 80;
}

abbrev limits : OutboxLimits
limits = record { batch_size = 10; maximum_attempts = 3; lease_ms = 50; retry_base_ms = 1000 }

abbrev outbox : OutboxState
outbox = record { flushing = false; shutting_down = false; alerts = an_alert ∷ other_alert ∷ [] }

abbrev lost_outbox : OutboxState
lost_outbox = record { flushing = false; shutting_down = false; alerts = abandoned ∷ [] }

an_id_valid : is_security_event_id an_id ≡ true
unfolding is_security_event_id
an_id_valid = refl

-- The fourth attempt waits eight times as long as the first.
fourth_retry : retry_delay 1000 4 ≡ 8000
unfolding retry_delay
fourth_retry = refl

-- One event is published; the row with an unknown event type is put off.
one_flush : (flush limits 100 (λ e. true) (λ k. 70 + k) outbox).0 ≡ ok 1
unfolding flush
one_flush = refl

one_row : count_many (same_id 5) (stale ∷ other_alert ∷ []) ≤ 1
unfolding count_many
one_row = omega arith

second_holder :
    (claim_one 100 50 7 stale (stale ∷ other_alert ∷ [])).1 ≡ some (claimed_record 7 150 stale)
unfolding claim_one claimed_record
second_holder = refl

newest_holder_writes_example :
    mark_delivered 120 stale (claim_one 100 50 7 stale (stale ∷ other_alert ∷ [])).0
    ≡ (err lease_lost, (claim_one 100 50 7 stale (stale ∷ other_alert ∷ [])).0)
newest_holder_writes_example =
    ((newest_holder_writes 100 50 7 stale (stale ∷ other_alert ∷ []) (claimed_record 7 150 stale)
        one_row second_holder 120).1
      stale refl refl 3 1000).0

flush_counts_deliveries_example :
    deliveries (flush limits 100 (λ e. true) (λ k. 70 + k) outbox).1.alerts
    ≡ deliveries outbox.alerts + 1
flush_counts_deliveries_example =
    flush_counts_deliveries limits 100 (λ e. true) (λ k. 70 + k) outbox 1 one_flush

well_kept : (a : Alert) → a.attempt_count ≤ 3 → a.status ≡ AlertStatus.pending → IsWellKept 3 a
well_kept a b p = record {
  attempts_bounded = b;
  failed_late = λ e. ground arith;
  lease_of_pending = λ e. ground arith;
}

flush_keeps_attempts_example :
    All (IsWellKept 3) (flush limits 100 (λ e. false) (λ k. 70 + k) outbox).1.alerts
flush_keeps_attempts_example =
    flush_keeps_attempts limits 100 (λ e. false) (λ k. 70 + k) outbox
      (well_kept an_alert (omega arith) refl, (well_kept other_alert (omega arith) refl, tt))

last_attempt_lost_example :
    ((flush limits 100 (λ e. true) (λ k. 70 + k) lost_outbox).0 ≡ ok 0)
    × ((flush limits 100 (λ e. true) (λ k. 70 + k) lost_outbox).1.alerts ≡ abandoned ∷ [])
last_attempt_lost_example =
    last_attempt_lost limits 100 (λ e. true) (λ k. 70 + k) lost_outbox (omega arith, tt)

abbrev earlier : Alert
earlier = record delivered_alert {
  id = 4;
  created_at = 90;
  external_event_id = some "evt_fedcba9876543210fedcba9876543210fedcba9876543210fedcba9876543210";
}

abbrev an_answer : ReplayResult
an_answer = record {
  status = complete;
  events = event_of delivered_alert an_id ∷ [];
  oldest_available = earlier.external_event_id;
  latest_available = some an_id;
}

one_replay :
    replay 200 1 (20 ∷ []) earlier.external_event_id 10 (delivered_alert ∷ earlier ∷ an_alert ∷ [])
    ≡ ok an_answer
unfolding replay event_of
one_replay = refl

replay-InScope_example : All (InScope 1 (20 ∷ [])) an_answer.events
replay-InScope_example =
    replay-InScope 1 (20 ∷ []) 200 earlier.external_event_id 10
      (delivered_alert ∷ earlier ∷ an_alert ∷ []) an_answer one_replay
