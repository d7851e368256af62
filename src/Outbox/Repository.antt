-- ===== src/Outbox/Repository.antt =====
-- backend/src/modules/security-events/security-event-outbox.repository.ts, method by method, on the
-- table of alerts. A time, a fresh identifier and what a reader saw earlier are arguments.
use swar.Prelude.{
  ℕ, suc, ◌+◌, ◌-◌, ◌*◌, ◌^◌, Bool, true, false, List, [], ◌∷◌, ◌&&◌, ◌||◌, not, Option, none, some,
  ltb, leb, ◌==◌, ◌===◌, if◌then◌else◌, keep, take, sort, string_eq, nat_eq, update_many,
  count_many, Result, throw_if,
}
use swar.Domain.{AlertStatus, alert_status_eq}
use swar.Outbox.Alerts.{Alert, is_websocket, control_mode_eq, retry_exhausted, retry_scheduled}

pub data OutboxError : Type 0 where
  lease_lost : OutboxError  -- PersistenceConflictError
  record_invalid : OutboxError
  cursor_invalid : OutboxError
  event_not_found : OutboxError  -- TenantResourceNotFoundError

-- `{ OR: [{ at: null }, { at: { lte: now } }] }`
abbrev pub null_or_past : ℕ → Option ℕ → Bool
null_or_past now none = true
null_or_past now (some at) = leb at now

abbrev pub past : ℕ → Option ℕ → Bool
past now none = false
past now (some at) = leb at now

abbrev pub is_null {ℓ} : {A : Type ℓ} → Option A → Bool
is_null none = true
is_null (some a) = false

-- Nobody holds the row: it has no lease, or one that has run out.
abbrev pub lease_free : ℕ → Alert → Bool
lease_free now a = is_null a.dispatch_lease_id || past now a.dispatch_lease_expires_at

unfoldable pub dispatchable : ℕ → ℕ → Alert → Bool
dispatchable maximum_attempts now a =
    is_websocket a.channel
    && (a.status === AlertStatus.pending
        && (ltb a.attempt_count maximum_attempts
            && (null_or_past now a.next_attempt_at && lease_free now a)))

-- Ascending, with NULL last.
abbrev pub compare_times : Option ℕ → Option ℕ → Bool → Bool
compare_times none none rest = rest
compare_times none (some b) rest = false
compare_times (some a) none rest = true
compare_times (some a) (some b) rest = if a == b then rest else ltb a b

-- `orderBy: [{ nextAttemptAt: 'asc' }, { createdAt: 'asc' }, { id: 'asc' }]`
abbrev pub dispatched_before : Alert → Alert → Bool
dispatched_before a b =
    compare_times a.next_attempt_at b.next_attempt_at
      (if a.created_at == b.created_at then ltb a.id b.id else ltb a.created_at b.created_at)

unfoldable pub find_candidates : ℕ → ℕ → ℕ → List Alert → List Alert
unfolding dispatchable sort
find_candidates limit maximum_attempts now alerts =
    take limit (sort dispatched_before (keep (dispatchable maximum_attempts now) alerts))

-- The row that the claim of a candidate still finds.
unfoldable pub claimable : ℕ → Alert → Alert → Bool
claimable now candidate a =
    a.id == candidate.id
    && (a.organization_id == candidate.organization_id
        && (a.status === AlertStatus.pending
            && (a.attempt_count == candidate.attempt_count && lease_free now a)))

unfoldable pub lease : ℕ → ℕ → Alert → Alert
lease lease_id expires_at a = record a {
  attempt_count = a.attempt_count + 1;
  dispatch_lease_id = some lease_id;
  dispatch_lease_expires_at = some expires_at;
  next_attempt_at = none;
  failure_code = none;
}

-- What the caller gets is the candidate as it was read, with the new attempt and lease.
unfoldable pub claimed_record : ℕ → ℕ → Alert → Alert
claimed_record lease_id expires_at candidate = record candidate {
  attempt_count = candidate.attempt_count + 1;
  dispatch_lease_id = some lease_id;
  dispatch_lease_expires_at = some expires_at;
}

-- One round of the loop over the candidates.
unfoldable pub claim_one : ℕ → ℕ → ℕ → Alert → List Alert → List Alert × Option Alert
unfolding claimable lease claimed_record update_many count_many
claim_one now lease_ms lease_id candidate alerts = (
  update_many (claimable now candidate) (lease lease_id (now + lease_ms)) alerts,
  (if count_many (claimable now candidate) alerts == 1
      then some (claimed_record lease_id (now + lease_ms) candidate)
      else none),
)

abbrev pub push_claimed : Option Alert → List Alert → List Alert
push_claimed none claimed = claimed
push_claimed (some a) claimed = a ∷ claimed

-- `fresh k` is the k-th random identifier.
unfoldable pub claim_all : ℕ → ℕ → (ℕ → ℕ) → ℕ → List Alert → List Alert → List Alert × List Alert
unfolding claim_one
claim_all now lease_ms fresh k [] alerts = (alerts, [])
claim_all now lease_ms fresh k (candidate ∷ candidates) alerts =
    let (after, claimed) = claim_one now lease_ms (fresh k) candidate alerts in
    let (final, rest) = claim_all now lease_ms fresh (suc k) candidates after in
    (final, push_claimed claimed rest)

unfoldable pub claim_dispatchable : ℕ → ℕ → ℕ → (ℕ → ℕ) → ℕ → List Alert → List Alert × List Alert
unfolding claim_all find_candidates
claim_dispatchable limit maximum_attempts lease_ms fresh now alerts =
    claim_all now lease_ms fresh 0 (find_candidates limit maximum_attempts now alerts) alerts

abbrev pub same_lease : Option ℕ → Option ℕ → Bool
same_lease none none = true
same_lease (some a) (some b) = a == b
same_lease _ _ = false

-- The row that the holder of a claimed record still holds.
unfoldable pub held : Alert → Alert → Bool
held rec a =
    a.id == rec.id
    && (a.organization_id == rec.organization_id
        && (a.status === AlertStatus.pending
            && (a.attempt_count == rec.attempt_count
                && same_lease a.dispatch_lease_id rec.dispatch_lease_id)))

unfoldable pub delivered : ℕ → Alert → Alert
delivered now a = record a {
  status = AlertStatus.delivered;
  delivered_at = some now;
  dispatch_lease_id = none;
  dispatch_lease_expires_at = none;
  next_attempt_at = none;
}

-- A write of a holder throws unless it met exactly one row; what it wrote stays written.
unfoldable pub write_held :
    (Alert → Alert) → Alert → List Alert → Result OutboxError (Unit {0}) × List Alert
unfolding held update_many count_many
write_held f rec alerts =
    (throw_if (not (count_many (held rec) alerts == 1)) lease_lost, update_many (held rec) f alerts)

unfoldable pub mark_delivered : ℕ → Alert → List Alert → Result OutboxError (Unit {0}) × List Alert
unfolding write_held delivered
mark_delivered now rec alerts = write_held (delivered now) rec alerts

unfoldable pub exhausted : ℕ → Alert → Bool
exhausted maximum_attempts rec = leb maximum_attempts rec.attempt_count

unfoldable pub retry_delay : ℕ → ℕ → ℕ
retry_delay retry_base_ms attempts = retry_base_ms * 2 ^ (attempts - 1)

unfoldable pub failed : ℕ → ℕ → ℕ → Alert → Alert → Alert
unfolding exhausted retry_delay
failed maximum_attempts retry_base_ms now rec a = record a {
  status = if exhausted maximum_attempts rec then AlertStatus.failed else AlertStatus.pending;
  failure_code = some (if exhausted maximum_attempts rec then retry_exhausted else retry_scheduled);
  next_attempt_at =
      if exhausted maximum_attempts rec
      then none
      else some (now + retry_delay retry_base_ms rec.attempt_count);
  dispatch_lease_id = none;
  dispatch_lease_expires_at = none;
}

unfoldable pub mark_failed :
    ℕ → ℕ → ℕ → Alert → List Alert → Result OutboxError (Unit {0}) × List Alert
unfolding write_held failed
mark_failed maximum_attempts retry_base_ms now rec alerts =
    write_held (failed maximum_attempts retry_base_ms now rec) rec alerts
