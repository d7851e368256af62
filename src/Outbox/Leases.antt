-- ===== src/Outbox/Leases.antt =====
-- Who may write to an alert: the holder of its newest lease, and nobody else.
use swar.Prelude.{
  ℕ, Bool, false, List, ◌≤◌, ◌+◌, some, ◌==◌, ok, err, ◌≡◌, refl, subst, arith, count_many,
  update_many_none, count_many_replaced, count_many_passing,
}
use swar.Outbox.Alerts.{Alert}
use swar.Outbox.Repository.{
  lease_lost, claim_one, claimable, lease, claimed_record, held, delivered, failed, write_held,
  mark_delivered, mark_failed, same_lease,
}

abbrev pub same_id : ℕ → Alert → Bool
same_id i a = a.id == i

module _ (now lease_ms lease_id : ℕ) (candidate : Alert) (alerts : List Alert) where
  abbrev table_after : List Alert
  unfolding claim_one
  table_after = (claim_one now lease_ms lease_id candidate alerts).0

  abbrev own_record : Alert
  unfolding claimed_record
  own_record = claimed_record lease_id (now + lease_ms) candidate

  claim-counts :
      (rec : Alert)
      → (claim_one now lease_ms lease_id candidate alerts).1 ≡ some rec
      → (count_many (claimable now candidate) alerts ≡ 1) × (own_record ≡ rec)
  unfolding claim_one
  claim-counts rec h = ground arith

  holder_alone :
      count_many (same_id candidate.id) alerts ≤ 1
      → count_many (claimable now candidate) alerts ≡ 1
      → (count_many (held own_record) table_after ≡ 1)
        × ((other : Alert)
            → other.id ≡ candidate.id
            → same_lease (some lease_id) other.dispatch_lease_id ≡ false
            → count_many (held other) table_after ≡ 0)
  unfolding claim_one held claimable lease claimed_record
  holder_alone u c = (
    count_many_passing (same_id candidate.id) (held own_record) (claimable now candidate)
        (lease lease_id (now + lease_ms)) (λ x h. ground arith) (λ x h. ground arith)
        (λ x h. ground arith) alerts u c,
    λ other e l.
        count_many_replaced (same_id candidate.id) (held other) (claimable now candidate)
          (lease lease_id (now + lease_ms)) (λ x h. ground arith) (λ x h. ground arith)
          (λ x h. ground arith) alerts u c,
  )

-- A write that meets no row is refused and changes nothing.
pub write_held_none :
    (f : Alert → Alert) (rec : Alert) (alerts : List Alert)
    → count_many (held rec) alerts ≡ 0
    → write_held f rec alerts ≡ (err lease_lost, alerts)
unfolding write_held
write_held_none f rec alerts h = rw (h, update_many_none (held rec) f alerts h) refl

pub write_held_one :
    (f : Alert → Alert) (rec : Alert) (alerts : List Alert)
    → count_many (held rec) alerts ≡ 1
    → (write_held f rec alerts).0 ≡ ok tt
unfolding write_held
write_held_one f rec alerts h = rw h refl

-- In a table without a second row of its identifier, an alert belongs to who claimed it last: this
-- holder's report that it is delivered is accepted, and every report on it under another lease, of
-- a success or of a failure, is refused as a lost lease and leaves the table as it is.
pub newest_holder_writes :
    (now lease_ms lease_id : ℕ) (candidate : Alert) (alerts : List Alert) (rec : Alert)
    → count_many (same_id candidate.id) alerts ≤ 1
    → (claim_one now lease_ms lease_id candidate alerts).1 ≡ some rec
    → (later : ℕ)
    → ((mark_delivered later rec (claim_one now lease_ms lease_id candidate alerts).0).0 ≡ ok tt)
      × ((other : Alert)
          → other.id ≡ candidate.id
          → same_lease (some lease_id) other.dispatch_lease_id ≡ false
          → (maximum_attempts retry_base_ms : ℕ)
          → (mark_delivered later other (claim_one now lease_ms lease_id candidate alerts).0
              ≡ (err lease_lost, (claim_one now lease_ms lease_id candidate alerts).0))
            × (mark_failed maximum_attempts retry_base_ms later other
                  (claim_one now lease_ms lease_id candidate alerts).0
                ≡ (err lease_lost, (claim_one now lease_ms lease_id candidate alerts).0)))
unfolding mark_delivered mark_failed claim_one table_after
newest_holder_writes now ms l c alerts rec u h later =
    let counts = claim-counts now ms l c alerts rec h in
    let alone = holder_alone now ms l c alerts u counts.0 in
    (
      subst (λ r. (mark_delivered later r (claim_one now ms l c alerts).0).0 ≡ ok tt) counts.1
          (write_held_one (delivered later) (own_record now ms l c alerts) _ alone.0),
      λ other e d maximum base. (
        write_held_none (delivered later) other _ (alone.1 other e d),
        write_held_none (failed maximum base later other) other _ (alone.1 other e d),
      ),
    )
