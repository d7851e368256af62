-- ===== src/Outbox/Scope.antt =====
-- What a client may see and mark.
use swar.Prelude.{
  some-injective, ℕ, true, List, [], ◌∷◌, Option, ok, ◌≡◌, refl, arith, Bool-cases, inl, inr, All,
  not, String, All-sort, All-keep, All-take, All-reverse, none, some, includes, >>=-elim, >>-elim,
  ok-injective, subst, nat_eq,
}
use swar.Domain.{alert_status_eq}
use swar.Outbox.Alerts.{Alert, SecurityEvent, is_security_event_id}
use swar.Outbox.Repository.{cursor_invalid, record_invalid}
use swar.Outbox.Replay.{
  ReplayResult, replay, replay_records, replay_from, replay_after, replayable, after_event,
  to_security_event, to_security_events, event_of, newer, record_is_invalid, has_event_id,
  valid_event_id,
}

abbrev pub InScope : ℕ → List ℕ → SecurityEvent → Type 0
InScope organization_id call_ids e =
    (e.organization ≡ organization_id) × (includes e.call call_ids ≡ true)

module _ (organization_id : ℕ) (call_ids : List ℕ) where
  abbrev RowInScope : Alert → Type 0
  RowInScope a = (a.organization_id ≡ organization_id) × (includes a.call_id call_ids ≡ true)

  records-RowInScope :
      (maximum : ℕ) (alerts : List Alert)
      → All RowInScope (replay_records organization_id call_ids maximum alerts)
  unfolding replay_records replayable
  records-RowInScope maximum alerts = All-reverse RowInScope _ (
      All-take RowInScope maximum _ (
        All-sort RowInScope newer _ (
          All-keep RowInScope (replayable organization_id call_ids)
            (λ x t. (ground arith, ground arith)) alerts)))

  event-InScope :
      (now : ℕ) (a : Alert) (e : SecurityEvent)
      → RowInScope a
      → to_security_event now a ≡ ok e
      → InScope organization_id call_ids e
  unfolding to_security_event event_of
  event-InScope now a e r h =
      >>-elim (not (valid_event_id a.external_event_id)) record_invalid _ h λ v h'.
        >>-elim (record_is_invalid now a) record_invalid _ h'
          λ w h''. subst (InScope organization_id call_ids) (ok-injective h'') r

  events-InScope :
      (now : ℕ) (alerts : List Alert) (es : List SecurityEvent)
      → All RowInScope alerts
      → to_security_events now alerts ≡ ok es
      → All (InScope organization_id call_ids) es
  unfolding to_security_events
  events-InScope now [] es r h = subst (All (InScope organization_id call_ids)) (ok-injective h) tt
  events-InScope now (a ∷ alerts) es r h = >>=-elim (to_security_event now a) _ h λ e q h'.
      >>=-elim (to_security_events now alerts) _ h' λ rest q' h''.
        subst (All (InScope organization_id call_ids)) (ok-injective h'')
          (event-InScope now a e r.0 q, events-InScope now alerts rest r.1 q')

  after_event-RowInScope :
      (s : String) (alerts rest : List Alert)
      → All RowInScope alerts
      → after_event s alerts ≡ some rest
      → All RowInScope rest
  unfolding after_event
  after_event-RowInScope s [] rest r h = cc
  after_event-RowInScope s (a ∷ alerts) rest r h =
      elim (Bool-cases (has_event_id s a.external_event_id)) [
        | inl t ↦ subst (All RowInScope) (some-injective alerts rest (rw t at h)) r.1
        | inr e ↦ after_event-RowInScope s alerts rest r.1 (rw e at h)
      ]

  replay_after-InScope :
      (now : ℕ) (records : List Alert) (o : Option (List Alert)) (r : ReplayResult)
      → ((rest : List Alert) → o ≡ some rest → All RowInScope rest)
      → replay_after now records o ≡ ok r
      → All (InScope organization_id call_ids) r.events
  unfolding replay_after
  replay_after-InScope now [] none r k h =
      subst (λ x. All (InScope organization_id call_ids) x.events) (ok-injective h) tt
  replay_after-InScope now (a ∷ records) none r k h =
      subst (λ x. All (InScope organization_id call_ids) x.events) (ok-injective h) tt
  replay_after-InScope now records (some rest) r k h =
      >>=-elim (to_security_events now rest) _ h λ es q h'.
        subst (λ x. All (InScope organization_id call_ids) x.events) (ok-injective h')
          (events-InScope now rest es (k rest refl) q)

  -- A replay that is answered holds events of the organization that asks and of the calls that it
  -- names only.
  pub replay-InScope :
      (now : ℕ) (cursor : Option String) (maximum : ℕ) (alerts : List Alert) (r : ReplayResult)
      → replay now organization_id call_ids cursor maximum alerts ≡ ok r
      → All (InScope organization_id call_ids) r.events
  unfolding replay replay_from
  replay-InScope now none maximum alerts r h =
      subst (λ x. All (InScope organization_id call_ids) x.events) (ok-injective h) tt
  replay-InScope now (some s) maximum alerts r h =
      >>-elim (not (is_security_event_id s)) cursor_invalid _ h λ v h'.
        replay_after-InScope now (replay_records organization_id call_ids maximum alerts)
          (after_event s (replay_records organization_id call_ids maximum alerts)) r
          (λ rest q.
            after_event-RowInScope s (replay_records organization_id call_ids maximum alerts) rest
              (records-RowInScope maximum alerts) q)
          h'
