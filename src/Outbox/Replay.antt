-- ===== src/Outbox/Replay.antt =====
-- The reading half of backend/src/modules/security-events/security-event-outbox.repository.ts:
-- toSecurityEvent, replay and acknowledge.
use mathlib.Core.List.{reverse}
use swar.Prelude.{
  ℕ, Bool, true, false, List, [], ◌∷◌, ◌&&◌, ◌||◌, not, Option, none, some, String, ltb, ◌==◌,
  ◌===◌, if◌then◌else◌, keep, take, sort, includes, string_eq, nat_eq, update_many, Result, ok,
  throw_if, or_throw, ◌>>◌, ◌>>=◌, find,
}
use swar.Domain.{AlertStatus, alert_status_eq}
use swar.Risk.Types.{InterventionType}
use swar.Outbox.Alerts.{
  Alert, SecurityEvent, LinkedIntervention, is_websocket, control_mode_eq, is_security_event_id,
}
use swar.Outbox.Repository.{OutboxError, record_invalid, cursor_invalid, event_not_found, is_null}

abbrev pub intervention_required : String
intervention_required = "intervention.required"

abbrev pub call_ended : String
call_ended = "call.ended"

abbrev pub security_event_types : List String
security_event_types =
    "risk.state.changed" ∷ intervention_required ∷ call_ended ∷ "dashboard.risk-event.created" ∷ []

abbrev pub security_event_schema_versions : List String
security_event_schema_versions = "1.0.0" ∷ "1.1.0" ∷ []

unfoldable pub is_dispatchable_status : AlertStatus → Bool
is_dispatchable_status AlertStatus.pending = true
is_dispatchable_status AlertStatus.delivered = true
is_dispatchable_status _ = false

-- A lease that has an end in the future.
unfoldable pub lease_live : ℕ → Alert → Bool
lease_live now a = not (is_null a.dispatch_lease_id) && live a.dispatch_lease_expires_at
  where
    live : Option ℕ → Bool
    live none = false
    live (some at) = ltb now at

unfoldable pub foreign_intervention : Alert → LinkedIntervention → Bool
foreign_intervention a i =
    not (i.intervention_organization == a.organization_id)
    || (not (i.intervention_call == a.call_id)
        || (not (i.intervention_event == a.risk_event_id) || not (i.intervention_mode === a.mode)))

unfoldable pub intervention_mismatch : Alert → Option LinkedIntervention → Bool
unfolding foreign_intervention
intervention_mismatch a none = a.event_type === intervention_required
intervention_mismatch a (some i) =
    not (a.event_type === intervention_required) || foreign_intervention a i

unfoldable pub record_is_invalid : ℕ → Alert → Bool
unfolding is_dispatchable_status lease_live intervention_mismatch
record_is_invalid now a =
    not (is_websocket a.channel)
    || (not (is_dispatchable_status a.status)
        || (a.status === AlertStatus.pending && not (lease_live now a)
            || (not (includes a.event_type security_event_types)
                || (not (includes a.schema_version security_event_schema_versions)
                    || (not (a.organization_id == a.risk_event.event_organization)
                        || (not (a.call_id == a.risk_event.event_call)
                            || (not (a.mode === a.risk_event.event_mode)
                                || intervention_mismatch a a.intervention)))))))

unfoldable pub target_of : Alert → Option LinkedIntervention → ℕ
target_of a none = if a.event_type === call_ended then a.call_id else a.risk_event.event_key
target_of a (some i) = if a.event_type === call_ended then a.call_id else i.intervention_id

abbrev pub action_of : Option LinkedIntervention → Option InterventionType
action_of none = none
action_of (some i) = some i.intervention_type

unfoldable pub event_of : Alert → String → SecurityEvent
unfolding target_of
event_of a external_event_id = record {
  outbox_id = a.id;
  event_id = external_event_id;
  event_name = a.event_type;
  event_schema = a.schema_version;
  organization = a.organization_id;
  call = a.call_id;
  target_id = target_of a a.intervention;
  event_time = a.risk_event.occurred_at;
  control_mode = a.mode;
  risk_state = a.risk_event.state;
  reason = a.risk_event.transition_reason_code;
  policy = a.risk_event.policy_version;
  action = action_of a.intervention;
}

-- `isSecurityEventId(value)` of a value that may be null.
unfoldable pub valid_event_id : Option String → Bool
unfolding is_security_event_id
valid_event_id none = false
valid_event_id (some s) = is_security_event_id s

abbrev pub text_or_empty : Option String → String
text_or_empty none = ""
text_or_empty (some s) = s

unfoldable pub to_security_event : ℕ → Alert → Result OutboxError SecurityEvent
unfolding record_is_invalid event_of valid_event_id
to_security_event now a =
    throw_if (not (valid_event_id a.external_event_id)) record_invalid
    >> (throw_if (record_is_invalid now a) record_invalid
        >> ok (event_of a (text_or_empty a.external_event_id)))

-- replay

pub data ReplayStatus : Type 0 where
  complete boundary_exceeded : ReplayStatus

pub record ReplayResult : Type 0 where
  pub status : ReplayStatus
  pub events : List SecurityEvent
  pub oldest_available : Option String
  pub latest_available : Option String

unfoldable pub replayable : ℕ → List ℕ → Alert → Bool
replayable organization_id call_ids a =
    a.organization_id == organization_id
    && (includes a.call_id call_ids
        && (is_websocket a.channel
            && (a.status === AlertStatus.delivered && not (is_null a.external_event_id))))

-- `orderBy: [{ createdAt: 'desc' }, { id: 'desc' }]`
abbrev pub newer : Alert → Alert → Bool
newer a b = if a.created_at == b.created_at then ltb b.id a.id else ltb b.created_at a.created_at

-- The newest `maximum` of them, the oldest of these first.
unfoldable pub replay_records : ℕ → List ℕ → ℕ → List Alert → List Alert
unfolding replayable sort
replay_records organization_id call_ids maximum alerts =
    reverse (take maximum (sort newer (keep (replayable organization_id call_ids) alerts)))

abbrev pub has_event_id : String → Option String → Bool
has_event_id s none = false
has_event_id s (some t) = t === s

-- The records behind the first that has an identifier.
unfoldable pub after_event : String → List Alert → Option (List Alert)
after_event s [] = none
after_event s (a ∷ alerts) =
    let rest = after_event s alerts in
    if has_event_id s a.external_event_id then some alerts else rest

abbrev pub first_id : List Alert → Option String
first_id [] = none
first_id (a ∷ alerts) = a.external_event_id

abbrev pub last_id : List Alert → Option String
last_id [] = none
last_id (a ∷ []) = a.external_event_id
last_id (a ∷ b ∷ alerts) = last_id (b ∷ alerts)

unfoldable pub to_security_events : ℕ → List Alert → Result OutboxError (List SecurityEvent)
unfolding to_security_event
to_security_events now [] = ok []
to_security_events now (a ∷ alerts) =
    to_security_event now a >>= λ e. to_security_events now alerts >>= λ es. ok (e ∷ es)

abbrev pub replayed : List Alert → ReplayStatus → List SecurityEvent → ReplayResult
replayed records status events = record {
  status = status;
  events = events;
  oldest_available = first_id records;
  latest_available = last_id records;
}

unfoldable pub replay_after : ℕ → List Alert → Option (List Alert) → Result OutboxError ReplayResult
unfolding to_security_events
replay_after now [] none = ok (replayed [] complete [])
replay_after now (a ∷ alerts) none = ok (replayed (a ∷ alerts) boundary_exceeded [])
replay_after now records (some rest) =
    to_security_events now rest >>= λ events. ok (replayed records complete events)

unfoldable pub replay_from : ℕ → List Alert → Option String → Result OutboxError ReplayResult
unfolding replay_after after_event is_security_event_id
replay_from now records none = ok (replayed records complete [])
replay_from now records (some s) =
    throw_if (not (is_security_event_id s)) cursor_invalid
    >> replay_after now records (after_event s records)

unfoldable pub replay :
    ℕ → ℕ → List ℕ → Option String → ℕ → List Alert → Result OutboxError ReplayResult
unfolding replay_from replay_records
replay now organization_id call_ids after_event_id maximum alerts =
    replay_from now (replay_records organization_id call_ids maximum alerts) after_event_id

-- acknowledge

abbrev pub or_else : Option ℕ → ℕ → Option ℕ
or_else none b = some b
or_else (some a) b = some a

unfoldable pub acknowledged : ℕ → ℕ → Alert → Alert
acknowledged now membership_id a = record a {
  acknowledged_at = or_else a.acknowledged_at now;
  acknowledged_by = or_else a.acknowledged_by membership_id;
}

unfoldable pub may_acknowledge : ℕ → List ℕ → Alert → Bool
unfolding lease_live
may_acknowledge now call_ids a =
    (a.status === AlertStatus.delivered || a.status === AlertStatus.pending && lease_live now a)
    && includes a.call_id call_ids

unfoldable pub acknowledge :
    ℕ → ℕ → ℕ → List ℕ → String → List Alert → Result OutboxError (List Alert)
unfolding may_acknowledge acknowledged update_many is_security_event_id
acknowledge now organization_id membership_id call_ids event_id alerts =
    throw_if (not (is_security_event_id event_id)) cursor_invalid
    >> (or_throw
          (find
            (λ a. a.organization_id == organization_id && has_event_id event_id a.external_event_id)
            alerts)
          event_not_found
        >>= λ a.
            throw_if (not (may_acknowledge now call_ids a)) event_not_found
            >> ok (update_many (λ b. b.id == a.id) (acknowledged now membership_id) alerts))
