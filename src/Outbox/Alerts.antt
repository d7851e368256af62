-- ===== src/Outbox/Alerts.antt =====
-- The rows of the security-event outbox: model Alert of backend/prisma/schema.prisma with the risk event
-- and the intervention that the queries include, and the events that are published
-- (backend/src/modules/security-events/security-event.port.ts). Identifiers are numbers.
use Prim.Native.Char.{code}
use Prim.Native.String.{◌∷◌, []}
use swar.Prelude.{
  ℕ, zero, suc, Bool, true, false, ◌&&◌, ◌||◌, Option, String, Eq, ◌==◌, ◌↔◌, ◌≡◌, arith, leb,
}
use swar.Domain.{AlertStatus}
use swar.Risk.Types.{RiskState, InterventionType}

pub data AlertChannel : Type 0 where
  security_websocket audit_queue future_enterprise : AlertChannel

pub data SecurityControlMode : Type 0 where
  demo shadow production : SecurityControlMode

abbrev pub mode_index : SecurityControlMode → ℕ
mode_index demo = 0
mode_index shadow = 1
mode_index production = 2

pub control_mode_eq_iff :
    (a b : SecurityControlMode) → ((mode_index a == mode_index b) ≡ true) ↔ (a ≡ b)
control_mode_eq_iff a b = ground arith

instance abbrev pub control_mode_eq : Eq SecurityControlMode
control_mode_eq = record {
  same = λ a b. mode_index a == mode_index b;
  same_iff = control_mode_eq_iff;
}

abbrev pub is_websocket : AlertChannel → Bool
is_websocket security_websocket = true
is_websocket _ = false

pub record RiskEventRow : Type 0 where
  pub event_key : ℕ
  pub event_organization : ℕ
  pub event_call : ℕ
  pub event_mode : SecurityControlMode
  pub occurred_at : ℕ
  pub state : RiskState
  pub transition_reason_code : String
  pub policy_version : String

pub record LinkedIntervention : Type 0 where
  pub intervention_id : ℕ
  pub intervention_organization : ℕ
  pub intervention_call : ℕ
  pub intervention_event : ℕ
  pub intervention_mode : SecurityControlMode
  pub intervention_type : InterventionType

pub data DeliveryFailure : Type 0 where
  retry_exhausted retry_scheduled : DeliveryFailure

pub record Alert : Type 0 where
  pub id : ℕ
  pub organization_id : ℕ
  pub call_id : ℕ
  pub risk_event_id : ℕ
  pub channel : AlertChannel
  pub status : AlertStatus
  pub mode : SecurityControlMode
  pub event_type : String
  pub schema_version : String
  pub external_event_id : Option String
  pub attempt_count : ℕ
  pub next_attempt_at : Option ℕ
  pub dispatch_lease_id : Option ℕ
  pub dispatch_lease_expires_at : Option ℕ
  pub delivered_at : Option ℕ
  pub acknowledged_at : Option ℕ
  pub acknowledged_by : Option ℕ
  pub failure_code : Option DeliveryFailure
  pub created_at : ℕ
  pub risk_event : RiskEventRow
  pub intervention : Option LinkedIntervention

-- SecurityEvent
pub record SecurityEvent : Type 0 where
  pub outbox_id : ℕ
  pub event_id : String
  pub event_name : String
  pub event_schema : String
  pub organization : ℕ
  pub call : ℕ
  pub target_id : ℕ
  pub event_time : ℕ
  pub control_mode : SecurityControlMode
  pub risk_state : RiskState
  pub reason : String
  pub policy : String
  pub action : Option InterventionType

-- `n` characters of a-f and 0-9, and then the end.
unfoldable pub is_hex : ℕ → String → Bool
is_hex zero [] = true
is_hex zero (c ∷ s) = false
is_hex (suc n) [] = false
is_hex (suc n) (c ∷ s) =
    (leb b'0' (code c) && leb (code c) b'9' || leb b'a' (code c) && leb (code c) b'f') && is_hex n s

-- `/^evt_[a-f0-9]{64}$/u`
unfoldable pub is_security_event_id : String → Bool
unfolding is_hex
is_security_event_id (a ∷ b ∷ c ∷ d ∷ s) =
    (code a == b'e' && (code b == b'v' && (code c == b't' && code d == b'_'))) && is_hex 64 s
is_security_event_id _ = false
