-- ===== src/Interventions/Holds.antt =====
-- backend/src/modules/interventions/demo-transaction-hold.adapter.ts and safe-demo-action.adapter.ts:
-- each keeps its answers in a map by organization and key. Keys are numbers here.
use swar.Prelude.{
  ℕ, List, ◌∷◌, ◌&&◌, ◌||◌, not, Option, none, some, ◌==◌, ◌===◌, find, Result, ok, throw_if, ◌>>◌,
}
use swar.Risk.Types.{InterventionType, intervention_type_eq}

pub data HoldStatus : Type 0 where
  held released : HoldStatus

-- IdempotencyConflictError
pub data IdempotencyConflict : Type 0 where
  idempotency_conflict : IdempotencyConflict

-- The input of hold and of release.
pub record HoldRequest : Type 0 where
  pub organization_id : ℕ
  pub intervention_id : ℕ
  pub protected_action_reference : ℕ
  pub idempotency_key : ℕ

-- ProtectedActionHold, with its key in the map.
pub record HoldRecord : Type 0 where
  pub key_organization : ℕ
  pub key : ℕ
  pub held_intervention : ℕ
  pub held_reference : ℕ
  pub hold_status : HoldStatus

unfoldable pub hold_of : HoldRequest → List HoldRecord → Option HoldRecord
hold_of r holds =
    find (λ h. h.key_organization == r.organization_id && h.key == r.idempotency_key) holds

abbrev pub new_hold : HoldStatus → HoldRequest → HoldRecord
new_hold status r = record {
  key_organization = r.organization_id;
  key = r.idempotency_key;
  held_intervention = r.intervention_id;
  held_reference = r.protected_action_reference;
  hold_status = status;
}

-- hold and release: the two methods differ in the status that they store.
unfoldable pub answer :
    HoldStatus
    → HoldRequest
    → List HoldRecord
    → Option HoldRecord
    → Result IdempotencyConflict (HoldRecord × List HoldRecord)
answer status r holds none = ok (new_hold status r, new_hold status r ∷ holds)
answer status r holds (some h) =
    throw_if
      (not (h.held_intervention == r.intervention_id)
        || not (h.held_reference == r.protected_action_reference))
      idempotency_conflict
    >> ok (h, holds)

unfoldable pub hold :
    HoldRequest → List HoldRecord → Result IdempotencyConflict (HoldRecord × List HoldRecord)
unfolding answer hold_of
hold r holds = answer held r holds (hold_of r holds)

unfoldable pub release :
    HoldRequest → List HoldRecord → Result IdempotencyConflict (HoldRecord × List HoldRecord)
unfolding answer hold_of
release r holds = answer released r holds (hold_of r holds)

-- EngineeringActionReceipt, with its key in the map.
pub record ActionReceipt : Type 0 where
  pub receipt_organization : ℕ
  pub receipt_key : ℕ
  pub receipt_intervention : ℕ
  pub receipt_action : InterventionType

unfoldable pub dispatch :
    ℕ
    → ℕ
    → InterventionType
    → ℕ
    → List ActionReceipt
    → Result IdempotencyConflict (ActionReceipt × List ActionReceipt)
dispatch organization_id intervention_id action idempotency_key receipts = of (
    find (λ r. r.receipt_organization == organization_id && r.receipt_key == idempotency_key)
      receipts)
  where
    receipt : ActionReceipt
    receipt = record {
      receipt_organization = organization_id;
      receipt_key = idempotency_key;
      receipt_intervention = intervention_id;
      receipt_action = action;
    }

    of : Option ActionReceipt → Result IdempotencyConflict (ActionReceipt × List ActionReceipt)
    of none = ok (receipt, receipt ∷ receipts)
    of (some r) =
        throw_if
          (not (r.receipt_intervention == intervention_id) || not (r.receipt_action === action))
          idempotency_conflict
        >> ok (r, receipts)
