-- ===== src/Interventions/Executor.antt =====
-- backend/src/modules/interventions/engineering-intervention-executor.service.ts: executePending.
-- The clock stands still for a run. The telemetry and the log are left out.
use swar.Prelude.{
  ℕ, suc, Bool, true, false, List, [], ◌∷◌, ◌&&◌, ◌||◌, ◌+◌, ◌-◌, ◌*◌, ◌^◌, not, Option, none, some,
  ltb, leb, ◌==◌, ◌===◌, if◌then◌else◌, keep, take, sort, any, update_many, count_many, Result, ok,
  err,
}
use swar.Domain.{InterventionStatus, intervention_status_eq}
use swar.Effects.{Effect, done, throws, catching, ◌>>=◌, ◌>>◌}
use swar.Risk.Types.{hold_protected_action, intervention_type_eq}
use swar.Outbox.Alerts.{demo, control_mode_eq}
use swar.Outbox.Repository.{null_or_past, past, is_null, compare_times, same_lease}
use swar.Interventions.Holds.{HoldRecord, ActionReceipt, IdempotencyConflict, hold, dispatch}
use swar.Interventions.Rows.{Intervention, is_resolved}

pub data ExecutorError : Type 0 where
  hold_reference_missing provider_conflict audit_failed write_refused : ExecutorError

pub data ExecutorAudit : Type 0 where
  dispatched dispatch_failed : ExecutorAudit

pub record ExecutorLimits : Type 0 where
  pub batch_size : ℕ
  pub maximum_attempts : ℕ
  pub lease_ms : ℕ
  pub retry_base_ms : ℕ

-- The tables, the maps of the two demo adapters, the audit log, and the service's own fields.
pub record ExecutorState : Type 0 where
  pub interventions : List Intervention
  pub hold_records : List HoldRecord
  pub receipts : List ActionReceipt
  pub audited_actions : List ExecutorAudit
  pub running : Bool
  pub stopping : Bool

abbrev pub ExecutorEffect : Type 0 → Type 0
ExecutorEffect A = Effect ExecutorState ExecutorError A

unfoldable pub set_interventions : List Intervention → ExecutorState → ExecutorState
set_interventions rows s = record s { interventions = rows }

abbrev pub unleased : ℕ → Intervention → Bool
unleased now i =
    (is_null i.execution_lease_id && is_null i.execution_lease_expires_at)
    || past now i.execution_lease_expires_at

unfoldable pub executable : ℕ → ℕ → Intervention → Bool
executable maximum now i =
    i.mode === demo
    && (i.status === InterventionStatus.required
        && (ltb i.execution_attempt_count maximum
            && (null_or_past now i.next_attempt_at && unleased now i)))

abbrev pub executed_before : Intervention → Intervention → Bool
executed_before a b =
    compare_times a.next_attempt_at b.next_attempt_at
      (if a.required_at == b.required_at then ltb a.id b.id else ltb a.required_at b.required_at)

unfoldable pub execution_candidates : ExecutorLimits → ℕ → List Intervention → List Intervention
unfolding executable sort
execution_candidates limits now rows =
    take limits.batch_size
      (sort executed_before (keep (executable limits.maximum_attempts now) rows))

unfoldable pub is_candidate : Intervention → Intervention → Bool
is_candidate candidate i = i.id == candidate.id && i.organization_id == candidate.organization_id

unfoldable pub execution_claimable : ℕ → Intervention → Intervention → Bool
unfolding is_candidate
execution_claimable now candidate i =
    is_candidate candidate i
    && (i.mode === demo
        && (i.status === InterventionStatus.required
            && (i.execution_attempt_count == candidate.execution_attempt_count && unleased now i)))

unfoldable pub execution_lease : ℕ → ℕ → Intervention → Intervention
execution_lease lease_id expires_at i = record i {
  execution_attempt_count = i.execution_attempt_count + 1;
  next_attempt_at = none;
  execution_lease_id = some lease_id;
  execution_lease_expires_at = some expires_at;
  execution_failure_code = none;
}

-- The row that this run still holds.
unfoldable pub execution_held : ℕ → Intervention → Intervention → Bool
unfolding is_candidate
execution_held lease_id candidate i =
    is_candidate candidate i
    && (i.mode === demo
        && (i.status === InterventionStatus.required
            && (i.execution_attempt_count == candidate.execution_attempt_count + 1
                && same_lease i.execution_lease_id (some lease_id))))

unfoldable pub put_in_progress : Intervention → Intervention
put_in_progress i = record i {
  status = InterventionStatus.in_progress;
  next_attempt_at = none;
  execution_lease_id = none;
  execution_lease_expires_at = none;
}

unfoldable pub put_off : ExecutorLimits → ℕ → ℕ → Intervention → Intervention
put_off limits now attempt i =
    if leb limits.maximum_attempts attempt
    then record i {
      status = InterventionStatus.failed;
      execution_failure_code = some "DEMO_ACTION_RETRY_EXHAUSTED";
      next_attempt_at = none;
      execution_lease_id = none;
      execution_lease_expires_at = none;
      dead_lettered_at = some now;
    }
    else record i {
      status = InterventionStatus.required;
      execution_failure_code = some "DEMO_ACTION_RETRY_SCHEDULED";
      next_attempt_at = some (now + limits.retry_base_ms * 2 ^ (attempt - 1));
      execution_lease_id = none;
      execution_lease_expires_at = none;
      dead_lettered_at = none;
    }

-- The constraints of the table of interventions, of the migrations under
-- backend/prisma/migrations: Intervention_lifecycle_check, Intervention_execution_lease_pair_check
-- and Intervention_dead_letter_state_check.
unfoldable pub is_admitted : Intervention → Bool
unfolding is_resolved
is_admitted i =
    (not (is_resolved i.status) || not (is_null i.resolved_at))
    && ((if is_null i.execution_lease_id
          then is_null i.execution_lease_expires_at
          else not (is_null i.execution_lease_expires_at))
        && (is_null i.dead_lettered_at || i.status === InterventionStatus.failed))

unfoldable pub held_by :
    Result IdempotencyConflict (HoldRecord × List HoldRecord) → ExecutorEffect (Unit {0})
held_by (err e) s = (err provider_conflict, s)
held_by (ok answer) s = (ok tt, record s { hold_records = answer.1 })

unfoldable pub received :
    Result IdempotencyConflict (ActionReceipt × List ActionReceipt) → ExecutorEffect (Unit {0})
received (err e) s = (err provider_conflict, s)
received (ok answer) s = (ok tt, record s { receipts = answer.1 })

-- `key_of` numbers the texts `demo-dispatch:…`, and the audit log answers by action and identifier.
module _ (limits : ExecutorLimits) (now : ℕ) (key_of : ℕ → ℕ)
    (audits : ExecutorAudit → ℕ → Bool) where
  unfoldable pub hold_for : Intervention → Option ℕ → ExecutorEffect (Unit {0})
  unfolding throws held_by hold
  hold_for i none s = throws hold_reference_missing s
  hold_for i (some reference) s =
      held_by
        (hold
          (record {
            organization_id = i.organization_id;
            intervention_id = i.id;
            protected_action_reference = reference;
            idempotency_key = key_of i.id;
          })
          s.hold_records)
        s

  unfoldable pub act_for : Intervention → ExecutorEffect (Unit {0})
  unfolding received dispatch hold_for
  act_for i s =
      if i.kind === hold_protected_action
      then hold_for i i.protected_action_reference s
      else received (dispatch i.organization_id i.id i.kind (key_of i.id) s.receipts) s

  unfoldable pub executor_audit : ExecutorAudit → ℕ → ExecutorEffect (Unit {0})
  executor_audit action id s =
      if audits action id
      then (ok tt, record s { audited_actions = action ∷ s.audited_actions })
      else (err audit_failed, s)

  -- A write of the rows that this run holds. A row that the table does not admit refuses it.
  unfoldable pub write_execution :
      ℕ → Intervention → (Intervention → Intervention) → ExecutorEffect (Unit {0})
  unfolding execution_held update_many set_interventions is_admitted
  write_execution lease_id candidate f s =
      if any (λ i. execution_held lease_id candidate i && not (is_admitted (f i))) s.interventions
      then (err write_refused, s)
      else (
        ok tt,
        set_interventions (update_many (execution_held lease_id candidate) f s.interventions) s,
      )

  -- The `try` of a candidate, and its `catch`.
  unfoldable pub attempt_execution : ℕ → Intervention → ExecutorEffect ℕ
  unfolding ◌>>=◌ done act_for write_execution put_in_progress executor_audit
  attempt_execution lease_id i = do
    act_for i
    write_execution lease_id i put_in_progress
    executor_audit dispatched i.id
    done 1

  unfoldable pub execution_failed : ℕ → Intervention → ExecutorEffect ℕ
  unfolding ◌>>=◌ done write_execution put_off executor_audit
  execution_failed lease_id i = do
    write_execution lease_id i (put_off limits now (i.execution_attempt_count + 1))
    executor_audit dispatch_failed i.id
    done 0

  unfoldable pub claim_execution : ℕ → Intervention → ExecutorEffect Bool
  unfolding execution_claimable execution_lease update_many count_many set_interventions
  claim_execution lease_id i s = (
    ok (count_many (execution_claimable now i) s.interventions == 1),
    set_interventions
        (update_many (execution_claimable now i) (execution_lease lease_id (now + limits.lease_ms))
          s.interventions)
        s,
  )

  unfoldable pub execute_claimed : ℕ → Intervention → Bool → ExecutorEffect ℕ
  unfolding done catching attempt_execution execution_failed
  execute_claimed lease_id i false = done 0
  execute_claimed lease_id i true =
      catching (attempt_execution lease_id i) (execution_failed lease_id i)

  unfoldable pub execute_one : ℕ → Intervention → ExecutorEffect ℕ
  unfolding ◌>>=◌ claim_execution execute_claimed
  execute_one lease_id i = do
    claimed ← claim_execution lease_id i
    execute_claimed lease_id i claimed

  -- `fresh k` is the k-th lease identifier.
  unfoldable pub execute_all : (ℕ → ℕ) → ℕ → List Intervention → ExecutorEffect ℕ
  unfolding ◌>>=◌ done execute_one
  execute_all fresh k [] = done 0
  execute_all fresh k (i ∷ candidates) = do
    n ← execute_one (fresh k) i
    m ← execute_all fresh (suc k) candidates
    done (n + m)

  abbrev pub ended_run :
      Result ExecutorError ℕ × ExecutorState → Result ExecutorError ℕ × ExecutorState
  ended_run (r, s) = (r, record s { running = false })

  -- executePending; `in_production` is whether the environment is the production one.
  unfoldable pub execute_pending : Bool → (ℕ → ℕ) → ExecutorEffect ℕ
  unfolding execute_all execution_candidates
  execute_pending in_production fresh s =
      if s.running || (s.stopping || in_production)
      then (ok 0, s)
      else ended_run (
          execute_all fresh 0 (execution_candidates limits now s.interventions)
            (record s { running = true }))
