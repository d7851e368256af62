-- ===== src/Interventions/Executions.antt =====
-- How often a demo intervention is tried, and when it is given up.
use swar.Prelude.{
  ℕ, suc, Bool, true, false, List, [], ◌∷◌, ◌+◌, ◌&&◌, not, any, ◌≤◌, ◌<◌, Option, none, some, leb,
  ◌===◌, Result, ok, err, ◌≡◌, refl, arith, inl, inr, Bool-cases, All, All-keep, All-sort, All-take,
  All-update_many,
}
use swar.Domain.{InterventionStatus, intervention_status_eq}
use swar.Effects.{throws, catching, ◌>>=◌}
use swar.Effects.Preserves.{Preserves, preserves_rules, Preserves-bind, Preserves-done}
use swar.Interventions.Holds.{HoldRecord, ActionReceipt, IdempotencyConflict}
use swar.Interventions.Rows.{Intervention, is_resolved}
use swar.Risk.Types.{hold_protected_action, intervention_type_eq}
use swar.Outbox.Repository.{is_null}
use swar.Interventions.Executor.{
  is_admitted, ExecutorError, write_refused, ExecutorAudit, dispatched, dispatch_failed,
  ExecutorLimits, ExecutorState, ExecutorEffect, set_interventions, executable,
  execution_candidates, execution_claimable, execution_lease, execution_held, put_in_progress,
  put_off, held_by, received, hold_for, act_for, executor_audit, write_execution, attempt_execution,
  execution_failed, claim_execution, execute_claimed, execute_one, execute_all, execute_pending,
}

-- No more attempts than the maximum, and a dead letter only after that many, as a failure.
abbrev pub HasAttempts : ℕ → Intervention → Type 0
HasAttempts maximum i =
    (i.execution_attempt_count ≤ maximum)
    × (is_null i.dead_lettered_at ≡ false
        → (i.execution_attempt_count ≡ maximum) × (i.status ≡ InterventionStatus.failed))

abbrev pub AllAttempts : ℕ → ExecutorState → Type 0
AllAttempts maximum s = All (HasAttempts maximum) s.interventions

candidates-below :
    (limits : ExecutorLimits) (now : ℕ) (rows : List Intervention)
    → All
        (λ i. i.execution_attempt_count < limits.maximum_attempts)
        (execution_candidates limits now rows)
unfolding execution_candidates executable
candidates-below limits now rows =
    All-take _ limits.batch_size _ (All-sort _ _ _ (All-keep _ _ (λ i h. ground (arith, h)) rows))

lease-HasAttempts :
    (limits : ExecutorLimits) (now lease_id until : ℕ) (c i : Intervention)
    → c.execution_attempt_count < limits.maximum_attempts
    → execution_claimable now c i ≡ true
    → HasAttempts limits.maximum_attempts i
    → HasAttempts limits.maximum_attempts (execution_lease lease_id until i)
unfolding execution_claimable execution_lease
lease-HasAttempts limits now lease_id until c i l t h =
    (ground (arith, l, t), λ d. ground (arith, t, h.1 d))

progress-HasAttempts :
    (maximum lease_id : ℕ) (c i : Intervention)
    → execution_held lease_id c i ≡ true
    → HasAttempts maximum i
    → HasAttempts maximum (put_in_progress i)
unfolding execution_held put_in_progress
progress-HasAttempts maximum lease_id c i t h = (h.0, λ d. ground (arith, t, h.1 d))

put_off-HasAttempts :
    (limits : ExecutorLimits) (now lease_id : ℕ) (c i : Intervention)
    → execution_held lease_id c i ≡ true
    → HasAttempts limits.maximum_attempts i
    → HasAttempts limits.maximum_attempts (put_off limits now (c.execution_attempt_count + 1) i)
unfolding execution_held put_off
put_off-HasAttempts limits now lease_id c i t h =
    elim (Bool-cases (leb limits.maximum_attempts (c.execution_attempt_count + 1))) [
      | inl last ↦ rw last (h.0, λ d. (ground (arith, t, last, h.0), refl))
      | inr more ↦ rw more (h.0, λ d. ground arith)
    ]

held-Preserves :
    (maximum : ℕ) (r : Result IdempotencyConflict (HoldRecord × List HoldRecord))
    → Preserves (AllAttempts maximum) (held_by r)
unfolding held_by
held-Preserves maximum (ok a) = record { holds = λ s h. h }
held-Preserves maximum (err e) = record { holds = λ s h. h }

received-Preserves :
    (maximum : ℕ) (r : Result IdempotencyConflict (ActionReceipt × List ActionReceipt))
    → Preserves (AllAttempts maximum) (received r)
unfolding received
received-Preserves maximum (ok a) = record { holds = λ s h. h }
received-Preserves maximum (err e) = record { holds = λ s h. h }

module _ (limits : ExecutorLimits) (now : ℕ) (key_of : ℕ → ℕ)
    (audits : ExecutorAudit → ℕ → Bool) where
  abbrev Keeps : {A : Type 0} → ExecutorEffect A → Type 0
  Keeps m = Preserves (AllAttempts limits.maximum_attempts) m

  hold-Preserves : (i : Intervention) (o : Option ℕ) → Keeps (hold_for limits now key_of audits i o)
  unfolding hold_for throws
  hold-Preserves i none = record { holds = λ s h. h }
  hold-Preserves i (some r) = record {
    holds = λ s h. (held-Preserves limits.maximum_attempts _).holds s h;
  }

  act-Preserves : (i : Intervention) → Keeps (act_for limits now key_of audits i)
  unfolding act_for
  act-Preserves i = record {
    holds = λ s h. elim (Bool-cases (i.kind === hold_protected_action)) [
      | inl t ↦ rw t ((hold-Preserves i i.protected_action_reference).holds s h)
      | inr n ↦ rw n ((received-Preserves limits.maximum_attempts _).holds s h)
    ];
  }

  audit-Preserves :
      (a : ExecutorAudit) (id : ℕ) → Keeps (executor_audit limits now key_of audits a id)
  unfolding executor_audit
  audit-Preserves a id = record {
    holds = λ s h. elim (Bool-cases (audits a id)) [ inl t ↦ rw t h | inr n ↦ rw n h ];
  }

  write-Preserves :
      (lease_id : ℕ) (c : Intervention) (f : Intervention → Intervention)
      → ((i : Intervention)
          → execution_held lease_id c i ≡ true
          → HasAttempts limits.maximum_attempts i
          → HasAttempts limits.maximum_attempts (f i))
      → Keeps (write_execution limits now key_of audits lease_id c f)
  unfolding write_execution set_interventions
  write-Preserves lease_id c f k = record {
    holds = λ s h.
        elim (Bool-cases
          (any (λ i. execution_held lease_id c i && not (is_admitted (f i))) s.interventions)) [
            | inl refused ↦ rw refused h
            | inr written ↦ rw written (
                All-update_many (HasAttempts limits.maximum_attempts) (execution_held lease_id c) f
                  k s.interventions h)
          ];
  }

  attempt-Preserves :
      (lease_id : ℕ) (c : Intervention)
      → Keeps (attempt_execution limits now key_of audits lease_id c)
  unfolding attempt_execution
  attempt-Preserves lease_id c = Preserves-bind _ _ (act-Preserves c) (λ _.
      Preserves-bind _ _
        (write-Preserves lease_id c put_in_progress
          (λ i. progress-HasAttempts limits.maximum_attempts lease_id c i))
        (λ _. Preserves-bind _ _ (audit-Preserves dispatched c.id) (λ _. Preserves-done 1)))

  failed-Preserves :
      (lease_id : ℕ) (c : Intervention)
      → Keeps (execution_failed limits now key_of audits lease_id c)
  unfolding execution_failed
  failed-Preserves lease_id c =
      Preserves-bind _ _
        (write-Preserves lease_id c (put_off limits now (c.execution_attempt_count + 1))
          (λ i. put_off-HasAttempts limits now lease_id c i))
        (λ _. Preserves-bind _ _ (audit-Preserves dispatch_failed c.id) (λ _. Preserves-done 0))

  claim-Preserves :
      (lease_id : ℕ) (c : Intervention)
      → c.execution_attempt_count < limits.maximum_attempts
      → Keeps (claim_execution limits now key_of audits lease_id c)
  unfolding claim_execution set_interventions
  claim-Preserves lease_id c l = record {
    holds = λ s h.
        All-update_many (HasAttempts limits.maximum_attempts) (execution_claimable now c)
          (execution_lease lease_id (now + limits.lease_ms))
          (λ i. lease-HasAttempts limits now lease_id (now + limits.lease_ms) c i l) s.interventions
          h;
  }

  claimed-Preserves :
      (lease_id : ℕ) (c : Intervention) (b : Bool)
      → Keeps (execute_claimed limits now key_of audits lease_id c b)
  unfolding execute_claimed
  claimed-Preserves lease_id c true = search (preserves_rules, attempt-Preserves, failed-Preserves)
  claimed-Preserves lease_id c false = search preserves_rules

  candidates-Preserves :
      (fresh : ℕ → ℕ) (k : ℕ) (candidates : List Intervention)
      → All (λ i. i.execution_attempt_count < limits.maximum_attempts) candidates
      → Keeps (execute_all limits now key_of audits fresh k candidates)
  unfolding execute_all execute_one
  candidates-Preserves fresh k [] a = search preserves_rules
  candidates-Preserves fresh k (c ∷ candidates) a =
      Preserves-bind _ _
        (Preserves-bind _ _ (claim-Preserves (fresh k) c a.0)
          (λ b. claimed-Preserves (fresh k) c b))
        (λ n.
          Preserves-bind _ _ (candidates-Preserves fresh (suc k) candidates a.1)
            (λ m. Preserves-done (n + m)))

  -- A run, whether it returns or throws and whatever the adapters and the audit log answer, keeps it so
  -- that no intervention is tried more often than the maximum, and that one that is a dead letter was
  -- tried that often and has failed.
  pub execute-AllAttempts :
      (in_production : Bool) (fresh : ℕ → ℕ) (s : ExecutorState)
      → AllAttempts limits.maximum_attempts s
      → AllAttempts limits.maximum_attempts
          (execute_pending limits now key_of audits in_production fresh s).1
  unfolding execute_pending
  execute-AllAttempts in_production fresh s h = ground (
    arith,
    (candidates-Preserves fresh 0 (execution_candidates limits now s.interventions)
          (candidates-below limits now s.interventions)).holds
        (record s { running = true }) h,
  )

  last_refused :
      (lease_id : ℕ) (c : Intervention)
      → limits.maximum_attempts ≤ c.execution_attempt_count + 1
      → (rows : List Intervention)
      → any (λ i. execution_held lease_id c i && is_null i.resolved_at) rows ≡ true
      → any
          (λ i.
            execution_held lease_id c i
            && not (is_admitted (put_off limits now (c.execution_attempt_count + 1) i)))
          rows
        ≡ true
  unfolding is_admitted put_off is_resolved
  last_refused lease_id c last [] h = h
  last_refused lease_id c last (i ∷ rows) h =
      ground (arith, last, h, last_refused lease_id c last rows)

  -- Where an attempt throws that is the last, on an intervention that the run holds and that has no
  -- time of resolution, the write of the dead letter is refused and the run of this candidate throws:
  -- the tables stay as the attempt left them, the intervention required and under its lease.
  pub last_failure_throws :
      (lease_id : ℕ) (c : Intervention) (s t : ExecutorState) (e : ExecutorError)
      → attempt_execution limits now key_of audits lease_id c s ≡ (err e, t)
      → limits.maximum_attempts ≤ c.execution_attempt_count + 1
      → any (λ i. execution_held lease_id c i && is_null i.resolved_at) t.interventions ≡ true
      → execute_claimed limits now key_of audits lease_id c true s ≡ (err write_refused, t)
  unfolding execute_claimed catching execution_failed write_execution ◌>>=◌
  last_failure_throws lease_id c s t e h last unresolved =
      rw (h, last_refused lease_id c last t.interventions unresolved) refl
