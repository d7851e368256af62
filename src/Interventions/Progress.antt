-- ===== src/Interventions/Progress.antt =====
-- How the methods change the status of interventions.
use swar.Prelude.{
  ℕ, Bool, true, false, List, [], ◌∷◌, ◌||◌, not, Option, none, some, ◌===◌, Result, ok, err, ◌≡◌,
  refl, arith, includes, update_many, ◌&&◌, sym, subst, ◌⊎◌, inl, inr, Bool-cases, Result-cases,
}
use swar.Domain.{
  InterventionStatus, intervention_status_eq, intervention_transitions, assert_transition,
}
use swar.Risk.Types.{InterventionType, intervention_type_eq}
use swar.Interventions.Holds.{HoldRecord, IdempotencyConflict, hold, release, answer}
use swar.Interventions.Rows.{
  Intervention, Challenge, InterventionError, provider_error, find_challenge,
  update_intervention_status, expected, with_status,
}
use swar.Interventions.Service.{
  InterventionCall, InterventionState, Outcome, AuditAction, authorized, assert_intervention,
  audit_with, after_update, finish, checked, acknowledge_found, acknowledge, cancel_found, cancel,
  provided, hold_referenced, hold_found, hold_action, release_verified, release_found,
  release_after_verification, request_of, verifies, acknowledged, cancelled, hold_applied,
  hold_released, hold_provider_unknown, release_provider_unknown,
}

-- The transitions of docs/data/state-machines.md.
unfoldable pub documented_next : InterventionStatus → List InterventionStatus
documented_next InterventionStatus.required =
    InterventionStatus.acknowledged ∷ InterventionStatus.in_progress ∷ InterventionStatus.expired
    ∷ InterventionStatus.cancelled ∷ InterventionStatus.failed ∷ []
documented_next InterventionStatus.acknowledged =
    InterventionStatus.in_progress ∷ InterventionStatus.expired ∷ []
documented_next InterventionStatus.in_progress =
    InterventionStatus.satisfied ∷ InterventionStatus.declined ∷ InterventionStatus.expired
    ∷ InterventionStatus.failed ∷ []
documented_next _ = []

-- A documented transition, or the cancellation of what was acknowledged.
unfoldable pub is_expected : InterventionStatus → InterventionStatus → Bool
unfolding documented_next
is_expected from to =
    includes to (documented_next from)
    || (from === InterventionStatus.acknowledged && to === InterventionStatus.cancelled)

-- Row by row, the status is as before or an expected one.
abbrev pub Follows : List Intervention → List Intervention → Type 0
Follows [] [] = Unit
Follows [] (y ∷ ys) = ⊥
Follows (x ∷ xs) [] = ⊥
Follows (x ∷ xs) (y ∷ ys) =
    ((y.status ≡ x.status) ⊎ (is_expected x.status y.status ≡ true)) × Follows xs ys

-- What the code's map allows is expected, but for a failure.
allowed-expected :
    (from to : InterventionStatus)
    → (to === InterventionStatus.failed) ≡ false
    → includes to (intervention_transitions from) ≡ true
    → is_expected from to ≡ true
unfolding is_expected
allowed-expected from to n h = ground (arith, n, h)

Follows-refl : (xs : List Intervention) → Follows xs xs
Follows-refl [] = tt
Follows-refl (x ∷ xs) = (inl refl, Follows-refl xs)

expected-status :
    (organization_id id : ℕ) (from : InterventionStatus) (x : Intervention)
    → expected organization_id id from x ≡ true
    → x.status ≡ from
unfolding expected
expected-status o id from x t = ground (arith, t)

update-Follows :
    (now organization_id id : ℕ) (from to : InterventionStatus) (by : Option ℕ)
    (xs : List Intervention)
    → is_expected from to ≡ true
    → Follows xs (update_many (expected organization_id id from) (with_status now to by) xs)
unfolding update_many expected with_status
update-Follows now o id from to by [] h = tt
update-Follows now o id from to by (x ∷ xs) h = elim (Bool-cases (expected o id from x)) [
  | inl t ↦ rw t (
    inr (subst (λ y. is_expected y to ≡ true) (sym (expected-status o id from x t)) h),
    update-Follows now o id from to by xs h,
  )
  | inr e ↦ rw e (inl refl, update-Follows now o id from to by xs h)
]

allowed-includes :
    (from to : InterventionStatus)
    → assert_intervention from to ≡ ok tt
    → includes to (intervention_transitions from) ≡ true
unfolding assert_intervention assert_transition
allowed-includes from to h = elim (Bool-cases (includes to (intervention_transitions from))) [
  | inl t ↦ t
  | inr e ↦ ground (arith, rw e at h)
]

module _ (call : InterventionCall) where
  audit-rows :
      (action : AuditAction) (r : Result InterventionError Intervention) (s : InterventionState)
      → (audit_with call action r s).1.rows ≡ s.rows
  unfolding audit_with
  audit-rows action r s = ground arith

  after_update-Follows :
      (action : AuditAction) (s : InterventionState) (r : Result InterventionError Intervention)
      (after : List Intervention)
      → Follows s.rows after
      → Follows s.rows (after_update call action s (r, after)).1.rows
  unfolding after_update
  after_update-Follows action s (err e) after k = k
  after_update-Follows action s (ok i) after k =
      rw (audit-rows action (ok i) (record s { rows = after })) k

  finish-Follows :
      (id : ℕ) (from to : InterventionStatus) (by : Option ℕ) (action : AuditAction)
      (s : InterventionState)
      → is_expected from to ≡ true
      → Follows s.rows (finish call id from to by action s).1.rows
  unfolding finish update_intervention_status
  finish-Follows id from to by action s h =
      after_update-Follows action s _ _
        (update-Follows call.now call.principal.organization_id id from to by s.rows h)

  -- A step that goes on only if the transition is allowed.
  checked-Follows :
      (from to : InterventionStatus) (s : InterventionState) (k : Outcome)
      → (includes to (intervention_transitions from) ≡ true → Follows s.rows k.1.rows)
      → Follows s.rows (checked (assert_intervention from to) s k).1.rows
  checked-Follows from to s k f = elim (Result-cases (assert_intervention from to)) [
    | inl x ↦ rw x.1 (f (allowed-includes from to x.1))
    | inr x ↦ rw x.1 (Follows-refl s.rows)
  ]

  provided-Follows :
      (r : Result IdempotencyConflict (HoldRecord × List HoldRecord)) (action : AuditAction)
      (status : InterventionStatus) (s : InterventionState) (k : InterventionState → Outcome)
      → ((t : InterventionState) → t.rows ≡ s.rows → Follows t.rows (k t).1.rows)
      → Follows s.rows (provided call r action status s k).1.rows
  unfolding provided
  provided-Follows (err e) action status s k f =
      rw (audit-rows action (err (provider_error status)) s) (Follows-refl s.rows)
  provided-Follows (ok answer) action status s k f = f (record s { holds = answer.1 }) refl

  acknowledge-Follows :
      (r : Result InterventionError Intervention) (s : InterventionState)
      → Follows s.rows (acknowledge_found call r s).1.rows
  unfolding acknowledge_found
  acknowledge-Follows (err e) s = Follows-refl s.rows
  acknowledge-Follows (ok i) s = elim (Bool-cases (i.status === InterventionStatus.acknowledged)) [
    | inl t ↦ rw t (Follows-refl s.rows)
    | inr e ↦ rw e (
        checked-Follows i.status InterventionStatus.acknowledged s _ (λ a.
          finish-Follows i.id i.status InterventionStatus.acknowledged
            (some call.principal.membership_id) acknowledged s
            (allowed-expected i.status InterventionStatus.acknowledged refl a)))
  ]

  cancel-Follows :
      (r : Result InterventionError Intervention) (s : InterventionState)
      → Follows s.rows (cancel_found call r s).1.rows
  unfolding cancel_found
  cancel-Follows (err e) s = Follows-refl s.rows
  cancel-Follows (ok i) s = elim (Bool-cases (i.status === InterventionStatus.cancelled)) [
    | inl t ↦ rw t (Follows-refl s.rows)
    | inr e ↦ elim (Bool-cases (i.status === InterventionStatus.in_progress)) [
      | inl t ↦ rw (e, t) (Follows-refl s.rows)
      | inr n ↦
          rw (e, n)
            (checked-Follows i.status InterventionStatus.cancelled s _ (λ a.
              finish-Follows i.id i.status InterventionStatus.cancelled
                (some call.principal.membership_id) cancelled s
                (allowed-expected i.status InterventionStatus.cancelled refl a)))
    ]
  ]

  hold-Follows :
      (i : Intervention) (o : Option ℕ) (s : InterventionState)
      → Follows s.rows (hold_referenced call i o s).1.rows
  unfolding hold_referenced
  hold-Follows i none s = Follows-refl s.rows
  hold-Follows i (some reference) s =
      elim (Bool-cases (i.kind === InterventionType.hold_protected_action)) [
        | inr n ↦ rw n (Follows-refl s.rows)
        | inl k ↦ elim (Bool-cases (i.status === InterventionStatus.in_progress)) [
          | inl t ↦ rw (k, t) (Follows-refl s.rows)
          | inr e ↦
              rw (k, e)
                (checked-Follows i.status InterventionStatus.in_progress s _ (λ a.
                  provided-Follows (hold (request_of call i reference) s.holds)
                    hold_provider_unknown i.status s _
                    (λ t _.
                      finish-Follows i.id i.status InterventionStatus.in_progress none hold_applied
                        t (allowed-expected i.status InterventionStatus.in_progress refl a))))
        ]
      ]

  release-Follows :
      (i : Intervention) (c : Challenge) (o : Option ℕ) (s : InterventionState)
      → Follows s.rows (release_verified call i c o s).1.rows
  unfolding release_verified is_expected
  release-Follows i c none s = Follows-refl s.rows
  release-Follows i c (some reference) s =
      elim (Bool-cases (
        not (i.kind === InterventionType.hold_protected_action)
        || (not (i.status === InterventionStatus.in_progress) || not (verifies call.now c i)))) [
          | inl t ↦ rw t (Follows-refl s.rows)
          | inr e ↦ rw e (
              checked-Follows i.status InterventionStatus.satisfied s _ (λ a.
                provided-Follows (release (request_of call i reference) s.holds)
                  release_provider_unknown InterventionStatus.in_progress s _
                  (λ t _.
                    finish-Follows i.id InterventionStatus.in_progress InterventionStatus.satisfied
                      (some call.principal.membership_id) hold_released t refl)))
        ]

-- The four methods of the service.
pub data Method : Type 0 where
  acknowledge_it cancel_it hold_it : Method
  release_it : ℕ → Method

abbrev pub perform : Method → InterventionCall → InterventionState → Outcome
unfolding acknowledge cancel hold_action release_after_verification
perform acknowledge_it call s = acknowledge call s
perform cancel_it call s = cancel call s
perform hold_it call s = hold_action call s
perform (release_it challenge_id) call s = release_after_verification call challenge_id s

-- Whatever method is called by whomever, and whether it returns or throws, the status of each
-- intervention stays as it is or becomes one that docs/data/state-machines.md lists next, but that
-- what was acknowledged may also be cancelled, which the document does not list.
pub methods_follow_transitions :
    (m : Method) (call : InterventionCall) (s : InterventionState)
    → Follows s.rows (perform m call s).1.rows
unfolding perform acknowledge cancel hold_action release_after_verification hold_found release_found
methods_follow_transitions acknowledge_it call s = acknowledge-Follows call (authorized call s) s
methods_follow_transitions cancel_it call s = cancel-Follows call (authorized call s) s
methods_follow_transitions hold_it call s = elim (Result-cases (authorized call s)) [
  | inl x ↦ rw x.1 (hold-Follows call x.0 x.0.protected_action_reference s)
  | inr x ↦ rw x.1 (Follows-refl s.rows)
]
methods_follow_transitions (release_it challenge_id) call s =
    elim (Result-cases (authorized call s)) [
      | inr x ↦ rw x.1 (Follows-refl s.rows)
      | inl x ↦
          elim (Result-cases
            (find_challenge call.principal.organization_id challenge_id s.challenges)) [
              | inr y ↦ rw (x.1, y.1) (Follows-refl s.rows)
              | inl y ↦
                  rw (x.1, y.1) (release-Follows call x.0 y.0 x.0.protected_action_reference s)
            ]
    ]
