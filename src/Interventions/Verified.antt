-- ===== src/Interventions/Verified.antt =====
-- What a release of a held action needs.
use swar.Prelude.{
  ℕ, true, false, ◌||◌, not, Option, none, some, ◌===◌, ltb, ok, ◌≡◌, arith, inl, inr, Bool-cases,
  Result-cases,
}
use swar.Domain.{
  InterventionStatus, intervention_status_eq, VerificationStatus, verification_status_eq,
}
use swar.Risk.Types.{InterventionType, intervention_type_eq}
use swar.Auth.Permissions.{assert, has_permission, intervention_resolve}
use swar.Interventions.Rows.{Intervention, Challenge, find_intervention, find_challenge}
use swar.Interventions.Service.{
  InterventionCall, InterventionState, authorized, release_found, release_verified,
  release_after_verification, verifies,
}

-- The caller may resolve interventions, the intervention is a hold in progress, and the challenge
-- is about it, on its call, passed and in time.
pub record IsVerified (call : InterventionCall) (i : Intervention) (c : Challenge) : Type 0 where
  pub permitted : has_permission call.principal.roles intervention_resolve ≡ true
  pub holds_action : i.kind ≡ InterventionType.hold_protected_action
  pub in_progress : i.status ≡ InterventionStatus.in_progress
  pub about_intervention : c.challenge_intervention ≡ i.id
  pub about_call : c.challenge_call ≡ i.call_id
  pub passed : c.challenge_status ≡ VerificationStatus.passed
  pub in_time : ltb call.now c.challenge_expires_at ≡ true

authorized-permitted :
    (call : InterventionCall) (s : InterventionState) (i : Intervention)
    → authorized call s ≡ ok i
    → (has_permission call.principal.roles intervention_resolve ≡ true)
      × (find_intervention call.principal.organization_id call.intervention_id s.rows ≡ ok i)
unfolding authorized assert
authorized-permitted call s i h =
    elim (Bool-cases (has_permission call.principal.roles intervention_resolve)) [
      | inl t ↦ (t, ground arith)
      | inr e ↦ ground arith
    ]

release_verified-guard :
    (call : InterventionCall) (i : Intervention) (c : Challenge) (o : Option ℕ)
    (s : InterventionState) (r : Intervention)
    → (release_verified call i c o s).0 ≡ ok r
    → (not (i.kind === InterventionType.hold_protected_action)
        || (not (i.status === InterventionStatus.in_progress) || not (verifies call.now c i)))
      ≡ false
unfolding release_verified
release_verified-guard call i c none s r h = cc
release_verified-guard call i c (some reference) s r h =
    elim (Bool-cases (
      not (i.kind === InterventionType.hold_protected_action)
      || (not (i.status === InterventionStatus.in_progress) || not (verifies call.now c i)))) [
        | inl t ↦ ground (arith, rw t at h)
        | inr e ↦ e
      ]

guard-IsVerified :
    (call : InterventionCall) (i : Intervention) (c : Challenge)
    → has_permission call.principal.roles intervention_resolve ≡ true
    → (not (i.kind === InterventionType.hold_protected_action)
        || (not (i.status === InterventionStatus.in_progress) || not (verifies call.now c i)))
      ≡ false
    → IsVerified call i c
unfolding verifies
guard-IsVerified call i c p h = record {
  permitted = p;
  holds_action = ground arith;
  in_progress = ground arith;
  about_intervention = ground arith;
  about_call = ground arith;
  passed = ground arith;
  in_time = ground arith;
}

-- A release that succeeds was asked for by someone who may resolve interventions, and concerns a
-- hold in progress for which the table of challenges has the named one, of the same organization: it is
-- about this intervention and its call, was passed, and has not run out.
pub release-IsVerified :
    (call : InterventionCall) (challenge_id : ℕ) (s : InterventionState) (r : Intervention)
    → (release_after_verification call challenge_id s).0 ≡ ok r
    → (i : Intervention) × (c : Challenge) × (find_intervention call.principal.organization_id
          call.intervention_id s.rows
        ≡ ok i)
      × (find_challenge call.principal.organization_id challenge_id s.challenges ≡ ok c)
      × IsVerified call i c
unfolding release_after_verification release_found
release-IsVerified call challenge_id s r h = elim (Result-cases (authorized call s)) [
  | inr x ↦ ground (arith, rw x.1 at h)
  | inl x ↦
      elim (Result-cases
        (find_challenge call.principal.organization_id challenge_id s.challenges)) [
          | inr y ↦ ground (arith, rw (x.1, y.1) at h)
          | inl y ↦
              (let found = authorized-permitted call s x.0 x.1 in
                (
                  x.0,
                  y.0,
                  found.1,
                  y.1,
                  guard-IsVerified call x.0 y.0 found.0 (
                      release_verified-guard call x.0 y.0 x.0.protected_action_reference s r
                        (rw (x.1, y.1) at h)),
                ))
        ]
]
