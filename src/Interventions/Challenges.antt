-- ===== src/Interventions/Challenges.antt =====
-- How often an intervention is challenged.
use swar.Prelude.{
  ℕ, true, List, ◌&&◌, not, Option, none, some, ltb, ◌==◌, find, any, string_eq, Result, ok, err,
  or_throw, ◌≡◌, refl, sym, ap, subst, arith, inl, inr, Bool-cases, Result-cases, find-passes,
  ok-injective,
}
use swar.Domain.{verification_status_eq}
use swar.Effects.{done, throws, query, reads, refuse_if, ◌>>=◌}
use swar.Auth.Accounts.{AuthPrincipal}
use swar.Auth.Permissions.{assert, intervention_resolve}
use swar.Interventions.Rows.{
  Intervention, Challenge, InterventionError, not_authorized, resource_not_found,
  persistence_conflict, key_conflict, step_up_not_required, find_intervention,
}
use swar.Interventions.StepUp.{
  ChallengeInput, has_key, is_attempt, insert_challenge, create_found, create_challenge,
  permits_step_up, StepUpInput, allowed_to_resolve, step_up_input, request,
}

-- The method throws and leaves the table as it is.
unfoldable pub IsRefused :
    Result InterventionError Challenge × List Challenge → List Challenge → Type 0
IsRefused outcome rows = (e : InterventionError) × (outcome ≡ (err e, rows))

insert-IsRefused :
    (o now : ℕ) (input : ChallengeInput) (rows : List Challenge)
    → any (is_attempt o input.input_intervention input.input_attempt) rows ≡ true
    → find (has_key o input.input_challenge_key) rows ≡ none
    → IsRefused (insert_challenge o now input rows) rows
unfolding insert_challenge IsRefused
insert-IsRefused o now input rows a f = (key_conflict, rw (a, f) (ground arith))

create-IsRefused :
    (o now : ℕ) (input : ChallengeInput) (rows : List Challenge)
    → any (is_attempt o input.input_intervention input.input_attempt) rows ≡ true
    → find (has_key o input.input_challenge_key) rows ≡ none
    → IsRefused (create_challenge o now input rows) rows
unfolding create_challenge create_found refuse_if ◌>>=◌ reads done throws IsRefused
create-IsRefused o now input rows a f = elim (Bool-cases (ltb input.input_attempt 1)) [
  | inl low ↦ (persistence_conflict, rw low refl)
  | inr enough ↦ rw (enough, f) (insert-IsRefused o now input rows a f)
]

pub or_throw-found :
    {A : Type 0} (m : Option A) (a : A) (e : InterventionError) → or_throw m e ≡ ok a → m ≡ some a
or_throw-found none a e h = cc
or_throw-found (some b) a e h = ap some (ok-injective h)

found-id :
    (o id : ℕ) (rows : List Intervention) (i : Intervention)
    → find_intervention o id rows ≡ ok i
    → i.id ≡ id
unfolding find_intervention
found-id o id rows i h =
    let t =
      find-passes (λ i. i.organization_id == o && i.id == id) rows i
        (or_throw-found (find (λ i. i.organization_id == o && i.id == id) rows) i resource_not_found
          h) in
    ground (arith, t)

-- Where an intervention has a challenge of its first attempt, in whatever status, every request for a
-- step-up on it under a new key is refused and changes nothing, whoever asks at whatever time.
pub request-IsRefused :
    (ttl_seconds now : ℕ) (interventions : List Intervention) (principal : AuthPrincipal)
    (input : StepUpInput) (rows : List Challenge)
    → any (is_attempt principal.organization_id input.step_up_intervention 1) rows ≡ true
    → find (has_key principal.organization_id input.step_up_key) rows ≡ none
    → IsRefused (request ttl_seconds interventions now principal input rows) rows
unfolding request allowed_to_resolve query refuse_if ◌>>=◌ done throws step_up_input IsRefused
request-IsRefused ttl now interventions principal input rows a f =
    elim (Result-cases (assert principal intervention_resolve principal.organization_id)) [
      | inr e ↦ (not_authorized e.0, rw e.1 refl)
      | inl u ↦
          elim (Result-cases (
            find_intervention principal.organization_id input.step_up_intervention interventions)) [
              | inr e ↦ (e.0, rw (u.1, e.1) refl)
              | inl i ↦ elim (Bool-cases (not (permits_step_up i.0.kind))) [
                | inl other ↦ (step_up_not_required, rw (u.1, i.1, other) refl)
                | inr fits ↦
                    rw (u.1, i.1, fits)
                      (create-IsRefused principal.organization_id now
                        (step_up_input ttl now principal input i.0) rows
                        (subst (λ k. any (is_attempt principal.organization_id k 1) rows ≡ true)
                          (sym (
                            found-id principal.organization_id input.step_up_intervention
                              interventions i.0 i.1))
                          a)
                        f)
              ]
            ]
    ]
