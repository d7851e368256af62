-- ===== src/Interventions/Replays.antt =====
-- The demo adapter under one key.
use swar.Prelude.{
  List, ◌∷◌, ◌||◌, not, some, ◌==◌, ok, ◌≡◌, refl, arith, Option-cases, inl, inr, >>-elim,
  ok-injective, subst,
}
use swar.Interventions.Holds.{
  HoldRequest, HoldRecord, HoldStatus, held, hold, release, hold_of, answer, released, new_hold,
  idempotency_conflict,
}

answers_again :
    (status : HoldStatus) (r : HoldRequest) (holds : List HoldRecord)
    → answer status r (new_hold held r ∷ holds) (hold_of r (new_hold held r ∷ holds))
      ≡ ok (new_hold held r, new_hold held r ∷ holds)
unfolding answer hold_of
answers_again status r holds = ground arith

answers_known :
    (s t : HoldStatus) (r : HoldRequest) (holds : List HoldRecord) (h : HoldRecord)
    → answer s r holds (some h) ≡ answer t r holds (some h)
unfolding answer
answers_known s t r holds h = refl

-- A hold that was answered is answered again in the same way, and so is a release under its key:
-- it is the record that the hold stored, and nothing is stored for the release.
pub release_repeats_hold :
    (r : HoldRequest) (holds after : List HoldRecord) (h : HoldRecord)
    → hold r holds ≡ ok (h, after)
    → (hold r after ≡ ok (h, after)) × (release r after ≡ ok (h, after))
unfolding hold release answer
release_repeats_hold r holds after h e = elim (Option-cases (hold_of r holds)) [
  | inl n ↦
      subst (λ p. (hold r p.1 ≡ ok p) × (release r p.1 ≡ ok p)) (ok-injective (rw n at e))
        (answers_again held r holds, answers_again released r holds)
  | inr x ↦
      >>-elim
        (not (x.0.held_intervention == r.intervention_id)
          || not (x.0.held_reference == r.protected_action_reference))
        idempotency_conflict (ok (x.0, holds)) (rw x.1 at e)
        λ b q.
          subst (λ p. (hold r p.1 ≡ ok p) × (release r p.1 ≡ ok p)) (ok-injective q)
            (rw (x.1, b) (refl, refl))
]
