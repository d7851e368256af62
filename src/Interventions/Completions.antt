-- ===== src/Interventions/Completions.antt =====
-- How often a challenge is completed.
use swar.Prelude.{
  ℕ, Bool, true, false, List, ◌&&◌, ◌≤◌, Option, none, some, String, ◌==◌, ◌===◌, if◌then◌else◌,
  find, string_eq, eq_iff, update_many, count_many, ok, err, ◌≡◌, refl, sym, ap, subst, arith, inl,
  inr, Bool-cases, Option-cases, Result-cases, count_only_found, count_many_same, find-updated,
  find-update_none, some-injective, update_many_none, ok-injective, false-not-true, ◌∙◌,
}
use swar.Domain.{verification_status_eq}
use swar.Effects.{done, throws, query, ◌>>=◌}
use swar.Interventions.Rows.{
  Challenge, InterventionError, resource_not_found, persistence_conflict, find_challenge,
}
use swar.Interventions.StepUp.{
  VerificationResult, passed, failed, status_of, is_challenge, completable, completed, has_code,
  completed_before, after_completion, complete_challenge, complete,
}
use swar.Interventions.Challenges.{or_throw-found}

err-not-ok : {e : InterventionError} {c : Challenge} → err e ≡ ok c → ⊥
err-not-ok h = cc

same_code :
    (code code2 : String) (stored : Option String)
    → has_code code stored ≡ true
    → has_code code2 stored ≡ (code === code2)
same_code code code2 none h = elim (false-not-true h) [ ]
same_code code code2 (some x) h = rw ((eq_iff x code).0 h) refl

not_completable :
    (o id later : ℕ) (result : VerificationResult) (c : Challenge)
    → c.challenge_status ≡ status_of result
    → completable o id later c ≡ false
unfolding completable status_of
not_completable o id later passed c h = ground (arith, h)
not_completable o id later failed c h = ground (arith, h)

completable-is_challenge :
    (o id later : ℕ) (x : Challenge) → completable o id later x ≡ true → is_challenge o id x ≡ true
unfolding completable
completable-is_challenge o id later x h = ground (arith, h)

found_challenge :
    (o id : ℕ) (t : List Challenge) (c : Challenge)
    → find_challenge o id t ≡ ok c
    → find (is_challenge o id) t ≡ some c
unfolding find_challenge is_challenge
found_challenge o id t c h = or_throw-found (find (is_challenge o id) t) c resource_not_found h

-- A row that shows a completion.
unfoldable Shows : VerificationResult → String → Challenge → Type 0
Shows result code c =
    (c.challenge_status ≡ status_of result) × (has_code code c.challenge_result_code ≡ true)

module _ (o id : ℕ) (result : VerificationResult) (code : String) (c : Challenge) where
  shown :
      (d : Challenge) (u t : List Challenge)
      → completed_before result code d u ≡ (ok c, t)
      → (d ≡ c) × (t ≡ u) × Shows result code c
  unfolding completed_before done throws Shows
  shown d u t h =
      elim (Bool-cases
        (d.challenge_status === status_of result && has_code code d.challenge_result_code)) [
          | inr n ↦ elim (err-not-ok (ap (λ x. x.0) (rw n at h))) [ ]
          | inl y ↦
              (let same = ok-injective (ap (λ x. x.0) (rw y at h)) in
                (
                  same,
                  sym (ap (λ x. x.1) (rw y at h)),
                  subst
                      (λ x.
                        (x.challenge_status ≡ status_of result)
                        × (has_code code x.challenge_result_code ≡ true))
                      same (ground (arith, y), ground (arith, y)),
                ))
        ]

  after-found :
      (b : Bool) (u t : List Challenge)
      → after_completion o id result code b u ≡ (ok c, t)
      → (t ≡ u) × (find_challenge o id u ≡ ok c) × (b ≡ false → Shows result code c)
  unfolding after_completion query ◌>>=◌
  after-found true u t h =
      (sym (ap (λ x. x.1) h), ap (λ x. x.0) h, λ e. elim (false-not-true (sym e)) [ ])
  after-found false u t h = elim (Result-cases (find_challenge o id u)) [
    | inr e ↦ elim (err-not-ok (ap (λ x. x.0) (rw e.1 at h))) [ ]
    | inl d ↦ (let s = shown d.0 u t (rw d.1 at h) in (s.1, d.1 ∙ ap ok s.0, λ e. s.2))
  ]

  -- A table whose only row of the identifier shows a completion is not changed by a later one.
  shown_again :
      (later : ℕ) (result2 : VerificationResult) (code2 : String) (t : List Challenge)
      → count_many (is_challenge o id) t ≤ 1
      → find_challenge o id t ≡ ok c
      → Shows result code c
      → complete o id later result2 code2 t ≡ (
        (if status_of result === status_of result2 && code === code2
            then ok c
            else err persistence_conflict),
        t,
      )
  unfolding complete complete_challenge after_completion query ◌>>=◌ Shows completed_before done
      throws
  shown_again later result2 code2 t one f s =
      let none_left =
        count_only_found (is_challenge o id) (completable o id later)
          (completable-is_challenge o id later) t c one (found_challenge o id t c f)
          (not_completable o id later result c s.0) in
      rw
        (
          none_left,
          update_many_none (completable o id later) (completed later result2 code2) t none_left,
          f,
          s.0,
          same_code code code2 c.challenge_result_code s.1,
        )
        (elim (Bool-cases (status_of result === status_of result2 && code === code2)) [
          | inl t ↦ rw t refl
          | inr n ↦ rw n refl
        ])

is_challenge-completed :
    (o id now : ℕ) (result : VerificationResult) (code : String) (x : Challenge)
    → is_challenge o id (completed now result code x) ≡ is_challenge o id x
unfolding is_challenge completed
is_challenge-completed o id now result code x = refl

completed-Shows :
    (now : ℕ) (result : VerificationResult) (code : String) (d : Challenge)
    → Shows result code (completed now result code d)
unfolding Shows completed
completed-Shows now result code d = (refl, (eq_iff code code).1 refl)

none-not-some : {c : Challenge} → none ≡ some c → ⊥
none-not-some h = cc

zero-not-one : ◌≡◌ {A = ℕ} 0 1 → ⊥
zero-not-one h = ground arith

module _ (o id now : ℕ) (result : VerificationResult) (code : String) (rows : List Challenge) where
  -- The table after a completion.
  unfoldable closed_challenges : List Challenge
  unfolding completable completed
  closed_challenges = update_many (completable o id now) (completed now result code) rows

  closed-count :
      count_many (is_challenge o id) closed_challenges ≡ count_many (is_challenge o id) rows
  unfolding closed_challenges is_challenge completed
  closed-count =
      count_many_same (is_challenge o id) (completable o id now) (completed now result code)
        (λ x h. refl) rows

  -- The row that was pending is found as completed.
  closed-Shows :
      (c : Challenge)
      → count_many (is_challenge o id) rows ≤ 1
      → count_many (completable o id now) rows ≡ 1
      → find (is_challenge o id) closed_challenges ≡ some c
      → Shows result code c
  unfolding closed_challenges
  closed-Shows c one closed f = elim (Option-cases (find (is_challenge o id) rows)) [
    | inl n ↦
        elim (none-not-some (
          sym (
            find-update_none (is_challenge o id) (completable o id now) (completed now result code)
              (is_challenge-completed o id now result code) rows n)
          ∙ f)) [ ]
    | inr d ↦ elim (Bool-cases (completable o id now d.0)) [
      | inr n ↦
          elim (zero-not-one (
            sym (
              count_only_found (is_challenge o id) (completable o id now)
                (completable-is_challenge o id now) rows d.0 one d.1 n)
            ∙ closed)) [ ]
      | inl y ↦
          subst (Shows result code)
            (some-injective (completed now result code d.0) c (
              sym (
                find-updated (is_challenge o id) (completable o id now) (completed now result code)
                  d.0 (is_challenge-completed o id now result code) y rows d.1)
              ∙ f))
            (completed-Shows now result code d.0)
    ]
  ]

-- Once a challenge is completed, by a call that answers with its row, every later completion of it
-- under the same result and code answers the same row, every other one is refused, and
-- neither changes the table: the result of a challenge is given once. No two rows of the table share
-- the organization and the identifier.
pub completed_once :
    (organization_id id now later : ℕ) (result result2 : VerificationResult) (code code2 : String)
    (rows t : List Challenge) (c : Challenge)
    → count_many (is_challenge organization_id id) rows ≤ 1
    → complete organization_id id now result code rows ≡ (ok c, t)
    → complete organization_id id later result2 code2 t ≡ (
      (if status_of result === status_of result2 && code === code2
          then ok c
          else err persistence_conflict),
      t,
    )
unfolding complete complete_challenge closed_challenges
completed_once o id now later result result2 code code2 rows t c one h =
    let done_it =
      after-found o id result code c (count_many (completable o id now) rows == 1)
        (closed_challenges o id now result code rows) t h in
    let found = subst (λ u. find_challenge o id u ≡ ok c) (sym done_it.0) done_it.1 in
    shown_again o id result code c later result2 code2 t
      (subst (λ u. count_many (is_challenge o id) u ≤ 1) (sym done_it.0)
        (subst (λ n. n ≤ 1) (sym (closed-count o id now result code rows)) one))
      found
      (elim (Bool-cases (count_many (completable o id now) rows == 1)) [
        | inr n ↦ done_it.2 n
        | inl y ↦
            closed-Shows o id now result code rows c one (ground (arith, y))
              (found_challenge o id (closed_challenges o id now result code rows) c done_it.1)
      ])
