-- ===== src/Risk/Silence.antt =====
-- Evidence that cannot raise an alarm: where no event carries an identity score.
use swar.Prelude.{
  ℕ, ◌≡◌, ◌≢◌, refl, inl, inr, List, [], ◌∷◌, ◌++◌, none, arith, All, any, find, ok, All-sort,
  Option-cases, Bool-cases,
}
use swar.Risk.Types.{
  EvidenceType, RiskState, RiskAssessmentOutcome, Floats, evidence_type_eq, evidence_type_eq_iff,
}
use swar.Risk.Evidence.{Evidence, RiskPolicy, Hysteresis}
use swar.Risk.Select.{select_latest, before}
use swar.Risk.Window.{evaluate_window, decide_components, insufficient, of_type, WindowDecision}
use swar.Risk.Engine.{
  Progress, start, advance, advance_by, Window, by_window, group_from, add_to_window, earlier,
  run_windows, evaluate_selected, evaluate_risk_evidence, RiskEngineResult, result_of,
}
use swar.Risk.Newest.{collect-All}

module _ {Number : Type 0} where
  abbrev pub HasNoIdentity : Evidence Number → Type 0
  HasNoIdentity e = e.evidence_type ≢ EvidenceType.identity

  find-none :
      (events : List (Evidence Number))
      → All HasNoIdentity events
      → find (of_type EvidenceType.identity) events ≡ none
  find-none [] h = refl
  find-none (e ∷ es) h =
      ground
        (arith, evidence_type_eq_iff e.evidence_type EvidenceType.identity, find-none es h.1, h.0)

  abbrev IsSilent : Window Number → Type 0
  IsSilent w = All HasNoIdentity (w.first ∷ w.rest)

  All-snoc :
      (P : Evidence Number → Type 0) (xs : List (Evidence Number)) (e : Evidence Number)
      → All P xs
      → P e
      → All P (xs ++ e ∷ [])
  All-snoc P [] e h p = (p, tt)
  All-snoc P (x ∷ xs) e h p = (h.0, All-snoc P xs e h.1 p)

  add_to_window-IsSilent :
      (e : Evidence Number) (ws : List (Window Number))
      → HasNoIdentity e
      → All IsSilent ws
      → All IsSilent (add_to_window e ws)
  unfolding add_to_window
  add_to_window-IsSilent e [] p h = ((p, tt), tt)
  add_to_window-IsSilent e (w ∷ ws) p h =
      ground (arith, add_to_window-IsSilent e ws p h.1, All-snoc HasNoIdentity w.rest e h.0.1 p)

  group_from-IsSilent :
      (ws : List (Window Number)) (events : List (Evidence Number))
      → All IsSilent ws
      → All HasNoIdentity events
      → All IsSilent (group_from ws events)
  unfolding group_from
  group_from-IsSilent ws [] h k = h
  group_from-IsSilent ws (e ∷ es) h k =
      group_from-IsSilent (add_to_window e ws) es (add_to_window-IsSilent e ws k.0 h) k.1

module _ ⦃fp : Floats⦄ where
  open fp use {Number}

  silent_window :
      (policy : RiskPolicy Number) (current : RiskState) (first : Evidence Number)
      (rest : List (Evidence Number))
      → All HasNoIdentity (first ∷ rest)
      → let d = evaluate_window policy current first rest in
        (d.state ≡ none) × (d.outcome ≡ RiskAssessmentOutcome.insufficient_evidence)
  unfolding evaluate_window decide_components insufficient
  silent_window policy current first rest h =
      elim (Option-cases (find (of_type EvidenceType.insufficient_evidence) (first ∷ rest))) [
        | inr (e, found) ↦ rw (found, evaluate_window) (refl, refl)
        | inl no_i ↦ elim (Bool-cases (any (of_type EvidenceType.pipeline_error) (first ∷ rest))) [
          | inl broken ↦ rw (no_i, broken, evaluate_window) (refl, refl)
          | inr no_p ↦
              rw (no_i, no_p, evaluate_window)
                (rw (find-none (first ∷ rest) h, decide_components) (refl, refl))
        ]
      ]

  abbrev IsQuiet : Progress → Type 0
  IsQuiet p =
      (p.effective_state ≡ RiskState.unverified)
      × (p.last_decision.outcome ≡ RiskAssessmentOutcome.insufficient_evidence)

  advance-IsQuiet :
      (h : Hysteresis) (sequence : ℕ) (d : WindowDecision) (p : Progress)
      → d.state ≡ none
      → d.outcome ≡ RiskAssessmentOutcome.insufficient_evidence
      → IsQuiet p
      → IsQuiet (advance h (sequence, d) p)
  unfolding advance advance_by
  advance-IsQuiet h q d p e o k = rw (e, advance_by) (k.0, o)

  run_windows-IsQuiet :
      (policy : RiskPolicy Number) (ws : List (Window Number)) (p : Progress)
      → All IsSilent ws
      → IsQuiet p
      → IsQuiet (run_windows policy ws p)
  unfolding run_windows
  run_windows-IsQuiet policy [] p h k = k
  run_windows-IsQuiet policy (w ∷ ws) p h k =
      let (none_decided, refused) = silent_window policy p.effective_state w.first w.rest h.0 in
      run_windows-IsQuiet policy ws _ h.1
        (advance-IsQuiet policy.hysteresis w.sequence _ p none_decided refused k)

  selected_quiet :
      (policy : RiskPolicy Number) (events : List (Evidence Number)) (r : RiskEngineResult)
      → All HasNoIdentity events
      → evaluate_selected policy events ≡ ok r
      → (r.effective_state ≡ RiskState.unverified)
        × (r.outcome ≡ RiskAssessmentOutcome.insufficient_evidence)
        × (r.proposed_interventions ≡ [])
  unfolding evaluate_selected result_of start insufficient by_window
  selected_quiet policy [] r h e = cc
  selected_quiet policy (first ∷ rest) r h e = ground (
    arith,
    run_windows-IsQuiet policy (by_window (first ∷ rest)) (start first.observed_at)
        (All-sort IsSilent earlier _ (group_from-IsSilent [] (first ∷ rest) tt h)) (refl, refl),
  )

  -- Evidence without any identity event, and so insufficiency reports and pipeline errors alone,
  -- never leaves UNVERIFIED: the outcome is insufficient evidence and no intervention is proposed.
  pub no_identity_no_alarm :
      (policy : RiskPolicy Number) (evidence : List (Evidence Number)) (r : RiskEngineResult)
      → All HasNoIdentity evidence
      → evaluate_risk_evidence evidence policy ≡ ok r
      → (r.effective_state ≡ RiskState.unverified)
        × (r.outcome ≡ RiskAssessmentOutcome.insufficient_evidence)
        × (r.proposed_interventions ≡ [])
  unfolding evaluate_risk_evidence select_latest
  no_identity_no_alarm policy evidence r h e =
      selected_quiet policy (select_latest evidence) r
        (All-sort HasNoIdentity before _ (collect-All HasNoIdentity [] evidence tt h)) e
