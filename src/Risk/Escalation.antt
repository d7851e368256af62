-- ===== src/Risk/Escalation.antt =====
-- From the evidence to the effective state: no alarm without a streak of windows.
use mathlib.Core.Path.{subst}
use Prim.Native.Nat.{min}
use swar.Prelude.{
  ℕ, ◌≤◌, ◌≡◌, ◌≢◌, inl, inr, refl, sym, ◌∙◌, ap, List, [], ◌∷◌, ◌++◌, arith, Bool-cases, ◌===◌, ok,
  false,
}
use swar.Risk.Types.{RiskState, Floats, state_eq, state_eq_iff}
use swar.Risk.Evidence.{Evidence, Hysteresis, RiskPolicy}
use swar.Risk.Select.{select_latest}
use swar.Risk.Window.{WindowDecision, evaluate_window}
use swar.Risk.Engine.{
  Progress, start, advance, required_windows, Window, by_window, run_windows, evaluate_selected,
  evaluate_risk_evidence, RiskEngineResult, result_of,
}
use swar.Risk.Debounce.{History, after, Streak, change_is_earned, Streak-mono}

module _ ⦃fp : Floats⦄ where
  open fp use {Number}

  -- The decisions that the loop over the windows makes, the newest first, before those of `ds`.
  pub decisions : RiskPolicy Number → List (Window Number) → Progress → History → History
  decisions policy [] p ds = ds
  decisions policy (w ∷ ws) p ds =
      let d : ℕ × WindowDecision =
        (w.sequence, evaluate_window policy p.effective_state w.first w.rest) in
      decisions policy ws (advance policy.hysteresis d p) (d ∷ ds)

  run_windows-after :
      (policy : RiskPolicy Number) (ws : List (Window Number)) (p : Progress) (at : ℕ)
      (ds : History)
      → p ≡ after policy.hysteresis at ds
      → run_windows policy ws p ≡ after policy.hysteresis at (decisions policy ws p ds)
  unfolding run_windows decisions
  run_windows-after policy [] p at ds e = e
  run_windows-after policy (w ∷ ws) p at ds e =
      run_windows-after policy ws _ at (d ∷ ds) (ap (advance policy.hysteresis d) e)
    where
      d : ℕ × WindowDecision
      d = (w.sequence, evaluate_window policy p.effective_state w.first w.rest)

  abbrev pub first_time : List (Evidence Number) → ℕ
  first_time [] = 0
  first_time (e ∷ es) = e.observed_at

  -- The decisions on the windows of some evidence.
  abbrev pub decisions_on : RiskPolicy Number → List (Evidence Number) → History
  decisions_on policy evidence =
      decisions policy (by_window (select_latest evidence))
        (start (first_time (select_latest evidence))) []

-- A state other than the first was entered by a streak.
earned_state :
    (h : Hysteresis) (at : ℕ) (ds : History) (s : RiskState)
    → s ≢ RiskState.unverified
    → (after h at ds).effective_state ≡ s
    → (newer : History) × (older : History) × (old : RiskState) × (ds ≡ newer ++ older)
      × Streak h s (required_windows h old s) older
unfolding start
earned_state h at [] s ne e = absurd (ne (sym e))
earned_state h at ((q, d) ∷ ds) s ne e = elim (Bool-cases ((after h at ds).effective_state === s)) [
  | inl same ↦
      let (newer, older, old, split, k) = earned_state h at ds s ne ((state_eq_iff _ _).0 same) in
      ((q, d) ∷ newer, older, old, ap (◌∷◌ (q, d)) split, k)
  | inr other ↦ ([], (q, d) ∷ ds, (after h at ds).effective_state, refl, entered other)
]
  where
    entered :
        ((after h at ds).effective_state === s) ≡ false
        → Streak h s (required_windows h (after h at ds).effective_state s) ((q, d) ∷ ds)
    entered other =
        subst
          (λ x.
            x ≢ (after h at ds).effective_state
            → Streak h x (required_windows h (after h at ds).effective_state x) ((q, d) ∷ ds))
          e (change_is_earned h at q d ds)
          (λ eq. ground (arith, state_eq_iff (after h at ds).effective_state s, sym eq))

-- How many windows in a row a state other than the first needs at least.
abbrev pub least_streak : Hysteresis → RiskState → ℕ
least_streak h RiskState.critical = h.entry_consecutive_windows
least_streak h s = min h.entry_consecutive_windows h.clear_consecutive_windows

least_streak-le : (h : Hysteresis) (old s : RiskState) → least_streak h s ≤ required_windows h old s
least_streak-le h old s = ground arith

module _ ⦃fp : Floats⦄ where
  open fp use {Number}

  effective_of_ok :
      (policy : RiskPolicy Number) (events : List (Evidence Number)) (r : RiskEngineResult)
      → evaluate_selected policy events ≡ ok r
      → r.effective_state
        ≡ (run_windows policy (by_window events) (start (first_time events))).effective_state
  unfolding evaluate_selected result_of
  effective_of_ok policy [] r e = cc
  effective_of_ok policy (first ∷ rest) r e = ground arith

  -- Whatever the evidence, a result other than UNVERIFIED is backed by a stretch of the decisions on
  -- its windows: that many windows in a row, each decided for that very state, with no gap above the
  -- policy's between two of them. For CRITICAL the stretch has the policy's entry count, and for
  -- the others the entry or the clear count, whichever is less.
  pub alarm_is_earned :
      (policy : RiskPolicy Number) (evidence : List (Evidence Number)) (r : RiskEngineResult)
      → evaluate_risk_evidence evidence policy ≡ ok r
      → r.effective_state ≢ RiskState.unverified
      → (newer : History) × (older : History) × (decisions_on policy evidence ≡ newer ++ older)
        × Streak policy.hysteresis r.effective_state
            (least_streak policy.hysteresis r.effective_state)
            older
  unfolding evaluate_risk_evidence
  alarm_is_earned policy evidence r e ne =
      let events = select_latest evidence in
      let at = first_time events in
      let last =
        effective_of_ok policy events r e
        ∙ ap (λ (p : Progress). p.effective_state)
            (run_windows-after policy (by_window events) (start at) at [] refl) in
      let (newer, older, old, split, k) =
        earned_state policy.hysteresis at (decisions_on policy evidence) r.effective_state ne
          (sym last) in
      (
        newer,
        older,
        split,
        Streak-mono policy.hysteresis r.effective_state _ _ older
            (least_streak-le policy.hysteresis old r.effective_state) k,
      )
