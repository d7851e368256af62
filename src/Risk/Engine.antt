-- ===== src/Risk/Engine.antt =====
-- `evaluateRiskEvidence` of backend/src/modules/risk/risk-engine.ts: the windows in order, and the
-- effective state that changes only after enough windows in a row.
use swar.Prelude.{
  ℕ, suc, ◌+◌, ◌-◌, Bool, true, false, List, [], ◌∷◌, ◌++◌, ◌&&◌, ◌||◌, ltb, leb, ◌==◌, ◌===◌,
  if◌then◌else◌, not, Option, none, some, map, keep, every, sort, unique, string_eq, String, Result,
  ok, err,
}
use swar.Risk.Types.{
  EvidenceMode, ModelLifecycleStatus, EvidenceReadiness, InterventionType, RiskState,
  RiskAssessmentOutcome, Floats, readiness_eq, mode_eq, model_status_eq, state_eq, state_severity,
}
use swar.Risk.Evidence.{Evidence, RiskPolicy, Hysteresis, Interventions}
use swar.Risk.Select.{select_latest}
use swar.Risk.Window.{
  ReasonCode, hysteresis_pending, evidence_component_missing, WindowDecision, insufficient,
  evaluate_window, maximum, to_list,
}

-- The variables of the loop over the windows.
pub record Progress : Type 0 where
  pub effective_state : RiskState
  pub pending_state : Option RiskState
  pub pending_count : ℕ
  pub previous_valid_sequence : Option ℕ
  pub last_decision : WindowDecision

unfoldable pub start : ℕ → Progress
unfolding insufficient
start observed_at = record {
  effective_state = RiskState.unverified;
  pending_state = none;
  pending_count = 0;
  previous_valid_sequence = none;
  last_decision = insufficient 0 observed_at evidence_component_missing;
}

-- `gap > 0n && gap <= maximumWindowGap + 1`. Where the difference would be negative, `-` gives 0, and
-- the test fails on both.
abbrev pub contiguous : Hysteresis → Option ℕ → ℕ → Bool
contiguous h none sequence = leb 1 (h.maximum_window_gap + 1)
contiguous h (some previous) sequence =
    ltb 0 (sequence - previous) && leb (sequence - previous) (h.maximum_window_gap + 1)

abbrev pub is_pending : Option RiskState → RiskState → Bool
is_pending none state = false
is_pending (some pending) state = pending === state

-- How many windows must agree before `effective` gives way to `state`.
abbrev pub required_windows : Hysteresis → RiskState → RiskState → ℕ
required_windows h effective state =
    if (effective === RiskState.high_risk || effective === RiskState.critical)
      && ltb (state_severity state) (state_severity effective)
    then h.clear_consecutive_windows
    else h.entry_consecutive_windows

-- The count of windows in a row that agree on `state`, this one included.
abbrev pub count_after : Hysteresis → ℕ → RiskState → Option RiskState → ℕ → Option ℕ → ℕ
count_after h sequence state pending count previous =
    if is_pending pending state && contiguous h previous sequence then suc count else 1

-- A valid decision for another state than the effective one.
unfoldable pub propose : Hysteresis → ℕ → WindowDecision → RiskState → Progress → Progress
propose h sequence decision state p =
    let count =
      count_after h sequence state p.pending_state p.pending_count p.previous_valid_sequence in
    if leb (required_windows h p.effective_state state) count
    then record {
      effective_state = state;
      pending_state = none;
      pending_count = 0;
      previous_valid_sequence = some sequence;
      last_decision = decision;
    }
    else record {
      effective_state = p.effective_state;
      pending_state = some state;
      pending_count = count;
      previous_valid_sequence = some sequence;
      last_decision = decision;
    }

-- One round of the loop, from the decision on.
unfoldable pub advance_by : Hysteresis → ℕ → WindowDecision → Option RiskState → Progress → Progress
unfolding propose
advance_by h sequence decision none p = record p {
  pending_state = none;
  pending_count = 0;
  last_decision = decision;
}
advance_by h sequence decision (some state) p =
    if state === p.effective_state
    then record p {
      pending_state = none;
      pending_count = 0;
      previous_valid_sequence = some sequence;
      last_decision = decision;
    }
    else propose h sequence decision state p

unfoldable pub advance : Hysteresis → ℕ × WindowDecision → Progress → Progress
unfolding advance_by
advance h (sequence, decision) p = advance_by h sequence decision decision.state p

-- An entry of `byWindow`: a sequence and its events, of which there is one at least.
pub record Window (Number : Type 0) : Type 0 where
  pub sequence : ℕ
  pub first : Evidence Number
  pub rest : List (Evidence Number)

module _ {Number : Type 0} where
  unfoldable pub add_to_window : Evidence Number → List (Window Number) → List (Window Number)
  add_to_window event [] =
      record { sequence = event.window_sequence; first = event; rest = [] } ∷ []
  add_to_window event (w ∷ ws) =
      if w.sequence == event.window_sequence
      then record w { rest = w.rest ++ event ∷ [] } ∷ ws
      else w ∷ add_to_window event ws

  unfoldable pub group_from : List (Window Number) → List (Evidence Number) → List (Window Number)
  group_from ws [] = ws
  group_from ws (event ∷ events) = group_from (add_to_window event ws) events

  abbrev pub earlier : Window Number → Window Number → Bool
  earlier left right = ltb left.sequence right.sequence

  unfoldable pub by_window : List (Evidence Number) → List (Window Number)
  unfolding group_from add_to_window sort
  by_window selected = sort earlier (group_from [] selected)

-- `selected.at(-1)`
abbrev pub last_of {ℓ} : {A : Type ℓ} → A → List A → A
last_of x [] = x
last_of x (y ∷ ys) = last_of y ys

pub record RiskEngineResult : Type 0 where
  pub outcome : RiskAssessmentOutcome
  pub effective_state : RiskState
  pub reason_code : ReasonCode
  pub proposed_interventions : List InterventionType
  pub evidence_event_ids : List ℕ
  pub max_window_sequence : ℕ
  pub occurred_at : ℕ
  pub all_scores_calibrated : Bool
  pub calibration_versions : List String
  pub all_models_active_and_traceable : Bool

-- `throw new Error('Accepted risk evidence is required.')`
pub data EngineError : Type 0 where
  evidence_required : EngineError

abbrev pub interventions_of : Interventions → RiskState → List InterventionType
interventions_of i RiskState.critical = i.critical
interventions_of i RiskState.high_risk = i.high_risk
interventions_of i _ = []

abbrev pub reason_of : RiskState → WindowDecision → Option RiskState → ReasonCode
reason_of effective decision none = decision.reason_code
reason_of effective decision (some state) =
    if not (state === effective) then hysteresis_pending else decision.reason_code

abbrev pub is_some {ℓ} : {A : Type ℓ} → Option A → Bool
is_some none = false
is_some (some a) = true

abbrev pub is_active : Option ModelLifecycleStatus → Bool
is_active none = false
is_active (some status) = status === ModelLifecycleStatus.active

module _ {Number : Type 0} where
  abbrev pub ready_events : List (Evidence Number) → List (Evidence Number)
  ready_events = keep (λ e. e.readiness === EvidenceReadiness.ready)

  abbrev pub is_calibrated : Evidence Number → Bool
  is_calibrated e =
      e.evidence_mode === EvidenceMode.calibrated
      && (is_some e.calibrated_score && is_some e.calibration_version)

  abbrev pub is_traceable : Evidence Number → Bool
  is_traceable e = is_active e.model_status && (e.model_trace_matches && is_some e.score_target)

  -- `scored.length > 0 && scored.every(p)`
  abbrev pub some_and_every : (Evidence Number → Bool) → List (Evidence Number) → Bool
  some_and_every p [] = false
  some_and_every p (e ∷ es) = every p (e ∷ es)

  abbrev pub versions : List (Evidence Number) → List String
  versions [] = []
  versions (e ∷ es) = to_list e.calibration_version ++ versions es

module _ ⦃fp : Floats⦄ where
  open fp use {Number}

  -- The loop over the windows.
  unfoldable pub run_windows : RiskPolicy Number → List (Window Number) → Progress → Progress
  run_windows policy [] p = p
  run_windows policy (w ∷ ws) p = run_windows policy ws (
      advance policy.hysteresis
        (w.sequence, evaluate_window policy p.effective_state w.first w.rest) p)

  -- What is returned once the loop is done; the selected events are `first ∷ rest`.
  unfoldable pub result_of :
      RiskPolicy Number → Evidence Number → List (Evidence Number) → Progress → RiskEngineResult
  result_of policy first rest p =
      let selected = first ∷ rest in
      let scored = ready_events selected in
      record {
        outcome = p.last_decision.outcome;
        effective_state = p.effective_state;
        reason_code = reason_of p.effective_state p.last_decision p.last_decision.state;
        proposed_interventions = interventions_of policy.interventions p.effective_state;
        evidence_event_ids = map (λ e. e.id) selected;
        max_window_sequence = (last_of first rest).window_sequence;
        occurred_at = maximum first.observed_at (map (λ e. e.observed_at) rest);
        all_scores_calibrated = some_and_every is_calibrated scored;
        calibration_versions = unique (versions scored);
        all_models_active_and_traceable = some_and_every is_traceable scored;
      }

  unfoldable pub evaluate_selected :
      RiskPolicy Number → List (Evidence Number) → Result EngineError RiskEngineResult
  unfolding run_windows result_of start by_window unique
  evaluate_selected policy [] = err evidence_required
  evaluate_selected policy (first ∷ rest) = ok (
      result_of policy first rest
        (run_windows policy (by_window (first ∷ rest)) (start first.observed_at)))

  unfoldable pub evaluate_risk_evidence :
      List (Evidence Number) → RiskPolicy Number → Result EngineError RiskEngineResult
  unfolding evaluate_selected select_latest
  evaluate_risk_evidence evidence policy = evaluate_selected policy (select_latest evidence)
