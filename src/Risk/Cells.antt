-- ===== src/Risk/Cells.antt =====
-- A decided window, described by its events and the cell that their scores fall into.
use swar.Prelude.{
  ◌≡◌, arith, List, ◌∷◌, ◌++◌, Option, none, some, true, false, any, find, All, string_eq,
}
use swar.Risk.Types.{
  EvidenceType, EvidenceReadiness, ScoreTarget, RiskState, Floats, readiness_eq, target_eq,
  state_eq,
}
use swar.Risk.Evidence.{Evidence, RiskPolicy}
use swar.Risk.Window.{
  evaluate_window, of_type, to_list, identity_threshold, spoof_threshold, matrix_state,
}
use swar.Risk.Decisions.{decision-Backing}
use swar.Risk.Readings.{Reads, Combined, identity-Reads, spoof_score-Combined}
use swar.Risk.Gates.{IsGood, quality_gate_failed-All, some_not_ready-All}

module _ ⦃fp : Floats⦄ where
  open fp use {Number, of_nat, add, sub, mul, lt, le}

  -- The thresholds: a score that is high by the state that holds has to clear the lower one only.
  unfoldable pub identity_asked : RiskPolicy Number → RiskState → Number
  identity_asked policy RiskState.verified = policy.thresholds.identity_clear
  identity_asked policy RiskState.critical = policy.thresholds.identity_clear
  identity_asked policy RiskState.high_risk = policy.thresholds.identity_enter
  identity_asked policy RiskState.unverified = policy.thresholds.identity_enter

  unfoldable pub spoof_asked : RiskPolicy Number → RiskState → Number
  spoof_asked policy RiskState.critical = policy.thresholds.spoof_clear
  spoof_asked policy RiskState.high_risk = policy.thresholds.spoof_clear
  spoof_asked policy RiskState.verified = policy.thresholds.spoof_enter
  spoof_asked policy RiskState.unverified = policy.thresholds.spoof_enter

  -- CRITICAL is the expected speaker's voice in a spoof, VERIFIED that voice and no spoof, HIGH_RISK
  -- a spoof of another voice, and UNVERIFIED neither.
  unfoldable pub Cell : RiskPolicy Number → RiskState → Number → Number → RiskState → Type 0
  unfolding identity_asked spoof_asked
  Cell policy current x y RiskState.critical =
      (le (identity_asked policy current) x ≡ true) × (le (spoof_asked policy current) y ≡ true)
  Cell policy current x y RiskState.verified =
      (le (identity_asked policy current) x ≡ true) × (le (spoof_asked policy current) y ≡ false)
  Cell policy current x y RiskState.high_risk =
      (le (identity_asked policy current) x ≡ false) × (le (spoof_asked policy current) y ≡ true)
  Cell policy current x y RiskState.unverified =
      (le (identity_asked policy current) x ≡ false) × (le (spoof_asked policy current) y ≡ false)

  matrix_state-Cell :
      (policy : RiskPolicy Number) (current : RiskState) (x y : Number) (s : RiskState)
      → s
        ≡ matrix_state
            (le (identity_threshold policy current) x)
            (le (spoof_threshold policy current) y)
      → Cell policy current x y s
  unfolding Cell identity_threshold spoof_threshold identity_asked spoof_asked
  matrix_state-Cell policy current x y s h = ground (arith, h)

  -- A window that is decided for the state `s` while `current` holds.
  pub record Decided (policy : RiskPolicy Number) (current : RiskState)
      (events : List (Evidence Number)) (s : RiskState) : Type 0 where
    pub identity : Evidence Number
    pub fast : Option (Evidence Number)
    pub deep : Option (Evidence Number)
    pub identity_found : find (of_type EvidenceType.identity) events ≡ some identity
    pub fast_found : find (of_type EvidenceType.spoof_fast) events ≡ fast
    pub deep_found : find (of_type EvidenceType.spoof_deep) events ≡ deep
    pub not_insufficient : find (of_type EvidenceType.insufficient_evidence) events ≡ none
    pub not_broken : any (of_type EvidenceType.pipeline_error) events ≡ false
    pub all_ready :
        All (λ e. e.readiness ≡ EvidenceReadiness.ready) (identity ∷ to_list fast ++ to_list deep)
    pub all_good : All (IsGood policy) (identity ∷ to_list fast ++ to_list deep)
    pub identity_score : Number
    pub identity_read : Reads identity ScoreTarget.expected_speaker identity_score
    pub spoof_risk : Number
    pub spoof_combined : Combined policy fast deep spoof_risk
    pub in_cell : Cell policy current identity_score spoof_risk s

  -- A window that is decided for a state holds neither an insufficiency nor a pipeline error. Its
  -- first identity event and its first event of each detector are ready, long and good enough and
  -- without a reason code that rejects. The identity score and the combined score of the detectors
  -- are read by target and direction from scores from 0 to 1, the calibrated before the raw. The
  -- state is CRITICAL where both reach their threshold, VERIFIED where the identity score alone does,
  -- HIGH_RISK where the spoof score alone does, and UNVERIFIED where neither does: the clear
  -- threshold of the identity counts from VERIFIED and CRITICAL, that of the spoof from HIGH_RISK and
  -- CRITICAL, and the enter thresholds otherwise.
  pub decision-Decided :
      (policy : RiskPolicy Number) (current : RiskState) (first : Evidence Number)
      (rest : List (Evidence Number)) (s : RiskState)
      → (evaluate_window policy current first rest).state ≡ some s
      → Decided policy current (first ∷ rest) s
  decision-Decided policy current first rest s h =
      let b = decision-Backing policy current first rest s h in
      record {
        identity = b.identity;
        fast = b.fast;
        deep = b.deep;
        identity_found = b.identity_found;
        fast_found = b.fast_found;
        deep_found = b.deep_found;
        not_insufficient = b.not_insufficient;
        not_broken = b.not_broken;
        all_ready = some_not_ready-All _ b.all_ready;
        all_good = quality_gate_failed-All policy _ b.good_quality;
        identity_score = b.identity_score;
        identity_read = identity-Reads b.identity b.identity_score b.identity_scored;
        spoof_risk = b.spoof;
        spoof_combined = spoof_score-Combined policy b.fast b.deep b.spoof b.spoof_scored;
        in_cell = matrix_state-Cell policy current b.identity_score b.spoof s b.in_matrix;
      }
