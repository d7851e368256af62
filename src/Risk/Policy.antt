-- ===== src/Risk/Policy.antt =====
-- `parseRiskPolicyDocument` of backend/src/modules/risk/risk-policy.ts. Every refusal throws the one
-- `RiskPolicyValidationError`.
use Prim.Native.String.{compare as compare_texts}
use Prim.Native.Nat.{Ordering}
use swar.Prelude.{
  ℕ, Bool, true, false, List, [], ◌∷◌, ◌&&◌, ◌||◌, not, Option, none, some, ltb, ◌==◌, ◌===◌,
  includes, if◌then◌else◌, String, string_eq, Result, ok, err, ◌>>=◌, ◌>>◌, throw_if, sort, unique,
  Eq, ◌↔◌, ◌≡◌, arith,
}
use swar.Risk.Types.{InterventionType, Floats}
use swar.Risk.Evidence.{
  ActivationMode, engineering_only, production, coerced_mode, ThresholdClassification,
  engineering_fixture_not_calibrated, promoted_calibration, coerced_classification, RiskPolicy,
  Quality, Thresholds, Fusion, Hysteresis, Interventions,
}
use swar.Risk.Json.{
  Json, null, num, str, arr, obj, Items, nil, cons, Fields, keys, get, text_length, coerce,
}
use swar.Risk.Gate.{is_production, is_promoted_calibration}

pub data RiskPolicyError : Type 0 where
  risk_policy_invalid : RiskPolicyError

abbrev pub Parsed : Type 0 → Type 0
Parsed = Result RiskPolicyError

abbrev pub refuse_if : Bool → Parsed (Unit {0})
refuse_if b = throw_if b risk_policy_invalid

abbrev pub text_less : String → String → Bool
text_less a b = elim (compare_texts a b) [ Ordering.lt ↦ true | _ ↦ false ]

abbrev pub same_texts : List String → List String → Bool
same_texts [] [] = true
same_texts (a ∷ xs) (b ∷ ys) = a === b && same_texts xs ys
same_texts _ _ = false

abbrev pub intervention_index : InterventionType → ℕ
intervention_index InterventionType.warn = 0
intervention_index InterventionType.hold_protected_action = 1
intervention_index InterventionType.require_step_up = 2
intervention_index InterventionType.require_callback = 3
intervention_index InterventionType.supervisor_escalation = 4
intervention_index InterventionType.end_call = 5

pub intervention_eq_iff :
    (a b : InterventionType) → ((intervention_index a == intervention_index b) ≡ true) ↔ (a ≡ b)
intervention_eq_iff a b = ground arith

instance abbrev pub intervention_eq : Eq InterventionType
intervention_eq = record {
  same = λ a b. intervention_index a == intervention_index b;
  same_iff = intervention_eq_iff;
}

unfoldable pub intervention_of : String → Option InterventionType
intervention_of s =
    if s === "WARN"
    then some InterventionType.warn
    else if s === "HOLD_PROTECTED_ACTION"
    then some InterventionType.hold_protected_action
    else if s === "REQUIRE_STEP_UP"
    then some InterventionType.require_step_up
    else if s === "REQUIRE_CALLBACK"
    then some InterventionType.require_callback
    else if s === "SUPERVISOR_ESCALATION"
    then some InterventionType.supervisor_escalation
    else if s === "END_CALL"
    then some InterventionType.end_call
    else none

module _ {N : Type 0} where
  unfoldable pub object : Json N → Parsed (Fields N)
  object (obj fs) = ok fs
  object _ = err risk_policy_invalid

  unfoldable pub exact_keys : Fields N → List String → Parsed (Unit {0})
  unfolding sort
  exact_keys fs expected =
      refuse_if (not (same_texts (sort text_less (keys fs)) (sort text_less expected)))

  -- A text of at most `maximum` code units that is not empty.
  unfoldable pub text : Json N → ℕ → Parsed String
  text (str s) maximum = do refuse_if (text_length s == 0 || ltb maximum (text_length s)); ok s
  text _ maximum = err risk_policy_invalid

  unfoldable pub text_or_null : Json N → ℕ → Parsed (Option String)
  unfolding text
  text_or_null null maximum = ok none
  text_or_null v maximum = do s ← text v maximum; ok (some s)

  unfoldable pub is_text : Json N → String → Bool
  is_text (str s) t = s === t
  is_text _ t = false

  -- The items of an array of texts, each of at most 80 code units.
  unfoldable pub reason_codes : Items N → Parsed (List String)
  reason_codes nil = ok []
  reason_codes (cons (str s) xs) = do
    refuse_if (ltb 80 (text_length s))
    rest ← reason_codes xs
    ok (s ∷ rest)
  reason_codes (cons _ xs) = err risk_policy_invalid

  unfoldable pub rejecting_codes : Json N → Parsed (List String)
  unfolding reason_codes unique
  rejecting_codes (arr xs) = do codes ← reason_codes xs; ok (unique codes)
  rejecting_codes _ = err risk_policy_invalid

  unfoldable pub intervention_item : Json N → Parsed InterventionType
  unfolding intervention_of
  intervention_item (str s) = elim (intervention_of s) [
    | none ↦ err risk_policy_invalid
    | some t ↦ ok t
  ]
  intervention_item _ = err risk_policy_invalid

  unfoldable pub intervention_items : Items N → Parsed (List InterventionType)
  intervention_items nil = ok []
  intervention_items (cons x xs) = do
    t ← intervention_item x
    rest ← intervention_items xs
    ok (t ∷ rest)

  unfoldable pub interventions : Json N → Parsed (List InterventionType)
  unfolding intervention_items unique
  interventions (arr xs) = do types ← intervention_items xs; ok (unique types)
  interventions _ = err risk_policy_invalid

  -- What the two fields are once their text is one of the names; a value that is no text stays.
  unfoldable pub activation_mode_of : Json N → ActivationMode
  activation_mode_of (str s) = if s === "PRODUCTION" then production else engineering_only
  activation_mode_of _ = coerced_mode

  unfoldable pub classification_of : Json N → ThresholdClassification
  classification_of (str s) =
      if s === "PROMOTED_CALIBRATION"
      then promoted_calibration
      else engineering_fixture_not_calibrated
  classification_of _ = coerced_classification

abbrev pub no_version : Option String → Bool
no_version none = true
no_version (some v) = false

-- The two marks of production come together, and with a calibration version.
unfoldable pub inconsistent_production :
    ActivationMode → ThresholdClassification → Option String → Bool
inconsistent_production mode classification version =
    (is_production mode || is_promoted_calibration classification)
    && (not (is_production mode)
        || (not (is_promoted_calibration classification) || no_version version))

abbrev pub mode_names : List String
mode_names = "ENGINEERING_ONLY" ∷ "PRODUCTION" ∷ []

abbrev pub classification_names : List String
classification_names = "ENGINEERING_FIXTURE_NOT_CALIBRATED" ∷ "PROMOTED_CALIBRATION" ∷ []

abbrev pub root_keys : List String
root_keys =
    "schemaVersion" ∷ "activationMode" ∷ "thresholdClassification" ∷ "thresholdVersion"
    ∷ "calibrationVersion" ∷ "quality" ∷ "thresholds" ∷ "fusion" ∷ "hysteresis" ∷ "interventions"
    ∷ []

abbrev pub quality_keys : List String
quality_keys = "minimumScore" ∷ "minimumSpeechDurationMs" ∷ "rejectingReasonCodes" ∷ []

abbrev pub thresholds_keys : List String
thresholds_keys = "identityEnter" ∷ "identityClear" ∷ "spoofEnter" ∷ "spoofClear" ∷ []

abbrev pub fusion_keys : List String
fusion_keys = "fastWeight" ∷ "deepWeight" ∷ []

abbrev pub hysteresis_keys : List String
hysteresis_keys = "entryConsecutiveWindows" ∷ "clearConsecutiveWindows" ∷ "maximumWindowGap" ∷ []

abbrev pub interventions_keys : List String
interventions_keys = "highRisk" ∷ "critical" ∷ []

module _ ⦃fp : Floats⦄ where
  open fp use {Number, of_nat, to_nat, add, sub, mul, abs, epsilon, lt, is_finite, is_integer, show}

  unfoldable pub number : Json Number → ℕ → ℕ → Parsed Number
  number (num n) minimum maximum = do
    refuse_if (not (is_finite n) || (lt n (of_nat minimum) || lt (of_nat maximum) n))
    ok n
  number _ minimum maximum = err risk_policy_invalid

  unfoldable pub integer : Json Number → ℕ → ℕ → Parsed ℕ
  unfolding number
  integer v minimum maximum = do
    n ← number v minimum maximum
    refuse_if (not (is_integer n))
    ok (to_nat n)

  unfoldable pub parse_quality : Json Number → Parsed (Quality Number)
  unfolding object exact_keys rejecting_codes number integer
  parse_quality v = do
    fs ← object v
    exact_keys fs quality_keys
    codes ← rejecting_codes (get "rejectingReasonCodes" fs)
    score ← number (get "minimumScore" fs) 0 1
    duration ← integer (get "minimumSpeechDurationMs" fs) 0 300000
    ok (record {
      minimum_score = score;
      minimum_speech_duration_ms = duration;
      rejecting_reason_codes = codes;
    })

  unfoldable pub parse_thresholds : Json Number → Parsed (Thresholds Number)
  unfolding object exact_keys number
  parse_thresholds v = do
    fs ← object v
    exact_keys fs thresholds_keys
    ie ← number (get "identityEnter" fs) 0 1
    ic ← number (get "identityClear" fs) 0 1
    se ← number (get "spoofEnter" fs) 0 1
    sc ← number (get "spoofClear" fs) 0 1
    ok (record { identity_enter = ie; identity_clear = ic; spoof_enter = se; spoof_clear = sc })

  unfoldable pub weights_off : Number → Number → Bool
  weights_off fast deep = lt (mul epsilon (of_nat 8)) (abs (sub (add fast deep) (of_nat 1)))

  unfoldable pub parse_fusion : Json Number → Parsed (Fusion Number)
  unfolding object exact_keys number
  parse_fusion v = do
    fs ← object v
    exact_keys fs fusion_keys
    fast ← number (get "fastWeight" fs) 0 1
    deep ← number (get "deepWeight" fs) 0 1
    refuse_if (weights_off fast deep)
    ok (record { fast_weight = fast; deep_weight = deep })

  unfoldable pub parse_hysteresis : Json Number → Parsed Hysteresis
  unfolding object exact_keys integer
  parse_hysteresis v = do
    fs ← object v
    exact_keys fs hysteresis_keys
    entry ← integer (get "entryConsecutiveWindows" fs) 1 100
    clear ← integer (get "clearConsecutiveWindows" fs) 1 100
    gap ← integer (get "maximumWindowGap" fs) 0 10000
    ok (record {
      entry_consecutive_windows = entry;
      clear_consecutive_windows = clear;
      maximum_window_gap = gap;
    })

  unfoldable pub parse_interventions : Json Number → Parsed Interventions
  unfolding object exact_keys interventions
  parse_interventions v = do
    fs ← object v
    exact_keys fs interventions_keys
    high ← interventions (get "highRisk" fs)
    top ← interventions (get "critical" fs)
    ok (record { high_risk = high; critical = top })

  -- The source checks the parts in another order, which one error cannot show.
  unfoldable pub parse_risk_policy_document : Json Number → Parsed (RiskPolicy Number)
  unfolding object exact_keys is_text coerce text text_or_null
  parse_risk_policy_document value = do
    root ← object value
    exact_keys root root_keys
    let mode = get "activationMode" root
    let classification = get "thresholdClassification" root
    refuse_if (not (is_text (get "schemaVersion" root) "1.0.0"))
    refuse_if (not (includes (coerce show mode) mode_names))
    refuse_if (not (includes (coerce show classification) classification_names))
    quality ← parse_quality (get "quality" root)
    thresholds ← parse_thresholds (get "thresholds" root)
    fusion ← parse_fusion (get "fusion" root)
    hysteresis ← parse_hysteresis (get "hysteresis" root)
    actions ← parse_interventions (get "interventions" root)
    calibration ← text_or_null (get "calibrationVersion" root) 80
    refuse_if (
        inconsistent_production (activation_mode_of mode) (classification_of classification)
          calibration)
    version ← text (get "thresholdVersion" root) 80
    ok (record {
      activation_mode = activation_mode_of mode;
      threshold_classification = classification_of classification;
      threshold_version = version;
      calibration_version = calibration;
      quality = quality;
      thresholds = thresholds;
      fusion = fusion;
      hysteresis = hysteresis;
      interventions = actions;
    })
