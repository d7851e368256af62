-- ===== src/Risk/Accepted.antt =====
-- What every policy that the parser accepts satisfies.
use mathlib.Core.Path.{subst}
use swar.Prelude.{
  ℕ, ◌≤◌, ◌≡◌, refl, true, false, not, Option, none, some, arith, ok, >>=-elim, >>-elim,
  ok-injective, String, includes, string_eq,
}
use swar.Risk.Types.{Floats}
use swar.Risk.Evidence.{
  ActivationMode, production, ThresholdClassification, promoted_calibration, RiskPolicy, Quality,
  Thresholds, Fusion, Hysteresis,
}
use swar.Risk.Json.{Json, num, get, coerce}
use swar.Risk.Policy.{
  risk_policy_invalid, object, exact_keys, number, integer, parse_quality, parse_thresholds,
  parse_fusion, parse_hysteresis, parse_interventions, parse_risk_policy_document, weights_off,
  inconsistent_production, rejecting_codes, root_keys, mode_names, classification_names,
  hysteresis_keys, quality_keys, thresholds_keys, fusion_keys, activation_mode_of,
  classification_of, text, text_or_null, is_text,
}

module _ ⦃fp : Floats⦄ where
  open fp use {Number, of_nat, to_nat, lt, is_finite, is_integer, show}

  -- A number that is an integer within two bounds is read as a natural number within them, as far as
  -- doubles have every integer: up to 2 ^ 53.
  abbrev pub ReadsIntegers : Type 0
  ReadsIntegers =
      (n : Number) (a b : ℕ)
      → a ≤ 9007199254740992
      → b ≤ 9007199254740992
      → is_integer n ≡ true
      → lt n (of_nat a) ≡ false
      → lt (of_nat b) n ≡ false
      → (a ≤ to_nat n) × (to_nat n ≤ b)

  abbrev pub InUnit : Number → Type 0
  InUnit n = (is_finite n ≡ true) × (lt n (of_nat 0) ≡ false) × (lt (of_nat 1) n ≡ false)

  pub record IsAccepted (p : RiskPolicy Number) : Type 0 where
    pub entry :
        (1 ≤ p.hysteresis.entry_consecutive_windows)
        × (p.hysteresis.entry_consecutive_windows ≤ 100)
    pub clear :
        (1 ≤ p.hysteresis.clear_consecutive_windows)
        × (p.hysteresis.clear_consecutive_windows ≤ 100)
    pub gap : p.hysteresis.maximum_window_gap ≤ 10000
    pub duration : p.quality.minimum_speech_duration_ms ≤ 300000
    pub quality : InUnit p.quality.minimum_score
    pub identity : InUnit p.thresholds.identity_enter × InUnit p.thresholds.identity_clear
    pub spoof : InUnit p.thresholds.spoof_enter × InUnit p.thresholds.spoof_clear
    pub weights : InUnit p.fusion.fast_weight × InUnit p.fusion.deep_weight
    pub balanced : weights_off p.fusion.fast_weight p.fusion.deep_weight ≡ false
    pub mode_promoted :
        p.activation_mode ≡ production → p.threshold_classification ≡ promoted_calibration
    pub promoted_mode :
        p.threshold_classification ≡ promoted_calibration → p.activation_mode ≡ production
    pub versioned : p.activation_mode ≡ production → (v : String) × (p.calibration_version ≡ some v)

  number_in :
      (v : Json Number) (a b : ℕ) (n : Number)
      → number v a b ≡ ok n
      → (is_finite n ≡ true) × (lt n (of_nat a) ≡ false) × (lt (of_nat b) n ≡ false)
  unfolding number
  number_in (num x) a b n h = ground arith
  number_in v a b n h = cc

  integer_in :
      (v : Json Number) (a b k : ℕ)
      → a ≤ 9007199254740992
      → b ≤ 9007199254740992
      → ReadsIntegers
      → integer v a b ≡ ok k
      → (a ≤ k) × (k ≤ b)
  unfolding integer
  integer_in v a b k small_a small_b reads h = >>=-elim (number v a b) _ h λ n e rest.
      >>-elim (not (is_integer n)) risk_policy_invalid (ok (to_nat n)) rest λ whole last.
        let (fin, low, high) = number_in v a b n e in
        ground (arith, reads n a b small_a small_b (ground arith) low high)

  hysteresis_in :
      (v : Json Number) (q : Hysteresis)
      → ReadsIntegers
      → parse_hysteresis v ≡ ok q
      → ((1 ≤ q.entry_consecutive_windows) × (q.entry_consecutive_windows ≤ 100))
        × ((1 ≤ q.clear_consecutive_windows) × (q.clear_consecutive_windows ≤ 100))
        × (q.maximum_window_gap ≤ 10000)
  unfolding parse_hysteresis
  hysteresis_in v q reads h = >>=-elim (object v) _ h λ fs _ h1.
      >>=-elim (exact_keys fs hysteresis_keys) _ h1 λ _ _ h2.
        >>=-elim (integer (get "entryConsecutiveWindows" fs) 1 100) _ h2 λ entry he h3.
          >>=-elim (integer (get "clearConsecutiveWindows" fs) 1 100) _ h3 λ clear hc h4.
            >>=-elim (integer (get "maximumWindowGap" fs) 0 10000) _ h4 λ gap hg h5.
              let ie =
                integer_in (get "entryConsecutiveWindows" fs) 1 100 entry (omega arith)
                  (omega arith) reads he in
              let ic =
                integer_in (get "clearConsecutiveWindows" fs) 1 100 clear (omega arith)
                  (omega arith) reads hc in
              let ig =
                integer_in (get "maximumWindowGap" fs) 0 10000 gap (omega arith) (omega arith) reads
                  hg in
              ground arith

  quality_in :
      (v : Json Number) (q : Quality Number)
      → ReadsIntegers
      → parse_quality v ≡ ok q
      → (q.minimum_speech_duration_ms ≤ 300000) × InUnit q.minimum_score
  unfolding parse_quality
  quality_in v q reads h = >>=-elim (object v) _ h λ fs _ h1.
      >>=-elim (exact_keys fs quality_keys) _ h1 λ _ _ h2.
        >>=-elim (rejecting_codes (get "rejectingReasonCodes" fs)) _ h2 λ codes _ h3.
          >>=-elim (number (get "minimumScore" fs) 0 1) _ h3 λ score hs h4.
            >>=-elim (integer (get "minimumSpeechDurationMs" fs) 0 300000) _ h4 λ duration hd h5.
              let is = number_in (get "minimumScore" fs) 0 1 score hs in
              let id =
                integer_in (get "minimumSpeechDurationMs" fs) 0 300000 duration (omega arith)
                  (omega arith) reads hd in
              ground arith

  thresholds_in :
      (v : Json Number) (q : Thresholds Number)
      → parse_thresholds v ≡ ok q
      → (InUnit q.identity_enter × InUnit q.identity_clear)
        × (InUnit q.spoof_enter × InUnit q.spoof_clear)
  unfolding parse_thresholds
  thresholds_in v q h = >>=-elim (object v) _ h λ fs _ h1.
      >>=-elim (exact_keys fs thresholds_keys) _ h1 λ _ _ h2.
        >>=-elim (number (get "identityEnter" fs) 0 1) _ h2 λ ie e1 h3.
          >>=-elim (number (get "identityClear" fs) 0 1) _ h3 λ ic e2 h4.
            >>=-elim (number (get "spoofEnter" fs) 0 1) _ h4 λ se e3 h5.
              >>=-elim (number (get "spoofClear" fs) 0 1) _ h5 λ sc e4 h6.
                let i1 = number_in (get "identityEnter" fs) 0 1 ie e1 in
                let i2 = number_in (get "identityClear" fs) 0 1 ic e2 in
                let i3 = number_in (get "spoofEnter" fs) 0 1 se e3 in
                let i4 = number_in (get "spoofClear" fs) 0 1 sc e4 in ground arith

  fusion_in :
      (v : Json Number) (q : Fusion Number)
      → parse_fusion v ≡ ok q
      → (InUnit q.fast_weight × InUnit q.deep_weight)
        × (weights_off q.fast_weight q.deep_weight ≡ false)
  unfolding parse_fusion
  fusion_in v q h = >>=-elim (object v) _ h λ fs _ h1.
      >>=-elim (exact_keys fs fusion_keys) _ h1 λ _ _ h2.
        >>=-elim (number (get "fastWeight" fs) 0 1) _ h2 λ fast e1 h3.
          >>=-elim (number (get "deepWeight" fs) 0 1) _ h3 λ deep e2 h4.
            >>-elim (weights_off fast deep) risk_policy_invalid
              (ok (record { fast_weight = fast; deep_weight = deep })) h4
              λ balanced h5.
                let i1 = number_in (get "fastWeight" fs) 0 1 fast e1 in
                let i2 = number_in (get "deepWeight" fs) 0 1 deep e2 in ground arith

  consistent_marks :
      (mode : ActivationMode) (classification : ThresholdClassification) (version : Option String)
      → inconsistent_production mode classification version ≡ false
      → (mode ≡ production → classification ≡ promoted_calibration)
        × (classification ≡ promoted_calibration → mode ≡ production)
        × (mode ≡ production → (v : String) × (version ≡ some v))
  unfolding inconsistent_production
  consistent_marks mode classification none h = (ground arith, ground arith, λ e. ground arith)
  consistent_marks mode classification (some v) h = (ground arith, ground arith, λ e. (v, refl))

  -- Whatever document the parser accepts, its windows, gap and duration are within their bounds, its
  -- scores and weights are finite and from 0 to 1, the weights add up to 1 within the tolerance, and
  -- the two marks of production come together and with a calibration version. That integers up to
  -- 2 ^ 53 are read within the bounds that they were tested against is a hypothesis on the numbers.
  pub parse-IsAccepted :
      (v : Json Number) (p : RiskPolicy Number)
      → ReadsIntegers
      → parse_risk_policy_document v ≡ ok p
      → IsAccepted p
  unfolding parse_risk_policy_document
  parse-IsAccepted v p reads h = >>=-elim (object v) _ h λ root _ h1.
      >>=-elim (exact_keys root root_keys) _ h1 λ _ _ h2.
        >>-elim (not (is_text (get "schemaVersion" root) "1.0.0")) risk_policy_invalid _ h2 λ _ h3.
          >>-elim (not (includes (coerce show (get "activationMode" root)) mode_names))
            risk_policy_invalid _ h3
            λ _ h4.
              >>-elim
                (not (
                  includes (coerce show (get "thresholdClassification" root)) classification_names))
                risk_policy_invalid _ h4
                λ _ h5. >>=-elim (parse_quality (get "quality" root)) _ h5 λ quality e1 h6.
                  >>=-elim (parse_thresholds (get "thresholds" root)) _ h6 λ thresholds e2 h7.
                    >>=-elim (parse_fusion (get "fusion" root)) _ h7 λ fusion e3 h8.
                      >>=-elim (parse_hysteresis (get "hysteresis" root)) _ h8 λ hysteresis e4 h9.
                        >>=-elim (parse_interventions (get "interventions" root)) _ h9
                          λ actions e5 h10.
                            >>=-elim (text_or_null (get "calibrationVersion" root) 80) _ h10
                              λ calibration e6 h11.
                                >>-elim
                                  (inconsistent_production
                                    (activation_mode_of (get "activationMode" root))
                                    (classification_of (get "thresholdClassification" root))
                                    calibration)
                                  risk_policy_invalid _ h11
                                  λ consistent h12.
                                    >>=-elim (text (get "thresholdVersion" root) 80) _ h12
                                      λ version e7 h13.
                                        let (windows, clearing, gap) =
                                          hysteresis_in (get "hysteresis" root) hysteresis reads
                                            e4 in
                                        let (duration, score) =
                                          quality_in (get "quality" root) quality reads e1 in
                                        let (identity, spoof) =
                                          thresholds_in (get "thresholds" root) thresholds e2 in
                                        let (weights, balanced) =
                                          fusion_in (get "fusion" root) fusion e3 in
                                        let (to, from, versioned) =
                                          consistent_marks _ _ calibration consistent in
                                        subst IsAccepted (ok-injective h13) (record {
                                          entry = windows;
                                          clear = clearing;
                                          gap = gap;
                                          duration = duration;
                                          quality = score;
                                          identity = identity;
                                          spoof = spoof;
                                          weights = weights;
                                          balanced = balanced;
                                          mode_promoted = to;
                                          promoted_mode = from;
                                          versioned = versioned;
                                        })
