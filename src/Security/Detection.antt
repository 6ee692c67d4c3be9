-- ===== src/Security/Detection.antt =====
-- engine/src/security.rs: which texts are blocked.
use mathlib.Core.Bool.{false≢true}
use openmirai.Prelude.{
  ℕ, ◌<◌, ◌≡◌, refl, sym, ◌∙◌, inl, inr, String, Bool, true, false, ◌&&◌, ◌||◌, List, [], ◌∷◌, ltb,
  arith, any, Bool-cases, All, In, any_iff, and_true, not, ◌↔◌, Option, none, some,
}
use openmirai.Security.{
  Sensitivity, low, medium, high, is_match, Pattern, Worst, Find, ScannerConfig, patterns,
  sensitivity_rank, is_threat, applies, scan_pattern, scan_patterns, no_worst, scan_with, scan,
}

-- A pattern of the table names a threat, with a positive confidence.
abbrev PatternFits : Pattern → Type 0
PatternFits p = (is_threat p.threat_type ≡ true) × (0 < p.confidence)

-- The loop's variables name a threat exactly if the confidence is positive.
abbrev WorstFits : Worst → Type 0
WorstFits w = is_threat w.threat_type ≡ ltb 0 w.confidence

scan_pattern-fits :
    (find : Find) (text : String) (at : ℕ) (p : Pattern) (w : Worst)
    → PatternFits p
    → WorstFits w
    → WorstFits (scan_pattern find text at p w)
      × (ltb 0 (scan_pattern find text at p w).confidence
          ≡ (applies find text at p || ltb 0 w.confidence))
unfolding scan_pattern
scan_pattern-fits find text at p w (t, c) h =
    let positive : ltb 0 p.confidence ≡ true = ground (arith, c) in
    elim (Bool-cases (applies find text at p)) [
      | inl a ↦ elim (Bool-cases (ltb w.confidence p.confidence)) [
        | inl b ↦ rw a (rw b (t ∙ sym positive, positive))
        | inr b ↦
            let kept : ltb 0 w.confidence ≡ true = ground (arith, b, c) in rw a (rw b (h, kept))
      ]
      | inr a ↦ rw a (h, refl)
    ]

scan_patterns-fits :
    (find : Find) (text : String) (at : ℕ) (ps : List Pattern) (w : Worst)
    → All PatternFits ps
    → WorstFits w
    → WorstFits (scan_patterns find text at ps w)
      × (ltb 0 (scan_patterns find text at ps w).confidence
          ≡ (ltb 0 w.confidence || any (applies find text at) ps))
unfolding scan_patterns
scan_patterns-fits find text at [] w h k = (k, ground arith)
scan_patterns-fits find text at (p ∷ ps) w (h, hs) k =
    let (a, b) = scan_pattern-fits find text at p w h k in
    let (c, d) = scan_patterns-fits find text at ps (scan_pattern find text at p w) hs a in
    (c, ground (arith, d, b))

patterns-PatternFits : All PatternFits patterns
patterns-PatternFits = (
  (refl, omega arith),
  (
    (refl, omega arith),
    (
      (refl, omega arith),
      (
        (refl, omega arith),
        (
          (refl, omega arith),
          (
            (refl, omega arith),
            (
              (refl, omega arith),
              (
                (refl, omega arith),
                (
                  (refl, omega arith),
                  (
                    (refl, omega arith),
                    ((refl, omega arith), ((refl, omega arith), ((refl, omega arith), tt))),
                  ),
                ),
              ),
            ),
          ),
        ),
      ),
    ),
  ),
)

commute : (a b : Bool) → (a && b) ≡ (b && a)
commute true true = refl
commute true false = refl
commute false true = refl
commute false false = refl

scan_with_iff :
    (ps : List Pattern) (find : Find) (text : String) (config : ScannerConfig)
    → All PatternFits ps
    → (scan_with ps find text config).blocked ≡ (
        config.enabled
        && config.block_on_detection
        && any (applies find text (sensitivity_rank config.sensitivity)) ps)
unfolding scan_with
scan_with_iff ps find text config h =
    let (c, d) =
      scan_patterns-fits find text (sensitivity_rank config.sensitivity) ps no_worst h refl in
    elim (Bool-cases config.enabled) [
      | inl e ↦ rw e (
          rw c (
            rw d (
              commute (any (applies find text (sensitivity_rank config.sensitivity)) ps)
                config.block_on_detection)))
      | inr e ↦ rw e refl
    ]

scan-any :
    (find : Find) (text : String) (config : ScannerConfig)
    → (scan find text config).blocked ≡ (
        config.enabled
        && config.block_on_detection
        && any (applies find text (sensitivity_rank config.sensitivity)) patterns)
unfolding scan
scan-any find text config = scan_with_iff patterns find text config patterns-PatternFits

-- The patterns that a configured sensitivity tries, by their least one: high tries all, medium all
-- but those for high, and low only those for low.
abbrev pub Tries : Sensitivity → Sensitivity → Type 0
Tries high least = Unit {0}
Tries medium high = ⊥
Tries medium least = Unit {0}
Tries low low = Unit {0}
Tries low least = ⊥

-- A pattern that is tried, and whose regular expression matches the text.
abbrev pub Matches : Find → String → Sensitivity → Pattern → Type 0
Matches find text s p =
    Tries s p.min_sensitivity × ((found : String) × (find p.regex text ≡ some found))

sensitivity_rank_iff :
    (s least : Sensitivity)
    → (not (ltb (sensitivity_rank s) (sensitivity_rank least)) ≡ true) ↔ Tries s least
sensitivity_rank_iff high low = ((λ _. tt), (λ _. refl))
sensitivity_rank_iff high medium = ((λ _. tt), (λ _. refl))
sensitivity_rank_iff high high = ((λ _. tt), (λ _. refl))
sensitivity_rank_iff medium low = ((λ _. tt), (λ _. refl))
sensitivity_rank_iff medium medium = ((λ _. tt), (λ _. refl))
sensitivity_rank_iff medium high = (false≢true, (λ h. absurd h))
sensitivity_rank_iff low low = ((λ _. tt), (λ _. refl))
sensitivity_rank_iff low medium = (false≢true, (λ h. absurd h))
sensitivity_rank_iff low high = (false≢true, (λ h. absurd h))

is_match_iff : (o : Option String) → (is_match o ≡ true) ↔ ((found : String) × (o ≡ some found))
is_match_iff none = ((λ h. absurd (false≢true h)), (λ (m, h). absurd (ground (arith, h))))
is_match_iff (some found) = ((λ _. (found, refl)), (λ _. refl))

applies_iff :
    (find : Find) (text : String) (s : Sensitivity) (p : Pattern)
    → (applies find text (sensitivity_rank s) p ≡ true) ↔ Matches find text s p
applies_iff find text s p =
    let tries = sensitivity_rank_iff s p.min_sensitivity in
    let matched = is_match_iff (find p.regex text) in
    (
      (λ h. (tries.0 (and_true _ _ h).0, matched.0 (and_true _ _ h).1)),
      (λ (t, m). rw (tries.1 t) (matched.1 m)),
    )

-- A scan blocks a text exactly if the scanner is enabled and blocks on detection, and the table has
-- a pattern that the configured sensitivity tries and that matches the text: high tries every
-- pattern, medium those for low and medium, low those for low. What the regular expressions match
-- is any function.
pub scan_iff :
    (find : Find) (text : String) (config : ScannerConfig)
    → ((scan find text config).blocked ≡ true) ↔ (
        (config.enabled ≡ true)
        × (config.block_on_detection ≡ true)
        × ((p : Pattern) × In p patterns × Matches find text config.sensitivity p))
scan_iff find text config =
    let at = sensitivity_rank config.sensitivity in
    let blocks = scan-any find text config in
    let found_iff = any_iff (applies find text at) patterns in
    (
      (λ h.
          let (k, a) = and_true _ _ (sym blocks ∙ h) in
          let (e, b) = and_true _ _ k in
          let (p, m, hit) = found_iff.0 a in
          (e, b, (p, m, (applies_iff find text config.sensitivity p).0 hit))),
      (λ (e, b, (p, m, hit)).
          let a = found_iff.1 (p, m, (applies_iff find text config.sensitivity p).1 hit) in
          blocks ∙ rw e (rw b a)),
    )
