-- ===== src/Security.antt =====
-- engine/src/security.rs: the scanner of a text for prompt injection. A confidence is counted in
-- hundredths; what a regular expression matches is a parameter.
pub mod Detection
mod Tests
use openmirai.Prelude.{
  ℕ, ◌<◌, String, Bool, true, false, not, ◌&&◌, Option, none, some, List, [], ◌∷◌, if◌then◌else◌,
  ltb,
}

pub data ThreatType : Type 0 where
  no_threat injection jailbreak data_leak social_engineering : ThreatType

pub data Sensitivity : Type 0 where
  low medium high : Sensitivity

pub record ScanResult : Type 0 where
  pub threat_type : ThreatType
  pub confidence : ℕ
  pub blocked : Bool
  pub details : Option String
  pub matched_pattern : Option String

pub record ScannerConfig : Type 0 where
  pub enabled : Bool
  pub sensitivity : Sensitivity
  pub block_on_detection : Bool

abbrev pub default_scanner : ScannerConfig
default_scanner = record { enabled = true; sensitivity = medium; block_on_detection = true }

pub record Pattern : Type 0 where
  pub regex : String
  pub threat_type : ThreatType
  pub confidence : ℕ
  pub min_sensitivity : Sensitivity
  pub description : String

abbrev pub patterns : List Pattern
patterns =
    record {
      regex =
          "(?i)ignore\\s+(all\\s+)?(previous|prior|above|earlier)\\s+(instructions?|prompts?|rules?|directions?)";
      threat_type = injection;
      confidence = 95;
      min_sensitivity = low;
      description = "Direct instruction override";
    }
    ∷ record {
      regex = "(?i)disregard\\s+(all\\s+)?(previous|prior|above)\\s+(instructions?|context)";
      threat_type = injection;
      confidence = 95;
      min_sensitivity = low;
      description = "Instruction disregard";
    }
    ∷ record {
      regex = "(?i)forget\\s+(everything|all|what)\\s+(you|i)\\s+(told|said|were)";
      threat_type = injection;
      confidence = 90;
      min_sensitivity = low;
      description = "Memory wipe attempt";
    }
    ∷ record {
      regex = "(?i)new\\s+instructions?\\s*:";
      threat_type = injection;
      confidence = 85;
      min_sensitivity = medium;
      description = "Instruction injection";
    }
    ∷ record {
      regex = "(?i)(system|admin|root)\\s*:\\s*(you\\s+are|from\\s+now|override)";
      threat_type = injection;
      confidence = 90;
      min_sensitivity = low;
      description = "System role injection";
    }
    ∷ record {
      regex = "(?i)\\bDAN\\b.*\\b(mode|enabled|activated)";
      threat_type = jailbreak;
      confidence = 95;
      min_sensitivity = low;
      description = "DAN jailbreak";
    }
    ∷ record {
      regex =
          "(?i)you\\s+are\\s+now\\s+(a|an|the)\\s+.{3,50}\\s+(without|with\\s+no)\\s+(restrictions?|limits?|filters?)";
      threat_type = jailbreak;
      confidence = 90;
      min_sensitivity = medium;
      description = "Role override jailbreak";
    }
    ∷ record {
      regex =
          "(?i)(pretend|act\\s+as\\s+if|imagine)\\s+(you\\s+)?(have\\s+no|don'?t\\s+have|without)\\s+(restrictions?|limits?|filters?|guidelines?)";
      threat_type = jailbreak;
      confidence = 85;
      min_sensitivity = medium;
      description = "Pretend-no-restrictions jailbreak";
    }
    ∷ record {
      regex = "(?i)(developer|debug|maintenance|test)\\s+mode\\s*(enabled|on|activated|override)";
      threat_type = jailbreak;
      confidence = 85;
      min_sensitivity = medium;
      description = "Debug mode jailbreak";
    }
    ∷ record {
      regex =
          "(?i)(reveal|show|output|print|display|repeat|tell\\s+me)\\s+(the\\s+|your\\s+)?(system\\s+prompt|initial\\s+instructions?|system\\s+message|hidden\\s+prompt)";
      threat_type = data_leak;
      confidence = 90;
      min_sensitivity = low;
      description = "System prompt extraction";
    }
    ∷ record {
      regex =
          "(?i)what\\s+(are|were)\\s+your\\s+(initial|original|first|system)\\s+(instructions?|prompt|rules?)";
      threat_type = data_leak;
      confidence = 80;
      min_sensitivity = medium;
      description = "Indirect prompt extraction";
    }
    ∷ record {
      regex = "(?i)(i\\s+am|this\\s+is)\\s+(your|the)\\s+(developer|creator|admin|owner|boss)";
      threat_type = social_engineering;
      confidence = 80;
      min_sensitivity = medium;
      description = "Authority claim";
    }
    ∷ record {
      regex = "(?i)(urgent|emergency|critical)\\s*:?\\s*(override|bypass|disable|ignore)";
      threat_type = social_engineering;
      confidence = 75;
      min_sensitivity = high;
      description = "Urgency-based bypass";
    }
    ∷ []

-- The rank of a sensitivity, as scan has it twice.
abbrev pub sensitivity_rank : Sensitivity → ℕ
sensitivity_rank low = 0
sensitivity_rank medium = 1
sensitivity_rank high = 2

-- The variables of the loop: the confidence, the threat, the details and the match.
pub record Worst : Type 0 where
  pub confidence : ℕ
  pub threat_type : ThreatType
  pub details : Option String
  pub matched_pattern : Option String

abbrev pub is_threat : ThreatType → Bool
is_threat no_threat = false
is_threat _ = true

-- The first match of a regular expression in a text.
abbrev pub Find : Type 0
Find = String → String → Option String

abbrev pub is_match : Option String → Bool
is_match none = false
is_match (some m) = true

abbrev pub applies : Find → String → ℕ → Pattern → Bool
applies find text at p =
    not (ltb at (sensitivity_rank p.min_sensitivity)) && is_match (find p.regex text)

-- One round of the loop.
unfoldable pub scan_pattern : Find → String → ℕ → Pattern → Worst → Worst
scan_pattern find text at p w =
    if applies find text at p && ltb w.confidence p.confidence
    then record {
      confidence = p.confidence;
      threat_type = p.threat_type;
      details = some p.description;
      matched_pattern = find p.regex text;
    }
    else w

unfoldable pub scan_patterns : Find → String → ℕ → List Pattern → Worst → Worst
unfolding scan_pattern
scan_patterns find text at [] w = w
scan_patterns find text at (p ∷ ps) w =
    scan_patterns find text at ps (scan_pattern find text at p w)

abbrev pub no_worst : Worst
no_worst = record {
  confidence = 0;
  threat_type = no_threat;
  details = none;
  matched_pattern = none;
}

abbrev pub result_of : Bool → Worst → ScanResult
result_of block w = record {
  threat_type = w.threat_type;
  confidence = w.confidence;
  blocked = is_threat w.threat_type && block;
  details = w.details;
  matched_pattern = w.matched_pattern;
}

-- scan, with the patterns given
unfoldable pub scan_with : List Pattern → Find → String → ScannerConfig → ScanResult
unfolding scan_patterns
scan_with ps find text config =
    if not config.enabled
    then result_of false no_worst
    else result_of config.block_on_detection
        (scan_patterns find text (sensitivity_rank config.sensitivity) ps no_worst)

unfoldable pub scan : Find → String → ScannerConfig → ScanResult
unfolding scan_with
scan find text config = scan_with patterns find text config
