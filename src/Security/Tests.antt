-- ===== src/Security/Tests.antt =====
-- A text that one pattern of the table matches, under the default configuration.
use openmirai.Prelude.{◌≡◌, ◌↔◌, refl, true, In, none, some, if◌then◌else◌, ◌==◌}
use openmirai.Security.{Find, Pattern, scan, default_scanner, patterns}
use openmirai.Security.Detection.{Matches, scan_iff}

abbrev find : Find
find regex text = if regex == "(?i)new\\s+instructions?\\s*:" then some text else none

scan_iff_example : ((scan find "new instructions: none" default_scanner).blocked ≡ true) ↔ (
    (default_scanner.enabled ≡ true)
    × (default_scanner.block_on_detection ≡ true)
    × ((p : Pattern) × In p patterns
        × Matches find "new instructions: none" default_scanner.sensitivity p))
scan_iff_example = scan_iff find "new instructions: none" default_scanner

blocked : (scan find "new instructions: none" default_scanner).blocked ≡ true
unfolding scan
blocked = refl
