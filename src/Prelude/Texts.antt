-- ===== src/Prelude/Texts.antt =====
-- Texts: joining, splitting and decimal numerals, as `format!`, `join` and `split_once` use them.
use Prim.Native.Nat.{ℕ, zero, suc, ◌+◌, ◌/◌, ◌%◌, ◌-◌}
use Prim.Native.Char.{Char, code}
use Prim.Native.String.{String, ◌++◌, count}
use mathlib.Core.Bool.{Bool, true, false, ◌&&◌, ◌||◌}
use mathlib.Core.Option.{Option, none, some}
use mathlib.Core.List.{List, [], ◌∷◌}
use openmirai.Prelude.Tests.{if◌then◌else◌, eqb, leb}
pub use text.Mathlib.Text.{◌==◌, starts_with, find?}
pub use text.Mathlib.TextEquality.{eq_iff}
pub use text.Mathlib.TextPositions.{eq_refl}

-- format!: the pieces in order.
abbrev pub concat : List String → String
concat [] = ""
concat (s ∷ []) = s
concat (s ∷ rest) = s ++ concat rest

-- pieces.join(sep)
abbrev pub join : String → List String → String
join sep [] = ""
join sep (s ∷ []) = s
join sep (s ∷ rest) = s ++ (sep ++ join sep rest)

-- s.contains(sub)
abbrev pub contains_text : String → String → Bool
contains_text s sub = elim (find? s sub) [ some _ ↦ true | none ↦ false ]

abbrev digit : ℕ → String
digit zero = "0"
digit (suc zero) = "1"
digit (suc (suc zero)) = "2"
digit (suc (suc (suc zero))) = "3"
digit (suc (suc (suc (suc zero)))) = "4"
digit (suc (suc (suc (suc (suc zero))))) = "5"
digit (suc (suc (suc (suc (suc (suc zero)))))) = "6"
digit (suc (suc (suc (suc (suc (suc (suc zero))))))) = "7"
digit (suc (suc (suc (suc (suc (suc (suc (suc zero)))))))) = "8"
digit _ = "9"

-- The decimal numeral on fuel: a number has at most as many digits as its value plus one.
decimal_fuel : ℕ → ℕ → String
decimal_fuel zero n = ""
decimal_fuel (suc f) n =
    let more = decimal_fuel f (n / 10) in if leb n 9 then digit n else more ++ digit (n % 10)

-- n.to_string()
unfoldable pub decimal : ℕ → String
unfolding decimal_fuel
decimal n = decimal_fuel (suc n) n

abbrev push_front : Char → List String → List String
push_front c [] = String.◌∷◌ c String.[] ∷ []
push_front c (part ∷ rest) = String.◌∷◌ c part ∷ rest

-- s.split(sep) on a one-character separator, given by its code.
unfoldable pub split : ℕ → String → List String
split sep String.[] = "" ∷ []
split sep (String.◌∷◌ c s) =
    let rest = split sep s in if eqb (code c) sep then "" ∷ rest else push_front c rest

abbrev push_left : Char → Option (String × String) → Option (String × String)
push_left c none = none
push_left c (some (l, r)) = some (String.◌∷◌ c l, r)

-- s.split_once(sep): what stands before and after the first separator.
unfoldable pub split_once : ℕ → String → Option (String × String)
split_once sep String.[] = none
split_once sep (String.◌∷◌ c s) =
    let rest = split_once sep s in if eqb (code c) sep then some ("", s) else push_left c rest

-- s.replace(from, to) for a non-empty `from`: `skip` characters of a match are still to drop.
replace_from : String → String → ℕ → String → String
replace_from from to skip String.[] = ""
replace_from from to (suc skip) (String.◌∷◌ c s) = replace_from from to skip s
replace_from from to zero (String.◌∷◌ c s) =
    let hit = to ++ replace_from from to (count from - 1) s in
    let miss = String.◌∷◌ c (replace_from from to zero s) in
    if starts_with (String.◌∷◌ c s) from then hit else miss

unfoldable pub replace : String → String → String → String
unfolding replace_from
replace s from to = replace_from from to zero s

-- char::is_whitespace, by code point (Unicode's White_Space)
abbrev pub is_whitespace : ℕ → Bool
is_whitespace c =
    (leb 9 c && leb c 13)
    || eqb c 32
    || eqb c 133
    || eqb c 160
    || eqb c 5760
    || (leb 8192 c && leb c 8202)
    || eqb c 8232
    || eqb c 8233
    || eqb c 8239
    || eqb c 8287
    || eqb c 12288

-- s.is_empty()
abbrev pub is_empty_text : String → Bool
is_empty_text String.[] = true
is_empty_text (String.◌∷◌ c s) = false

unfoldable pub trim_start : String → String
trim_start String.[] = ""
trim_start (String.◌∷◌ c s) =
    let rest = trim_start s in if is_whitespace (code c) then rest else String.◌∷◌ c s

unfoldable pub trim_end : String → String
trim_end String.[] = ""
trim_end (String.◌∷◌ c s) =
    let rest = trim_end s in
    if is_whitespace (code c) && is_empty_text rest then "" else String.◌∷◌ c rest

-- s.trim()
unfoldable pub trim : String → String
unfolding trim_start trim_end
trim s = trim_end (trim_start s)

-- s.trim_end_matches(c), for one character, by code point.
unfoldable pub trim_end_matches : ℕ → String → String
trim_end_matches k String.[] = ""
trim_end_matches k (String.◌∷◌ c s) =
    let rest = trim_end_matches k s in
    if eqb (code c) k && is_empty_text rest then "" else String.◌∷◌ c rest

-- s.chars().all(p), by code point.
unfoldable pub all_chars : (ℕ → Bool) → String → Bool
all_chars p String.[] = true
all_chars p (String.◌∷◌ c s) = p (code c) && all_chars p s

-- s[n..], where the first n characters are ASCII.
abbrev pub skip_chars : ℕ → String → String
skip_chars zero s = s
skip_chars (suc n) String.[] = ""
skip_chars (suc n) (String.◌∷◌ c s) = skip_chars n s

-- u8::to_ascii_lowercase, on a code point.
abbrev pub ascii_lower : ℕ → ℕ
ascii_lower c = if leb 65 c && leb c 90 then c + 32 else c

unfoldable pub eq_ignore_ascii_case : String → String → Bool
eq_ignore_ascii_case String.[] String.[] = true
eq_ignore_ascii_case String.[] (String.◌∷◌ d t) = false
eq_ignore_ascii_case (String.◌∷◌ c s) String.[] = false
eq_ignore_ascii_case (String.◌∷◌ c s) (String.◌∷◌ d t) =
    eqb (ascii_lower (code c)) (ascii_lower (code d)) && eq_ignore_ascii_case s t
