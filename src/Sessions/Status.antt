-- ===== src/Sessions/Status.antt =====
-- engine/src/sessions/status.rs: the status of a session, and its detection from the last lines of
-- a pane. Rust's `to_lowercase` is a parameter.
use openmirai.Prelude.{
  ℕ, String, Bool, true, false, ◌||◌, Option, none, some, List, [], ◌∷◌, ◌++◌, if◌then◌else◌, ◌==◌,
  eqb, starts_with, contains_text, trim, join, any, take,
}

pub data SessionStatus : Type 0 where
  starting working waiting permission stopped error : SessionStatus

unfoldable pub is_active : SessionStatus → Bool
is_active stopped = false
is_active error = false
is_active _ = true

-- Display, and serde's lowercase name.
unfoldable pub status_text : SessionStatus → String
status_text starting = "starting"
status_text working = "working"
status_text waiting = "waiting"
status_text permission = "permission"
status_text stopped = "stopped"
status_text error = "error"

-- PartialEq, on the variants' numbers.
abbrev pub status_number : SessionStatus → ℕ
status_number starting = 0
status_number working = 1
status_number waiting = 2
status_number permission = 3
status_number stopped = 4
status_number error = 5

abbrev pub same_status : SessionStatus → SessionStatus → Bool
same_status a b = eqb (status_number a) (status_number b)

-- lines.iter().rev()
abbrev reverse {ℓ} : {A : Type ℓ} → List A → List A
reverse [] = []
reverse (x ∷ xs) = reverse xs ++ x ∷ []

abbrev pub detect_window : ℕ
detect_window = 30

-- "│ " is one box character and a space.
abbrev prompt_line : String → Bool
prompt_line t =
    (t == ">")
    || (t == "❯")
    || starts_with t "> "
    || starts_with t "❯ "
    || starts_with t "│ >"
    || starts_with t "│ ❯"

abbrev has_permission_dialog : String → Bool
has_permission_dialog joined =
    contains_text joined "do you want"
    || contains_text joined "(y/n)"
    || contains_text joined "y/n)"
    || contains_text joined "don't ask again"
    || contains_text joined "1. yes"

unfoldable pub detect_status : (String → String) → List String → Option SessionStatus
detect_status to_lowercase lines =
    let window = take detect_window (reverse lines) in
    let joined = to_lowercase (join "\n" window) in
    if has_permission_dialog joined
    then some permission
    else if contains_text joined "esc to interrupt"
    then some working
    else if any (λ l. prompt_line (trim l)) window
    then some waiting
    else none
