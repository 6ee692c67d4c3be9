-- ===== src/Sessions/Command.antt =====
-- engine/src/sessions/manager.rs, build_claude_command: the shell command of a session.
pub mod Arguments
pub mod Safety
use openmirai.Prelude.{
  ℕ, String, Bool, true, not, ◌&&◌, ◌||◌, Option, none, some, List, [], ◌∷◌, if◌then◌else◌, leb,
  eqb, all_chars, is_empty_text, concat, Result, ok, err,
}
use openmirai.Steps.{pure, halt, ◌>>=◌, ◌>>◌}
use openmirai.Sessions.Records.{SessionError, invalid, is_bypass_mode}
use openmirai.Sessions.Backend.{Backend}
use openmirai.Sessions.Manager.{Op, call}

-- c.is_ascii_alphanumeric() || matches!(c, '.' | '_' | '-')
abbrev pub is_safe_char : ℕ → Bool
is_safe_char c =
    (leb 48 c && leb c 57)
    || (leb 65 c && leb c 90)
    || (leb 97 c && leb c 122)
    || eqb c 46
    || eqb c 95
    || eqb c 45

unfoldable pub is_safe_arg : String → Bool
is_safe_arg s = not (is_empty_text s) && all_chars is_safe_char s

abbrev pub flag : String → Option String → String
flag name none = ""
flag name (some v) = concat (name ∷ v ∷ [])

abbrev pub settings_flag : Result String String → String
settings_flag (ok path) = concat (" --settings '" ∷ path ∷ "'" ∷ [])
settings_flag (err e) = ""

abbrev pub mcp_flag : Result String String → String
mcp_flag (ok path) = concat (" --mcp-config '" ∷ path ∷ "' --strict-mcp-config" ∷ [])
mcp_flag (err e) = ""

module _ {N W : Type 0} (B : Backend W) where
  -- The guard on one argument.
  abbrev pub check_arg : String → Option String → Op N W (Unit {0})
  check_arg what none = pure tt
  check_arg what (some v) =
      if is_safe_arg v
      then pure tt
      else halt (invalid (concat (what ∷ " contiene caracteres no permitidos: '" ∷ v ∷ "'" ∷ [])))

  -- The flag for the hooks' settings, which are written.
  abbrev pub hooks_part : String → Bool → Op N W String
  hooks_part id no_hooks =
      if no_hooks then pure "" else (call B (B.write_settings id) >>= λ r. pure (settings_flag r))

  abbrev pub mcp_part : String → Bool → Op N W String
  mcp_part id mcp =
      if mcp then (call B (B.write_mcp_config id) >>= λ r. pure (mcp_flag r)) else pure ""

  -- The command, whose arguments are safe.
  unfoldable pub assemble :
      String
      → (model effort : Option String) → (no_hooks mcp : Bool) → (permission_mode : Option String)
      → Op N W String
  assemble id model effort no_hooks mcp permission_mode = do
    settings ← hooks_part id no_hooks
    config ← mcp_part id mcp
    pure (
        concat (
          "claude"
          ∷ flag " --model " model
          ∷ flag " --effort " effort
          ∷ (if is_bypass_mode permission_mode then " --dangerously-skip-permissions" else "")
          ∷ settings
          ∷ config
          ∷ []))

  unfoldable pub build_claude_command :
      String
      → (model effort : Option String) → (no_hooks mcp : Bool) → (permission_mode : Option String)
      → Op N W String
  unfolding assemble
  build_claude_command id model effort no_hooks mcp permission_mode = do
    check_arg "model" model
    check_arg "effort" effort
    assemble id model effort no_hooks mcp permission_mode
