-- ===== src/Sessions/Command/Safety.antt =====
-- engine/src/sessions/manager.rs: which commands are built, and what a refused restart leaves.
use openmirai.Prelude.{
  and_true, ◌≡◌, refl, sym, ap, ◌∙◌, ◌↔◌, String, Bool, true, false, ◌&&◌, Option, none, some,
  concat, [], ◌∷◌, Bool-cases, inl, inr, arith,
}
use mathlib.Core.Bool.{false≢true}
use openmirai.Steps.{Flow, next, stop, pure, halt, ◌>>=◌}
use openmirai.Sessions.Records.{SessionError, invalid}
use openmirai.Sessions.Backend.{Backend}
use openmirai.Sessions.Manager.{Manager, call}
use openmirai.Sessions.Command.Arguments.{IsHarmless, is_safe_arg_iff}
use openmirai.Sessions.Command.{is_safe_arg, check_arg, assemble, build_claude_command}

-- No argument, or a safe one.
abbrev safe_option : Option String → Bool
safe_option none = true
safe_option (some v) = is_safe_arg v

safe_option_iff : (v : Option String) → (safe_option v ≡ true) ↔ IsHarmless v
safe_option_iff none = ((λ _. tt), (λ _. refl))
safe_option_iff (some v) = is_safe_arg_iff v

pub safe_options_iff :
    (v w : Option String)
    → ((safe_option v && safe_option w) ≡ true) ↔ (IsHarmless v × IsHarmless w)
safe_options_iff v w = (
  (λ h.
      let (a, b) = and_true (safe_option v) (safe_option w) h in
      ((safe_option_iff v).0 a, (safe_option_iff w).0 b)),
  (λ (a, b). rw ((safe_option_iff v).1 a) ((safe_option_iff w).1 b)),
)

abbrev message : String → Option String → SessionError
message what none = invalid ""
message what (some v) =
    invalid (concat (what ∷ " contiene caracteres no permitidos: '" ∷ v ∷ "'" ∷ []))

next≢stop : {R A : Type 0} (a : A) (r : R) (f : Flow R A) → f ≡ next a → ¬ f ≡ stop r
next≢stop a r f h k = cc (h, k)

module _ {N W : Type 0} (B : Backend W) where
  check_arg-safe :
      (what : String) (v : Option String) (m : Manager N W)
      → safe_option v ≡ true
      → check_arg B what v m ≡ (next tt, m)
  unfolding pure
  check_arg-safe what none m h = refl
  check_arg-safe what (some v) m h = rw h refl

  check_arg-unsafe :
      (what : String) (v : Option String) (m : Manager N W)
      → safe_option v ≡ false
      → check_arg B what v m ≡ (stop (message what v), m)
  unfolding halt
  check_arg-unsafe what none m h = absurd (ground (arith, h))
  check_arg-unsafe what (some v) m h = rw h refl

  assemble-next :
      (id : String) (model effort : Option String) (no_hooks mcp : Bool) (mode : Option String)
      (m : Manager N W)
      → (c : String) × ((assemble B id model effort no_hooks mcp mode m).0 ≡ next c)
  unfolding assemble ◌>>=◌ pure call
  assemble-next id model effort true true mode m = (_, refl)
  assemble-next id model effort true false mode m = (_, refl)
  assemble-next id model effort false true mode m = (_, refl)
  assemble-next id model effort false false mode m = (_, refl)

  -- With an unsafe argument nothing is done.
  build_claude_command-unsafe :
      (id : String) (model effort : Option String) (no_hooks mcp : Bool) (mode : Option String)
      (m : Manager N W)
      → (safe_option model && safe_option effort) ≡ false
      → (e : SessionError) × (build_claude_command B id model effort no_hooks mcp mode m
          ≡ (stop e, m))
  unfolding build_claude_command ◌>>=◌
  build_claude_command-unsafe id model effort no_hooks mcp mode m h =
      elim (Bool-cases (safe_option model)) [
        | inl a ↦ (
          message "effort" effort,
          rw (check_arg-safe "model" model m a)
              (rw (check_arg-unsafe "effort" effort m (rw a at h)) refl),
        )
        | inr a ↦ (message "model" model, rw (check_arg-unsafe "model" model m a) refl)
      ]

  build_claude_command-safe :
      (id : String) (model effort : Option String) (no_hooks mcp : Bool) (mode : Option String)
      (m : Manager N W)
      → safe_option model ≡ true
      → safe_option effort ≡ true
      → build_claude_command B id model effort no_hooks mcp mode m
        ≡ assemble B id model effort no_hooks mcp mode m
  unfolding build_claude_command ◌>>=◌
  build_claude_command-safe id model effort no_hooks mcp mode m a b =
      rw (check_arg-safe "model" model m a) (rw (check_arg-safe "effort" effort m b) refl)

  -- build_claude_command returns a command exactly if the model and the effort, where given, are
  -- not empty and are written with letters, digits, dots, underscores and dashes only; where they
  -- are not, it returns an error and leaves the manager and the world as they were.
  pub build_claude_command_iff :
      (id : String) (model effort : Option String) (no_hooks mcp : Bool) (mode : Option String)
      (m : Manager N W)
      → (((c : String) × ((build_claude_command B id model effort no_hooks mcp mode m).0 ≡ next c))
          ↔ (IsHarmless model × IsHarmless effort))
        × ((¬ (IsHarmless model × IsHarmless effort))
            → (e : SessionError) × (build_claude_command B id model effort no_hooks mcp mode m
                ≡ (stop e, m)))
  build_claude_command_iff id model effort no_hooks mcp mode m =
      let harmless_iff = safe_options_iff model effort in
      elim (Bool-cases (safe_option model && safe_option effort)) [
        | inl e ↦
            let (a, b) = and_true (safe_option model) (safe_option effort) e in
            let (c, n) = assemble-next id model effort no_hooks mcp mode m in
            let built = build_claude_command-safe id model effort no_hooks mcp mode m a b in
            (
              ((λ _. harmless_iff.0 e), (λ _. (c, ap (λ p. p.0) built ∙ n))),
              (λ k. absurd (k (harmless_iff.0 e))),
            )
        | inr e ↦
            let (r, n) = build_claude_command-unsafe id model effort no_hooks mcp mode m e in
            (
              (
                (λ (c, k). absurd (next≢stop c r _ k (ap (λ p. p.0) n))),
                (λ h. absurd (false≢true (sym e ∙ harmless_iff.1 h))),
              ),
              (λ _. (r, n)),
            )
      ]
