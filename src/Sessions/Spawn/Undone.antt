-- ===== src/Sessions/Spawn/Undone.antt =====
-- engine/src/sessions/manager.rs, spawn: a spawn that fails leaves the registry as it was.
use openmirai.Prelude.{
  ◌≡◌, refl, sym, ap, ◌∙◌, subst, String, Bool, true, false, Option, none, some, HashMap, get,
  insert, get-insert, get-remove, eq_iff, ◌==◌, Result, ok, err, Bool-cases, inl, inr,
}
use openmirai.Steps.{Flow, next, stop, Step, pure, halt, gets, modify, and_go, ◌>>=◌}
use openmirai.Steps.Keeps.{
  Keeps, Gives, Gives-of_Keeps, EndsWith, keeps_rules, Keeps-pure, Keeps-halt,
}
use openmirai.Sessions.Records.{SessionRecord, SpawnParams, SessionError}
use openmirai.Sessions.Backend.{Backend}
use openmirai.Sessions.Manager.{
  Manager, Op, call, call_try, unwrap, insert_record, remove_record, try_persist, emit_session,
  session_env, known_parent,
}
use openmirai.Sessions.Command.{build_claude_command, assemble, check_arg}
use openmirai.Sessions.Spawn.{
  require_text, ensure_dir, created, is_there, commit_spawn, track_spawn, spawned_record, spawn,
}

-- A step that stops from a state with `P` leaves one with `Q`.
record Fails {S R A : Type 0} (P Q : S → Type 0) (m : Step S R A) : Type 0 where
  at : (s : S) → P s → (e : R) → (m s).0 ≡ stop e → Q (m s).1

module _ {S R A B : Type 0} {P Q : S → Type 0} {T : A → Type 0} where
  Fails-go :
      (r : Flow R A) (f : A → Step S R B) (s : S)
      → ((a : A) → T a → Fails P Q (f a))
      → ((t : S) → P t → Q t)
      → P s
      → EndsWith (λ (e : R). Unit {0}) T r
      → (e : R) → (and_go r f s).0 ≡ stop e
      → Q (and_go r f s).1
  Fails-go (next a) f s k sub h t e q = (k a t).at s h e q
  Fails-go (stop r) f s k sub h t e q = sub s h

  Fails-bind :
      (m : Step S R A) (f : A → Step S R B)
      → Gives P (λ (e : R). Unit {0}) T m
      → ((t : S) → P t → Q t)
      → ((a : A) → T a → Fails P Q (f a))
      → Fails P Q (m >>= f)
  unfolding ◌>>=◌
  Fails-bind m f g sub k = record {
    at = λ s h e q. let (p, t) = g.at s h in Fails-go (m s).0 f (m s).1 k sub p t e q;
  }

-- The registry is this list.
abbrev Still : {N W : Type 0} → HashMap SessionRecord → Manager N W → Type 0
Still s m = m.sessions ≡ s

-- The registry finds what this one finds.
abbrev SameRegistry : {N W : Type 0} → HashMap SessionRecord → Manager N W → Type 0
SameRegistry s m = (id : String) → get id m.sessions ≡ get id s

module _ {N W : Type 0} (B : Backend W) (s : HashMap SessionRecord) where
  abbrev Quiet : {A : Type 0} → Op N W A → Type 0
  Quiet m = Keeps (Still s) (λ (e : SessionError). Unit {0}) m

  call-Quiet : {A : Type 0} (f : W → A × W) → Quiet (call B f)
  unfolding call
  call-Quiet f = record { at = λ m h. (h, tt) }

  unwrap-Quiet : {A : Type 0} (r : Result A SessionError) → Quiet (unwrap B r)
  unwrap-Quiet (ok a) = Keeps-pure a
  unwrap-Quiet (err e) = Keeps-halt e tt

  call_try-Quiet : {A : Type 0} (f : W → Result A SessionError × W) → Quiet (call_try B f)
  unfolding call_try
  call_try-Quiet f = search (keeps_rules, call-Quiet, unwrap-Quiet)

  halt-Quiet : {A : Type 0} (e : SessionError) → Quiet (halt {A = A} e)
  halt-Quiet e = Keeps-halt e tt

  created-Quiet : (dir : String) (r : Result (Unit {0}) String) → Quiet (created B dir r)
  created-Quiet dir (ok u) = Keeps-pure tt
  created-Quiet dir (err e) = Keeps-halt _ tt

  is_there-Quiet : (dir : String) (b : Bool) → Quiet (is_there B dir b)
  is_there-Quiet dir true = Keeps-pure tt
  is_there-Quiet dir false = Keeps-halt _ tt

  ensure_dir-Quiet : (p : SpawnParams) → Quiet (ensure_dir B p)
  ensure_dir-Quiet p = search (keeps_rules, call-Quiet, created-Quiet, is_there-Quiet)

  require_text-Quiet : (t what : String) → Quiet (require_text t what)
  require_text-Quiet t what = search (keeps_rules, halt-Quiet)

  known_parent-Quiet : (p : Option String) → Quiet (known_parent B p)
  unfolding known_parent
  known_parent-Quiet p = search keeps_rules

  session_env-Quiet : (id : String) (r : SessionRecord) → Quiet (session_env B id r)
  unfolding session_env
  session_env-Quiet id r = search keeps_rules

  check_arg-Quiet : (what : String) (v : Option String) → Quiet (check_arg B what v)
  check_arg-Quiet what none = Keeps-pure tt
  check_arg-Quiet what (some v) = search (keeps_rules, halt-Quiet)

  build_claude_command-Quiet :
      (id : String) (model effort : Option String) (no_hooks mcp : Bool) (mode : Option String)
      → Quiet (build_claude_command B id model effort no_hooks mcp mode)
  unfolding build_claude_command assemble
  build_claude_command-Quiet id model effort no_hooks mcp mode =
      search (keeps_rules, call-Quiet, check_arg-Quiet) depth 14

  commit_spawn-Fails :
      (r : SessionRecord) (w : Result (Unit {0}) SessionError) (m : Manager N W) (e : SessionError)
      → get r.id s ≡ none
      → m.sessions ≡ insert r.id r s
      → (commit_spawn B r w m).0 ≡ stop e
      → SameRegistry s (commit_spawn B r w m).1
  unfolding ◌>>=◌ call emit_session modify pure halt remove_record
  commit_spawn-Fails r (ok u) m e n h q id = absurd (cc q)
  commit_spawn-Fails r (err x) m e n h q id =
      get-remove r.id id m.sessions
      ∙ rw h (elim (Bool-cases (r.id == id)) [
        | inl k ↦ rw k (subst (λ i. none ≡ get i s) ((eq_iff r.id id).0 k) (sym n))
        | inr k ↦ rw k (get-insert r.id id r s ∙ rw k refl)
      ])

  track_spawn-Fails :
      (r : SessionRecord)
      → get r.id s ≡ none
      → Fails (Still {N = N} s) (SameRegistry s) (track_spawn B r)
  unfolding track_spawn ◌>>=◌ insert_record modify try_persist gets call
  track_spawn-Fails r n = record {
    at = λ m h e q. commit_spawn-Fails r _ _ e n (ap (insert r.id r) h) q;
  }

  Quiet-then :
      {A C : Type 0} (m : Op N W A) (f : A → Op N W C)
      → Quiet m
      → ((a : A) → Fails (Still s) (SameRegistry s) (f a))
      → Fails (Still s) (SameRegistry s) (m >>= f)
  Quiet-then m f q k =
      Fails-bind {T = λ _. Unit {0}} m f (Gives-of_Keeps m q) (λ t h id. ap (get id) h) (λ a u. k a)

  fresh_id :
      ((w : W) → get (B.short_id w).0 s ≡ none)
      → Gives
          (Still {N = N} s)
          (λ (e : SessionError). Unit {0})
          (λ id. get id s ≡ none)
          (call B B.short_id)
  unfolding call
  fresh_id fresh = record { at = λ m h. (h, fresh m.world) }

  spawn-Fails :
      (p : SpawnParams)
      → ((w : W) → get (B.short_id w).0 s ≡ none)
      → Fails (Still {N = N} s) (SameRegistry s) (spawn B p)
  unfolding spawn spawned_record
  spawn-Fails p fresh = Quiet-then _ _ (require_text-Quiet p.project_dir "project_dir") (λ a.
      Quiet-then _ _ (require_text-Quiet p.objective "objective") (λ b.
        Quiet-then _ _ (ensure_dir-Quiet p) (λ c.
          Quiet-then _ _ (known_parent-Quiet p.parent_id) (λ parent_id.
            Fails-bind _ _ (fresh_id fresh) (λ t h id. ap (get id) h)
              (λ id n. Quiet-then _ _ (build_claude_command-Quiet id _ _ _ _ _) (λ command.
                Quiet-then _ _ (call-Quiet _) (λ now.
                  Quiet-then _ _ (session_env-Quiet id _) (λ env.
                    Quiet-then _ _ (call_try-Quiet _)
                      (λ u. track_spawn-Fails (spawned_record p id parent_id now) n)))))))))

-- If the random ids are not in the registry, a spawn that fails, at a check, in tmux or when the
-- registry is written, leaves every id with the record that it had.
pub spawn-err :
    {N W : Type 0} (B : Backend W) (p : SpawnParams) (m : Manager N W) (e : SessionError)
    → ((w : W) → get (B.short_id w).0 m.sessions ≡ none)
    → (spawn B p m).0 ≡ stop e
    → (id : String) → get id (spawn B p m).1.sessions ≡ get id m.sessions
spawn-err B p m e fresh q = (spawn-Fails B m.sessions p fresh).at m refl e q
