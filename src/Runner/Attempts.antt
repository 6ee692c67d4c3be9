-- ===== src/Runner/Attempts.antt =====
-- graph_runner.rs, execute_with_retry: its attempts, described apart from its loop.
use openmirai.Prelude.{
  subst, ℕ, zero, suc, ◌+◌, ◌<◌, ◌≤◌, ◌≡◌, refl, arith, Option, none, some, Result, ok, err,
  Option-cases, inl, inr,
}
use openmirai.Json.{Json}
use openmirai.Graph.{NodeDef}
use openmirai.State.{Output}
use openmirai.Runner.Types.{ToolError, RetryPolicy}
use openmirai.Runner.Services.{Services}
use openmirai.Runner.Retry.{
  u32_mod, Attempts, succeeded, failed, panicked, wait_before, give_up, attempt_loop,
  execute_with_retry,
}

module _ {J : Json} {W : Type 0} (S : Services J W) (node : NodeDef J.Number)
    (inputs : Output J.Number) (policy : RetryPolicy J.F64) where
  -- So many attempts in a row fail, each after its wait, the last with this error; and the world
  -- before and after them.
  pub data Failing : ℕ → Option ToolError → W → W → Type 0 where
    no_attempt : {w : W} → Failing 0 none w w
    one_more :
        {k : ℕ} {last : Option ToolError} {w before ready after : W} {e : ToolError}
        → Failing k last w before
        → wait_before S k policy before ≡ some ready
        → S.execute node inputs ready ≡ (err e, after)
        → Failing (suc k) (some e) w after

  -- How a result of the attempts, which began in `w`, came about.
  abbrev pub Explains : W → Attempts J.Number W → Type 0
  Explains w (succeeded output retries w') =
      (last : Option ToolError) × (before : W) × (ready : W) × Failing retries last w before
      × (wait_before S retries policy before ≡ some ready)
      × (S.execute node inputs ready ≡ (ok output, w'))
      × (retries ≤ policy.max_retries)
  Explains w (failed e retries w') =
      Failing (suc policy.max_retries) (some e) w w' × (retries ≡ policy.max_retries)
  Explains w (panicked w') =
      (k : ℕ) × (last : Option ToolError) × Failing k last w w'
      × (k ≤ policy.max_retries)
      × (wait_before S k policy w' ≡ none)

  give_up-Explains :
      (last : Option ToolError) (w w' : W)
      → Failing (suc policy.max_retries) last w w'
      → Explains w (give_up S last policy.max_retries w')
  give_up-Explains (some e) w w' h = (h, refl)
  give_up-Explains none w w' h = elim h [ ]

  -- One attempt, given what the loop does after a failure.
  executed-Explains :
      (left k : ℕ) (last : Option ToolError) (w before ready after : W)
      (r : Result (Output J.Number) ToolError)
      → Failing k last w before
      → wait_before S k policy before ≡ some ready
      → k ≤ policy.max_retries
      → S.execute node inputs ready ≡ (r, after)
      → ((e : ToolError)
          → Failing (suc k) (some e) w after
          → Explains w (attempt_loop S node inputs policy left (suc k) (some e) after))
      → Explains w (elim r [
        | ok output ↦ succeeded output k after
        | err e ↦ attempt_loop S node inputs policy left (suc k) (some e) after
      ])
  executed-Explains left k last w before ready after (ok output) h n b x later =
      (last, before, ready, h, n, x, b)
  executed-Explains left k last w before ready after (err e) h n b x later =
      later e (one_more h n x)

  attempt_loop-Explains :
      (left k : ℕ) (last : Option ToolError) (w w' : W)
      → Failing k last w w'
      → left + k ≡ suc policy.max_retries
      → Explains w (attempt_loop S node inputs policy left k last w')
  unfolding attempt_loop
  attempt_loop-Explains zero k last w w' h e =
      give_up-Explains last w w' (subst (λ n. Failing n last w w') (omega (arith, e)) h)
  attempt_loop-Explains (suc left) k last w w' h e =
      elim (Option-cases (wait_before S k policy w')) [
        | inl n ↦ rw (n, Explains) (k, last, h, omega (arith, e), n)
        | inr (ready, n) ↦
            let (r, after) = S.execute node inputs ready in
            rw (n, Explains)
              (executed-Explains left k last w w' ready after r h n (omega (arith, e)) refl
                (λ x f. attempt_loop-Explains left (suc k) (some x) w after f (omega (arith, e))))
      ]

  -- With fewer than 2^32 - 1 retries, a success of execute_with_retry is that of the first
  -- attempt that does not fail and its number is at most max_retries, a failure is that of
  -- attempt max_retries after all before it failed, each after its wait, and a panic comes from a
  -- wait whose length no Duration can hold.
  pub execute_with_retry_lem :
      policy.max_retries + 1 < u32_mod
      → (w : W) → Explains w (execute_with_retry S node inputs policy w)
  unfolding execute_with_retry
  execute_with_retry_lem small w =
      subst (λ n. Explains w (attempt_loop S node inputs policy n 0 none w)) (omega (arith, small))
        (attempt_loop-Explains (1 + policy.max_retries) 0 none w w no_attempt (omega arith))
