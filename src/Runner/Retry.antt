-- ===== src/Runner/Retry.antt =====
-- graph_runner.rs, "Retry logic". The attempts of one node: how many there are is computed in u32,
-- and a backoff that `Duration::from_secs_f64` refuses panics, as does an empty range of attempts.
use openmirai.Prelude.{
  ℕ, zero, suc, ◌+◌, ◌-◌, ◌%◌, Option, none, some, ok, err, if◌then◌else◌, eqb, and_then, unwrap_or,
  get,
}
use openmirai.Json.{Json}
use openmirai.Graph.{NodeDef}
use openmirai.State.{Output}
use openmirai.Runner.Types.{ToolError, RetryPolicy, BackoffStrategy, linear, exponential}
use openmirai.Runner.Services.{Services}

abbrev pub u32_mod : ℕ
u32_mod = 4294967296

-- The result of the attempts, with the world after them.
pub data Attempts (N W : Type 0) : Type 0 where
  succeeded : (output : Output N) (retries : ℕ) → W → Attempts N W
  failed : (last_error : ToolError) (retries : ℕ) → W → Attempts N W
  panicked : W → Attempts N W

module _ {J : Json} {W : Type 0} (S : Services J W) where
  -- `retry.saturating_sub(1)` is ℕ's subtraction.
  unfoldable pub calculate_backoff : ℕ → RetryPolicy J.F64 → Option ℕ
  calculate_backoff retry policy = elim policy.backoff [
    | BackoffStrategy.none ↦ J.duration J.zero_f64
    | linear ↦ J.duration (J.mul policy.initial_delay_secs (J.from_u32 retry))
    | exponential ↦ J.duration (J.mul policy.initial_delay_secs (J.two_powi (retry - 1)))
  ]

  -- The wait before an attempt; the first one does not wait.
  abbrev pub wait_before : ℕ → RetryPolicy J.F64 → W → Option W
  wait_before zero policy w = some w
  wait_before (suc k) policy w =
      and_then (calculate_backoff (suc k) policy)
        (λ ms. some (if eqb ms 0 then w else S.sleep ms w))

  -- last_error.expect(…), when no attempt is left.
  abbrev pub give_up : Option ToolError → ℕ → W → Attempts J.Number W
  give_up none retries w = panicked w
  give_up (some e) retries w = failed e retries w

  -- The loop: `left` attempts are still to make, and `attempt` is the number of the next.
  unfoldable pub attempt_loop :
      NodeDef J.Number
      → Output J.Number
      → RetryPolicy J.F64
      → ℕ
      → ℕ
      → Option ToolError
      → W
      → Attempts J.Number W
  attempt_loop node inputs policy zero attempt last w = give_up last policy.max_retries w
  attempt_loop node inputs policy (suc left) attempt last w = elim (wait_before attempt policy w) [
    | none ↦ panicked w
    | some w' ↦
        let (r, w'') = S.execute node inputs w' in
        elim r [
          | ok output ↦ succeeded output attempt w''
          | err e ↦ attempt_loop node inputs policy left (suc attempt) (some e) w''
        ]
  ]

  unfoldable pub execute_with_retry :
      NodeDef J.Number → Output J.Number → RetryPolicy J.F64 → W → Attempts J.Number W
  unfolding attempt_loop
  execute_with_retry node inputs policy w =
      attempt_loop node inputs policy ((1 + policy.max_retries) % u32_mod) 0 none w

  unfoldable pub retry_policy_for : NodeDef J.Number → RetryPolicy J.F64
  retry_policy_for node =
      unwrap_or (and_then (get "retry_policy" node.config) S.parse_retry_policy)
        S.default_retry_policy
