-- ===== src/Runner/Parallel.antt =====
-- graph_runner.rs, execute_fanout: what its collecting loop leaves.
use mathlib.Core.List.{append_assoc, append-nil}
use openmirai.Prelude.{
  ℕ, zero, suc, ◌+◌, ◌≤◌, ◌≡◌, refl, sym, ap, ◌∙◌, arith, String, Option, none, some, List, [], ◌∷◌,
  ◌++◌, map, length, find, ◌==◌, Result, ok, err, Option-cases, inl, inr,
}
use openmirai.Json.{Json}
use openmirai.Graph.{NodeDef, GraphDef}
use openmirai.State.{ExecutionState, Output, StateError, set}
use openmirai.Runner.Types.{ToolError, TraceEntry}
use openmirai.Runner.Services.{Services}
use openmirai.Runner.Fanout.{Collected, collect_stored, collect_one, collect, add_job, fanout_jobs}

map-append : {A B : Type 0} (f : A → B) (xs ys : List A) → map f (xs ++ ys) ≡ map f xs ++ map f ys
map-append f [] ys = refl
map-append f (x ∷ xs) ys = ap (λ l. f x ∷ l) (map-append f xs ys)

abbrev pub traced_ids : List TraceEntry → List String
traced_ids = map (λ (t : TraceEntry). t.node_id)

module _ {N : Type 0} where
  abbrev pub job_ids : List (NodeDef N × Output N) → List String
  job_ids = map (λ (job : NodeDef N × Output N). job.0.id)

  collect_stored-traced :
      (node : NodeDef N) (elapsed : ℕ) (r : Result (ExecutionState N) StateError) (c : Collected N)
      → traced_ids (collect_stored node elapsed r c).trace ≡ traced_ids c.trace ++ node.id ∷ []
  collect_stored-traced node elapsed (ok s) c = map-append _ c.trace _
  collect_stored-traced node elapsed (err e) c = map-append _ c.trace _

  collect_one-traced :
      (node : NodeDef N) (r : Result (Output N) ToolError) (elapsed : ℕ) (c : Collected N)
      → traced_ids (collect_one node r elapsed c).trace ≡ traced_ids c.trace ++ node.id ∷ []
  unfolding collect_one
  collect_one-traced node (ok output) elapsed c =
      collect_stored-traced node elapsed (set node.id output openmirai.Prelude.true c.state) c
  collect_one-traced node (err e) elapsed c = map-append _ c.trace _

  collect_stored-count :
      (node : NodeDef N) (elapsed : ℕ) (r : Result (ExecutionState N) StateError) (c : Collected N)
      → (collect_stored node elapsed r c).failed_count ≤ c.failed_count + 1
  collect_stored-count node elapsed (ok s) c = omega arith
  collect_stored-count node elapsed (err e) c = omega arith

  collect_one-count :
      (node : NodeDef N) (r : Result (Output N) ToolError) (elapsed : ℕ) (c : Collected N)
      → (collect_one node r elapsed c).failed_count ≤ c.failed_count + 1
  unfolding collect_one
  collect_one-count node (ok output) elapsed c =
      collect_stored-count node elapsed (set node.id output openmirai.Prelude.true c.state) c
  collect_one-count node (err e) elapsed c = omega arith

  -- With one result for each job, collecting the results of a fan-out appends one trace entry for
  -- each job, of that job's node, in the order of the jobs, whether it succeeded, failed or could
  -- not be stored.
  pub traced-collect :
      (jobs : List (NodeDef N × Output N)) (results : List (Result (Output N) ToolError × ℕ))
      (c : Collected N)
      → length results ≡ length jobs
      → traced_ids (collect jobs results c).trace ≡ traced_ids c.trace ++ job_ids jobs
  unfolding collect
  traced-collect [] results c h = sym (append-nil (traced_ids c.trace))
  traced-collect (job ∷ jobs) [] c h = absurd (omega (arith, h))
  traced-collect ((node, inputs) ∷ jobs) ((r, elapsed) ∷ results) c h =
      traced-collect jobs results (collect_one node r elapsed c) (omega (arith, h))
      ∙ ap (λ ids. ids ++ job_ids jobs) (collect_one-traced node r elapsed c)
      ∙ append_assoc (traced_ids c.trace) (node.id ∷ []) (job_ids jobs)

  collect-count :
      (jobs : List (NodeDef N × Output N)) (results : List (Result (Output N) ToolError × ℕ))
      (c : Collected N)
      → (collect jobs results c).failed_count ≤ c.failed_count + length jobs
  unfolding collect
  collect-count [] results c = omega arith
  collect-count (job ∷ jobs) [] c = omega arith
  collect-count ((node, inputs) ∷ jobs) ((r, elapsed) ∷ results) c = omega (
    arith,
    collect-count jobs results (collect_one node r elapsed c),
    collect_one-count node r elapsed c,
  )

module _ {J : Json} {W : Type 0} (S : Services J W) where
  add_job-length :
      (o : Option (NodeDef J.Number)) (g : GraphDef J.Number) (state : ExecutionState J.Number)
      (jobs : List (NodeDef J.Number × Output J.Number))
      → length (add_job S o g state jobs) ≤ length jobs + 1
  add_job-length none g state jobs = omega arith
  add_job-length (some node) g state jobs = omega arith

  fanout_jobs-length :
      (nids : List String) (g : GraphDef J.Number) (state : ExecutionState J.Number)
      → length (fanout_jobs S nids g state) ≤ length nids
  unfolding fanout_jobs
  fanout_jobs-length [] g state = omega arith
  fanout_jobs-length (nid ∷ nids) g state = omega (
    arith,
    add_job-length (find (λ (n : NodeDef J.Number). n.id == nid) g.nodes) g state
        (fanout_jobs S nids g state),
    fanout_jobs-length nids g state,
  )

  -- Collected from a count of 0, the failed nodes of a fan-out are at most the ids that it was
  -- asked for, so that the number of succeeded ones, their difference, does not underflow.
  pub failed_count_le :
      (nids : List String) (g : GraphDef J.Number) (state : ExecutionState J.Number)
      (results : List (Result (Output J.Number) ToolError × ℕ)) (c : Collected J.Number)
      → c.failed_count ≡ 0
      → (collect (fanout_jobs S nids g state) results c).failed_count ≤ length nids
  failed_count_le nids g state results c h = omega (
    arith,
    h,
    collect-count (fanout_jobs S nids g state) results c,
    fanout_jobs-length nids g state,
  )
