-- ===== src/Runner/Termination.antt =====
-- graph_runner.rs, run_from and its callers: the end of the loop.
use openmirai.Prelude.{
  ℕ, zero, suc, ◌+◌, ◌*◌, ◌<◌, ◌≡◌, ◌≢◌, refl, ap, String, Option, none, some, List, [], ◌∷◌, arith,
  length, get, get-nil, HashMap, inl, inr, Result-cases,
}
use openmirai.Json.{Json}
use openmirai.Graph.{NodeDef, GraphDef, validate, entry_nodes}
use openmirai.State.{ExecutionState}
use openmirai.Runner.Services.{Services}
use openmirai.Runner.Retry.{u32_mod}
use openmirai.Runner.Exec.{Exec, Outcome, Flow, next, stop, Flow-cases}
use openmirai.Runner.Bounds.{budget, IsWithin, IsWithin-bumped, turn-next, budget-lt}
use openmirai.Runner.Loop.{
  Visits, turn, walk, start_run, run_from, run_with_state, resume, finish, walk_on, initial,
  run_first,
}
use openmirai.Runner.Routing.{index_nodes}

-- With nothing counted, each node may be visited `limit` times.
budget_new :
    {N : Type 0} (limit : ℕ) (ns : List (NodeDef N)) → budget limit [] ns ≡ length ns * limit
budget_new limit [] = omega arith
budget_new limit (n ∷ ns) = grind (arith, budget_new limit ns, get-nil {V = ℕ} n.id)

-- The fuel that every run of a graph ends in: a turn more than its nodes times the limit of visits.
abbrev pub enough : {N : Type 0} → ℕ → GraphDef N → ℕ
enough limit g = length g.nodes * limit + 1

module _ {J : Json} {W : Type 0} (S : Services J W) (small : S.max_iterations + 1 < u32_mod) where
  walk_ends :
      (fuel : ℕ) (g : GraphDef J.Number) (node_idx : HashMap ℕ) (cur : Option ℕ) (visits : Visits)
      (x : Exec J.Number W)
      → IsWithin S.max_iterations visits
      → budget S.max_iterations visits g.nodes < fuel
      → walk S fuel g node_idx cur visits x ≢ none
  unfolding walk
  walk_ends fuel g node_idx none visits x b f = cc
  walk_ends zero g node_idx (some idx) visits x b f = elim f [ ]
  walk_ends (suc fuel) g node_idx (some idx) visits x b f =
      let y = (turn S idx g node_idx visits x).1 in
      elim (Flow-cases (turn S idx g node_idx visits x).0) [
        | inr (o, e) ↦ rw (e, walk) (λ h. cc)
        | inl ((i, after), e) ↦
            let c = turn-next S idx g node_idx visits after i x y (ap (λ r. (r, y)) e) in
            let within : IsWithin S.max_iterations after =
              rw c.counted (IsWithin-bumped S.max_iterations c.node.id visits c.within b) in
            let less : budget S.max_iterations after g.nodes
                < budget S.max_iterations visits g.nodes =
              rw c.counted (
                budget-lt S.max_iterations small c.node visits g.nodes c.stands c.within
                  (b c.node.id)) in
            rw (e, walk) (walk_ends fuel g node_idx i after y within (omega arith))
      ]

  walk_ends_new :
      (g : GraphDef J.Number) (node_idx : HashMap ℕ) (cur : Option ℕ) (x : Exec J.Number W)
      → walk S (enough S.max_iterations g) g node_idx cur [] x ≢ none
  walk_ends_new g node_idx cur x =
      walk_ends (enough S.max_iterations g) g node_idx cur [] x
        (λ k. ground (arith, get-nil {V = ℕ} k))
        (omega (arith, budget_new S.max_iterations g.nodes))

  finish-ne-none :
      (g : GraphDef J.Number)
      (r : Option (Flow (Outcome J.Number J.F64) (Unit {0}) × Exec J.Number W))
      → r ≢ none
      → finish S g r ≢ none
  finish-ne-none g none h = λ e. h refl
  finish-ne-none g (some (next u, x)) h = λ e. cc
  finish-ne-none g (some (stop o, x)) h = λ e. cc

  walk_on-ne-none :
      (g : GraphDef J.Number) (entry : String) (r : Flow (Outcome J.Number J.F64) (Unit {0}))
      (x : Exec J.Number W)
      → walk_on S (enough S.max_iterations g) g entry r x ≢ none
  walk_on-ne-none g entry (stop o) x = λ e. cc
  walk_on-ne-none g entry (next u) x =
      let node_idx = index_nodes 0 g.nodes [] in
      finish-ne-none g (walk S (enough S.max_iterations g) g node_idx (get entry node_idx) [] x)
        (walk_ends_new g node_idx (get entry node_idx) x)

  -- A run from any node and any state ends, by a result, an error or a panic, when the loop is
  -- given one turn more than the graph's nodes times the visits that a node may have.
  pub run_from_ends :
      (g : GraphDef J.Number) (state : ExecutionState J.Number) (entry : String) (step : ℕ) (w : W)
      → run_from S (enough S.max_iterations g) g state entry step w ≢ none
  unfolding run_from
  run_from_ends g state entry step w =
      let x = initial S state step w in
      walk_on-ne-none g entry (start_run S g x).0 (start_run S g x).1

  run_first_ends :
      (g : GraphDef J.Number) (state : ExecutionState J.Number) (w : W)
      (entries : List (NodeDef J.Number))
      → run_first S (enough S.max_iterations g) g state w entries ≢ none
  run_first_ends g state w [] = λ e. cc
  run_first_ends g state w (entry ∷ _) = run_from_ends g state entry.id 0 w

  -- With a limit of visits below 2^32 - 1, run_with_state and resume end on every graph, cycles
  -- included, within one turn more than nodes times limit, whatever the tools, hooks, callbacks
  -- and flags answer.
  pub run_with_state_ends :
      (g : GraphDef J.Number) (state : ExecutionState J.Number) (node_id : String) (w : W)
      → (run_with_state S (enough S.max_iterations g) g state w ≢ none)
        × (resume S (enough S.max_iterations g) g state node_id w ≢ none)
  unfolding run_with_state resume
  run_with_state_ends g state node_id w = elim (Result-cases (validate g)) [
    | inl (u, e) ↦ (
      rw (e, run_with_state) (run_first_ends g state w (entry_nodes g)),
      rw (e, resume) (run_from_ends g state node_id 0 w),
    )
    | inr (x, e) ↦ (rw (e, run_with_state) (λ h. cc), rw (e, resume) (λ h. cc))
  ]
