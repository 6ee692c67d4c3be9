-- ===== src/State.antt =====
-- engine/src/core/state.rs: the outputs of the nodes, behind a lock that a panicking writer poisons.
-- Clones of the Rust value share one map; here that map is passed from step to step. What a lock
-- error says (`e.to_string()`) is left out.
pub mod Laws
mod Tests
use openmirai.Prelude.{
  ◌≡◌, String, Bool, true, false, not, ◌&&◌, Option, none, some, List, [], ◌∷◌, if◌then◌else◌,
  and_then, is_some, split, HashMap, get, insert, contains_key, Result, ok, err,
}
use openmirai.Json.{Value, member}

pub data StateError : Type 0 where
  already_set : String → StateError
  lock_poisoned : StateError

-- A node's output: a field name to a value.
abbrev pub Output : Type 0 → Type 0
Output N = HashMap (Value N)

pub record ExecutionState (N : Type 0) : Type 0 where
  pub poisoned : Bool
  pub outputs : HashMap (Output N)

-- The nested loop of merge on one node: every field of the other output is inserted.
unfoldable pub merge_output : {N : Type 0} → Output N → Output N → Output N
merge_output mine [] = mine
merge_output mine ((k, v) ∷ theirs) = merge_output (insert k v mine) theirs

module _ {N : Type 0} where
  unfoldable pub set :
      String → Output N → Bool → ExecutionState N → Result (ExecutionState N) StateError
  set node_id output overwrite s =
      if s.poisoned
      then err lock_poisoned
      else if not overwrite && contains_key node_id s.outputs
      then err (already_set node_id)
      else ok (record s { outputs = insert node_id output s.outputs })

  unfoldable pub get_output : String → ExecutionState N → Option (Output N)
  get_output node_id s = if s.poisoned then none else get node_id s.outputs

  -- The loop over the path's parts after the first.
  unfoldable pub descend : List String → Value N → Option (Value N)
  descend [] v = some v
  descend (part ∷ parts) v = let rest = descend parts in and_then (member part v) rest

  -- The walk along the path; `split` returns at least one part.
  abbrev pub walk_path : List String → Output N → Option (Value N)
  walk_path [] output = none
  walk_path (part ∷ parts) output = and_then (get part output) (descend parts)

  unfoldable pub get_field : String → String → ExecutionState N → Option (Value N)
  unfolding get_output descend
  get_field node_id path s =
      and_then (get_output node_id s) (λ output. walk_path (split b'.' path) output)

  unfoldable pub snapshot : ExecutionState N → HashMap (Output N)
  snapshot s = if s.poisoned then [] else s.outputs

  abbrev pub new : ExecutionState N
  new = record { poisoned = false; outputs = [] }

  abbrev no_entries : HashMap (Output N) → Bool
  no_entries [] = true
  no_entries (_ ∷ _) = false

  unfoldable pub is_empty : ExecutionState N → Bool
  is_empty s = if s.poisoned then true else no_entries s.outputs

  unfoldable pub fork : ExecutionState N → ExecutionState N
  unfolding snapshot
  fork s = record { poisoned = false; outputs = snapshot s }

  -- What the loop stores for a node that the other state has.
  abbrev pub merged_entry : Option (Output N) → Output N → Output N
  merged_entry none theirs = theirs
  merged_entry (some mine) theirs = merge_output mine theirs

  -- The outer loop of merge.
  unfoldable pub merge_outputs : HashMap (Output N) → HashMap (Output N) → HashMap (Output N)
  merge_outputs mine [] = mine
  merge_outputs mine ((node_id, theirs) ∷ rest) =
      merge_outputs (insert node_id (merged_entry (get node_id mine) theirs) mine) rest

  unfoldable pub merge : ExecutionState N → ExecutionState N → Result (ExecutionState N) StateError
  unfolding merge_outputs
  merge other s =
      if s.poisoned
      then err lock_poisoned
      else if other.poisoned
      then err lock_poisoned
      else ok (record s { outputs = merge_outputs s.outputs other.outputs })
