-- ===== src/State/Laws.antt =====
-- engine/src/core/state.rs: the operations of ExecutionState, by what `get` returns after them.
use openmirai.Prelude.{
  ◌≡◌, refl, ap, List, All, ◌||◌, and_then, is_some, Result, String, Bool, false, Option, none,
  some, [], ◌∷◌, arith, ◌==◌, eq_iff, eq_refl, if◌then◌else◌, Bool-cases, inl, inr, or_else, subst,
  Distinct, keys, get_of_not-In, HashMap, get, insert, contains_key, get-insert, get-nil, ok, err,
}
use openmirai.Json.{Value}
use openmirai.State.{
  ExecutionState, Output, StateError, already_set, set, get_output, fork, merge, merge_output,
  merge_outputs, merged_entry,
}

module _ {N : Type 0} where
  -- After a write that succeeds the node has the written output, and every other node keeps its
  -- own.
  pub get_output-set :
      (k j : String) (output : Output N) (overwrite : Bool) (s : ExecutionState N)
      {t : ExecutionState N}
      → set k output overwrite s ≡ ok t
      → get_output j t ≡ (if k == j then some output else get_output j s)
  unfolding set get_output
  get_output-set k j output overwrite s h =
      ground (arith, get-insert k j output s.outputs, eq_iff k j)

  -- After a write to a node that succeeds, a second write to it without overwrite is refused as
  -- already set.
  pub set_once :
      (k : String) (first second : Output N) (overwrite : Bool) (s : ExecutionState N)
      {t : ExecutionState N}
      → set k first overwrite s ≡ ok t
      → set k second false t ≡ err (already_set k)
  unfolding set contains_key
  set_once k first second overwrite s h = ground (arith, get-insert k k first s.outputs, eq_refl k)

  -- A write without overwrite, the state kept if it is refused.
  abbrev keep_first : ExecutionState N → Result (ExecutionState N) StateError → ExecutionState N
  keep_first s (ok t) = t
  keep_first s (err x) = s

  -- A sequence of writes without overwrite.
  abbrev pub write_all : List (String × Output N) → ExecutionState N → ExecutionState N
  write_all [] s = s
  write_all ((k, output) ∷ more) s = write_all more (keep_first s (set k output false s))

  keep_first-usable :
      (k : String) (output : Output N) (s : ExecutionState N)
      → s.poisoned ≡ false
      → (keep_first s (set k output false s)).poisoned ≡ false
  unfolding set
  keep_first-usable k output s h = ground arith

  get-keep_first :
      (k j : String) (output : Output N) (s : ExecutionState N)
      → s.poisoned ≡ false
      → get_output j (keep_first s (set k output false s))
        ≡ or_else (get_output j s) (if k == j then some output else none)
  unfolding set get_output contains_key
  get-keep_first k j output s h = elim (Bool-cases (k == j)) [
    | inl e ↦
        let same : k ≡ j = (eq_iff k j).0 e in
        ground (arith, get-insert k j output s.outputs, ap (λ i. get i s.outputs) same)
    | inr e ↦ ground (arith, get-insert k j output s.outputs)
  ]

  -- After any sequence of writes without overwrite to a usable state, a node that had an output
  -- still has that one, and any other node has the output of the first write to it, if there is
  -- one.
  pub get_output-write_all :
      (writes : List (String × Output N)) (k : String) (s : ExecutionState N)
      → s.poisoned ≡ false
      → get_output k (write_all writes s) ≡ or_else (get_output k s) (get k writes)
  unfolding get
  get_output-write_all [] k s h = ground arith
  get_output-write_all ((j, output) ∷ more) k s h = ground (
    arith,
    get_output-write_all more k (keep_first s (set j output false s))
        (keep_first-usable j output s h),
    get-keep_first j k output s h,
  )

  -- Every node has the same output in a fork as in the state that was forked.
  pub get_output-fork : (k : String) (s : ExecutionState N) → get_output k (fork s) ≡ get_output k s
  unfolding fork get_output
  get_output-fork k s = ground (arith, get-nil {V = Output N} k)

  get-merge_output :
      (f : String) (mine theirs : Output N)
      → Distinct (keys theirs)
      → get f (merge_output mine theirs) ≡ or_else (get f theirs) (get f mine)
  unfolding merge_output get
  get-merge_output f mine [] d = refl
  get-merge_output f mine ((k, v) ∷ theirs) d = ground (
    arith,
    get-merge_output f (insert k v mine) theirs d.1,
    get-insert k f v mine,
    eq_iff k f,
    get_of_not-In k theirs d.0,
  )

  -- The output of a node after a merge: both outputs joined where both states have one.
  abbrev joined : Option (Output N) → Option (Output N) → Option (Output N)
  joined mine none = mine
  joined none (some theirs) = some theirs
  joined (some mine) (some theirs) = some (merge_output mine theirs)

  get-merge_outputs :
      (k : String) (mine theirs : HashMap (Output N))
      → Distinct (keys theirs)
      → get k (merge_outputs mine theirs) ≡ joined (get k mine) (get k theirs)
  unfolding merge_outputs get
  get-merge_outputs k mine [] d = refl
  get-merge_outputs k mine ((j, out) ∷ theirs) d =
      let entry = merged_entry (get j mine) out in
      let later = get-merge_outputs k (insert j entry mine) theirs d.1 in
      elim (Bool-cases (j == k)) [
        | inl e ↦
            let same : j ≡ k = (eq_iff j k).0 e in
            let gone : get k theirs ≡ none =
              subst (λ i. get i theirs ≡ none) same (get_of_not-In j theirs d.0) in
            ground (arith, later, get-insert j k entry mine, gone, ap (λ i. get i mine) same)
        | inr e ↦ ground (arith, later, get-insert j k entry mine)
      ]

  -- The field of a node's output, if the node has one.
  abbrev pub field_of : String → Option (Output N) → Option (Value N)
  field_of f output = and_then output (get f)

  field_of-joined :
      (f : String) (mine theirs : Option (Output N))
      → ((o : Output N) → theirs ≡ some o → Distinct (keys o))
      → field_of f (joined mine theirs) ≡ or_else (field_of f theirs) (field_of f mine)
  field_of-joined f none none d = refl
  field_of-joined f (some mine) none d = refl
  field_of-joined f none (some theirs) d = ground arith
  field_of-joined f (some mine) (some theirs) d = get-merge_output f mine theirs (d theirs refl)

  is_some-joined :
      (mine theirs : Option (Output N))
      → is_some (joined mine theirs) ≡ (is_some mine || is_some theirs)
  is_some-joined none none = refl
  is_some-joined (some mine) none = refl
  is_some-joined none (some theirs) = refl
  is_some-joined (some mine) (some theirs) = refl

  get-Distinct :
      (k : String) (m : HashMap (Output N)) (o : Output N)
      → All (λ entry. Distinct (keys entry.1)) m
      → get k m ≡ some o
      → Distinct (keys o)
  unfolding get
  get-Distinct k [] o h g = absurd (ground (arith, g))
  get-Distinct k ((j, output) ∷ m) o h g = elim (Bool-cases (j == k)) [
    | inl e ↦
        let found : output ≡ o = ground (arith, e, g) in subst (λ a. Distinct (keys a)) found h.0
    | inr e ↦ get-Distinct k m o h.1 (rw e at g)
  ]

  -- After a merge that succeeds, a node has an output exactly if it had one in either state, and
  -- each field of it is the other state's where that state has the field, and the own one where
  -- not. Neither the other state's map nor an output in it names a key twice.
  pub get_output-merge :
      (k f : String) (other s : ExecutionState N) (t : ExecutionState N)
      → Distinct (keys other.outputs)
      → All (λ entry. Distinct (keys entry.1)) other.outputs
      → merge other s ≡ ok t
      → (is_some (get_output k t) ≡ (is_some (get_output k s) || is_some (get_output k other)))
        × (field_of f (get_output k t)
            ≡ or_else (field_of f (get_output k other)) (field_of f (get_output k s)))
  unfolding merge get_output
  get_output-merge k f other s t d ds h =
      let entry = get-merge_outputs k s.outputs other.outputs d in
      let mine = get k s.outputs in
      let theirs = get k other.outputs in
      let fields = field_of-joined f mine theirs (λ o. get-Distinct k other.outputs o ds) in
      (ground (arith, entry, is_some-joined mine theirs, h), ground (arith, entry, fields, h))
