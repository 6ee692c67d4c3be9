-- ===== src/State/Tests.antt =====
-- States with the outputs of one or two nodes, on which the theorems on the state apply.
use openmirai.Prelude.{
  or_else, is_some, ◌||◌, Distinct, arith, here, there, contains_key, insert, get, eq_iff, ℕ,
  String, ◌≡◌, refl, true, false, [], ◌∷◌, In, ok, err,
}
use openmirai.Json.{string, bool}
use openmirai.State.{
  Output, ExecutionState, StateError, already_set, lock_poisoned, set, get_output, fork, merge,
}
use openmirai.State
use openmirai.State.Laws.{write_all, field_of, get_output-write_all, get_output-merge}

abbrev reply : Output ℕ
reply = ("reply", string "hi") ∷ []

abbrev done : Output ℕ
done = ("done", bool true) ∷ []

abbrev one : ExecutionState ℕ
one = record { poisoned = false; outputs = ("a", reply) ∷ [] }

abbrev other : ExecutionState ℕ
other = record { poisoned = false; outputs = ("a", done) ∷ ("b", done) ∷ [] }

abbrev both : ExecutionState ℕ
both = record {
  poisoned = false;
  outputs = ("a", ("reply", string "hi") ∷ ("done", bool true) ∷ []) ∷ ("b", done) ∷ [];
}

set-one : set "a" reply false State.new ≡ ok one
unfolding set contains_key insert
set-one = refl

set_twice : set "a" done false one ≡ err (already_set "a")
unfolding set contains_key
set_twice = refl

merge-both : merge other one ≡ ok both
unfolding merge State.merge_output insert get
merge-both = refl

get_output-write_all_example :
    get_output "a" (write_all (("b", done) ∷ ("a", reply) ∷ ("a", done) ∷ []) State.new)
    ≡ or_else
        (get_output "a" State.new)
        (get {V = Output ℕ} "a" (("b", done) ∷ ("a", reply) ∷ ("a", done) ∷ []))
get_output-write_all_example =
    get_output-write_all (("b", done) ∷ ("a", reply) ∷ ("a", done) ∷ []) "a" State.new refl

apart : ¬ In {A = String} "a" ("b" ∷ [])
apart (here e) = ground (arith, e, eq_iff "a" "b")
apart (there m) = elim m [ ]

one_key : Distinct ("done" ∷ [])
one_key = ((λ m. elim m [ ]), tt)

get_output-merge_example :
    (is_some (get_output "a" both)
      ≡ (is_some (get_output "a" one) || is_some (get_output "a" other)))
    × (field_of "reply" (get_output "a" both)
        ≡ or_else (field_of "reply" (get_output "a" other)) (field_of "reply" (get_output "a" one)))
get_output-merge_example =
    get_output-merge "a" "reply" other one both (apart, ((λ m. elim m [ ]), tt))
      (one_key, (one_key, tt)) merge-both
