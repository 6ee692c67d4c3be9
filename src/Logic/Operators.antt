-- ===== src/Logic/Operators.antt =====
-- engine/src/tools/builtin/logic.rs: the operators of logic/condition against those of the edges
-- (engine/src/core/graph.rs).
use openmirai.Prelude.{
  Option, if◌then◌else◌, ◌==◌, All, All-In, ◌≡◌, ◌≢◌, refl, String, Bool, false, none, some, List,
  [], ◌∷◌, arith, In, here, there, Option-cases, inl, inr, contains,
}
use openmirai.Json.{Json, Value}
use openmirai.Json
use openmirai.Graph.{ComparisonOp, parse_op, eq, neq, gt, lt, gte, lte, in_array, contains_value}
use openmirai.Runner.Routing.{as_f64, compare_numbers, is_in, value_contains, compare_values}
use openmirai.Logic.{
  short_name, value_as_f64, ordered, in_list, holds, apply_operator, evaluate_operator,
}

-- The names of operators that the edges and the tool both know.
abbrev pub shared_names : List String
shared_names =
    "equals" ∷ "equal" ∷ "eq" ∷ "not_equals" ∷ "not_equal" ∷ "neq" ∷ "greater_than" ∷ "gt"
    ∷ "less_than" ∷ "lt" ∷ "greater_or_equal" ∷ "greater_than_or_equal" ∷ "gte" ∷ "less_or_equal"
    ∷ "less_than_or_equal" ∷ "lte" ∷ "in" ∷ "contains" ∷ []

-- The names of operators that only the edges know.
abbrev pub pascal_names : List String
pascal_names = "Eq" ∷ "Neq" ∷ "Gt" ∷ "Lt" ∷ "Gte" ∷ "Lte" ∷ "In" ∷ "Contains" ∷ []

module _ (J : Json) where
  -- serde_json's as_f64 fails on no number that as_i64 or as_u64 returns.
  abbrev pub FloatsCover : Type 0
  FloatsCover =
      (n : J.Number) → J.as_f64 n ≡ none → (J.i64_as_f64 n ≡ none) × (J.u64_as_f64 n ≡ none)

  value_as_f64-covered : FloatsCover → (v : Value J.Number) → value_as_f64 J v ≡ as_f64 J v
  value_as_f64-covered cover (Json.number n) = elim (Option-cases (J.as_f64 n)) [
    | inl e ↦ let (i, u) = cover n e in ground (arith, e, i, u)
    | inr (x, e) ↦ ground (arith, e)
  ]
  value_as_f64-covered cover Json.null = refl
  value_as_f64-covered cover (Json.bool b) = refl
  value_as_f64-covered cover (Json.string s) = refl
  value_as_f64-covered cover (Json.array vs) = refl
  value_as_f64-covered cover (Json.object fs) = refl

  ordered-compare :
      FloatsCover
      → (a b : Value J.Number) (cmp : J.F64 → J.F64 → Bool)
      → ordered J cmp (value_as_f64 J a) (value_as_f64 J b) ≡ compare_numbers J a b cmp
  ordered-compare cover a b cmp =
      rw (value_as_f64-covered cover a, value_as_f64-covered cover b) (ground arith)

  in_list-is_in : (a b : Value J.Number) → in_list J a (openmirai.Json.as_array b) ≡ is_in J a b
  in_list-is_in a b = ground arith

  holds-value_contains :
      (a b : Value J.Number) → holds J a b (Json.as_str a) (Json.as_str b) ≡ value_contains J a b
  holds-value_contains (Json.string s) b = ground arith
  holds-value_contains (Json.array vs) b = ground arith
  holds-value_contains Json.null b = ground arith
  holds-value_contains (Json.bool x) b = ground arith
  holds-value_contains (Json.number n) b = ground arith
  holds-value_contains (Json.object fs) b = ground arith

  -- The edges read the name as an operator, and the tool evaluates that operator alike.
  record Agrees (s : String) : Type 0 where
    op : ComparisonOp
    read : parse_op s ≡ some op
    same : (a b : Value J.Number) → evaluate_operator J a s b ≡ compare_values J op a b

  Agrees-All : FloatsCover → All Agrees shared_names
  unfolding parse_op contains evaluate_operator short_name apply_operator compare_values
  Agrees-All cover = (
    record { op = eq; read = refl; same = λ a b. refl },
    (
      record { op = eq; read = refl; same = λ a b. refl },
      (
        record { op = eq; read = refl; same = λ a b. refl },
        (
          record { op = neq; read = refl; same = λ a b. refl },
          (
            record { op = neq; read = refl; same = λ a b. refl },
            (
              record { op = neq; read = refl; same = λ a b. refl },
              (
                record {
                  op = gt;
                  read = refl;
                  same = λ a b. ordered-compare cover a b (λ x y. J.lt y x);
                },
                (
                  record {
                    op = gt;
                    read = refl;
                    same = λ a b. ordered-compare cover a b (λ x y. J.lt y x);
                  },
                  (
                    record {
                      op = lt;
                      read = refl;
                      same = λ a b. ordered-compare cover a b (λ x y. J.lt x y);
                    },
                    (
                      record {
                        op = lt;
                        read = refl;
                        same = λ a b. ordered-compare cover a b (λ x y. J.lt x y);
                      },
                      (
                        record {
                          op = gte;
                          read = refl;
                          same = λ a b. ordered-compare cover a b (λ x y. J.le y x);
                        },
                        (
                          record {
                            op = gte;
                            read = refl;
                            same = λ a b. ordered-compare cover a b (λ x y. J.le y x);
                          },
                          (
                            record {
                              op = gte;
                              read = refl;
                              same = λ a b. ordered-compare cover a b (λ x y. J.le y x);
                            },
                            (
                              record {
                                op = lte;
                                read = refl;
                                same = λ a b. ordered-compare cover a b (λ x y. J.le x y);
                              },
                              (
                                record {
                                  op = lte;
                                  read = refl;
                                  same = λ a b. ordered-compare cover a b (λ x y. J.le x y);
                                },
                                (
                                  record {
                                    op = lte;
                                    read = refl;
                                    same = λ a b. ordered-compare cover a b (λ x y. J.le x y);
                                  },
                                  (
                                    record {
                                      op = in_array;
                                      read = refl;
                                      same = λ a b. in_list-is_in a b;
                                    },
                                    (
                                      record {
                                        op = contains_value;
                                        read = refl;
                                        same = λ a b. holds-value_contains a b;
                                      },
                                      tt,
                                    ),
                                  ),
                                ),
                              ),
                            ),
                          ),
                        ),
                      ),
                    ),
                  ),
                ),
              ),
            ),
          ),
        ),
      ),
    ),
  )

  -- If serde_json's as_f64 fails on no number that as_i64 or as_u64 returns, each of the 18
  -- operator names that logic/condition lists is read by the edges as an operator on which both
  -- agree, on all pairs of values.
  pub evaluate_operator-shared :
      FloatsCover
      → (s : String) (a b : Value J.Number) → In s shared_names
      → (op : ComparisonOp) × (parse_op s ≡ some op)
        × (evaluate_operator J a s b ≡ compare_values J op a b)
  evaluate_operator-shared cover s a b m =
      let h = All-In Agrees shared_names (Agrees-All cover) m in (h.op, h.read, h.same a b)

  abbrev Misread : String → Type 0
  Misread s = (parse_op s ≢ none) × ((a b : Value J.Number) → evaluate_operator J a s b ≡ false)

  Misread-All : All Misread pascal_names
  unfolding parse_op contains evaluate_operator short_name apply_operator
  Misread-All = (
    ((λ e. cc e), λ a b. refl),
    (
      ((λ e. cc e), λ a b. refl),
      (
        ((λ e. cc e), λ a b. refl),
        (
          ((λ e. cc e), λ a b. refl),
          (
            ((λ e. cc e), λ a b. refl),
            (
              ((λ e. cc e), λ a b. refl),
              (((λ e. cc e), λ a b. refl), (((λ e. cc e), λ a b. refl), tt)),
            ),
          ),
        ),
      ),
    ),
  )

  -- Each of the eight operator names in Pascal case is an operator of the edges but evaluates to
  -- false in logic/condition, on all pairs of values.
  pub evaluate_operator-pascal :
      (s : String) (a b : Value J.Number)
      → In s pascal_names
      → (parse_op s ≢ none) × (evaluate_operator J a s b ≡ false)
  evaluate_operator-pascal s a b m =
      let (known, rejected) = All-In Misread pascal_names Misread-All m in (known, rejected a b)

  if_none :
      {c : Bool} (op : ComparisonOp) {rest : Option ComparisonOp}
      → (if c then some op else rest) ≡ none
      → (c ≡ false) × (rest ≡ none)
  if_none op h = ground (arith, h)

  short_name_unknown :
      (s : String)
      → ("equals" == s) ≡ false
      → ("equal" == s) ≡ false
      → ("not_equals" == s) ≡ false
      → ("not_equal" == s) ≡ false
      → ("greater_than" == s) ≡ false
      → ("less_than" == s) ≡ false
      → ("greater_or_equal" == s) ≡ false
      → ("greater_than_or_equal" == s) ≡ false
      → ("less_or_equal" == s) ≡ false
      → ("less_than_or_equal" == s) ≡ false
      → short_name s ≡ s
  unfolding short_name
  short_name_unknown s h0 h1 h2 h3 h4 h5 h6 h7 h8 h9 =
      rw (h0, h1, h2, h3, h4, h5, h6, h7, h8, h9) refl

  apply_operator_unknown :
      (s : String) (a b : Value J.Number)
      → ("eq" == s) ≡ false
      → ("neq" == s) ≡ false
      → ("gt" == s) ≡ false
      → ("lt" == s) ≡ false
      → ("gte" == s) ≡ false
      → ("lte" == s) ≡ false
      → ("in" == s) ≡ false
      → ("contains" == s) ≡ false
      → apply_operator J s a b ≡ false
  unfolding apply_operator
  apply_operator_unknown s a b h0 h1 h2 h3 h4 h5 h6 h7 = rw (h0, h1, h2, h3, h4, h5, h6, h7) refl

  absent :
      (k s : String) (names : List String)
      → contains s names ≡ false
      → In k names
      → (k == s) ≡ false
  unfolding contains
  absent k s [] h m = elim m [ ]
  absent k s (n ∷ names) h (here e) = ground (arith, h, e)
  absent k s (n ∷ names) h (there m) = absent k s names (ground (arith, h)) m

  -- An operator name that the edges refuse evaluates to false in logic/condition, on all pairs of
  -- values.
  pub evaluate_operator-unknown :
      (s : String) (a b : Value J.Number) → parse_op s ≡ none → evaluate_operator J a s b ≡ false
  unfolding evaluate_operator parse_op
  evaluate_operator-unknown s a b h =
      let (c0, r0) = if_none _ h in
      let (c1, r1) = if_none _ r0 in
      let (c2, r2) = if_none _ r1 in
      let (c3, r3) = if_none _ r2 in
      let (c4, r4) = if_none _ r3 in
      let (c5, r5) = if_none _ r4 in
      let (c6, r6) = if_none _ r5 in
      let (c7, r7) = if_none _ r6 in
      rw
        (short_name_unknown s (absent "equals" s _ c0 (here refl))
          (absent "equal" s _ c0 (there (here refl))) (absent "not_equals" s _ c1 (here refl))
          (absent "not_equal" s _ c1 (there (here refl))) (absent "greater_than" s _ c2 (here refl))
          (absent "less_than" s _ c3 (here refl)) (absent "greater_or_equal" s _ c4 (here refl))
          (absent "greater_than_or_equal" s _ c4 (there (here refl)))
          (absent "less_or_equal" s _ c5 (here refl))
          (absent "less_than_or_equal" s _ c5 (there (here refl))))
        (apply_operator_unknown s a b (absent "eq" s _ c0 (there (there (there (here refl)))))
          (absent "neq" s _ c1 (there (there (there (here refl)))))
          (absent "gt" s _ c2 (there (there (here refl))))
          (absent "lt" s _ c3 (there (there (here refl))))
          (absent "gte" s _ c4 (there (there (there (here refl)))))
          (absent "lte" s _ c5 (there (there (there (here refl))))) (absent "in" s _ c6 (here refl))
          (absent "contains" s _ c7 (here refl)))
