-- ===== src/Json.antt =====
-- serde_json's `Value`, as every component passes it on (engine/src/core/, engine/src/tools/).
-- `Value` has serde_json's constructors. A number is of a type that the caller gives, and what
-- serde_json computes with it (equality, printing, conversions), like the arithmetic of `f64`, is
-- a record of operations: the code only calls them.
use openmirai.Prelude.{
  ℕ, String, Bool, Option, none, some, List, [], ◌∷◌, HashMap, ◌==◌, if◌then◌else◌,
}

mutual
  pub data Value (N : Type 0) : Type 0 where
    null : Value N
    bool : Bool → Value N
    number : N → Value N
    string : String → Value N
    array : Items N → Value N
    object : Fields N → Value N

  pub data Items (N : Type 0) : Type 0 where
    nil : Items N
    cons : Value N → Items N → Items N

  pub data Fields (N : Type 0) : Type 0 where
    end : Fields N
    field : String → Value N → Fields N → Fields N

module _ {N : Type 0} where
  abbrev pub items : Items N → List (Value N)
  items nil = []
  items (cons v vs) = v ∷ items vs

  abbrev pub of_list : List (Value N) → Items N
  of_list [] = nil
  of_list (v ∷ vs) = cons v (of_list vs)

  abbrev pub of_map : HashMap (Value N) → Fields N
  of_map [] = end
  of_map ((k, v) ∷ m) = field k v (of_map m)

  abbrev pub as_str : Value N → Option String
  as_str (string s) = some s
  as_str _ = none

  abbrev pub as_array : Value N → Option (List (Value N))
  as_array (array vs) = some (items vs)
  as_array _ = none

  abbrev pub as_bool : Value N → Option Bool
  as_bool (bool b) = some b
  as_bool _ = none

  abbrev pub field_of : String → Fields N → Option (Value N)
  field_of k end = none
  field_of k (field j v fs) = if j == k then some v else field_of k fs

  -- value.get(key): a field of an object, and nothing of any other value.
  abbrev pub member : String → Value N → Option (Value N)
  member k (object fs) = field_of k fs
  member k _ = none

-- What the code calls of serde_json and of the floating-point type.
pub record Json : Type 1 where
  pub Number : Type 0
  pub F64 : Type 0
  -- PartialEq of serde_json::Value
  pub value_eq : Value Number → Value Number → Bool
  -- Display of serde_json::Value
  pub to_string : Value Number → String
  pub as_f64 : Number → Option F64
  pub as_u64 : Number → Option ℕ
  -- as_i64 and as_u64, each converted by `as f64`
  pub i64_as_f64 : Number → Option F64
  pub u64_as_f64 : Number → Option F64
  pub is_i64 : Number → Bool
  pub is_u64 : Number → Bool
  pub from_u64 : ℕ → Number
  -- json!(-1)
  pub minus_one : Number
  -- a < b and a <= b on f64
  pub lt : F64 → F64 → Bool
  pub le : F64 → F64 → Bool
  pub mul : F64 → F64 → F64
  -- f64::from(u32), and 2.0_f64.powi(n)
  pub from_u32 : ℕ → F64
  pub two_powi : ℕ → F64
  pub zero_f64 : F64
  -- Duration::from_secs_f64: `none` where it panics
  pub duration : F64 → Option ℕ
