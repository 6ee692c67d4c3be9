-- ===== src/Prelude/Maps.antt =====
-- HashMap<String, V> as an association list. `insert` keeps a key's place, so that no key stands
-- twice in a map that operations have built; the program reads no order out of it.
use Prim.Native.String.{String}
use mathlib.Core.Path.{◌≡◌, refl, sym, ◌∙◌}
use mathlib.Core.Bool.{Bool, true, false, ◌||◌, false≢true}
use mathlib.Core.Logic.{◌↔◌, inl, inr}
use mathlib.Core.Option.{Option, none, some}
use mathlib.Core.List.{List, [], ◌∷◌}
use native.Mathlib.Omega.{arith}
use openmirai.Prelude.Tests.{if◌then◌else◌, is_some, Bool-cases}
use openmirai.Prelude.Lists.{In, here, there}
use openmirai.Prelude.Texts.{◌==◌, eq_iff}

abbrev pub HashMap {ℓ} : Type ℓ → Type ℓ
HashMap V = List (String × V)

module _ {ℓ} {V : Type ℓ} where
  -- m.get(k)
  unfoldable pub get : String → HashMap V → Option V
  get k [] = none
  get k ((j, v) ∷ m) = if j == k then some v else get k m

  -- m.insert(k, v)
  unfoldable pub insert : String → V → HashMap V → HashMap V
  insert k v [] = (k, v) ∷ []
  insert k v ((j, w) ∷ m) = if j == k then (j, v) ∷ m else (j, w) ∷ insert k v m

  -- m.contains_key(k)
  unfoldable pub contains_key : String → HashMap V → Bool
  unfolding get
  contains_key k m = is_some (get k m)

  -- m.remove(k)
  unfoldable pub remove : String → HashMap V → HashMap V
  remove k [] = []
  remove k ((j, v) ∷ m) = let rest = remove k m in if j == k then rest else (j, v) ∷ rest

  -- m.entry(k).or_insert(v)
  unfoldable pub or_insert : String → V → HashMap V → HashMap V
  unfolding contains_key insert
  or_insert k v m = if contains_key k m then m else insert k v m

  pub get-nil : (k : String) → get k [] ≡ none
  unfolding get
  get-nil k = refl

  pub get-insert :
      (k j : String) (v : V) (m : HashMap V)
      → get j (insert k v m) ≡ (if k == j then some v else get j m)
  unfolding get insert
  get-insert k j v [] = refl
  get-insert k j v ((i, w) ∷ m) =
      ground (arith, eq_iff k j, eq_iff i k, eq_iff i j, get-insert k j v m)

  pub get-remove :
      (k j : String) (m : HashMap V) → get j (remove k m) ≡ (if k == j then none else get j m)
  unfolding get remove
  get-remove k j [] = ground arith
  get-remove k j ((i, w) ∷ m) = ground (arith, get-remove k j m, eq_iff i k, eq_iff i j, eq_iff k j)

  pub get-or_insert :
      (k j : String) (v : V) (m : HashMap V)
      → get j (or_insert k v m)
        ≡ (if k == j then (if contains_key k m then get j m else some v) else get j m)
  unfolding or_insert
  get-or_insert k j v m = ground (arith, get-insert k j v m)

-- A set of texts, as HashSet<&str>: membership is all that the program asks.
unfoldable pub contains : String → List String → Bool
contains k [] = false
contains k (j ∷ s) = j == k || contains k s

pub ruleset map_laws = (get-nil, get-insert, get-remove, get-or_insert)

contains→In : (k : String) (s : List String) → contains k s ≡ true → In k s
unfolding contains
contains→In k [] h = absurd (false≢true h)
contains→In k (j ∷ s) h = elim (Bool-cases (j == k)) [
  | inl e ↦ here (sym ((eq_iff j k).0 e))
  | inr e ↦ there (contains→In k s (rw e at h))
]

In→contains : (k : String) (s : List String) → In k s → contains k s ≡ true
unfolding contains
In→contains k [] m = elim m [ ]
In→contains k (j ∷ s) (here e) = rw ((eq_iff j k).1 (sym e))
In→contains k (j ∷ s) (there m) = ground (arith, In→contains k s m)

-- Membership as a statement.
pub contains_iff : (k : String) (s : List String) → (contains k s ≡ true) ↔ In k s
contains_iff k s = (contains→In k s, In→contains k s)

pub not-In_of_contains : (k : String) (s : List String) → contains k s ≡ false → ¬ In k s
not-In_of_contains k s e m = false≢true (sym e ∙ In→contains k s m)

pub contains_of_not-In : (k : String) (s : List String) → ¬ In k s → contains k s ≡ false
contains_of_not-In k s h = elim (Bool-cases (contains k s)) [
  | inl e ↦ absurd (h (contains→In k s e))
  | inr e ↦ e
]

abbrev pub keys {ℓ} : {V : Type ℓ} → HashMap V → List String
keys [] = []
keys ((k, v) ∷ m) = k ∷ keys m

pub get_of_not-In {ℓ} :
    {V : Type ℓ} (k : String) (m : HashMap V) → (¬ In k (keys m)) → get k m ≡ none
unfolding get
get_of_not-In k [] h = refl
get_of_not-In k ((j, v) ∷ m) h = elim (Bool-cases (j == k)) [
  | inl e ↦ absurd (h (here (sym ((eq_iff j k).0 e))))
  | inr e ↦ rw e (get_of_not-In k m (λ i. h (there i)))
]
