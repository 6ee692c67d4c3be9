-- ===== src/Prelude/Lists.antt =====
-- Lists measured by native numbers, Boolean searches over them, and their laws.
use Prim.Native.Nat.{ℕ, zero, suc, ◌+◌, ◌-◌, ◌≤◌}
use mathlib.Core.Path.{◌≡◌, refl, sym, subst}
use mathlib.Core.Logic.{◌↔◌, inl, inr}
use mathlib.Core.Bool.{Bool, true, false, ◌||◌, ◌&&◌}
use mathlib.Core.Option.{Option, none, some}
use mathlib.Core.List.{List, [], ◌∷◌, ◌++◌}
use native.Mathlib.Omega.{arith}
use openmirai.Prelude.Tests.{if◌then◌else◌, Bool-cases}

module _ {ℓ} {A : Type ℓ} where
  abbrev pub length : List A → ℕ
  length [] = 0
  length (x ∷ xs) = suc (length xs)

  abbrev pub get_elem? : List A → ℕ → Option A
  get_elem? [] i = none
  get_elem? (x ∷ xs) zero = some x
  get_elem? (x ∷ xs) (suc i) = get_elem? xs i

  abbrev pub drop : ℕ → List A → List A
  drop zero xs = xs
  drop (suc n) [] = []
  drop (suc n) (x ∷ xs) = drop n xs

  abbrev pub take : ℕ → List A → List A
  take zero xs = []
  take (suc n) [] = []
  take (suc n) (x ∷ xs) = x ∷ take n xs

  abbrev pub any : (A → Bool) → List A → Bool
  any p [] = false
  any p (x ∷ xs) = p x || any p xs

  abbrev pub all : (A → Bool) → List A → Bool
  all p [] = true
  all p (x ∷ xs) = p x && all p xs

  abbrev pub head? : List A → Option A
  head? [] = none
  head? (x ∷ xs) = some x

  -- The elements that pass a Boolean test, in order.
  abbrev pub filter : (A → Bool) → List A → List A
  filter p [] = []
  filter p (x ∷ xs) = let rest = filter p xs in if p x then x ∷ rest else rest

  -- The first element that passes a Boolean test.
  abbrev pub find : (A → Bool) → List A → Option A
  find p [] = none
  find p (x ∷ xs) = let rest = find p xs in if p x then some x else rest

  pub length-append : (xs ys : List A) → length (xs ++ ys) ≡ length xs + length ys
  length-append [] ys = omega arith
  length-append (x ∷ xs) ys = omega (arith, length-append xs ys)

  pub length-drop : (n : ℕ) (xs : List A) → length (drop n xs) ≡ length xs - n
  length-drop zero xs = omega arith
  length-drop (suc n) [] = omega arith
  length-drop (suc n) (x ∷ xs) = omega (arith, length-drop n xs)

  pub length-filter : (p : A → Bool) (xs : List A) → length (filter p xs) ≤ length xs
  length-filter p [] = omega arith
  length-filter p (x ∷ xs) = ground (arith, length-filter p xs)

  -- Membership as a relation that can be matched.
  pub data In (a : A) : List A → Type ℓ where
    here : {x : A} {xs : List A} → a ≡ x → In a (x ∷ xs)
    there : {x : A} {xs : List A} → In a xs → In a (x ∷ xs)

module _ {ℓ κ} {A : Type ℓ} (P : A → Type κ) where
  abbrev pub All : List A → Type κ
  All [] = Unit
  All (x ∷ xs) = P x × All xs

  pub All-append : (xs ys : List A) → All xs → All ys → All (xs ++ ys)
  All-append [] ys h k = k
  All-append (x ∷ xs) ys h k = (h.0, All-append xs ys h.1 k)

  pub All-In : (xs : List A) {a : A} → All xs → In a xs → P a
  All-In [] h m = elim m [ ]
  All-In (x ∷ xs) h (here e) = subst P (sym e) h.0
  All-In (x ∷ xs) h (there m) = All-In xs h.1 m

module _ {ℓ} {A : Type ℓ} where
  pub In-get_elem? : (xs : List A) (i : ℕ) {a : A} → get_elem? xs i ≡ some a → In a xs
  In-get_elem? [] i h = absurd (ground arith)
  In-get_elem? (x ∷ xs) zero h = here (ground arith)
  In-get_elem? (x ∷ xs) (suc i) h = there (In-get_elem? xs i h)

  In-filter_cons :
      (p : A → Bool) (x : A) (xs : List A) {a : A}
      → p x ≡ true
      → (In a (filter p xs) → In a xs × (p a ≡ true))
      → In a (x ∷ filter p xs)
      → In a (x ∷ xs) × (p a ≡ true)
  In-filter_cons p x xs e rest (here same) = (here same, rw same e)
  In-filter_cons p x xs e rest (there m) = (there (rest m).0, (rest m).1)

  pub filter-In : (p : A → Bool) (xs : List A) {a : A} → In a xs → p a ≡ true → In a (filter p xs)
  filter-In p [] m e = elim m [ ]
  filter-In p (x ∷ xs) (here same) e =
      let passes : p x ≡ true = rw same at e in rw passes (here same)
  filter-In p (x ∷ xs) (there m) e = elim (Bool-cases (p x)) [
    | inl t ↦ rw t (there (filter-In p xs m e))
    | inr f ↦ rw f (filter-In p xs m e)
  ]

  pub In-find : (p : A → Bool) (xs : List A) {a : A} → find p xs ≡ some a → In a xs × (p a ≡ true)
  In-find p [] h = absurd (ground arith)
  In-find p (x ∷ xs) h = elim (Bool-cases (p x)) [
    | inl e ↦ (here (ground arith), ground arith)
    | inr e ↦ let found = In-find p xs (ground arith) in (there found.0, found.1)
  ]

  pub In-append_left : {a : A} (xs ys : List A) → In a xs → In a (xs ++ ys)
  In-append_left [] ys m = elim m [ ]
  In-append_left (x ∷ xs) ys (here e) = here e
  In-append_left (x ∷ xs) ys (there m) = there (In-append_left xs ys m)

  pub In-append_right : {a : A} (xs : List A) {ys : List A} → In a ys → In a (xs ++ ys)
  In-append_right [] m = m
  In-append_right (x ∷ xs) m = there (In-append_right xs m)

  pub In-filter : (p : A → Bool) (xs : List A) {a : A} → In a (filter p xs) → In a xs × (p a ≡ true)
  In-filter p [] m = elim m [ ]
  In-filter p (x ∷ xs) m = elim (Bool-cases (p x)) [
    | inl e ↦ In-filter_cons p x xs e (In-filter p xs) (rw e at m)
    | inr e ↦ let kept = In-filter p xs (rw e at m) in (there kept.0, kept.1)
  ]

  any→In : (p : A → Bool) (xs : List A) → any p xs ≡ true → (a : A) × In a xs × (p a ≡ true)
  any→In p [] h = absurd (ground (arith, h))
  any→In p (x ∷ xs) h = elim (Bool-cases (p x)) [
    | inl e ↦ (x, here refl, e)
    | inr e ↦ let (a, m, t) = any→In p xs (rw e at h) in (a, there m, t)
  ]

  In→any : (p : A → Bool) (xs : List A) {a : A} → In a xs → p a ≡ true → any p xs ≡ true
  In→any p [] m e = elim m [ ]
  In→any p (x ∷ xs) (here same) e = let passes : p x ≡ true = rw same at e in rw passes refl
  In→any p (x ∷ xs) (there m) e = ground (arith, In→any p xs m e)

  pub any_iff :
      (p : A → Bool) (xs : List A) → (any p xs ≡ true) ↔ ((a : A) × In a xs × (p a ≡ true))
  any_iff p xs = (any→In p xs, (λ (a, m, e). In→any p xs m e))
