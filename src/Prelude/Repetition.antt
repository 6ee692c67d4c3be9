-- ===== src/Prelude/Repetition.antt =====
-- Lists of texts without repetition, and the form in which a loop over a HashSet checks it.
use mathlib.Core.Path.{◌≡◌, refl, sym}
use mathlib.Core.Logic.{◌↔◌}
use mathlib.Core.List.{List, [], ◌∷◌, ◌++◌}
use Prim.Native.String.{String}
use openmirai.Prelude.Lists.{In, here, there}

abbrev pub Distinct : List String → Type 0
Distinct [] = Unit
Distinct (x ∷ xs) = (¬ In x xs) × Distinct xs

-- Each element is new when it is reached, after those of `seen` and those before it.
abbrev pub Fresh : List String → List String → Type 0
Fresh seen [] = Unit
Fresh seen (x ∷ xs) = (¬ In x seen) × Fresh (x ∷ seen) xs

-- An element stands twice: at a place, and before it.
abbrev pub Repeats : String → List String → Type 0
Repeats k xs =
    (before : List String) × (after : List String) × (xs ≡ before ++ k ∷ after) × In k before

In-cons_elim {ℓ} :
    {P : Type ℓ} {k x : String} {xs : List String} → (k ≡ x → P) → (In k xs → P) → In k (x ∷ xs) → P
In-cons_elim f g (here e) = f e
In-cons_elim f g (there m) = g m

pub Fresh→new : (seen xs : List String) → Fresh seen xs → {k : String} → In k seen → ¬ In k xs
Fresh→new seen [] h s m = elim m [ ]
Fresh→new seen (x ∷ xs) h s (here e) = h.0 (mathlib.Core.Path.subst (λ y. In y seen) e s)
Fresh→new seen (x ∷ xs) h s (there m) = Fresh→new (x ∷ seen) xs h.1 (there s) m

Fresh→Distinct : (seen xs : List String) → Fresh seen xs → Distinct xs
Fresh→Distinct seen [] h = tt
Fresh→Distinct seen (x ∷ xs) h =
    (Fresh→new (x ∷ seen) xs h.1 (here refl), Fresh→Distinct (x ∷ seen) xs h.1)

Distinct→Fresh :
    (seen xs : List String) → Distinct xs → ((k : String) → In k xs → ¬ In k seen) → Fresh seen xs
Distinct→Fresh seen [] h new = tt
Distinct→Fresh seen (x ∷ xs) h new = (
  new x (here refl),
  Distinct→Fresh (x ∷ seen) xs h.1 (λ k m.
      In-cons_elim (λ e. h.0 (mathlib.Core.Path.subst (λ y. In y xs) e m)) (new k (there m))),
)

pub Fresh-iff : (xs : List String) → Fresh [] xs ↔ Distinct xs
Fresh-iff xs = (Fresh→Distinct [] xs, λ h. Distinct→Fresh [] xs h (λ k m s. elim s [ ]))
