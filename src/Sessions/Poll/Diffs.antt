-- ===== src/Sessions/Poll/Diffs.antt =====
-- engine/src/sessions/manager.rs, diff_new_lines: the lines that are left out were there before, and
-- the lines that scrolled or stayed are left out.
use openmirai.Prelude.{
  ℕ, zero, suc, ◌-◌, ◌≤◌, ◌≡◌, refl, sym, ap, ◌∙◌, String, true, false, List, [], ◌∷◌, ◌++◌, arith,
  length, length-drop, take, drop, length-append, leb, eq_iff, eq_refl, ◌==◌, Bool-cases, ◌⊎◌, inl,
  inr,
}
use mathlib.Core.Bool.{false≢true}
use openmirai.Sessions.Poll.{same_lines, overlap, common_prefix, diff_new_lines, min}

same_lines-path : (xs ys : List String) → same_lines xs ys ≡ true → xs ≡ ys
same_lines-path [] [] h = refl
same_lines-path [] (y ∷ ys) h = absurd (ground (arith, h))
same_lines-path (x ∷ xs) [] h = absurd (ground (arith, h))
same_lines-path (x ∷ xs) (y ∷ ys) h = elim (Bool-cases (x == y)) [
  | inl e ↦ rw ((eq_iff x y).0 e) (ap (λ zs. y ∷ zs) (same_lines-path xs ys (rw e at h)))
  | inr e ↦ absurd (ground (arith, rw e at h))
]

same_lines_refl : (xs : List String) → same_lines xs xs ≡ true
same_lines_refl [] = refl
same_lines_refl (x ∷ xs) = rw (eq_refl x) (same_lines_refl xs)

module _ {A : Type 0} where
  pub take-drop : (n : ℕ) (xs : List A) → take n xs ++ drop n xs ≡ xs
  take-drop zero xs = refl
  take-drop (suc n) [] = refl
  take-drop (suc n) (x ∷ xs) = ap (λ ys. x ∷ ys) (take-drop n xs)

  drop-all : (xs : List A) → drop (length xs) xs ≡ []
  drop-all [] = refl
  drop-all (x ∷ xs) = drop-all xs

  drop-append : (xs ys : List A) → drop (length xs) (xs ++ ys) ≡ ys
  drop-append [] ys = refl
  drop-append (x ∷ xs) ys = drop-append xs ys

  take-append : (xs ys : List A) → take (length xs) (xs ++ ys) ≡ xs
  take-append [] ys = refl
  take-append (x ∷ xs) ys = ap (λ zs. x ∷ zs) (take-append xs ys)

minus_zero : (n : ℕ) → n - 0 ≡ n
minus_zero n = omega arith

same_lines_of : (xs ys : List String) → xs ≡ ys → same_lines xs ys ≡ true
same_lines_of xs ys e = rw e (same_lines_refl ys)

overlap-agrees :
    (n : ℕ) (p c : List String) → drop (length p - overlap n p c) p ≡ take (overlap n p c) c
unfolding overlap
overlap-agrees zero p c = rw (minus_zero (length p)) (drop-all p)
overlap-agrees (suc n) p c =
    elim (Bool-cases (same_lines (drop (length p - suc n) p) (take (suc n) c))) [
      | inl e ↦ rw e (same_lines-path _ _ e)
      | inr e ↦ rw e (overlap-agrees n p c)
    ]

-- A length that agrees is not the one that does not.
smaller :
    (n j : ℕ) (p c : List String)
    → j ≤ suc n
    → drop (length p - j) p ≡ take j c
    → same_lines (drop (length p - suc n) p) (take (suc n) c) ≡ false
    → j ≤ n
smaller n j p c h e k = elim (Bool-cases (leb j n)) [
  | inl l ↦ ground (arith, l)
  | inr l ↦
      let same : j ≡ suc n = ground (arith, l, h) in
      absurd (false≢true (sym k ∙ same_lines_of _ _ (rw same at e)))
]

overlap-finds :
    (n j : ℕ) (p c : List String) → j ≤ n → drop (length p - j) p ≡ take j c → j ≤ overlap n p c
unfolding overlap
overlap-finds zero j p c h e = omega (arith, h)
overlap-finds (suc n) j p c h e =
    elim (Bool-cases (same_lines (drop (length p - suc n) p) (take (suc n) c))) [
      | inl k ↦ rw k h
      | inr k ↦ rw k (overlap-finds n j p c (smaller n j p c h e k) e)
    ]

common_prefix-agrees : (p c : List String) → take (common_prefix p c) p ≡ take (common_prefix p c) c
unfolding common_prefix
common_prefix-agrees [] c = refl
common_prefix-agrees (x ∷ p) [] = refl
common_prefix-agrees (x ∷ p) (y ∷ c) = elim (Bool-cases (x == y)) [
  | inl e ↦ rw e (rw ((eq_iff x y).0 e) (ap (λ zs. y ∷ zs) (common_prefix-agrees p c)))
  | inr e ↦ rw e refl
]

common_prefix-finds : (s x y : List String) → length s ≤ common_prefix (s ++ x) (s ++ y)
unfolding common_prefix
common_prefix-finds [] x y = omega arith
common_prefix-finds (l ∷ s) x y = rw (eq_refl l) (omega (arith, common_prefix-finds s x y))

module _ {A : Type 0} where
  append-nil : (xs : List A) → xs ++ [] ≡ xs
  append-nil [] = refl
  append-nil (x ∷ xs) = ap (λ ys. x ∷ ys) (append-nil xs)

-- The lines are the current ones after some that are a prefix or a suffix of the previous ones.
abbrev Explained : List String → List String → List String → Type 0
Explained previous current lines =
    (kept : List String) × (current ≡ kept ++ lines)
    × (((rest : List String) × (previous ≡ kept ++ rest))
        ⊎ ((old : List String) × (previous ≡ old ++ kept)))

prefix-Explained : (n : ℕ) (p c : List String) → take n p ≡ take n c → Explained p c (drop n c)
prefix-Explained n p c e = (
  take n c,
  sym (take-drop n c),
  inl (drop n p, sym (take-drop n p) ∙ ap (λ zs. zs ++ drop n p) e),
)

suffix-Explained :
    (n : ℕ) (p c : List String) → drop (length p - n) p ≡ take n c → Explained p c (drop n c)
suffix-Explained n p c e = (
  take n c,
  sym (take-drop n c),
  inr (
    take (length p - n) p,
    sym (take-drop (length p - n) p) ∙ ap (λ zs. take (length p - n) p ++ zs) e,
  ),
)

-- The lines that diff_new_lines returns are the current ones after some first lines, which are
-- also the first or the last lines of the previous capture.
pub diff_new_lines_sound :
    (previous current : List String)
    → (kept : List String) × (current ≡ kept ++ diff_new_lines previous current)
      × (((rest : List String) × (previous ≡ kept ++ rest))
          ⊎ ((old : List String) × (previous ≡ old ++ kept)))
unfolding diff_new_lines
diff_new_lines_sound previous current =
    let n = overlap (min (length previous) (length current)) previous current in
    let k = common_prefix previous current in
    elim (Bool-cases (same_lines previous current)) [
      | inl e ↦ rw e (
        current,
        sym (append-nil current),
        inl ([], same_lines-path previous current e ∙ sym (append-nil current)),
      )
      | inr e ↦ rw e (elim (Bool-cases (leb n k)) [
        | inl l ↦ rw l (prefix-Explained k previous current (common_prefix-agrees previous current))
        | inr l ↦ rw l (suffix-Explained n previous current (overlap-agrees _ previous current))
      ])
    ]

diff_new_lines-le :
    (n : ℕ) (p c : List String)
    → (n ≤ overlap (min (length p) (length c)) p c) ⊎ (n ≤ common_prefix p c)
    → length (diff_new_lines p c) ≤ length c - n
unfolding diff_new_lines
diff_new_lines-le n p c h = elim (Bool-cases (same_lines p c)) [
  | inl e ↦ rw e (omega arith)
  | inr e ↦ rw e (
      ground (
        arith,
        h,
        length-drop (overlap (min (length p) (length c)) p c) c,
        length-drop (common_prefix p c) c,
      ))
]

-- If the current capture starts with the last lines of the previous one, at most the lines after
-- these are returned.
pub diff_new_lines-scroll :
    (scrolled shared added : List String)
    → length (diff_new_lines (scrolled ++ shared) (shared ++ added)) ≤ length added
diff_new_lines-scroll scrolled shared added =
    let scrolled_off : length (scrolled ++ shared) - length shared ≡ length scrolled =
      omega (arith, length-append scrolled shared) in
    let agree : drop (length (scrolled ++ shared) - length shared) (scrolled ++ shared)
        ≡ take (length shared) (shared ++ added) =
      rw scrolled_off (drop-append scrolled shared ∙ sym (take-append shared added)) in
    let found : length shared
        ≤ overlap (min (length (scrolled ++ shared)) (length (shared ++ added)))
            (scrolled ++ shared) (shared ++ added) =
      overlap-finds _ (length shared) (scrolled ++ shared) (shared ++ added)
        (ground (arith, length-append scrolled shared, length-append shared added)) agree in
    omega (
      arith,
      length-append shared added,
      diff_new_lines-le (length shared) (scrolled ++ shared) (shared ++ added) (inl found),
    )

-- If both captures start with the same lines, at most the lines after these are returned.
pub diff_new_lines-rewrite :
    (shared old new : List String)
    → length (diff_new_lines (shared ++ old) (shared ++ new)) ≤ length new
diff_new_lines-rewrite shared old new = omega (
  arith,
  length-append shared new,
  diff_new_lines-le (length shared) (shared ++ old) (shared ++ new)
      (inr (common_prefix-finds shared old new)),
)
