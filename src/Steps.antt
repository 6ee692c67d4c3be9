-- ===== src/Steps.antt =====
-- The monad that stateful code is written in: a step takes a state, and goes on with a value or
-- stops with a result of the whole; what it wrote before it stopped stays written.
pub mod Keeps
use openmirai.Prelude.{◌≡◌, ◌⊎◌, inl, inr, refl, arith}

pub data Flow {ℓ} (R : Type 0) (A : Type ℓ) : Type ℓ where
  next : A → Flow R A
  stop : R → Flow R A

abbrev pub Step : Type 0 → Type 0 → Type 0 → Type 0
Step S R A = S → Flow R A × S

module _ {S R : Type 0} where
  unfoldable pub pure : {A : Type 0} → A → Step S R A
  pure a s = (next a, s)

  -- return from run_from
  unfoldable pub halt : {A : Type 0} → R → Step S R A
  halt r s = (stop r, s)

  unfoldable pub modify : (S → S) → Step S R (Unit {0})
  modify f s = (next tt, f s)

  unfoldable pub gets : {A : Type 0} → (S → A) → Step S R A
  gets f s = (next (f s), s)

  abbrev pub and_go : {A B : Type 0} → Flow R A → (A → Step S R B) → Step S R B
  and_go (next a) f s = f a s
  and_go (stop r) f s = (stop r, s)

  infixl 5 ◌>>=◌ ◌>>◌
  unfoldable pub ◌>>=◌ : {A B : Type 0} → Step S R A → (A → Step S R B) → Step S R B
  unfolding pure halt modify gets
  ◌>>=◌ m f s = let (r, s') = m s in and_go r f s'

  abbrev pub ◌>>◌ : {A B : Type 0} → Step S R A → Step S R B → Step S R B
  m >> n = m >>= λ _. n

module _ {S R : Type 0} {A B : Type 0} where
  and_go-next :
      (r : Flow R A) (f : A → Step S R B) (s t : S) (b : B)
      → and_go r f s ≡ (next b, t)
      → (a : A) × (r ≡ next a) × (f a s ≡ (next b, t))
  and_go-next (next a) f s t b h = (a, refl, h)
  and_go-next (stop r) f s t b h = absurd (ground (arith, h))

  -- A sequence that goes on has gone on at each step.
  pub >>=-next :
      (m : Step S R A) (f : A → Step S R B) (s t : S) (b : B)
      → (m >>= f) s ≡ (next b, t)
      → (a : A) × ((m s).0 ≡ next a) × (f a (m s).1 ≡ (next b, t))
  unfolding ◌>>=◌
  >>=-next m f s t b h = and_go-next (m s).0 f (m s).1 t b h

pub Flow-cases : {R A : Type 0} (r : Flow R A) → ((a : A) × (r ≡ next a)) ⊎ ((o : R) × (r ≡ stop o))
Flow-cases (next a) = inl (a, refl)
Flow-cases (stop o) = inr (o, refl)
