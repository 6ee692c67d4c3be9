-- ===== src/Steps/Keeps.antt =====
-- Invariants of steps: `P` holds of the state whatever happens, and `Q` of the outcome of a stop.
-- One rule for each way to build a step.
use openmirai.Prelude.{Bool, true, false, if◌then◌else◌}
use openmirai.Steps.{Flow, next, stop, Step, pure, halt, modify, gets, ◌>>=◌, and_go}

abbrev pub Ends : {R A : Type 0} → (R → Type 0) → Flow R A → Type 0
Ends Q (next a) = Unit
Ends Q (stop r) = Q r

pub record Keeps {S R A : Type 0} (P : S → Type 0) (Q : R → Type 0) (m : Step S R A) : Type 0 where
  pub at : (s : S) → P s → P (m s).1 × Ends Q (m s).0

module _ {S R A : Type 0} {P : S → Type 0} {Q : R → Type 0} where
  pub Keeps-pure : (a : A) → Keeps P Q (pure a)
  unfolding pure
  Keeps-pure a = record { at = λ s h. (h, tt) }

  pub Keeps-gets : (f : S → A) → Keeps P Q (gets f)
  unfolding gets
  Keeps-gets f = record { at = λ s h. (h, tt) }

  pub Keeps-halt : (r : R) → Q r → Keeps P Q (halt {A = A} r)
  unfolding halt
  Keeps-halt r q = record { at = λ s h. (h, q) }

  pub Keeps-if :
      (b : Bool) (m n : Step S R A) → Keeps P Q m → Keeps P Q n → Keeps P Q (if b then m else n)
  Keeps-if true m n km kn = km
  Keeps-if false m n km kn = kn

module _ {S R : Type 0} {P : S → Type 0} {Q : R → Type 0} where
  pub Keeps-modify : (f : S → S) → ((s : S) → P s → P (f s)) → Keeps P Q (modify f)
  unfolding modify
  Keeps-modify f k = record { at = λ s h. (k s h, tt) }

module _ {S R A B : Type 0} {P : S → Type 0} {Q : R → Type 0} where
  Keeps-go :
      (r : Flow R A) (f : A → Step S R B) (s : S)
      → ((a : A) → Keeps P Q (f a))
      → P s
      → Ends Q r
      → P (and_go r f s).1 × Ends Q (and_go r f s).0
  Keeps-go (next a) f s k h q = (k a).at s h
  Keeps-go (stop r) f s k h q = (h, q)

  pub Keeps-bind :
      (m : Step S R A) (f : A → Step S R B)
      → Keeps P Q m
      → ((a : A) → Keeps P Q (f a))
      → Keeps P Q (m >>= f)
  unfolding ◌>>=◌
  Keeps-bind m f km k = record {
    at = λ s h. let (p, q) = km.at s h in Keeps-go (m s).0 f (m s).1 k p q;
  }

pub ruleset keeps_rules = (Keeps-pure, Keeps-gets, Keeps-if, Keeps-bind)

-- The same, with a postcondition `T` on what a step that goes on returns.
abbrev pub EndsWith : {R A : Type 0} → (R → Type 0) → (A → Type 0) → Flow R A → Type 0
EndsWith Q T (next a) = T a
EndsWith Q T (stop r) = Q r

pub record Gives {S R A : Type 0} (P : S → Type 0) (Q : R → Type 0) (T : A → Type 0)
    (m : Step S R A) : Type 0 where
  pub at : (s : S) → P s → P (m s).1 × EndsWith Q T (m s).0

Ends-of_EndsWith :
    {R A : Type 0} (Q : R → Type 0) (T : A → Type 0) (r : Flow R A) → EndsWith Q T r → Ends Q r
Ends-of_EndsWith Q T (next a) t = tt
Ends-of_EndsWith Q T (stop r) q = q

Ends-weaken :
    {R A : Type 0} {Q Q' : R → Type 0} (r : Flow R A)
    → ((e : R) → Q e → Q' e)
    → Ends Q r
    → Ends Q' r
Ends-weaken (next a) w q = tt
Ends-weaken (stop e) w q = w e q

module _ {S R A : Type 0} {P : S → Type 0} where
  pub Keeps-weaken :
      {Q Q' : R → Type 0} (m : Step S R A) → ((e : R) → Q e → Q' e) → Keeps P Q m → Keeps P Q' m
  Keeps-weaken m w k = record { at = λ s h. let (p, q) = k.at s h in (p, Ends-weaken (m s).0 w q) }

module _ {S R A : Type 0} {P : S → Type 0} {Q : R → Type 0} {T : A → Type 0} where
  -- The postcondition forgotten.
  pub Keeps-of_Gives : (m : Step S R A) → Gives P Q T m → Keeps P Q m
  Keeps-of_Gives m gm = record {
    at = λ s h. let (p, q) = gm.at s h in (p, Ends-of_EndsWith Q T (m s).0 q);
  }

EndsWith-of_Ends :
    {R A : Type 0} (Q : R → Type 0) (r : Flow R A) → Ends Q r → EndsWith Q (λ (a : A). Unit {0}) r
EndsWith-of_Ends Q (next a) q = tt
EndsWith-of_Ends Q (stop r) q = q

module _ {S R A : Type 0} {P : S → Type 0} {Q : R → Type 0} where
  -- Without a postcondition.
  pub Gives-of_Keeps : (m : Step S R A) → Keeps P Q m → Gives P Q (λ (a : A). Unit {0}) m
  Gives-of_Keeps m k = record {
    at = λ s h. let (p, q) = k.at s h in (p, EndsWith-of_Ends Q (m s).0 q);
  }

module _ {S R A B : Type 0} {P : S → Type 0} {Q : R → Type 0} {T : A → Type 0} where
  pub Gives-go :
      (r : Flow R A) (f : A → Step S R B) (s : S)
      → ((a : A) → T a → Keeps P Q (f a))
      → P s
      → EndsWith Q T r
      → P (and_go r f s).1 × Ends Q (and_go r f s).0
  Gives-go (next a) f s k h t = (k a t).at s h
  Gives-go (stop r) f s k h q = (h, q)

  pub Gives-bind :
      (m : Step S R A) (f : A → Step S R B)
      → Gives P Q T m
      → ((a : A) → T a → Keeps P Q (f a))
      → Keeps P Q (m >>= f)
  unfolding ◌>>=◌
  Gives-bind m f gm k = record {
    at = λ s h. let (p, q) = gm.at s h in Gives-go (m s).0 f (m s).1 k p q;
  }

module _ {S R A B : Type 0} {P : S → Type 0} {Q : R → Type 0} {T : B → Type 0} where
  Keeps-then-go :
      (r : Flow R A) (f : A → Step S R B) (s : S)
      → ((a : A) → Gives P Q T (f a))
      → P s
      → Ends Q r
      → P (and_go r f s).1 × EndsWith Q T (and_go r f s).0
  Keeps-then-go (next a) f s k h q = (k a).at s h
  Keeps-then-go (stop r) f s k h q = (h, q)

  -- A sequence returns what its last step returns.
  pub Keeps-then :
      (m : Step S R A) (f : A → Step S R B)
      → Keeps P Q m
      → ((a : A) → Gives P Q T (f a))
      → Gives P Q T (m >>= f)
  unfolding ◌>>=◌
  Keeps-then m f km k = record {
    at = λ s h. let (p, q) = km.at s h in Keeps-then-go (m s).0 f (m s).1 k p q;
  }
