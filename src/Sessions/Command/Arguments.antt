-- ===== src/Sessions/Command/Arguments.antt =====
-- engine/src/sessions/manager.rs, is_safe_arg: the accepted arguments, by a list of characters.
use Prim.Native.Char.{code}
use mathlib.Core.Bool.{false≢true}
use openmirai.Prelude.{
  ℕ, zero, suc, ◌+◌, ◌≤◌, ◌<◌, ◌≡◌, ◌≢◌, refl, ap, ◌↔◌, inl, inr, String, Bool, true, ◌&&◌, Option,
  none, some, List, [], ◌∷◌, ◌++◌, all, All, All-In, In, here, there, In-append_left,
  In-append_right, Bool-cases, arith, leb, eqb, all_chars, is_empty_text,
}
use openmirai.Sessions.Command.{is_safe_char, is_safe_arg}

-- The code points of a text.
abbrev pub codes : String → List ℕ
codes String.[] = []
codes (String.◌∷◌ c s) = code c ∷ codes s

abbrev digits : List ℕ
digits = codes "0123456789"

abbrev capitals : List ℕ
capitals = codes "ABCDEFGHIJKLMNOPQRSTUVWXYZ"

abbrev letters : List ℕ
letters = codes "abcdefghijklmnopqrstuvwxyz"

-- The characters that no shell reads specially.
abbrev pub allowed : List ℕ
allowed = digits ++ (capitals ++ (letters ++ codes "._-"))

-- A text that is not empty, of allowed characters only.
abbrev pub IsSafeText : String → Type 0
IsSafeText s = (s ≢ "") × All (λ c. In c allowed) (codes s)

-- An argument that is not given, or is such a text.
abbrev pub IsHarmless : Option String → Type 0
IsHarmless none = Unit {0}
IsHarmless (some v) = IsSafeText v

-- The numbers from a on, n of them.
abbrev from : ℕ → ℕ → List ℕ
from a zero = []
from a (suc n) = a ∷ from (suc a) n

In-from : (n a c : ℕ) → a ≤ c → c < a + n → In c (from a n)
In-from zero a c h k = absurd (omega (arith, h, k))
In-from (suc n) a c h k = elim (Bool-cases (eqb c a)) [
  | inl e ↦ here (ground (arith, e))
  | inr e ↦ there (In-from n (suc a) c (ground (arith, e, h)) (omega (arith, k)))
]

all→All : (p : ℕ → Bool) (xs : List ℕ) → all p xs ≡ true → All (λ c. p c ≡ true) xs
all→All p [] h = tt
all→All p (x ∷ xs) h = (ground (arith, h), all→All p xs (ground (arith, h)))

In→is_safe_char : (c : ℕ) → In c allowed → is_safe_char c ≡ true
In→is_safe_char c m =
    All-In (λ k. is_safe_char k ≡ true) allowed (all→All is_safe_char allowed refl) m

digit-In : (c : ℕ) → (leb 48 c && leb c 57) ≡ true → In c digits
digit-In c h = In-from 10 48 c (ground (arith, h)) (ground (arith, h))

capital-In : (c : ℕ) → (leb 65 c && leb c 90) ≡ true → In c capitals
capital-In c h = In-from 26 65 c (ground (arith, h)) (ground (arith, h))

letter-In : (c : ℕ) → (leb 97 c && leb c 122) ≡ true → In c letters
letter-In c h = In-from 26 97 c (ground (arith, h)) (ground (arith, h))

is_safe_char→In : (c : ℕ) → is_safe_char c ≡ true → In c allowed
is_safe_char→In c h = elim (Bool-cases (leb 48 c && leb c 57)) [
  | inl e ↦ In-append_left digits _ (digit-In c e)
  | inr d ↦ In-append_right digits (elim (Bool-cases (leb 65 c && leb c 90)) [
    | inl e ↦ In-append_left capitals _ (capital-In c e)
    | inr u ↦ In-append_right capitals (elim (Bool-cases (leb 97 c && leb c 122)) [
      | inl e ↦ In-append_left letters _ (letter-In c e)
      | inr l ↦ In-append_right letters (elim (Bool-cases (eqb c 46)) [
        | inl e ↦ here (ground (arith, e))
        | inr dot ↦ elim (Bool-cases (eqb c 95)) [
          | inl e ↦ there (here (ground (arith, e)))
          | inr line ↦ there (there (here (ground (arith, h, d, u, l, dot, line))))
        ]
      ])
    ])
  ])
]

allowed_of_all_chars :
    (s : String) → all_chars is_safe_char s ≡ true → All (λ c. In c allowed) (codes s)
unfolding all_chars
allowed_of_all_chars String.[] h = tt
allowed_of_all_chars (String.◌∷◌ c s) h = elim (Bool-cases (is_safe_char (code c))) [
  | inl e ↦ (is_safe_char→In (code c) e, allowed_of_all_chars s (rw e at h))
  | inr e ↦ absurd (ground (arith, h, e))
]

all_chars_of_allowed :
    (s : String) → All (λ c. In c allowed) (codes s) → all_chars is_safe_char s ≡ true
unfolding all_chars
all_chars_of_allowed String.[] h = refl
all_chars_of_allowed (String.◌∷◌ c s) h =
    rw (In→is_safe_char (code c) h.0) (all_chars_of_allowed s h.1)

-- is_safe_arg accepts the texts that are not empty and have allowed characters only.
pub is_safe_arg_iff : (s : String) → (is_safe_arg s ≡ true) ↔ IsSafeText s
unfolding is_safe_arg
is_safe_arg_iff String.[] = ((λ h. absurd (ground (arith, h))), (λ h. absurd (h.0 refl)))
is_safe_arg_iff (String.◌∷◌ c s) = (
  (λ h. ((λ e. false≢true (ap is_empty_text e)), allowed_of_all_chars (String.◌∷◌ c s) h)),
  (λ h. all_chars_of_allowed (String.◌∷◌ c s) h.1),
)
