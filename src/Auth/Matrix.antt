-- ===== src/Auth/Matrix.antt =====
-- engine/src/core/auth.rs: the order of the roles and the matrix.
use openmirai.Prelude.{
  zero, suc, ◌≡◌, ◌↔◌, ◌≤◌, refl, sym, ap, ◌∙◌, true, arith, Bool-cases, inl, inr, ok, err, ℕ, eqb,
  any, List, [], ◌∷◌, ◌++◌, In, here, there, In-append_left,
}
use openmirai.Auth.{
  Permission, read, write, edit, execute, view, use_it, crud, config, schema, deploy, Resource, db,
  vector, storage, llm, agents, Role, owner, admin, editor, viewer, AuthContext, permission_denied,
  role_permissions, can, require, discriminant,
}

-- How much a role may do, from the viewer up.
abbrev pub rank : Role → ℕ
rank viewer = 0
rank editor = 1
rank admin = 2
rank owner = 3

-- The permission of a number.
abbrev permission_at : ℕ → Permission
permission_at zero = read
permission_at (suc zero) = write
permission_at (suc (suc zero)) = edit
permission_at (suc (suc (suc zero))) = execute
permission_at (suc (suc (suc (suc zero)))) = view
permission_at (suc (suc (suc (suc (suc zero))))) = use_it
permission_at (suc (suc (suc (suc (suc (suc zero)))))) = crud
permission_at (suc (suc (suc (suc (suc (suc (suc zero))))))) = config
permission_at (suc (suc (suc (suc (suc (suc (suc (suc zero)))))))) = schema
permission_at _ = deploy

permission_at-discriminant : (p : Permission) → permission_at (discriminant p) ≡ p
permission_at-discriminant read = refl
permission_at-discriminant write = refl
permission_at-discriminant edit = refl
permission_at-discriminant execute = refl
permission_at-discriminant view = refl
permission_at-discriminant use_it = refl
permission_at-discriminant crud = refl
permission_at-discriminant config = refl
permission_at-discriminant schema = refl
permission_at-discriminant deploy = refl

discriminant_injective : (p q : Permission) → discriminant p ≡ discriminant q → p ≡ q
discriminant_injective p q h =
    sym (permission_at-discriminant p) ∙ ap permission_at h ∙ permission_at-discriminant q

listed_iff :
    (p : Permission) (ps : List Permission)
    → (any (λ q. eqb (discriminant q) (discriminant p)) ps ≡ true) ↔ In p ps
listed_iff p [] = (λ h. absurd (ground arith), λ m. elim m [ ])
listed_iff p (q ∷ ps) = (
  λ h. elim (Bool-cases (eqb (discriminant q) (discriminant p))) [
    | inl e ↦ here (sym (discriminant_injective q p (ground arith)))
    | inr e ↦ there ((listed_iff p ps).0 (ground arith))
  ],
  reach (listed_iff p ps).1,
)
  where
    reach :
        (In p ps → any (λ q. eqb (discriminant q) (discriminant p)) ps ≡ true)
        → In p (q ∷ ps)
        → any (λ q. eqb (discriminant q) (discriminant p)) (q ∷ ps) ≡ true
    reach later (here e) = ground (arith, ap discriminant e)
    reach later (there m) = ground (arith, later m)

-- require succeeds exactly if the matrix lists the permission on the resource for the role, and
-- otherwise returns the denial with the role, the resource and the permission.
pub require_iff :
    (auth : AuthContext) (r : Resource) (p : Permission)
    → ((require auth r p ≡ ok tt) ↔ In p (role_permissions auth.role r))
      × ((require auth r p ≡ err (permission_denied auth.role r p))
          ↔ (¬ In p (role_permissions auth.role r)))
unfolding require can
require_iff auth r p =
    let (only, every) = listed_iff p (role_permissions auth.role r) in
    elim (Bool-cases
      (any (λ q. eqb (discriminant q) (discriminant p)) (role_permissions auth.role r))) [
        | inl e ↦ (
          (λ h. only e, λ m. ground arith),
          (λ h. absurd (ground arith), λ n. absurd (n (only e))),
        )
        | inr e ↦ (
          (λ h. only (ground arith), λ m. ground (arith, every m)),
          (λ h m. ground (arith, every m), λ n. ground arith),
        )
      ]

-- Every role's list begins with the list of the role below it.
abbrev above : Role → Resource → List Permission
above viewer db = write ∷ []
above viewer vector = write ∷ []
above viewer storage = write ∷ []
above viewer llm = use_it ∷ []
above viewer agents = edit ∷ execute ∷ []
above editor db = crud ∷ []
above editor vector = crud ∷ []
above editor storage = crud ∷ []
above editor llm = config ∷ []
above editor agents = crud ∷ deploy ∷ []
above admin db = schema ∷ []
above admin vector = schema ∷ []
above admin storage = schema ∷ []
above _ _ = []

abbrev next_role : Role → Role
next_role viewer = editor
next_role editor = admin
next_role _ = owner

role_permissions-next :
    (role : Role) (r : Resource)
    → role_permissions (next_role role) r ≡ role_permissions role r ++ above role r
unfolding role_permissions
role_permissions-next owner db = refl
role_permissions-next owner vector = refl
role_permissions-next owner storage = refl
role_permissions-next owner llm = refl
role_permissions-next owner agents = refl
role_permissions-next admin db = refl
role_permissions-next admin vector = refl
role_permissions-next admin storage = refl
role_permissions-next admin llm = refl
role_permissions-next admin agents = refl
role_permissions-next editor db = refl
role_permissions-next editor vector = refl
role_permissions-next editor storage = refl
role_permissions-next editor llm = refl
role_permissions-next editor agents = refl
role_permissions-next viewer db = refl
role_permissions-next viewer vector = refl
role_permissions-next viewer storage = refl
role_permissions-next viewer llm = refl
role_permissions-next viewer agents = refl

In-next :
    (role : Role) (r : Resource) (p : Permission)
    → In p (role_permissions role r)
    → In p (role_permissions (next_role role) r)
In-next role r p m =
    rw (role_permissions-next role r) (In-append_left (role_permissions role r) (above role r) m)

-- What require grants to a role it grants to every role that ranks as high (viewer, editor,
-- admin, owner), on every resource.
pub require_mono :
    (lower higher : AuthContext) (r : Resource) (p : Permission)
    → rank lower.role ≤ rank higher.role
    → require lower r p ≡ ok tt
    → require higher r p ≡ ok tt
require_mono lower higher r p h granted =
    (require_iff higher r p).0.1
      (climb lower.role higher.role h ((require_iff lower r p).0.0 granted))
  where
    climb :
        (x y : Role) → rank x ≤ rank y → In p (role_permissions x r) → In p (role_permissions y r)
    climb viewer viewer h m = m
    climb viewer editor h m = In-next viewer r p m
    climb viewer admin h m = In-next editor r p (In-next viewer r p m)
    climb viewer owner h m = In-next admin r p (In-next editor r p (In-next viewer r p m))
    climb editor viewer h m = absurd (omega (arith, h))
    climb editor editor h m = m
    climb editor admin h m = In-next editor r p m
    climb editor owner h m = In-next admin r p (In-next editor r p m)
    climb admin viewer h m = absurd (omega (arith, h))
    climb admin editor h m = absurd (omega (arith, h))
    climb admin admin h m = m
    climb admin owner h m = In-next admin r p m
    climb owner viewer h m = absurd (omega (arith, h))
    climb owner editor h m = absurd (omega (arith, h))
    climb owner admin h m = absurd (omega (arith, h))
    climb owner owner h m = m
