-- ===== src/Auth.antt =====
-- engine/src/core/auth.rs, with Role and AuthContext of engine/src/core/context.rs: what each role
-- may do with each resource.
pub mod Matrix
mod Tests
use openmirai.Prelude.{
  ℕ, String, Bool, Option, none, List, [], ◌∷◌, if◌then◌else◌, eqb, any, unwrap_or, Result, ok, err,
}

pub data Permission : Type 0 where
  read write edit execute view use_it crud config schema deploy : Permission

pub data Resource : Type 0 where
  db vector storage llm agents : Resource

pub data Role : Type 0 where
  owner admin editor viewer : Role

pub record AuthContext : Type 0 where
  pub user_id : String
  pub role : Role
  pub universe_id : Option String
  pub environment_id : Option String

pub data AuthError : Type 0 where
  permission_denied : Role → Resource → Permission → AuthError

-- PartialEq of Permission, on the variants' numbers.
abbrev pub discriminant : Permission → ℕ
discriminant read = 0
discriminant write = 1
discriminant edit = 2
discriminant execute = 3
discriminant view = 4
discriminant use_it = 5
discriminant crud = 6
discriminant config = 7
discriminant schema = 8
discriminant deploy = 9

-- ROLE_PERMISSIONS, one function for each role.
abbrev owner_permissions : Resource → List Permission
owner_permissions db = read ∷ write ∷ crud ∷ schema ∷ []
owner_permissions vector = read ∷ write ∷ crud ∷ schema ∷ []
owner_permissions storage = read ∷ write ∷ crud ∷ schema ∷ []
owner_permissions llm = use_it ∷ config ∷ []
owner_permissions agents = view ∷ edit ∷ execute ∷ crud ∷ deploy ∷ []

abbrev admin_permissions : Resource → List Permission
admin_permissions db = read ∷ write ∷ crud ∷ []
admin_permissions vector = read ∷ write ∷ crud ∷ []
admin_permissions storage = read ∷ write ∷ crud ∷ []
admin_permissions llm = use_it ∷ config ∷ []
admin_permissions agents = view ∷ edit ∷ execute ∷ crud ∷ deploy ∷ []

abbrev editor_permissions : Resource → List Permission
editor_permissions db = read ∷ write ∷ []
editor_permissions vector = read ∷ write ∷ []
editor_permissions storage = read ∷ write ∷ []
editor_permissions llm = use_it ∷ []
editor_permissions agents = view ∷ edit ∷ execute ∷ []

abbrev viewer_permissions : Resource → List Permission
viewer_permissions db = read ∷ []
viewer_permissions vector = read ∷ []
viewer_permissions storage = read ∷ []
viewer_permissions llm = []
viewer_permissions agents = view ∷ []

unfoldable pub role_permissions : Role → Resource → List Permission
role_permissions owner r = owner_permissions r
role_permissions admin r = admin_permissions r
role_permissions editor r = editor_permissions r
role_permissions viewer r = viewer_permissions r

-- PermissionEvaluator::can
unfoldable pub can : AuthContext → Resource → Permission → Bool
unfolding role_permissions
can auth r p = any (λ q. eqb (discriminant q) (discriminant p)) (role_permissions auth.role r)

-- PermissionEvaluator::require
unfoldable pub require : AuthContext → Resource → Permission → Result (Unit {0}) AuthError
require auth r p = if can auth r p then ok tt else err (permission_denied auth.role r p)

-- SingleUserAuth::context
unfoldable pub single_user : Option String → AuthContext
single_user user_id = record {
  user_id = unwrap_or user_id "single-user";
  role = owner;
  universe_id = none;
  environment_id = none;
}
