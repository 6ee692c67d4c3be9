-- ===== src/Auth/Tests.antt =====
-- An editor and an owner of one user.
use openmirai.Prelude.{◌≡◌, ◌↔◌, refl, arith, none, ok, err, In}
use openmirai.Auth.{
  AuthContext, editor, owner, db, write, permission_denied, role_permissions, can, require,
}
use openmirai.Auth.Matrix.{require_iff, require_mono}

abbrev writer : AuthContext
writer = record { user_id = "u"; role = editor; universe_id = none; environment_id = none }

writes : require writer db write ≡ ok tt
unfolding require can
writes = refl

require_iff_example :
    ((require writer db write ≡ ok tt) ↔ In write (role_permissions editor db))
    × ((require writer db write ≡ err (permission_denied editor db write))
        ↔ (¬ In write (role_permissions editor db)))
require_iff_example = require_iff writer db write

require_mono_example : require (record writer { role = owner }) db write ≡ ok tt
require_mono_example =
    require_mono writer (record writer { role = owner }) db write (omega arith) writes
