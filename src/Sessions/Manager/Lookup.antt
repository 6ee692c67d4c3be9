-- ===== src/Sessions/Manager/Lookup.antt =====
-- engine/src/sessions/manager.rs: a lookup of the registry, found or not, and a record written.
use openmirai.Prelude.{
  ◌≡◌, refl, ap, ◌∙◌, String, none, some, get, get-insert, eq_refl, Result, ok, err,
}
use openmirai.Steps.{next, stop, pure, halt, gets, ◌>>=◌, ◌>>◌, modify}
use openmirai.Sessions.Records.{SessionRecord, SessionError, not_found}
use openmirai.Sessions.Backend.{Backend}
use openmirai.Sessions.Manager.{
  Manager, find_record, update_record, modify_record, call, call_try, unwrap, try_persist, persist,
}

module _ {N W : Type 0} (B : Backend W) where
  pub find_record-some :
      (id : String) (m : Manager N W) (r : SessionRecord)
      → get id m.sessions ≡ some r
      → find_record B id m ≡ (next r, m)
  unfolding find_record ◌>>=◌ gets pure
  find_record-some id m r h = rw h refl

  pub find_record-none :
      (id : String) (m : Manager N W)
      → get id m.sessions ≡ none
      → find_record B id m ≡ (stop (not_found id), m)
  unfolding find_record ◌>>=◌ gets halt
  find_record-none id m h = rw h refl

  -- The record that a change leaves.
  pub get-update_record :
      (id : String) (f : SessionRecord → SessionRecord) (m : Manager N W) (r : SessionRecord)
      → get id m.sessions ≡ some r
      → get id (update_record B id f m).1.sessions ≡ some (f r)
  unfolding update_record modify
  get-update_record id f m r h =
      rw h (rw (get-insert id id (f r) m.sessions) (rw (eq_refl id) refl))

  pub modify_record-some :
      (id : String) (f : SessionRecord → SessionRecord) (m : Manager N W) (r : SessionRecord)
      → get id m.sessions ≡ some r
      → modify_record B id f m ≡ (next (f r), (update_record B id f m).1)
  unfolding modify_record ◌>>=◌ pure update_record modify
  modify_record-some id f m r h = rw (find_record-some id m r h) refl

  sessions-unwrap :
      {A : Type 0} (r : Result A SessionError) (m : Manager N W)
      → (unwrap B r m).1.sessions ≡ m.sessions
  unfolding pure halt
  sessions-unwrap (ok a) m = refl
  sessions-unwrap (err e) m = refl

  -- The registry's write does not change it.
  pub sessions-persist : (m : Manager N W) → (persist B m).1.sessions ≡ m.sessions
  unfolding persist try_persist ◌>>=◌ gets call
  sessions-persist m = sessions-unwrap _ _

  -- A call under `?` that fails.
  pub call_try-err :
      {A : Type 0} (f : W → Result A SessionError × W) (m : Manager N W) (e : SessionError)
      → (f m.world).0 ≡ err e
      → call_try B f m ≡ (stop e, record m { world = (f m.world).1 })
  unfolding call_try ◌>>=◌ call halt
  call_try-err f m e h = rw h refl

  pub call_try-ok :
      {A : Type 0} (f : W → Result A SessionError × W) (m : Manager N W) (a : A)
      → (f m.world).0 ≡ ok a
      → call_try B f m ≡ (next a, record m { world = (f m.world).1 })
  unfolding call_try ◌>>=◌ call pure
  call_try-ok f m a h = rw h refl

  -- The record that a change leaves, which is then written to the file.
  pub get-persist :
      (id : String) (f : SessionRecord → SessionRecord) (m : Manager N W) (r : SessionRecord)
      → get id m.sessions ≡ some r
      → get id ((update_record B id f >> persist B) m).1.sessions ≡ some (f r)
  unfolding ◌>>=◌ update_record modify
  get-persist id f m r h =
      ap (get id) (sessions-persist (update_record B id f m).1) ∙ get-update_record id f m r h
