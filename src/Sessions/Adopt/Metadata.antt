-- ===== src/Sessions/Adopt/Metadata.antt =====
-- engine/src/sessions/manager.rs, adopt_orphans: a session's metadata survives the loss of the
-- registry.
use openmirai.Prelude.{
  ◌≡◌, refl, sym, subst, ap, ◌∙◌, String, true, false, Option, some, inl, inr, get, insert,
  get-insert, eq_refl, contains_key, is_empty_text, trim, ok, unwrap_or, eq_ignore_ascii_case,
}
use openmirai.Steps.{next, pure, gets, modify, ◌>>=◌}
use openmirai.Sessions.Status.{starting}
use openmirai.Sessions.Records.{
  SessionRecord, SessionMeta, empty_meta, meta_of, normalize_permission_mode, is_bypass_mode,
}
use openmirai.Sessions.Backend.{Backend}
use openmirai.Sessions.Manager.{Manager, call, insert_record}
use openmirai.Sessions.Adopt.{adopted_record, adopt_one, meta_of_env, adopted_id, adopt_as}
use openmirai.Sessions.Registry.{IsMode}

normalize-same : (mode : Option String) → IsMode mode → normalize_permission_mode mode ≡ mode
unfolding normalize_permission_mode is_bypass_mode eq_ignore_ascii_case trim
normalize-same mode (inl e) = rw e refl
normalize-same mode (inr e) = rw e refl

-- The record that is adopted with the metadata of `r`.
adopted_record-meta_of :
    (r : SessionRecord) (now : String)
    → IsMode r.permission_mode
    → is_empty_text (trim r.name) ≡ false
    → is_empty_text (trim r.created_at) ≡ false
    → meta_of (adopted_record (meta_of r) r.id r.tmux_session now) ≡ meta_of r
unfolding adopted_record meta_of
adopted_record-meta_of r now k n c = rw n (rw c (rw (normalize-same r.permission_mode k) refl))

meta_of_env-some :
    (parse : String → Option SessionMeta) (raw : String) (meta : SessionMeta)
    → parse raw ≡ some meta
    → meta_of_env parse (ok (some raw)) ≡ meta
meta_of_env-some parse raw meta h = ap (λ o. unwrap_or o empty_meta) h

module _ {N W : Type 0} (B : Backend W) where
  -- The record that is adopted, and the state.
  adopt_one-some :
      (m : Manager N W) (r : SessionRecord)
      → is_empty_text (trim r.id) ≡ false
      → contains_key r.id m.sessions ≡ false
      → (B.get_env r.tmux_session "OPENMIRAI_SESSION_META" m.world).0
        ≡ ok (some (B.meta_text (meta_of r)))
      → B.parse_meta (B.meta_text (meta_of r)) ≡ some (meta_of r)
      → (now : String) × (v : W) × (adopt_one B r.tmux_session m ≡ (
        next (some (adopted_record (meta_of r) r.id r.tmux_session now)),
        record m {
          sessions = insert r.id (adopted_record (meta_of r) r.id r.tmux_session now) m.sessions;
          world = v;
        },
      ))
  unfolding adopt_one ◌>>=◌ call pure gets insert_record modify meta_of adopted_record
  adopt_one-some m r i u e p =
      let w = (B.get_env r.tmux_session "OPENMIRAI_SESSION_META" m.world).1 in
      let q : meta_of_env B.parse_meta (B.get_env r.tmux_session "OPENMIRAI_SESSION_META" m.world).0
          ≡ meta_of r =
        rw e (meta_of_env-some B.parse_meta _ (meta_of r) p) in
      (
        (B.now w).0,
        (B.now w).1,
        subst
            (λ meta.
              adopt_as B meta r.tmux_session (adopted_id meta r.tmux_session)
                (record m { world = w })
              ≡ (
                next (some (adopted_record (meta_of r) r.id r.tmux_session (B.now w).0)),
                record m {
                  sessions =
                      insert r.id (adopted_record (meta_of r) r.id r.tmux_session (B.now w).0)
                        m.sessions;
                  world = (B.now w).1;
                },
              ))
            (sym q) (rw i (rw i (rw u refl))),
      )

  -- If tmux still has the metadata of a record, whose id, name and time of creation are not blank
  -- and whose permission mode is none or bypass, and the registry has no record of its id,
  -- adopting its tmux session stores and returns a record with the same metadata and the same
  -- tmux session, starting and past its first prompt.
  pub adopt_one-meta_of :
      (m : Manager N W) (r : SessionRecord)
      → IsMode r.permission_mode
      → is_empty_text (trim r.id) ≡ false
      → is_empty_text (trim r.name) ≡ false
      → is_empty_text (trim r.created_at) ≡ false
      → contains_key r.id m.sessions ≡ false
      → (B.get_env r.tmux_session "OPENMIRAI_SESSION_META" m.world).0
        ≡ ok (some (B.meta_text (meta_of r)))
      → B.parse_meta (B.meta_text (meta_of r)) ≡ some (meta_of r)
      → (s : SessionRecord) × ((adopt_one B r.tmux_session m).0 ≡ next (some s))
        × (get r.id (adopt_one B r.tmux_session m).1.sessions ≡ some s)
        × (meta_of s ≡ meta_of r)
        × (s.tmux_session ≡ r.tmux_session)
        × (s.status ≡ starting)
        × (s.first_prompt_sent ≡ true)
  unfolding adopted_record
  adopt_one-meta_of m r k i n c u e p =
      let (now, v, eq) = adopt_one-some m r i u e p in
      let s = adopted_record (meta_of r) r.id r.tmux_session now in
      (
        s,
        ap (λ x. x.0) eq,
        ap (λ x. get r.id x.1.sessions) eq
            ∙ get-insert r.id r.id s m.sessions
            ∙ rw (eq_refl r.id) refl,
        adopted_record-meta_of r now k n c,
        refl,
        refl,
        refl,
      )
