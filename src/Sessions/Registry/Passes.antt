-- ===== src/Sessions/Registry/Passes.antt =====
-- engine/src/sessions/manager.rs: the passes over the registry, poll_once and initialize, keep its
-- invariant.
use openmirai.Prelude.{
  ◌≡◌, refl, sym, subst, String, Bool, true, false, Option, none, some, List, [], ◌∷◌, inl, inr,
  get, starts_with, Result, ok, err, All, arith, Bool-cases,
}
use openmirai.Steps.{pure, halt, ◌>>=◌}
use openmirai.Steps.Keeps.{Keeps-weaken, EndsWith, Gives-go, Keeps-bind, Keeps-pure}
use openmirai.Sessions.Records.{SessionRecord, SessionMeta, SessionError}
use openmirai.Sessions.Backend.{Backend}
use openmirai.Sessions.Manager.{Manager, new_manager, call, call_try, unwrap}
use openmirai.Sessions.Spawn.{tmux_prefix}
use openmirai.Sessions.Poll.{poll_one, poll_all, persist_if, poll_once}
use openmirai.Sessions.Poll.Keeps.{ReadsRegistry, with_status, poll_one-Goes}
use openmirai.Sessions.Adopt.{
  adopted_record, is_orphan, insert_adopted, adopt_as, adopt_one, adopt_all, adopt_orphans, load_as,
  load_one, load_all, loaded_of, announce_adopted, start_with, initialize,
}
use openmirai.Sessions.Registry.{
  RecordFits, RegistryFits, Distinct, RingsFit, ManagerFits, normalize-IsMode,
}
use openmirai.Sessions.Registry.Steps.{
  update_record-Goes, Sound, emit_session-Sound, insert_record-Sound, persist-Sound, sound_rules,
}
use openmirai.Sessions.Registry.Operations.{status-Fitting}

adopted_record-RecordFits :
    (meta : SessionMeta) (id tmux_name now : String)
    → starts_with tmux_name tmux_prefix ≡ true
    → RecordFits id (adopted_record meta id tmux_name now)
unfolding adopted_record
adopted_record-RecordFits meta id tmux_name now h = record {
  named = refl;
  placed = inr (refl, h);
  moded = normalize-IsMode meta.permission_mode;
}

is_orphan-starts_with :
    (known : List String) (tmux_name : String)
    → is_orphan known tmux_name ≡ true
    → starts_with tmux_name tmux_prefix ≡ true
is_orphan-starts_with known tmux_name h = ground (arith, h)

-- The invariant reads the registry and the activity only.
reads : {N W : Type 0} → ReadsRegistry (ManagerFits {N = N} {W = W})
reads m n s a h = record {
  registry = subst RegistryFits (sym s) h.registry;
  distinct = subst Distinct (sym s) h.distinct;
  rings = subst RingsFit (sym a) h.rings;
}

get-nil-some : {V : Type 0} (k : String) (v : V) → ¬ get k [] ≡ some v
unfolding get
get-nil-some k v h = cc h

module _ {N W : Type 0} (B : Backend W) where
  poll_one-Sound : (r : SessionRecord) → Sound N (poll_one B r)
  poll_one-Sound r =
      Keeps-weaken _ (λ e k. tt)
        (poll_one-Goes B ManagerFits reads r
          (λ s now. update_record-Goes B r.id (with_status s now) (status-Fitting s now)))

  poll_all-Sound : (rs : List SessionRecord) (dirty : Bool) → Sound N (poll_all B rs dirty)
  unfolding poll_all
  poll_all-Sound [] dirty = Keeps-pure dirty
  poll_all-Sound (r ∷ rs) dirty = search (sound_rules, poll_one-Sound, poll_all-Sound rs) depth 8

  persist_if-Sound : (dirty : Bool) → Sound N (persist_if B dirty)
  persist_if-Sound true = search sound_rules
  persist_if-Sound false = Keeps-pure tt

  pub poll_once-Sound : Sound N (poll_once B)
  unfolding poll_once
  poll_once-Sound = search (sound_rules, poll_all-Sound, persist_if-Sound) depth 8

  insert_adopted-Sound :
      (meta : SessionMeta) (id tmux_name now : String) (taken : Bool)
      → starts_with tmux_name tmux_prefix ≡ true
      → Sound N (insert_adopted B (adopted_record meta id tmux_name now) taken)
  unfolding adopted_record
  insert_adopted-Sound meta id tmux_name now taken h =
      search
        (sound_rules, insert_record-Sound B _ (adopted_record-RecordFits meta id tmux_name now h))

  adopt_as-Sound :
      (meta : SessionMeta) (tmux_name id : String)
      → starts_with tmux_name tmux_prefix ≡ true
      → Sound N (adopt_as B meta tmux_name id)
  adopt_as-Sound meta tmux_name id h =
      search
        (
          sound_rules,
          (λ (now : String) (taken : Bool). insert_adopted-Sound meta id tmux_name now taken h),
        )
        depth 8

  adopt_one-Sound :
      (tmux_name : String)
      → starts_with tmux_name tmux_prefix ≡ true
      → Sound N (adopt_one B tmux_name)
  unfolding adopt_one
  adopt_one-Sound tmux_name h = search (sound_rules, adopt_as-Sound) depth 8

  adopt_all-Sound : (known names : List String) → Sound N (adopt_all B known names)
  unfolding adopt_all
  adopt_all-Sound known [] = Keeps-pure []
  adopt_all-Sound known (name ∷ names) = elim (Bool-cases (is_orphan known name)) [
    | inl e ↦ rw e (
        search
          (
            sound_rules,
            adopt_one-Sound name (is_orphan-starts_with known name e),
            adopt_all-Sound known names,
          )
          depth 8)
    | inr e ↦ rw e (adopt_all-Sound known names)
  ]

  adopt_orphans-Sound : Sound N (adopt_orphans B)
  unfolding adopt_orphans
  adopt_orphans-Sound = search (sound_rules, adopt_all-Sound) depth 8

  load_as-Sound :
      (r : SessionRecord) (there : Bool) → RecordFits r.id r → Sound N (load_as B r there)
  load_as-Sound r true h = insert_record-Sound B r h
  load_as-Sound r false h =
      insert_record-Sound B _ (record { named = refl; placed = h.placed; moded = h.moded })

  load_one-Sound : (r : SessionRecord) → RecordFits r.id r → Sound N (load_one B r)
  unfolding load_one
  load_one-Sound r h = search (sound_rules, load_as-Sound, insert_record-Sound, h) depth 8

  load_all-Sound :
      (rs : List SessionRecord) → All (λ r. RecordFits r.id r) rs → Sound N (load_all B rs)
  unfolding load_all
  load_all-Sound [] h = Keeps-pure tt
  load_all-Sound (r ∷ rs) (h, hs) =
      search (sound_rules, load_one-Sound r h, load_all-Sound rs hs) depth 8

  announce_adopted-Sound : (rs : List SessionRecord) → Sound N (announce_adopted B rs)
  unfolding announce_adopted
  announce_adopted-Sound [] = Keeps-pure tt
  announce_adopted-Sound (r ∷ rs) =
      Keeps-bind _ _ (emit_session-Sound B _ _ _) (λ u. announce_adopted-Sound rs)

  unwrap-SoundWith :
      (file : Result (Option (List SessionRecord)) SessionError) (m : Manager N W)
      → ((rs : List SessionRecord) → file ≡ ok (some rs) → All (λ r. RecordFits r.id r) rs)
      → ManagerFits m
      → ManagerFits (unwrap B file m).1
        × EndsWith
            (λ _. Unit {0})
            (λ o. All (λ r. RecordFits r.id r) (loaded_of o))
            (unwrap B file m).0
  unfolding pure halt
  unwrap-SoundWith (ok none) m stored h = (h, tt)
  unwrap-SoundWith (ok (some rs)) m stored h = (h, stored rs refl)
  unwrap-SoundWith (err e) m stored h = (h, tt)

  start_with-Sound :
      (file : Option (List SessionRecord))
      → All (λ r. RecordFits r.id r) (loaded_of file)
      → Sound N (start_with B file)
  unfolding start_with
  start_with-Sound file h = Keeps-bind _ _ (load_all-Sound (loaded_of file) h) (λ u.
      Keeps-bind _ _ adopt_orphans-Sound
        (λ adopted. Keeps-bind _ _ (persist-Sound B) (λ v. announce_adopted-Sound adopted)))

  -- The state that initialize leaves a new manager in.
  pub initialize-ManagerFits :
      (w : W)
      → ((rs : List SessionRecord)
          → (B.read_registry w).0 ≡ ok (some rs)
          → All (λ r. RecordFits r.id r) rs)
      → ManagerFits (initialize {N = N} B (new_manager w)).1
  unfolding initialize call_try ◌>>=◌ call
  initialize-ManagerFits w stored =
      let m : Manager N W = record (new_manager w) { world = (B.read_registry w).1 } in
      let r = unwrap B (B.read_registry w).0 m in
      let (p, q) = unwrap-SoundWith (B.read_registry w).0 m stored (record {
        registry = λ i r h. absurd (get-nil-some i r h);
        distinct = tt;
        rings = λ i r h. absurd (get-nil-some i r h);
      }) in
      (Gives-go r.0 (start_with B) r.1 start_with-Sound p q).0
