-- ===== src/Sessions/Registry.antt =====
-- engine/src/sessions/manager.rs: the invariant of the registry, and the small steps that keep it.
pub mod Steps
pub mod Operations
pub mod Externals
pub mod Passes
pub mod Reach
use openmirai.Prelude.{
  ℕ, zero, suc, ◌-◌, ◌≤◌, ◌≡◌, refl, sym, ap, ◌∙◌, String, Bool, true, false, Option, none, some,
  List, [], ◌∷◌, ◌++◌, arith, if◌then◌else◌, subst, Bool-cases, ◌⊎◌, inl, inr, In, here, there,
  HashMap, get, insert, remove, get-insert, get-remove, eq_iff, eq_refl, starts_with, ◌==◌, length,
  length-drop, drop, length-append, unwrap_or, Result, ok, err,
}
use openmirai.Json.{Value}
use openmirai.Events.{EventType}
use openmirai.Steps.{Flow, next, stop, pure, halt, modify, gets, ◌>>=◌, and_go}
use openmirai.Steps.Keeps.{
  Keeps, Gives, Gives-bind, Keeps-of_Gives, Keeps-weaken, Ends, EndsWith, keeps_rules, Keeps-modify,
  Keeps-pure, Keeps-halt, Keeps-bind, Keeps-if,
}
use openmirai.Sessions.Records.{
  SessionRecord, SessionError, not_found, is_bypass_mode, normalize_permission_mode,
}
use openmirai.Sessions.Backend.{Backend}
use openmirai.Sessions.Manager.{
  Manager, Op, call, call_try, unwrap, find_record, found, updated, update_record, modify_record,
  insert_record, remove_record, try_persist, persist, values, emit_session, session_env,
  known_parent, sort_by,
}
use openmirai.Sessions.Spawn.{tmux_prefix}
use openmirai.Sessions.Activity.{activity_ring_max, push_ring, push_activity}

-- An external node has no tmux session, any other has one of the engine's names.
abbrev pub HasPlace : SessionRecord → Type 0
HasPlace r =
    ((r.external ≡ true) × (r.tmux_session ≡ ""))
    ⊎ ((r.external ≡ false) × (starts_with r.tmux_session tmux_prefix ≡ true))

abbrev pub IsMode : Option String → Type 0
IsMode mode = (mode ≡ none) ⊎ (mode ≡ some "bypass")

-- The record of an id.
pub record RecordFits (id : String) (r : SessionRecord) : Type 0 where
  pub named : r.id ≡ id
  pub placed : HasPlace r
  pub moded : IsMode r.permission_mode

abbrev pub RegistryFits : HashMap SessionRecord → Type 0
RegistryFits sessions =
    (id : String) (r : SessionRecord) → get id sessions ≡ some r → RecordFits id r

abbrev pub RingsFit : {N : Type 0} → HashMap (List (HashMap (Value N))) → Type 0
RingsFit {N} rings =
    (id : String) (ring : List (HashMap (Value N)))
    → get id rings ≡ some ring
    → length ring ≤ activity_ring_max

-- No key stands twice.
abbrev pub Distinct : HashMap SessionRecord → Type 0
Distinct [] = Unit
Distinct ((id, r) ∷ sessions) = (get id sessions ≡ none) × Distinct sessions

pub record ManagerFits {N W : Type 0} (m : Manager N W) : Type 0 where
  pub registry : RegistryFits m.sessions
  pub distinct : Distinct m.sessions
  pub rings : RingsFit m.activity

pub Distinct-insert :
    (sessions : HashMap SessionRecord) (id : String) (r : SessionRecord)
    → Distinct sessions
    → Distinct (insert id r sessions)
unfolding insert get
Distinct-insert [] id r h = (refl, tt)
Distinct-insert ((j, s) ∷ sessions) id r (k, h) = elim (Bool-cases (j == id)) [
  | inl e ↦ rw e (k, h)
  | inr e ↦ rw e (
    ground (arith, get-insert id j r sessions, eq_iff id j, eq_iff j id, e, k),
    Distinct-insert sessions id r h,
  )
]

pub Distinct-remove :
    (sessions : HashMap SessionRecord) (id : String)
    → Distinct sessions
    → Distinct (remove id sessions)
unfolding remove
Distinct-remove [] id h = tt
Distinct-remove ((j, s) ∷ sessions) id (k, h) = elim (Bool-cases (j == id)) [
  | inl e ↦ rw e (Distinct-remove sessions id h)
  | inr e ↦ rw e (ground (arith, get-remove id j sessions, k), Distinct-remove sessions id h)
]

pub get-skip :
    (j n : String) (s x : SessionRecord) (sessions : HashMap SessionRecord)
    → get j sessions ≡ none
    → get n sessions ≡ some x
    → get n ((j, s) ∷ sessions) ≡ some x
unfolding get
get-skip j n s x sessions k g = elim (Bool-cases (j == n)) [
  | inl e ↦ absurd (ground (arith, k, g, (eq_iff j n).0 e))
  | inr e ↦ rw e g
]

-- The record of a registry is the one that its id finds.
pub get-values :
    (sessions : HashMap SessionRecord) (r : SessionRecord)
    → RegistryFits sessions
    → Distinct sessions
    → In r (values sessions)
    → get r.id sessions ≡ some r
unfolding get
get-values [] r fits h i = elim i [ ]
get-values ((j, s) ∷ sessions) r fits (k, h) (here e) =
    let own : s.id ≡ j = (fits j s (rw (eq_refl j))).named in rw (e) (rw (own) (rw (eq_refl j)))
get-values ((j, s) ∷ sessions) r fits (k, h) (there i) =
    get-skip j r.id s r sessions k
      (get-values sessions r (λ n x g. fits n x (get-skip j n s x sessions k g)) h i)

pub RegistryFits-insert :
    (sessions : HashMap SessionRecord) (id : String) (r : SessionRecord)
    → RegistryFits sessions
    → RecordFits id r
    → RegistryFits (insert id r sessions)
RegistryFits-insert sessions id r fits fit j s h = elim (Bool-cases (id == j)) [
  | inl e ↦
      let same : r ≡ s = cc (rw e at (sym (get-insert id j r sessions) ∙ h)) in
      subst (λ x. RecordFits x s) ((eq_iff id j).0 e) (subst (RecordFits id) same fit)
  | inr e ↦ fits j s (rw e at (sym (get-insert id j r sessions) ∙ h))
]

pub normalize-IsMode : (mode : Option String) → IsMode (normalize_permission_mode mode)
unfolding normalize_permission_mode
normalize-IsMode mode = elim (Bool-cases (is_bypass_mode mode)) [
  | inl e ↦ inr (rw e)
  | inr e ↦ inl (rw e)
]

pub length-push_ring :
    {A : Type 0} (ring : List A) (a : A) → length (push_ring ring a) ≤ activity_ring_max
unfolding push_ring
length-push_ring ring a =
    omega (arith, length-drop (length (ring ++ a ∷ []) - activity_ring_max) (ring ++ a ∷ []))

pub RingsFit-insert :
    {N : Type 0} (rings : HashMap (List (HashMap (Value N)))) (id : String)
    (ring : List (HashMap (Value N)))
    → RingsFit rings
    → length ring ≤ activity_ring_max
    → RingsFit (insert id ring rings)
RingsFit-insert rings id ring fits fit j s h = elim (Bool-cases (id == j)) [
  | inl e ↦
      let same : ring ≡ s = cc (rw e at (sym (get-insert id j ring rings) ∙ h)) in
      subst (λ x. length x ≤ activity_ring_max) same fit
  | inr e ↦ fits j s (rw e at (sym (get-insert id j ring rings) ∙ h))
]

pub RegistryFits-remove :
    (sessions : HashMap SessionRecord) (id : String)
    → RegistryFits sessions
    → RegistryFits (remove id sessions)
RegistryFits-remove sessions id fits j s h = elim (Bool-cases (id == j)) [
  | inl e ↦ absurd (ground (arith, rw e at (sym (get-remove id j sessions) ∙ h)))
  | inr e ↦ fits j s (rw e at (sym (get-remove id j sessions) ∙ h))
]

-- A change of a record that keeps a record fit, whatever its id.
abbrev pub Fitting : (SessionRecord → SessionRecord) → Type 0
Fitting f = (id : String) (r : SessionRecord) → RecordFits id r → RecordFits id (f r)

pub updated-RegistryFits :
    (id : String) (f : SessionRecord → SessionRecord) (sessions : HashMap SessionRecord)
    (o : Option SessionRecord)
    → get id sessions ≡ o
    → Fitting f
    → RegistryFits sessions
    → RegistryFits (updated id f o sessions)
updated-RegistryFits id f sessions none e k h = h
updated-RegistryFits id f sessions (some r) e k h =
    RegistryFits-insert sessions id (f r) h (k id r (h id r e))

pub get-In :
    (sessions : HashMap SessionRecord) (id : String) (r : SessionRecord)
    → get id sessions ≡ some r
    → In r (values sessions)
unfolding get
get-In [] id r h = absurd (cc h)
get-In ((j, s) ∷ sessions) id r h = elim (Bool-cases (j == id)) [
  | inl e ↦ here (cc (rw e at h))
  | inr e ↦ there (get-In sessions id r (rw e at h))
]

pub updated-Distinct :
    (id : String) (f : SessionRecord → SessionRecord) (sessions : HashMap SessionRecord)
    (o : Option SessionRecord)
    → Distinct sessions
    → Distinct (updated id f o sessions)
updated-Distinct id f sessions none h = h
updated-Distinct id f sessions (some r) h = Distinct-insert sessions id (f r) h
