-- ===== src/Sessions/Poll/Deaths.antt =====
-- engine/src/sessions/manager.rs, poll_once: a session whose tmux session is gone is stopped.
use openmirai.Prelude.{
  ◌≡◌, refl, sym, ◌∙◌, subst, String, Bool, true, false, some, List, [], ◌∷◌, inl, inr, In, here,
  there, filter, get, eq_iff, ◌==◌, Bool-cases, filter-In,
}
use mathlib.Core.Bool.{false≢true}
use openmirai.Steps.{pure, gets, modify, ◌>>=◌}
use openmirai.Sessions.Status.{stopped}
use openmirai.Sessions.Records.{SessionRecord}
use openmirai.Sessions.Backend.{Backend}
use openmirai.Sessions.Manager.{Manager, call, update_record, values, emit_session}
use openmirai.Sessions.Manager.Lookup.{get-update_record}
use openmirai.Sessions.Poll.{is_polled, poll_one, poll_all, poll_once, poll_dead}
use openmirai.Sessions.Poll.Keeps.{with_status, Goes, poll_one-Goes, persist_if-Goes}
use openmirai.Sessions.Registry.{ManagerFits, get-In}
use openmirai.Sessions.Poll.Turns.{and_go-then, polled-same, other-Goes, poll_all-Goes}

-- The registry has a record of the id.
abbrev Known : {N W : Type 0} → String → Manager N W → Type 0
Known id m = (r : SessionRecord) × (get id m.sessions ≡ some r)

-- The session of the id is stopped.
abbrev pub Dead : {N W : Type 0} → String → Manager N W → Type 0
Dead id m = (r : SessionRecord) × (get id m.sessions ≡ some r) × (r.status ≡ stopped)

module _ {N W : Type 0} (B : Backend W) where
  poll_dead-Dead : (id : String) (m : Manager N W) → Known id m → Dead id (poll_dead B id m).1
  unfolding ◌>>=◌ call emit_session modify pure update_record
  poll_dead-Dead id m (r, h) = (
    with_status stopped (B.now m.world).0 r,
    get-update_record B id (with_status stopped (B.now m.world).0) m r h,
    refl,
  )

  poll_one-Dead :
      (r : SessionRecord) (m : Manager N W)
      → ((w : W) → (B.session_exists r.tmux_session w).0 ≡ false)
      → Known r.id m
      → Dead r.id (poll_one B r m).1
  unfolding poll_one ◌>>=◌ call
  poll_one-Dead r m gone (s, h) = rw (gone m.world) (poll_dead-Dead r.id _ (s, h))

  own-Goes :
      (id : String) (f : SessionRecord → SessionRecord)
      → Goes (Known {N = N} {W = W} id) (update_record B id f)
  unfolding update_record modify
  own-Goes id f = record { at = λ m (r, h). ((f r, get-update_record B id f m r h), tt) }

  -- A turn for any polled record keeps a record of the id in the registry.
  Known-Goes : (r s : SessionRecord) → Goes (Known {N = N} {W = W} r.id) (poll_one B s)
  Known-Goes r s = elim (Bool-cases (s.id == r.id)) [
    | inl e ↦
        poll_one-Goes B _
          (λ m n a c h. subst (λ y. (x : SessionRecord) × (get r.id y ≡ some x)) (sym a) h) s
          (λ t now.
            subst (λ n. Goes (Known {N = N} {W = W} n) (update_record B s.id (with_status t now)))
              ((eq_iff s.id r.id).0 e) (own-Goes s.id (with_status t now)))
    | inr e ↦
        other-Goes B r.id (λ o. (x : SessionRecord) × (o ≡ some x)) s
          (λ k. false≢true (sym e ∙ (eq_iff s.id r.id).1 k))
  ]

  poll_all-Dead :
      (r : SessionRecord) (rs : List SessionRecord) (dirty : Bool)
      → ((s : SessionRecord) → In s rs → Goes (Dead {N = N} {W = W} r.id) (poll_one B s))
      → ((w : W) → (B.session_exists r.tmux_session w).0 ≡ false)
      → In r rs
      → (m : Manager N W) → Known r.id m
      → Dead r.id (poll_all B rs dirty m).1
  unfolding poll_all ◌>>=◌
  poll_all-Dead r (x ∷ rs) dirty k gone (here e) m h =
      and_go-then (Dead r.id) (poll_one B x m).0 _ (poll_one B x m).1 ((Known-Goes r x).at m h).1
        (λ b.
          ((poll_all-Goes B (Dead r.id) rs _ (λ s i. k s (there i))).at _
            (subst (λ y. Dead r.id (poll_one B y m).1) e (poll_one-Dead r m gone h))).0)
  poll_all-Dead r (x ∷ rs) dirty k gone (there i) m h =
      and_go-then (Dead r.id) (poll_one B x m).0 _ (poll_one B x m).1 ((Known-Goes r x).at m h).1
        (λ b. poll_all-Dead r rs _ (λ s j. k s (there j)) gone i _ ((Known-Goes r x).at m h).0)
  poll_all-Dead r [] dirty k gone i m h = elim i [ ]

  -- The turn of a session that is gone keeps it stopped.
  gone-Goes :
      (r : SessionRecord)
      → ((w : W) → (B.session_exists r.tmux_session w).0 ≡ false)
      → Goes (Dead {N = N} {W = W} r.id) (poll_one B r)
  gone-Goes r gone = record {
    at = λ m (s, h, d). (poll_one-Dead r m gone (s, h), ((Known-Goes r r).at m (s, h)).1);
  }

  -- After poll_once on a registry that fits, a session that was active and not external and whose
  -- tmux session the backend never reports is stopped.
  pub poll_once-Dead :
      (m : Manager N W) (r : SessionRecord)
      → ManagerFits m
      → get r.id m.sessions ≡ some r
      → is_polled r ≡ true
      → ((w : W) → (B.session_exists r.tmux_session w).0 ≡ false)
      → (s : SessionRecord) × (get r.id (poll_once B m).1.sessions ≡ some s) × (s.status ≡ stopped)
  unfolding poll_once ◌>>=◌ gets
  poll_once-Dead m r fits h p gone =
      let active = filter is_polled (values m.sessions) in
      let turns : (s : SessionRecord)
          → In s active
          → Goes (Dead {N = N} {W = W} r.id) (poll_one B s) =
        λ s i. elim (Bool-cases (s.id == r.id)) [
          | inl e ↦
              subst (λ y. Goes (Dead {N = N} {W = W} r.id) (poll_one B y))
                (sym (polled-same m r s fits h i ((eq_iff s.id r.id).0 e))) (gone-Goes r gone)
          | inr e ↦
              other-Goes B r.id (λ o. (x : SessionRecord) × (o ≡ some x) × (x.status ≡ stopped)) s
                (λ k. false≢true (sym e ∙ (eq_iff s.id r.id).1 k))
        ] in
      let i = filter-In is_polled (values m.sessions) (get-In m.sessions r.id r h) p in
      and_go-then (Dead r.id) (poll_all B active false m).0 _ (poll_all B active false m).1
        ((poll_all-Goes B (Known r.id) active false (λ s j. Known-Goes r s)).at m (r, h)).1
        (λ b.
          ((persist_if-Goes B (Dead r.id)
              (λ a c s t d.
                subst (λ y. (x : SessionRecord) × (get r.id y ≡ some x) × (x.status ≡ stopped))
                  (sym s) d)
              b).at
            _ (poll_all-Dead r active false turns gone i m (r, h))).0)
