-- ===== src/Sessions/Poll/Turns.antt =====
-- engine/src/sessions/manager.rs, poll_once: what all the turns of the loop keep.
use openmirai.Prelude.{
  ◌≡◌, refl, sym, ◌∙◌, subst, String, Bool, false, Option, none, some, List, [], ◌∷◌, inl, inr, In,
  here, there, filter, get, get-insert, eq_iff, ◌==◌, Bool-cases, HashMap, In-filter,
}
use openmirai.Steps.{Flow, next, stop, gets, and_go, ◌>>=◌}
use openmirai.Steps.Keeps.{Ends, Keeps-modify, Keeps-pure, Keeps-bind}
use openmirai.Sessions.Records.{SessionRecord}
use openmirai.Sessions.Backend.{Backend}
use openmirai.Sessions.Manager.{Manager, update_record, updated, values}
use openmirai.Sessions.Poll.{is_polled, poll_one, poll_all, poll_once}
use openmirai.Sessions.Poll.Keeps.{with_status, Goes, ReadsRegistry, poll_one-Goes, persist_if-Goes}
use openmirai.Sessions.Registry.{ManagerFits, get-values}

get-updated-other :
    (j id : String) (f : SessionRecord → SessionRecord) (sessions : HashMap SessionRecord)
    (o : Option SessionRecord)
    → (¬ j ≡ id)
    → get id (updated j f o sessions) ≡ get id sessions
get-updated-other j id f sessions none k = refl
get-updated-other j id f sessions (some r) k = elim (Bool-cases (j == id)) [
  | inl e ↦ absurd (k ((eq_iff j id).0 e))
  | inr e ↦ get-insert j id (f r) sessions ∙ rw e refl
]

-- A step that does not stop is followed by the rest.
pub and_go-then :
    {S R A B : Type 0} (T : S → Type 0) (r : Flow R A) (f : A → S → Flow R B × S) (s : S)
    → Ends (λ (e : R). ⊥) r
    → ((a : A) → T (f a s).1)
    → T (and_go r f s).1
and_go-then T (next a) f s q k = k a
and_go-then T (stop e) f s q k = absurd q

-- A record that is polled and has this id is the one that the id finds.
pub polled-same :
    {N W : Type 0} (m : Manager N W) (r s : SessionRecord)
    → ManagerFits m
    → get r.id m.sessions ≡ some r
    → In s (filter is_polled (values m.sessions))
    → s.id ≡ r.id
    → s ≡ r
polled-same m r s fits h i e =
    let (j, p) = In-filter is_polled (values m.sessions) i in
    let k : get s.id m.sessions ≡ some s = get-values m.sessions s fits.registry fits.distinct j in
    let g : get r.id m.sessions ≡ some s = subst (λ n. get n m.sessions ≡ some s) e k in cc (g, h)

module _ {N W : Type 0} (B : Backend W) where
  -- A turn for another id keeps whatever is said of the record of this one.
  pub other-Goes :
      (id : String) (P : Option SessionRecord → Type 0) (r : SessionRecord)
      → (¬ r.id ≡ id)
      → Goes (λ (m : Manager N W). P (get id m.sessions)) (poll_one B r)
  unfolding update_record
  other-Goes id P r k =
      poll_one-Goes B _ (λ m n s a h. subst (λ x. P (get id x)) (sym s) h) r
        (λ s now.
          Keeps-modify _
            (λ m h. subst P (sym (get-updated-other r.id id (with_status s now) m.sessions _ k)) h))

  pub poll_all-Goes :
      (P : Manager N W → Type 0) (rs : List SessionRecord) (dirty : Bool)
      → ((s : SessionRecord) → In s rs → Goes P (poll_one B s))
      → Goes P (poll_all B rs dirty)
  unfolding poll_all
  poll_all-Goes P [] dirty k = Keeps-pure dirty
  poll_all-Goes P (r ∷ rs) dirty k =
      Keeps-bind _ _ (k r (here refl)) (λ b. poll_all-Goes P rs _ (λ s i. k s (there i)))

  pub poll_once-Goes :
      (P : Manager N W → Type 0) (m : Manager N W)
      → ReadsRegistry P
      → ((s : SessionRecord) → In s (filter is_polled (values m.sessions)) → Goes P (poll_one B s))
      → P m
      → P (poll_once B m).1
  unfolding poll_once ◌>>=◌ gets
  poll_once-Goes P m reads k h =
      let active = filter is_polled (values m.sessions) in
      let (p, q) = (poll_all-Goes P active false k).at m h in
      and_go-then P (poll_all B active false m).0 _ (poll_all B active false m).1 q
        (λ b. ((persist_if-Goes B P reads b).at _ p).0)
