-- ===== src/Sessions/Poll/Externals.antt =====
-- engine/src/sessions/manager.rs, poll_once: an external node is left alone.
use openmirai.Prelude.{◌≡◌, sym, subst, true, some, arith, get, In-filter}
use openmirai.Sessions.Records.{SessionRecord}
use openmirai.Sessions.Backend.{Backend}
use openmirai.Sessions.Manager.{Manager, values}
use openmirai.Sessions.Poll.{is_polled, poll_once}
use openmirai.Sessions.Registry.{ManagerFits}
use openmirai.Sessions.Poll.Turns.{polled-same, other-Goes, poll_once-Goes}

module _ {N W : Type 0} (B : Backend W) where
  -- poll_once on a registry that fits leaves the record of an external node as it is, whatever
  -- the backend answers.
  pub poll_once-external :
      (m : Manager N W) (r : SessionRecord)
      → ManagerFits m
      → get r.id m.sessions ≡ some r
      → r.external ≡ true
      → get r.id (poll_once B m).1.sessions ≡ some r
  poll_once-external m r fits h x =
      poll_once-Goes B (λ n. get r.id n.sessions ≡ some r) m
        (λ a c s t d. subst (λ y. get r.id y ≡ some r) (sym s) d)
        (λ s i.
          other-Goes B r.id (λ o. o ≡ some r) s
            (λ e.
              let same = polled-same m r s fits h i e in
              let (j, p) = In-filter is_polled (values m.sessions) i in
              let q : is_polled r ≡ true = subst (λ y. is_polled y ≡ true) same p in
              absurd (ground (arith, q, x))))
        h
