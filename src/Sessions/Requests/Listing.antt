-- ===== src/Sessions/Requests/Listing.antt =====
-- engine/src/sessions/manager.rs, list: every record of the registry, once sorted.
use openmirai.Prelude.{
  ◌≡◌, refl, ◌↔◌, Bool, List, [], ◌∷◌, In, here, there, Bool-cases, inl, inr, get, some,
}
use openmirai.Steps.{next, gets, pure, ◌>>=◌}
use openmirai.Sessions.Records.{SessionRecord}
use openmirai.Sessions.Backend.{Backend}
use openmirai.Sessions.Manager.{Manager, insert_sorted, sort_by, values}
use openmirai.Sessions.Requests.{list, not_before}
use openmirai.Sessions.Registry.{ManagerFits, get-values, get-In}

-- An element of a longer tail.
skip :
    (r s x : SessionRecord) (xs ys : List SessionRecord)
    → (In s ys → In s (r ∷ xs))
    → In s (x ∷ ys)
    → In s (r ∷ x ∷ xs)
skip r s x xs ys k (here e) = there (here e)
skip r s x xs ys k (there i) = elim (k i) [ here e ↦ here e | there j ↦ there (there j) ]

module _ (le : SessionRecord → SessionRecord → Bool) where
  In-insert_sorted-head :
      (r : SessionRecord) (rs : List SessionRecord) → In r (insert_sorted le r rs)
  unfolding insert_sorted
  In-insert_sorted-head r [] = here refl
  In-insert_sorted-head r (x ∷ xs) = elim (Bool-cases (le r x)) [
    | inl e ↦ rw e (here refl)
    | inr e ↦ rw e (there (In-insert_sorted-head r xs))
  ]

  In-insert_sorted-tail :
      (r s : SessionRecord) (rs : List SessionRecord) → In s rs → In s (insert_sorted le r rs)
  unfolding insert_sorted
  In-insert_sorted-tail r s [] i = elim i [ ]
  In-insert_sorted-tail r s (x ∷ xs) i = elim (Bool-cases (le r x)) [
    | inl e ↦ rw e (there i)
    | inr e ↦ rw e (elim i [ here h ↦ here h | there j ↦ there (In-insert_sorted-tail r s xs j) ])
  ]

  In_of_insert_sorted :
      (r s : SessionRecord) (rs : List SessionRecord) → In s (insert_sorted le r rs) → In s (r ∷ rs)
  unfolding insert_sorted
  In_of_insert_sorted r s [] i = i
  In_of_insert_sorted r s (x ∷ xs) i = elim (Bool-cases (le r x)) [
    | inl e ↦ rw e at i
    | inr e ↦ skip r s x xs _ (In_of_insert_sorted r s xs) (rw e at i)
  ]

  In-sort_by : (s : SessionRecord) (rs : List SessionRecord) → In s rs → In s (sort_by le rs)
  unfolding sort_by
  In-sort_by s [] i = elim i [ ]
  In-sort_by s (r ∷ rs) (here e) = rw e (In-insert_sorted-head r (sort_by le rs))
  In-sort_by s (r ∷ rs) (there i) = In-insert_sorted-tail r s (sort_by le rs) (In-sort_by s rs i)

  In_of_sort_by : (s : SessionRecord) (rs : List SessionRecord) → In s (sort_by le rs) → In s rs
  unfolding sort_by
  In_of_sort_by s [] i = i
  In_of_sort_by s (r ∷ rs) i = elim (In_of_insert_sorted r s (sort_by le rs) i) [
    | here e ↦ here e
    | there j ↦ there (In_of_sort_by s rs j)
  ]

module _ {N W : Type 0} (B : Backend W) where
  -- On a registry that fits, list changes nothing and returns exactly the records that the
  -- registry finds under their own ids.
  pub list_iff :
      (m : Manager N W)
      → ManagerFits m
      → (rs : List SessionRecord) × (list B m ≡ (next rs, m))
        × ((r : SessionRecord) → In r rs ↔ (get r.id m.sessions ≡ some r))
  unfolding list ◌>>=◌ gets pure
  list_iff m fits = (
    sort_by not_before (values m.sessions),
    refl,
    (λ r. (
      (λ i.
          get-values m.sessions r fits.registry fits.distinct
            (In_of_sort_by not_before r (values m.sessions) i)),
      (λ h. In-sort_by not_before r (values m.sessions) (get-In m.sessions r.id r h)),
    )),
  )
