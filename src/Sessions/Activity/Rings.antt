-- ===== src/Sessions/Activity/Rings.antt =====
-- engine/src/sessions/manager.rs: what is read back of the activity that was recorded.
use openmirai.Prelude.{
  ℕ, zero, suc, ◌-◌, ◌≤◌, ◌<◌, ◌≡◌, refl, ap, String, true, false, Option, some, List, [], ◌∷◌,
  ◌++◌, arith, get, get-insert, eq_refl, HashMap, length, drop, length-append, unwrap_or,
  contains_key, is_empty_text, trim,
}
use openmirai.Json.{Value}
use openmirai.Steps.{next, pure, gets, modify, ◌>>=◌}
use openmirai.Sessions.Records.{SessionRecord}
use openmirai.Sessions.Backend.{Backend}
use openmirai.Sessions.Manager.{Manager, call, emit_session}
use openmirai.Sessions.Activity.{
  activity_ring_max, push_ring, last_entries, known_action, activity_json, push_activity,
  record_activity, get_activity,
}

module _ {A : Type 0} where
  -- A suffix of a list that an entry was pushed to ends with the entry.
  drop-snoc :
      (n : ℕ) (xs : List A) (a : A) → n ≤ length xs → drop n (xs ++ a ∷ []) ≡ drop n xs ++ a ∷ []
  drop-snoc zero xs a h = refl
  drop-snoc (suc n) [] a h = absurd (omega (arith, h))
  drop-snoc (suc n) (x ∷ xs) a h = drop-snoc n xs a (omega (arith, h))

  pub length-snoc : (xs : List A) (a : A) → length (xs ++ a ∷ []) ≡ suc (length xs)
  length-snoc xs a = omega (arith, length-append xs (a ∷ []))

  push_ring-snoc : (ring : List A) (a : A) → (old : List A) × (push_ring ring a ≡ old ++ a ∷ [])
  unfolding push_ring
  push_ring-snoc ring a = (
    _,
    drop-snoc (length (ring ++ a ∷ []) - activity_ring_max) ring a
        (omega (arith, length-snoc ring a)),
  )

  last_entries-snoc :
      (limit : ℕ) (old : List A) (a : A)
      → 0 < limit
      → (older : List A) × (last_entries limit (old ++ a ∷ []) ≡ older ++ a ∷ [])
  unfolding last_entries
  last_entries-snoc limit old a h =
      (_, drop-snoc (length (old ++ a ∷ []) - limit) old a (omega (arith, h, length-snoc old a)))

module _ {N W : Type 0} (B : Backend W) where
  -- For a session of the registry, a known action and a tool that is not blank, a positive number
  -- of entries read back after record_activity ends with the entry that was recorded.
  pub get_activity-record_activity :
      (id tool action : String) (path : Option String) (limit : ℕ) (m : Manager N W)
      (r : SessionRecord)
      → get id m.sessions ≡ some r
      → known_action action ≡ true
      → is_empty_text (trim tool) ≡ false
      → 0 < limit
      → (older : List (HashMap (Value N))) × ((get_activity B id limit
            (record_activity B id tool action path m).1).0
          ≡ next (older ++ activity_json id tool action path (B.now m.world).0 ∷ []))
  unfolding record_activity get_activity push_activity ◌>>=◌ pure call gets modify contains_key
      emit_session
  get_activity-record_activity id tool action path limit m r h a t l =
      let entry = activity_json id tool action path (B.now m.world).0 in
      let (old, k) = push_ring-snoc (unwrap_or (get id m.activity) []) entry in
      let (older, j) = last_entries-snoc limit old entry l in
      rw a (
        rw t (
          rw h (
            rw h (
              rw (get-insert id id (push_ring (unwrap_or (get id m.activity) []) entry) m.activity)
                (rw (eq_refl id) (rw k (older, ap next j)))))))
