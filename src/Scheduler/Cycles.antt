-- ===== src/Scheduler/Cycles.antt =====
-- engine/src/runtime/scheduler.rs: how many cycles a task runs, and how many records it keeps.
use openmirai.Prelude.{
  subst, ◌%◌, ℕ, zero, suc, ◌+◌, ◌-◌, ◌<◌, ◌≤◌, ◌≡◌, refl, arith, String, Bool, true, false, some,
  List, [], ◌∷◌, ◌++◌, length, drop, Bool-cases, Option-cases, inl, inr, HashMap, get, get-insert,
  eq_refl, unwrap_or,
}
use openmirai.Scheduler.{
  CycleRecord, Task, Cycle, u64_mod, keep_last, record_of, get_cycles, run_cycle, wait_cycle,
  at_max, after_wait, after_check, after_flag, round, rounds,
}

length-drop : {A : Type 0} (n : ℕ) (xs : List A) → length (drop n xs) ≡ length xs - n
length-drop zero xs = omega arith
length-drop (suc n) [] = omega arith
length-drop (suc n) (x ∷ xs) = omega (arith, length-drop n xs)

-- get_cycles returns at most as many records as it is asked for.
pub get_cycles-length :
    (agent_id : String) (limit : ℕ) (history : HashMap (List CycleRecord))
    → length (get_cycles agent_id limit history) ≤ limit
unfolding get_cycles
get_cycles-length agent_id limit history = elim (Option-cases (get agent_id history)) [
  | inl n ↦ rw (n, get_cycles) (omega arith)
  | inr (records, n) ↦
      rw (n, get_cycles)
        (ground (arith, length-drop (length records - limit) records, length-drop 0 records))
]

module _ {W : Type 0} (t : Task W) (m : ℕ) where
  -- The cycles so far are at most `m`, and the agent's records at most 1000.
  pub record IsWithin (c : Cycle W) : Type 0 where
    pub cycles : c.cycle_num ≤ m
    pub records : length (unwrap_or (get t.agent_id c.history) []) ≤ 1000

  length-keep_last : (n : ℕ) (xs : List CycleRecord) → length (keep_last n xs) ≤ n
  length-keep_last n xs = omega (arith, length-drop (length xs - n) xs)

  run_cycle-IsWithin :
      (c : Cycle W)
      → c.cycle_num + 1 ≤ m
      → m < u64_mod
      → IsWithin (run_cycle t c).1 × ((run_cycle t c).1.cycle_num ≡ c.cycle_num + 1)
  unfolding run_cycle
  run_cycle-IsWithin c h small =
      let n = (c.cycle_num + 1) % u64_mod in
      let r = record_of t.agent_id n (t.callback t.agent_id n c.is_first c.world).0 in
      let kept = keep_last 1000 (unwrap_or (get t.agent_id c.history) [] ++ r ∷ []) in
      (
        record {
          cycles = omega (arith, h, small);
          records =
              rw (get-insert t.agent_id t.agent_id kept c.history, eq_refl t.agent_id)
                (length-keep_last 1000 (unwrap_or (get t.agent_id c.history) [] ++ r ∷ []));
        },
        omega (arith, h, small),
      )

  -- What a round leaves: the bounds, and one cycle more if another round follows.
  abbrev Advances : ℕ → Bool × Cycle W → Type 0
  Advances n r = IsWithin r.1 × (r.0 ≡ true → r.1.cycle_num ≡ n + 1)

  stopped-Advances : (c : Cycle W) → IsWithin c → Advances c.cycle_num (false, c)
  stopped-Advances c h = (h, λ e. cc)

  in_world : (c : Cycle W) (w : W) → IsWithin c → IsWithin (record c { world = w })
  in_world c w h = record { cycles = h.cycles; records = h.records }

  after_wait-Advances :
      (on : Bool) (c : Cycle W)
      → c.cycle_num + 1 ≤ m
      → m < u64_mod
      → IsWithin c
      → Advances c.cycle_num (after_wait t on c)
  after_wait-Advances false c b small h = stopped-Advances c h
  after_wait-Advances true c b small h = let (k, e) = run_cycle-IsWithin c b small in (k, λ _. e)

  wait_cycle-num : (c : Cycle W) → (wait_cycle t c).1.cycle_num ≡ c.cycle_num
  unfolding wait_cycle
  wait_cycle-num c = elim (Bool-cases c.is_first) [ inl e ↦ rw e refl | inr e ↦ rw e refl ]

  wait_cycle-IsWithin : (c : Cycle W) → IsWithin c → IsWithin (wait_cycle t c).1
  unfolding wait_cycle
  wait_cycle-IsWithin c h = elim (Bool-cases c.is_first) [
    | inl e ↦ rw e (record { cycles = h.cycles; records = h.records })
    | inr e ↦ rw e (record { cycles = h.cycles; records = h.records })
  ]

  after_check-Advances :
      (full : Bool) (c : Cycle W)
      → (full ≡ false → c.cycle_num + 1 ≤ m)
      → m < u64_mod
      → IsWithin c
      → Advances c.cycle_num (after_check t full c)
  after_check-Advances true c b small h = stopped-Advances c h
  after_check-Advances false c b small h =
      let e = wait_cycle-num c in
      subst (λ n. Advances n (after_wait t (wait_cycle t c).0 (wait_cycle t c).1)) e
        (after_wait-Advances (wait_cycle t c).0 (wait_cycle t c).1 (omega (arith, e, b refl)) small
          (wait_cycle-IsWithin c h))

  round-Advances :
      (c : Cycle W)
      → t.max_cycles ≡ some m
      → m < u64_mod
      → IsWithin c
      → Advances c.cycle_num (round t c)
  unfolding round
  round-Advances c e small h =
      flagged (t.is_running c.world).0 (record c { world = (t.is_running c.world).1 })
        (in_world c _ h)
    where
      flagged : (on : Bool) (d : Cycle W) → IsWithin d → Advances d.cycle_num (after_flag t on d)
      flagged false d k = stopped-Advances d k
      flagged true d k = after_check-Advances (at_max t d) d (λ f. ground (arith, e, f)) small k

  rounds_end :
      (n : ℕ) (c : Cycle W)
      → t.max_cycles ≡ some m
      → m < u64_mod
      → IsWithin c
      → m < c.cycle_num + n
      → ((rounds t n c).0 ≡ false) × IsWithin (rounds t n c).1
  unfolding rounds
  rounds_end zero c e small h b = absurd (omega (arith, h.cycles, b))
  rounds_end (suc n) c e small h b =
      let (k, more) = round-Advances c e small h in
      elim (Bool-cases (round t c).0) [
        | inl g ↦ rw (g, rounds) (rounds_end n (round t c).1 e small k (omega (arith, more g, b)))
        | inr g ↦ rw (g, rounds) (refl, k)
      ]

  -- With max_cycles below 2^64, a task that starts at cycle 0, with at most 1000 records of its
  -- agent, ends within one round more than max_cycles, has run at most max_cycles cycles, and
  -- leaves at most 1000 records of its agent, whatever the flag and the callback answer.
  pub rounds_bounded :
      (c : Cycle W)
      → t.max_cycles ≡ some m
      → m < u64_mod
      → c.cycle_num ≡ 0
      → length (unwrap_or (get t.agent_id c.history) []) ≤ 1000
      → ((rounds t (m + 1) c).0 ≡ false) × IsWithin (rounds t (m + 1) c).1
  rounds_bounded c e small fresh kept =
      rounds_end (m + 1) c e small (record { cycles = omega (arith, fresh); records = kept })
        (omega (arith, fresh))
