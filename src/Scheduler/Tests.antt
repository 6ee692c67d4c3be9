-- ===== src/Scheduler/Tests.antt =====
-- A task of three cycles whose callback fails on the second.
use openmirai.Prelude.{
  ℕ, ◌+◌, ◌≡◌, refl, arith, true, false, some, [], ◌∷◌, if◌then◌else◌, eqb, get, insert, ok, err,
}
use openmirai.Scheduler.{Task, Cycle, get_cycle_count, rounds, round, run_cycle, wait_cycle}
use openmirai.Scheduler.Cycles.{IsWithin, rounds_bounded}

abbrev task : Task ℕ
task = record {
  agent_id = "a1";
  max_cycles = some 3;
  on_cycle_error = "continue";
  is_running = λ w. (true, w);
  sleep_interval = λ w. w + 1;
  callback = λ id n first w. (if eqb n 2 then err "boom" else ok tt, w);
}

abbrev spawned : Cycle ℕ
spawned = record {
  cycle_num = 0;
  is_first = true;
  history = [];
  counters = ("a1", 0) ∷ [];
  world = 0;
}

-- Three cycles run, two sleeps among them, and the count is three.
three_cycles :
    ((rounds task 4 spawned).1.world ≡ 2)
    × (get_cycle_count "a1" (rounds task 4 spawned).1.counters ≡ 3)
unfolding rounds round run_cycle wait_cycle get_cycle_count get insert
three_cycles = (refl, refl)

rounds_bounded_example :
    ((rounds task 4 spawned).0 ≡ false) × IsWithin task 3 (rounds task 4 spawned).1
unfolding get
rounds_bounded_example = rounds_bounded task 3 spawned refl (omega arith) refl (omega arith)
