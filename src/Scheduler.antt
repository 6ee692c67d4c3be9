-- ===== src/Scheduler.antt =====
-- engine/src/runtime/scheduler.rs: the task of one scheduled agent, which the scheduler's
-- `schedule_agent` spawns, and the queries on its records. The clock's fields of a record and its
-- random id are left out, and so are the map of the tasks' handles and their abort, which are
-- tokio's.
pub mod Cycles
mod Tests
use openmirai.Prelude.{
  ℕ, zero, suc, ◌+◌, ◌-◌, ◌%◌, String, Bool, true, false, Option, none, some, List, [], ◌∷◌, ◌++◌,
  if◌then◌else◌, ◌==◌, ltb, leb, length, drop, unwrap_or, HashMap, get, insert, Result, ok, err,
}

pub data CycleStatus : Type 0 where
  running completed failed : CycleStatus

pub record CycleRecord : Type 0 where
  pub agent_id : String
  pub cycle_number : ℕ
  pub status : CycleStatus
  pub error : Option String

-- What the task is given: the flag, the callback and the sleep, each in a world that it may change,
-- and the arguments of schedule_agent.
pub record Task (W : Type 0) : Type 0 where
  pub agent_id : String
  pub max_cycles : Option ℕ
  pub on_cycle_error : String
  pub is_running : W → Bool × W
  pub sleep_interval : W → W
  pub callback : String → ℕ → Bool → W → Result (Unit {0}) String × W

-- The task's variables, and the maps that it shares with the scheduler.
pub record Cycle (W : Type 0) : Type 0 where
  pub cycle_num : ℕ
  pub is_first : Bool
  pub history : HashMap (List CycleRecord)
  pub counters : HashMap ℕ
  pub world : W

abbrev pub u64_mod : ℕ
u64_mod = 18446744073709551616

-- agent_hist.drain(..len - 1000)
abbrev pub keep_last : ℕ → List CycleRecord → List CycleRecord
keep_last n records = drop (length records - n) records

abbrev pub record_of : String → ℕ → Result (Unit {0}) String → CycleRecord
record_of agent_id n (ok u) = record {
  agent_id = agent_id;
  cycle_number = n;
  status = completed;
  error = none;
}
record_of agent_id n (err e) = record {
  agent_id = agent_id;
  cycle_number = n;
  status = failed;
  error = some e;
}

-- Scheduler::get_cycles
unfoldable pub get_cycles : String → ℕ → HashMap (List CycleRecord) → List CycleRecord
get_cycles agent_id limit history = elim (get agent_id history) [
  | some records ↦ drop (if ltb limit (length records) then length records - limit else 0) records
  | none ↦ []
]

-- Scheduler::get_cycle_count
unfoldable pub get_cycle_count : String → HashMap ℕ → ℕ
get_cycle_count agent_id counters = unwrap_or (get agent_id counters) 0

module _ {W : Type 0} (t : Task W) where
  abbrev pub store_record : CycleRecord → HashMap (List CycleRecord) → HashMap (List CycleRecord)
  store_record r history =
      insert t.agent_id (keep_last 1000 (unwrap_or (get t.agent_id history) [] ++ r ∷ [])) history

  -- "Store cycle record" and "Update counter", and whether the task goes on.
  abbrev pub finish_cycle : Result (Unit {0}) String → Cycle W → Bool × Cycle W
  finish_cycle result c = (
    elim result [ ok u ↦ true | err e ↦ if t.on_cycle_error == "stop" then false else true ],
    record c {
      is_first = false;
      history = store_record (record_of t.agent_id c.cycle_num result) c.history;
      counters = insert t.agent_id c.cycle_num c.counters;
    },
  )

  -- From the count to the end of the loop's body.
  unfoldable pub run_cycle : Cycle W → Bool × Cycle W
  run_cycle c =
      let (result, w) = t.callback t.agent_id ((c.cycle_num + 1) % u64_mod) c.is_first c.world in
      finish_cycle result (record c { cycle_num = (c.cycle_num + 1) % u64_mod; world = w })

  -- The sleep before every cycle but the first, after which the flag is read again.
  unfoldable pub wait_cycle : Cycle W → Bool × Cycle W
  wait_cycle c =
      if c.is_first
      then (true, c)
      else (let (on, w) = t.is_running (t.sleep_interval c.world) in (on, record c { world = w }))

  abbrev pub at_max : Cycle W → Bool
  at_max c = elim t.max_cycles [ none ↦ false | some m ↦ leb m c.cycle_num ]

  abbrev pub after_wait : Bool → Cycle W → Bool × Cycle W
  after_wait false c = (false, c)
  after_wait true c = run_cycle c

  abbrev pub after_check : Bool → Cycle W → Bool × Cycle W
  after_check true c = (false, c)
  after_check false c = let (on, c') = wait_cycle c in after_wait on c'

  abbrev pub after_flag : Bool → Cycle W → Bool × Cycle W
  after_flag false c = (false, c)
  after_flag true c = after_check (at_max c) c

  -- One round of the `while`: whether another follows.
  unfoldable pub round : Cycle W → Bool × Cycle W
  unfolding run_cycle wait_cycle
  round c = let (on, w) = t.is_running c.world in after_flag on (record c { world = w })

  -- The task, for at most so many rounds: whether it still goes on, and where it is.
  unfoldable pub rounds : ℕ → Cycle W → Bool × Cycle W
  rounds zero c = (true, c)
  rounds (suc n) c = let (go, c') = round c in elim go [ true ↦ rounds n c' | false ↦ (false, c') ]
