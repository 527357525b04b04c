-- ===== src/Scheduler.antt =====
-- framework/include/scheduler.hpp and framework/src/scheduler.cpp. The mutex makes each critical section
-- one step: `RunTask` is two of them with the task's run in between. Times are counts of nanoseconds. What
-- `timer_settime` answers is an argument of what calls it; a task that the scheduler is given is known by a number.
pub mod Tasks
pub mod Order
use io_tbased_raid.Prelude.{
  ℕ, zero, suc, ◌+◌, ◌-◌, ◌*◌, ◌/◌, ◌%◌, ◌^◌, Bool, true, false, Option, none, some, List, [], ◌∷◌,
  ◌++◌, ltb, ◌==◌, without, if◌then◌else◌,
}
use io_tbased_raid.Prelude.Results.{Result, Exception, ok, throw, runtime_error}
use io_tbased_raid.WaitableQueue.{pop_greatest, is_empty}

-- `class Task`
pub record Task : Type 0 where
  pub task : ℕ
  pub time_to_run : ℕ

-- `Task::operator<`: the greatest is the earliest.
abbrev pub less : Task → Task → Bool
less t other = ltb other.time_to_run t.time_to_run

-- The scheduler's members, with what its timer does: `armed` is the time that it is set to, if it is set, as
-- `it_value` has it; `expired` counts the expirations whose thread has yet to lock the mutex in `RunTask`, and
-- `running` has the tasks that such threads run.
pub record Scheduler : Type 0 where
  pub queue : List Task
  pub counter : ℕ
  pub armed : Option (ℕ × ℕ)
  pub expired : ℕ
  pub running : List Task

abbrev pub init : Scheduler
init = record { queue = []; counter = 0; armed = none; expired = 0; running = [] }

-- The constructor, by whether `timer_create` succeeds.
abbrev pub make : Bool → Result Scheduler
make created = if created then ok init else throw runtime_error

-- `it_value` for a time: whole seconds, and the nanoseconds that remain.
abbrev pub it_value : ℕ → ℕ × ℕ
it_value time = (time / 1000000000, time - time / 1000000000 * 1000000000)

-- `StartTimer`, and what it throws. It is called with a task in the queue only.
unfoldable pub start_timer : Bool → Scheduler → Scheduler × Option Exception
unfolding pop_greatest
start_timer set s = elim (pop_greatest less s.queue) [
  | none ↦ (s, none)
  | some (top, rest) ↦
      if set
      then (record s { armed = some (it_value top.time_to_run) }, none)
      else (s, some runtime_error)
]

-- `AddTask` when the clock shows `now`.
unfoldable pub add_task : Bool → ℕ → ℕ → ℕ → Scheduler → Scheduler × Option Exception
unfolding start_timer
add_task set now task interval s = start_timer set (record s {
  queue = s.queue ++ (record { task = task; time_to_run = now + interval } ∷ []);
  counter = (s.counter + 1) % 2 ^ 64;
})

-- `RunTask`, up to the run of the task that it takes; without a task it returns.
unfoldable pub take_task : Scheduler → Scheduler
unfolding pop_greatest
take_task s = elim (pop_greatest less s.queue) [
  | none ↦ record s { expired = s.expired - 1 }
  | some (task, rest) ↦ record s {
    expired = s.expired - 1;
    queue = rest;
    running = task ∷ s.running;
  }
]

-- `RunTask`, from the run of the task on, which is at index `i` of those that run. What the task throws is caught.
unfoldable pub finish_task : Bool → ℕ → Scheduler → Scheduler × Option Exception
unfolding start_timer
finish_task set i s =
    let counter = (s.counter + (2 ^ 64 - 1)) % 2 ^ 64 in
    let s' = record s { counter = counter; running = without i s.running } in
    if counter == 0 then (s', none) else if is_empty s.queue then (s', none) else start_timer set s'

-- The destructor: the timer is disarmed and deleted, the queue emptied.
unfoldable pub destroy : Scheduler → Scheduler
destroy s = record s { queue = []; counter = 0; armed = none }
