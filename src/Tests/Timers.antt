-- ===== src/Tests/Timers.antt =====
-- Runs of the framework's scheduler, injections, logger and device.
use io_tbased_raid.Prelude.{ℕ, ◌≡◌, refl, true, false, none, some, [], ◌∷◌, arith, map}
use io_tbased_raid.Factory.{Factory}
use io_tbased_raid.Scheduler
use io_tbased_raid.Scheduler.{Task, Scheduler, add_task, take_task, finish_task}
use io_tbased_raid.Scheduler.Tasks
use io_tbased_raid.Scheduler.Tasks.{IsSound, Reach-IsSound}
use io_tbased_raid.AsyncInjection.{Store, Outcome, returned}
use io_tbased_raid.Logger
use io_tbased_raid.Logger.{
  Logger, Message, Tm, error, log, logger_run, format, clear_running, popping, testing, ended,
}
use io_tbased_raid.Logger.Order
use io_tbased_raid.Logger.Order.{lines, Reach-lines}

abbrev early : Task
early = record { task = 1; time_to_run = 1500000000 }

abbrev late : Task
late = record { task = 2; time_to_run = 2500000000 }

-- A task is added; then another, which is due later.
abbrev with_early : Scheduler
with_early = record Scheduler.init { queue = early ∷ []; counter = 1; armed = some (1, 500000000) }

abbrev with_both : Scheduler
with_both = record Scheduler.init {
  queue = early ∷ late ∷ [];
  counter = 2;
  armed = some (1, 500000000);
}

add_early : add_task true 500000000 1 1000000000 Scheduler.init ≡ (with_early, none)
unfolding add_task
add_early = refl

add_late : add_task true 1500000000 2 1000000000 with_early ≡ (with_both, none)
unfolding add_task
add_late = refl

-- The first runs to its end.
abbrev running_early : Scheduler
running_early = record {
  queue = late ∷ [];
  counter = 2;
  armed = none;
  expired = 0;
  running = early ∷ [];
}

take_early : take_task (record with_both { armed = none; expired = 1 }) ≡ running_early
unfolding take_task
take_early = refl

abbrev only_late : Scheduler
only_late = record {
  queue = late ∷ [];
  counter = 1;
  armed = some (2, 500000000);
  expired = 0;
  running = [];
}

finish_early :
    finish_task true 0 (take_task (record with_both { armed = none; expired = 1 }))
    ≡ (only_late, none)
unfolding finish_task take_task
finish_early = refl

with_both-Reach : Scheduler.Tasks.Reach with_both (early ∷ late ∷ []) []
with_both-Reach =
    Scheduler.Tasks.Reach.adds 1500000000 2 1000000000
      (Scheduler.Tasks.Reach.adds 500000000 1 1000000000 Scheduler.Tasks.Reach.start (omega arith)
        add_early)
      (omega arith) add_late

Reach-IsSound_example : IsSound with_both (early ∷ late ∷ []) []
Reach-IsSound_example = Reach-IsSound with_both-Reach

-- A command that hands over the function 9, to be run after 100 ms, and a scheduler that runs the task.
abbrev commands : Factory {0, 0} (Unit {0}) (ℕ → Outcome)
commands = record { umap = (1, (λ _ args. returned (some (9, 100)))) ∷ [] }

abbrev no_injections : Store
no_injections = record { injections = []; scheduled = [] }

-- The first of January 1970, at any time.
abbrev epoch : ℕ → Tm
epoch time = record { mday = 1; mon = 0; year = 70; hour = 0; minute = 0 }

abbrev logged : Message
logged = record { time_created = 3; text = 104 ∷ 105 ∷ []; sev = error }

-- "01.01.1970 00:00 [ERROR] hi"
format-logged :
    format epoch logged
    ≡ 48 ∷ 49 ∷ 46 ∷ 48 ∷ 49 ∷ 46 ∷ 49 ∷ 57 ∷ 55 ∷ 48 ∷ 32 ∷ 48 ∷ 48 ∷ 58 ∷ 48 ∷ 48 ∷ 32 ∷ 91 ∷ 69
      ∷ 82 ∷ 82 ∷ 79 ∷ 82 ∷ 93 ∷ 32 ∷ 104 ∷ 105 ∷ []
unfolding format
format-logged = refl

abbrev with_message : Logger
with_message = log 3 (104 ∷ 105 ∷ []) error Logger.init

with_message-Reach : Logger.Order.Reach epoch with_message (logged ∷ [])
with_message-Reach = Logger.Order.Reach.logs 3 (104 ∷ 105 ∷ []) error Logger.Order.Reach.start

Reach-lines_example : lines epoch with_message ≡ map (format epoch) (logged ∷ [])
Reach-lines_example = Reach-lines epoch with_message-Reach

-- The thread that tests the flag before the destructor clears it waits for ever, once it has written the last message.
abbrev caught : Logger
caught = record { queue = []; file = []; running = false; thread = popping }

caught_waits : logger_run epoch caught ≡ none
unfolding logger_run
caught_waits = refl
