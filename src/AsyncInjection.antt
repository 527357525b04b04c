-- ===== src/AsyncInjection.antt =====
-- framework/src/AsyncInjection.cpp and the run of a command in framework/src/FW_TPTask.cpp. The injections stand in
-- a list, each with the number of `shared_ptr`s that own it; a `weak_ptr` is an index. What the functions answer that
-- the program schedules, and what its commands do, are arguments.
pub mod Lifetime
use io_tbased_raid.Prelude.{
  ℕ, zero, suc, ◌+◌, ◌-◌, Bool, true, false, Option, none, some, List, [], ◌∷◌, ◌++◌, ◌==◌,
  if◌then◌else◌, length, get_elem?, set,
}
use io_tbased_raid.Prelude.Results.{Result, ok, throw, fault}
use io_tbased_raid.Factory.{Factory, create}

-- `class AsyncInjection`
pub record AsyncInjection : Type 0 where
  pub task : ℕ
  pub interval : ℕ
  pub owners : ℕ

-- What the scheduler is given: the index of an injection, and an interval.
pub record Store : Type 0 where
  pub injections : List AsyncInjection
  pub scheduled : List (ℕ × ℕ)

abbrev pub change_owners : (ℕ → ℕ) → ℕ → List AsyncInjection → List AsyncInjection
change_owners f i [] = []
change_owners f zero (a ∷ injections) = record a { owners = f a.owners } ∷ injections
change_owners f (suc i) (a ∷ injections) = a ∷ change_owners f i injections

-- A `shared_ptr` more, and one less.
abbrev own : ℕ → Store → Store
own i s = record s { injections = change_owners (λ n. n + 1) i s.injections }

abbrev release : ℕ → Store → Store
release i s = record s { injections = change_owners (λ n. n - 1) i s.injections }

-- `Scheduler::AddTask` of an `AsyncInjectionTask`, which keeps a `weak_ptr`.
abbrev add_task : ℕ → ℕ → Store → Store
add_task i interval s = record s { scheduled = s.scheduled ++ ((i, interval) ∷ []) }

-- `Schedule`: the `shared_ptr` is the caller's own, and ends with the call.
unfoldable pub schedule : ℕ → ℕ → Store → Store
schedule task interval s =
    let i = length s.injections in
    release i (
      add_task i interval (record s {
        injections = s.injections ++ (record { task = task; interval = interval; owners = 1 } ∷ []);
      }))

-- `weak_ptr::lock`: nothing, once no `shared_ptr` owns the injection.
abbrev pub lock : ℕ → Store → Option AsyncInjection
lock i s = elim (get_elem? s.injections i) [
  | none ↦ none
  | some a ↦ if a.owners == 0 then none else some a
]

unfoldable pub reschedule : ℕ → AsyncInjection → Store → Store
reschedule i a s = add_task i a.interval s

-- `PerformAction`, for what the function of that number answers.
unfoldable pub perform_action : (ℕ → Bool) → ℕ → AsyncInjection → Store → Store
unfolding reschedule
perform_action answers i a s = if answers a.task then s else reschedule i a s

-- `AsyncInjectionTask::Run`: the store, and the functions called.
unfoldable pub run : (ℕ → Bool) → ℕ → Store → Store × List ℕ
unfolding perform_action
run answers i s = elim (lock i s) [
  | none ↦ (s, [])
  | some a ↦ (release i (perform_action answers i a (own i s)), a.task ∷ [])
]

-- How a command's `Run` ends: with a function to schedule and its interval, with none, or with an exception.
pub data Outcome : Type 0 where
  returned : Option (ℕ × ℕ) → Outcome
  threw : Outcome

-- What `FW_TPTask::Run` does then: the store, and whether an error was logged.
unfoldable pub settle : Outcome → Store → Store × Bool
unfolding schedule
settle threw s = (s, true)
settle (returned none) s = (s, false)
settle (returned (some (task, interval))) s = (schedule task interval s, false)

module _ {ℓ} {A : Type ℓ} where
  -- The command that was created is run; the exception is caught that `Create` or the command throws.
  unfoldable pub run_created : Result (A → Outcome) → A → Store → Store × Bool
  unfolding settle
  run_created (ok command) args s = settle (command args) s
  run_created (throw e) args s = settle threw s
  run_created fault args s = settle threw s

  -- `FW_TPTask::Run`: a command is created by the key of the arguments and run on them.
  unfoldable pub run_command :
      Factory {0, ℓ} (Unit {0}) (A → Outcome) → ℕ → A → Store → Store × Bool
  unfolding create run_created
  run_command commands key args s = run_created (create key tt commands) args s
