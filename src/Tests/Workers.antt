-- ===== src/Tests/Workers.antt =====
-- Runs of the framework's thread pool, scheduler, injections and logger.
use io_tbased_raid.Prelude.{◌≡◌, refl, length, false, some, [], ◌∷◌, arith}
use io_tbased_raid.Prelude.Results.{ok}
use io_tbased_raid.ThreadPool.{
  ThreadPool, TpTask, user_task, end_thread, low, less, init, add_task, set_num_threads, work,
  destroy, pause, resume,
}
use io_tbased_raid.WaitableQueue.{pop_greatest}
use io_tbased_raid.ThreadPool.Workers.{IsStaffed}
use io_tbased_raid.ThreadPool.Turns.{Reach, start, step, adds, sets, works, Reach-IsStaffed}
use io_tbased_raid.ThreadPool.PauseResume.{acquire_all, pause-resume}
use io_tbased_raid.ThreadPool.Shutdown.{turns, turns-destroy}

abbrev two_workers : ThreadPool
two_workers = record {
  queue = [];
  deleted_threads = [];
  threads = 0 ∷ 1 ∷ [];
  total_threads = 2;
  tid = 2;
  paused = false;
  pause_sem = 0;
  running = 0 ∷ 1 ∷ [];
  waiting = [];
  acquiring = 0;
}

init_two : init 2 ≡ ok two_workers
unfolding init
init_two = refl

-- A task of each kind.
abbrev low_task : TpTask
low_task = record { task = user_task 7; priority = 1; time_created = 5 }

abbrev later_task : TpTask
later_task = record { task = user_task 8; priority = 1; time_created = 6 }

abbrev ending_task : TpTask
ending_task = record { task = end_thread; priority = 4; time_created = 6 }

abbrev with_task : ThreadPool
with_task = record two_workers { queue = low_task ∷ [] }

with_task-Reach : Reach 2 with_task
unfolding add_task
with_task-Reach = step (start init_two) (adds 5 7 low two_workers)

-- One worker is to end, and the other has taken that task.
abbrev fewer : ThreadPool
fewer = record two_workers { queue = low_task ∷ ending_task ∷ []; total_threads = 1 }

abbrev one_left : ThreadPool
one_left = record two_workers {
  queue = low_task ∷ [];
  total_threads = 1;
  running = 0 ∷ [];
  deleted_threads = 1 ∷ [];
}

fewer_eq : set_num_threads 6 1 with_task ≡ ok fewer
unfolding set_num_threads
fewer_eq = refl

one_left_eq : work 1 fewer ≡ some (one_left, [])
unfolding work
one_left_eq = refl

Reach-IsStaffed_example : IsStaffed one_left
Reach-IsStaffed_example =
    Reach-IsStaffed 2
      (step (step with_task-Reach (sets 6 1 with_task fewer_eq)) (works 1 fewer one_left_eq))

turns-destroy_example :
    (q : ThreadPool) × (turns (λ p. 0) 2 (destroy 9 with_task) ≡ some (q, []))
    × (q.running ≡ [])
    × (q.waiting ≡ [])
turns-destroy_example = turns-destroy (λ p. 0) (λ p h. h) 9 2 with_task-Reach refl (omega arith, tt)

pause-resume_example :
    (q r : ThreadPool) × (turns (λ p. 0) 2 (pause 9 with_task) ≡ some (q, []))
    × (acquire_all 2 q ≡ some r)
    × (r.acquiring ≡ 0)
    × (r.running ≡ [])
    × (length (resume r).running ≡ 2)
pause-resume_example =
    pause-resume (λ p. 0) (λ p h. h) 9 2 with_task-Reach refl (omega arith, tt) refl refl

-- The later of two tasks with one priority is popped first.
later_first : pop_greatest less (low_task ∷ later_task ∷ []) ≡ some (later_task, low_task ∷ [])
unfolding pop_greatest
later_first = refl
