-- ===== src/Scheduler/Order.antt =====
-- Which task `RunTask` of framework/src/scheduler.cpp takes.
use io_tbased_raid.Prelude.{◌-◌, ◌≤◌, ◌≡◌, refl, ap, ◌∙◌, some, List, ◌∷◌, arith, All, All-map}
use mathlib.Core.List.{Perm}
use io_tbased_raid.WaitableQueue.{pop_greatest}
use io_tbased_raid.WaitableQueue.Greatest.{IsStrictWeak, pop_greatest-IsGreatest}
use io_tbased_raid.Scheduler.{Task, less, Scheduler, take_task}

less-IsStrictWeak : IsStrictWeak less
less-IsStrictWeak = record { asymmetric = λ a b h. ground arith; between = λ a b c h. ground arith }

-- `RunTask` on a queue that holds a task takes one whose time is not after any other's, and leaves the others.
pub take_task-earliest :
    (t : Task) (tasks : List Task) (s : Scheduler)
    → s.queue ≡ t ∷ tasks
    → (m : Task) × (rest : List Task) × (take_task s
        ≡ record s { expired = s.expired - 1; queue = rest; running = m ∷ s.running })
      × All (λ u. m.time_to_run ≤ u.time_to_run) rest
      × Perm (t ∷ tasks) (m ∷ rest)
unfolding take_task
take_task-earliest t tasks s e =
    let (m, rest, e', g, perm) = pop_greatest-IsGreatest less less-IsStrictWeak t tasks in
    let found : pop_greatest less s.queue ≡ some (m, rest) = ap (pop_greatest less) e ∙ e' in
    (m, rest, rw (take_task, found) refl, All-map (λ u h. ground arith) rest g, perm)
