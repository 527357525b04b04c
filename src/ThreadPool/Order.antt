-- ===== src/ThreadPool/Order.antt =====
-- The order of `TPTask::operator<` (framework/src/thread_pool.cpp), and which task `Pop` takes by it.
use io_tbased_raid.Prelude.{◌≤◌, ◌<◌, ◌≡◌, ◌⊎◌, ◌↔◌, true, some, List, [], ◌∷◌, arith, All}
use mathlib.Core.List.{Perm}
use io_tbased_raid.WaitableQueue.{pop_greatest}
use io_tbased_raid.WaitableQueue.Greatest.{IsStrictWeak, IsGreatest, pop_greatest-IsGreatest}
use io_tbased_raid.ThreadPool.{TpTask, less}

-- The order by priority, and then by age: what runs first is greater.
abbrev pub Before : TpTask → TpTask → Type 0
Before t u =
    (t.priority < u.priority) ⊎ ((t.priority ≡ u.priority) × (t.time_created < u.time_created))

-- The arithmetic of `operator<` is the lexicographic order of priority and time of creation.
pub less-Before : (t u : TpTask) → (less t u ≡ true) ↔ Before t u
less-Before t u = ground arith

pub less-IsStrictWeak : IsStrictWeak less
less-IsStrictWeak = record { asymmetric = λ a b h. ground arith; between = λ a b c h. ground arith }

-- No task in the list has a higher priority, or the same and a later time of creation.
abbrev pub IsNewest : TpTask → List TpTask → Type 0
IsNewest m rest =
    All
      (λ u. (u.priority ≤ m.priority) × (u.priority ≡ m.priority → u.time_created ≤ m.time_created))
      rest

IsGreatest-IsNewest : (m : TpTask) (rest : List TpTask) → IsGreatest less m rest → IsNewest m rest
IsGreatest-IsNewest m [] h = tt
IsGreatest-IsNewest m (u ∷ rest) h =
    ((ground arith, λ e. ground arith), IsGreatest-IsNewest m rest h.1)

-- `Pop` of the pool's queue takes a task of the highest priority, and of these the one that was
-- created last; what it leaves is the rest of the queue.
pub pop_greatest-IsNewest :
    (t : TpTask) (queue : List TpTask)
    → (m : TpTask) × (rest : List TpTask) × (pop_greatest less (t ∷ queue) ≡ some (m, rest))
      × IsNewest m rest
      × Perm (t ∷ queue) (m ∷ rest)
pop_greatest-IsNewest t queue =
    let (m, rest, e, g, perm) = pop_greatest-IsGreatest less less-IsStrictWeak t queue in
    (m, rest, e, IsGreatest-IsNewest m rest g, perm)
