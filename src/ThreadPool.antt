-- ===== src/ThreadPool.antt =====
-- framework/include/thread_pool.hpp and framework/src/thread_pool.cpp. A worker's turn is one step:
-- it pops a task and runs it; turns of several workers may come in any order. A task that the pool
-- is given is known by a number, and does not throw; the clock's value is an argument of what reads it.
-- Calls of the operations are steps of their own, as by one caller at a time.
pub mod Order
pub mod Workers
pub mod Operations
pub mod Turns
pub mod Shutdown
pub mod Pausing
pub mod PauseResume
pub mod Future
use io_tbased_raid.Prelude.{
  ℕ, zero, suc, ◌+◌, ◌-◌, ◌*◌, Bool, true, false, not, Option, none, some, List, [], ◌∷◌, ◌++◌, ltb,
  ◌==◌, if◌then◌else◌, get_elem?, without,
}
use io_tbased_raid.Prelude.Results.{Result, ok, throw, fault, out_of_range, ◌>>=◌}
use io_tbased_raid.WaitableQueue.{enqueue, pop_greatest}
use io_tbased_raid.Message.{byte_of_bool}

pub data Priority : Type 0 where
  low medium high : Priority

pub data InnerPriority : Type 0 where
  end_pool_run ilow imedium ihigh critical : InnerPriority

abbrev pub level : InnerPriority → ℕ
level end_pool_run = 0
level ilow = 1
level imedium = 2
level ihigh = 3
level critical = 4

-- `static_cast<InnerPriority>` of a `Priority`: the one with the same number.
abbrev pub inner : Priority → InnerPriority
inner low = ilow
inner medium = imedium
inner high = ihigh

-- What a task does: a task of the pool's user, `EndThreadTask`, or `PauseThreadTask`.
pub data Job : Type 0 where
  user_task : ℕ → Job
  end_thread pause_thread : Job

-- `class TPTask`
pub record TpTask : Type 0 where
  pub task : Job
  pub priority : ℕ
  pub time_created : ℕ

-- `TPTask::operator<`, with its arithmetic on truth values.
abbrev pub less : TpTask → TpTask → Bool
less t other = not (
    byte_of_bool (ltb t.time_created other.time_created)
        * byte_of_bool (t.priority == other.priority)
      + byte_of_bool (ltb t.priority other.priority)
    == 0)

-- The pool's members. `running` are the workers in the loop of `ThreadRunTask`, `waiting` those in
-- `PauseThreadTask`, `acquiring` how often a caller in `Pause` has still to acquire the semaphore.
pub record ThreadPool : Type 0 where
  pub queue : List TpTask
  pub deleted_threads : List ℕ
  pub threads : List ℕ
  pub total_threads : ℕ
  pub tid : ℕ
  pub paused : Bool
  pub pause_sem : ℕ
  pub running : List ℕ
  pub waiting : List ℕ
  pub acquiring : ℕ

abbrev pub has : List ℕ → ℕ → Bool
has [] t = false
has (s ∷ threads) t = if s == t then true else has threads t

-- The first loop of `AddThreadsToPool`, over the ended threads: which are used again, which are
-- left, and how many threads are still to add. `m_threads.at` throws where there is no such thread.
unfoldable pub reuse_threads : List ℕ → List ℕ → ℕ → Result (List ℕ × List ℕ × ℕ)
reuse_threads threads [] amount = ok ([], [], amount)
reuse_threads threads (t ∷ deleted) zero = ok ([], t ∷ deleted, 0)
reuse_threads threads (t ∷ deleted) (suc amount) =
    let rest = reuse_threads threads deleted amount in
    if has threads t
    then (rest >>= λ (used, left, more). ok (t ∷ used, left, more))
    else throw out_of_range

-- The second loop: new threads, numbered from `tid` on.
abbrev pub new_threads : ℕ → ℕ → List ℕ
new_threads tid zero = []
new_threads tid (suc amount) = tid ∷ new_threads (suc tid) amount

unfoldable pub add_threads_to_pool : ℕ → ThreadPool → Result ThreadPool
unfolding reuse_threads
add_threads_to_pool amount p =
    reuse_threads p.threads p.deleted_threads amount >>= λ (used, left, more). ok (record p {
      deleted_threads = left;
      threads = p.threads ++ new_threads p.tid more;
      tid = p.tid + more;
      running = p.running ++ (used ++ new_threads p.tid more);
    })

-- One task, `amount` times, created when the clock shows `now`.
abbrev pub push_tasks : ℕ → Job → ℕ → ℕ → List TpTask → List TpTask
push_tasks now job priority zero queue = queue
push_tasks now job priority (suc amount) queue =
    push_tasks now job priority amount
      (enqueue (record { task = job; priority = priority; time_created = now }) queue)

unfoldable pub remove_threads_from_pool : ℕ → ℕ → InnerPriority → ThreadPool → ThreadPool
remove_threads_from_pool now amount pr p = record p {
  queue = push_tasks now end_thread (level pr) amount p.queue;
}

-- `AddTask`
unfoldable pub add_task : ℕ → ℕ → Priority → ThreadPool → ThreadPool
add_task now task pr p = record p {
  queue =
      enqueue (record { task = user_task task; priority = level (inner pr); time_created = now })
        p.queue;
}

-- The constructor.
unfoldable pub init : ℕ → Result ThreadPool
unfolding add_threads_to_pool
init n_threads = add_threads_to_pool n_threads (record {
  queue = [];
  deleted_threads = [];
  threads = [];
  total_threads = n_threads;
  tid = 0;
  paused = false;
  pause_sem = 0;
  running = [];
  waiting = [];
  acquiring = 0;
})

unfoldable pub set_num_threads : ℕ → ℕ → ThreadPool → Result ThreadPool
unfolding add_threads_to_pool remove_threads_from_pool
set_num_threads now n_threads p =
    (if ltb p.total_threads n_threads
      then add_threads_to_pool (n_threads - p.total_threads) p
      else ok (remove_threads_from_pool now (p.total_threads - n_threads) critical p))
    >>= λ p'. ok (record p' { total_threads = n_threads })

-- `Pause`, up to the loop that acquires the semaphore.
unfoldable pub pause : ℕ → ThreadPool → ThreadPool
pause now p = record p {
  paused = true;
  queue = push_tasks now pause_thread (level critical) p.total_threads p.queue;
  acquiring = p.acquiring + p.total_threads;
}

-- One `acquire` of a caller in `Pause`; it waits while the semaphore is 0.
unfoldable pub acquire : ThreadPool → Option ThreadPool
acquire p =
    if p.pause_sem == 0
    then none
    else if p.acquiring == 0
    then none
    else some (record p { pause_sem = p.pause_sem - 1; acquiring = p.acquiring - 1 })

-- `Resume`: all waiting workers are woken.
unfoldable pub resume : ThreadPool → ThreadPool
resume p = record p { paused = false; running = p.running ++ p.waiting; waiting = [] }

-- The destructor, before it joins the threads.
unfoldable pub destroy : ℕ → ThreadPool → ThreadPool
unfolding remove_threads_from_pool
destroy now p = remove_threads_from_pool now p.total_threads critical p

-- What worker `t`, at index `i` of the running ones, does with the task that it popped.
unfoldable pub run_task : ℕ → ℕ → Job → ThreadPool → ThreadPool × List ℕ
run_task i t (user_task k) p = (p, k ∷ [])
run_task i t end_thread p =
    (record p { running = without i p.running; deleted_threads = enqueue t p.deleted_threads }, [])
run_task i t pause_thread p = (
  if p.paused
      then record p {
        pause_sem = p.pause_sem + 1;
        running = without i p.running;
        waiting = t ∷ p.waiting;
      }
      else record p { pause_sem = p.pause_sem + 1 },
  [],
)

-- A turn of `ThreadRunTask` of the worker at index `i`: the pool, and the user's tasks that ran.
-- `none`: there is no such worker, or it waits for a task.
unfoldable pub work : ℕ → ThreadPool → Option (ThreadPool × List ℕ)
unfolding run_task pop_greatest
work i p = elim (get_elem? p.running i) [
  | none ↦ none
  | some t ↦ (elim (pop_greatest less p.queue) [
    | none ↦ none
    | some (task, rest) ↦ some (run_task i t task.task (record p { queue = rest }))
  ])
]
