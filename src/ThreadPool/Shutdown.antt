-- ===== src/ThreadPool/Shutdown.antt =====
-- The end of a pool (framework/src/thread_pool.cpp): the destructor's tasks, and the turns that follow.
use io_tbased_raid.Prelude.{
  ℕ, zero, suc, ◌+◌, ◌≤◌, ◌<◌, ◌≡◌, refl, ap, Option, none, some, List, [], ◌∷◌, ◌++◌, arith,
  length, length-zero, without, length-without, get_elem?, get_elem?-of_lt, All, All-append,
}
use mathlib.Core.Option
use io_tbased_raid.WaitableQueue.{enqueue, pop_greatest}
use io_tbased_raid.WaitableQueue.Greatest.{All-pop_greatest, total-pop_greatest}
use io_tbased_raid.ThreadPool.{
  ThreadPool, TpTask, Job, user_task, end_thread, pause_thread, less, push_tasks,
  remove_threads_from_pool, destroy, run_task, work,
}
use io_tbased_raid.ThreadPool.Order.{IsNewest, pop_greatest-IsNewest}
use io_tbased_raid.ThreadPool.Workers.{ends, ends_worker, stops, stops-push_tasks-end, IsStaffed}
use io_tbased_raid.ThreadPool.Turns.{Reach, Reach-IsStaffed}

-- The priority is the one that the pool gives to a task of this kind. There are none that pause.
abbrev pub Graded : Job → ℕ → Type 0
Graded (user_task k) priority = priority < 4
Graded end_thread priority = priority ≡ 4
Graded pause_thread priority = priority < 0

abbrev pub IsGraded : TpTask → Type 0
IsGraded t = Graded t.task t.priority

-- As many tasks that end a worker as there are workers, and no worker waits in a pause.
pub record IsDraining (p : ThreadPool) : Type 0 where
  pub every : length p.running ≡ stops p.queue
  pub awake : p.waiting ≡ []
  pub graded : All IsGraded p.queue

IsGraded-push_tasks :
    (now amount : ℕ) (queue : List TpTask)
    → All IsGraded queue
    → All IsGraded (push_tasks now end_thread 4 amount queue)
IsGraded-push_tasks now zero queue h = h
IsGraded-push_tasks now (suc k) queue h =
    let t : TpTask = record { task = end_thread; priority = 4; time_created = now } in
    IsGraded-push_tasks now k (enqueue t queue) (All-append _ queue (t ∷ []) h (refl, tt))

length-destroy : (now : ℕ) (p : ThreadPool) → length (destroy now p).running ≡ length p.running
unfolding destroy remove_threads_from_pool
length-destroy now p = refl

destroy-IsDraining :
    (now : ℕ) (p : ThreadPool)
    → IsStaffed p
    → p.waiting ≡ []
    → All IsGraded p.queue
    → IsDraining (destroy now p)
unfolding destroy remove_threads_from_pool
destroy-IsDraining now p h w g = record {
  every = omega (arith, h.staff, ap length w, stops-push_tasks-end now 4 p.total_threads p.queue);
  awake = w;
  graded = IsGraded-push_tasks now p.total_threads p.queue g;
}

popped :
    (queue : List TpTask)
    → 0 < stops queue
    → (m : TpTask) × (rest : List TpTask) × (pop_greatest less queue ≡ some (m, rest))
      × IsNewest m rest
popped [] l = absurd (omega arith)
popped (t ∷ queue) l = let (m, rest, e, n, perm) = pop_greatest-IsNewest t queue in (m, rest, e, n)

ends-low : (task : Job) (priority : ℕ) → Graded task priority → priority < 4 → ends_worker task ≡ 0
ends-low (user_task k) priority g l = refl
ends-low end_thread priority g l = absurd (omega arith)
ends-low pause_thread priority g l = refl

stops-low :
    (m : TpTask) (rest : List TpTask)
    → m.priority < 4
    → All IsGraded rest
    → IsNewest m rest
    → stops rest ≡ 0
stops-low m [] l g n = refl
stops-low m (u ∷ rest) l g n =
    let here : u.priority ≤ m.priority = n.0.0 in
    omega (arith, ends-low u.task u.priority g.0 (omega arith), stops-low m rest l g.1 n.1)

-- What runs while a worker is still to end, at index `i`, is the end of that worker.
run_task-IsDraining :
    (i t : ℕ) (task : Job) (priority : ℕ) (p : ThreadPool)
    → get_elem? p.running i ≡ some t
    → length p.running ≡ ends_worker task + stops p.queue
    → Graded task priority
    → (priority < 4 → stops p.queue ≡ 0)
    → p.waiting ≡ []
    → All IsGraded p.queue
    → (q : ThreadPool) × (run_task i t task p ≡ (q, []))
      × IsDraining q
      × (suc (length q.running) ≡ length p.running)
unfolding run_task
run_task-IsDraining i t (user_task k) priority p e n g low w gs =
    absurd (omega (arith, low g, length-without i p.running e))
run_task-IsDraining i t pause_thread priority p e n g low w gs = absurd (omega arith)
run_task-IsDraining i t end_thread priority p e n g low w gs =
    let shorter = length-without i p.running e in
    (
      record p { running = without i p.running; deleted_threads = enqueue t p.deleted_threads },
      refl,
      record { every = omega (arith, n, shorter); awake = w; graded = gs },
      shorter,
    )

-- One turn while the pool ends: a worker ends, and no task of the user runs.
work-IsDraining :
    (i : ℕ) (p : ThreadPool)
    → IsDraining p
    → i < length p.running
    → (q : ThreadPool) × (work i p ≡ some (q, []))
      × IsDraining q
      × (suc (length q.running) ≡ length p.running)
unfolding work
work-IsDraining i p h l =
    let (t, here) = get_elem?-of_lt p.running i l in
    let (m, rest, e, newest) = popped p.queue (omega (arith, h.every)) in
    let (gm, gs) = All-pop_greatest less IsGraded p.queue e h.graded in
    let (q, r, d, n) =
      run_task-IsDraining i t m.task m.priority (record p { queue = rest }) here
        (omega (arith, h.every, total-pop_greatest less ends p.queue e)) gm
        (λ low. stops-low m rest low gs newest) h.awake gs in
    (q, rw (work, here, e, r) refl, d, n)

-- `n` turns, each of the worker that `pick` names, and the user's tasks that run in them.
abbrev pub turns : (ThreadPool → ℕ) → ℕ → ThreadPool → Option (ThreadPool × List ℕ)
turns pick zero p = some (p, [])
turns pick (suc n) p = elim (work (pick p) p) [
  | none ↦ none
  | some (q, ran) ↦ Option.map (λ (r, more). (r, ran ++ more)) (turns pick n q)
]

turns-IsDraining :
    (pick : ThreadPool → ℕ)
    → ((p : ThreadPool) → 0 < length p.running → pick p < length p.running)
    → (n : ℕ) (p : ThreadPool) → IsDraining p
    → length p.running ≡ n
    → (q : ThreadPool) × (turns pick n p ≡ some (q, [])) × (q.running ≡ []) × (q.waiting ≡ [])
turns-IsDraining pick there zero p h e = (p, refl, length-zero p.running e, h.awake)
turns-IsDraining pick there (suc n) p h e =
    let (q, w, d, l) = work-IsDraining (pick p) p h (there p (omega (arith, e))) in
    let (r, t, done, awake) = turns-IsDraining pick there n q d (omega (arith, l, e)) in
    (r, rw (turns, w, t) refl, done, awake)

-- For a choice of the worker that always names one that is there: once the destructor has added
-- its tasks, a pool of which no worker waits in a pause, and whose queue holds none that pauses
-- and every task with a priority of its kind, ends in as many turns as it has workers, whichever
-- worker takes each of them: none waits for a task before that, no task of the user runs, and no
-- worker is left.
pub turns-destroy :
    (pick : ThreadPool → ℕ)
    → ((p : ThreadPool) → 0 < length p.running → pick p < length p.running)
    → (now n : ℕ) {p : ThreadPool} → Reach n p
    → p.waiting ≡ []
    → All IsGraded p.queue
    → (q : ThreadPool) × (turns pick (length p.running) (destroy now p) ≡ some (q, []))
      × (q.running ≡ [])
      × (q.waiting ≡ [])
turns-destroy pick there now n {p} r w g =
    turns-IsDraining pick there (length p.running) (destroy now p)
      (destroy-IsDraining now p (Reach-IsStaffed n r) w g) (length-destroy now p)
