-- ===== src/ThreadPool/PauseResume.antt =====
-- `Pause` from its start to its end, and `Resume` behind it (framework/src/thread_pool.cpp).
use io_tbased_raid.Prelude.{
  ℕ, zero, suc, ◌+◌, ◌-◌, ◌<◌, ◌≡◌, refl, ap, ◌∙◌, Option, none, some, List, [], ◌∷◌, arith, length,
  length-append, length-zero, All, All-append,
}
use io_tbased_raid.WaitableQueue.{enqueue}
use io_tbased_raid.WaitableQueue.Greatest.{total}
use io_tbased_raid.ThreadPool.{
  ThreadPool, TpTask, Job, user_task, end_thread, pause_thread, push_tasks, pause, acquire, resume,
}
use io_tbased_raid.ThreadPool.Workers.{ends_worker, stops, IsStaffed}
use io_tbased_raid.ThreadPool.Turns.{Reach, Reach-IsStaffed}
use io_tbased_raid.ThreadPool.Shutdown.{turns}
use io_tbased_raid.ThreadPool.Pausing.{
  pauses_worker, pauses, Timely, IsTimely, IsPausing, turns-IsPausing,
}

-- A task of the user, with one of the priorities that `AddTask` gives.
abbrev pub OfUser : Job → ℕ → Type 0
OfUser (user_task k) priority = priority < 4
OfUser end_thread priority = priority < 0
OfUser pause_thread priority = priority < 0

abbrev pub IsOfUser : TpTask → Type 0
IsOfUser t = OfUser t.task t.priority

of_user :
    (task : Job) (priority : ℕ)
    → OfUser task priority
    → (ends_worker task ≡ 0) × (pauses_worker task ≡ 0) × Timely task priority
of_user (user_task k) priority h = (refl, refl, h)
of_user end_thread priority h = absurd (omega arith)
of_user pause_thread priority h = absurd (omega arith)

All-of_user :
    (queue : List TpTask)
    → All IsOfUser queue
    → (stops queue ≡ 0) × (total pauses queue ≡ 0) × All IsTimely queue
All-of_user [] h = (refl, refl, tt)
All-of_user (t ∷ queue) h =
    let (e, p, timely) = of_user t.task t.priority h.0 in
    let (es, ps, all) = All-of_user queue h.1 in
    (omega (arith, e, es), omega (arith, p, ps), (timely, all))

total-enqueue :
    (t : TpTask) (queue : List TpTask)
    → total pauses (enqueue t queue) ≡ total pauses queue + pauses t
total-enqueue t [] = omega arith
total-enqueue t (x ∷ queue) = omega (arith, total-enqueue t queue)

push_tasks-pauses :
    (now amount : ℕ) (queue : List TpTask)
    → All IsTimely queue
    → (total pauses (push_tasks now pause_thread 4 amount queue) ≡ total pauses queue + amount)
      × All IsTimely (push_tasks now pause_thread 4 amount queue)
push_tasks-pauses now zero queue h = (omega arith, h)
push_tasks-pauses now (suc k) queue h =
    let t : TpTask = record { task = pause_thread; priority = 4; time_created = now } in
    let (e, all) =
      push_tasks-pauses now k (enqueue t queue) (All-append _ queue (t ∷ []) h (refl, tt)) in
    (omega (arith, e, total-enqueue t queue), all)

-- The loop of `Pause`: so many calls of `acquire`, if none of them waits.
abbrev pub acquire_all : ℕ → ThreadPool → Option ThreadPool
acquire_all zero p = some p
acquire_all (suc n) p = elim (acquire p) [ none ↦ none | some q ↦ acquire_all n q ]

acquire-ok :
    (p : ThreadPool)
    → 0 < p.pause_sem
    → 0 < p.acquiring
    → acquire p ≡ some (record p { pause_sem = p.pause_sem - 1; acquiring = p.acquiring - 1 })
unfolding acquire
acquire-ok p s a = ground arith

acquire_all-ok :
    (n : ℕ) (p : ThreadPool)
    → p.pause_sem ≡ n
    → p.acquiring ≡ n
    → (q : ThreadPool) × (acquire_all n p ≡ some q)
      × (q.acquiring ≡ 0)
      × (q.running ≡ p.running)
      × (q.waiting ≡ p.waiting)
acquire_all-ok zero p s a = (p, refl, a, refl, refl)
acquire_all-ok (suc n) p s a =
    let p' = record p { pause_sem = p.pause_sem - 1; acquiring = p.acquiring - 1 } in
    let (q, e, done, running, waiting) =
      acquire_all-ok n p' (omega (arith, s)) (omega (arith, a)) in
    (
      q,
      rw (acquire_all, acquire-ok p (omega (arith, s)) (omega (arith, a))) e,
      done,
      running,
      waiting,
    )

pause-IsPausing :
    (now : ℕ) (p : ThreadPool)
    → IsStaffed p
    → p.waiting ≡ []
    → All IsOfUser p.queue
    → p.pause_sem ≡ 0
    → p.acquiring ≡ 0
    → IsPausing p.total_threads 0 (pause now p)
unfolding pause
pause-IsPausing now p h w users s a =
    let (none_ends, none_pauses, timely) = All-of_user p.queue users in
    let (count, all) = push_tasks-pauses now p.total_threads p.queue timely in
    record {
      every = omega (arith, h.staff, ap length w, none_ends, none_pauses, count);
      sum = omega (arith, h.staff, ap length w, none_ends);
      asleep = ap length w;
      released = s;
      left = omega (arith, a);
      on = refl;
      timely = all;
    }

-- `Pause` of a pool where nothing but tasks of the user, with their priorities, is in the queue,
-- no worker waits and no pause is under way: after as many turns as there are workers, whichever
-- worker that is there takes each of them, all of them wait and no task of the user has run;
-- `Pause` then acquires the semaphore as often as it has to without waiting; and `Resume` makes
-- them all workers again.
pub pause-resume :
    (pick : ThreadPool → ℕ)
    → ((p : ThreadPool) → 0 < length p.running → pick p < length p.running)
    → (now n : ℕ) {p : ThreadPool} → Reach n p
    → p.waiting ≡ []
    → All IsOfUser p.queue
    → p.pause_sem ≡ 0
    → p.acquiring ≡ 0
    → (q r : ThreadPool) × (turns pick p.total_threads (pause now p) ≡ some (q, []))
      × (acquire_all p.total_threads q ≡ some r)
      × (r.acquiring ≡ 0)
      × (r.running ≡ [])
      × (length (resume r).running ≡ p.total_threads)
unfolding resume
pause-resume pick there now n {p} reach w users s a =
    let start = pause-IsPausing now p (Reach-IsStaffed n reach) w users s a in
    let (q, t, h) =
      turns-IsPausing pick there p.total_threads p.total_threads 0 (pause now p) start
        (omega arith) in
    let (r, e, done, running, waiting) = acquire_all-ok p.total_threads q h.released h.left in
    (
      q,
      r,
      t,
      e,
      done,
      running ∙ length-zero q.running (omega (arith, h.sum)),
      omega (
        arith,
        length-append r.running r.waiting,
        ap length running,
        ap length waiting,
        h.sum,
        h.asleep,
      ),
    )
