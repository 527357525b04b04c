-- ===== src/ThreadPool/Pausing.antt =====
-- `Pause` and `Resume` of framework/src/thread_pool.cpp, with the turns of the workers in between.
use io_tbased_raid.Prelude.{
  ℕ, zero, suc, ◌+◌, ◌≤◌, ◌<◌, ◌≡◌, refl, subst, true, some, List, [], ◌∷◌, arith, length, without,
  length-without, get_elem?, get_elem?-of_lt, All,
}
use io_tbased_raid.WaitableQueue.{pop_greatest}
use io_tbased_raid.WaitableQueue.Greatest.{All-pop_greatest, total, total-pop_greatest}
use io_tbased_raid.ThreadPool.{
  ThreadPool, TpTask, Job, user_task, end_thread, pause_thread, less, run_task, work,
}
use io_tbased_raid.ThreadPool.Order.{IsNewest, pop_greatest-IsNewest}
use io_tbased_raid.ThreadPool.Shutdown.{turns}

-- The tasks that pause a worker.
abbrev pub pauses_worker : Job → ℕ
pauses_worker pause_thread = 1
pauses_worker _ = 0

abbrev pub pauses : TpTask → ℕ
pauses t = pauses_worker t.task

-- A task of the user, or one that pauses, with the priority that the pool gives it.
abbrev pub Timely : Job → ℕ → Type 0
Timely (user_task k) priority = priority < 4
Timely pause_thread priority = priority ≡ 4
Timely end_thread priority = priority < 0

abbrev pub IsTimely : TpTask → Type 0
IsTimely t = Timely t.task t.priority

-- As many tasks that pause a worker as there are workers; `done` workers wait already, out of `all`.
pub record IsPausing (all done : ℕ) (p : ThreadPool) : Type 0 where
  pub every : length p.running ≡ total pauses p.queue
  pub sum : length p.running + done ≡ all
  pub asleep : length p.waiting ≡ done
  pub released : p.pause_sem ≡ done
  pub left : p.acquiring ≡ all
  pub on : p.paused ≡ true
  pub timely : All IsTimely p.queue

pauses-low :
    (task : Job) (priority : ℕ) → Timely task priority → priority < 4 → pauses_worker task ≡ 0
pauses-low (user_task k) priority g l = refl
pauses-low pause_thread priority g l = absurd (omega arith)
pauses-low end_thread priority g l = refl

total-low :
    (m : TpTask) (rest : List TpTask)
    → m.priority < 4
    → All IsTimely rest
    → IsNewest m rest
    → total pauses rest ≡ 0
total-low m [] l g n = refl
total-low m (u ∷ rest) l g n =
    let here : u.priority ≤ m.priority = n.0.0 in
    omega (arith, pauses-low u.task u.priority g.0 (omega arith), total-low m rest l g.1 n.1)

popped :
    (queue : List TpTask)
    → 0 < total pauses queue
    → (m : TpTask) × (rest : List TpTask) × (pop_greatest less queue ≡ some (m, rest))
      × IsNewest m rest
popped [] l = absurd (omega arith)
popped (t ∷ queue) l = let (m, rest, e, n, perm) = pop_greatest-IsNewest t queue in (m, rest, e, n)

-- What runs while a worker is still to pause is its pause.
run_task-IsPausing :
    (i t : ℕ) (task : Job) (priority all done : ℕ) (p : ThreadPool)
    → get_elem? p.running i ≡ some t
    → Timely task priority
    → (priority < 4 → total pauses p.queue ≡ 0)
    → length p.running ≡ pauses_worker task + total pauses p.queue
    → length p.running + done ≡ all
    → length p.waiting ≡ done
    → p.pause_sem ≡ done
    → p.acquiring ≡ all
    → p.paused ≡ true
    → All IsTimely p.queue
    → (q : ThreadPool) × (run_task i t task p ≡ (q, [])) × IsPausing all (done + 1) q
unfolding run_task
run_task-IsPausing i t (user_task k) priority all done p e g low n s w r a on gs =
    absurd (omega (arith, low g, length-without i p.running e))
run_task-IsPausing i t end_thread priority all done p e g low n s w r a on gs = absurd (omega arith)
run_task-IsPausing i t pause_thread priority all done p e g low n s w r a on gs =
    let shorter = length-without i p.running e in
    (
      record p {
        pause_sem = p.pause_sem + 1;
        running = without i p.running;
        waiting = t ∷ p.waiting;
      },
      rw (run_task, on) refl,
      record {
        every = omega (arith, n, shorter);
        sum = omega (arith, s, shorter);
        asleep = omega (arith, w);
        released = omega (arith, r);
        left = a;
        on = on;
        timely = gs;
      },
    )

work-IsPausing :
    (i all done : ℕ) (p : ThreadPool)
    → IsPausing all done p
    → i < length p.running
    → (q : ThreadPool) × (work i p ≡ some (q, [])) × IsPausing all (done + 1) q
unfolding work
work-IsPausing i all done p h l =
    let (t, here) = get_elem?-of_lt p.running i l in
    let (m, rest, e, newest) = popped p.queue (omega (arith, h.every)) in
    let (gm, gs) = All-pop_greatest less IsTimely p.queue e h.timely in
    let (q, r, d) =
      run_task-IsPausing i t m.task m.priority all done (record p { queue = rest }) here gm
        (λ low. total-low m rest low gs newest)
        (omega (arith, h.every, total-pop_greatest less pauses p.queue e)) h.sum h.asleep h.released
        h.left h.on gs in
    (q, rw (work, here, e, r) refl, d)

pub turns-IsPausing :
    (pick : ThreadPool → ℕ)
    → ((p : ThreadPool) → 0 < length p.running → pick p < length p.running)
    → (n all done : ℕ) (p : ThreadPool) → IsPausing all done p
    → n + done ≡ all
    → (q : ThreadPool) × (turns pick n p ≡ some (q, [])) × IsPausing all all q
turns-IsPausing pick there zero all done p h e =
    (p, refl, subst (λ d. IsPausing all d p) (omega arith) h)
turns-IsPausing pick there (suc n) all done p h e =
    let (q, w, d) = work-IsPausing (pick p) all done p h (there p (omega (arith, h.sum, e))) in
    let (r, t, last) = turns-IsPausing pick there n all (done + 1) q d (omega (arith, e)) in
    (r, rw (turns, w, t) refl, last)
