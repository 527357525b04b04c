-- ===== src/ThreadPool/Turns.antt =====
-- The turns of the pool's workers (framework/src/thread_pool.cpp), in any order, among its operations.
use io_tbased_raid.Prelude.{
  ℕ, zero, suc, ◌+◌, ◌≡◌, sym, subst, ◌∙◌, inl, inr, true, Option, none, some, List, [], ◌∷◌, arith,
  length, get_elem?, without, length-without, All-append, Bool-cases, Option-cases,
}
use io_tbased_raid.Prelude.Results.{ok, ok_injective}
use io_tbased_raid.WaitableQueue.{pop_greatest}
use io_tbased_raid.WaitableQueue.Greatest.{total-pop_greatest}
use io_tbased_raid.ThreadPool.{
  ThreadPool, Job, user_task, end_thread, pause_thread, Priority, less, has, add_task, init,
  set_num_threads, pause, acquire, resume, run_task, work,
}
use io_tbased_raid.ThreadPool.Workers.{ends, ends_worker, stops, Known, IsStaffed}
use io_tbased_raid.ThreadPool.Operations.{
  init-IsStaffed, add_task-IsStaffed, set_num_threads-IsStaffed, pause-IsStaffed, acquire-IsStaffed,
  resume-IsStaffed,
}

Known-without :
    (threads : List ℕ) (i : ℕ) (ts : List ℕ) {t : ℕ}
    → get_elem? ts i ≡ some t
    → Known threads ts
    → (has threads t ≡ true) × Known threads (without i ts)
Known-without threads i [] e h = cc
Known-without threads zero (s ∷ ts) {t} e h =
    let eq : s ≡ t = cc in (subst (λ x. has threads x ≡ true) eq h.0, h.1)
Known-without threads (suc i) (s ∷ ts) e h =
    let (here, rest) = Known-without threads i ts e h.1 in (here, (h.0, rest))

-- What a worker does with a task that is out of the queue.
run_task-IsStaffed :
    (i t : ℕ) (task : Job) (p : ThreadPool)
    → get_elem? p.running i ≡ some t
    → length p.running + length p.waiting ≡ p.total_threads + (ends_worker task + stops p.queue)
    → Known p.threads p.deleted_threads
    → Known p.threads p.running
    → Known p.threads p.waiting
    → IsStaffed (run_task i t task p).0
unfolding run_task
run_task-IsStaffed i t (user_task k) p e staff d b a = record {
  staff = omega (arith, staff);
  deleted = d;
  busy = b;
  asleep = a;
}
run_task-IsStaffed i t end_thread p e staff d b a =
    let (here, rest) = Known-without p.threads i p.running e b in
    record {
      staff = omega (arith, staff, length-without i p.running e);
      deleted = All-append _ p.deleted_threads (t ∷ []) d (here, tt);
      busy = rest;
      asleep = a;
    }
run_task-IsStaffed i t pause_thread p e staff d b a = elim (Bool-cases p.paused) [
  | inl paused ↦
      let (here, rest) = Known-without p.threads i p.running e b in
      rw paused (record {
        staff = omega (arith, staff, length-without i p.running e);
        deleted = d;
        busy = rest;
        asleep = (here, a);
      })
  | inr paused ↦
      rw paused (record { staff = omega (arith, staff); deleted = d; busy = b; asleep = a })
]

pub work-IsStaffed :
    (i : ℕ) (p : ThreadPool) {q : ThreadPool} {ran : List ℕ}
    → IsStaffed p
    → work i p ≡ some (q, ran)
    → IsStaffed q
unfolding work
work-IsStaffed i p {q} {ran} h e = elim (Option-cases (get_elem? p.running i)) [
  | inl z ↦
      let e' : Path (Option (ThreadPool × List ℕ)) none (some (q, ran)) = rw (work, z) at e in cc
  | inr (t, z) ↦ elim (Option-cases (pop_greatest less p.queue)) [
    | inl y ↦
        let e' : Path (Option (ThreadPool × List ℕ)) none (some (q, ran)) = rw (work, z, y) at e in
        cc
    | inr ((task, rest), y) ↦
        let e' : some (run_task i t task.task (record p { queue = rest })) ≡ some (q, ran) =
          rw (work, z, y) at e in
        let eq : run_task i t task.task (record p { queue = rest }) ≡ (q, ran) = cc in
        subst (λ r. IsStaffed r.0) eq
          (run_task-IsStaffed i t task.task (record p { queue = rest }) z
            (omega (arith, h.staff, total-pop_greatest less ends p.queue y)) h.deleted h.busy
            h.asleep)
  ]
]

-- What happens to a pool: a call of one of its operations, or a worker's turn.
pub data Step : ThreadPool → ThreadPool → Type 0 where
  adds : (now task : ℕ) (pr : Priority) (p : ThreadPool) → Step p (add_task now task pr p)
  sets : (now n : ℕ) (p : ThreadPool) {q : ThreadPool} → set_num_threads now n p ≡ ok q → Step p q
  pauses : (now : ℕ) (p : ThreadPool) → Step p (pause now p)
  acquires : (p : ThreadPool) {q : ThreadPool} → acquire p ≡ some q → Step p q
  resumes : (p : ThreadPool) → Step p (resume p)
  works :
      (i : ℕ) (p : ThreadPool) {q : ThreadPool} {ran : List ℕ} → work i p ≡ some (q, ran) → Step p q

-- The pools that one of `n` workers comes to.
pub data Reach (n : ℕ) : ThreadPool → Type 0 where
  start : {p : ThreadPool} → init n ≡ ok p → Reach n p
  step : {p q : ThreadPool} → Reach n p → Step p q → Reach n q

Step-IsStaffed : {p q : ThreadPool} → Step p q → IsStaffed p → IsStaffed q
Step-IsStaffed (adds now task pr p) h = add_task-IsStaffed now task pr p h
Step-IsStaffed (sets now n p e) h =
    let (q, e', h') = set_num_threads-IsStaffed now n p h in
    subst IsStaffed (ok_injective (sym e' ∙ e)) h'
Step-IsStaffed (pauses now p) h = pause-IsStaffed now p h
Step-IsStaffed (acquires p e) h = acquire-IsStaffed p h e
Step-IsStaffed (resumes p) h = resume-IsStaffed p h
Step-IsStaffed (works i p e) h = work-IsStaffed i p h e

-- At every moment of a pool's life, whatever is asked of it and in whatever order its workers take
-- their turns, it has as many workers as were asked for last and one more for each task in the
-- queue that will end one. Every worker, and every ended thread, is in the map of threads.
pub Reach-IsStaffed : (n : ℕ) {p : ThreadPool} → Reach n p → IsStaffed p
Reach-IsStaffed n (start e) =
    let (q, e', h) = init-IsStaffed n in subst IsStaffed (ok_injective (sym e' ∙ e)) h
Reach-IsStaffed n (step r s) = Step-IsStaffed s (Reach-IsStaffed n r)
