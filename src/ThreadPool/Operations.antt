-- ===== src/ThreadPool/Operations.antt =====
-- How many workers the pool has after each operation of framework/src/thread_pool.cpp.
use io_tbased_raid.Prelude.{
  ℕ, ◌-◌, ◌≡◌, refl, ap, subst, inl, inr, false, none, some, [], arith, length, length-append,
  All-append, ltb, ◌==◌, Bool-cases,
}
use io_tbased_raid.Prelude.Results.{ok}
use io_tbased_raid.ThreadPool.{
  ThreadPool, TpTask, user_task, end_thread, Priority, inner, critical, level, push_tasks,
  remove_threads_from_pool, add_task, init, set_num_threads, pause, acquire, resume,
}
use io_tbased_raid.ThreadPool.Workers.{
  stops, IsStaffed, add_threads-staff, stops-enqueue, stops-push_tasks-end, stops-push_tasks-pause,
}

pub init-IsStaffed : (n : ℕ) → (p : ThreadPool) × (init n ≡ ok p) × IsStaffed p
unfolding init
init-IsStaffed n =
    let p : ThreadPool = record {
      queue = [];
      deleted_threads = [];
      threads = [];
      total_threads = n;
      tid = 0;
      paused = false;
      pause_sem = 0;
      running = [];
      waiting = [];
      acquiring = 0;
    } in
    let (q, e, l, w, queue, n', d, b, a) = add_threads-staff n p tt tt tt in
    (
      q,
      e,
      record {
        staff = omega (arith, ap length w, ap stops queue);
        deleted = d;
        busy = b;
        asleep = a;
      },
    )

pub add_task-IsStaffed :
    (now task : ℕ) (pr : Priority) (p : ThreadPool)
    → IsStaffed p
    → IsStaffed (add_task now task pr p)
unfolding add_task
add_task-IsStaffed now task pr p h =
    let t : TpTask = record {
      task = user_task task;
      priority = level (inner pr);
      time_created = now;
    } in
    record {
      staff = omega (arith, h.staff, stops-enqueue t p.queue);
      deleted = h.deleted;
      busy = h.busy;
      asleep = h.asleep;
    }

-- `SetNumThreads` does not throw.
pub set_num_threads-IsStaffed :
    (now n : ℕ) (p : ThreadPool)
    → IsStaffed p
    → (q : ThreadPool) × (set_num_threads now n p ≡ ok q) × IsStaffed q
unfolding set_num_threads remove_threads_from_pool
set_num_threads-IsStaffed now n p h = elim (Bool-cases (ltb p.total_threads n)) [
  | inl e ↦
      let (q, e', l, w, queue, n', d, b, a) =
        add_threads-staff (n - p.total_threads) p h.deleted h.busy h.asleep in
      (
        record q { total_threads = n },
        rw (e, e') refl,
        record {
          staff = ground (arith, h.staff, ap length w, ap stops queue);
          deleted = d;
          busy = b;
          asleep = a;
        },
      )
  | inr e ↦ (
    record p {
      queue = push_tasks now end_thread (level critical) (p.total_threads - n) p.queue;
      total_threads = n;
    },
    rw e refl,
    record {
      staff = ground (arith, h.staff, stops-push_tasks-end now 4 (p.total_threads - n) p.queue);
      deleted = h.deleted;
      busy = h.busy;
      asleep = h.asleep;
    },
  )
]

pub pause-IsStaffed : (now : ℕ) (p : ThreadPool) → IsStaffed p → IsStaffed (pause now p)
unfolding pause
pause-IsStaffed now p h = record {
  staff = omega (arith, h.staff, stops-push_tasks-pause now 4 p.total_threads p.queue);
  deleted = h.deleted;
  busy = h.busy;
  asleep = h.asleep;
}

pub acquire-IsStaffed :
    (p : ThreadPool) {q : ThreadPool} → IsStaffed p → acquire p ≡ some q → IsStaffed q
unfolding acquire
acquire-IsStaffed p {q} h e = elim (Bool-cases (p.pause_sem == 0)) [
  | inl z ↦ let e' : none ≡ some q = rw z at e in cc
  | inr z ↦ elim (Bool-cases (p.acquiring == 0)) [
    | inl y ↦ let e' : none ≡ some q = rw (z, y) at e in cc
    | inr y ↦
        let e' : some (record p { pause_sem = p.pause_sem - 1; acquiring = p.acquiring - 1 })
            ≡ some q =
          rw (z, y) at e in
        let eq : record p { pause_sem = p.pause_sem - 1; acquiring = p.acquiring - 1 } ≡ q = cc in
        subst IsStaffed eq
          (record { staff = h.staff; deleted = h.deleted; busy = h.busy; asleep = h.asleep })
  ]
]

pub resume-IsStaffed : (p : ThreadPool) → IsStaffed p → IsStaffed (resume p)
unfolding resume
resume-IsStaffed p h = record {
  staff = omega (arith, h.staff, length-append p.running p.waiting);
  deleted = h.deleted;
  busy = All-append _ p.running p.waiting h.busy h.asleep;
  asleep = tt;
}
