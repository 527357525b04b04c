-- ===== src/Scheduler/Tasks.antt =====
-- What becomes of the tasks that the scheduler of framework/src/scheduler.cpp is given.
use io_tbased_raid.Prelude.{
  ℕ, ◌+◌, ◌-◌, ◌*◌, ◌%◌, ◌^◌, ◌<◌, ◌≡◌, ◌≢◌, refl, sym, ap, subst, ◌∙◌, ◌⊎◌, inl, inr, true, Option,
  none, some, List, [], ◌∷◌, ◌++◌, arith, length, length-append, append_assoc, append-nil,
  get_elem?, length-zero, without, length-without, ◌==◌, Bool-cases, Option-cases,
}
use io_tbased_raid.Prelude.Results.{Exception}
use mathlib.Core.List.{Perm}
use mathlib.Core.List.Perm
use io_tbased_raid.WaitableQueue.{pop_greatest, is_empty}
use io_tbased_raid.WaitableQueue.Greatest.{
  pop_greatest-none, total, total-pop_greatest, Perm-pop_greatest,
}
use io_tbased_raid.Scheduler.{
  Task, less, Scheduler, init, it_value, start_timer, add_task, take_task, finish_task,
}

-- The timer is set to the very time of the task, in a form that `timer_settime` takes.
pub it_value-eq :
    (time : ℕ)
    → ((it_value time).0 * 1000000000 + (it_value time).1 ≡ time) × ((it_value time).1 < 1000000000)
it_value-eq time = (omega arith, omega arith)

-- A task still waits to be run, or none is in the queue.
abbrev pub Live : List Task → Option (ℕ × ℕ) → ℕ → List Task → Type 0
Live queue armed expired running = (queue ≡ []) ⊎ ((armed ≢ none) ⊎ (0 < expired + length running))

-- `added` are the tasks that the scheduler was given, `started` those that it has begun to run.
pub record IsSound (s : Scheduler) (added started : List Task) : Type 0 where
  pub count : s.counter ≡ length s.queue + length s.running
  pub bounded : s.counter < 2 ^ 64
  pub live : Live s.queue s.armed s.expired s.running
  pub conserved : Perm added (started ++ s.queue)

-- The task that a call of `RunTask` takes.
abbrev pub taken : Scheduler → List Task
taken s = elim (pop_greatest less s.queue) [ none ↦ [] | some (task, rest) ↦ task ∷ [] ]

-- What happens to a scheduler whose timer can be set: a task is added, while there are fewer than 2^64 - 1; the timer
-- that is set expires; the thread of an expiration takes a task; a task's run comes to its end.
pub data Reach : Scheduler → List Task → List Task → Type 0 where
  start : Reach init [] []
  adds :
      {s q : Scheduler} {added started : List Task} (now task interval : ℕ)
      → Reach s added started
      → length s.queue + length s.running + 1 < 2 ^ 64
      → add_task true now task interval s ≡ (q, none)
      → Reach q (added ++ (record { task = task; time_to_run = now + interval } ∷ [])) started
  expires :
      {s : Scheduler} {added started : List Task}
      → Reach s added started
      → s.armed ≢ none
      → Reach (record s { armed = none; expired = s.expired + 1 }) added started
  takes :
      {s : Scheduler} {added started : List Task}
      → Reach s added started
      → 0 < s.expired
      → Reach (take_task s) added (started ++ taken s)
  finishes :
      {s q : Scheduler} {added started : List Task} {task : Task} (i : ℕ)
      → Reach s added started
      → get_elem? s.running i ≡ some task
      → finish_task true i s ≡ (q, none)
      → Reach q added started

length-total : (queue : List Task) → total (λ t. 1) queue ≡ length queue
length-total [] = refl
length-total (t ∷ queue) = omega (arith, length-total queue)

is_empty-nil : (queue : List Task) → is_empty queue ≡ true → queue ≡ []
is_empty-nil [] e = refl
is_empty-nil (x ∷ queue) e = cc

start_timer-armed :
    (s : Scheduler)
    → (a : Option (ℕ × ℕ)) × (start_timer true s ≡ (record s { armed = a }, none))
      × ((s.queue ≡ []) ⊎ (a ≢ none))
unfolding start_timer
start_timer-armed s = elim (Option-cases (pop_greatest less s.queue)) [
  | inl e ↦ (s.armed, rw (start_timer, e) refl, inl (pop_greatest-none less s.queue e))
  | inr ((top, rest), e) ↦
      (some (it_value top.time_to_run), rw (start_timer, e) refl, inr (λ h. cc))
]

add_task-IsSound :
    (now task interval : ℕ) (s : Scheduler) (added started : List Task)
    → IsSound s added started
    → length s.queue + length s.running + 1 < 2 ^ 64
    → (q : Scheduler) × (add_task true now task interval s ≡ (q, none))
      × IsSound q (added ++ (record { task = task; time_to_run = now + interval } ∷ [])) started
unfolding add_task
add_task-IsSound now task interval s added started h l =
    let t : Task = record { task = task; time_to_run = now + interval } in
    let s' : Scheduler = record s {
      queue = s.queue ++ (t ∷ []);
      counter = (s.counter + 1) % 2 ^ 64;
    } in
    let (a, e, live) = start_timer-armed s' in
    (
      record s' { armed = a },
      e,
      record {
        count = omega (arith, h.count, length-append s.queue (t ∷ []));
        bounded = omega arith;
        live = elim live [ inl none_left ↦ inl none_left | inr set ↦ inr (inl set) ];
        conserved =
            subst (Perm (added ++ (t ∷ []))) (append_assoc started s.queue (t ∷ []))
              (Perm.append_right (t ∷ []) h.conserved);
      },
    )

take_task-IsSound :
    (s : Scheduler) (added started : List Task)
    → IsSound s added started
    → 0 < s.expired
    → IsSound (take_task s) added (started ++ taken s)
unfolding take_task
take_task-IsSound s added started h l = elim (Option-cases (pop_greatest less s.queue)) [
  | inl e ↦
      rw (take_task, taken, e)
        (record {
          count = h.count;
          bounded = h.bounded;
          live = inl (pop_greatest-none less s.queue e);
          conserved =
              subst (Perm added) (ap (λ l. l ++ s.queue) (sym (append-nil started))) h.conserved;
        })
  | inr ((task, rest), e) ↦
      let out = Perm-pop_greatest less s.queue e in
      rw (take_task, taken, e)
        (record {
          count = omega (
            arith,
            h.count,
            total-pop_greatest less (λ t. 1) s.queue e,
            length-total s.queue,
            length-total rest,
          );
          bounded = h.bounded;
          live = inr (inr (omega arith));
          conserved =
              subst (Perm added) (sym (append_assoc started (task ∷ []) rest))
                (Perm.trans h.conserved (Perm.append_left started out));
        })
]

finish_task-IsSound :
    (i : ℕ) (s : Scheduler) (added started : List Task) {task : Task}
    → IsSound s added started
    → get_elem? s.running i ≡ some task
    → (q : Scheduler) × (finish_task true i s ≡ (q, none)) × IsSound q added started
unfolding finish_task
finish_task-IsSound i s added started h e =
    let n = length-without i s.running e in
    elim (Bool-cases ((s.counter + (2 ^ 64 - 1)) % 2 ^ 64 == 0)) [
      | inl last ↦ (
        record s { counter = (s.counter + (2 ^ 64 - 1)) % 2 ^ 64; running = without i s.running },
        rw (finish_task, last) refl,
        record {
          count = ground (arith, h.count, h.bounded, n);
          bounded = omega arith;
          live = inl (length-zero s.queue (ground (arith, h.count, h.bounded, n)));
          conserved = h.conserved;
        },
      )
      | inr more ↦ elim (Bool-cases (is_empty s.queue)) [
        | inl empty ↦ (
          record s { counter = (s.counter + (2 ^ 64 - 1)) % 2 ^ 64; running = without i s.running },
          rw (finish_task, more, empty) refl,
          record {
            count = ground (arith, h.count, h.bounded, n);
            bounded = omega arith;
            live = inl (is_empty-nil s.queue empty);
            conserved = h.conserved;
          },
        )
        | inr some_left ↦
            let s' : Scheduler = record s {
              counter = (s.counter + (2 ^ 64 - 1)) % 2 ^ 64;
              running = without i s.running;
            } in
            let (a, armed, live) = start_timer-armed s' in
            (
              record s' { armed = a },
              rw (finish_task, more, some_left) armed,
              record {
                count = ground (arith, h.count, h.bounded, n);
                bounded = omega arith;
                live = elim live [ inl none_left ↦ inl none_left | inr set ↦ inr (inl set) ];
                conserved = h.conserved;
              },
            )
      ]
    ]

-- While the timer can be set and there are fewer than 2^64 tasks: whatever tasks are added, and however the timer, the threads that take tasks and those that run them alternate:
-- each task that was added is in the queue still, or has been started, and that once only; the counter has the
-- number of the tasks in the queue and of those that run; and while the queue holds a task, the timer is set, or a
-- thread is on its way to the queue, or a task runs.
pub Reach-IsSound :
    {s : Scheduler} {added started : List Task} → Reach s added started → IsSound s added started
Reach-IsSound start = record {
  count = omega arith;
  bounded = omega arith;
  live = inl refl;
  conserved = Perm.refl [];
}
Reach-IsSound (adds {s} {q} {added} {started} now task interval r l e) =
    let (q', e', h) = add_task-IsSound now task interval s added started (Reach-IsSound r) l in
    subst
      (λ (p : Scheduler × Option Exception).
        IsSound p.0 (added ++ (record { task = task; time_to_run = now + interval } ∷ [])) started)
      (sym e' ∙ e) h
Reach-IsSound (expires r a) =
    let h = Reach-IsSound r in
    record {
      count = h.count;
      bounded = h.bounded;
      live = inr (inr (omega arith));
      conserved = h.conserved;
    }
Reach-IsSound (takes {s} {added} {started} r l) =
    take_task-IsSound s added started (Reach-IsSound r) l
Reach-IsSound (finishes {s} {q} {added} {started} i r g e) =
    let (q', e', h) = finish_task-IsSound i s added started (Reach-IsSound r) g in
    subst (λ (p : Scheduler × Option Exception). IsSound p.0 added started) (sym e' ∙ e) h
