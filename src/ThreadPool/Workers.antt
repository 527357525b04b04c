-- ===== src/ThreadPool/Workers.antt =====
-- How many workers the pool of framework/src/thread_pool.cpp has, over all its operations and turns.
use io_tbased_raid.Prelude.{
  ℕ, zero, suc, ◌+◌, ◌≡◌, refl, ap, subst, inl, inr, true, List, [], ◌∷◌, ◌++◌, arith, length,
  length-append, append_assoc, All, All-append, All-map, ◌==◌, Bool-cases,
}
use io_tbased_raid.Prelude.Results.{ok}
use io_tbased_raid.WaitableQueue.{enqueue}
use io_tbased_raid.WaitableQueue.Greatest.{total}
use io_tbased_raid.ThreadPool.{
  ThreadPool, TpTask, Job, end_thread, pause_thread, has, reuse_threads, new_threads,
  add_threads_to_pool, push_tasks,
}

-- The tasks that end a worker.
abbrev pub ends_worker : Job → ℕ
ends_worker end_thread = 1
ends_worker _ = 0

abbrev pub ends : TpTask → ℕ
ends t = ends_worker t.task

abbrev pub stops : List TpTask → ℕ
stops = total ends

-- Every thread that the pool set going is still a worker or has ended, and each of those that are
-- too many has a task in the queue that will end it. The threads that the map is asked for are there.
pub record IsStaffed (p : ThreadPool) : Type 0 where
  pub staff : length p.running + length p.waiting ≡ p.total_threads + stops p.queue
  pub deleted : All (λ t. has p.threads t ≡ true) p.deleted_threads
  pub busy : All (λ t. has p.threads t ≡ true) p.running
  pub asleep : All (λ t. has p.threads t ≡ true) p.waiting

has-append : (xs ys : List ℕ) (t : ℕ) → has xs t ≡ true → has (xs ++ ys) t ≡ true
has-append [] ys t h = cc
has-append (x ∷ xs) ys t h = elim (Bool-cases (x == t)) [
  | inl e ↦ rw e refl
  | inr e ↦ let h' : has xs t ≡ true = rw e at h in rw e (has-append xs ys t h')
]

has_self : (xs ys : List ℕ) (t : ℕ) → has (xs ++ (t ∷ ys)) t ≡ true
has_self [] ys t = ground arith
has_self (x ∷ xs) ys t = ground (arith, has_self xs ys t)

abbrev pub Known : List ℕ → List ℕ → Type 0
Known threads ts = All (λ t. has threads t ≡ true) ts

Known-append : (threads more ts : List ℕ) → Known threads ts → Known (threads ++ more) ts
Known-append threads more ts h = All-map (λ t e. has-append threads more t e) ts h

Known-new : (threads : List ℕ) (t k : ℕ) → Known (threads ++ new_threads t k) (new_threads t k)
Known-new threads t zero = tt
Known-new threads t (suc k) = (
  has_self threads (new_threads (suc t) k) t,
  subst (λ l. Known l (new_threads (suc t) k))
      (append_assoc threads (t ∷ []) (new_threads (suc t) k))
      (Known-new (threads ++ (t ∷ [])) (suc t) k),
)

length-new_threads : (t k : ℕ) → length (new_threads t k) ≡ k
length-new_threads t zero = refl
length-new_threads t (suc k) = ap suc (length-new_threads (suc t) k)

-- The loop over the ended threads never asks for a thread that is not there.
reuse_threads-ok :
    (threads deleted : List ℕ) (amount : ℕ)
    → Known threads deleted
    → (used left : List ℕ) × (more : ℕ) × (reuse_threads threads deleted amount
        ≡ ok (used, left, more))
      × (length used + more ≡ amount)
      × Known threads used
      × Known threads left
unfolding reuse_threads
reuse_threads-ok threads [] amount h = ([], [], amount, refl, omega arith, tt, tt)
reuse_threads-ok threads (t ∷ deleted) zero h = ([], t ∷ deleted, 0, refl, omega arith, tt, h)
reuse_threads-ok threads (t ∷ deleted) (suc amount) h =
    let (used, left, more, e, n, ku, kl) = reuse_threads-ok threads deleted amount h.1 in
    (t ∷ used, left, more, rw (e, h.0) refl, omega arith, (h.0, ku), kl)

-- Adding threads: the pool has as many workers more.
pub add_threads-staff :
    (amount : ℕ) (p : ThreadPool)
    → Known p.threads p.deleted_threads
    → Known p.threads p.running
    → Known p.threads p.waiting
    → (q : ThreadPool) × (add_threads_to_pool amount p ≡ ok q)
      × (length q.running ≡ length p.running + amount)
      × (q.waiting ≡ p.waiting)
      × (q.queue ≡ p.queue)
      × (q.total_threads ≡ p.total_threads)
      × Known q.threads q.deleted_threads
      × Known q.threads q.running
      × Known q.threads q.waiting
unfolding add_threads_to_pool
add_threads-staff amount p d b a =
    let (used, left, more, e, n, ku, kl) = reuse_threads-ok p.threads p.deleted_threads amount d in
    let new = new_threads p.tid more in
    let there : (ts : List ℕ) → Known p.threads ts → Known (p.threads ++ new) ts =
      Known-append p.threads new in
    (
      record p {
        deleted_threads = left;
        threads = p.threads ++ new;
        tid = p.tid + more;
        running = p.running ++ (used ++ new);
      },
      rw e refl,
      omega (
        arith,
        length-append p.running (used ++ new),
        length-append used new,
        length-new_threads p.tid more,
      ),
      refl,
      refl,
      refl,
      there left kl,
      All-append _ p.running (used ++ new) (there p.running b)
          (All-append _ used new (there used ku) (Known-new p.threads p.tid more)),
      there p.waiting a,
    )

pub stops-enqueue :
    (t : TpTask) (queue : List TpTask) → stops (enqueue t queue) ≡ stops queue + ends t
stops-enqueue t [] = omega arith
stops-enqueue t (x ∷ queue) = omega (arith, stops-enqueue t queue)

pub stops-push_tasks-end :
    (now priority amount : ℕ) (queue : List TpTask)
    → stops (push_tasks now end_thread priority amount queue) ≡ stops queue + amount
stops-push_tasks-end now priority zero queue = omega arith
stops-push_tasks-end now priority (suc k) queue =
    let t : TpTask = record { task = end_thread; priority = priority; time_created = now } in
    omega (arith, stops-push_tasks-end now priority k (enqueue t queue), stops-enqueue t queue)

pub stops-push_tasks-pause :
    (now priority amount : ℕ) (queue : List TpTask)
    → stops (push_tasks now pause_thread priority amount queue) ≡ stops queue
stops-push_tasks-pause now priority zero queue = refl
stops-push_tasks-pause now priority (suc k) queue =
    let t : TpTask = record { task = pause_thread; priority = priority; time_created = now } in
    omega (arith, stops-push_tasks-pause now priority k (enqueue t queue), stops-enqueue t queue)
