-- ===== src/Reactor/Framework.antt =====
-- framework/include/Framework.hpp and framework/src/Framework.cpp: the functions that the framework registers with its
-- reactor, and what a round of the reactor does to the pool and the log. What `GetTaskArgs` of the callbacks gives is an
-- argument; a task's arguments are known by a number.
use io_tbased_raid.Prelude.{
  ℕ, ◌≡◌, sym, ap, ap₂, ◌∙◌, Option, none, some, List, [], ◌∷◌, ◌++◌, append_assoc, append-nil, map,
}
use io_tbased_raid.Prelude.Results.{Result, ok, ◌>>=◌}
use io_tbased_raid.ThreadPool.{ThreadPool, TpTask, user_task, low, add_task}
use io_tbased_raid.Logger.{Logger, Message, warning, log}
use io_tbased_raid.Reactor.{Mode, find, register, Reactor, Handler, Select, call_all, listen, round}

-- The pool and the logger that the functions use.
pub record Services : Type 0 where
  pub pool : ThreadPool
  pub logger : Logger

-- What the callbacks answer.
abbrev pub TaskArgs : Type 0
TaskArgs = ℕ → ℕ → Mode → Result (Option ℕ)

-- "Framework: failed to get task args"
abbrev pub failed_text : List ℕ
failed_text =
    70 ∷ 114 ∷ 97 ∷ 109 ∷ 101 ∷ 119 ∷ 111 ∷ 114 ∷ 107 ∷ 58 ∷ 32 ∷ 102 ∷ 97 ∷ 105 ∷ 108 ∷ 101 ∷ 100
    ∷ 32 ∷ 116 ∷ 111 ∷ 32 ∷ 103 ∷ 101 ∷ 116 ∷ 32 ∷ 116 ∷ 97 ∷ 115 ∷ 107 ∷ 32 ∷ 97 ∷ 114 ∷ 103 ∷ 115
    ∷ []

module _ (now : ℕ) where
  -- What the function does with the arguments: without any a warning is logged, else a task goes to the pool, with the
  -- default priority.
  abbrev pub dispatch : Option ℕ → Services → Services
  dispatch none w = record w { logger = log now failed_text warning w.logger }
  dispatch (some args) w = record w { pool = add_task now args low w.pool }

  -- The function that the constructor registers for each descriptor.
  unfoldable pub on_ready : TaskArgs → Handler Services
  on_ready get_task_args callback fd mode r w =
      get_task_args callback fd mode >>= λ args. ok (r, dispatch args w)

-- The constructor's loop over the descriptors and callbacks.
unfoldable pub register_all : List (ℕ × Mode × ℕ) → Reactor → Reactor
unfolding register
register_all [] r = r
register_all ((fd, mode, callback) ∷ callbacks) r =
    register_all callbacks (register fd mode callback r)

-- The answers to the pairs, each with its callback, if none throws.
abbrev pub Answered : TaskArgs → Reactor → List (ℕ × Mode) → List (Option ℕ) → Type 0
Answered get_task_args r [] [] = Unit
Answered get_task_args r ((fd, mode) ∷ pairs) (args ∷ answers) =
    ((callback : ℕ) × (find (fd, mode) r.listen_funcs ≡ some callback)
      × (get_task_args callback fd mode ≡ ok args))
    × Answered get_task_args r pairs answers
Answered get_task_args r _ _ = ⊥

abbrev pub tasks : ℕ → List (Option ℕ) → List TpTask
tasks now [] = []
tasks now (none ∷ answers) = tasks now answers
tasks now (some args ∷ answers) =
    record { task = user_task args; priority = 1; time_created = now } ∷ tasks now answers

abbrev pub warnings : ℕ → List (Option ℕ) → List Message
warnings now [] = []
warnings now (none ∷ answers) =
    record { time_created = now; text = failed_text; sev = warning } ∷ warnings now answers
warnings now (some args ∷ answers) = warnings now answers

-- The services with that queue of the pool and that queue of the logger.
abbrev queues : Services → List TpTask → List Message → Services
queues w pool logger = record {
  pool = record w.pool { queue = pool };
  logger = record w.logger { queue = logger };
}

module _ (now : ℕ) where
  answered :
      (args : Option ℕ) (answers : List (Option ℕ)) (w : Services)
      → (let w' = dispatch now args w in
          queues w' (w'.pool.queue ++ tasks now answers) (w'.logger.queue ++ warnings now answers))
        ≡ queues w
            (w.pool.queue ++ tasks now (args ∷ answers))
            (w.logger.queue ++ warnings now (args ∷ answers))
  unfolding add_task log
  answered none answers w = ap (queues w (w.pool.queue ++ tasks now answers)) (
      append_assoc w.logger.queue
        (record { time_created = now; text = failed_text; sev = warning } ∷ [])
        (warnings now answers))
  answered (some args) answers w =
      ap (λ q. queues w q (w.logger.queue ++ warnings now answers))
        (append_assoc w.pool.queue
          (record { task = user_task args; priority = 1; time_created = now } ∷ [])
          (tasks now answers))

module _ (get_task_args : TaskArgs) (now : ℕ) (select : Select) where
  call_all-dispatch :
      (pairs : List (ℕ × Mode)) (answers : List (Option ℕ)) (r : Reactor) (w : Services)
      → Answered get_task_args r pairs answers
      → call_all (on_ready now get_task_args) select pairs r w
        ≡ ok (
          r,
          record {
            pool = record w.pool { queue = w.pool.queue ++ tasks now answers };
            logger = record w.logger { queue = w.logger.queue ++ warnings now answers };
          },
        )
  unfolding call_all on_ready
  call_all-dispatch [] [] r w h =
      ap (λ w'. ok (r, w'))
        (sym (ap₂ (queues w) (append-nil w.pool.queue) (append-nil w.logger.queue)))
  call_all-dispatch [] (args ∷ answers) r w h = absurd h
  call_all-dispatch (pair ∷ pairs) [] r w h = absurd h
  call_all-dispatch ((fd, mode) ∷ pairs) (args ∷ answers) r w h =
      let (callback, found, e) = h.0 in
      rw (call_all, found, e) (call_all-dispatch pairs answers r (dispatch now args w) h.1)
      ∙ ap (λ w'. ok (r, w')) (answered now args answers w)

  -- A round of the framework's reactor in which `Listen` returns and no callback throws: every
  -- reported pair with arguments adds one task of low priority to the pool, every one without adds
  -- one warning to the log, in the order in which `Listen` reports them, and nothing else changes.
  pub round-dispatch :
      (r : Reactor) (w : Services) (answers : List (Option ℕ)) {pairs : List (ℕ × Mode)}
      → listen select (map (λ entry. entry.0) r.listen_funcs) ≡ ok pairs
      → Answered get_task_args r pairs answers
      → round (on_ready now get_task_args) select r w
        ≡ ok (
          r,
          record {
            pool = record w.pool { queue = w.pool.queue ++ tasks now answers };
            logger = record w.logger { queue = w.logger.queue ++ warnings now answers };
          },
        )
  unfolding round
  round-dispatch r w answers {pairs} e h = rw (round, e) (call_all-dispatch pairs answers r w h)
