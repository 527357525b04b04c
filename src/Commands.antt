-- ===== src/Commands.antt =====
-- concrete/include/Commands.hpp and concrete/src/Commands.cpp: the master's commands hand the
-- kernel's requests to the manager.
use io_tbased_raid.Prelude.{ℕ, Bool, some, none, List}
use io_tbased_raid.Prelude.Results.{Result, ok, throw, fault}
use io_tbased_raid.NbdProxy.{TaskArgs, read_args, write_args}
use io_tbased_raid.MinionManager.{MinionManager, Outcome, add_read_task_to, add_write_task_to}

-- `catch(const std::exception&)`: what was thrown is logged, and the manager stays as it was then.
abbrev log_exception : Outcome → Result MinionManager
log_exception (m, ok _) = ok m
log_exception (m, throw e) = ok m
log_exception (m, fault) = fault

module _ (junk : ℕ → ℕ) (takes : List ℕ → Bool) where
  -- `ReadCommand::Run`. Arguments of another class are logged.
  unfoldable pub run_read : TaskArgs → MinionManager → Result MinionManager
  unfolding add_read_task_to
  run_read (write_args uid offset length buffer) m = ok m
  run_read (read_args uid offset length) m =
      log_exception (add_read_task_to junk takes uid offset length m)

  -- `WriteCommand::Run`. Write arguments without data, which the factory does not make, are left
  -- undefined.
  unfoldable pub run_write : TaskArgs → MinionManager → Result MinionManager
  unfolding add_write_task_to
  run_write (read_args uid offset length) m = ok m
  run_write (write_args uid offset length none) m = fault
  run_write (write_args uid offset length (some bytes)) m =
      log_exception (add_write_task_to junk takes uid offset length bytes m)
