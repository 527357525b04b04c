-- ===== src/DirMonitor/Watch.antt =====
-- The start and the stop of the monitor (framework/src/dir_monitor.cpp). What the calls of inotify answer is an
-- argument, `true` being a success.
use io_tbased_raid.Prelude.{
  ℕ, ◌≡◌, Bool, true, false, not, ◌&&◌, Option, none, some, arith, if◌then◌else◌,
}
use io_tbased_raid.Prelude.Results.{Result, ok, fault}

-- The monitor's members: whether its descriptor is open, `m_running`, and whether the thread can be joined.
pub record Monitor : Type 0 where
  pub notify_open : Bool
  pub running : Bool
  pub joinable : Bool

-- `GetNotifyFD`, and then `GetWatchFD`, which closes the descriptor if it fails: the outcome of the constructor, and
-- how many descriptors are open after it.
unfoldable pub make : Bool → Bool → Option Monitor × ℕ
make init_answer watch_answer =
    if init_answer
    then (if watch_answer
        then (some (record { notify_open = true; running = false; joinable = false }), 1)
        else (none, 0))
    else (none, 0)

-- `Run`. The program ends where a thread is assigned that can still be joined.
unfoldable pub run : Monitor → Result Monitor
run m = if m.joinable then fault else ok (record m { running = true; joinable = true })

-- `Stop`, for a thread of the monitor that comes to its end.
unfoldable pub stop : Monitor → Monitor
stop m =
    if not m.running && not m.joinable
    then m
    else record { notify_open = false; running = false; joinable = false }

-- After `Stop` no thread is left that can be joined, and a second `Stop`, such as that of the destructor, changes
-- nothing. The descriptor is closed if the monitor was ever run, and only then.
pub stop_after_run :
    (m : Monitor) {q : Monitor}
    → run m ≡ ok q
    → (stop q ≡ record { notify_open = false; running = false; joinable = false })
      × (stop (stop q) ≡ stop q)
unfolding run stop
stop_after_run m {q} e = (ground arith, ground arith)

-- A monitor that is destroyed without having been run keeps its descriptor open.
pub stop_without_run :
    {m : Monitor} {fds : ℕ}
    → make true true ≡ (some m, fds)
    → ((stop m).notify_open ≡ true) × (fds ≡ 1)
unfolding make stop
stop_without_run e = (ground arith, ground arith)
