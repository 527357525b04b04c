-- ===== src/Framework/Lifecycle.antt =====
-- What the framework of framework/src/Framework.cpp has after its constructor, and after its destructor.
use io_tbased_raid.Prelude.{ℕ, ◌≡◌, refl, ap, ◌∙◌, true, false, List, [], ◌∷◌, ◌==◌, if◌then◌else◌}
use io_tbased_raid.Prelude.Results.{Result, ok}
use io_tbased_raid.Factory
use io_tbased_raid.Factory.{create-register}
use io_tbased_raid.Dispatcher
use io_tbased_raid.DirMonitor.Watch
use io_tbased_raid.DirMonitor.Watch.{Monitor, stop_after_run}
use io_tbased_raid.Reactor
use io_tbased_raid.Framework.{
  Commands, Framework, register_creators, so_main, so_exit, updated_read,
}

-- The last creator that a list has for a key, or what was there.
abbrev pub last_creator : List (ℕ × ℕ) → ℕ → Result ℕ → Result ℕ
last_creator [] key before = before
last_creator ((key', creator) ∷ creators) key before =
    last_creator creators key (if key' == key then ok creator else before)

pub create-register_creators :
    (creators : List (ℕ × ℕ)) (key : ℕ) (commands : Commands)
    → Factory.create key tt (register_creators creators commands)
      ≡ last_creator creators key (Factory.create key tt commands)
unfolding register_creators
create-register_creators [] key commands = refl
create-register_creators ((key', creator) ∷ creators) key commands =
    create-register_creators creators key (Factory.register key' (λ _. creator) commands)
    ∙ ap (last_creator creators key) (create-register key' key (λ _. creator) tt commands)

abbrev fresh_monitor : Monitor
fresh_monitor = record { notify_open = true; running = false; joinable = false }

abbrev started_monitor : Monitor
started_monitor = record { notify_open = true; running = true; joinable = true }

-- A plugin's creator, under the key of a write, stays when the plugin is unloaded: `Create` then still runs it.
pub unloaded_creator_stays :
    (commands : Commands) → Factory.create 0 tt (so_exit (so_main commands)) ≡ ok updated_read
unfolding so_exit so_main
unloaded_creator_stays commands = create-register 0 0 (λ _. updated_read) tt commands
