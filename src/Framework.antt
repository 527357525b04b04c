-- ===== src/Framework.antt =====
-- framework/include/Framework.hpp and framework/src/Framework.cpp: the object that has the reactor, the monitor of the
-- plugins' directory and their loader, from its constructor to its destructor; and the plugin of
-- framework/src/FrameworkPlugin.cpp. A command's creator is known by a number.
pub mod Lifecycle
use io_tbased_raid.Prelude.{ℕ, Bool, true, false, Option, none, some, List, [], ◌∷◌}
use io_tbased_raid.Prelude.Results.{Result, ok, throw, runtime_error, ◌>>=◌}
use io_tbased_raid.Factory
use io_tbased_raid.Factory.{Factory}
use io_tbased_raid.Dispatcher
use io_tbased_raid.Dispatcher.{Dispatcher, no_callbacks}
use io_tbased_raid.DirMonitor.{DllLoader, close_all}
use io_tbased_raid.DirMonitor.Watch
use io_tbased_raid.DirMonitor.Watch.{Monitor}
use io_tbased_raid.Reactor
use io_tbased_raid.Reactor.{Mode, Reactor}
use io_tbased_raid.Reactor.Framework.{register_all}

-- `Factory<int, ICommand>`
abbrev pub Commands : Type 0
Commands = Factory (Unit {0}) ℕ

-- The members; `on_open` and `on_close` are the monitor's two dispatchers.
pub record Framework : Type 0 where
  pub monitor : Monitor
  pub on_open : Dispatcher
  pub on_close : Dispatcher
  pub reactor : Reactor
  pub loader : DllLoader

-- The numbers by which the two callbacks on the loader are known, of which the first loads and the second unloads.
abbrev pub open_callback : ℕ
open_callback = 0

abbrev pub close_callback : ℕ
close_callback = 1

-- The constructor's loop over the creators.
unfoldable pub register_creators : List (ℕ × ℕ) → Commands → Commands
unfolding Factory.register
register_creators [] commands = commands
register_creators ((key, creator) ∷ creators) commands =
    register_creators creators (Factory.register key (λ _. creator) commands)

-- What the members are before the constructor's body.
abbrev pub members : Monitor → Framework
members monitor = record {
  monitor = monitor;
  on_open = no_callbacks;
  on_close = no_callbacks;
  reactor = record { listen_funcs = []; running = false };
  loader = record { dll_map = []; closed_handles = [] };
}

-- The constructor, by what the two calls of inotify answer; the monitor's throws where one fails.
unfoldable pub make :
    Bool → Bool → List (ℕ × Mode × ℕ) → List (ℕ × ℕ) → Commands → Result (Framework × Commands)
unfolding Watch.make register_all register_creators Dispatcher.register
make init_answer watch_answer fd_callbacks creators commands =
    elim ((Watch.make init_answer watch_answer).0) [
      | none ↦ throw runtime_error
      | some monitor ↦
          let f : Framework = members monitor in
          ok (
            record f {
              on_open = Dispatcher.register open_callback f.on_open;
              on_close = Dispatcher.register close_callback f.on_close;
              reactor = register_all fd_callbacks f.reactor;
            },
            register_creators creators commands,
          )
    ]

-- The first call of `Run`; the second is `Reactor.run`, whose rounds come after it.
unfoldable pub start : Framework → Result Framework
unfolding Watch.run
start f = Watch.run f.monitor >>= λ monitor. ok (record f { monitor = monitor })

-- `Stop`
unfoldable pub stop : Framework → Framework
unfolding Watch.stop Reactor.stop
stop f = record f { reactor = Reactor.stop f.reactor; monitor = Watch.stop f.monitor }

-- The destructor, and those of the members in the reverse order: the callbacks leave their dispatchers, the loader closes
-- what is loaded, and the monitor stops again.
unfoldable pub destroy : Framework → Framework
unfolding stop close_all Watch.stop
destroy f =
    let f' : Framework = stop f in
    record f' {
      on_open = no_callbacks;
      on_close = no_callbacks;
      loader = close_all f'.loader;
      monitor = Watch.stop f'.monitor;
    }

-- The sample plugin: `SoMain` when it is loaded, and `SoExit` when it is unloaded.
abbrev pub updated_read : ℕ
updated_read = 100

unfoldable pub so_main : Commands → Commands
unfolding Factory.register
so_main commands = Factory.register 0 (λ _. updated_read) commands

unfoldable pub so_exit : Commands → Commands
so_exit commands = commands
