-- ===== src/Tests/Events.antt =====
-- Runs of the framework's reactor, directory monitor and loader, and of the network block device.
use io_tbased_raid.Prelude.{
  ℕ, ◌+◌, ◌*◌, ◌/◌, ◌%◌, ◌≡◌, refl, All, inl, ◌≤◌, true, false, Option, none, some, List, [], ◌∷◌,
  arith, length,
}
use io_tbased_raid.Prelude.Results.{ok, ◌>>=◌}
use io_tbased_raid.Logger
use io_tbased_raid.Reactor.{
  Mode, read, write, Reactor, Handler, Select, isset, listen, round, register,
}
use io_tbased_raid.Reactor.Ready.{ready, listen-ready}
use io_tbased_raid.Reactor.Framework.{Services, TaskArgs, on_ready, tasks, round-dispatch}
use io_tbased_raid.DirMonitor.{DllLoader, load_dll, unload_dll, tell, monitor_turn}
use io_tbased_raid.DirMonitor.Events.{
  Event, IsEvent, encode_all, notices_of, monitor_turn-encode_all,
}
use io_tbased_raid.DirMonitor.Handles
use io_tbased_raid.DirMonitor.Handles.{close_all-handles}
use io_tbased_raid.Socket.{Sockets, make, move_assign}
use io_tbased_raid.Socket.Ownership
use io_tbased_raid.Socket.Ownership.{IsOwned, Reach-IsOwned}
use io_tbased_raid.Singleton.{Singleton, testing, steps, end_program}
use io_tbased_raid.Singleton.Unique.{IsFirst, IsSingle, steps-IsSingle}
use io_tbased_raid.Nbd.Lifetime.{big, IsNtohl}

-- A socket that is read and one that is written; both are ready.
abbrev two_fds : List (ℕ × Mode)
two_fds = (3, read) ∷ (4, write) ∷ []

-- A `select` that leaves all that it is asked for.
abbrev all_ready : Select
all_ready n read_fds write_fds = some (read_fds, write_fds)

two_fds-one : (fd : ℕ) → isset fd (3 ∷ []) ≡ true → isset fd (4 ∷ []) ≡ false
two_fds-one fd e = ground arith

listen-ready_example : listen all_ready two_fds ≡ ok (ready (3 ∷ []) (4 ∷ []) two_fds)
listen-ready_example = listen-ready all_ready two_fds refl two_fds-one refl (λ fd e. e) (λ fd e. e)

-- A handler that stops the reactor.
abbrev stopping : Handler ℕ
stopping func fd mode r w = ok (record r { running = false }, w + func)

abbrev registered : Reactor
registered = record { listen_funcs = ((3, read), 7) ∷ []; running = false }

register_read : register 3 read 7 (record { listen_funcs = []; running = false }) ≡ registered
unfolding register
register_read = refl

abbrev no_services : Services
no_services = record {
  pool = record {
    queue = [];
    deleted_threads = [];
    threads = [];
    total_threads = 0;
    tid = 0;
    paused = false;
    pause_sem = 0;
    running = [];
    waiting = [];
    acquiring = 0;
  };
  logger = Logger.init;
}

-- A callback that gives the arguments 11.
abbrev gives_args : TaskArgs
gives_args callback fd mode = ok (some 11)

listen_registered : listen all_ready ((3, read) ∷ []) ≡ ok ((3, read) ∷ [])
unfolding listen
listen_registered = refl

round-dispatch_example :
    round (on_ready 5 gives_args) all_ready registered no_services
    ≡ ok (
      registered,
      record {
        pool = record no_services.pool { queue = tasks 5 (some 11 ∷ []) };
        logger = Logger.init;
      },
    )
round-dispatch_example =
    round-dispatch gives_args 5 all_ready registered no_services (some 11 ∷ []) listen_registered
      ((7, refl, refl), tt)

-- "a.so" was written: the mask is `IN_CLOSE_WRITE`.
abbrev written : Event
written = record { wd = 1; mask = 8; cookie = 0; name = 97 ∷ 46 ∷ 115 ∷ 111 ∷ []; padding = 11 }

written-IsEvent : IsEvent written
written-IsEvent = record {
  wd_fits = omega arith;
  mask_fits = omega arith;
  cookie_fits = omega arith;
  len_fits = omega arith;
  no_zero = (omega arith, (omega arith, (omega arith, (omega arith, tt))));
}

abbrev no_plugins : DllLoader
no_plugins = record { dll_map = []; closed_handles = [] }

abbrev dlopen : List ℕ → Option ℕ
dlopen path = some (length path)

monitor_turn-encode_all_example :
    monitor_turn dlopen (112 ∷ 47 ∷ []) (some (encode_all (written ∷ []))) true no_plugins
    ≡ (tell dlopen (notices_of (112 ∷ 47 ∷ []) (written ∷ [])) no_plugins >>= λ l'. ok (some l'))
monitor_turn-encode_all_example =
    monitor_turn-encode_all (112 ∷ 47 ∷ []) dlopen (written ∷ []) true no_plugins
      (written-IsEvent, tt)

-- One plugin is loaded, and another that is unloaded again.
abbrev one_plugin : DllLoader
one_plugin = record { dll_map = (97 ∷ [], 1) ∷ []; closed_handles = [] }

abbrev two_plugins : DllLoader
two_plugins = record { dll_map = (97 ∷ [], 1) ∷ (98 ∷ 99 ∷ [], 2) ∷ []; closed_handles = [] }

abbrev one_unloaded : DllLoader
one_unloaded = record { dll_map = (97 ∷ [], 1) ∷ []; closed_handles = 2 ∷ [] }

load_one : load_dll dlopen (97 ∷ []) no_plugins ≡ ok one_plugin
unfolding load_dll
load_one = refl

load_two : load_dll dlopen (98 ∷ 99 ∷ []) one_plugin ≡ ok two_plugins
unfolding load_dll
load_two = refl

unload_two : unload_dll dlopen (98 ∷ 99 ∷ []) two_plugins ≡ ok one_unloaded
unfolding unload_dll
unload_two = refl

one_unloaded-Reach : Handles.Reach dlopen one_unloaded (2 ∷ 1 ∷ [])
one_unloaded-Reach =
    Handles.Reach.unloads (98 ∷ 99 ∷ [])
      (Handles.Reach.loads (98 ∷ 99 ∷ [])
        (Handles.Reach.loads (97 ∷ []) Handles.Reach.start load_one) load_two)
      unload_two

-- `ntohl` by its arithmetic.
abbrev pub ntohl : ℕ → ℕ
ntohl n = big (n % 256) (n / 256 % 256) (n / 65536 % 256) (n / 16777216)

pub ntohl-IsNtohl : IsNtohl ntohl
ntohl-IsNtohl a b c d ha hb hc hd =
    let e : (a + 256 * (b + 256 * (c + 256 * d))) % 256 ≡ a = omega arith in
    let f : (a + 256 * (b + 256 * (c + 256 * d))) / 256 % 256 ≡ b = omega arith in
    let g : (a + 256 * (b + 256 * (c + 256 * d))) / 65536 % 256 ≡ c = omega arith in
    let h : (a + 256 * (b + 256 * (c + 256 * d))) / 16777216 ≡ d = omega arith in
    rw (e, f, g, h) refl

-- A socket is moved to one that has a descriptor already.
abbrev two_sockets : Sockets
two_sockets = record { fds = some 3 ∷ some 4 ∷ []; opened = 4 ∷ 3 ∷ []; closed = [] }

two_sockets-Reach : Ownership.Reach two_sockets
unfolding make
two_sockets-Reach = Ownership.Reach.makes 4 (Ownership.Reach.makes 3 Ownership.Reach.start)

moved :
    move_assign 0 1 two_sockets
    ≡ record { fds = some 4 ∷ none ∷ []; opened = 4 ∷ 3 ∷ []; closed = 3 ∷ [] }
unfolding move_assign
moved = refl

Reach-IsOwned_example : IsOwned (move_assign 0 1 two_sockets)
Reach-IsOwned_example =
    Reach-IsOwned (Ownership.Reach.assigns 0 1 two_sockets-Reach (omega arith) (omega arith))

-- Two threads that both find no object before either takes the lock.
abbrev two_threads : Singleton
two_threads = record {
  instance_of = none;
  made = 0;
  at_exit = 0;
  deleted = [];
  threads = testing ∷ testing ∷ [];
}

two_threads-IsSingle : IsSingle two_threads
two_threads-IsSingle = record {
  stored = inl (refl, refl, refl);
  kept = refl;
  first = (tt, (tt, tt));
}

steps-IsSingle_example :
    let s' = steps (0 ∷ 1 ∷ 1 ∷ 0 ∷ []) two_threads in
    (s'.made ≤ 1)
    × All IsFirst s'.threads
    × ((end_program s').instance_of ≡ none)
    × (length (end_program s').deleted ≡ s'.made)
steps-IsSingle_example = steps-IsSingle (0 ∷ 1 ∷ 1 ∷ 0 ∷ []) two_threads two_threads-IsSingle
