-- ===== src/Reactor.antt =====
-- framework/src/reactor.cpp, framework/src/listener.cpp and the handlers of framework/src/Framework.cpp. A file
-- descriptor is a number, as `select` asks; the sets of descriptors are lists. `select` is an argument: it is given
-- the two sets, and answers with the sets that it leaves, or fails. A handler is known by a number.
pub mod Ready
pub mod Rounds
pub mod Framework
use io_tbased_raid.Prelude.{
  ℕ, zero, suc, ◌+◌, ◌*◌, ◌-◌, Bool, true, false, not, ◌&&◌, ◌||◌, Option, none, some, List, [],
  ◌∷◌, ◌++◌, ltb, leb, ◌==◌, if◌then◌else◌, map,
}
use io_tbased_raid.Prelude.Results.{Result, ok, throw, fault, out_of_range, runtime_error, ◌>>=◌}
use io_tbased_raid.Message.{byte_of_bool}

-- `IListener::Mode`
pub data Mode : Type 0 where
  write read : Mode

abbrev pub same_mode : Mode → Mode → Bool
same_mode read read = true
same_mode write write = true
same_mode _ _ = false

-- `FD_ISSET`
abbrev pub isset : ℕ → List ℕ → Bool
isset fd [] = false
isset fd (x ∷ set) = fd == x || isset fd set

-- `FD_SET` of all pairs of that mode.
abbrev pub fd_sets : Mode → List (ℕ × Mode) → List ℕ
fd_sets mode [] = []
fd_sets mode ((fd, m) ∷ fd_list) =
    let rest = fd_sets mode fd_list in if same_mode m mode then fd ∷ rest else rest

-- The loop's `max_fd`, with its arithmetic on truth values.
abbrev pub max_fd : ℕ → List (ℕ × Mode) → ℕ
max_fd max [] = max
max_fd max ((fd, m) ∷ fd_list) =
    max_fd (max * byte_of_bool (ltb fd max) + fd * byte_of_bool (leb max fd)) fd_list

-- The pairs of the last loop: those whose descriptor is in either set.
abbrev pub selected : List ℕ → List ℕ → List (ℕ × Mode) → List (ℕ × Mode)
selected read_fds write_fds [] = []
selected read_fds write_fds ((fd, m) ∷ fd_list) =
    let rest = selected read_fds write_fds fd_list in
    if isset fd read_fds || isset fd write_fds then (fd, m) ∷ rest else rest

-- Whether all descriptors fit into an `fd_set`; `FD_SET` of another is undefined behaviour.
abbrev pub all_fit : List (ℕ × Mode) → Bool
all_fit [] = true
all_fit ((fd, m) ∷ fd_list) = ltb fd 1024 && all_fit fd_list

-- The kernel's `select`: how many descriptors it looks at, and the two sets.
abbrev pub Select : Type 0
Select = ℕ → List ℕ → List ℕ → Option (List ℕ × List ℕ)

-- `LinuxListener::Listen`
unfoldable pub listen : Select → List (ℕ × Mode) → Result (List (ℕ × Mode))
listen select fd_list =
    if all_fit fd_list
    then (elim (select (max_fd 0 fd_list + 1) (fd_sets read fd_list) (fd_sets write fd_list)) [
      | none ↦ throw runtime_error
      | some (read_fds, write_fds) ↦ ok (selected read_fds write_fds fd_list)
    ])
    else fault

-- The reactor's map, and the flag of its loop.
pub record Reactor : Type 0 where
  pub listen_funcs : List ((ℕ × Mode) × ℕ)
  pub running : Bool

abbrev pub same_key : ℕ × Mode → ℕ × Mode → Bool
same_key (fd, mode) (fd', mode') = fd == fd' && same_mode mode mode'

abbrev pub find : ℕ × Mode → List ((ℕ × Mode) × ℕ) → Option ℕ
find key [] = none
find key ((key', func) ∷ funcs) = if same_key key key' then some func else find key funcs

-- The order of the map's keys; `WRITE` is before `READ`.
abbrev pub key_less : ℕ × Mode → ℕ × Mode → Bool
key_less (fd, mode) (fd', mode') =
    ltb fd fd' || (fd == fd' && (same_mode mode write && same_mode mode' read))

-- `emplace` leaves a function that is there.
abbrev pub emplace : ℕ × Mode → ℕ → List ((ℕ × Mode) × ℕ) → List ((ℕ × Mode) × ℕ)
emplace key func [] = (key, func) ∷ []
emplace key func ((key', func') ∷ funcs) =
    let rest = emplace key func funcs in
    if same_key key key'
    then (key', func') ∷ funcs
    else if key_less key key'
    then (key, func) ∷ (key', func') ∷ funcs
    else (key', func') ∷ rest

unfoldable pub register : ℕ → Mode → ℕ → Reactor → Reactor
register fd mode func r = record r { listen_funcs = emplace (fd, mode) func r.listen_funcs }

abbrev erase : ℕ × Mode → List ((ℕ × Mode) × ℕ) → List ((ℕ × Mode) × ℕ)
erase key [] = []
erase key ((key', func) ∷ funcs) =
    let rest = erase key funcs in if same_key key key' then rest else (key', func) ∷ rest

unfoldable pub unregister : ℕ → Mode → Reactor → Reactor
unregister fd mode r = record r { listen_funcs = erase (fd, mode) r.listen_funcs }

unfoldable pub stop : Reactor → Reactor
stop r = record r { running = false }

-- What a handler does, to the reactor as to the rest of the program.
abbrev pub Handler {ℓ} : Type ℓ → Type ℓ
Handler W = ℕ → ℕ → Mode → Reactor → W → Result (Reactor × W)

module _ {ℓ} {W : Type ℓ} (handler : Handler W) (select : Select) where
  -- The loop of `Run` over the pairs that were selected; `at` throws where a pair has no function.
  unfoldable pub call_all : List (ℕ × Mode) → Reactor → W → Result (Reactor × W)
  call_all [] r w = ok (r, w)
  call_all ((fd, mode) ∷ pairs) r w = elim (find (fd, mode) r.listen_funcs) [
    | none ↦ throw out_of_range
    | some func ↦ handler func fd mode r w >>= λ (r', w'). call_all pairs r' w'
  ]

  -- A round of the loop of `Run`.
  unfoldable pub round : Reactor → W → Result (Reactor × W)
  unfolding listen call_all
  round r w = listen select (map (λ entry. entry.0) r.listen_funcs) >>= λ pairs. call_all pairs r w

  -- The loop, for at most so many rounds; `none`: they were not enough.
  unfoldable pub run_loop : ℕ → Reactor → W → Result (Option (Reactor × W))
  run_loop zero r w = ok none
  run_loop (suc rounds) r w =
      if r.running then (round r w >>= λ (r', w'). run_loop rounds r' w') else ok (some (r, w))

  -- `Run`
  unfoldable pub run : ℕ → Reactor → W → Result (Option (Reactor × W))
  unfolding run_loop
  run rounds r w = run_loop rounds (record r { running = true }) w
