-- ===== src/DirMonitor.antt =====
-- framework/src/dir_monitor.cpp and framework/src/dll_loader.cpp: the events that the kernel writes about the directory
-- of the plugins, and the plugins that are loaded for them. A path is a list of bytes; `read` and `dlopen` are
-- arguments.
pub mod Events
pub mod Handles
pub mod Watch
use io_tbased_raid.Prelude.{
  ℕ, zero, suc, ◌+◌, ◌-◌, ◌/◌, ◌%◌, Bool, true, false, not, ◌&&◌, ◌||◌, Option, none, some, List,
  [], ◌∷◌, ◌++◌, leb, ◌==◌, if◌then◌else◌, length, map,
}
use io_tbased_raid.Prelude.Words.{load, split_at?}
use io_tbased_raid.Prelude.Results.{Result, ok, throw, fault, runtime_error, ◌>>=◌}

abbrev pub same_path : List ℕ → List ℕ → Bool
same_path [] [] = true
same_path (b ∷ path) (c ∷ other) = b == c && same_path path other
same_path _ _ = false

abbrev pub skip : ℕ → List ℕ → List ℕ
skip zero path = path
skip (suc n) [] = []
skip (suc n) (b ∷ path) = skip n path

-- ".so"
abbrev pub so_suffix : List ℕ
so_suffix = 46 ∷ 115 ∷ 111 ∷ []

-- `IsSharedObject`
unfoldable pub is_shared_object : List ℕ → Bool
is_shared_object path = leb 3 (length path) && same_path (skip (length path - 3) path) so_suffix

-- What `MonitorRun` tells a dispatcher: a file was written and closed, or deleted.
pub data Notice : Type 0 where
  opened closed : List ℕ → Notice

-- A C string: the bytes before the first that is 0.
abbrev pub c_string : List ℕ → Option (List ℕ)
c_string [] = none
c_string (zero ∷ bytes) = some []
c_string (suc b ∷ bytes) = elim (c_string bytes) [ none ↦ none | some name ↦ some (suc b ∷ name) ]

-- `mask & IN_CLOSE_WRITE`, `mask & IN_DELETE`
abbrev pub in_close_write : ℕ → Bool
in_close_write mask = mask / 8 % 2 == 1

abbrev pub in_delete : ℕ → Bool
in_delete mask = mask / 512 % 2 == 1

-- The branches for one event.
abbrev pub notices : List ℕ → ℕ → List ℕ → List Notice
notices dir_name mask name =
    if in_close_write mask && is_shared_object name
    then opened (dir_name ++ name) ∷ []
    else if in_delete mask && is_shared_object name
    then closed (dir_name ++ name) ∷ []
    else []

-- An `inotify_event` up to its name: the mask, the length of the name's field, and the bytes behind.
unfoldable pub header : List ℕ → Option (ℕ × ℕ × List ℕ)
unfolding load
header bytes = elim (load 4 bytes) [
  | none ↦ none
  | some (wd, behind_wd) ↦ (elim (load 4 behind_wd) [
    | none ↦ none
    | some (mask, behind_mask) ↦ (elim (load 4 behind_mask) [
      | none ↦ none
      | some (cookie, behind_cookie) ↦ (elim (load 4 behind_cookie) [
        | none ↦ none
        | some (len, rest) ↦ some (mask, len, rest)
      ])
    ])
  ])
]

-- The inner loop of `MonitorRun` over the bytes that were read, with a fuel of one per byte, of which an event takes
-- at least sixteen. A read behind them is a fault.
unfoldable pub parse_events : List ℕ → ℕ → List ℕ → Result (List Notice)
unfolding header split_at?
parse_events dir_name fuel [] = ok []
parse_events dir_name zero (b ∷ bytes) = fault
parse_events dir_name (suc fuel) (b ∷ bytes) = elim (header (b ∷ bytes)) [
  | none ↦ fault
  | some (mask, len, rest) ↦ (elim (c_string rest) [
    | none ↦ fault
    | some name ↦ (elim (split_at? len rest) [
      | none ↦ ok (notices dir_name mask name)
      | some (field, next) ↦
          parse_events dir_name fuel next >>= λ more. ok (notices dir_name mask name ++ more)
    ])
  ])
]

-- `DLLLoader`: the handles by file name, with those that were closed.
pub record DllLoader : Type 0 where
  pub dll_map : List (List ℕ × ℕ)
  pub closed_handles : List ℕ

abbrev pub find : List ℕ → List (List ℕ × ℕ) → Option ℕ
find name [] = none
find name ((file, handle) ∷ dlls) = if same_path file name then some handle else find name dlls

abbrev pub erase : List ℕ → List (List ℕ × ℕ) → List (List ℕ × ℕ)
erase name [] = []
erase name ((file, handle) ∷ dlls) =
    let rest = erase name dlls in if same_path file name then dlls else (file, handle) ∷ rest

module _ (dlopen : List ℕ → Option ℕ) where
  -- `Load`
  unfoldable pub load_dll : List ℕ → DllLoader → Result DllLoader
  load_dll file_name l = elim (find file_name l.dll_map) [
    | some handle ↦ ok l
    | none ↦ (elim (dlopen file_name) [
      | none ↦ throw runtime_error
      | some handle ↦ ok (record l { dll_map = l.dll_map ++ ((file_name, handle) ∷ []) })
    ])
  ]

  -- `Unload`
  unfoldable pub unload_dll : List ℕ → DllLoader → Result DllLoader
  unload_dll file_name l = elim (find file_name l.dll_map) [
    | none ↦ throw runtime_error
    | some handle ↦
        ok (record {
          dll_map = erase file_name l.dll_map;
          closed_handles = handle ∷ l.closed_handles;
        })
  ]

  -- The callbacks that the framework registers with the two dispatchers.
  unfoldable pub tell : List Notice → DllLoader → Result DllLoader
  unfolding load_dll unload_dll
  tell [] l = ok l
  tell (opened path ∷ rest) l = load_dll path l >>= λ l'. tell rest l'
  tell (closed path ∷ rest) l = unload_dll path l >>= λ l'. tell rest l'

  -- A round of the loop of `MonitorRun`: what `read` gives, `none` being an error, and `m_running` after it. `ok none`:
  -- the function returns.
  unfoldable pub monitor_turn :
      List ℕ → Option (List ℕ) → Bool → DllLoader → Result (Option DllLoader)
  unfolding parse_events tell
  monitor_turn dir_name none running l = if running then throw runtime_error else ok none
  monitor_turn dir_name (some bytes) running l =
      parse_events dir_name (length bytes) bytes >>= λ told. tell told l >>= λ l'. ok (some l')

-- The destructor of the loader.
unfoldable pub close_all : DllLoader → DllLoader
close_all l = record {
  dll_map = [];
  closed_handles = map (λ dll. dll.1) l.dll_map ++ l.closed_handles;
}
