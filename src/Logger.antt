-- ===== src/Logger.antt =====
-- framework/include/logger.hpp and framework/src/logger.cpp. Each access to the queue is one step, as is each test of
-- the loop; a text is a list of bytes. `localtime` is an argument, and the file is the list of its lines.
pub mod Order
use io_tbased_raid.Prelude.{
  ℕ, zero, suc, ◌+◌, ◌-◌, ◌/◌, ◌%◌, Bool, true, false, not, ◌||◌, Option, none, some, List, [], ◌∷◌,
  ◌++◌, ltb, ◌==◌, if◌then◌else◌, length, replicate,
}
use io_tbased_raid.Prelude.Results.{Result, ok, throw, runtime_error}
use io_tbased_raid.WaitableQueue.{enqueue, is_empty, pop}

pub data Severity : Type 0 where
  debug warning error : Severity

-- `s_sev_lut`
abbrev sev_lut : Severity → List ℕ
sev_lut debug = 68 ∷ 69 ∷ 66 ∷ 85 ∷ 71 ∷ []
sev_lut warning = 87 ∷ 65 ∷ 82 ∷ 78 ∷ 73 ∷ 78 ∷ 71 ∷ []
sev_lut error = 69 ∷ 82 ∷ 82 ∷ 79 ∷ 82 ∷ []

-- `struct Message`
pub record Message : Type 0 where
  pub time_created : ℕ
  pub text : List ℕ
  pub sev : Severity

-- `std::tm`
pub record Tm : Type 0 where
  pub mday : ℕ
  pub mon : ℕ
  pub year : ℕ
  pub hour : ℕ
  pub minute : ℕ

-- A number in decimal, of at most as many digits as the fuel. The numbers of a date have fewer than 20.
abbrev digits : ℕ → ℕ → List ℕ
digits zero n = []
digits (suc fuel) n =
    let front = digits fuel (n / 10) in
    if ltb n 10 then (48 + n) ∷ [] else front ++ ((48 + n % 10) ∷ [])

-- `setfill('0')` and `setw`
abbrev setw : ℕ → ℕ → List ℕ
setw width n = replicate (width - length (digits 20 n)) 48 ++ digits 20 n

-- The line of `LogMessageTask`: `dd.mm.yyyy hh:mm [severity] text`.
unfoldable pub format : (ℕ → Tm) → Message → List ℕ
format localtime message =
    let now_tm = localtime message.time_created in
    setw 2 now_tm.mday
    ++ (46 ∷ setw 2 (now_tm.mon + 1))
    ++ (46 ∷ setw 4 (now_tm.year + 1900))
    ++ (32 ∷ setw 2 now_tm.hour)
    ++ (58 ∷ setw 2 now_tm.minute)
    ++ (32 ∷ 91 ∷ sev_lut message.sev)
    ++ (93 ∷ 32 ∷ message.text)

-- Where the logger's thread stands: at the test of its loop, in `Pop`, or behind the loop.
pub data Place : Type 0 where
  testing popping ended : Place

pub record Logger : Type 0 where
  pub queue : List Message
  pub file : List (List ℕ)
  pub running : Bool
  pub thread : Place

-- The constructor, by whether the file can be opened, and what it makes.
abbrev pub init : Logger
init = record { queue = []; file = []; running = true; thread = testing }

abbrev pub make : Bool → Result Logger
make is_open = if is_open then ok init else throw runtime_error

-- `Log`, when the clock shows `now`.
unfoldable pub log : ℕ → List ℕ → Severity → Logger → Logger
log now text sev l = record l {
  queue = enqueue (record { time_created = now; text = text; sev = sev }) l.queue;
}

-- "Logger shut down"
abbrev shut_down_text : List ℕ
shut_down_text =
    76 ∷ 111 ∷ 103 ∷ 103 ∷ 101 ∷ 114 ∷ 32 ∷ 115 ∷ 104 ∷ 117 ∷ 116 ∷ 32 ∷ 100 ∷ 111 ∷ 119 ∷ 110 ∷ []

-- The destructor: its message, and then the flag. It joins the thread after that.
unfoldable pub shut_down : ℕ → Logger → Logger
unfolding log
shut_down now l = log now shut_down_text warning l

unfoldable pub clear_running : Logger → Logger
clear_running l = record l { running = false }

-- A step of `LoggerRun`: the loop's test, or a `Pop` and the line that is written. `none`: the thread waits, or has
-- ended.
unfoldable pub logger_run : (ℕ → Tm) → Logger → Option Logger
unfolding pop
logger_run localtime l = elim l.thread [
  | testing ↦
      some (record l { thread = if l.running || not (is_empty l.queue) then popping else ended })
  | popping ↦ (elim (pop l.queue) [
    | none ↦ none
    | some (log, rest) ↦
        some (record l {
          queue = rest;
          file = l.file ++ (format localtime log ∷ []);
          thread = testing;
        })
  ])
  | ended ↦ none
]
