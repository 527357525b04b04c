-- ===== src/Logger/Order.antt =====
-- The order in which the logger of framework/src/logger.cpp writes, and the end of its thread.
use io_tbased_raid.Prelude.{
  ℕ, zero, suc, ◌≡◌, refl, sym, ap, ◌∙◌, Bool, false, Option, none, some, List, [], ◌∷◌, ◌++◌, map,
  append_assoc, append-nil, some_injective,
}
use io_tbased_raid.WaitableQueue.{pop}
use io_tbased_raid.Logger.{
  Severity, Message, Tm, format, Place, testing, popping, ended, Logger, init, log, shut_down,
  shut_down_text, warning, clear_running, logger_run,
}

module _ (localtime : ℕ → Tm) where
  -- The loggers that come about, with the messages that they were given, in order: `Log` is called, the destructor
  -- does either of its steps, or the thread goes on.
  pub data Reach : Logger → List Message → Type 0 where
    start : Reach init []
    logs :
        {l : Logger} {given : List Message} (now : ℕ) (text : List ℕ) (sev : Severity)
        → Reach l given
        → Reach
            (log now text sev l)
            (given ++ (record { time_created = now; text = text; sev = sev } ∷ []))
    shuts_down :
        {l : Logger} {given : List Message} (now : ℕ)
        → Reach l given
        → Reach
            (shut_down now l)
            (given ++ (record { time_created = now; text = shut_down_text; sev = warning } ∷ []))
    clears : {l : Logger} {given : List Message} → Reach l given → Reach (clear_running l) given
    runs :
        {l q : Logger} {given : List Message}
        → Reach l given
        → logger_run localtime l ≡ some q
        → Reach q given

  -- What the file is to hold in the end: the lines written, and those of the messages in the queue.
  abbrev pub lines : Logger → List (List ℕ)
  lines l = l.file ++ map (format localtime) l.queue

  map-append :
      (xs ys : List Message)
      → map (format localtime) (xs ++ ys) ≡ map (format localtime) xs ++ map (format localtime) ys
  map-append [] ys = refl
  map-append (x ∷ xs) ys = ap (λ l. format localtime x ∷ l) (map-append xs ys)

  lines-log :
      (now : ℕ) (text : List ℕ) (sev : Severity) (l : Logger) (given : List Message)
      → lines l ≡ map (format localtime) given
      → lines (log now text sev l)
        ≡ map
            (format localtime)
            (given ++ (record { time_created = now; text = text; sev = sev } ∷ []))
  unfolding log
  lines-log now text sev l given e =
      let m : Message = record { time_created = now; text = text; sev = sev } in
      let line = map (format localtime) (m ∷ []) in
      ap (λ q. l.file ++ q) (map-append l.queue (m ∷ []))
      ∙ sym (append_assoc l.file (map (format localtime) l.queue) line)
      ∙ ap (λ q. q ++ line) e
      ∙ sym (map-append given (m ∷ []))

  lines-turn :
      (thread : Place) (queue : List Message) (file : List (List ℕ)) (running : Bool) {q : Logger}
      → logger_run localtime
          (record { queue = queue; file = file; running = running; thread = thread })
        ≡ some q
      → lines q ≡ file ++ map (format localtime) queue
  unfolding logger_run pop
  lines-turn testing queue file running {q} e = ap lines (sym (some_injective e))
  lines-turn popping [] file running {q} e = cc
  lines-turn popping (m ∷ queue) file running {q} e =
      ap lines (sym (some_injective e))
      ∙ append_assoc file (format localtime m ∷ []) (map (format localtime) queue)
  lines-turn ended queue file running {q} e = cc

  lines-logger_run : (l : Logger) {q : Logger} → logger_run localtime l ≡ some q → lines q ≡ lines l
  lines-logger_run l e = lines-turn l.thread l.queue l.file l.running e

  -- At every moment, whatever the callers, the destructor and the thread do in whatever order: the lines of the file,
  -- and behind them those of the messages in the queue, are the lines of all messages that were given, in that order.
  pub Reach-lines :
      {l : Logger} {given : List Message} → Reach l given → lines l ≡ map (format localtime) given
  unfolding shut_down clear_running
  Reach-lines start = refl
  Reach-lines (logs {l} {given} now text sev r) = lines-log now text sev l given (Reach-lines r)
  Reach-lines (shuts_down {l} {given} now r) =
      lines-log now shut_down_text warning l given (Reach-lines r)
  Reach-lines (clears r) = Reach-lines r
  Reach-lines (runs {l} r e) = lines-logger_run l e ∙ Reach-lines r

  -- So many steps of the thread.
  abbrev pub steps : ℕ → Logger → Option Logger
  steps zero l = some l
  steps (suc n) l = elim (logger_run localtime l) [ none ↦ none | some q ↦ steps n q ]

  -- Two steps for each message in the queue, and one to see that there is none.
  abbrev pub enough : List Message → ℕ
  enough [] = 1
  enough (m ∷ queue) = suc (suc (enough queue))

  drain :
      (queue : List Message) (file : List (List ℕ))
      → steps
          (enough queue)
          (record { queue = queue; file = file; running = false; thread = testing })
        ≡ some (record {
          queue = [];
          file = file ++ map (format localtime) queue;
          running = false;
          thread = ended;
        })
  unfolding logger_run pop
  drain [] file =
      ap (λ f. some (record { queue = []; file = f; running = false; thread = ended }))
        (sym (append-nil file))
  drain (m ∷ queue) file =
      drain queue (file ++ (format localtime m ∷ []))
      ∙ ap (λ f. some (record { queue = []; file = f; running = false; thread = ended }))
          (append_assoc file (format localtime m ∷ []) (map (format localtime) queue))

  -- If the flag is cleared while the thread is not in `Pop`, the thread writes all that was given, in order, and ends:
  -- two steps for each message in the queue and one more are enough.
  pub clear_running-drains :
      {l : Logger} {given : List Message}
      → Reach l given
      → l.thread ≡ testing
      → steps (enough l.queue) (clear_running l)
        ≡ some (record {
          queue = [];
          file = map (format localtime) given;
          running = false;
          thread = ended;
        })
  unfolding clear_running
  clear_running-drains {l} {given} r e =
      ap
        (λ t.
          steps (enough l.queue)
            (record { queue = l.queue; file = l.file; running = false; thread = t }))
        e
      ∙ drain l.queue l.file
      ∙ ap (λ f. some (record { queue = []; file = f; running = false; thread = ended }))
          (Reach-lines r)
