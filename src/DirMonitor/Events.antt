-- ===== src/DirMonitor/Events.antt =====
-- The events that `MonitorRun` (framework/src/dir_monitor.cpp) finds in what it read.
use io_tbased_raid.Prelude.{
  ℕ, zero, suc, ◌+◌, ◌^◌, ◌≤◌, ◌<◌, ◌≡◌, refl, sym, ap, ◌∙◌, Bool, Option, some, List, [], ◌∷◌,
  ◌++◌, append_assoc, arith, length, length-append, length-replicate, replicate, All,
}
use io_tbased_raid.Prelude.Words.{store, split_at?, load-store, length-store, split_at?-append}
use io_tbased_raid.Prelude.Results.{ok, ◌>>=◌}
use io_tbased_raid.DirMonitor.{
  Notice, notices, c_string, header, parse_events, DllLoader, tell, monitor_turn,
}

-- An event of the directory, as inotify(7) describes it: the name's field ends with the given number of zeros and one.
pub record Event : Type 0 where
  pub wd : ℕ
  pub mask : ℕ
  pub cookie : ℕ
  pub name : List ℕ
  pub padding : ℕ

-- The length of the name's field.
abbrev pub len : Event → ℕ
len e = length e.name + suc e.padding

-- The bytes of an event, with others behind.
abbrev pub encode : Event → List ℕ → List ℕ
encode e rest =
    store 4 e.wd
    ++ (store 4 e.mask
        ++ (store 4 e.cookie
            ++ (store 4 (len e) ++ (e.name ++ (replicate (suc e.padding) 0 ++ rest)))))

abbrev pub encode_all : List Event → List ℕ
encode_all [] = []
encode_all (e ∷ events) = encode e (encode_all events)

-- The numbers fit into their fields, and no byte of the name is 0.
pub record IsEvent (e : Event) : Type 0 where
  pub wd_fits : e.wd < 256 ^ 4
  pub mask_fits : e.mask < 256 ^ 4
  pub cookie_fits : e.cookie < 256 ^ 4
  pub len_fits : len e < 256 ^ 4
  pub no_zero : All (λ b. 0 < b) e.name

length-encode : (e : Event) (rest : List ℕ) → length rest < length (encode e rest)
length-encode e rest =
    let zeros = replicate (suc e.padding) 0 in
    let named = e.name ++ (zeros ++ rest) in
    let sized = store 4 (len e) ++ named in
    let cooked = store 4 e.cookie ++ sized in
    omega (
      arith,
      length-append (store 4 e.wd) (store 4 e.mask ++ cooked),
      length-append (store 4 e.mask) cooked,
      length-append (store 4 e.cookie) sized,
      length-append (store 4 (len e)) named,
      length-append e.name (zeros ++ rest),
      length-append zeros rest,
      length-store 4 e.wd,
    )

c_string-append :
    (name rest : List ℕ) → All (λ b. 0 < b) name → c_string (name ++ (0 ∷ rest)) ≡ some name
c_string-append [] rest h = refl
c_string-append (zero ∷ name) rest h = absurd (omega (arith, h.0))
c_string-append (suc b ∷ name) rest h = rw (c_string-append name rest h.1) refl

header-encode :
    (e : Event) (rest : List ℕ)
    → IsEvent e
    → header (encode e rest) ≡ some (e.mask, len e, e.name ++ (replicate (suc e.padding) 0 ++ rest))
unfolding header
header-encode e rest h =
    rw
      (
        header,
        load-store 4 e.wd
            (store 4 e.mask
              ++ (store 4 e.cookie
                  ++ (store 4 (len e) ++ (e.name ++ (replicate (suc e.padding) 0 ++ rest)))))
            h.wd_fits,
        load-store 4 e.mask
            (store 4 e.cookie
              ++ (store 4 (len e) ++ (e.name ++ (replicate (suc e.padding) 0 ++ rest))))
            h.mask_fits,
        load-store 4 e.cookie (store 4 (len e) ++ (e.name ++ (replicate (suc e.padding) 0 ++ rest)))
            h.cookie_fits,
        load-store 4 (len e) (e.name ++ (replicate (suc e.padding) 0 ++ rest)) h.len_fits,
      )
      refl

field-split :
    (e : Event) (rest : List ℕ)
    → split_at? (len e) (e.name ++ (replicate (suc e.padding) 0 ++ rest))
      ≡ some (e.name ++ replicate (suc e.padding) 0, rest)
field-split e rest =
    ap (split_at? (len e)) (sym (append_assoc e.name (replicate (suc e.padding) 0) rest))
    ∙ split_at?-append (len e) (e.name ++ replicate (suc e.padding) 0) rest (
        omega (
          arith,
          length-append e.name (replicate (suc e.padding) 0),
          length-replicate {A = ℕ} (suc e.padding) 0,
        ))

module _ (dir_name : List ℕ) where
  -- What is to be told of the events.
  abbrev pub notices_of : List Event → List Notice
  notices_of [] = []
  notices_of (e ∷ events) = notices dir_name e.mask e.name ++ notices_of events

  -- One round of the loop.
  parse_events-event :
      (fuel : ℕ) (bytes : List ℕ) {mask n : ℕ} {rest name field next : List ℕ}
      → 0 < length bytes
      → header bytes ≡ some (mask, n, rest)
      → c_string rest ≡ some name
      → split_at? n rest ≡ some (field, next)
      → parse_events dir_name (suc fuel) bytes
        ≡ (parse_events dir_name fuel next >>= λ more. ok (notices dir_name mask name ++ more))
  unfolding parse_events
  parse_events-event fuel [] l h c s = absurd (omega arith)
  parse_events-event fuel (b ∷ bytes) l h c s = rw (parse_events, h, c, s) refl

  parse_events-encode :
      (fuel : ℕ) (e : Event) (rest : List ℕ)
      → IsEvent e
      → parse_events dir_name (suc fuel) (encode e rest)
        ≡ (parse_events dir_name fuel rest >>= λ more. ok (notices dir_name e.mask e.name ++ more))
  parse_events-encode fuel e rest h =
      parse_events-event fuel (encode e rest) (omega (arith, length-encode e rest))
        (header-encode e rest h) (c_string-append e.name (replicate e.padding 0 ++ rest) h.no_zero)
        (field-split e rest)

  parse_events-encode_all :
      (fuel : ℕ) (events : List Event)
      → All IsEvent events
      → length events ≤ fuel
      → parse_events dir_name fuel (encode_all events) ≡ ok (notices_of events)
  unfolding parse_events
  parse_events-encode_all fuel [] h l = refl
  parse_events-encode_all zero (e ∷ events) h l = absurd (omega arith)
  parse_events-encode_all (suc fuel) (e ∷ events) h l =
      parse_events-encode fuel e (encode_all events) h.0
      ∙ rw (parse_events-encode_all fuel events h.1 (omega arith)) refl

  length-encode_all : (events : List Event) → length events ≤ length (encode_all events)
  length-encode_all [] = omega arith
  length-encode_all (e ∷ events) =
      omega (arith, length-encode e (encode_all events), length-encode_all events)

  -- What is read of the events of the directory is told to the dispatchers: for each event whose
  -- file is a shared object one notice, of the file written or deleted, in the order of the
  -- events, and nothing else. The numbers of the events fit into their fields, and no byte of a
  -- name is 0.
  pub monitor_turn-encode_all :
      (dlopen : List ℕ → Option ℕ) (events : List Event) (running : Bool) (l : DllLoader)
      → All IsEvent events
      → monitor_turn dlopen dir_name (some (encode_all events)) running l
        ≡ (tell dlopen (notices_of events) l >>= λ l'. ok (some l'))
  unfolding monitor_turn
  monitor_turn-encode_all dlopen events running l h =
      rw
        (
          monitor_turn,
          parse_events-encode_all (length (encode_all events)) events h (length-encode_all events),
        )
        refl
