-- ===== src/Storage.antt =====
-- The minions of concrete/src/MasterProxy.cpp and MinionCommands.cpp side by side, which serve the datagrams that the
-- master of concrete/src/MinionManager.cpp sends.
pub mod Cells
pub mod Files
pub mod Serving
pub mod Writing
pub mod Cover
pub mod Contents
pub mod ReadResult
pub mod Drive
pub mod Written
pub mod ReadBack
pub mod Refinement
use io_tbased_raid.Prelude.{
  ℕ, ◌+◌, ◌≤◌, ◌≡◌, Bool, true, Option, none, some, List, [], ◌∷◌, ◌==◌, if◌then◌else◌, length,
}
use io_tbased_raid.Prelude.Results.{Result, ok, throw, fault, ◌>>=◌}
use io_tbased_raid.Packet.{MessageFactory}
use io_tbased_raid.Minion.{
  FileStream, MinionArgs, get_key, ArgsFactory, Minion, init, get_task_args, read_command,
  write_command,
}
use io_tbased_raid.Splitter.Loss.{bytes_of}

-- The bytes of a file after a write of a list at an offset.
abbrev pub overwrite : (ℕ → ℕ) → ℕ → List ℕ → ℕ → ℕ
overwrite old o [] = old
overwrite old o (b ∷ bytes) = overwrite (λ p. if o == p then b else old p) (o + 1) bytes

-- What the standard library says of a stream on a file of at least `size` bytes: while it is open and in
-- order, a read or a write inside that size succeeds and leaves it so, a read gives the bytes that are
-- there and changes none, and a write changes those bytes alone.
pub record IsFile {ℓ} {S : Type ℓ} (stream : FileStream S) (size : ℕ) (at : S → ℕ → ℕ)
    (IsOpen : S → Type 0) : Type ℓ where
  pub read_gives :
      (o n : ℕ) (s : S)
      → IsOpen s
      → o + n ≤ size
      → (stream.read n (stream.seekg o s)).1 ≡ bytes_of (at s) o n
  pub read_leaves :
      (o n : ℕ) (s : S)
      → IsOpen s
      → o + n ≤ size
      → let s' = (stream.read n (stream.seekg o s)).0 in
        IsOpen s' × (stream.good s' ≡ true) × ((p : ℕ) → at s' p ≡ at s p)
  pub write_leaves :
      (o : ℕ) (bytes : List ℕ) (s : S)
      → IsOpen s
      → o + length bytes ≤ size
      → let s' = stream.flush (stream.write bytes (stream.seekp o s)) in
        IsOpen s' × (stream.good s' ≡ true) × ((p : ℕ) → at s' p ≡ overwrite (at s) o bytes p)

-- The command of the arguments' key runs, if there are any: key 1 is a read.
abbrev pub run_args {ℓ} :
    {S : Type ℓ}
    → FileStream S
    → (ℕ → ℕ)
    → (List ℕ → Bool)
    → Option MinionArgs
    → Minion S
    → Result (Minion S)
run_args stream junk takes none m = ok m
run_args stream junk takes (some a) m =
    if get_key a == 1
    then read_command stream junk takes a m
    else write_command stream junk takes a m

module _ {ℓ} {S : Type ℓ} (stream : FileStream S) (junk : ℕ → ℕ) (takes : List ℕ → Bool)
    (args : ArgsFactory) (messages : MessageFactory) where
  -- A minion takes a datagram and runs its command.
  unfoldable pub serve : List ℕ → Minion S → Result (Minion S)
  serve datagram m =
      get_task_args args messages (some datagram) >>= λ made. run_args stream junk takes made m

  -- The minions, of which one takes a datagram; and several datagrams, each at its minion.
  unfoldable pub serve_at : ℕ → List ℕ → (ℕ → Minion S) → Result (ℕ → Minion S)
  unfolding serve
  serve_at i datagram ms = serve datagram (ms i) >>= λ m. ok (λ j. if i == j then m else ms j)

  unfoldable pub serve_all : List (ℕ × List ℕ) → (ℕ → Minion S) → Result (ℕ → Minion S)
  unfolding serve_at
  serve_all [] ms = ok ms
  serve_all ((i, datagram) ∷ arrivals) ms = serve_at i datagram ms >>= serve_all arrivals

module _ {ℓ} {S : Type ℓ} (stream : FileStream S) (junk : ℕ → ℕ) (takes : List ℕ → Bool)
    (args : ArgsFactory) (messages : MessageFactory) where
  -- A minion that is initialised, and minions that are.
  abbrev pub minion_serves : List ℕ → Minion S → Result (Minion S)
  minion_serves = serve stream junk takes (init args messages).0 (init args messages).1

  abbrev pub minions_serve : List (ℕ × List ℕ) → (ℕ → Minion S) → Result (ℕ → Minion S)
  minions_serve = serve_all stream junk takes (init args messages).0 (init args messages).1
