-- ===== src/Storage/Refinement.antt =====
-- Writes of the master one after the other, as an abstract drive sees them: bytes by their places on the drive.
use io_tbased_raid.Prelude.{
  ℕ, ◌+◌, ◌*◌, ◌/◌, ◌%◌, ◌^◌, ◌≤◌, ◌<◌, ◌≡◌, refl, ap, ◌∙◌, Bool, true, some, List, [], ◌∷◌, arith,
  length, All, All-map,
}
use mathlib.Core.List.{Memᴰ}
use io_tbased_raid.Prelude.Results.{Result, ok, ◌>>=◌}
use io_tbased_raid.Splitter.{StripeSegment, size_mod, split}
use io_tbased_raid.Splitter.Bounds.{split-IsInRange}
use io_tbased_raid.Packet.{MessageFactory, bufsiz}
use io_tbased_raid.Minion.{FileStream, ArgsFactory, Minion}
use io_tbased_raid.Storage.{IsFile, minions_serve}
use io_tbased_raid.Storage.Files.{byte_at}
use io_tbased_raid.Storage.Serving.{IsPiece}
use io_tbased_raid.Storage.Writing.{Arrival, arriving, minions_serve-writes}
use io_tbased_raid.Storage.Cover.{Holds, Arrive}
use io_tbased_raid.Storage.Drive.{byte_after}
use io_tbased_raid.Storage.Written.{byte_written}
use io_tbased_raid.Storage.ReadBack.{All-Mem, IsInRange-IsPiece}

-- A write, with its segments, and the order in which their packets arrive.
pub record Written : Type 0 where
  pub uid : ℕ
  pub offset : ℕ
  pub buffer : List ℕ
  pub segs : List StripeSegment
  pub arrivals : List Arrival

-- A write on the drive of `n` chunks of `c` bytes, of at most a chunk, whose packets fit and all arrive.
pub record IsWritten (c n : ℕ) (w : Written) : Type 0 where
  pub cut : split w.offset (length w.buffer) c n ≡ some w.segs
  pub arrive : Arrive w.segs w.arrivals
  pub inside : w.offset + length w.buffer ≤ n * c
  pub short : length w.buffer ≤ c
  pub packets_fit : length w.buffer + 33 < bufsiz
  pub uid_fits : w.uid < 2 ^ 64

-- The abstract drive: a byte after all writes.
abbrev pub byte_after_all : ℕ → ℕ → List Written → ℕ → ℕ → ℕ
byte_after_all c n [] o old = old
byte_after_all c n (w ∷ ws) o old =
    byte_after_all c n ws o (byte_after c n w.offset (length w.buffer) (byte_at w.buffer) o old)

module _ {ℓ} {S : Type ℓ} (stream : FileStream S) (junk : ℕ → ℕ) (takes : List ℕ → Bool)
    (args : ArgsFactory) (messages : MessageFactory) where
  -- The minions serve the packets of one write after those of the other.
  abbrev pub serve_writes : List Written → (ℕ → Minion S) → Result (ℕ → Minion S)
  serve_writes [] ms = ok ms
  serve_writes (w ∷ ws) ms =
      minions_serve stream junk takes args messages (arriving junk w.uid w.buffer w.arrivals) ms
      >>= serve_writes ws

-- The byte of the drive, at its primary.
abbrev pub byte_of {ℓ} : {S : Type ℓ} → (S → ℕ → ℕ) → ℕ → (ℕ → Minion S) → ℕ → ℕ
byte_of at c ms o = at (ms (o / c)).file (o % c)

module _ {ℓ} {S : Type ℓ} (stream : FileStream S) (junk : ℕ → ℕ) (takes : List ℕ → Bool)
    (all_taken : (d : List ℕ) → takes d ≡ true) (args : ArgsFactory) (messages : MessageFactory)
    (size : ℕ) (at : S → ℕ → ℕ) (IsOpen : S → Type 0) (laws : IsFile stream size at IsOpen) where
  write_refines :
      (c n : ℕ) (w : Written) (ms : ℕ → Minion S)
      → 0 < c
      → n * c < size_mod
      → c ≤ size
      → size < 2 ^ 64
      → IsWritten c n w
      → ((i : ℕ) → IsOpen (ms i).file)
      → (ms' : ℕ → Minion S) × (minions_serve stream junk takes args messages
            (arriving junk w.uid w.buffer w.arrivals)
            ms
          ≡ ok ms')
        × ((i : ℕ) → IsOpen (ms' i).file)
        × ((o : ℕ)
            → o < n * c
            → byte_of at c ms' o
              ≡ byte_after c n w.offset (length w.buffer) (byte_at w.buffer) o (byte_of at c ms o))
  write_refines c n w ms hc fits hs hs' v is_open =
      let pieces : All (IsPiece size w.uid (length w.buffer)) w.segs =
        All-map
          (λ s r.
            IsInRange-IsPiece size w.uid c n (length w.buffer) (length w.buffer) s r v.uid_fits
              v.packets_fit hs hs' refl)
          w.segs
          (split-IsInRange w.offset (length w.buffer) c n hc v.inside (omega (arith, v.inside))
            v.cut) in
      let (ms', e, still, now) =
        minions_serve-writes stream junk takes all_taken args messages size at IsOpen laws w.uid
          w.buffer w.arrivals ms
          (All-map
            (λ a (p : Memᴰ a.1 w.segs × Holds a.1 a.0).
              All-Mem (IsPiece size w.uid (length w.buffer)) w.segs pieces p.0)
            w.arrivals v.arrive.sent)
          is_open in
      (
        ms',
        e,
        still,
        λ o ho.
            now (o / c) (o % c)
            ∙ byte_written w.offset (length w.buffer) c n w.segs w.arrivals hc v.short v.inside fits
                v.cut v.arrive (byte_at w.buffer) (λ i p. at (ms i).file p) o ho,
      )

  -- Any number of writes on the drive, each of at most a chunk and small enough for its packets to fit, and each served
  -- before the packets of the next arrive, in any order and each packet at least once: the minions serve them all, and
  -- after that each byte of the drive is, at its primary, what the abstract drive says. There a write sets the bytes of
  -- its range; it also sets the bytes one chunk further on, round the end of the drive, since those have the places of
  -- the mirrors; and it leaves all others. The minions are initialised, and have open files of at least a chunk; the
  -- drive is below 2 ^ 64 bytes.
  pub writes-refine :
      (c n : ℕ) (ws : List Written) (ms : ℕ → Minion S) (o : ℕ)
      → 0 < c
      → n * c < size_mod
      → c ≤ size
      → size < 2 ^ 64
      → All (IsWritten c n) ws
      → ((i : ℕ) → IsOpen (ms i).file)
      → o < n * c
      → (ms' : ℕ → Minion S) × (serve_writes stream junk takes args messages ws ms ≡ ok ms')
        × (byte_of at c ms' o ≡ byte_after_all c n ws o (byte_of at c ms o))
  writes-refine c n [] ms o hc fits hs hs' v is_open ho = (ms, refl, refl)
  writes-refine c n (w ∷ ws) ms o hc fits hs hs' v is_open ho =
      let (ms', e, still, now) = write_refines c n w ms hc fits hs hs' v.0 is_open in
      let (ms'', e', after) = writes-refine c n ws ms' o hc fits hs hs' v.1 still ho in
      (ms'', rw e e', after ∙ ap (byte_after_all c n ws o) (now o ho))
