-- ===== src/Storage/Writing.antt =====
-- The minions serve the write packets of a request in some order.
use io_tbased_raid.Prelude.{
  ℕ, ◌≡◌, refl, sym, ap, ◌∙◌, Bool, true, List, [], ◌∷◌, ◌++◌, inl, inr, length, All, Bool-cases,
  ==_iff, ◌==◌, if◌then◌else◌,
}
use io_tbased_raid.Prelude.Results.{ok}
use io_tbased_raid.Splitter.{StripeSegment}
use io_tbased_raid.Splitter.Address.{Cell, cells_at}
use io_tbased_raid.Splitter.Loss.{Files, store_cells, bytes_of}
use io_tbased_raid.Packet.{MessageFactory}
use io_tbased_raid.Minion.{FileStream, ArgsFactory, Minion}
use io_tbased_raid.MinionManager.Ranges.{write_packet}
use io_tbased_raid.Storage.{IsFile, overwrite, serve_at, serve_all, minions_serve}
use io_tbased_raid.Storage.Files.{
  byte_at, store_cells_own, store_cells_other, store_cells-append, store_cells-same,
}
use io_tbased_raid.Storage.Serving.{IsPiece, serve_piece}

-- A segment's packet, and the minion at which it arrives.
abbrev pub Arrival : Type 0
Arrival = ℕ × StripeSegment

abbrev pub arrival_cells : List Arrival → List Cell
arrival_cells [] = []
arrival_cells ((i, seg) ∷ arrivals) =
    cells_at seg.buffer_offset i seg.local_offset seg.length ++ arrival_cells arrivals

abbrev pub arriving : (ℕ → ℕ) → ℕ → List ℕ → List Arrival → List (ℕ × List ℕ)
arriving junk uid buffer [] = []
arriving junk uid buffer ((i, seg) ∷ arrivals) =
    (i, write_packet junk uid buffer seg) ∷ arriving junk uid buffer arrivals

module _ {ℓ} {S : Type ℓ} (stream : FileStream S) (junk : ℕ → ℕ) (takes : List ℕ → Bool)
    (all_taken : (d : List ℕ) → takes d ≡ true) (args : ArgsFactory) (messages : MessageFactory)
    (size : ℕ) (at : S → ℕ → ℕ) (IsOpen : S → Type 0) (laws : IsFile stream size at IsOpen) where
  -- The bytes of all minions' files.
  abbrev pub view : (ℕ → Minion S) → Files
  view ms i p = at (ms i).file p

  abbrev pub AllOpen : (ℕ → Minion S) → Type 0
  AllOpen ms = (i : ℕ) → IsOpen (ms i).file

  abbrev replaced : ℕ → Minion S → (ℕ → Minion S) → ℕ → Minion S
  replaced i m ms j = if i == j then m else ms j

  replaced-IsOpen :
      (i j : ℕ) (m : Minion S) (ms : ℕ → Minion S)
      → IsOpen m.file
      → AllOpen ms
      → IsOpen (replaced i m ms j).file
  replaced-IsOpen i j m ms h all = elim (Bool-cases (i == j)) [
    | inl t ↦ rw t h
    | inr f ↦ rw f (all j)
  ]

  view-replaced :
      (buffer : List ℕ) (i j p : ℕ) (seg : StripeSegment) (m : Minion S) (ms : ℕ → Minion S)
      → ((q : ℕ)
          → at m.file q
            ≡ overwrite
                (at (ms i).file)
                seg.local_offset
                (bytes_of (byte_at buffer) seg.buffer_offset seg.length)
                q)
      → view (replaced i m ms) j p
        ≡ store_cells
            (byte_at buffer)
            (cells_at seg.buffer_offset i seg.local_offset seg.length)
            (view ms)
            j
            p
  view-replaced buffer i j p seg m ms now = elim (Bool-cases (i == j)) [
    | inl t ↦
        rw (t, ← (==_iff i j).0 t)
          (now p
            ∙ sym (
                store_cells_own (byte_at buffer) seg.buffer_offset i seg.local_offset seg.length
                  (view ms) (at (ms i).file) p (λ q. refl)))
    | inr f ↦ rw f (
        sym (
          store_cells_other (byte_at buffer) seg.buffer_offset i seg.local_offset seg.length
            (view ms) j p f))
  ]

  pub minions_serve-writes :
      (uid : ℕ) (buffer : List ℕ) (arrivals : List Arrival) (ms : ℕ → Minion S)
      → All (λ (a : Arrival). IsPiece size uid (length buffer) a.1) arrivals
      → AllOpen ms
      → (ms' : ℕ → Minion S) × (minions_serve stream junk takes args messages
            (arriving junk uid buffer arrivals)
            ms
          ≡ ok ms')
        × AllOpen ms'
        × ((i p : ℕ)
            → view ms' i p ≡ store_cells (byte_at buffer) (arrival_cells arrivals) (view ms) i p)
  unfolding serve_all
  minions_serve-writes uid buffer [] ms pieces is_open = (ms, refl, is_open, λ i p. refl)
  minions_serve-writes uid buffer ((i, seg) ∷ arrivals) ms pieces is_open =
      let (m, e, h, now) =
        serve_piece stream junk takes all_taken args messages size at IsOpen laws uid buffer seg
          (ms i) pieces.0 (is_open i) in
      let next : ℕ → Minion S = replaced i m ms in
      let (ms', e', h', now') =
        minions_serve-writes uid buffer arrivals next pieces.1
          (λ j. replaced-IsOpen i j m ms h is_open) in
      (
        ms',
        rw (e, serve_at) e',
        h',
        λ j p.
            now' j p
            ∙ store_cells-same (byte_at buffer) (arrival_cells arrivals) (view next) _
                (λ j' p'. view-replaced buffer i j' p' seg m ms now) j p
            ∙ ap (λ f. f j p)
                (sym (
                  store_cells-append (byte_at buffer)
                    (cells_at seg.buffer_offset i seg.local_offset seg.length)
                    (arrival_cells arrivals) (view ms))),
      )
