-- ===== src/Storage/ReadBack.antt =====
-- A write of the master of concrete/src/MinionManager.cpp, carried out by the minions, and a read of the
-- same bytes after it.
use io_tbased_raid.Prelude.{
  ℕ, ◌+◌, ◌^◌, ◌≤◌, ◌<◌, ◌≡◌, sym, ap, ap₂, ◌∙◌, subst, Bool, true, some, some_injective, List, [],
  ◌∷◌, ◌++◌, arith, length, drop, All, All-map,
}
use mathlib.Core.List.{Memᴰ}
use mathlib.Core.List.Memᴰ.{head, tail}
use io_tbased_raid.Prelude.Results.{ok}
use io_tbased_raid.Prelude.Words.{copy_out}
use io_tbased_raid.Splitter.{StripeSegment, size_mod, split}
use io_tbased_raid.Splitter.Bounds.{IsInRange, split-IsInRange}
use io_tbased_raid.Splitter.Loss.{Files, store_cells, bytes_of}
use io_tbased_raid.Message.{read_receive, byte_of_bool, to_buffer}
use io_tbased_raid.Packet.{MessageFactory, bufsiz}
use io_tbased_raid.Minion.{FileStream, ArgsFactory, Minion}
use io_tbased_raid.MinionManager.{MinionManager, slice, add_read_task_to, add_write_task_to}
use io_tbased_raid.MinionManager.Requests.{sent_to, packets}
use io_tbased_raid.MinionManager.Ranges.{
  IsManaged, read_packet, write_packet, add_read_task_to-sends, add_write_task_to-sends,
}
use io_tbased_raid.Storage.{IsFile, minion_serves, minions_serve}
use io_tbased_raid.Storage.Cells.{load_cells-store}
use io_tbased_raid.Storage.Files.{byte_at, copy_out-drop, bytes_of-same}
use io_tbased_raid.Storage.Serving.{IsPiece, serve_read}
use io_tbased_raid.Storage.Writing.{Arrival, arrival_cells, arriving, minions_serve-writes}
use io_tbased_raid.Storage.Cover.{Holds, Arrive, in_arrival_cells, arrivals-Agree}

pub All-Mem :
    {A : Type 0} (Each : A → Type 0) {x : A} (list : List A) → All Each list → Memᴰ x list → Each x
All-Mem Each [] h m = elim m [ ]
All-Mem Each (y ∷ list) h (head e) = subst Each (sym e) h.0
All-Mem Each (y ∷ list) h (tail m) = All-Mem Each list h.1 m

-- The segments of a request whose packets fit are pieces.
pub IsInRange-IsPiece :
    (size uid c n len total : ℕ) (seg : StripeSegment)
    → IsInRange c n len seg
    → uid < 2 ^ 64
    → len + 33 < bufsiz
    → c ≤ size
    → size < 2 ^ 64
    → total ≡ len
    → IsPiece size uid total seg
IsInRange-IsPiece size uid c n len total seg v hu hf hc hs e = record {
  uid_fits = hu;
  offset_fits = omega (arith, v.in_chunk);
  packet_fits = omega (arith, v.in_buffer);
  in_buffer = omega (arith, v.in_buffer, e);
  in_file = omega (arith, v.in_chunk);
}

module _ {ℓ} {S : Type ℓ} (stream : FileStream S) (junk : ℕ → ℕ) (takes : List ℕ → Bool)
    (all_taken : (d : List ℕ) → takes d ≡ true) (args : ArgsFactory) (messages : MessageFactory)
    (size : ℕ) (at : S → ℕ → ℕ) (IsOpen : S → Type 0) (laws : IsFile stream size at IsOpen) where
  -- After the write packets every minion of a segment has its bytes.
  held :
      (offset len c n : ℕ) (segs : List StripeSegment) (arrivals : List Arrival) (buffer : List ℕ)
      (files : Files)
      → 0 < c
      → len ≤ c
      → offset + len < size_mod
      → split offset len c n ≡ some segs
      → Arrive segs arrivals
      → (seg : StripeSegment) (i : ℕ) → Memᴰ seg segs
      → Holds seg i
      → bytes_of
          (store_cells (byte_at buffer) (arrival_cells arrivals) files i)
          seg.local_offset
          seg.length
        ≡ bytes_of (byte_at buffer) seg.buffer_offset seg.length
  held offset len c n segs arrivals buffer files hc h w e arrive seg i m holds =
      load_cells-store (byte_at buffer) (arrival_cells arrivals) files
        (arrivals-Agree offset len c n arrivals (byte_at buffer) hc h w e arrive) seg.buffer_offset
        i seg.local_offset seg.length
        (λ b l k. in_arrival_cells arrivals (arrive.all_arrive seg i m holds) k)

  -- The minions' part.
  minions_read_back :
      (uid uid' offset len c n : ℕ) (segs : List StripeSegment) (arrivals : List Arrival)
      (buffer : List ℕ) (seg : StripeSegment) (i : ℕ) (ms : ℕ → Minion S)
      → 0 < c
      → len ≤ c
      → offset + len < size_mod
      → split offset len c n ≡ some segs
      → All (IsPiece size uid (length buffer)) segs
      → uid' < 2 ^ 64
      → ((j : ℕ) → IsOpen (ms j).file)
      → Arrive segs arrivals
      → Memᴰ seg segs
      → Holds seg i
      → (ms' : ℕ → Minion S) × (q : Minion S) × (reply : List ℕ) × (minions_serve stream junk takes
            args messages
            (arriving junk uid buffer arrivals)
            ms
          ≡ ok ms')
        × (minion_serves stream junk takes args messages (read_packet junk uid' seg) (ms' i) ≡ ok q)
        × (q.sent ≡ (ms' i).sent ++ (reply ∷ []))
        × (to_buffer junk (read_receive uid' (byte_of_bool true) seg.length (slice junk buffer seg))
            ≡ ok reply)
  minions_read_back uid uid' offset len c n segs arrivals buffer seg i ms hc h w e pieces hu'
        is_open arrive m holds =
      let (ms', e', still, now) =
        minions_serve-writes stream junk takes all_taken args messages size at IsOpen laws uid
          buffer arrivals ms
          (All-map
            (λ a (p : Memᴰ a.1 segs × Holds a.1 a.0).
              All-Mem (IsPiece size uid (length buffer)) segs pieces p.0)
            arrivals arrive.sent)
          is_open in
      let piece : IsPiece size uid (length buffer) seg =
        All-Mem (IsPiece size uid (length buffer)) segs pieces m in
      let (q, reply, e'', last, answer) =
        serve_read stream junk takes all_taken args messages size at IsOpen laws uid'
          seg.local_offset seg.length (ms' i)
          (hu', piece.offset_fits, omega (arith, piece.packet_fits))
          (omega (arith, piece.packet_fits)) piece.in_file (still i) in
      let bytes : bytes_of (at (ms' i).file) seg.local_offset seg.length
          ≡ copy_out junk 0 (drop seg.buffer_offset buffer) seg.length =
        bytes_of-same _ _ (now i) seg.local_offset seg.length
        ∙ held offset len c n segs arrivals buffer (λ j p. at (ms j).file p) hc h w e arrive seg i m
            holds
        ∙ sym (copy_out-drop junk seg.buffer_offset seg.length buffer piece.in_buffer) in
      (
        ms',
        q,
        reply,
        e',
        e'',
        last,
        ap (λ x. to_buffer junk (read_receive uid' (byte_of_bool true) seg.length (some x)))
              (sym bytes)
            ∙ answer,
      )

  -- A write that lies on the drive, of at most a chunk and small enough for its packets to fit, and a
  -- read of the same bytes after it, by a manager with as many minions and chunks of the same size.
  -- Both calls return, and send every minion the packets of the same segments. Say the write's packets,
  -- and no others, arrive at the minions to which they were sent, in any order, each at least once: the
  -- minions serve them all. A minion that is then served the read packet of a segment of which it has
  -- the primary or the backup answers with a success and the very bytes of the buffer that the write was
  -- given for the segment. The network takes every datagram; the minions are initialised, and have open
  -- files of at least a chunk.
  pub read_after_write :
      (uid uid' offset len : ℕ) (buffer : List ℕ) (m later : MinionManager) (ms : ℕ → Minion S)
      (segs : List StripeSegment) (arrivals : List Arrival) (seg : StripeSegment) (i : ℕ)
      → IsManaged m
      → IsManaged later
      → later.mb_minion ≡ m.mb_minion
      → length later.minions ≡ length m.minions
      → offset + len ≤ m.drive_size
      → len ≤ m.mb_minion
      → len + 33 < bufsiz
      → length buffer ≡ len
      → uid < 2 ^ 64
      → uid' < 2 ^ 64
      → m.mb_minion ≤ size
      → size < 2 ^ 64
      → ((j : ℕ) → IsOpen (ms j).file)
      → split offset len m.mb_minion (length m.minions) ≡ some segs
      → Arrive segs arrivals
      → Memᴰ seg segs
      → Holds seg i
      → (m' later' : MinionManager) × (ms' : ℕ → Minion S) × (q : Minion S) × (reply : List ℕ)
        × (add_write_task_to junk takes uid offset len buffer m ≡ (m', ok tt))
        × ((j : ℕ) → sent_to m' j ≡ sent_to m j ++ packets (write_packet junk uid buffer) j segs)
        × (add_read_task_to junk takes uid' offset len later ≡ (later', ok tt))
        × ((j : ℕ) → sent_to later' j ≡ sent_to later j ++ packets (read_packet junk uid') j segs)
        × (minions_serve stream junk takes args messages (arriving junk uid buffer arrivals) ms
            ≡ ok ms')
        × (minion_serves stream junk takes args messages (read_packet junk uid' seg) (ms' i) ≡ ok q)
        × (q.sent ≡ (ms' i).sent ++ (reply ∷ []))
        × (to_buffer junk (read_receive uid' (byte_of_bool true) seg.length (slice junk buffer seg))
            ≡ ok reply)
  read_after_write uid uid' offset len buffer m later ms segs arrivals seg i v v' ec el inside short
        fits full hu hu' hc hs is_open e arrive at_seg holds =
      let (segs₀, m', e₀, call, _, sent) =
        add_write_task_to-sends junk takes all_taken uid offset len buffer m v inside in
      let (segs₁, later', e₁, call', _, sent') =
        add_read_task_to-sends junk takes all_taken uid' offset len later v'
          (rw (v'.drive, el, ec, ← v.drive) inside) in
      let same : segs₀ ≡ segs = some_injective (sym e₀ ∙ e) in
      let same' : segs₁ ≡ segs = some_injective (sym e₁ ∙ ap₂ (split offset len) ec el ∙ e) in
      let pieces : All (IsPiece size uid (length buffer)) segs =
        All-map
          (λ s r.
            IsInRange-IsPiece size uid m.mb_minion (length m.minions) len (length buffer) s r hu
              fits hc hs full)
          segs
          (split-IsInRange offset len m.mb_minion (length m.minions) v.chunk_pos
            (omega (arith, v.drive)) (omega (arith, v.drive_fits)) e) in
      let (ms', q, reply, served, read, last, answer) =
        minions_read_back uid uid' offset len m.mb_minion (length m.minions) segs arrivals buffer
          seg i ms v.chunk_pos short (omega (arith, v.drive_fits)) e pieces hu' is_open arrive
          at_seg holds in
      (
        m',
        later',
        ms',
        q,
        reply,
        call,
        λ j. sent j ∙ ap (λ s. sent_to m j ++ packets (write_packet junk uid buffer) j s) same,
        call',
        λ j. sent' j ∙ ap (λ s. sent_to later j ++ packets (read_packet junk uid') j s) same',
        served,
        read,
        last,
        answer,
      )
