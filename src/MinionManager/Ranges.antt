-- ===== src/MinionManager/Ranges.antt =====
-- Which requests `AddReadTask` and `AddWriteTask` (concrete/src/MinionManager.cpp) carry out, and what
-- they then send.
use io_tbased_raid.Prelude.{
  ℕ, ◌+◌, ◌*◌, ◌/◌, ◌%◌, ◌≤◌, ◌<◌, ◌≡◌, refl, ap, ◌∙◌, Bool, true, false, none, some, List, [], ◌∷◌,
  ◌++◌, arith, length, length-append, get_elem?, get_elem?-of_le, drop, ltb, All,
}
use native.Mathlib.Nat.{mod-eq_of_lt}
use io_tbased_raid.Prelude.Words.{copy_out}
use io_tbased_raid.Prelude.Results.{ok, fault}
use io_tbased_raid.Splitter.{StripeSegment, size_mod, split}
use io_tbased_raid.Splitter.Loop.{Splits, done, more, split-total}
use io_tbased_raid.Splitter.Bounds.{IsInRange, split-IsInRange}
use io_tbased_raid.Message.{AMessage, read_send, write_send, to_buffer}
use io_tbased_raid.MinionProxy.{add_read_task, add_write_task}
use io_tbased_raid.MinionProxy.Callbacks.{send_message-ok}
use io_tbased_raid.Ticket.{TicketOp, read, write}
use io_tbased_raid.MinionManager.{
  MinionManager, Sender, slice, validate_range, send_segments, at_minion, open_ticket, add_task,
  add_read_task_to, add_write_task_to,
}
use io_tbased_raid.MinionManager.Requests.{Sends, Named, Sent, sent_to, packets, send_segments-Sent}

-- What `Init` sets up: a chunk size, and a drive of as many chunks as minions.
pub record IsManaged (m : MinionManager) : Type 0 where
  pub chunk_pos : 0 < m.mb_minion
  pub drive : m.drive_size ≡ length m.minions * m.mb_minion
  pub drive_fits : m.drive_size < size_mod

pub range_ok :
    (m : MinionManager) (offset len : ℕ)
    → offset + len ≤ m.drive_size
    → m.drive_size < size_mod
    → validate_range m offset len ≡ ok tt
range_ok m offset len h f = rw (
  mod-eq_of_lt {n = offset + len} {m = size_mod} (omega arith),
  not-ltb m.drive_size (offset + len) h,
)
  where
    not-ltb : (a b : ℕ) → b ≤ a → ltb a b ≡ false
    not-ltb a b h = ground arith

pub Named-of :
    (c n total : ℕ) (segs : List StripeSegment)
    → All (IsInRange c n total) segs
    → All (Named n) segs
Named-of c n total [] h = tt
Named-of c n total (seg ∷ segs) h = ((h.0.primary_in, h.0.backup_in), Named-of c n total segs h.1)

-- A request on the drive is cut up, its ticket is opened, and the loop sends everything.
pub add_task-Sent :
    (send : Sender) (op : TicketOp) (uid : ℕ) (datagram : StripeSegment → List ℕ) (offset len : ℕ)
    (m : MinionManager)
    → Sends send uid datagram
    → IsManaged m
    → offset + len ≤ m.drive_size
    → (segs : List StripeSegment) × (m' : MinionManager) × (split offset len m.mb_minion
          (length m.minions)
        ≡ some segs)
      × (add_task send op uid offset len m ≡ (m', ok tt))
      × Sent datagram 0 segs (open_ticket op uid len segs m) m'
unfolding add_task open_ticket
add_task-Sent send op uid datagram offset len m s v h =
    let (segs, e, _) = split-total offset len m.mb_minion (length m.minions) v.chunk_pos in
    let (m', e', sent) =
      send_segments-Sent send uid datagram s (length m.heap) 0 segs (open_ticket op uid len segs m)
        (Named-of m.mb_minion (length m.minions) len segs (
          split-IsInRange offset len m.mb_minion (length m.minions) v.chunk_pos
            (omega (arith, v.drive)) (omega (arith, v.drive_fits)) e)) in
    (segs, m', e, rw (range_ok m offset len h v.drive_fits, add_task) (rw (e, e')), sent)

-- The packet of a message that can be written.
abbrev pub datagram_of : (ℕ → ℕ) → AMessage → List ℕ
datagram_of junk message = elim (to_buffer junk message) [ ok d ↦ d | _ ↦ [] ]

abbrev pub read_packet : (ℕ → ℕ) → ℕ → StripeSegment → List ℕ
read_packet junk uid seg = datagram_of junk (read_send uid seg.local_offset seg.length)

abbrev pub write_packet : (ℕ → ℕ) → ℕ → List ℕ → StripeSegment → List ℕ
write_packet junk uid buffer seg =
    datagram_of junk (write_send uid seg.local_offset seg.length (slice junk buffer seg))

module _ (junk : ℕ → ℕ) (takes : List ℕ → Bool) (all_taken : (d : List ℕ) → takes d ≡ true)
    (uid : ℕ) where
  read_ok :
      (offset len : ℕ)
      → to_buffer junk (read_send uid offset len) ≡ ok (datagram_of junk (read_send uid offset len))
  unfolding to_buffer
  read_ok offset len = refl

  write_ok :
      (offset len : ℕ) (bytes : List ℕ)
      → to_buffer junk (write_send uid offset len (some bytes))
        ≡ ok (datagram_of junk (write_send uid offset len (some bytes)))
  unfolding to_buffer
  write_ok offset len bytes = refl

  pub add_read_task-Sends :
      Sends
        (λ seg c. add_read_task junk takes uid seg.local_offset seg.length c)
        uid
        (read_packet junk uid)
  unfolding add_read_task
  add_read_task-Sends seg c p =
      send_message-ok junk takes uid c _ _ p (read_ok seg.local_offset seg.length) (all_taken _)

  pub add_write_task-Sends :
      (buffer : List ℕ)
      → Sends
          (λ seg c.
            add_write_task junk takes uid seg.local_offset seg.length (slice junk buffer seg) c)
          uid
          (write_packet junk uid buffer)
  unfolding add_write_task
  add_write_task-Sends buffer seg c p =
      send_message-ok junk takes uid c _ _ p
        (write_ok seg.local_offset seg.length
          (copy_out junk 0 (drop seg.buffer_offset buffer) seg.length))
        (all_taken _)

  -- A read that lies on the drive, with a network that takes every datagram: the call returns, opens
  -- one ticket, and every minion is sent the read message of each segment that has it as primary or
  -- as backup, in order, and nothing else.
  pub add_read_task_to-sends :
      (offset len : ℕ) (m : MinionManager)
      → IsManaged m
      → offset + len ≤ m.drive_size
      → (segs : List StripeSegment) × (m' : MinionManager) × (split offset len m.mb_minion
            (length m.minions)
          ≡ some segs)
        × (add_read_task_to junk takes uid offset len m ≡ (m', ok tt))
        × (length m'.heap ≡ length m.heap + 1)
        × ((i : ℕ) → sent_to m' i ≡ sent_to m i ++ packets (read_packet junk uid) i segs)
  unfolding add_read_task_to open_ticket
  add_read_task_to-sends offset len m v h =
      let (segs, m', e, e', sent) =
        add_task-Sent _ read uid (read_packet junk uid) offset len m add_read_task-Sends v h in
      (segs, m', e, e', ap length sent.same_heap ∙ length-append m.heap _, sent.sends)

  -- A write that lies on the drive, with a network that takes every datagram: the call returns, opens
  -- one ticket, and every minion is sent the slice of the buffer of each segment that has it as primary
  -- or as backup, in order, and nothing else.
  pub add_write_task_to-sends :
      (offset len : ℕ) (buffer : List ℕ) (m : MinionManager)
      → IsManaged m
      → offset + len ≤ m.drive_size
      → (segs : List StripeSegment) × (m' : MinionManager) × (split offset len m.mb_minion
            (length m.minions)
          ≡ some segs)
        × (add_write_task_to junk takes uid offset len buffer m ≡ (m', ok tt))
        × (length m'.heap ≡ length m.heap + 1)
        × ((i : ℕ) → sent_to m' i ≡ sent_to m i ++ packets (write_packet junk uid buffer) i segs)
  unfolding add_write_task_to open_ticket
  add_write_task_to-sends offset len buffer m v h =
      let (segs, m', e, e', sent) =
        add_task-Sent _ write uid (write_packet junk uid buffer) offset len m
          (add_write_task-Sends buffer) v h in
      (segs, m', e, e', ap length sent.same_heap ∙ length-append m.heap _, sent.sends)

-- The loop's first step follows an element that does not exist.
first_faults :
    (send : Sender) (ticket c n : ℕ) {r o b : ℕ} {segs : List StripeSegment} (m : MinionManager)
    → 0 < r
    → get_elem? m.minions (o / c) ≡ none
    → Splits c n r o b segs
    → (send_segments send ticket 0 segs m).1 ≡ fault
unfolding send_segments at_minion
first_faults send ticket c n m h gone done = absurd (omega arith)
first_faults send ticket c n m h gone (more s) = rw (gone, at_minion)

behind_minions : (c n o : ℕ) → 0 < c → n * c ≤ o → n ≤ o / c
behind_minions c n o hc h = grind arith

range_passes : (a b : ℕ) → b ≤ a → ltb a b ≡ false
range_passes a b h = ground arith

-- A request that starts at or behind the end of the drive, and whose end wraps round 2 ^ 64 to a
-- place on the drive, passes the range check; the loop then follows an element of the vector of
-- minions that does not exist.
pub add_task-wraps :
    (send : Sender) (op : TicketOp) (uid offset len : ℕ) (m : MinionManager)
    → IsManaged m
    → m.drive_size ≤ offset
    → 0 < len
    → (offset + len) % size_mod ≤ m.drive_size
    → (add_task send op uid offset len m).1 ≡ fault
unfolding add_task open_ticket
add_task-wraps send op uid offset len m v behind pos wraps =
    let (segs, e, s) = split-total offset len m.mb_minion (length m.minions) v.chunk_pos in
    rw (range_passes m.drive_size ((offset + len) % size_mod) wraps, add_task)
      (rw e (
        first_faults send (length m.heap) m.mb_minion (length m.minions)
          (open_ticket op uid len segs m) pos
          (get_elem?-of_le m.minions (offset / m.mb_minion) (
            behind_minions m.mb_minion (length m.minions) offset v.chunk_pos
              (omega (arith, v.drive))))
          s))
