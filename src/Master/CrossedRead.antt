-- ===== src/Master/CrossedRead.antt =====
-- A read over the border of two chunks (concrete/src/MinionManager.cpp, concrete/src/MinionProxy.cpp): the minion behind
-- the border has the second piece and the mirror of the first.
use io_tbased_raid.Prelude.{
  ℕ, ◌+◌, ◌-◌, ◌*◌, ◌%◌, ◌^◌, ◌≤◌, ◌<◌, ◌≡◌, ◌≢◌, refl, sym, ap, ◌∙◌, subst, Bool, true, Option,
  none, some, List, [], ◌∷◌, arith, length, get_elem?, All,
}
use io_tbased_raid.Prelude.Maps.{lookup}
use io_tbased_raid.Prelude.Words.{copy_out}
use io_tbased_raid.Prelude.Results.{ok}
use io_tbased_raid.Splitter.{StripeSegment, size_mod, split}
use io_tbased_raid.Splitter.Loop.{split-Splits}
use io_tbased_raid.Splitter.Bounds.{IsInRange, split-IsInRange}
use io_tbased_raid.Message.{read_receive, read_receive_type, to_buffer}
use io_tbased_raid.Packet.{MessageFactory, bufsiz}
use io_tbased_raid.Packet.Delivery.{Makes}
use io_tbased_raid.Ticket.{primary, backup, read}
use io_tbased_raid.MinionProxy.{MinionProxy, OnDone, add_read_task, on_minion_fd_wake_up}
use io_tbased_raid.MinionProxy.Callbacks.{wake_up-reply}
use io_tbased_raid.MinionManager.{
  MinionManager, Sender, send_segments, open_ticket, add_read_task_to,
}
use io_tbased_raid.MinionManager.Requests.{Sends, Named, callback_of, noted_in, at_minion-Changes}
use io_tbased_raid.MinionManager.Ranges.{IsManaged, read_packet, Named-of, add_read_task-Sends}
use io_tbased_raid.Master.Pieces.{crossing_segments, add_task-cut, open_ticket-minions}

-- A noted callback is that of a minion that exists.
pub noted_in-found :
    (uid : ℕ) (p : Option MinionProxy) {c : OnDone}
    → noted_in uid p ≡ some c
    → (q : MinionProxy) × (p ≡ some q) × (lookup uid q.map ≡ some c)
noted_in-found uid none e = cc
noted_in-found uid (some q) e = (q, refl, e)

module _ (send : Sender) (uid : ℕ) (datagram : StripeSegment → List ℕ)
    (ok_send : Sends send uid datagram) (ticket : ℕ) where
  abbrev second_primary : OnDone
  second_primary = record { ticket = ticket; segment_idx = 1; role = primary }

  -- After the loop over two segments that share a minion it has the callback of the second one.
  two_segments :
      (s0 s1 : StripeSegment) (m : MinionManager)
      → s1.primary_minion_index ≡ s0.backup_minion_index
      → s1.backup_minion_index ≢ s1.primary_minion_index
      → All (Named (length m.minions)) (s0 ∷ s1 ∷ [])
      → (m' : MinionManager) × (send_segments send ticket 0 (s0 ∷ s1 ∷ []) m ≡ (m', ok tt))
        × (callback_of m' s0.backup_minion_index uid ≡ some second_primary)
  unfolding send_segments
  two_segments s0 s1 m same ne (n0, (n1, ns)) =
      let (m1, e1, v1) =
        at_minion-Changes send uid datagram ok_send s0.primary_minion_index s0
          (record { ticket = ticket; segment_idx = 0; role = primary }) m n0.0 in
      let (m2, e2, v2) =
        at_minion-Changes send uid datagram ok_send s0.backup_minion_index s0
          (record { ticket = ticket; segment_idx = 0; role = backup }) m1
          (omega (arith, v1.same_length)) in
      let (m3, e3, v3) =
        at_minion-Changes send uid datagram ok_send s1.primary_minion_index s1 second_primary m2
          (omega (arith, v1.same_length, v2.same_length)) in
      let (m4, e4, v4) =
        at_minion-Changes send uid datagram ok_send s1.backup_minion_index s1
          (record { ticket = ticket; segment_idx = 1; role = backup }) m3
          (omega (arith, v1.same_length, v2.same_length, v3.same_length)) in
      let here : callback_of m3 s0.backup_minion_index uid ≡ some second_primary =
        v3.notes s0.backup_minion_index uid ∙ ground (arith, same) in
      let still : callback_of m4 s0.backup_minion_index uid
          ≡ callback_of m3 s0.backup_minion_index uid =
        v4.notes s0.backup_minion_index uid ∙ ground (arith, same, ne) in
      (m4, rw (e1, e2, e3, e4) refl, still ∙ here)

-- A read on the drive that is cut into two pieces by the border of a chunk, with at least two minions and a network that
-- takes every datagram. The call returns, and when the minion that has the mirror of the first piece then answers for that
-- piece, the master takes its answer for the primary's of the second piece: it runs that callback, with the first piece's
-- bytes. (The answer's packet fits, and the master knows the class of such answers.)
pub crossed_read_mixes :
    (junk : ℕ → ℕ) (takes : List ℕ → Bool) (uid offset len : ℕ) (m : MinionManager)
    (s0 s1 : StripeSegment) (factory : MessageFactory) (data' : List ℕ)
    → ((d : List ℕ) → takes d ≡ true)
    → IsManaged m
    → offset + len ≤ m.drive_size
    → m.mb_minion - offset % m.mb_minion < len
    → 2 ≤ length m.minions
    → split offset len m.mb_minion (length m.minions) ≡ some (s0 ∷ s1 ∷ [])
    → uid < 2 ^ 64
    → s0.length + 25 < bufsiz
    → Makes factory read_receive_type
    → (m' : MinionManager) × (p p' : MinionProxy) × (datagram : List ℕ) × (add_read_task_to junk
          takes uid offset len m
        ≡ (m', ok tt))
      × (get_elem? m'.minions s0.backup_minion_index ≡ some p)
      × (to_buffer junk (read_receive uid 1 s0.length (some data')) ≡ ok datagram)
      × (on_minion_fd_wake_up factory (some datagram) p
          ≡ ok (
            p',
            some (
              record { ticket = length m.heap; segment_idx = 1; role = primary },
              read_receive uid 1 s0.length (some (copy_out junk 0 data' s0.length)),
            ),
          ))
unfolding add_read_task_to
crossed_read_mixes junk takes uid offset len m s0 s1 factory data' all_taken v inside crosses two
      cut hu fits makes =
    let c : ℕ = m.mb_minion in
    let n : ℕ = length m.minions in
    let on_drive : offset + len ≤ n * c = omega (arith, v.drive) in
    let below : offset + len < size_mod = omega (arith, v.drive_fits) in
    let ranges : All (IsInRange c n len) (s0 ∷ s1 ∷ []) =
      split-IsInRange offset len c n v.chunk_pos on_drive below cut in
    let (t0, t1, rest, shape, same) =
      crossing_segments c n offset len v.chunk_pos crosses on_drive below
        (split-Splits offset len c n v.chunk_pos cut) in
    let first : s0 ≡ t0 = cc in
    let second : s1 ≡ t1 = cc in
    let shared : s1.primary_minion_index ≡ s0.backup_minion_index =
      ap (λ (s : StripeSegment). s.primary_minion_index) second
      ∙ same
      ∙ ap (λ (s : StripeSegment). s.backup_minion_index) (sym first) in
    let segs : List StripeSegment = s0 ∷ s1 ∷ [] in
    let opened : MinionManager = open_ticket read uid len segs m in
    let send : Sender =
      λ seg called. add_read_task junk takes uid seg.local_offset seg.length called in
    let (m', e, noted) =
      two_segments send uid (read_packet junk uid) (add_read_task-Sends junk takes all_taken uid)
        (length m.heap) s0 s1 opened shared (ranges.1.0.mirrored two)
        (subst (λ xs. All (Named (length xs)) segs) (sym (open_ticket-minions read uid len segs m))
          (Named-of c n len segs ranges)) in
    let (p, found, kept) = noted_in-found uid (get_elem? m'.minions s0.backup_minion_index) noted in
    let (datagram, p', sent, taken, _) =
      wake_up-reply factory junk (read_receive uid 1 s0.length (some data')) p
        (record { ticket = length m.heap; segment_idx = 1; role = primary })
        (hu, omega arith, omega (arith, fits)) (omega (arith, fits)) makes kept in
    (
      m',
      p,
      p',
      datagram,
      add_task-cut send read uid offset len m v inside cut ∙ e,
      found,
      sent,
      taken,
    )
