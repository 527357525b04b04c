-- ===== src/Master/LostWrite.antt =====
-- `MinionManager::AddWriteTask` (concrete/src/MinionManager.cpp) for a write over the border of two
-- chunks, and the packets that arrive after it.
use io_tbased_raid.Prelude.{ℕ, ◌+◌, ◌-◌, ◌%◌, ◌≤◌, ◌<◌, ◌≡◌, Bool, true, List, length}
use io_tbased_raid.Splitter.{StripeSegment}
use io_tbased_raid.ResponseManager.{ResponseManager}
use io_tbased_raid.Ticket.{Ticket, MirrorRole}
use io_tbased_raid.Ticket
use io_tbased_raid.NbdProxy.{NbdProxy}
use io_tbased_raid.MinionProxy.{OnDone, add_write_task}
use io_tbased_raid.MinionManager.{MinionManager, Sender, slice}
use io_tbased_raid.MinionManager.Requests.{Sends, Absent}
use io_tbased_raid.MinionManager.Ranges.{IsManaged}
use io_tbased_raid.Master.{Master}
use io_tbased_raid.Master.Crossing.{first_backup}

module _ (send : Sender) (uid : ℕ) (datagram : StripeSegment → List ℕ)
    (ok_send : Sends send uid datagram) (ticket : ℕ) where
  abbrev c0 : MirrorRole → OnDone
  c0 role = record { ticket = ticket; segment_idx = 0; role = role }

  abbrev c1 : MirrorRole → OnDone
  c1 role = record { ticket = ticket; segment_idx = 1; role = role }

module _ (junk : ℕ → ℕ) (takes : List ℕ → Bool) (all_taken : (d : List ℕ) → takes d ≡ true)
    (uid offset len : ℕ) (buffer : List ℕ) (m : MinionManager) (managed : IsManaged m)
    (on_drive : offset + len ≤ m.drive_size) (crosses : m.mb_minion - offset % m.mb_minion < len)
    (fresh : Absent (first_backup (length m.heap)) m) where
  abbrev sender : Sender
  sender seg c = add_write_task junk takes uid seg.local_offset seg.length (slice junk buffer seg) c
