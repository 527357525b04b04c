-- ===== src/Master/Pieces.antt =====
-- The pieces of a request in `MinionManager::AddWriteTask` and `AddReadTask` (concrete/src/MinionManager.cpp), and the one
-- or two chunks that they lie in.
use io_tbased_raid.Prelude.{
  ℕ, ◌+◌, ◌-◌, ◌*◌, ◌/◌, ◌%◌, ◌≤◌, ◌<◌, ◌≡◌, refl, sym, some, List, ◌∷◌, arith, length,
}
use native.Mathlib.Nat.{mod-eq_of_lt}
use io_tbased_raid.Splitter.{StripeSegment, size_mod, split, next_segment, get_backup_index}
use io_tbased_raid.Splitter.Address.{div-mod_unique}
use io_tbased_raid.Splitter.Loop.{Splits, done, more, round_length}
use io_tbased_raid.Ticket.{TicketOp}
use io_tbased_raid.MinionManager.{MinionManager, Sender, send_segments, open_ticket, add_task}
use io_tbased_raid.MinionManager.Ranges.{IsManaged, range_ok}

-- The first segment of a list that is not empty is the loop's next one.
pub first_segment :
    (c n : ℕ) {r o b : ℕ} {segs : List StripeSegment}
    → 0 < r
    → Splits c n r o b segs
    → (rest : List StripeSegment) × (segs ≡ next_segment c n r o b ∷ rest)
      × Splits c n
          (r - round_length c r o)
          ((o + round_length c r o) % size_mod)
          ((b + round_length c r o) % size_mod)
          rest
first_segment c n h done = absurd (omega arith)
first_segment c n h (more {segs} s) = (segs, refl, s)

-- The chunk behind the border is the one that the first segment is mirrored to.
next_border :
    (c n o r : ℕ)
    → 0 < c
    → c - o % c < r
    → o + r ≤ n * c
    → o + r < size_mod
    → (o + round_length c r o) % size_mod / c ≡ get_backup_index (o / c) n
next_border c n o r hc cross h w =
    rw (mod-eq_of_lt {n = o + round_length c r o} {m = size_mod} (omega arith), moved) (sym next)
  where
    moved : (o + round_length c r o) / c ≡ o / c + 1
    moved = (div-mod_unique c (o + round_length c r o) (o / c + 1) 0 (grind arith) hc).0

    next : get_backup_index (o / c) n ≡ o / c + 1
    next = rw (
      mod-eq_of_lt {n = o / c + 1} {m = size_mod} (grind arith),
      mod-eq_of_lt {n = o / c + 1} {m = n} (grind arith),
    )

-- A request over a border has two segments, and the second one's primary is the first one's backup.
pub crossing_segments :
    (c n o r : ℕ) {segs : List StripeSegment}
    → 0 < c
    → c - o % c < r
    → o + r ≤ n * c
    → o + r < size_mod
    → Splits c n r o 0 segs
    → (s0 s1 : StripeSegment) × (rest : List StripeSegment) × (segs ≡ s0 ∷ s1 ∷ rest)
      × (s1.primary_minion_index ≡ s0.backup_minion_index)
crossing_segments c n o r hc cross h w s =
    let (rest, e, s') = first_segment c n (omega arith) s in
    let (rest', e', _) = first_segment c n (omega arith) s' in
    (
      next_segment c n r o 0,
      next_segment c n (r - round_length c r o) ((o + round_length c r o) % size_mod)
          ((0 + round_length c r o) % size_mod),
      rest',
      rw (e, e') refl,
      next_border c n o r hc cross h w,
    )

pub open_ticket-minions :
    (op : TicketOp) (uid len : ℕ) (segs : List StripeSegment) (m : MinionManager)
    → (open_ticket op uid len segs m).minions ≡ m.minions
unfolding open_ticket
open_ticket-minions op uid len segs m = refl

pub add_task-cut :
    (send : Sender) (op : TicketOp) (uid offset len : ℕ) (m : MinionManager)
    {segs : List StripeSegment}
    → IsManaged m
    → offset + len ≤ m.drive_size
    → split offset len m.mb_minion (length m.minions) ≡ some segs
    → add_task send op uid offset len m
      ≡ send_segments send (length m.heap) 0 segs (open_ticket op uid len segs m)
unfolding add_task
add_task-cut send op uid offset len m v h e =
    rw (range_ok m offset len h v.drive_fits, add_task) (rw e refl)
