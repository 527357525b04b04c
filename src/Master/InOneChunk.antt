-- ===== src/Master/InOneChunk.antt =====
-- A request inside one chunk, at the master: the one segment, its ticket and its callbacks (concrete/src/MinionManager.cpp,
-- concrete/src/Ticket.cpp).
use mathlib.Core.List.{flatten}
use io_tbased_raid.Prelude.{
  ℕ, ◌+◌, ◌%◌, ◌≤◌, ◌<◌, ◌≡◌, ◌≢◌, refl, sym, ap, ◌∙◌, Bool, true, some, List, [], ◌∷◌, ◌++◌,
  append-nil, arith, length, get_elem?, get_elem?-append_self, All,
}
use io_tbased_raid.Prelude.Maps.{lookup}
use io_tbased_raid.Prelude.Results.{ok}
use io_tbased_raid.Splitter.{StripeSegment, split, next_segment}
use io_tbased_raid.Splitter.Loop.{Splits, done, more, split-total}
use io_tbased_raid.Splitter.Bounds.{IsInRange, split-IsInRange}
use io_tbased_raid.Dispatcher.{notify, register}
use io_tbased_raid.Message.{read_receive}
use io_tbased_raid.Ticket.{
  TicketOp, read, write, primary, backup, on_mirror_response, try_complete, all_of,
  is_segment_resolved, is_segment_successful, update_segment, init, register_to_result_dispatcher,
}
use io_tbased_raid.Ticket.Assembly.{task_result-Supplied}
use io_tbased_raid.Ticket.Progress.{opened}
use io_tbased_raid.ResponseManager.{ResponseManager, ticket_done_callback, on_ticket_create}
use io_tbased_raid.MinionProxy.{MinionProxy, OnDone, add_read_task, add_write_task}
use io_tbased_raid.MinionManager.{
  MinionManager, Sender, slice, send_segments, open_ticket, add_task, add_read_task_to,
  add_write_task_to,
}
use io_tbased_raid.MinionManager.Requests.{Sends, callback_of, at_minion-Changes}
use io_tbased_raid.MinionManager.Ranges.{
  IsManaged, read_packet, write_packet, add_read_task-Sends, add_write_task-Sends,
}
use io_tbased_raid.Master.Pieces.{first_segment, add_task-cut, open_ticket-minions}
use io_tbased_raid.Master.CrossedRead.{noted_in-found}

Splits-empty :
    (c n r o b : ℕ) (segs : List StripeSegment) → r ≡ 0 → Splits c n r o b segs → segs ≡ []
Splits-empty c n r o b segs e done = refl
Splits-empty c n r o b segs e (more s) = absurd (omega arith)

-- A request inside one chunk is one segment.
pub split_one :
    (offset len c n : ℕ)
    → 0 < c
    → 0 < len
    → offset % c + len ≤ c
    → split offset len c n ≡ some (next_segment c n len offset 0 ∷ [])
split_one offset len c n hc pos inside =
    let (segs, e, s) = split-total offset len c n hc in
    let (rest, e', s') = first_segment c n pos s in
    let none_left : rest ≡ [] = Splits-empty c n _ _ _ rest (omega arith) s' in
    e ∙ ap some (e' ∙ ap (λ xs. next_segment c n len offset 0 ∷ xs) none_left)

-- The ticket of such a read tells its callback the bytes of the first good answer of the primary.
pub single_answer :
    (junk : ℕ → ℕ) (uid callback : ℕ) (seg : StripeSegment) (bytes : List ℕ)
    → seg.buffer_offset ≡ 0
    → seg.length ≡ length bytes
    → (on_mirror_response junk
        (opened uid read (length bytes) (seg ∷ []) callback)
        0
        primary
        (some (read_receive uid 1 (length bytes) (some bytes)))).1
      ≡ (callback, record { uid = uid; result = true; length = length bytes; buffer = some bytes })
        ∷ []
unfolding init register_to_result_dispatcher register on_mirror_response update_segment try_complete
    all_of is_segment_resolved notify is_segment_successful flatten
single_answer junk uid callback seg bytes at_start len =
    ap (λ r. (callback, r) ∷ [])
      (task_result-Supplied junk _ (bytes ∷ []) refl refl (at_start, refl, sym len, tt)
          (ap length (append-nil bytes))
        ∙ ap (λ b. record { uid = uid; result = true; length = length bytes; buffer = some b })
            (append-nil bytes))

-- The ticket of a request, when `ResponseManager` is the one that is told of new tickets.
open_ticket-wired :
    (op : TicketOp) (uid len callback : ℕ) (segs : List StripeSegment) (m : MinionManager)
    → m.dispatcher.reg_list ≡ callback ∷ []
    → ((open_ticket op uid len segs m).heap
        ≡ m.heap ++ (opened uid op len segs ticket_done_callback ∷ []))
      × ((open_ticket op uid len segs m).responses.requests ≡ m.responses.requests)
unfolding open_ticket notify on_ticket_create
open_ticket-wired op uid len callback segs m e = rw e (refl, refl)

-- What the manager has after the call for a request inside one chunk.
pub record HasTask (op : TicketOp) (uid len : ℕ) (seg : StripeSegment) (m m' : MinionManager)
    : Type 0 where
  pub minion : MinionProxy
  pub found : get_elem? m'.minions seg.primary_minion_index ≡ some minion
  pub noted :
      lookup uid minion.map
      ≡ some (record { ticket = length m.heap; segment_idx = 0; role = primary })
  pub mirror : MinionProxy
  pub mirror_found : get_elem? m'.minions seg.backup_minion_index ≡ some mirror
  pub mirror_noted :
      lookup uid mirror.map
      ≡ some (record { ticket = length m.heap; segment_idx = 0; role = backup })
  pub apart : seg.backup_minion_index ≢ seg.primary_minion_index
  pub ticket :
      get_elem? m'.heap (length m.heap) ≡ some (opened uid op len (seg ∷ []) ticket_done_callback)
  pub requests : m'.responses.requests ≡ m.responses.requests

module _ (op : TicketOp) (send : Sender) (uid : ℕ) (datagram : StripeSegment → List ℕ)
    (sends : Sends send uid datagram) (offset len callback : ℕ) (m : MinionManager) where
  sent_task :
      IsManaged m
      → m.dispatcher.reg_list ≡ callback ∷ []
      → 0 < len
      → offset % m.mb_minion + len ≤ m.mb_minion
      → offset + len ≤ m.drive_size
      → 2 ≤ length m.minions
      → (m' : MinionManager) × (add_task send op uid offset len m ≡ (m', ok tt))
        × HasTask op uid len (next_segment m.mb_minion (length m.minions) len offset 0) m m'
  unfolding send_segments
  sent_task v wired pos inside on_drive two =
      let c : ℕ = m.mb_minion in
      let n : ℕ = length m.minions in
      let seg : StripeSegment = next_segment c n len offset 0 in
      let cut : split offset len c n ≡ some (seg ∷ []) =
        split_one offset len c n v.chunk_pos pos inside in
      let ranges : All (IsInRange c n len) (seg ∷ []) =
        split-IsInRange offset len c n v.chunk_pos (omega (arith, v.drive))
          (omega (arith, v.drive_fits)) cut in
      let range : IsInRange c n len seg = ranges.0 in
      let m0 : MinionManager = open_ticket op uid len (seg ∷ []) m in
      let same : length m0.minions ≡ n = ap length (open_ticket-minions op uid len (seg ∷ []) m) in
      let own : OnDone = record { ticket = length m.heap; segment_idx = 0; role = primary } in
      let other : OnDone = record { ticket = length m.heap; segment_idx = 0; role = backup } in
      let (m1, e1, v1) =
        at_minion-Changes send uid datagram sends seg.primary_minion_index seg own m0
          (omega (arith, same, range.primary_in)) in
      let (m2, e2, v2) =
        at_minion-Changes send uid datagram sends seg.backup_minion_index seg other m1
          (omega (arith, same, v1.same_length, range.backup_in)) in
      let here : callback_of m1 seg.primary_minion_index uid ≡ some own =
        v1.notes seg.primary_minion_index uid ∙ ground arith in
      let still : callback_of m2 seg.primary_minion_index uid
          ≡ callback_of m1 seg.primary_minion_index uid =
        v2.notes seg.primary_minion_index uid ∙ ground (arith, range.mirrored two) in
      let there : callback_of m2 seg.backup_minion_index uid ≡ some other =
        v2.notes seg.backup_minion_index uid ∙ ground arith in
      let (p, found, noted) =
        noted_in-found uid (get_elem? m2.minions seg.primary_minion_index) (still ∙ here) in
      let (q, found', noted') =
        noted_in-found uid (get_elem? m2.minions seg.backup_minion_index) there in
      let (heap, requests) = open_ticket-wired op uid len callback (seg ∷ []) m wired in
      (
        m2,
        add_task-cut send op uid offset len m v on_drive cut ∙ rw (e1, e2) refl,
        record {
          minion = p;
          found = found;
          noted = noted;
          mirror = q;
          mirror_found = found';
          mirror_noted = noted';
          apart = range.mirrored two;
          ticket =
              ap (λ h. get_elem? h (length m.heap)) (v2.same_heap ∙ v1.same_heap ∙ heap)
              ∙ get_elem?-append_self m.heap (opened uid op len (seg ∷ []) ticket_done_callback);
          requests =
              ap (λ (r : ResponseManager). r.requests) (v2.same_responses ∙ v1.same_responses)
              ∙ requests;
        },
      )

module _ (junk : ℕ → ℕ) (takes : List ℕ → Bool) (all_taken : (d : List ℕ) → takes d ≡ true)
    (uid offset len callback : ℕ) (m : MinionManager) (v : IsManaged m)
    (wired : m.dispatcher.reg_list ≡ callback ∷ []) (pos : 0 < len)
    (inside : offset % m.mb_minion + len ≤ m.mb_minion) (on_drive : offset + len ≤ m.drive_size)
    (two : 2 ≤ length m.minions) where
  pub sent_read :
      (m' : MinionManager) × (add_read_task_to junk takes uid offset len m ≡ (m', ok tt))
      × HasTask read uid len (next_segment m.mb_minion (length m.minions) len offset 0) m m'
  unfolding add_read_task_to
  sent_read =
      sent_task read (λ s called. add_read_task junk takes uid s.local_offset s.length called) uid
        (read_packet junk uid) (add_read_task-Sends junk takes all_taken uid) offset len callback m
        v wired pos inside on_drive two

  pub sent_write :
      (buffer : List ℕ)
      → (m' : MinionManager) × (add_write_task_to junk takes uid offset len buffer m ≡ (m', ok tt))
        × HasTask write uid len (next_segment m.mb_minion (length m.minions) len offset 0) m m'
  unfolding add_write_task_to
  sent_write buffer =
      sent_task write
        (λ s called.
          add_write_task junk takes uid s.local_offset s.length (slice junk buffer s) called)
        uid (write_packet junk uid buffer) (add_write_task-Sends junk takes all_taken uid buffer)
        offset len callback m v wired pos inside on_drive two
