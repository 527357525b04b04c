-- ===== src/Ticket/Failover.antt =====
-- When a ticket of concrete/src/Ticket.cpp reports a failure.
use io_tbased_raid.Prelude.{
  ℕ, zero, suc, ◌≡◌, refl, true, false, not, ◌||◌, leb, Option, none, List, [], ◌∷◌, arith, length,
  map, All, All-append, Bool-cases, inl, inr,
}
use io_tbased_raid.Message.{AMessage}
use io_tbased_raid.Dispatcher.{register, notify}
use io_tbased_raid.Splitter.{StripeSegment}
use io_tbased_raid.Ticket.{
  Ticket, TaskResult, TicketOp, read, write, SegmentState, backup, Response, is_good,
  is_segment_resolved, is_segment_successful, select_segment_message, all_of, fresh_segment, init,
  register_to_result_dispatcher, update_segment, task_result, result_buffer, try_complete,
  on_mirror_response, run,
}
use io_tbased_raid.Ticket.Once.{run-completed}
use io_tbased_raid.Ticket.Progress.{opened}
use io_tbased_raid.Ticket.Policy.{All-notify}

-- Every answer that was stored is good.
abbrev IsHealthy : SegmentState → Type 0
IsHealthy seg =
    ((not seg.primary_done || is_good seg.primary_msg) ≡ true)
    × ((not seg.backup_done || is_good seg.backup_msg) ≡ true)

resolved-successful :
    (op : TicketOp) (segs : List SegmentState)
    → All IsHealthy segs
    → all_of (is_segment_resolved op) segs ≡ true
    → all_of (is_segment_successful op) segs ≡ true
unfolding all_of is_segment_resolved is_segment_successful
resolved-successful op [] h e = refl
resolved-successful read (seg ∷ segs) h e = ground (arith, resolved-successful read segs)
resolved-successful write (seg ∷ segs) h e = ground (arith, resolved-successful write segs)

IsHealthy-update :
    (r : Response) (k : ℕ) (segs : List SegmentState)
    → is_good r.message ≡ true
    → All IsHealthy segs
    → All IsHealthy (update_segment k r.role r.message segs)
unfolding update_segment
IsHealthy-update r k [] g h = tt
IsHealthy-update r zero (seg ∷ segs) g h = ground arith
IsHealthy-update r (suc k) (seg ∷ segs) g h = (h.0, IsHealthy-update r k segs g h.1)

abbrev pub Succeeds : ℕ × TaskResult → Type 0
Succeeds (callback, res) = res.result ≡ true

module _ (junk : ℕ → ℕ) where
  try_complete-Succeeds :
      (t : Ticket)
      → All IsHealthy t.segments
      → All IsHealthy (try_complete junk t).0.segments × All Succeeds (try_complete junk t).1
  unfolding try_complete task_result
  try_complete-Succeeds t h = elim (Bool-cases (all_of (is_segment_resolved t.op) t.segments)) [
    | inl e ↦ rw e (
      h,
      All-notify Succeeds _ (λ callback. resolved-successful t.op t.segments h e) t.dispatcher,
    )
    | inr e ↦ rw e (h, tt)
  ]

  on_mirror_response-Succeeds :
      (t : Ticket) (r : Response)
      → is_good r.message ≡ true
      → All IsHealthy t.segments
      → let (t', notices) = on_mirror_response junk t r.segment_idx r.role r.message in
        All IsHealthy t'.segments × All Succeeds notices
  unfolding on_mirror_response
  on_mirror_response-Succeeds t r g h =
      elim (Bool-cases (t.completed || leb (length t.segments) r.segment_idx)) [
        | inl e ↦ rw e (h, tt)
        | inr e ↦ rw e (try_complete-Succeeds _ (IsHealthy-update r r.segment_idx t.segments g h))
      ]

  run-Succeeds :
      (t : Ticket) (rs : List Response)
      → All (λ r. is_good r.message ≡ true) rs
      → All IsHealthy t.segments
      → All Succeeds (run junk t rs).1
  unfolding run
  run-Succeeds t [] g h = tt
  run-Succeeds t (r ∷ rs) g h =
      let (h', told) = on_mirror_response-Succeeds t r g.0 h in
      All-append Succeeds _ _ told
        (run-Succeeds (on_mirror_response junk t r.segment_idx r.role r.message).0 rs g.1 h')

  IsHealthy-fresh : (segs : List StripeSegment) → All IsHealthy (map fresh_segment segs)
  IsHealthy-fresh [] = tt
  IsHealthy-fresh (seg ∷ segs) = ((refl, refl), IsHealthy-fresh segs)

-- If all answers report success, so does everything that the callback is told.
pub run-All_good :
    (junk : ℕ → ℕ) (uid : ℕ) (op : TicketOp) (total_length : ℕ) (segs : List StripeSegment)
    (callback : ℕ) (rs : List Response)
    → All (λ r. is_good r.message ≡ true) rs
    → All Succeeds (run junk (opened uid op total_length segs callback) rs).1
unfolding init register_to_result_dispatcher
run-All_good junk uid op total_length segs callback rs g =
    run-Succeeds junk _ rs g (IsHealthy-fresh junk segs)

abbrev pub failed_result : ℕ → ℕ → TaskResult
failed_result uid total_length = record {
  uid = uid;
  result = false;
  length = total_length;
  buffer = none;
}

early_step :
    (junk : ℕ → ℕ) (uid total_length callback : ℕ) (seg : StripeSegment) (message : Option AMessage)
    → is_good message ≡ false
    → let (t, notices) =
        on_mirror_response junk
          (opened uid read total_length (seg ∷ []) callback)
          0
          backup
          message in
      (t.completed ≡ true) × (notices ≡ (callback, failed_result uid total_length) ∷ [])
unfolding init register_to_result_dispatcher register on_mirror_response update_segment try_complete
    all_of is_segment_resolved task_result is_segment_successful select_segment_message
    result_buffer notify
early_step junk uid total_length callback seg message bad = (refl, rw bad)

-- A read of one segment whose backup answers first, and reports a failure, is told as failed at
-- once, without a buffer, whatever comes later: a good answer of the primary, still on its way, is
-- ignored.
pub read_fails_early :
    (junk : ℕ → ℕ) (uid total_length callback : ℕ) (seg : StripeSegment) (message : Option AMessage)
    (rs : List Response)
    → is_good message ≡ false
    → (run junk
        (opened uid read total_length (seg ∷ []) callback)
        (record { segment_idx = 0; role = backup; message = message } ∷ rs)).1
      ≡ (callback, failed_result uid total_length) ∷ []
unfolding run
read_fails_early junk uid total_length callback seg message rs bad =
    let t : Ticket = opened uid read total_length (seg ∷ []) callback in
    let (t', notices) = on_mirror_response junk t 0 backup message in
    let (done, told) = early_step junk uid total_length callback seg message bad in
    rw (run-completed junk t' rs done, told)
