-- ===== src/Ticket/Progress.antt =====
-- When a ticket of concrete/src/Ticket.cpp is complete.
use io_tbased_raid.Prelude.{
  ℕ, ◌⊎◌, ◌+◌, zero, suc, ◌≤◌, ◌<◌, ◌≡◌, refl, Bool, true, false, ◌&&◌, ◌||◌, ◌==◌, List, [], ◌∷◌,
  arith, map, length,
}
use io_tbased_raid.Ticket.{
  Ticket, TicketOp, read, write, SegmentState, MirrorRole, primary, backup, Response,
  is_segment_resolved, fresh_segment, init, register_to_result_dispatcher, all_of, update_segment,
  try_complete, on_mirror_response, run,
}
use io_tbased_raid.Ticket.Once.{run-completed, run-notices}
use io_tbased_raid.Dispatcher.{register}
use io_tbased_raid.Splitter.{StripeSegment}

abbrev pub same_role : MirrorRole → MirrorRole → Bool
same_role primary primary = true
same_role primary backup = false
same_role backup primary = false
same_role backup backup = true

-- Some answer came from that mirror of that segment.
abbrev pub arrived : ℕ → MirrorRole → List Response → Bool
arrived idx role [] = false
arrived idx role (r ∷ rs) = (r.segment_idx == idx && same_role r.role role) || arrived idx role rs

-- What is still to come completes every segment: the flag is set, or the answer is in `rs`.
abbrev Covers : List Response → ℕ → List SegmentState → Type 0
Covers rs i [] = Unit {0}
Covers rs i (seg ∷ segs) =
    ((seg.primary_done || arrived i primary rs) ≡ true)
    × ((seg.backup_done || arrived i backup rs) ≡ true)
    × Covers rs (suc i) segs

all_resolved :
    (op : TicketOp) (i : ℕ) (segs : List SegmentState)
    → Covers [] i segs
    → all_of (is_segment_resolved op) segs ≡ true
unfolding all_of is_segment_resolved
all_resolved op i [] c = refl
all_resolved read i (seg ∷ segs) c = ground (arith, all_resolved read (suc i) segs)
all_resolved write i (seg ∷ segs) c = ground (arith, all_resolved write (suc i) segs)

-- An answer for no segment of the list makes no difference to it.
Covers-skip :
    (r : Response) (rs : List Response) (i : ℕ) (segs : List SegmentState)
    → (r.segment_idx < i) ⊎ (i + length segs ≤ r.segment_idx)
    → Covers (r ∷ rs) i segs
    → Covers rs i segs
Covers-skip r rs i [] h c = tt
Covers-skip r rs i (seg ∷ segs) h c = ground (arith, Covers-skip r rs (suc i) segs)

-- An answer moves from the list into the flags of its segment.
Covers-update :
    (r : Response) (rs : List Response) (k i : ℕ) (segs : List SegmentState)
    → r.segment_idx ≡ i + k
    → Covers (r ∷ rs) i segs
    → Covers rs i (update_segment k r.role r.message segs)
unfolding update_segment
Covers-update r rs k i [] e c = tt
Covers-update r rs zero i (seg ∷ segs) e c = ground (arith, Covers-skip r rs (suc i) segs)
Covers-update r rs (suc k) i (seg ∷ segs) e c = ground (arith, Covers-update r rs k (suc i) segs)

-- An open ticket that waits for an answer, all of which are to come.
abbrev Waits : List Response → Ticket → Type 0
Waits rs t =
    (t.completed ≡ false)
    × (all_of (is_segment_resolved t.op) t.segments ≡ false)
    × Covers rs 0 t.segments

on_mirror_response-Waits :
    (junk : ℕ → ℕ) (t : Ticket) (r : Response) (rs : List Response)
    → Waits (r ∷ rs) t
    → let t' = (on_mirror_response junk t r.segment_idx r.role r.message).0 in
      (t'.completed ≡ true) ⊎ Waits rs t'
unfolding on_mirror_response try_complete
on_mirror_response-Waits junk t r rs w =
    ground (arith, Covers-skip r rs 0 t.segments, Covers-update r rs r.segment_idx 0 t.segments)

run-Waits :
    (junk : ℕ → ℕ) (t : Ticket) (rs : List Response)
    → Waits rs t
    → (run junk t rs).0.completed ≡ true
unfolding run
run-Waits junk t [] w = ground (arith, all_resolved t.op 0 t.segments)
run-Waits junk t (r ∷ rs) w =
    let t' = (on_mirror_response junk t r.segment_idx r.role r.message).0 in
    ground (
      arith,
      on_mirror_response-Waits junk t r rs w,
      run-completed junk t' rs,
      run-Waits junk t' rs,
    )

Covers-fresh :
    (rs : List Response) (k : ℕ) (segs : List StripeSegment)
    → ((i : ℕ)
        → k ≤ i
        → i < k + length segs
        → (arrived i primary rs ≡ true) × (arrived i backup rs ≡ true))
    → Covers rs k (map fresh_segment segs)
Covers-fresh rs k [] h = tt
Covers-fresh rs k (seg ∷ segs) h =
    let (p, b) = h k (omega arith) (omega arith) in
    (p, b, Covers-fresh rs (suc k) segs (λ i lo hi. h i (omega arith) (omega arith)))

fresh_unresolved :
    (op : TicketOp) (segs : List StripeSegment)
    → 0 < length segs
    → all_of (is_segment_resolved op) (map fresh_segment segs) ≡ false
unfolding all_of is_segment_resolved
fresh_unresolved op [] h = absurd (omega arith)
fresh_unresolved read (seg ∷ segs) h = refl
fresh_unresolved write (seg ∷ segs) h = refl

-- The ticket of a request, with one callback.
abbrev pub opened : ℕ → TicketOp → ℕ → List StripeSegment → ℕ → Ticket
opened uid op total_length segs callback =
    register_to_result_dispatcher callback (init uid op total_length segs)

-- A ticket with at least one segment is complete once both mirrors of each segment have answered,
-- for reads and writes, whatever the answers say and in whatever order they and others come; its
-- callback was then told exactly once.
pub run-answered :
    (junk : ℕ → ℕ) (uid : ℕ) (op : TicketOp) (total_length : ℕ) (segs : List StripeSegment)
    (callback : ℕ) (rs : List Response)
    → 0 < length segs
    → ((i : ℕ) → i < length segs → (arrived i primary rs ≡ true) × (arrived i backup rs ≡ true))
    → let (t, notices) = run junk (opened uid op total_length segs callback) rs in
      (t.completed ≡ true) × (length notices ≡ 1)
unfolding init register_to_result_dispatcher register
run-answered junk uid op total_length segs callback rs h answered =
    ground (arith, run-Waits junk t rs waits, run-notices junk t rs refl)
  where
    t : Ticket
    t = opened uid op total_length segs callback

    waits : Waits rs t
    waits = (
      refl,
      fresh_unresolved op segs h,
      Covers-fresh rs 0 segs (λ i lo hi. answered i (omega arith)),
    )
