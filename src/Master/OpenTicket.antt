-- ===== src/Master/OpenTicket.antt =====
-- A write ticket that waits for the backup of its first segment (concrete/src/Ticket.cpp).
use io_tbased_raid.Prelude.{
  ℕ, zero, suc, ◌≡◌, ◌≢◌, refl, ap, ◌∙◌, false, ◌||◌, leb, Option, List, [], ◌∷◌, arith, length,
  Bool-cases, inl, inr,
}
use io_tbased_raid.Message.{AMessage}
use io_tbased_raid.Ticket.{
  Ticket, write, SegmentState, MirrorRole, primary, backup, is_segment_resolved, all_of,
  update_segment, try_complete, on_mirror_response,
}

-- The backup of the first segment has not answered.
abbrev Unanswered : List SegmentState → Type 0
Unanswered [] = ⊥
Unanswered (seg ∷ segs) = seg.backup_done ≡ false

pub record IsOpen (t : Ticket) : Type 0 where
  pub writes : t.op ≡ write
  pub going : t.completed ≡ false
  pub unanswered : Unanswered t.segments

Unanswered-update :
    (idx : ℕ) (role : MirrorRole) (message : Option AMessage) (segs : List SegmentState)
    → (idx ≡ 0 → role ≢ backup)
    → Unanswered segs
    → Unanswered (update_segment idx role message segs)
unfolding update_segment
Unanswered-update idx role message [] h u = absurd u
Unanswered-update zero primary message (seg ∷ segs) h u = u
Unanswered-update zero backup message (seg ∷ segs) h u = absurd (h refl refl)
Unanswered-update (suc idx) role message (seg ∷ segs) h u = u

Unanswered-unresolved :
    (segs : List SegmentState) → Unanswered segs → all_of (is_segment_resolved write) segs ≡ false
unfolding all_of is_segment_resolved
Unanswered-unresolved [] u = absurd u
Unanswered-unresolved (seg ∷ segs) u = ground arith

-- An answer from elsewhere leaves the ticket open.
pub on_mirror_response-IsOpen :
    (junk : ℕ → ℕ) (t : Ticket) (idx : ℕ) (role : MirrorRole) (message : Option AMessage)
    → (idx ≡ 0 → role ≢ backup)
    → IsOpen t
    → IsOpen (on_mirror_response junk t idx role message).0
unfolding on_mirror_response try_complete
on_mirror_response-IsOpen junk t idx role message h v =
    elim (Bool-cases (t.completed || leb (length t.segments) idx)) [
      | inl e ↦ rw e v
      | inr e ↦
          let u = Unanswered-update idx role message t.segments h v.unanswered in
          let f : all_of (is_segment_resolved t.op) (update_segment idx role message t.segments)
              ≡ false =
            ap (λ op. all_of (is_segment_resolved op) (update_segment idx role message t.segments))
              v.writes
            ∙ Unanswered-unresolved _ u in
          rw (e, f) (record { writes = v.writes; going = v.going; unanswered = u })
    ]
