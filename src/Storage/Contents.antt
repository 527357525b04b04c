-- ===== src/Storage/Contents.antt =====
-- The bytes that the segments of a ticket (concrete/src/Ticket.cpp) have, if the minions answer with what a write left.
use mathlib.Core.List.{flatten}
use io_tbased_raid.Prelude.{
  ℕ, zero, suc, subst, ◌+◌, ◌-◌, ◌≤◌, ◌<◌, ◌≡◌, refl, sym, ap, ◌∙◌, true, Option, some, List, [],
  ◌∷◌, ◌++◌, arith, length, map, get_elem?, drop, All, ap₂,
}
use native.Mathlib.Nat.{mod-eq_of_lt}
use io_tbased_raid.Prelude.Words.{copy_out, length-copy_out}
use io_tbased_raid.Message.{AMessage}
use io_tbased_raid.Splitter.{StripeSegment, size_mod, next_segment}
use io_tbased_raid.Splitter.Loop.{Splits, done, more, round_length}
use io_tbased_raid.Splitter.Loss.{bytes_of}
use io_tbased_raid.Ticket.{
  read, SegmentState, MirrorRole, primary, backup, Response, is_good, data_of,
  is_segment_successful, select_segment_message, all_of, fresh_segment, update_segment,
}
use io_tbased_raid.Ticket.Assembly.{Supplied}
use io_tbased_raid.Storage.Files.{byte_at, bytes_of-add, copy_out-drop}

module _ (junk : ℕ → ℕ) (buffer : List ℕ) where
  -- The bytes of a segment, from the buffer.
  abbrev pub bytes_for : StripeSegment → List ℕ
  bytes_for s = copy_out junk 0 (drop s.buffer_offset buffer) s.length

  -- A message that reports success has the segment's bytes.
  abbrev pub Truthful : Option AMessage → StripeSegment → Type 0
  Truthful message s = is_good message ≡ true → data_of message ≡ some (bytes_for s)

  -- Answers of the segments, of which each is of the list.
  abbrev pub AllTruthful : List StripeSegment → List Response → Type 0
  AllTruthful segs rs =
      All
        (λ (r : Response).
          (s : StripeSegment) → get_elem? segs r.segment_idx ≡ some s → Truthful r.message s)
        rs

  -- The state of the segments.
  abbrev pub Serves : List StripeSegment → List SegmentState → Type 0
  Serves [] [] = Unit {0}
  Serves [] (t ∷ ts) = ⊥
  Serves (s ∷ ss) [] = ⊥
  Serves (s ∷ ss) (t ∷ ts) =
      (t.length ≡ s.length)
      × (t.buffer_offset ≡ s.buffer_offset)
      × Truthful t.primary_msg s
      × Truthful t.backup_msg s
      × Serves ss ts

  pub Serves-fresh : (ss : List StripeSegment) → Serves ss (map fresh_segment ss)
  Serves-fresh [] = tt
  Serves-fresh (s ∷ ss) = (refl, refl, λ e. cc, λ e. cc, Serves-fresh ss)

  pub Serves-update :
      (idx : ℕ) (role : MirrorRole) (message : Option AMessage) (ss : List StripeSegment)
      (ts : List SegmentState)
      → ((s : StripeSegment) → get_elem? ss idx ≡ some s → Truthful message s)
      → Serves ss ts
      → Serves ss (update_segment idx role message ts)
  unfolding update_segment
  Serves-update idx role message [] [] truth v = v
  Serves-update idx role message [] (t ∷ ts) truth v = absurd v
  Serves-update idx role message (s ∷ ss) [] truth v = v
  Serves-update zero primary message (s ∷ ss) (t ∷ ts) truth (l, b, p, q, v) =
      (l, b, truth s refl, q, v)
  Serves-update zero backup message (s ∷ ss) (t ∷ ts) truth (l, b, p, q, v) =
      (l, b, p, truth s refl, v)
  Serves-update (suc idx) role message (s ∷ ss) (t ∷ ts) truth (l, b, p, q, v) =
      (l, b, p, q, Serves-update idx role message ss ts truth v)

  chosen :
      (s : StripeSegment) (t : SegmentState)
      → Truthful t.primary_msg s
      → Truthful t.backup_msg s
      → is_good (select_segment_message t) ≡ true
      → data_of (select_segment_message t) ≡ some (bytes_for s)
  unfolding select_segment_message
  chosen s t p q good = ground (arith, p, q)

  pub Serves-Supplied :
      (ts : List SegmentState) (c n : ℕ) {r o b : ℕ} {ss : List StripeSegment}
      → o + r < size_mod
      → b + r < size_mod
      → Splits c n r o b ss
      → Serves ss ts
      → all_of (is_segment_successful read) ts ≡ true
      → Supplied b ts (map bytes_for ss)
  unfolding all_of is_segment_successful
  Serves-Supplied [] c n ho hb done v e = tt
  Serves-Supplied (t ∷ ts) c n ho hb done v e = absurd v
  Serves-Supplied [] c n ho hb (more s) v e = absurd v
  Serves-Supplied (t ∷ ts) c n {o} {b} ho hb (more {r} {segs} s) (l, at_b, p, q, v) e =
      let seg : StripeSegment = next_segment c n (suc r) o b in
      let below : b + seg.length < size_mod = omega arith in
      (
        at_b,
        chosen seg t p q (ground (arith, e)),
        length-copy_out junk 0 (drop b buffer) seg.length ∙ sym l,
        subst (λ k. Supplied k ts (map bytes_for segs))
            (mod-eq_of_lt {n = b + seg.length} {m = size_mod} below ∙ ap (λ k. b + k) (sym l))
            (Serves-Supplied ts c n
              (rw (mod-eq_of_lt {n = o + seg.length} {m = size_mod} (omega arith)) (omega arith))
              (rw (mod-eq_of_lt {n = b + seg.length} {m = size_mod} below) (omega arith)) s v
              (ground (arith, e))),
      )

  -- The pieces are the buffer.
  pub flatten-bytes_for :
      (c n : ℕ) {r o b : ℕ} {ss : List StripeSegment}
      → 0 < c
      → o + r < size_mod
      → b + r < size_mod
      → b + r ≤ length buffer
      → Splits c n r o b ss
      → flatten (map bytes_for ss) ≡ bytes_of (byte_at buffer) b r
  unfolding flatten
  flatten-bytes_for c n hc ho hb hl done = refl
  flatten-bytes_for c n {o} {b} hc ho hb hl (more {r} {segs} s) =
      let k : ℕ = round_length c (suc r) o in
      let rest : flatten (map bytes_for segs) ≡ bytes_of (byte_at buffer) (b + k) (suc r - k) =
        flatten-bytes_for c n hc
          (rw (mod-eq_of_lt {n = o + k} {m = size_mod} (omega arith)) (omega arith))
          (rw (mod-eq_of_lt {n = b + k} {m = size_mod} (omega arith)) (omega arith))
          (rw (mod-eq_of_lt {n = b + k} {m = size_mod} (omega arith)) (omega arith)) s
        ∙ ap (λ x. bytes_of (byte_at buffer) x (suc r - k))
            (mod-eq_of_lt {n = b + k} {m = size_mod} (omega arith)) in
      let whole : k + (suc r - k) ≡ suc r = omega arith in
      ap₂ (λ x y. x ++ y) (copy_out-drop junk b k buffer (omega arith)) rest
      ∙ sym (bytes_of-add (byte_at buffer) b k (suc r - k))
      ∙ ap (bytes_of (byte_at buffer) b) whole
