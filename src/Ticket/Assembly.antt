-- ===== src/Ticket/Assembly.antt =====
-- The buffer of a read's result (`TryComplete` of concrete/src/Ticket.cpp).
use mathlib.Core.List.{flatten}
use io_tbased_raid.Prelude.{
  ℕ, subst, ◌+◌, ◌≤◌, ◌≡◌, refl, sym, ap, ◌∙◌, true, some, List, [], ◌∷◌, ◌++◌, append_assoc, arith,
  length, length-append, length-drop, set, drop,
}
use io_tbased_raid.Prelude.Words.{copy_out, copy_out_self, length-copy_out}
use io_tbased_raid.Ticket.{
  Ticket, read, SegmentState, data_of, select_segment_message, is_segment_successful, all_of,
  write_at, copy_segment, copy_segments, result_buffer, task_result,
}

set-append :
    (pre : List ℕ) (x b : ℕ) (post : List ℕ)
    → set (pre ++ (x ∷ post)) (length pre) b ≡ pre ++ (b ∷ post)
set-append [] x b post = refl
set-append (p ∷ pre) x b post = ap (λ t. p ∷ t) (set-append pre x b post)

length-snoc : (pre : List ℕ) (b : ℕ) → length pre + 1 ≡ length (pre ++ (b ∷ []))
length-snoc pre b = sym (length-append pre (b ∷ []))

-- Bytes written in the middle of a buffer replace as many bytes.
write_at-append :
    (pre post bytes : List ℕ)
    → length bytes ≤ length post
    → write_at (pre ++ post) (length pre) bytes ≡ pre ++ (bytes ++ drop (length bytes) post)
unfolding write_at
write_at-append pre post [] h = refl
write_at-append pre [] (b ∷ bytes) h = absurd (omega arith)
write_at-append pre (x ∷ post) (b ∷ bytes) h =
    rw (set-append pre x b post, length-snoc pre b, ← append_assoc pre (b ∷ []) post)
      (write_at-append (pre ++ (b ∷ [])) post bytes (omega arith) ∙ append_assoc pre (b ∷ []) _)

-- The pieces are the data of the messages that are chosen for the segments, each as long as its
-- segment, and the segments follow one another in the buffer from index `b` on.
abbrev pub Supplied : ℕ → List SegmentState → List (List ℕ) → Type 0
Supplied b [] [] = Unit {0}
Supplied b [] (p ∷ ps) = ⊥
Supplied b (seg ∷ segs) [] = ⊥
Supplied b (seg ∷ segs) (p ∷ ps) =
    (seg.buffer_offset ≡ b)
    × (data_of (select_segment_message seg) ≡ some p)
    × (length p ≡ seg.length)
    × Supplied (b + seg.length) segs ps

module _ (junk : ℕ → ℕ) where
  copy_segment-eq :
      (seg : SegmentState) (p pre post : List ℕ)
      → seg.buffer_offset ≡ length pre
      → length p ≡ seg.length
      → length p ≤ length post
      → copy_segment junk (some p) seg (pre ++ post) ≡ pre ++ (p ++ drop (length p) post)
  unfolding copy_segment
  copy_segment-eq seg p pre post e l h =
      rw (e, ← l, copy_out_self junk 0 p) (write_at-append pre post p h)

  copy_segments-eq :
      (segs : List SegmentState) (ps : List (List ℕ)) (pre post : List ℕ)
      → Supplied (length pre) segs ps
      → length post ≡ length (flatten ps)
      → copy_segments junk segs (pre ++ post) ≡ pre ++ flatten ps
  unfolding copy_segments flatten
  copy_segments-eq [] [] pre [] s h = refl
  copy_segments-eq [] [] pre (x ∷ post) s h = absurd (omega arith)
  copy_segments-eq [] (p ∷ ps) pre post s h = absurd s
  copy_segments-eq (seg ∷ segs) [] pre post s h = absurd s
  copy_segments-eq (seg ∷ segs) (p ∷ ps) pre post (off, d, l, s) h =
      let e : length post ≡ length p + length (flatten ps) = h ∙ length-append p (flatten ps) in
      let next : Supplied (length (pre ++ p)) segs ps =
        subst (λ k. Supplied k segs ps)
          (ap (λ k. length pre + k) (sym l) ∙ sym (length-append pre p)) s in
      rw (d, copy_segment-eq seg p pre post off l (omega (arith, e)), ← append_assoc pre p _)
        (copy_segments-eq segs ps (pre ++ p) (drop (length p) post) next
            (omega (arith, e, length-drop (length p) post))
          ∙ append_assoc pre p (flatten ps))

-- A read whose segments are all successful, follow one another in the buffer and were supplied with
-- pieces that make up the whole length is told as a success, with the pieces one after the other as
-- its buffer: no byte of it is what fresh memory holds.
pub task_result-Supplied :
    (junk : ℕ → ℕ) (t : Ticket) (ps : List (List ℕ))
    → t.op ≡ read
    → all_of (is_segment_successful read) t.segments ≡ true
    → Supplied 0 t.segments ps
    → length (flatten ps) ≡ t.total_length
    → task_result junk t
      ≡ record { uid = t.uid; result = true; length = t.total_length; buffer = some (flatten ps) }
unfolding task_result result_buffer
task_result-Supplied junk t ps e success s l =
    rw (e, success)
      (ap
        (λ bytes. record {
          uid = t.uid;
          result = true;
          length = t.total_length;
          buffer = some bytes;
        })
        (copy_segments-eq junk t.segments ps [] (copy_out junk 0 [] t.total_length) s
          (length-copy_out junk 0 [] t.total_length ∙ sym l)))
