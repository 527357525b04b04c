-- ===== src/Splitter/Loop.antt =====
-- The rounds of the loop of `Split` (concrete/src/StripeSplitter.cpp), as a relation.
use io_tbased_raid.Prelude.{
  ℕ, zero, suc, ◌+◌, ◌-◌, ◌%◌, ◌≤◌, ◌<◌, ◌≡◌, refl, subst, min, some, List, [], ◌∷◌, arith,
}
use io_tbased_raid.Splitter.{StripeSegment, size_mod, split, split_loop, next_segment}

-- The bytes that a round takes.
abbrev pub round_length : ℕ → ℕ → ℕ → ℕ
round_length c r o = min r (c - o % c)

-- What the loop pushes from `remaining`, `current_offset` and `buffer_offset` on.
pub data Splits (c n : ℕ) : ℕ → ℕ → ℕ → List StripeSegment → Type 0 where
  done : {o b : ℕ} → Splits c n zero o b []
  more :
      {r o b : ℕ} {segs : List StripeSegment}
      → Splits c n
          (suc r - round_length c (suc r) o)
          ((o + round_length c (suc r) o) % size_mod)
          ((b + round_length c (suc r) o) % size_mod)
          segs
      → Splits c n (suc r) o b (next_segment c n (suc r) o b ∷ segs)

abbrev Returned : ℕ → ℕ → ℕ → ℕ → ℕ → ℕ → Type 0
Returned fuel c n r o b =
    (segs : List StripeSegment) × (split_loop fuel c n r o b ≡ some segs) × Splits c n r o b segs

add_round :
    (fuel c n r o b : ℕ)
    → Returned fuel c n
        (suc r - round_length c (suc r) o)
        ((o + round_length c (suc r) o) % size_mod)
        ((b + round_length c (suc r) o) % size_mod)
    → Returned (suc fuel) c n (suc r) o b
unfolding split_loop
add_round fuel c n r o b (segs, e, s) =
    (next_segment c n (suc r) o b ∷ segs, rw e (ground arith), more s)

split_loop-total : (fuel c n r o b : ℕ) → 0 < c → r ≤ fuel → Returned fuel c n r o b
unfolding split_loop
split_loop-total zero c n zero o b hc h = ([], refl, done)
split_loop-total zero c n (suc r) o b hc h = absurd (omega arith)
split_loop-total (suc fuel) c n zero o b hc h = ([], refl, done)
split_loop-total (suc fuel) c n (suc r) o b hc h =
    add_round fuel c n r o b (split_loop-total fuel c n _ _ _ hc (omega arith))

-- With a positive chunk size `Split` returns, and what it returns is the loop's list.
pub split-total :
    (offset length chunk_size num_minions : ℕ)
    → 0 < chunk_size
    → (segs : List StripeSegment) × (split offset length chunk_size num_minions ≡ some segs)
      × Splits chunk_size num_minions length offset 0 segs
unfolding split
split-total offset length chunk_size num_minions h =
    let (segs, e, s) =
      split_loop-total length chunk_size num_minions length offset 0 h (omega arith) in
    (segs, ground arith, s)

-- So a returned list is the loop's list.
pub split-Splits :
    (offset length chunk_size num_minions : ℕ) {segs : List StripeSegment}
    → 0 < chunk_size
    → split offset length chunk_size num_minions ≡ some segs
    → Splits chunk_size num_minions length offset 0 segs
split-Splits offset length chunk_size num_minions h e =
    let (segs, e', s) = split-total offset length chunk_size num_minions h in
    subst (Splits chunk_size num_minions length offset 0) (cc) s
