-- ===== src/Splitter/Bounds.antt =====
-- The bounds of the segments of `Split` (concrete/src/StripeSplitter.cpp): chunk, buffer, minions.
use io_tbased_raid.Prelude.{ℕ, suc, ◌+◌, ◌*◌, ◌/◌, ◌%◌, ◌≤◌, ◌<◌, ◌≡◌, ◌≢◌, some, List, arith, All}
use native.Mathlib.Nat.{mod-eq_of_lt}
use io_tbased_raid.Splitter.{StripeSegment, size_mod, split, next_segment, get_backup_index}
use io_tbased_raid.Splitter.Loop.{Splits, done, more, split-Splits}

-- A segment of a request of `total` bytes on `n` chunks of `c` bytes.
pub record IsInRange (c n total : ℕ) (s : StripeSegment) : Type 0 where
  pub nonempty : 0 < s.length
  pub in_chunk : s.local_offset + s.length ≤ c
  pub in_buffer : s.buffer_offset + s.length ≤ total
  pub primary_in : s.primary_minion_index < n
  pub backup_in : s.backup_minion_index < n
  pub mirrored : 2 ≤ n → s.backup_minion_index ≢ s.primary_minion_index

index_in : (c n o : ℕ) → 0 < c → o < n * c → o / c < n
index_in c n o hc h = grind arith

div-le : (o c : ℕ) → o / c ≤ o
div-le o c = omega arith

backup_eq : (p n : ℕ) → p + 1 < size_mod → get_backup_index p n ≡ (p + 1) % n
backup_eq p n h = rw (mod-eq_of_lt h)

backup_in_range : (p n : ℕ) → p < n → (p + 1) % n < n
backup_in_range p n h = omega arith

backup_differs : (p n : ℕ) → p < n → 2 ≤ n → (p + 1) % n ≢ p
backup_differs p n h k = grind arith

next_segment-IsInRange :
    (c n total r o b : ℕ)
    → 0 < c
    → o + suc r < size_mod
    → o + suc r ≤ n * c
    → b + suc r ≡ total
    → IsInRange c n total (next_segment c n (suc r) o b)
next_segment-IsInRange c n total r o b hc w h e = record {
  nonempty = omega arith;
  in_chunk = omega arith;
  in_buffer = omega arith;
  primary_in = inside;
  backup_in = rw plain (backup_in_range (o / c) n inside);
  mirrored = λ k. rw plain (backup_differs (o / c) n inside k);
}
  where
    inside : o / c < n
    inside = index_in c n o hc (omega arith)

    plain : get_backup_index (o / c) n ≡ (o / c + 1) % n
    plain = backup_eq (o / c) n (omega (arith, div-le o c))

Splits-IsInRange :
    (c n total : ℕ) {r o b : ℕ} {segs : List StripeSegment}
    → 0 < c
    → o + r < size_mod
    → o + r ≤ n * c
    → total < size_mod
    → b + r ≡ total
    → Splits c n r o b segs
    → All (IsInRange c n total) segs
Splits-IsInRange c n total hc w h t e done = tt
Splits-IsInRange c n total {o} {b} hc w h t e (more {r} s) = (
  next_segment-IsInRange c n total r o b hc w h e,
  Splits-IsInRange c n total hc (omega arith) (omega arith) t (omega arith) s,
)

-- For a request that lies on the drive and does not reach 2 ^ 64, every segment is not empty, lies
-- inside its chunk and inside the buffer, names a primary and a backup minion that exist, and names
-- two different ones where there are at least two minions.
pub split-IsInRange :
    (offset length chunk_size num_minions : ℕ) {segs : List StripeSegment}
    → 0 < chunk_size
    → offset + length ≤ num_minions * chunk_size
    → offset + length < size_mod
    → split offset length chunk_size num_minions ≡ some segs
    → All (IsInRange chunk_size num_minions length) segs
split-IsInRange offset length chunk_size num_minions hc h w e =
    Splits-IsInRange chunk_size num_minions length hc w h (omega arith) (omega arith)
      (split-Splits offset length chunk_size num_minions hc e)
