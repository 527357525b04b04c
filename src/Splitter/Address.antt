-- ===== src/Splitter/Address.antt =====
-- Which cells of the minions' files the segments of `Split` (concrete/src/StripeSplitter.cpp) stand
-- for: a specification byte by byte.
use io_tbased_raid.Prelude.{
  ℕ, zero, suc, ◌+◌, ◌-◌, ◌*◌, ◌/◌, ◌%◌, ◌≤◌, ◌<◌, ◌≡◌, refl, sym, ap, ◌∙◌, some, List, [], ◌∷◌,
  ◌++◌, arith,
}
use native.Mathlib.Nat.{zero-add, add-zero, mod-eq_of_lt}
use io_tbased_raid.Splitter.{StripeSegment, size_mod, split, next_segment, get_backup_index}
use io_tbased_raid.Splitter.Loop.{Splits, done, more, round_length, split-total}

-- A byte's index in the request's buffer, its minion, and its place in that minion's file.
abbrev pub Cell : Type 0
Cell = ℕ × ℕ × ℕ

-- `n` bytes from index `b` of the buffer on, at place `l` and behind of minion `p`.
abbrev pub cells_at : ℕ → ℕ → ℕ → ℕ → List Cell
cells_at b p l zero = []
cells_at b p l (suc n) = (b, p, l) ∷ cells_at (b + 1) p (l + 1) n

-- The cells of all segments, in order; `minion` picks the primary or the backup.
abbrev pub segment_cells : (StripeSegment → ℕ) → List StripeSegment → List Cell
segment_cells minion [] = []
segment_cells minion (s ∷ segs) =
    cells_at s.buffer_offset (minion s) s.local_offset s.length ++ segment_cells minion segs

-- The specification: byte `o` of the drive belongs to chunk `o / c`, at place `o % c`.
abbrev pub drive_cells : ℕ → (ℕ → ℕ) → ℕ → ℕ → ℕ → List Cell
drive_cells c minion_of b o zero = []
drive_cells c minion_of b o (suc n) =
    (b, minion_of (o / c), o % c) ∷ drive_cells c minion_of (b + 1) (o + 1) n

pub div-mod_unique : (c o p l : ℕ) → p * c + l ≡ o → l < c → (o / c ≡ p) × (o % c ≡ l)
div-mod_unique c o p l e h = grind arith

module _ (c : ℕ) (minion_of : ℕ → ℕ) where
  -- Inside one chunk the bytes of the drive lie side by side in one file.
  cells_at-eq :
      (b o p l n : ℕ)
      → p * c + l ≡ o
      → l + n ≤ c
      → cells_at b (minion_of p) l n ≡ drive_cells c minion_of b o n
  cells_at-eq b o p l zero e h = refl
  cells_at-eq b o p l (suc n) e h =
      let (d, m) = div-mod_unique c o p l e (omega arith) in
      rw (d, m)
        (ap (λ t. (b, minion_of p, l) ∷ t)
          (cells_at-eq (b + 1) (o + 1) p (l + 1) n (omega arith) (omega arith)))

  drive_cells-add :
      (b o m n : ℕ)
      → drive_cells c minion_of b o (m + n)
        ≡ drive_cells c minion_of b o m ++ drive_cells c minion_of (b + m) (o + m) n
  drive_cells-add b o zero n = rw (zero-add, add-zero b, add-zero o) refl
  drive_cells-add b o (suc m) n =
      rw (suc-add, add_suc o, add_suc b)
        (ap (λ t. (b, minion_of (o / c), o % c) ∷ t) (drive_cells-add (b + 1) (o + 1) m n))
    where
      suc-add : suc m + n ≡ suc (m + n)
      suc-add = omega arith

      add_suc : (k : ℕ) → k + suc m ≡ k + 1 + m
      add_suc k = omega arith

  -- One round of the loop takes the first cells of what is left.
  round_cells :
      (b o r k : ℕ)
      → 0 < c
      → k ≤ r
      → o % c + k ≤ c
      → cells_at b (minion_of (o / c)) (o % c) k ++ drive_cells c minion_of (b + k) (o + k) (r - k)
        ≡ drive_cells c minion_of b o r
  round_cells b o r k hc hk h =
      rw (cells_at-eq b o (o / c) (o % c) k (grind arith) h)
        (sym (drive_cells-add b o k (r - k)) ∙ ap (drive_cells c minion_of b o) (omega arith))

module _ {c n : ℕ} (hc : 0 < c) (minion : StripeSegment → ℕ) (minion_of : ℕ → ℕ)
    (agree : (r o b : ℕ) → minion (next_segment c n r o b) ≡ minion_of (o / c)) where
  segment_cells-Splits :
      {r o b : ℕ} {segs : List StripeSegment}
      → o + r < size_mod
      → b + r < size_mod
      → Splits c n r o b segs
      → segment_cells minion segs ≡ drive_cells c minion_of b o r
  segment_cells-Splits ho hb done = refl
  segment_cells-Splits {o} {b} ho hb (more {r} {segs} s) =
      rw
        (
          agree (suc r) o b,
          segment_cells-Splits (omega arith) (omega arith) s,
          mod-eq_of_lt (below o ho),
          mod-eq_of_lt (below b hb),
        )
        (round_cells c minion_of b o (suc r) (round_length c (suc r) o) hc (omega arith)
          (grind arith))
    where
      below : (x : ℕ) → x + suc r < size_mod → x + round_length c (suc r) o < size_mod
      below x h = omega arith

-- If the request does not reach 2 ^ 64, `Split` returns segments whose primaries hold exactly the
-- bytes of the request, byte `offset + i` on minion `(offset + i) / chunk_size` at place
-- `(offset + i) % chunk_size` and at index `i` of the buffer, each once and in order; their backups
-- hold the same bytes at the same places of the next minion, counted modulo `num_minions`.
pub split_covers :
    (offset length chunk_size num_minions : ℕ)
    → 0 < chunk_size
    → offset + length < size_mod
    → (segs : List StripeSegment) × (split offset length chunk_size num_minions ≡ some segs)
      × (segment_cells (λ s. s.primary_minion_index) segs
          ≡ drive_cells chunk_size (λ p. p) 0 offset length)
      × (segment_cells (λ s. s.backup_minion_index) segs
          ≡ drive_cells chunk_size (λ p. get_backup_index p num_minions) 0 offset length)
split_covers offset length chunk_size num_minions hc h =
    let (segs, e, s) = split-total offset length chunk_size num_minions hc in
    (
      segs,
      e,
      segment_cells-Splits hc _ (λ p. p) (λ r o b. refl) h (omega arith) s,
      segment_cells-Splits hc _ (λ p. get_backup_index p num_minions) (λ r o b. refl) h
          (omega arith) s,
    )
