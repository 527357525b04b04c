-- ===== src/Tests/Segments.antt =====
-- A drive of four minions with chunks of four bytes; a request for the bytes 3 to 12.
use io_tbased_raid.Prelude.{◌+◌, ◌≡◌, refl, some, List, [], ◌∷◌, arith, All}
use io_tbased_raid.Splitter.{StripeSegment, split, split_loop, get_backup_index}
use io_tbased_raid.Splitter.Address.{segment_cells, drive_cells, split_covers}
use io_tbased_raid.Splitter.Bounds.{IsInRange, split-IsInRange}
use io_tbased_raid.Splitter.Loss.{load_cells, store_cells, mirror_overwrites}

abbrev two_chunks : List StripeSegment
two_chunks =
    record {
      local_offset = 3;
      length = 1;
      buffer_offset = 0;
      primary_minion_index = 0;
      backup_minion_index = 1;
    }
    ∷ record {
      local_offset = 0;
      length = 2;
      buffer_offset = 1;
      primary_minion_index = 1;
      backup_minion_index = 2;
    }
    ∷ []

split-two_chunks : split 3 3 4 4 ≡ some two_chunks
unfolding split split_loop
split-two_chunks = refl

split_covers_example :
    (segs : List StripeSegment) × (split 3 10 4 4 ≡ some segs)
    × (segment_cells (λ s. s.primary_minion_index) segs ≡ drive_cells 4 (λ p. p) 0 3 10)
    × (segment_cells (λ s. s.backup_minion_index) segs
        ≡ drive_cells 4 (λ p. get_backup_index p 4) 0 3 10)
split_covers_example = split_covers 3 10 4 4 (omega arith) (omega arith)

split-IsInRange_example : All (IsInRange 4 4 3) two_chunks
split-IsInRange_example =
    split-IsInRange 3 3 4 4 (omega arith) (omega arith) (omega arith) split-two_chunks

-- Four minions of four bytes: the bytes 1 to 3 are written, with values of their own.
mirror_overwrites_example :
    (segs next : List StripeSegment) × (split 1 3 4 4 ≡ some segs)
    × (split 5 3 4 4 ≡ some next)
    × (load_cells
          (segment_cells (λ s. s.primary_minion_index) next)
          (store_cells (λ b. b + 100) (segment_cells (λ s. s.backup_minion_index) segs) (λ p l. 0))
        ≡ 100 ∷ 101 ∷ 102 ∷ [])
mirror_overwrites_example =
    mirror_overwrites 1 3 4 4 (λ b. b + 100) (λ p l. 0) (omega arith) (omega arith) (omega arith)
