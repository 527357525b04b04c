-- ===== src/Splitter/Overlap.antt =====
-- Where `Split` (concrete/src/StripeSplitter.cpp) puts the mirrors, compared with the primaries of the
-- next chunk.
use io_tbased_raid.Prelude.{
  ℕ, zero, suc, ◌+◌, ◌*◌, ◌/◌, ◌%◌, ◌≤◌, ◌<◌, ◌≡◌, refl, sym, ap, ◌∙◌, some, List, ◌∷◌, arith,
}
use native.Mathlib.Nat.{mod-eq_of_lt}
use io_tbased_raid.Splitter.{StripeSegment, size_mod, split, get_backup_index}
use io_tbased_raid.Splitter.Address.{segment_cells, drive_cells, div-mod_unique, split_covers}

-- One chunk further on the drive is the next minion, at the same place.
next_chunk : (c o : ℕ) → 0 < c → ((o + c) / c ≡ o / c + 1) × ((o + c) % c ≡ o % c)
next_chunk c o h = div-mod_unique c (o + c) (o / c + 1) (o % c) (grind arith) (grind arith)

backup_in_next :
    (c n o : ℕ) → 0 < c → o + c < n * c → o + c < size_mod → get_backup_index (o / c) n ≡ o / c + 1
backup_in_next c n o hc h w =
    rw (mod-eq_of_lt {n = o / c + 1} {m = size_mod} (omega (arith, div-le)), mod-eq_of_lt below)
  where
    div-le : o / c ≤ o
    div-le = omega arith

    below : o / c + 1 < n
    below = grind arith

drive_cells_overlap :
    (c n b o len : ℕ)
    → 0 < c
    → o + len + c ≤ n * c
    → o + len + c < size_mod
    → drive_cells c (λ p. get_backup_index p n) b o len ≡ drive_cells c (λ p. p) b (o + c) len
drive_cells_overlap c n b o zero hc h w = refl
drive_cells_overlap c n b o (suc len) hc h w =
    let (d, m) = next_chunk c o hc in
    rw (d, m, backup_in_next c n o hc (omega arith) (omega arith), shift)
      (ap (λ t. (b, o / c + 1, o % c) ∷ t)
        (drive_cells_overlap c n (b + 1) (o + 1) len hc (omega arith) (omega arith)))
  where
    shift : o + c + 1 ≡ o + 1 + c
    shift = omega arith

-- For every request that ends at least a chunk before the end of the drive, the mirrored bytes take
-- the very cells that belong to the bytes one chunk further on the drive: `Split` places the backup
-- of one request and the primary of the other on the same minions, at the same places of their files.
pub split_mirror_overlap :
    (offset length chunk_size num_minions : ℕ)
    → 0 < chunk_size
    → offset + length + chunk_size ≤ num_minions * chunk_size
    → offset + length + chunk_size < size_mod
    → (segs next : List StripeSegment) × (split offset length chunk_size num_minions ≡ some segs)
      × (split (offset + chunk_size) length chunk_size num_minions ≡ some next)
      × (segment_cells (λ s. s.backup_minion_index) segs
          ≡ segment_cells (λ s. s.primary_minion_index) next)
split_mirror_overlap offset length chunk_size num_minions hc h w =
    let (segs, e, p, b) = split_covers offset length chunk_size num_minions hc (omega arith) in
    let (next, e', p', b') =
      split_covers (offset + chunk_size) length chunk_size num_minions hc (omega arith) in
    (
      segs,
      next,
      e,
      e',
      b ∙ drive_cells_overlap chunk_size num_minions 0 offset length hc h w ∙ sym p',
    )
