-- ===== src/Splitter/Loss.antt =====
-- What the minions' files hold after the pieces of a request of concrete/src/StripeSplitter.cpp are written: a file is
-- a function from places to bytes.
use io_tbased_raid.Prelude.{
  ℕ, zero, suc, ◌+◌, ◌*◌, ◌/◌, ◌%◌, ◌≤◌, ◌<◌, ◌≡◌, refl, sym, ap, ap₂, ◌∙◌, true, false, ◌&&◌, some,
  some_injective, List, [], ◌∷◌, arith, ◌==◌, if◌then◌else◌,
}
use io_tbased_raid.Splitter.{StripeSegment, size_mod, split}
use io_tbased_raid.Splitter.Address.{Cell, segment_cells, drive_cells, split_covers}
use io_tbased_raid.Splitter.Overlap.{split_mirror_overlap}

-- The bytes of all files, by minion and place.
abbrev pub Files : Type 0
Files = ℕ → ℕ → ℕ

-- The bytes of a buffer are written to the cells, and those of the cells are read.
abbrev pub store_cells : (ℕ → ℕ) → List Cell → Files → Files
store_cells buffer [] files = files
store_cells buffer ((b, p, l) ∷ cells) files =
    store_cells buffer cells (λ p' l'. if p == p' && l == l' then buffer b else files p' l')

abbrev pub load_cells : List Cell → Files → List ℕ
load_cells [] files = []
load_cells ((b, p, l) ∷ cells) files = files p l ∷ load_cells cells files

-- `n` bytes of a buffer from index `b` on.
abbrev pub bytes_of : (ℕ → ℕ) → ℕ → ℕ → List ℕ
bytes_of buffer b zero = []
bytes_of buffer b (suc n) = buffer b ∷ bytes_of buffer (b + 1) n

same_byte : (c o o' : ℕ) → 0 < c → o / c ≡ o' / c → o % c ≡ o' % c → o ≡ o'
same_byte c o o' h d m = grind arith

other_cell : (c o o' : ℕ) → 0 < c → o' < o → (o / c == o' / c && o % c == o' % c) ≡ false
other_cell c o o' h l = ground (arith, same_byte c o o' h)

module _ (c : ℕ) (buffer : ℕ → ℕ) where
  -- The cells of the bytes from `o` on are not those of a byte before.
  untouched :
      (n b o o' : ℕ) (files : Files)
      → 0 < c
      → o' < o
      → store_cells buffer (drive_cells c (λ p. p) b o n) files (o' / c) (o' % c)
        ≡ files (o' / c) (o' % c)
  untouched zero b o o' files h l = refl
  untouched (suc n) b o o' files h l =
      untouched n (b + 1) (o + 1) o'
        (λ p' l'. if o / c == p' && o % c == l' then buffer b else files p' l') h (omega arith)
      ∙ rw (other_cell c o o' h l) refl

  own_cell : (o : ℕ) → (o / c == o / c && o % c == o % c) ≡ true
  own_cell o = ground arith

  load_cells-store_cells :
      (n b o : ℕ) (files : Files)
      → 0 < c
      → load_cells
          (drive_cells c (λ p. p) b o n)
          (store_cells buffer (drive_cells c (λ p. p) b o n) files)
        ≡ bytes_of buffer b n
  load_cells-store_cells zero b o files h = refl
  load_cells-store_cells (suc n) b o files h =
      let files' : Files = λ p' l'. if o / c == p' && o % c == l' then buffer b else files p' l' in
      ap₂ (λ x xs. x ∷ xs)
        (untouched n (b + 1) (o + 1) o files' h (omega arith) ∙ rw (own_cell o) refl)
        (load_cells-store_cells n (b + 1) (o + 1) files' h)

-- A write destroys the bytes one chunk further on the drive: whatever the files hold when the
-- mirrored pieces of a write are stored, the primaries' pieces of a read of as many bytes one
-- chunk behind it give the bytes just written. The write ends at least a chunk before the end of
-- the drive, chunks are not empty, and the sum of offset, length and chunk stays below 2 ^ 64.
pub mirror_overwrites :
    (offset length chunk_size num_minions : ℕ) (buffer : ℕ → ℕ) (files : Files)
    → 0 < chunk_size
    → offset + length + chunk_size ≤ num_minions * chunk_size
    → offset + length + chunk_size < size_mod
    → (segs next : List StripeSegment) × (split offset length chunk_size num_minions ≡ some segs)
      × (split (offset + chunk_size) length chunk_size num_minions ≡ some next)
      × (load_cells
            (segment_cells (λ s. s.primary_minion_index) next)
            (store_cells buffer (segment_cells (λ s. s.backup_minion_index) segs) files)
          ≡ bytes_of buffer 0 length)
mirror_overwrites offset length c n buffer files hc h w =
    let (segs, next, e, e', same) = split_mirror_overlap offset length c n hc h w in
    let (next', e'', p, b) = split_covers (offset + c) length c n hc (omega arith) in
    let eq : next' ≡ next = some_injective (sym e'' ∙ e') in
    let cells : segment_cells (λ s. s.primary_minion_index) next
        ≡ drive_cells c (λ p. p) 0 (offset + c) length =
      ap (segment_cells (λ s. s.primary_minion_index)) (sym eq) ∙ p in
    (
      segs,
      next,
      e,
      e',
      ap₂ (λ from to. load_cells from (store_cells buffer to files)) cells (same ∙ cells)
          ∙ load_cells-store_cells c buffer length 0 (offset + c) files hc,
    )
