-- ===== src/Storage/Written.antt =====
-- What the files hold at a byte of the drive after the packets of a write have arrived, in any order.
use io_tbased_raid.Prelude.{
  ℕ, ◌+◌, ◌-◌, ◌*◌, ◌/◌, ◌%◌, ◌≤◌, ◌<◌, ◌≡◌, refl, sym, ap, ap₂, ◌∙◌, subst, true, false, inl, inr,
  some, some_injective, List, [], ◌∷◌, arith, Bool-cases,
}
use mathlib.Core.List.{Memᴰ}
use mathlib.Core.List.Memᴰ.{head, tail, append_cases}
use io_tbased_raid.Splitter.{StripeSegment, size_mod, split, get_backup_index}
use io_tbased_raid.Splitter.Address.{Cell, cells_at, segment_cells, drive_cells, split_covers}
use io_tbased_raid.Splitter.Loss.{Files, store_cells}
use io_tbased_raid.Storage.Cells.{kept, stored}
use io_tbased_raid.Storage.Writing.{Arrival, arrival_cells}
use io_tbased_raid.Storage.Cover.{Arrive, of_arrival_cells, in_arrival_cells, arrivals-Agree}
use io_tbased_raid.Storage.Drive.{
  mirror_source, within, byte_after, byte_cell, in_drive_cells, of_cells, same_byte, source_of,
  mirror_source-IsPlaceOf, backup_plain,
}

-- The segment of a cell.
of_segments :
    (minion : StripeSegment → ℕ) {x : Cell} (segs : List StripeSegment)
    → Memᴰ x (segment_cells minion segs)
    → (seg : StripeSegment) × Memᴰ seg segs
      × Memᴰ x (cells_at seg.buffer_offset (minion seg) seg.local_offset seg.length)
of_segments minion [] m = elim m [ ]
of_segments minion (s ∷ segs) m =
    elim (append_cases (cells_at s.buffer_offset (minion s) s.local_offset s.length) m) [
      | inl here ↦ (s, head refl, here)
      | inr there ↦ let (seg, k, h) = of_segments minion segs there in (seg, tail k, h)
    ]

-- The cell of a byte in the range.
cell_of :
    (c : ℕ) (minion_of : ℕ → ℕ) (offset len o : ℕ)
    → within offset len o ≡ true
    → Memᴰ (byte_cell c minion_of (o - offset) o) (drive_cells c minion_of 0 offset len)
cell_of c minion_of offset len o e =
    subst (λ (x : Cell). Memᴰ x (drive_cells c minion_of 0 offset len))
      (ap₂ (byte_cell c minion_of) (omega arith) (ground (arith, e)))
      (in_drive_cells c minion_of 0 offset len (o - offset) (ground (arith, e)))

module _ (offset len c n : ℕ) (segs : List StripeSegment) (arrivals : List Arrival) (hc : 0 < c)
    (short : len ≤ c) (inside : offset + len ≤ n * c) (fits : n * c < size_mod)
    (cut : split offset len c n ≡ some segs) (arrive : Arrive segs arrivals) where
  primaries : segment_cells (λ s. s.primary_minion_index) segs ≡ drive_cells c (λ q. q) 0 offset len
  primaries =
      let (segs', e, p, b) = split_covers offset len c n hc (omega arith) in
      ap (segment_cells (λ s. s.primary_minion_index)) (some_injective (sym cut ∙ e)) ∙ p

  backups :
      segment_cells (λ s. s.backup_minion_index) segs
      ≡ drive_cells c (λ q. get_backup_index q n) 0 offset len
  backups =
      let (segs', e, p, b) = split_covers offset len c n hc (omega arith) in
      ap (segment_cells (λ s. s.backup_minion_index)) (some_injective (sym cut ∙ e)) ∙ b

  -- The cells of the primaries and of the backups arrive.
  primary_arrives :
      {x : Cell} → Memᴰ x (drive_cells c (λ q. q) 0 offset len) → Memᴰ x (arrival_cells arrivals)
  primary_arrives {x} m =
      let (seg, k, h) =
        of_segments (λ s. s.primary_minion_index) segs (subst (Memᴰ x) (sym primaries) m) in
      in_arrival_cells arrivals (arrive.all_arrive seg seg.primary_minion_index k (inl refl)) h

  backup_arrives :
      {x : Cell}
      → Memᴰ x (drive_cells c (λ q. get_backup_index q n) 0 offset len)
      → Memᴰ x (arrival_cells arrivals)
  backup_arrives {x} m =
      let (seg, k, h) =
        of_segments (λ s. s.backup_minion_index) segs (subst (Memᴰ x) (sym backups) m) in
      in_arrival_cells arrivals (arrive.all_arrive seg seg.backup_minion_index k (inr refl)) h

  -- No other cell does.
  no_cell :
      (o : ℕ) {b : ℕ}
      → o < n * c
      → within offset len o ≡ false
      → within offset len (mirror_source c n o) ≡ false
      → Memᴰ (b, o / c, o % c) (arrival_cells arrivals)
      → ⊥
  no_cell o {b} ho out out' m = elim (of_arrival_cells segs arrivals arrive.sent m) [
    | inl k ↦
        let (i, h, _, d, r) =
          of_cells c (λ q. q) 0 offset len (subst (Memᴰ (b, o / c, o % c)) primaries k) in
        let e : o ≡ offset + i = same_byte c o (offset + i) hc d r in ground (arith, e, h, out)
    | inr k ↦
        let (i, h, _, d, r) =
          of_cells c (λ q. get_backup_index q n) 0 offset len
            (subst (Memᴰ (b, o / c, o % c)) backups k) in
        let e : mirror_source c n o ≡ offset + i =
          source_of c n o (offset + i) hc ho (omega arith)
            (d ∙ backup_plain c n (offset + i) hc (omega arith) fits) r in
        ground (arith, e, h, out')
  ]

  mirrored :
      (o : ℕ)
      → o < n * c
      → within offset len (mirror_source c n o) ≡ true
      → Memᴰ
          (mirror_source c n o - offset, o / c, o % c)
          (drive_cells c (λ q. get_backup_index q n) 0 offset len)
  mirrored o ho e =
      let (_, d, r) = mirror_source-IsPlaceOf c n o hc ho fits in
      let same : byte_cell c (λ q. get_backup_index q n) (mirror_source c n o - offset)
            (mirror_source c n o)
          ≡ (mirror_source c n o - offset, o / c, o % c) =
        ap₂ (λ p l. (mirror_source c n o - offset, p, l)) d r in
      subst (λ (x : Cell). Memᴰ x (drive_cells c (λ q. get_backup_index q n) 0 offset len)) same
        (cell_of c (λ q. get_backup_index q n) offset len (mirror_source c n o) e)

  module _ (buffer : ℕ → ℕ) (files : Files) where
    abbrev written : ℕ → ℕ → ℕ
    written = store_cells buffer (arrival_cells arrivals) files

    stored_at : {b p l : ℕ} → Memᴰ (b, p, l) (arrival_cells arrivals) → written p l ≡ buffer b
    stored_at {b} {p} {l} m =
        stored buffer p l (buffer b) (arrival_cells arrivals) files
          (λ b' m'.
            arrivals-Agree offset len c n arrivals buffer hc short (omega arith) cut arrive b b' p l
              m m')
          m

    -- A byte of the drive after the write.
    pub byte_written :
        (o : ℕ)
        → o < n * c
        → written (o / c) (o % c) ≡ byte_after c n offset len buffer o (files (o / c) (o % c))
    byte_written o ho = elim (Bool-cases (within offset len o)) [
      | inl e ↦ rw e (stored_at (primary_arrives (cell_of c (λ q. q) offset len o e)))
      | inr e ↦ (elim (Bool-cases (within offset len (mirror_source c n o))) [
        | inl e' ↦ rw (e, e') (stored_at (backup_arrives (mirrored o ho e')))
        | inr e' ↦
            rw (e, e')
              (kept buffer (o / c) (o % c) (files (o / c) (o % c)) (arrival_cells arrivals) files
                (λ b m. absurd (no_cell o ho e e' m)) refl)
      ])
    ]
