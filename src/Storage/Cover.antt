-- ===== src/Storage/Cover.antt =====
-- The cells of the packets of a request that arrive at its minions.
use io_tbased_raid.Prelude.{
  ℕ, ◌+◌, ◌≤◌, ◌<◌, ◌≡◌, sym, ap, ◌∙◌, subst, List, [], ◌∷◌, ◌⊎◌, inl, inr, All, some,
}
use mathlib.Core.List.{Memᴰ}
use mathlib.Core.List.Memᴰ.{head, tail, append_left, append_right, append_cases}
use io_tbased_raid.Splitter.{StripeSegment, size_mod, split, get_backup_index}
use io_tbased_raid.Splitter.Address.{Cell, cells_at, segment_cells, drive_cells, split_covers}
use io_tbased_raid.Storage.Cells.{Agree, drive_cells_agree}
use io_tbased_raid.Storage.Writing.{Arrival, arrival_cells}
use io_tbased_raid.Prelude.{some_injective}

-- The minion has the segment's primary or its backup.
abbrev pub Holds : StripeSegment → ℕ → Type 0
Holds seg i = (i ≡ seg.primary_minion_index) ⊎ (i ≡ seg.backup_minion_index)

-- Only packets of the segments arrive, each at a minion that it was sent to; and every one that was sent
-- does, once or more often.
pub record Arrive (segs : List StripeSegment) (arrivals : List Arrival) : Type 0 where
  pub sent : All (λ (a : Arrival). Memᴰ a.1 segs × Holds a.1 a.0) arrivals
  pub all_arrive :
      (seg : StripeSegment) (i : ℕ) → Memᴰ seg segs → Holds seg i → Memᴰ (i, seg) arrivals

pub of_segment_cells :
    (minion : StripeSegment → ℕ) {seg : StripeSegment} {x : Cell} (segs : List StripeSegment)
    → Memᴰ seg segs
    → Memᴰ x (cells_at seg.buffer_offset (minion seg) seg.local_offset seg.length)
    → Memᴰ x (segment_cells minion segs)
of_segment_cells minion [] m h = elim m [ ]
of_segment_cells minion {seg} {x} (s ∷ segs) (head e) h = append_left (segment_cells minion segs) (
    subst
      (λ (t : StripeSegment). Memᴰ x (cells_at t.buffer_offset (minion t) t.local_offset t.length))
      e h)
of_segment_cells minion (s ∷ segs) (tail m) h =
    append_right (cells_at s.buffer_offset (minion s) s.local_offset s.length)
      (of_segment_cells minion segs m h)

-- A cell of a packet that arrives is one of the primaries or of the backups.
pub of_arrival_cells :
    (segs : List StripeSegment) {x : Cell} (arrivals : List Arrival)
    → All (λ (a : Arrival). Memᴰ a.1 segs × Holds a.1 a.0) arrivals
    → Memᴰ x (arrival_cells arrivals)
    → Memᴰ x (segment_cells (λ s. s.primary_minion_index) segs)
      ⊎ Memᴰ x (segment_cells (λ s. s.backup_minion_index) segs)
of_arrival_cells segs [] sent m = elim m [ ]
of_arrival_cells segs {x} ((i, seg) ∷ arrivals) ((m, holds), sent) h =
    elim (append_cases (cells_at seg.buffer_offset i seg.local_offset seg.length) h) [
      | inl here ↦ (elim holds [
        | inl e ↦ inl (
            of_segment_cells (λ s. s.primary_minion_index) segs m
              (subst (λ k. Memᴰ x (cells_at seg.buffer_offset k seg.local_offset seg.length)) e
                here))
        | inr e ↦ inr (
            of_segment_cells (λ s. s.backup_minion_index) segs m
              (subst (λ k. Memᴰ x (cells_at seg.buffer_offset k seg.local_offset seg.length)) e
                here))
      ])
      | inr there ↦ of_arrival_cells segs arrivals sent there
    ]

-- The cells of an arrival are among those of all.
pub in_arrival_cells :
    {seg : StripeSegment} {i : ℕ} {x : Cell} (arrivals : List Arrival)
    → Memᴰ (i, seg) arrivals
    → Memᴰ x (cells_at seg.buffer_offset i seg.local_offset seg.length)
    → Memᴰ x (arrival_cells arrivals)
in_arrival_cells [] m h = elim m [ ]
in_arrival_cells {seg} {i} {x} ((j, s) ∷ arrivals) (head e) h =
    append_left (arrival_cells arrivals) (
      subst (λ (a : Arrival). Memᴰ x (cells_at a.1.buffer_offset a.0 a.1.local_offset a.1.length)) e
        h)
in_arrival_cells ((j, s) ∷ arrivals) (tail m) h =
    append_right (cells_at s.buffer_offset j s.local_offset s.length)
      (in_arrival_cells arrivals m h)

-- The packets of a request of at most a chunk write no cell with two bytes.
pub arrivals-Agree :
    (offset len c n : ℕ) {segs : List StripeSegment} (arrivals : List Arrival) (buffer : ℕ → ℕ)
    → 0 < c
    → len ≤ c
    → offset + len < size_mod
    → split offset len c n ≡ some segs
    → Arrive segs arrivals
    → Agree buffer (arrival_cells arrivals)
arrivals-Agree offset len c n {segs} arrivals buffer hc h w e arrive b b' p l m m' =
    ap buffer (same (place (b, p, l) m) (place (b', p, l) m'))
  where
    covers :
        (segment_cells (λ s. s.primary_minion_index) segs ≡ drive_cells c (λ q. q) 0 offset len)
        × (segment_cells (λ s. s.backup_minion_index) segs
            ≡ drive_cells c (λ q. get_backup_index q n) 0 offset len)
    covers =
        let (segs', e', primaries, backups) = split_covers offset len c n hc w in
        let eq : segs ≡ segs' = some_injective (sym e ∙ e') in
        (
          ap (segment_cells (λ s. s.primary_minion_index)) eq ∙ primaries,
          ap (segment_cells (λ s. s.backup_minion_index)) eq ∙ backups,
        )

    -- The place of a cell is that of a byte of the drive.
    Placed : Cell → Type 0
    Placed x =
        Memᴰ x (drive_cells c (λ q. q) 0 offset len)
        ⊎ Memᴰ x (drive_cells c (λ q. get_backup_index q n) 0 offset len)

    place : (x : Cell) → Memᴰ x (arrival_cells arrivals) → Placed x
    place x k = elim (of_arrival_cells segs arrivals arrive.sent k) [
      | inl k' ↦ inl (subst (Memᴰ x) covers.0 k')
      | inr k' ↦ inr (subst (Memᴰ x) covers.1 k')
    ]

    agree :
        (f g : ℕ → ℕ)
        → Memᴰ (b, p, l) (drive_cells c f 0 offset len)
        → Memᴰ (b', p, l) (drive_cells c g 0 offset len)
        → b' ≡ b
    agree f g k k' = drive_cells_agree c f g 0 offset len h k k'

    same : Placed (b, p, l) → Placed (b', p, l) → b' ≡ b
    same (inl k) (inl k') = agree (λ q. q) (λ q. q) k k'
    same (inl k) (inr k') = agree (λ q. q) (λ q. get_backup_index q n) k k'
    same (inr k) (inl k') = agree (λ q. get_backup_index q n) (λ q. q) k k'
    same (inr k) (inr k') = agree (λ q. get_backup_index q n) (λ q. get_backup_index q n) k k'
