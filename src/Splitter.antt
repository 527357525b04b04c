-- ===== src/Splitter.antt =====
-- concrete/include/StripeSplitter.hpp and concrete/src/StripeSplitter.cpp: a request on the drive is
-- cut at the borders of the minions' chunks. `size_t` sums wrap at 2 ^ 64.
pub mod Loop
pub mod Address
pub mod Bounds
pub mod Overlap
pub mod Loss
use io_tbased_raid.Prelude.{
  ℕ, zero, suc, ◌+◌, ◌-◌, ◌/◌, ◌%◌, ◌^◌, min, Option, none, some, List, [], ◌∷◌, ◌==◌,
  if◌then◌else◌,
}
use mathlib.Core.Option

abbrev pub size_mod : ℕ
size_mod = 2 ^ 64

-- `struct StripeSegment`
pub record StripeSegment : Type 0 where
  pub local_offset : ℕ
  pub length : ℕ
  pub buffer_offset : ℕ
  pub primary_minion_index : ℕ
  pub backup_minion_index : ℕ

abbrev pub get_primary_index : ℕ → ℕ → ℕ
get_primary_index offset chunk_size = offset / chunk_size

abbrev pub get_backup_index : ℕ → ℕ → ℕ
get_backup_index primary_index num_minions = (primary_index + 1) % size_mod % num_minions

-- The segment that the loop's body pushes.
abbrev pub next_segment : ℕ → ℕ → ℕ → ℕ → ℕ → StripeSegment
next_segment chunk_size num_minions remaining current_offset buffer_offset = record {
  local_offset = current_offset % chunk_size;
  length = min remaining (chunk_size - current_offset % chunk_size);
  buffer_offset = buffer_offset;
  primary_minion_index = get_primary_index current_offset chunk_size;
  backup_minion_index = get_backup_index (get_primary_index current_offset chunk_size) num_minions;
}

-- `while(remaining > 0)`, with fuel for the rounds; `none` means that the fuel ran out.
unfoldable pub split_loop : ℕ → ℕ → ℕ → ℕ → ℕ → ℕ → Option (List StripeSegment)
split_loop zero chunk_size num_minions remaining current_offset buffer_offset =
    if remaining == 0 then some [] else none
split_loop (suc fuel) chunk_size num_minions remaining current_offset buffer_offset =
    let seg : StripeSegment =
      next_segment chunk_size num_minions remaining current_offset buffer_offset in
    let rest : Option (List StripeSegment) =
      split_loop fuel chunk_size num_minions (remaining - seg.length)
        ((current_offset + seg.length) % size_mod) ((buffer_offset + seg.length) % size_mod) in
    if remaining == 0 then some [] else Option.map (λ segs. seg ∷ segs) rest

-- Every round takes at least a byte, so `length` rounds are enough (`Loop.split-total`). A chunk size
-- of 0, which divides by zero in the code, gives `none`.
unfoldable pub split : ℕ → ℕ → ℕ → ℕ → Option (List StripeSegment)
unfolding split_loop
split offset length chunk_size num_minions =
    if chunk_size == 0 then none else split_loop length chunk_size num_minions length offset 0
