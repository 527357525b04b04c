-- ===== src/Storage/Drive.antt =====
-- What the primaries hold after a write of a range of the drive: each byte of it, and each byte whose place is that of a
-- mirrored one, one chunk further on.
use io_tbased_raid.Prelude.{
  ℕ, zero, suc, ◌+◌, ◌-◌, ◌*◌, ◌/◌, ◌%◌, ◌≤◌, ◌<◌, ◌≡◌, refl, sym, ap, ap₂, ◌∙◌, subst, Bool, ◌&&◌,
  leb, ltb, inl, inr, arith, Bool-cases, ℕ_discrete, if◌then◌else◌,
}
use mathlib.Core.List.{Memᴰ}
use mathlib.Core.List.Memᴰ.{head, tail}
use native.Mathlib.Nat.{mod-eq_of_lt, mod_self}
use io_tbased_raid.Splitter.{size_mod, get_backup_index}
use io_tbased_raid.Splitter.Address.{Cell, drive_cells, div-mod_unique}

-- The place whose mirror is at the place of byte `o`, on a drive of `n` chunks of `c` bytes.
abbrev pub mirror_source : ℕ → ℕ → ℕ → ℕ
mirror_source c n o = if leb c o then o - c else o + n * c - c

abbrev pub within : ℕ → ℕ → ℕ → Bool
within offset len o = leb offset o && ltb o (offset + len)

-- A byte of the drive after the write of a buffer.
abbrev pub byte_after : ℕ → ℕ → ℕ → ℕ → (ℕ → ℕ) → ℕ → ℕ → ℕ
byte_after c n offset len buffer o old =
    if within offset len o
    then buffer (o - offset)
    else if within offset len (mirror_source c n o)
    then buffer (mirror_source c n o - offset)
    else old

-- Every byte of a range has its cell.
abbrev pub byte_cell : ℕ → (ℕ → ℕ) → ℕ → ℕ → Cell
byte_cell c minion_of b o = (b, minion_of (o / c), o % c)

pub in_drive_cells :
    (c : ℕ) (minion_of : ℕ → ℕ) (b o n i : ℕ)
    → i < n
    → Memᴰ (byte_cell c minion_of (b + i) (o + i)) (drive_cells c minion_of b o n)
in_drive_cells c minion_of b o zero i h = absurd (omega arith)
in_drive_cells c minion_of b o (suc n) zero h =
    head (ap₂ (byte_cell c minion_of) (omega arith) (omega arith))
in_drive_cells c minion_of b o (suc n) (suc i) h =
    let below : Memᴰ (byte_cell c minion_of (b + 1 + i) (o + 1 + i))
        (drive_cells c minion_of (b + 1) (o + 1) n) =
      in_drive_cells c minion_of (b + 1) (o + 1) n i (omega arith) in
    let same : byte_cell c minion_of (b + 1 + i) (o + 1 + i)
        ≡ byte_cell c minion_of (b + suc i) (o + suc i) =
      ap₂ (byte_cell c minion_of) (omega arith) (omega arith) in
    tail (subst (λ (x : Cell). Memᴰ x (drive_cells c minion_of (b + 1) (o + 1) n)) same below)

-- The bytes that the cells are of, with their minions.
pub of_cells :
    (c : ℕ) (minion_of : ℕ → ℕ) (b o n : ℕ) {x p l : ℕ}
    → Memᴰ (x, p, l) (drive_cells c minion_of b o n)
    → (i : ℕ) × (i < n) × (x ≡ b + i) × (p ≡ minion_of ((o + i) / c)) × (l ≡ (o + i) % c)
of_cells c minion_of b o zero m = elim m [ ]
of_cells c minion_of b o (suc n) (head e) = (
  0,
  omega arith,
  ap (λ t. t.0) e ∙ omega arith,
  ap (λ t. t.1) e ∙ ap (λ k. minion_of (k / c)) (omega arith),
  ap (λ t. t.2) e ∙ ap (λ k. k % c) (omega arith),
)
of_cells c minion_of b o (suc n) (tail m) =
    let (i, h, e, e', e'') = of_cells c minion_of (b + 1) (o + 1) n m in
    (
      i + 1,
      omega arith,
      omega arith,
      e' ∙ ap (λ k. minion_of (k / c)) (omega arith),
      e'' ∙ ap (λ k. k % c) (omega arith),
    )

pub same_byte : (c o o' : ℕ) → 0 < c → o / c ≡ o' / c → o % c ≡ o' % c → o ≡ o'
same_byte c o o' h d m = grind arith

whole : (c o : ℕ) → 0 < c → o ≡ o / c * c + o % c
whole c o h = grind arith

next_chunk : (q c : ℕ) → (q + 1) * c ≡ q * c + c
next_chunk q c = grind arith

plus_one : (n : ℕ) → suc n ≡ n + 1
plus_one n = omega arith

-- The place of the mirror of byte `s`.
pub source_of :
    (c n o s : ℕ)
    → 0 < c
    → o < n * c
    → s < n * c
    → o / c ≡ (s / c + 1) % n
    → o % c ≡ s % c
    → mirror_source c n o ≡ s
source_of c n o s hc ho hs d m = elim (ℕ_discrete (s / c + 1) n) [
  | yes last ↦
      let zero_chunk : o / c ≡ 0 = d ∙ ap (λ k. k % n) last ∙ mod_self n in
      let size : n * c ≡ s / c * c + c = ap (λ k. k * c) (sym last) ∙ grind arith in
      let low : o ≡ s % c = whole c o hc ∙ ap (λ k. k * c + o % c) zero_chunk ∙ omega (arith, m) in
      ground (arith, size, low, whole c s hc, small)
  | no more ↦
      let next : o / c ≡ s / c + 1 =
        d ∙ mod-eq_of_lt {n = s / c + 1} {m = n} (omega (arith, chunk_in)) in
      let place : o ≡ s / c * c + c + s % c =
        whole c o hc ∙ ap₂ (λ k r. k * c + r) next m ∙ grind arith in
      ground (arith, place, whole c s hc)
]
  where
    chunk_in : s / c < n
    chunk_in = grind arith

    small : s % c < c
    small = omega arith

pub backup_plain :
    (c n s : ℕ)
    → 0 < c
    → s < n * c
    → n * c < size_mod
    → get_backup_index (s / c) n ≡ (s / c + 1) % n
backup_plain c n s hc h w = rw (mod-eq_of_lt {n = s / c + 1} {m = size_mod} below) refl
  where
    below : s / c + 1 < size_mod
    below = grind arith

abbrev pub IsPlaceOf : ℕ → ℕ → ℕ → ℕ → Type 0
IsPlaceOf c n o s = (s < n * c) × (get_backup_index (s / c) n ≡ o / c) × (s % c ≡ o % c)

in_later_chunk :
    (c n o : ℕ) → 0 < c → o < n * c → n * c < size_mod → c ≤ o → IsPlaceOf c n o (o - c)
in_later_chunk c n o hc ho w h =
    let (d, m) = div-mod_unique c o ((o - c) / c + 1) ((o - c) % c) sum (omega arith) in
    (
      omega arith,
      backup_plain c n (o - c) hc (omega arith) w ∙ ap (λ k. k % n) (sym d) ∙ mod-eq_of_lt inside,
      sym m,
    )
  where
    sum : ((o - c) / c + 1) * c + (o - c) % c ≡ o
    sum = omega (arith, next_chunk ((o - c) / c) c, whole c (o - c) hc)

    inside : o / c < n
    inside = grind arith

in_first_chunk :
    (c n o : ℕ) → 0 < c → o < n * c → n * c < size_mod → o < c → IsPlaceOf c n o (o + n * c - c)
in_first_chunk c zero o hc ho w h = absurd (omega arith)
in_first_chunk c (suc n) o hc ho w h =
    let e : o + suc n * c - c ≡ n * c + o = omega (arith, next_chunk n c, plus_one n) in
    let (d, m) = div-mod_unique c (o + suc n * c - c) n o (sym e) h in
    let (d', m') = div-mod_unique c o 0 o (omega arith) h in
    (
      omega (arith, e, next_chunk n c, plus_one n),
      backup_plain c (suc n) (o + suc n * c - c) hc (omega (arith, e, next_chunk n c, plus_one n)) w
          ∙ ap (λ k. (k + 1) % suc n) d
          ∙ ap (λ k. k % suc n) (omega arith)
          ∙ mod_self (suc n)
          ∙ sym d',
      m ∙ sym m',
    )

-- Where the mirror of that byte is.
pub mirror_source-IsPlaceOf :
    (c n o : ℕ) → 0 < c → o < n * c → n * c < size_mod → IsPlaceOf c n o (mirror_source c n o)
mirror_source-IsPlaceOf c n o hc ho w = elim (Bool-cases (leb c o)) [
  | inl e ↦ rw e (in_later_chunk c n o hc ho w (ground (arith, e)))
  | inr e ↦ rw e (in_first_chunk c n o hc ho w (ground (arith, e)))
]
