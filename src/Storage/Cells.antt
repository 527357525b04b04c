-- ===== src/Storage/Cells.antt =====
-- What files hold after writes of cells that come in any order, and more than once.
use io_tbased_raid.Prelude.{
  ℕ, zero, suc, ◌+◌, ◌%◌, ◌≤◌, ◌<◌, ◌≡◌, refl, sym, ap, ap₂, ◌∙◌, true, ◌&&◌, List, [], ◌∷◌, arith,
  ◌==◌, if◌then◌else◌,
}
use mathlib.Core.List.{Memᴰ}
use mathlib.Core.List.Memᴰ.{head, tail}
use io_tbased_raid.Splitter.Address.{Cell, cells_at, drive_cells}
use io_tbased_raid.Splitter.Loss.{Files, store_cells, bytes_of}

module _ (buffer : ℕ → ℕ) (p l v : ℕ) where
  -- Every write to the place puts `v` there.
  abbrev pub Puts : List Cell → Type 0
  Puts cells = (b : ℕ) → Memᴰ (b, p, l) cells → buffer b ≡ v

  here :
      (b p' l' : ℕ) (cells : List Cell)
      → Puts ((b, p', l') ∷ cells)
      → (p' == p && l' == l) ≡ true
      → buffer b ≡ v
  here b p' l' cells puts e = puts b (head (ground arith))

  pub kept :
      (cells : List Cell) (files : Files)
      → Puts cells
      → files p l ≡ v
      → store_cells buffer cells files p l ≡ v
  kept [] files puts e = e
  kept ((b, p', l') ∷ cells) files puts e =
      kept cells (λ p'' l''. if p' == p'' && l' == l'' then buffer b else files p'' l'')
        (λ b' m. puts b' (tail m)) (ground (arith, e, here b p' l' cells puts))

  -- A place that is written holds `v`.
  pub stored :
      (cells : List Cell) (files : Files) {b : ℕ}
      → Puts cells
      → Memᴰ (b, p, l) cells
      → store_cells buffer cells files p l ≡ v
  stored [] files puts m = elim m [ ]
  stored ((b', p', l') ∷ cells) files {b} puts (head e) =
      kept cells (λ p'' l''. if p' == p'' && l' == l'' then buffer b' else files p'' l'')
        (λ b'' m. puts b'' (tail m))
        (ground (arith, puts b (head e), ap (λ x. x.0) e, ap (λ x. x.1) e, ap (λ x. x.2) e))
  stored ((b', p', l') ∷ cells) files puts (tail m) =
      stored cells (λ p'' l''. if p' == p'' && l' == l'' then buffer b' else files p'' l'')
        (λ b'' m'. puts b'' (tail m')) m

-- Cells whose place decides their byte.
abbrev pub Agree : (ℕ → ℕ) → List Cell → Type 0
Agree buffer cells =
    (b b' p l : ℕ) → Memᴰ (b, p, l) cells → Memᴰ (b', p, l) cells → buffer b' ≡ buffer b

-- What is read from written cells, if the writes agree.
pub load_cells-store :
    (buffer : ℕ → ℕ) (written : List Cell) (files : Files)
    → Agree buffer written
    → (b p l n : ℕ) → ((b' l' : ℕ) → Memᴰ (b', p, l') (cells_at b p l n) → Memᴰ (b', p, l') written)
    → bytes_of (store_cells buffer written files p) l n ≡ bytes_of buffer b n
load_cells-store buffer written files agree b p l zero sub = refl
load_cells-store buffer written files agree b p l (suc n) sub =
    ap₂ (λ x xs. x ∷ xs)
      (stored buffer p l (buffer b) written files (λ b' m. agree b b' p l (sub b l (head refl)) m)
        (sub b l (head refl)))
      (load_cells-store buffer written files agree (b + 1) p (l + 1) n
        (λ b' l' m. sub b' l' (tail m)))

-- A cell of the drive's byte `o + i`.
pub of_drive_cells :
    (c : ℕ) (minion_of : ℕ → ℕ) (b o n : ℕ) {x p l : ℕ}
    → Memᴰ (x, p, l) (drive_cells c minion_of b o n)
    → (i : ℕ) × (i < n) × (x ≡ b + i) × (l ≡ (o + i) % c)
of_drive_cells c minion_of b o zero m = elim m [ ]
of_drive_cells c minion_of b o (suc n) (head e) =
    (0, omega arith, ap (λ t. t.0) e ∙ omega arith, ap (λ t. t.2) e ∙ ap (λ k. k % c) (omega arith))
of_drive_cells c minion_of b o (suc n) (tail m) =
    let (i, h, e, e') = of_drive_cells c minion_of (b + 1) (o + 1) n m in
    (i + 1, omega arith, omega arith, e' ∙ ap (λ k. k % c) (omega arith))

same_index : (c o i j : ℕ) → i < c → j < c → (o + i) % c ≡ (o + j) % c → i ≡ j
same_index c o i j h h' e = grind arith

-- At most a chunk of the drive: the place inside a chunk decides the byte, whichever minions they are on.
pub drive_cells_agree :
    (c : ℕ) (minion_of other : ℕ → ℕ) (b o n : ℕ) {x x' p p' l : ℕ}
    → n ≤ c
    → Memᴰ (x, p, l) (drive_cells c minion_of b o n)
    → Memᴰ (x', p', l) (drive_cells c other b o n)
    → x' ≡ x
drive_cells_agree c minion_of other b o n h m m' =
    let (i, hi, e, d) = of_drive_cells c minion_of b o n m in
    let (j, hj, e', d') = of_drive_cells c other b o n m' in
    e' ∙ ap (λ k. b + k) (same_index c o j i (omega arith) (omega arith) (sym d' ∙ d)) ∙ sym e
