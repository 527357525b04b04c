-- ===== src/Storage/Files.antt =====
-- The write of a segment, as the minion's file sees it and as cells are written.
use io_tbased_raid.Prelude.{
  ℕ, zero, suc, ◌+◌, ◌≤◌, ◌≡◌, refl, sym, ap, ap₂, ◌∙◌, false, ◌&&◌, List, [], ◌∷◌, ◌==◌, ◌++◌,
  arith, drop, if◌then◌else◌, length,
}
use native.Mathlib.Nat.{zero-add, add-zero}
use io_tbased_raid.Prelude.Words.{copy_out, copy_out_self}
use io_tbased_raid.Splitter.Address.{cells_at}
use io_tbased_raid.Splitter.Loss.{Files, store_cells, bytes_of}
use io_tbased_raid.Storage.{overwrite}

-- The byte of a buffer at an index; behind its end there is none, and 0 stands for it.
abbrev pub byte_at : List ℕ → ℕ → ℕ
byte_at [] i = 0
byte_at (b ∷ bytes) zero = b
byte_at (b ∷ bytes) (suc i) = byte_at bytes i

bytes_of_cons :
    (b n i : ℕ) (bytes : List ℕ)
    → bytes_of (byte_at (b ∷ bytes)) (suc i) n ≡ bytes_of (byte_at bytes) i n
bytes_of_cons b zero i bytes = refl
bytes_of_cons b (suc n) i bytes =
    ap (λ t. byte_at bytes i ∷ t)
      (ap (λ k. bytes_of (byte_at (b ∷ bytes)) k n) (omega arith) ∙ bytes_of_cons b n (i + 1) bytes)

copy_out_front :
    (junk : ℕ → ℕ) (j n : ℕ) (bytes : List ℕ)
    → n ≤ length bytes
    → copy_out junk j bytes n ≡ bytes_of (byte_at bytes) 0 n
unfolding copy_out
copy_out_front junk j zero bytes h = refl
copy_out_front junk j (suc n) [] h = absurd (omega arith)
copy_out_front junk j (suc n) (b ∷ bytes) h =
    ap (λ t. b ∷ t)
      (copy_out_front junk (j + 1) n bytes (omega arith) ∙ sym (bytes_of_cons b n 0 bytes))

-- A buffer byte by byte.
pub bytes_of-byte_at : (bytes : List ℕ) → bytes_of (byte_at bytes) 0 (length bytes) ≡ bytes
bytes_of-byte_at bytes =
    sym (copy_out_front (λ i. 0) 0 (length bytes) bytes (omega arith))
    ∙ copy_out_self (λ i. 0) 0 bytes

-- The slice of a buffer.
pub copy_out-drop :
    (junk : ℕ → ℕ) (i n : ℕ) (bytes : List ℕ)
    → i + n ≤ length bytes
    → copy_out junk 0 (drop i bytes) n ≡ bytes_of (byte_at bytes) i n
unfolding copy_out
copy_out-drop junk zero n bytes h = copy_out_front junk 0 n bytes (omega arith)
copy_out-drop junk (suc i) n [] h =
    ap (copy_out junk 0 []) zero_left ∙ sym (ap (bytes_of (byte_at []) (suc i)) zero_left)
  where
    zero_left : n ≡ 0
    zero_left = omega arith
copy_out-drop junk (suc i) n (b ∷ bytes) h =
    copy_out-drop junk i n bytes (omega arith) ∙ sym (bytes_of_cons b n i bytes)

pub length-bytes_of : (g : ℕ → ℕ) (b n : ℕ) → length (bytes_of g b n) ≡ n
length-bytes_of g b zero = refl
length-bytes_of g b (suc n) = ap suc (length-bytes_of g (b + 1) n)

-- Bytes in two pieces.
pub bytes_of-add :
    (g : ℕ → ℕ) (b m n : ℕ) → bytes_of g b (m + n) ≡ bytes_of g b m ++ bytes_of g (b + m) n
bytes_of-add g b zero n = rw (zero-add, add-zero b) refl
bytes_of-add g b (suc m) n = rw (suc-add, add_suc) (ap (λ t. g b ∷ t) (bytes_of-add g (b + 1) m n))
  where
    suc-add : suc m + n ≡ suc (m + n)
    suc-add = omega arith

    add_suc : b + suc m ≡ b + 1 + m
    add_suc = omega arith

pub bytes_of-same :
    (f g : ℕ → ℕ) → ((i : ℕ) → f i ≡ g i) → (b n : ℕ) → bytes_of f b n ≡ bytes_of g b n
bytes_of-same f g same b zero = refl
bytes_of-same f g same b (suc n) = ap₂ (λ x xs. x ∷ xs) (same b) (bytes_of-same f g same (b + 1) n)

pub copy_out-bytes_of :
    (junk : ℕ → ℕ) (i : ℕ) (g : ℕ → ℕ) (b n : ℕ)
    → copy_out junk i (bytes_of g b n) n ≡ bytes_of g b n
unfolding copy_out
copy_out-bytes_of junk i g b zero = refl
copy_out-bytes_of junk i g b (suc n) =
    ap (λ t. g b ∷ t) (copy_out-bytes_of junk (i + 1) g (b + 1) n)

module _ (g : ℕ → ℕ) where
  -- At the minion itself the cells' write is the file's.
  pub store_cells_own :
      (b i o n : ℕ) (files : Files) (old : ℕ → ℕ) (p : ℕ)
      → ((q : ℕ) → files i q ≡ old q)
      → store_cells g (cells_at b i o n) files i p ≡ overwrite old o (bytes_of g b n) p
  store_cells_own b i o zero files old p same = same p
  store_cells_own b i o (suc n) files old p same =
      store_cells_own (b + 1) i (o + 1) n (λ p' l'. if i == p' && o == l' then g b else files p' l')
        (λ q. if o == q then g b else old q) p (λ q. ground (arith, same q))

  -- Other minions' files stay.
  pub store_cells_other :
      (b i o n : ℕ) (files : Files) (j p : ℕ)
      → (i == j) ≡ false
      → store_cells g (cells_at b i o n) files j p ≡ files j p
  store_cells_other b i o zero files j p ne = refl
  store_cells_other b i o (suc n) files j p ne =
      store_cells_other (b + 1) i (o + 1) n
        (λ p' l'. if i == p' && o == l' then g b else files p' l') j p ne
      ∙ rw ne refl

  pub store_cells-append :
      (front back : List (ℕ × ℕ × ℕ)) (files : Files)
      → store_cells g (front ++ back) files ≡ store_cells g back (store_cells g front files)
  store_cells-append [] back files = refl
  store_cells-append ((b, p, l) ∷ front) back files =
      store_cells-append front back (λ p' l'. if p == p' && l == l' then g b else files p' l')

  pub store_cells-same :
      (cells : List (ℕ × ℕ × ℕ)) (files files' : Files)
      → ((i p : ℕ) → files i p ≡ files' i p)
      → (i p : ℕ) → store_cells g cells files i p ≡ store_cells g cells files' i p
  store_cells-same [] files files' same i p = same i p
  store_cells-same ((b, p', l') ∷ cells) files files' same i p =
      store_cells-same cells (λ p'' l''. if p' == p'' && l' == l'' then g b else files p'' l'')
        (λ p'' l''. if p' == p'' && l' == l'' then g b else files' p'' l'')
        (λ i' q. ground (arith, same i' q)) i p
