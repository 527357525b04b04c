-- ===== src/Prelude/Words.antt =====
-- Unsigned integers in memory: little-endian stores and loads, and copies out of an array.
use Prim.Native.Nat.{ℕ, zero, suc, ◌+◌, ◌*◌, ◌/◌, ◌%◌, ◌^◌, ◌<◌}
use mathlib.Core.Path.{◌≡◌, refl, ap}
use mathlib.Core.List.{List, [], ◌∷◌, ◌++◌}
use mathlib.Core.Option.{Option, none, some}
use native.Mathlib.Omega.{arith}
use native.Mathlib.Nat.{pow-suc}
use io_tbased_raid.Prelude.Lists.{length}

-- `*(T*)buffer = v` for an unsigned type of `k` bytes.
unfoldable pub store : ℕ → ℕ → List ℕ
store zero v = []
store (suc k) v = (v % 256) ∷ store k (v / 256)

-- `*(T*)buffer`, and the bytes behind it; `none` where the buffer ends before.
unfoldable pub load : ℕ → List ℕ → Option (ℕ × List ℕ)
load zero bytes = some (0, bytes)
load (suc k) [] = none
load (suc k) (b ∷ bytes) = elim (load k bytes) [
  | none ↦ none
  | some (v, rest) ↦ some (b + 256 * v, rest)
]

-- The `n` bytes of an array from its start; `junk i` is what memory holds at an index `i` behind it.
unfoldable pub copy_out : (ℕ → ℕ) → ℕ → List ℕ → ℕ → List ℕ
copy_out junk i bytes zero = []
copy_out junk i [] (suc n) = junk i ∷ copy_out junk (i + 1) [] n
copy_out junk i (b ∷ bytes) (suc n) = b ∷ copy_out junk (i + 1) bytes n

-- `n` bytes of a buffer, and those behind; `none` where it ends before.
unfoldable pub split_at? : ℕ → List ℕ → Option (List ℕ × List ℕ)
split_at? zero bytes = some ([], bytes)
split_at? (suc n) [] = none
split_at? (suc n) (b ∷ bytes) = elim (split_at? n bytes) [
  | none ↦ none
  | some (front, rest) ↦ some (b ∷ front, rest)
]

pub length-store : (k v : ℕ) → length (store k v) ≡ k
unfolding store
length-store zero v = refl
length-store (suc k) v = ap suc (length-store k (v / 256))

-- A stored value that fits is loaded again, whatever follows it.
pub load-store :
    (k v : ℕ) (rest : List ℕ) → v < 256 ^ k → load k (store k v ++ rest) ≡ some (v, rest)
unfolding store load
load-store zero v rest h = ap (λ t. some (t, rest)) (omega arith)
load-store (suc k) v rest h =
    rw (load-store k (v / 256) rest (omega (arith, pow-suc)))
      (ap (λ t. some (t, rest)) (omega arith))

pub length-copy_out :
    (junk : ℕ → ℕ) (i : ℕ) (bytes : List ℕ) (n : ℕ) → length (copy_out junk i bytes n) ≡ n
unfolding copy_out
length-copy_out junk i bytes zero = refl
length-copy_out junk i [] (suc n) = ap suc (length-copy_out junk (i + 1) [] n)
length-copy_out junk i (b ∷ bytes) (suc n) = ap suc (length-copy_out junk (i + 1) bytes n)

suc-add-one : (n : ℕ) → suc n + 1 ≡ suc (n + 1)
suc-add-one n = omega arith

-- A copy of a whole array, and of an array and one byte more.
pub copy_out_self :
    (junk : ℕ → ℕ) (i : ℕ) (bytes : List ℕ) → copy_out junk i bytes (length bytes) ≡ bytes
unfolding copy_out
copy_out_self junk i [] = refl
copy_out_self junk i (b ∷ bytes) = ap (λ t. b ∷ t) (copy_out_self junk (i + 1) bytes)

pub copy_out_past :
    (junk : ℕ → ℕ) (i j : ℕ) (bytes : List ℕ)
    → i + length bytes ≡ j
    → copy_out junk i bytes (length bytes + 1) ≡ bytes ++ junk j ∷ []
unfolding copy_out
copy_out_past junk i j [] e = let e' : i ≡ j = omega arith in ap (λ t. junk t ∷ []) e'
copy_out_past junk i j (b ∷ bytes) e =
    rw (suc-add-one (length bytes))
      (ap (λ t. b ∷ t) (copy_out_past junk (i + 1) j bytes (omega arith)))

pub split_at?-append :
    (n : ℕ) (front rest : List ℕ)
    → length front ≡ n
    → split_at? n (front ++ rest) ≡ some (front, rest)
unfolding split_at?
split_at?-append zero [] rest e = refl
split_at?-append zero (b ∷ front) rest e = absurd (omega arith)
split_at?-append (suc n) [] rest e = absurd (omega arith)
split_at?-append (suc n) (b ∷ front) rest e = rw (split_at?-append n front rest (omega arith)) refl
