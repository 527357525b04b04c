-- ===== src/Minion/FileInit.antt =====
-- `FileManager::Init` of concrete/src/FileManager.cpp: the file is made and stretched to its size.
use io_tbased_raid.Prelude.{
  ℕ, ◌+◌, ◌-◌, ◌%◌, ◌^◌, ◌≤◌, ◌<◌, ◌≡◌, refl, ◌∙◌, Bool, true, arith, if◌then◌else◌,
}
use io_tbased_raid.Prelude.Results.{Result, ok, throw, runtime_error}
use io_tbased_raid.Minion.{FileStream}

-- By whether the file could be created and opened; `put` is that of the stream. The offset is that of a `streamoff`, as
-- the 64 bits that it has.
unfoldable pub file_init {ℓ} :
    {S : Type ℓ} → FileStream S → (ℕ → S → S) → Bool → Bool → ℕ → S → Result S
file_init stream put created opened size s =
    if created
    then (if opened
        then ok (
            stream.seekg 0 (stream.flush (put 0 (stream.seekp ((size + (2 ^ 64 - 1)) % 2 ^ 64) s))))
        else throw runtime_error)
    else throw runtime_error

-- What the standard library says of the size of a file: seeking and flushing leave it, and a byte that is put behind the
-- end stretches the file up to it.
pub record IsStretched {ℓ} {S : Type ℓ} (stream : FileStream S) (put : ℕ → S → S) (size_of : S → ℕ)
    : Type ℓ where
  pub seekg_keeps : (n : ℕ) (s : S) → size_of (stream.seekg n s) ≡ size_of s
  pub flush_keeps : (s : S) → size_of (stream.flush s) ≡ size_of s
  pub put_stretches : (b n : ℕ) (s : S) → size_of s ≤ n → size_of (put b (stream.seekp n s)) ≡ n + 1

-- A new file, which is empty, has the size that it was asked for, if that is positive and fits into 64 bits.
pub file_init-size {ℓ} :
    {S : Type ℓ} (stream : FileStream S) (put : ℕ → S → S) (size_of : S → ℕ)
    → IsStretched stream put size_of
    → (size : ℕ) (s : S) → 0 < size
    → size < 2 ^ 64
    → size_of s ≡ 0
    → (q : S) × (file_init stream put true true size s ≡ ok q) × (size_of q ≡ size)
unfolding file_init
file_init-size stream put size_of laws size s pos fits empty =
    let n = (size + (2 ^ 64 - 1)) % 2 ^ 64 in
    (
      stream.seekg 0 (stream.flush (put 0 (stream.seekp n s))),
      refl,
      laws.seekg_keeps 0 (stream.flush (put 0 (stream.seekp n s)))
          ∙ laws.flush_keeps (put 0 (stream.seekp n s))
          ∙ laws.put_stretches 0 n s (omega (arith, empty))
          ∙ omega arith,
    )
