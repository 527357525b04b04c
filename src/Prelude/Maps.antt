-- ===== src/Prelude/Maps.antt =====
-- `std::map` and `std::unordered_map` with numbers for keys, as association lists.
use Prim.Native.Nat.{ℕ}
use mathlib.Core.Path.{◌≡◌, refl}
use mathlib.Core.List.{List, [], ◌∷◌}
use mathlib.Core.Option.{Option, none, some}
use native.Mathlib.Omega.{arith}
use io_tbased_raid.Prelude.Tests.{◌==◌, if◌then◌else◌}

module _ {ℓ} {V : Type ℓ} where
  -- `find`
  unfoldable pub lookup : ℕ → List (ℕ × V) → Option V
  lookup key [] = none
  lookup key ((found, value) ∷ entries) = if found == key then some value else lookup key entries

  -- `m[k] = v`
  unfoldable pub insert : ℕ → V → List (ℕ × V) → List (ℕ × V)
  insert key value [] = (key, value) ∷ []
  insert key value ((found, old) ∷ entries) =
      if found == key then (key, value) ∷ entries else (found, old) ∷ insert key value entries

  -- `m.emplace(k, v)` leaves an entry that is there.
  unfoldable pub emplace : ℕ → V → List (ℕ × V) → List (ℕ × V)
  emplace key value [] = (key, value) ∷ []
  emplace key value ((found, old) ∷ entries) =
      if found == key then (found, old) ∷ entries else (found, old) ∷ emplace key value entries

  -- `m.erase(k)`
  unfoldable pub erase : ℕ → List (ℕ × V) → List (ℕ × V)
  erase key [] = []
  erase key ((found, old) ∷ entries) =
      let rest : List (ℕ × V) = erase key entries in
      if found == key then rest else (found, old) ∷ rest

  pub lookup-insert :
      (key found : ℕ) (value : V) (entries : List (ℕ × V))
      → lookup found (insert key value entries)
        ≡ (if key == found then some value else lookup found entries)
  unfolding lookup insert
  lookup-insert key found value [] = refl
  lookup-insert key found value ((first, old) ∷ entries) =
      ground (arith, lookup-insert key found value entries)

  pub lookup-emplace :
      (key found : ℕ) (value : V) (entries : List (ℕ × V))
      → lookup found (emplace key value entries) ≡ (
          if key == found
          then (elim (lookup key entries) [ none ↦ some value | some old ↦ some old ])
          else lookup found entries)
  unfolding lookup emplace
  lookup-emplace key found value [] = refl
  lookup-emplace key found value ((first, old) ∷ entries) =
      ground (arith, lookup-emplace key found value entries)

  pub lookup-erase :
      (key found : ℕ) (entries : List (ℕ × V))
      → lookup found (erase key entries) ≡ (if key == found then none else lookup found entries)
  unfolding lookup erase
  lookup-erase key found [] = ground arith
  lookup-erase key found ((first, old) ∷ entries) = ground (arith, lookup-erase key found entries)
