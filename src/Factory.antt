-- ===== src/Factory.antt =====
-- framework/include/factory.hpp: objects made by key. The code's map from keys to creators is an
-- association list, and a creator is a function of the factory's arguments.
use io_tbased_raid.Prelude.{ℕ, ◌≡◌, none, some, List, [], ◌==◌, if◌then◌else◌, arith}
use io_tbased_raid.Prelude.Maps.{lookup, insert, lookup-insert}
use io_tbased_raid.Prelude.Results.{Result, ok, throw, out_of_range}

pub record Factory {ℓ κ} (A : Type ℓ) (B : Type κ) : Type (ℓ ⊔ κ) where
  pub umap : List (ℕ × (A → B))

module _ {ℓ κ} {A : Type ℓ} {B : Type κ} where
  abbrev pub empty : Factory A B
  empty = record { umap = [] }

  unfoldable pub register : ℕ → (A → B) → Factory A B → Factory A B
  register key creator f = record { umap = insert key creator f.umap }

  unfoldable pub create : ℕ → A → Factory A B → Result B
  create key args f = elim (lookup key f.umap) [
    | none ↦ throw out_of_range
    | some creator ↦ ok (creator args)
  ]

  -- After a registration `Create` with that key runs the new creator, and with any other key does
  -- what it did before.
  pub create-register :
      (key key' : ℕ) (creator : A → B) (args : A) (f : Factory A B)
      → create key' args (register key creator f)
        ≡ (if key == key' then ok (creator args) else create key' args f)
  unfolding create register
  create-register key key' creator args f = ground (arith, lookup-insert key key' creator f.umap)
