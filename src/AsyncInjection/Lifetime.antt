-- ===== src/AsyncInjection/Lifetime.antt =====
-- How long the injections of framework/src/AsyncInjection.cpp live.
use io_tbased_raid.Prelude.{ℕ, ◌≡◌, Bool, List, [], ◌∷◌, ◌++◌, All}
use io_tbased_raid.AsyncInjection.{AsyncInjection, Store, Outcome, run, run_command}
use io_tbased_raid.Factory.{Factory}

abbrev pub IsExpired : AsyncInjection → Type 0
IsExpired a = a.owners ≡ 0

-- No injection is owned. Each is known by its index, so that none is ever taken out of the list.
abbrev pub AllExpired : Store → Type 0
AllExpired s = All IsExpired s.injections

-- What may happen: a command is run, and the scheduler runs one of its tasks.
pub data Event {ℓ} (A : Type ℓ) : Type ℓ where
  commanded : ℕ → A → Event A
  timed : ℕ → Event A

module _ {ℓ} {A : Type ℓ} (commands : Factory {0, ℓ} (Unit {0}) (A → Outcome))
    (answers : ℕ → Bool) where
  -- The events one after the other, and the functions that were called in them.
  abbrev pub happens : List (Event A) → Store → Store × List ℕ
  happens [] s = (s, [])
  happens (commanded key args ∷ events) s = happens events (run_command commands key args s).0
  happens (timed i ∷ events) s =
      let (s', called) = run answers i s in let (r, more) = happens events s' in (r, called ++ more)
