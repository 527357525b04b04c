-- ===== src/Dispatcher/Lifetimes.antt =====
-- framework/include/dispatcher.hpp, both sides: dispatchers and callbacks as objects that are made and destroyed, and
-- the pointers that they have to one another. A call on an object that is gone, and a read of a pointer that was never
-- set, are faults.
use io_tbased_raid.Prelude.{
  ℕ, Bool, true, false, Option, none, some, List, [], ◌∷◌, ◌==◌, if◌then◌else◌,
}
use io_tbased_raid.Prelude.Results.{Result, ok, fault, ◌>>=◌}
use io_tbased_raid.Dispatcher.{Dispatcher, no_callbacks, register, unregister}

-- `m_dispatcher` of a callback; the constructor leaves it unset.
pub data Pointer : Type 0 where
  unset null : Pointer
  at : ℕ → Pointer

-- The objects that are there.
pub record World : Type 0 where
  pub dispatchers : ℕ → Option Dispatcher
  pub callbacks : ℕ → Option Pointer

abbrev pub nothing : World
nothing = record { dispatchers = λ d. none; callbacks = λ c. none }

abbrev pub put {ℓ} : {A : Type ℓ} → ℕ → A → (ℕ → A) → ℕ → A
put i a f j = if i == j then a else f j

-- The constructors.
unfoldable pub make_dispatcher : ℕ → World → World
make_dispatcher d w = record w { dispatchers = put d (some no_callbacks) w.dispatchers }

unfoldable pub make_callback : ℕ → World → World
make_callback c w = record w { callbacks = put c (some unset) w.callbacks }

-- `SetDispatcher`
unfoldable pub set_dispatcher : ℕ → Pointer → World → Result World
set_dispatcher c p w = elim (w.callbacks c) [
  | none ↦ fault
  | some _ ↦ ok (record w { callbacks = put c (some p) w.callbacks })
]

-- An access of the list of a dispatcher.
unfoldable pub with_list : ℕ → (Dispatcher → Dispatcher) → World → Result World
with_list d f w = elim (w.dispatchers d) [
  | none ↦ fault
  | some old ↦ ok (record w { dispatchers = put d (some (f old)) w.dispatchers })
]

-- `Register`
unfoldable pub register_at : ℕ → ℕ → World → Result World
register_at d c w = set_dispatcher c (at d) w >>= λ w'. with_list d (register c) w'

-- `Unregister`
unfoldable pub unregister_at : ℕ → ℕ → World → Result World
unregister_at d c w = set_dispatcher c null w >>= λ w'. with_list d (unregister c) w'

-- `~ACallback`
unfoldable pub destroy_callback : ℕ → World → Result World
destroy_callback c w = elim (w.callbacks c) [
  | none ↦ fault
  | some unset ↦ fault
  | some null ↦ ok (record w { callbacks = put c none w.callbacks })
  | some (at d) ↦
      unregister_at d c w >>= λ w'. ok (record w' { callbacks = put c none w'.callbacks })
]

-- The loop of `~Dispatcher`; `NotifyDeath` is a call of the callback, as `SetDispatcher` is.
unfoldable pub tell_death : List ℕ → World → Result World
tell_death [] w = ok w
tell_death (c ∷ callbacks) w = set_dispatcher c null w >>= λ w'. tell_death callbacks w'

-- `~Dispatcher`
unfoldable pub destroy_dispatcher : ℕ → World → Result World
destroy_dispatcher d w = elim (w.dispatchers d) [
  | none ↦ fault
  | some old ↦
      tell_death old.reg_list w >>= λ w'. ok (record w' { dispatchers = put d none w'.dispatchers })
]

-- `Notify` of a dispatcher: every callback of the list is called.
abbrev pub all_there : (ℕ → Option Pointer) → List ℕ → Bool
all_there callbacks [] = true
all_there callbacks (c ∷ cs) = elim (callbacks c) [ none ↦ false | some _ ↦ all_there callbacks cs ]

unfoldable pub notify_all : ℕ → World → Result (List ℕ)
notify_all d w = elim (w.dispatchers d) [
  | none ↦ fault
  | some old ↦ if all_there w.callbacks old.reg_list then ok old.reg_list else fault
]
