-- ===== src/Singleton.antt =====
-- framework/include/singleton.hpp and framework/include/handleton.hpp. An object is known by the number of objects that
-- were made before it; threads that call `Singleton::GetInstance` are in a list, each with its place in the function.
pub mod Unique
use io_tbased_raid.Prelude.{
  ℕ, zero, suc, ◌+◌, ◌++◌, Option, none, some, List, [], ◌∷◌, get_elem?, set,
}
use io_tbased_raid.Prelude.Maps.{lookup, insert}

-- Before the first test, before the lock, and behind the function's end with what it returns.
pub data Place : Type 0 where
  testing waiting : Place
  returned : ℕ → Place

-- `m_singleton`, how many objects were made, how often `std::atexit` was told of `DestroyInstance`, the objects that were
-- deleted, and the threads.
pub record Singleton : Type 0 where
  pub instance_of : Option ℕ
  pub made : ℕ
  pub at_exit : ℕ
  pub deleted : List ℕ
  pub threads : List Place

-- What a thread does next: the first test, or the critical section with the second test. The object is stored before
-- the mutex is free, and the last read gives what is stored.
unfoldable pub advance : Place → Singleton → Singleton × Place
advance testing s = elim s.instance_of [ none ↦ (s, waiting) | some object ↦ (s, returned object) ]
advance waiting s = elim s.instance_of [
  | none ↦ (
    record s { instance_of = some s.made; made = s.made + 1; at_exit = s.at_exit + 1 },
    returned s.made,
  )
  | some object ↦ (s, returned object)
]
advance (returned object) s = (s, returned object)

-- A step of thread `i`.
unfoldable pub step : ℕ → Singleton → Singleton
unfolding advance
step i s = elim (get_elem? s.threads i) [
  | none ↦ s
  | some place ↦
      let (s', place') = advance place s in record s' { threads = set s.threads i place' }
]

-- Steps of threads, in that order.
abbrev pub steps : List ℕ → Singleton → Singleton
steps [] s = s
steps (i ∷ order) s = steps order (step i s)

-- `DestroyInstance`; to delete a null pointer is nothing.
unfoldable pub destroy_instance : Singleton → Singleton
destroy_instance s = elim s.instance_of [
  | none ↦ s
  | some object ↦ record s { instance_of = none; deleted = s.deleted ++ (object ∷ []) }
]

-- The program ends, and runs what it was told of.
unfoldable pub exits : ℕ → Singleton → Singleton
unfolding destroy_instance
exits zero s = s
exits (suc n) s = exits n (destroy_instance s)

abbrev pub end_program : Singleton → Singleton
end_program s = exits s.at_exit s

-- `Handleton`: the objects by the number of their type, and how many objects were made.
pub record Handletons : Type 0 where
  pub objects : List (ℕ × ℕ)
  pub made : ℕ

-- `Handleton::GetInstance`: `call_once` and the mutex make it one step.
unfoldable pub get_instance : ℕ → Handletons → Handletons × ℕ
unfolding lookup insert
get_instance type h = elim (lookup type h.objects) [
  | some object ↦ (h, object)
  | none ↦ (record { objects = insert type h.made h.objects; made = h.made + 1 }, h.made)
]

-- Calls for types, in that order.
abbrev pub get_all : List ℕ → Handletons → Handletons
get_all [] h = h
get_all (type ∷ types) h = get_all types (get_instance type h).0
