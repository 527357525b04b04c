-- ===== src/Singleton/Unique.antt =====
-- How many objects framework/include/singleton.hpp and framework/include/handleton.hpp make.
use io_tbased_raid.Prelude.{
  ℕ, zero, suc, ◌≤◌, ◌≡◌, refl, ap, inl, inr, ◌⊎◌, none, some, List, [], ◌∷◌, arith, get_elem?, set,
  All, Option-cases, some_injective, subst, sym, length,
}
use io_tbased_raid.Prelude.Maps.{lookup, lookup-insert}
use io_tbased_raid.Singleton.{
  Place, testing, waiting, returned, Singleton, advance, step, steps, destroy_instance, exits,
  end_program, Handletons, get_instance, get_all,
}

-- The thread has not returned, or it returned the first object that was made.
abbrev pub IsFirst : Place → Type 0
IsFirst testing = Unit
IsFirst waiting = Unit
IsFirst (returned object) = object ≡ 0

-- No object was made, or the first is stored and no other was made; none was deleted.
pub record IsSingle (s : Singleton) : Type 0 where
  pub stored :
      ((s.instance_of ≡ none) × (s.made ≡ 0) × (s.at_exit ≡ 0))
      ⊎ ((s.instance_of ≡ some 0) × (s.made ≡ 1) × (s.at_exit ≡ 1))
  pub kept : s.deleted ≡ []
  pub first : All IsFirst s.threads

All-get_elem? :
    (threads : List Place) (i : ℕ) {p : Place}
    → All IsFirst threads
    → get_elem? threads i ≡ some p
    → IsFirst p
All-get_elem? [] i h e = cc
All-get_elem? (x ∷ threads) zero h e = subst IsFirst (some_injective e) h.0
All-get_elem? (x ∷ threads) (suc i) h e = All-get_elem? threads i h.1 e

All-set :
    (threads : List Place) (i : ℕ) (p : Place)
    → All IsFirst threads
    → IsFirst p
    → All IsFirst (set threads i p)
All-set [] i p h e = tt
All-set (x ∷ threads) zero p h e = (e, h.1)
All-set (x ∷ threads) (suc i) p h e = (h.0, All-set threads i p h.1 e)

advance-IsSingle :
    (p : Place) (s : Singleton)
    → IsSingle s
    → IsFirst p
    → IsSingle (advance p s).0 × IsFirst (advance p s).1 × ((advance p s).0.threads ≡ s.threads)
unfolding advance
advance-IsSingle testing s h f = elim h.stored [
  | inl (e, m, x) ↦
      rw (advance, e) (record { stored = inl (e, m, x); kept = h.kept; first = h.first }, tt, refl)
  | inr (e, m, x) ↦
      rw (advance, e)
        (record { stored = inr (e, m, x); kept = h.kept; first = h.first }, refl, refl)
]
advance-IsSingle waiting s h f = elim h.stored [
  | inl (e, m, x) ↦
      rw (advance, e)
        (
          record {
            stored = inr (ap some m, omega (arith, m), omega (arith, x));
            kept = h.kept;
            first = h.first;
          },
          m,
          refl,
        )
  | inr (e, m, x) ↦
      rw (advance, e)
        (record { stored = inr (e, m, x); kept = h.kept; first = h.first }, refl, refl)
]
advance-IsSingle (returned object) s h f = (h, f, refl)

step-IsSingle : (i : ℕ) (s : Singleton) → IsSingle s → IsSingle (step i s)
unfolding step
step-IsSingle i s h = elim (Option-cases (get_elem? s.threads i)) [
  | inl e ↦ rw (step, e) h
  | inr (p, e) ↦
      let (single, first, same) = advance-IsSingle p s h (All-get_elem? s.threads i h.first e) in
      rw (step, e)
        (record {
          stored = single.stored;
          kept = single.kept;
          first = All-set s.threads i (advance p s).1 h.first first;
        })
]

IsSingle-steps : (order : List ℕ) (s : Singleton) → IsSingle s → IsSingle (steps order s)
IsSingle-steps [] s h = h
IsSingle-steps (i ∷ order) s h = IsSingle-steps order (step i s) (step-IsSingle i s h)

made_once : (s : Singleton) → IsSingle s → s.made ≤ 1
made_once s h = elim h.stored [
  | inl (e, m, x) ↦ omega (arith, m)
  | inr (e, m, x) ↦ omega (arith, m)
]

end_program-deletes :
    (s : Singleton)
    → IsSingle s
    → ((end_program s).instance_of ≡ none) × (length (end_program s).deleted ≡ s.made)
unfolding exits destroy_instance
end_program-deletes s h = elim h.stored [
  | inl (e, m, x) ↦ rw (x, h.kept) (e, sym m)
  | inr (e, m, x) ↦ rw (x, destroy_instance, e, h.kept) (refl, sym m)
]

-- If no object was made at the start, or only the one that is stored, and none was deleted: however many
-- threads call `Singleton::GetInstance`, and in whatever order they take their steps: at most one object
-- is made, every call that has returned has returned that one, and the end of the program deletes as many
-- objects as were made and leaves no pointer to one.
pub steps-IsSingle :
    (order : List ℕ) (s : Singleton)
    → IsSingle s
    → let s' = steps order s in
      (s'.made ≤ 1)
      × All IsFirst s'.threads
      × ((end_program s').instance_of ≡ none)
      × (length (end_program s').deleted ≡ s'.made)
steps-IsSingle order s h =
    let h' = IsSingle-steps order s h in
    let (gone, deleted) = end_program-deletes (steps order s) h' in
    (made_once (steps order s) h', h'.first, gone, deleted)

get_instance-keeps :
    (type other object : ℕ) (h : Handletons)
    → lookup type h.objects ≡ some object
    → lookup type (get_instance other h).0.objects ≡ some object
unfolding get_instance
get_instance-keeps type other object h e = elim (Option-cases (lookup other h.objects)) [
  | inr (there, o) ↦ rw (get_instance, o) e
  | inl o ↦ rw (get_instance, o) (ground (arith, lookup-insert other type h.made h.objects, e, o))
]

get_instance-stores :
    (type : ℕ) (h : Handletons)
    → lookup type (get_instance type h).0.objects ≡ some (get_instance type h).1
unfolding get_instance
get_instance-stores type h = elim (Option-cases (lookup type h.objects)) [
  | inr (there, o) ↦ rw (get_instance, o) o
  | inl o ↦ rw (get_instance, o) (ground (arith, lookup-insert type type h.made h.objects))
]

get_all-keeps :
    (type object : ℕ) (types : List ℕ) (h : Handletons)
    → lookup type h.objects ≡ some object
    → lookup type (get_all types h).objects ≡ some object
get_all-keeps type object [] h e = e
get_all-keeps type object (t ∷ types) h e =
    get_all-keeps type object types (get_instance t h).0 (get_instance-keeps type t object h e)

get_instance-found :
    (type : ℕ) (h : Handletons) {object : ℕ}
    → lookup type h.objects ≡ some object
    → (get_instance type h).1 ≡ object
unfolding get_instance
get_instance-found type h e = rw (get_instance, e) refl

-- Two calls of `Handleton::GetInstance` for one type give one object, whatever calls come between them.
pub get_instance-same :
    (type : ℕ) (types : List ℕ) (h : Handletons)
    → (get_instance type (get_all types (get_instance type h).0)).1 ≡ (get_instance type h).1
get_instance-same type types h = get_instance-found type (get_all types (get_instance type h).0) (
    get_all-keeps type (get_instance type h).1 types (get_instance type h).0
      (get_instance-stores type h))
