-- ===== src/ThreadPool/Future.antt =====
-- `FutureFunction` of framework/include/tp_task.hpp: a task whose result another thread waits for.
use io_tbased_raid.Prelude.{ℕ, ◌-◌, ◌≡◌, refl, Option, none, some, ◌==◌, if◌then◌else◌}
use io_tbased_raid.Prelude.Results.{Result, ok, fault}

-- The value behind `m_return_value`, once `Run` has stored one, and the count of `m_sem`.
pub record Future {ℓ} (A : Type ℓ) : Type ℓ where
  pub value : Option A
  pub sem : ℕ

module _ {ℓ} {A : Type ℓ} where
  abbrev pub make : Future A
  make = record { value = none; sem = 0 }

  -- `Run` of a function that returns `a`. The semaphore is binary: a release at 1 is undefined behaviour.
  unfoldable pub run : A → Future A → Result (Future A)
  run a f = if f.sem == 0 then ok (record { value = some a; sem = 1 }) else fault

  -- `Get`; `none`: it waits.
  unfoldable pub get : Future A → Option (Option A × Future A)
  get f = if f.sem == 0 then none else some (f.value, record f { sem = f.sem - 1 })

  -- `Get` waits until the task has run, then gives what the function returned, and waits if it is called once more.
  pub get-run :
      (a : A)
      → (get make ≡ none)
        × (run a make ≡ ok (record { value = some a; sem = 1 }))
        × (get (record { value = some a; sem = 1 })
            ≡ some (some a, record { value = some a; sem = 0 }))
        × (get (record { value = some a; sem = 0 }) ≡ none)
  unfolding run get
  get-run a = (refl, refl, refl, refl)
