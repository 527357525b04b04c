-- ===== src/Prelude/Results.antt =====
-- Outcomes of a call: it returns, throws, or runs into undefined behaviour.
use mathlib.Core.Option.{Option, none, some}
use mathlib.Core.Path.{◌≡◌, refl}

-- The classes of `<stdexcept>` that the code throws.
pub data Exception : Type 0 where
  invalid_argument out_of_range runtime_error : Exception

pub data Result {ℓ} (A : Type ℓ) : Type ℓ where
  ok : A → Result A
  throw : Exception → Result A
  -- A null pointer is followed, or memory is read that holds no value.
  fault : Result A

-- A call, and what is done with the value that it returns.
infixl 5 ◌>>=◌
abbrev pub ◌>>=◌ {ℓ κ} : {A : Type ℓ} {B : Type κ} → Result A → (A → Result B) → Result B
fault >>= next = fault
throw e >>= next = throw e
ok value >>= next = next value

-- A value that the code takes for granted.
abbrev pub or_fault {ℓ} : {A : Type ℓ} → Option A → Result A
or_fault none = fault
or_fault (some a) = ok a

pub ok_injective {ℓ} : {A : Type ℓ} {a b : A} → ok a ≡ ok b → a ≡ b
ok_injective e = cc

-- If both calls together return, the first returns, and the second for its value.
pub bind-returned {ℓ κ} :
    {A : Type ℓ} {B : Type κ} {b : B} (call : Result A) (next : A → Result B)
    → (call >>= next) ≡ ok b
    → (value : A) × (call ≡ ok value) × (next value ≡ ok b)
bind-returned fault next e = cc
bind-returned (throw x) next e = cc
bind-returned (ok value) next e = (value, refl, e)
