-- ===== src/Dispatcher.antt =====
-- framework/include/dispatcher.hpp, the dispatcher's side: the callbacks that are registered, each
-- known by a number, and the notifications that an event makes.
pub mod Lifetimes
pub mod Sound
pub mod Orders
use io_tbased_raid.Prelude.{
  ℕ, ◌≡◌, refl, List, [], ◌∷◌, ◌++◌, ◌==◌, if◌then◌else◌, arith, length, map,
}

pub record Dispatcher : Type 0 where
  pub reg_list : List ℕ

abbrev pub no_callbacks : Dispatcher
no_callbacks = record { reg_list = [] }

-- `m_reg_list.push_back(callback)`
unfoldable pub register : ℕ → Dispatcher → Dispatcher
register callback d = record { reg_list = d.reg_list ++ (callback ∷ []) }

-- `std::list::remove` takes every entry that is equal.
unfoldable pub remove : ℕ → List ℕ → List ℕ
remove callback [] = []
remove callback (c ∷ cs) =
    let rest : List ℕ = remove callback cs in if c == callback then rest else c ∷ rest

unfoldable pub unregister : ℕ → Dispatcher → Dispatcher
unfolding remove
unregister callback d = record { reg_list = remove callback d.reg_list }

-- Every registered callback is called with the event, in the order of registration.
unfoldable pub notify {ℓ} : {E : Type ℓ} → Dispatcher → E → List (ℕ × E)
notify d event = map (λ callback. (callback, event)) d.reg_list

length-map {ℓ κ} :
    {A : Type ℓ} {B : Type κ} (f : A → B) (xs : List A) → length (map f xs) ≡ length xs
length-map f [] = refl
length-map f (x ∷ xs) = omega (arith, length-map f xs)

pub length-notify {ℓ} :
    {E : Type ℓ} (d : Dispatcher) (event : E) → length (notify d event) ≡ length d.reg_list
unfolding notify
length-notify d event = length-map _ d.reg_list
