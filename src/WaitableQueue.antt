-- ===== src/WaitableQueue.antt =====
-- framework/include/waitable_queue.hpp: a queue and a priority queue that wait for an element. The
-- mutex makes each call one step; a call that waits is no step, `none`. `std::priority_queue` gives
-- an element that no other exceeds; of several such, the model takes the one that came first.
pub mod Greatest
use io_tbased_raid.Prelude.{
  ℕ, Bool, true, false, Option, none, some, List, [], ◌∷◌, ◌++◌, if◌then◌else◌,
}

module _ {ℓ} {T : Type ℓ} where
  -- `Enqueue`: the element is pushed, and one waiting thread is woken.
  abbrev pub enqueue : T → List T → List T
  enqueue value queue = queue ++ (value ∷ [])

  abbrev pub is_empty : List T → Bool
  is_empty [] = true
  is_empty (x ∷ queue) = false

  -- `WaitableQueue::Pop`
  unfoldable pub pop : List T → Option (T × List T)
  pop [] = none
  pop (x ∷ queue) = some (x, queue)

  -- `WaitableQueue::Pop` with a timeout, when the wait is over: the element, if `true` is returned.
  unfoldable pub pop_timeout : List T → Bool × Option T × List T
  pop_timeout [] = (false, none, [])
  pop_timeout (x ∷ queue) = (true, some x, queue)

  module _ (less : T → T → Bool) where
    -- The greatest of `x` and the others, and what is left without it.
    unfoldable pub select : T → List T → T × List T
    select x [] = (x, [])
    select x (y ∷ queue) =
        let (greatest, rest) = select (if less x y then y else x) queue in
        (greatest, (if less x y then x else y) ∷ rest)

    -- `WaitablePQ::Pop`
    unfoldable pub pop_greatest : List T → Option (T × List T)
    unfolding select
    pop_greatest [] = none
    pop_greatest (x ∷ queue) = some (select x queue)

    -- `WaitablePQ::Pop` with a timeout.
    unfoldable pub pop_greatest_timeout : List T → Bool × Option T × List T
    unfolding select
    pop_greatest_timeout [] = (false, none, [])
    pop_greatest_timeout (x ∷ queue) =
        let (greatest, rest) = select x queue in (true, some greatest, rest)
