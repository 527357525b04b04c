-- ===== src/Dispatcher/Orders.antt =====
-- Orders of the calls of framework/include/dispatcher.hpp.
use io_tbased_raid.Prelude.{ℕ, ◌≡◌, ◌≢◌, sym, subst, ◌∙◌, false, none, some, arith, ◌==◌}
use io_tbased_raid.Prelude.Results.{ok, ok_injective}
use io_tbased_raid.Dispatcher.{Dispatcher}
use io_tbased_raid.Dispatcher.Lifetimes.{
  Pointer, unset, World, nothing, make_dispatcher, make_callback, register_at, destroy_callback,
  destroy_dispatcher, notify_all,
}
use io_tbased_raid.Dispatcher.Sound.{
  IsSound, IsFree, notify_all-ok, register_at-IsSound, destroy_callback-IsSound,
  destroy_dispatcher-IsSound,
}

make_dispatcher-IsSound :
    (d : ℕ) (w : World) → IsSound w → w.dispatchers d ≡ none → IsSound (make_dispatcher d w)
unfolding make_dispatcher
make_dispatcher-IsSound d w h e = record {
  back = λ d' c' list' e' m. ground (arith, h.back d' c' list');
  there = λ d' c' e'.
      let (old, o, m) = h.there d' c' e' in
      let away : (d == d') ≡ false = ground (arith, e, o) in (old, rw away o, m);
}

make_callback-IsSound :
    (c : ℕ) (w : World) → IsSound w → w.callbacks c ≡ none → IsSound (make_callback c w)
unfolding make_callback
make_callback-IsSound c w h e = record {
  back = λ d' c' list' e' m. ground (arith, h.back d' c' list' e' m, e);
  there = λ d' c' e'. h.there d' c' (ground (arith, e'));
}

-- The worlds that come about when no callback is registered with two dispatchers, and none is destroyed that was never
-- registered. The names of the objects are new when they are made.
pub data Reach : World → Type 0 where
  start : Reach nothing
  makes_dispatcher :
      {w : World} (d : ℕ) → Reach w → w.dispatchers d ≡ none → Reach (make_dispatcher d w)
  makes_callback : {w : World} (c : ℕ) → Reach w → w.callbacks c ≡ none → Reach (make_callback c w)
  registers :
      {w q : World} {list : Dispatcher} (d c : ℕ)
      → Reach w
      → w.dispatchers d ≡ some list
      → IsFree (w.callbacks c)
      → register_at d c w ≡ ok q
      → Reach q
  destroys_callback :
      {w q : World} (c : ℕ) (p : Pointer)
      → Reach w
      → w.callbacks c ≡ some p
      → p ≢ unset
      → destroy_callback c w ≡ ok q
      → Reach q
  destroys_dispatcher :
      {w q : World} {list : Dispatcher} (d : ℕ)
      → Reach w
      → w.dispatchers d ≡ some list
      → destroy_dispatcher d w ≡ ok q
      → Reach q

reachable-IsSound : {w : World} → Reach w → IsSound w
reachable-IsSound start = record { back = λ d c list e m. cc; there = λ d c e. cc }
reachable-IsSound (makes_dispatcher {w} d r e) = make_dispatcher-IsSound d w (reachable-IsSound r) e
reachable-IsSound (makes_callback {w} c r e) = make_callback-IsSound c w (reachable-IsSound r) e
reachable-IsSound (registers {w} d c r e free ran) =
    let (q, e', h) = register_at-IsSound d c w (reachable-IsSound r) e free in
    subst IsSound (ok_injective (sym e' ∙ ran)) h
reachable-IsSound (destroys_callback {w} c p r e set ran) =
    let (q, e', h) = destroy_callback-IsSound c p w (reachable-IsSound r) e set in
    subst IsSound (ok_injective (sym e' ∙ ran)) h
reachable-IsSound (destroys_dispatcher {w} d r e ran) =
    let (q, e', h) = destroy_dispatcher-IsSound d w (reachable-IsSound r) e in
    subst IsSound (ok_injective (sym e' ∙ ran)) h

-- Where no callback is registered with a second dispatcher while it has one, and none is destroyed that was never
-- registered: in whatever order dispatchers and callbacks are made, registered and destroyed, no pointer is followed to
-- an object that is gone, neither by a destructor of a callback or a dispatcher nor by a notification.
pub destroy_callback-safe :
    {w : World} (c d : ℕ) (p : Pointer) {list : Dispatcher}
    → Reach w
    → w.callbacks c ≡ some p
    → p ≢ unset
    → w.dispatchers d ≡ some list
    → ((q : World) × (destroy_callback c w ≡ ok q))
      × ((q : World) × (destroy_dispatcher d w ≡ ok q))
      × (notify_all d w ≡ ok list.reg_list)
destroy_callback-safe {w} c d p r there set e =
    let h = reachable-IsSound r in
    let (q, eq, _) = destroy_callback-IsSound c p w h there set in
    let (q', eq', _) = destroy_dispatcher-IsSound d w h e in
    ((q, eq), (q', eq'), notify_all-ok d w h e)
