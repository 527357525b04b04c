-- ===== src/Tests/Callbacks.antt =====
-- Runs of the dispatchers and their callbacks.
use io_tbased_raid.Prelude.{◌≡◌, ◌≢◌, refl, inl, ◌==◌, if◌then◌else◌, none, some, [], ◌∷◌}
use io_tbased_raid.Prelude.Results.{ok, fault, ◌>>=◌}
use io_tbased_raid.Dispatcher.{register}
use io_tbased_raid.Dispatcher.Lifetimes.{
  unset, at, World, nothing, make_dispatcher, make_callback, set_dispatcher, with_list,
  unregister_at, register_at, destroy_callback, destroy_dispatcher, notify_all,
}
use io_tbased_raid.Dispatcher.Orders.{
  Reach, start, makes_dispatcher, makes_callback, registers, destroy_callback-safe,
}

-- The dispatcher 1, and the callback 5, before it is registered.
abbrev made : World
made = make_callback 5 (make_dispatcher 1 nothing)

abbrev registered : World
registered = record {
  dispatchers = λ d.
      if 1 == d
      then some (record { reg_list = 5 ∷ [] })
      else if 1 == d
      then some (record { reg_list = [] })
      else none;
  callbacks = λ c. if 5 == c then some (at 1) else if 5 == c then some unset else none;
}

register_made : register_at 1 5 made ≡ ok registered
unfolding register_at set_dispatcher with_list register make_callback make_dispatcher
register_made = refl

made-Reach : Reach made
unfolding make_dispatcher
made-Reach = makes_callback 5 (makes_dispatcher 1 start refl) refl

registered-Reach : Reach registered
unfolding make_callback make_dispatcher
registered-Reach = registers 1 5 made-Reach refl (inl refl) register_made

at-set : at 1 ≢ unset
at-set e = cc

destroy_callback-safe_example :
    ((q : World) × (destroy_callback 5 registered ≡ ok q))
    × ((q : World) × (destroy_dispatcher 1 registered ≡ ok q))
    × (notify_all 1 registered ≡ ok (5 ∷ []))
destroy_callback-safe_example = destroy_callback-safe 5 1 (at 1) registered-Reach refl at-set refl

-- One callback with two dispatchers: when it is gone, the first still has it.
two_dispatchers :
    (register_at 1 5 (make_dispatcher 2 made) >>= λ w.
    register_at 2 5 w >>= λ w. destroy_callback 5 w >>= λ w. notify_all 1 w)
    ≡ fault
unfolding register_at set_dispatcher with_list unregister_at register destroy_callback notify_all
    make_callback make_dispatcher
two_dispatchers = refl

-- A callback that was never registered reads a pointer that was never set when it is destroyed.
never_registered : destroy_callback 5 made ≡ fault
unfolding destroy_callback make_callback make_dispatcher
never_registered = refl
