-- ===== src/Nbd.antt =====
-- concrete/include/NBD.hpp and concrete/src/NBD.cpp: the device's descriptors, its process, and the byte order of the
-- kernel's numbers. What the system calls answer is an argument, `true` being a success, as is `ntohl`.
pub mod Lifetime
use io_tbased_raid.Prelude.{
  ℕ, ◌+◌, ◌*◌, ◌/◌, ◌%◌, ◌^◌, Bool, true, false, Option, none, some, if◌then◌else◌,
}
use io_tbased_raid.Prelude.Results.{Exception, runtime_error}

-- `Ntohll` on a machine with little-endian words. `lo` and `hi` have 32 bits, so that `|` is a sum.
unfoldable pub ntohll : (ℕ → ℕ) → ℕ → ℕ
ntohll ntohl num =
    let lo = num % 2 ^ 32 in
    let hi = num / 2 ^ 32 % 2 ^ 32 in ntohl lo % 2 ^ 32 * 2 ^ 32 + ntohl hi % 2 ^ 32

-- The calls whose answer the code looks at.
pub data Call : Type 0 where
  open_device make_sockets set_size clear_sock fork_child prepare_mask set_signals : Call
  block_signals set_sock do_it clear_que disconnect : Call

-- What of an `NBD` is there: descriptors that are open, a child that was not waited for, and whether
-- `s_nbdDevToDisconnect` has a descriptor.
pub record Nbd : Type 0 where
  pub device : Bool
  pub server_socket : Bool
  pub client_socket : Bool
  pub child : Bool
  pub to_disconnect : Bool

abbrev pub nothing : Nbd
nothing = record {
  device = false;
  server_socket = false;
  client_socket = false;
  child = false;
  to_disconnect = false;
}

-- The destructors of the members, each of which closes its descriptor.
unfoldable pub close_members : Nbd → Nbd
close_members n = record n { device = false; server_socket = false; client_socket = false }

module _ (answers : Call → Bool) where
  -- `SocketsInit`
  unfoldable pub sockets_init : Nbd → Nbd × Option Exception
  sockets_init n =
      if answers make_sockets
      then (let n' = record n { server_socket = true; client_socket = true } in
          if answers set_size
          then (if answers clear_sock then (n', none) else (n', some runtime_error))
          else (n', some runtime_error))
      else (n, some runtime_error)

  -- The signals' part of the constructor.
  unfoldable pub signals_init : Nbd → Nbd × Option Exception
  signals_init n =
      if answers prepare_mask
      then (if answers set_signals then (n, none) else (n, some runtime_error))
      else (n, some runtime_error)

  -- The constructor from the child's start on, in the parent.
  unfoldable pub fork_init : Nbd → Nbd × Option Exception
  unfolding signals_init
  fork_init n =
      if answers fork_child
      then signals_init (record n { child = true; to_disconnect = true })
      else (n, some runtime_error)

  -- An exception in the constructor's body destroys the members, and no more.
  abbrev pub unwind : Nbd × Option Exception → Nbd × Option Exception
  unwind (n, none) = (n, none)
  unwind (n, some e) = (close_members n, some e)

  abbrev pub after_sockets : Nbd × Option Exception → Nbd × Option Exception
  unfolding fork_init
  after_sockets (n, none) = fork_init n
  after_sockets (n, some e) = (n, some e)

  -- The constructor. `FDWrapper` throws where `open` has failed.
  unfoldable pub init : Nbd × Option Exception
  unfolding sockets_init close_members
  init =
      if answers open_device
      then unwind (after_sockets (sockets_init (record nothing { device = true })))
      else (nothing, some runtime_error)

  -- `RunClient` in the child, and the status with which the child exits.
  unfoldable pub run_client : Option Exception
  run_client =
      if answers block_signals
      then (if answers set_sock
          then (if answers do_it
              then (if answers clear_que
                  then (if answers clear_sock then none else some runtime_error)
                  else some runtime_error)
              else some runtime_error)
          else some runtime_error)
      else some runtime_error

  unfoldable pub child_status : ℕ
  unfolding run_client
  child_status = elim run_client [ none ↦ 0 | some e ↦ 1 ]

  -- `DisconnectNBD`, which the signals SIGINT and SIGTERM run as well.
  unfoldable pub disconnect_nbd : Nbd → Nbd
  disconnect_nbd n =
      if n.to_disconnect
      then (if answers disconnect then record n { to_disconnect = false } else n)
      else n

  -- The destructor: the child is waited for, and the members are destroyed.
  unfoldable pub destroy : Nbd → Nbd
  unfolding disconnect_nbd close_members
  destroy n = close_members (record (disconnect_nbd n) { child = false })
