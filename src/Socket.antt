-- ===== src/Socket.antt =====
-- concrete/include/SocketBase.hpp and the constructors of concrete/src/UdpSocket.cpp and concrete/src/TcpClientSocket.cpp:
-- which descriptors are open, and which socket has to close each. What the system calls answer is an argument.
pub mod Ownership
use io_tbased_raid.Prelude.{
  ℕ, zero, suc, Bool, true, false, Option, none, some, List, [], ◌∷◌, ◌++◌, ◌==◌, if◌then◌else◌,
}
use io_tbased_raid.Prelude.Results.{Exception, runtime_error}

-- The sockets, each by its `m_fd`, `none` being -1; the descriptors that the kernel gave, and those that were closed.
pub record Sockets : Type 0 where
  pub fds : List (Option ℕ)
  pub opened : List ℕ
  pub closed : List ℕ

abbrev pub owned : Option ℕ → List ℕ
owned none = []
owned (some fd) = fd ∷ []

-- The `m_fd` of a socket, and the sockets with another there.
abbrev pub fd_at : ℕ → List (Option ℕ) → Option ℕ
fd_at i [] = none
fd_at zero (fd ∷ fds) = fd
fd_at (suc i) (fd ∷ fds) = fd_at i fds

abbrev pub set_fd : ℕ → Option ℕ → List (Option ℕ) → List (Option ℕ)
set_fd i new [] = []
set_fd zero new (fd ∷ fds) = new ∷ fds
set_fd (suc i) new (fd ∷ fds) = fd ∷ set_fd i new fds

-- `SocketBase(int fd)` for a descriptor that the kernel has just given.
unfoldable pub make : ℕ → Sockets → Sockets
make fd s = record s { fds = s.fds ++ (some fd ∷ []); opened = fd ∷ s.opened }

-- The constructor that moves.
unfoldable pub move_make : ℕ → Sockets → Sockets
move_make i s = record s { fds = set_fd i none s.fds ++ (fd_at i s.fds ∷ []) }

-- `Reset`
unfoldable pub reset : ℕ → Option ℕ → Sockets → Sockets
reset i fd s = record s { fds = set_fd i fd s.fds; closed = owned (fd_at i s.fds) ++ s.closed }

-- The assignment that moves, of socket `j` to socket `i`.
unfoldable pub move_assign : ℕ → ℕ → Sockets → Sockets
unfolding reset
move_assign i j s =
    if i == j
    then s
    else (let s' = reset i (fd_at j s.fds) s in record s' { fds = set_fd j none s'.fds })

-- The destructor.
unfoldable pub destroy : ℕ → Sockets → Sockets
unfolding reset
destroy i s = reset i none s

-- What a constructor of a socket with an address leaves: a descriptor in the socket, an exception, and how many
-- results of `getaddrinfo` were not freed.
pub record Made : Type 0 where
  pub fd : Option ℕ
  pub exception : Option Exception
  pub unfreed : ℕ
  pub closed_again : List ℕ

-- `UDPSocket`, with an address or with none, where it binds.
unfoldable pub make_udp : Bool → Bool → Option ℕ → Bool → Made
make_udp has_address found socket bound =
    if found
    then (elim socket [
      | none ↦ record { fd = none; exception = some runtime_error; unfreed = 1; closed_again = [] }
      | some fd ↦
          if has_address
          then record { fd = some fd; exception = none; unfreed = 0; closed_again = [] }
          else if bound
          then record { fd = some fd; exception = none; unfreed = 0; closed_again = [] }
          else record {
            fd = none;
            exception = some runtime_error;
            unfreed = 1;
            closed_again = fd ∷ [];
          }
    ])
    else record { fd = none; exception = some runtime_error; unfreed = 0; closed_again = [] }

-- `TCPClient` with an address.
unfoldable pub make_tcp : Bool → Option ℕ → Bool → Made
make_tcp found socket connected =
    if found
    then (elim socket [
      | none ↦ record { fd = none; exception = some runtime_error; unfreed = 1; closed_again = [] }
      | some fd ↦
          if connected
          then record { fd = some fd; exception = none; unfreed = 0; closed_again = [] }
          else record {
            fd = none;
            exception = some runtime_error;
            unfreed = 1;
            closed_again = fd ∷ [];
          }
    ])
    else record { fd = none; exception = some runtime_error; unfreed = 0; closed_again = [] }
