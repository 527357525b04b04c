-- ===== src/NbdProxy.antt =====
-- concrete/include/NBDProxy.hpp and concrete/src/NBDProxy.cpp with the argument classes
-- concrete/src/ATaskArgs.cpp, NBDReadArgs.cpp, NBDWriteArgs.cpp and concrete/src/UID.cpp: requests of
-- the kernel's block device come in, and replies go out. A field of `nbd_request` is the number that
-- it has after `ntohl` and `Ntohll`, and a field of `nbd_reply` the number before `htonl`.
pub mod Replies
pub mod Wire
use io_tbased_raid.Prelude.{
  ℕ, ◌+◌, ◌%◌, ◌^◌, Bool, true, false, Option, none, some, List, [], ◌∷◌, ◌++◌, ◌==◌, ◌||◌, not,
  take, if◌then◌else◌, ◌≢◌,
}
use io_tbased_raid.Prelude.Maps.{lookup, emplace, erase}
use io_tbased_raid.Prelude.Results.{Result, ok, throw, fault, runtime_error, ◌>>=◌}
use io_tbased_raid.Factory
use io_tbased_raid.Factory.{Factory}
use io_tbased_raid.Dispatcher.{Dispatcher, register}
use io_tbased_raid.Message.{Buffer}
use io_tbased_raid.Ticket.{TaskResult}

-- The constants of linux/nbd.h and errno.h. The labels of one `switch` differ.
pub record NbdAbi : Type 0 where
  pub request_magic : ℕ
  pub reply_magic : ℕ
  pub cmd_read : ℕ
  pub cmd_write : ℕ
  pub cmd_disc : ℕ
  pub cmd_flush : ℕ
  pub cmd_trim : ℕ
  pub eio : ℕ
  pub eio_set : eio ≢ 0
  pub read_not_write : cmd_read ≢ cmd_write
  pub read_not_other : (cmd_read ≢ cmd_disc) × (cmd_read ≢ cmd_flush) × (cmd_read ≢ cmd_trim)
  pub write_not_other : (cmd_write ≢ cmd_disc) × (cmd_write ≢ cmd_flush) × (cmd_write ≢ cmd_trim)

-- `struct nbd_request`
pub record NbdRequest : Type 0 where
  pub magic : ℕ
  pub type : ℕ
  pub handle : List ℕ
  pub from : ℕ
  pub len : ℕ

-- `struct nbd_reply`
pub record NbdReply : Type 0 where
  pub magic : ℕ
  pub error : ℕ
  pub handle : List ℕ

-- `NBDReadArgs` and `NBDWriteArgs`: the uid, and the `TaskArgs`.
pub data TaskArgs : Type 0 where
  read_args : ℕ → ℕ → ℕ → TaskArgs
  write_args : ℕ → ℕ → ℕ → Buffer → TaskArgs

abbrev pub args_uid : TaskArgs → ℕ
args_uid (read_args uid offset length) = uid
args_uid (write_args uid offset length buffer) = uid

-- `GetKey`: the value of `FDMODE`, 0 for a write and 1 for a read.
abbrev pub get_key : TaskArgs → ℕ
get_key (read_args uid offset length) = 1
get_key (write_args uid offset length buffer) = 0

-- `GetBuffer`, of write arguments alone.
abbrev pub get_buffer : TaskArgs → Buffer
get_buffer (read_args uid offset length) = none
get_buffer (write_args uid offset length buffer) = buffer

-- What was given to the kernel's socket.
pub data Outgoing : Type 0 where
  reply : NbdReply → Outgoing
  payload : List ℕ → Outgoing

-- `m_dispatcher`, `m_responses`, the static counter of `UID`, and what was sent, oldest first.
pub record NbdProxy : Type 0 where
  pub dispatcher : Dispatcher
  pub responses : List (ℕ × NbdReply)
  pub next_uid : ℕ
  pub sent : List Outgoing

-- `RegisterForNewTaskArgs`
unfoldable pub register_for_new_task_args : ℕ → NbdProxy → NbdProxy
unfolding register
register_for_new_task_args callback p = record p { dispatcher = register callback p.dispatcher }

-- `UID()`: the counter's value, which then grows and wraps as a `size_t`.
abbrev pub fresh_uid : NbdProxy → ℕ × NbdProxy
fresh_uid p = (p.next_uid, record p { next_uid = (p.next_uid + 1) % 2 ^ 64 })

abbrev pub ArgsFactory : Type 0
ArgsFactory = Factory (ℕ × ℕ × ℕ × Buffer) TaskArgs

-- The constructor's creators, for the keys 1 and 0 of `FDMODE`.
unfoldable pub init : ArgsFactory → ArgsFactory
unfolding Factory.register
init factory =
    Factory.register 0 (λ (uid, offset, length, buffer). write_args uid offset length buffer)
      (Factory.register 1 (λ (uid, offset, length, buffer). read_args uid offset length) factory)

-- The factory keyed by `FDMODE` makes write arguments if there is data.
abbrev pub make_args : ℕ → ℕ → ℕ → Buffer → TaskArgs
make_args uid offset length none = read_args uid offset length
make_args uid offset length (some bytes) = write_args uid offset length (some bytes)

module _ (abi : NbdAbi) where
  open abi use {request_magic, reply_magic, cmd_read, cmd_write, cmd_disc, cmd_flush, cmd_trim, eio}

  -- The reply is prepared under the request's handle, and the registered callbacks are told of the
  -- arguments, which are the result.
  abbrev pub accept : NbdRequest → Buffer → NbdProxy → NbdProxy × Option TaskArgs
  accept request bytes p =
      let (uid, p') = fresh_uid p in
      (
        record p' {
          responses =
              emplace uid (record { magic = reply_magic; error = 0; handle = request.handle })
                p'.responses;
        },
        some (make_args uid request.from request.len bytes),
      )

  -- `GetTaskArgs`. The arguments are what the socket delivers: the request, and for a write its data;
  -- `none` where `Receive` throws. The result `none` is a null pointer: the command is logged.
  unfoldable pub get_task_args :
      Option NbdRequest → Option (List ℕ) → NbdProxy → Result (NbdProxy × Option TaskArgs)
  get_task_args none received p = throw runtime_error
  get_task_args (some request) received p =
      if not (request.magic == request_magic)
      then throw runtime_error
      else if request.type == cmd_read
      then ok (accept request none p)
      else if request.type == cmd_write
      then (elim received [
        | none ↦ throw runtime_error
        | some bytes ↦ ok (accept request (some bytes) p)
      ])
      else if (request.type == cmd_disc)
          || (request.type == cmd_flush)
          || (request.type == cmd_trim)
      then ok (p, none)
      else throw runtime_error

  -- `length` bytes of the data go out behind the reply, if the result is a success that has any.
  -- (The buffer of a result is as long as its length.)
  abbrev pub outgoing : NbdReply → TaskResult → List Outgoing
  outgoing prepared result =
      if result.result
      then reply prepared
        ∷ (elim result.buffer [ none ↦ [] | some bytes ↦ payload (take result.length bytes) ∷ [] ])
      else reply (record prepared { error = eio }) ∷ []

  -- `OnNBDResponse`, with a socket that takes what is sent. An unknown uid is logged.
  unfoldable pub on_nbd_response : TaskResult → NbdProxy → NbdProxy
  unfolding lookup erase
  on_nbd_response result p = elim (lookup result.uid p.responses) [
    | none ↦ p
    | some prepared ↦ record p {
      responses = erase result.uid p.responses;
      sent = p.sent ++ outgoing prepared result;
    }
  ]
