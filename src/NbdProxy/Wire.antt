-- ===== src/NbdProxy/Wire.antt =====
-- The bytes of the kernel's requests and of the replies to them, as `GetTaskArgs` and `OnNBDResponse` of
-- concrete/src/NBDProxy.cpp read and write them on a machine with little-endian words. `ntohl` and `htonl` are arguments.
pub mod Network
pub mod RoundTrip
use mathlib.Core.List.{flatten}
use io_tbased_raid.Prelude.{
  ℕ, ◌+◌, ◌*◌, ◌/◌, ◌%◌, ◌^◌, ◌<◌, ◌≡◌, refl, sym, ap, ap₂, ◌∙◌, Bool, true, false, Option, none,
  some, List, [], ◌∷◌, ◌++◌, append-nil, arith, length, length-append, map, take, if◌then◌else◌,
}
use io_tbased_raid.Prelude.Words.{store, load, split_at?, split_at?-append}
use io_tbased_raid.Prelude.Maps.{lookup}
use io_tbased_raid.Prelude.Results.{Result, ok, throw, runtime_error}
use io_tbased_raid.Message.{Buffer}
use io_tbased_raid.Ticket.{TaskResult}
use io_tbased_raid.Nbd.{ntohll}
use io_tbased_raid.Nbd.Lifetime.{little, big, IsNtohl, ntohll-bytes}
use io_tbased_raid.NbdProxy.Replies.{
  Moves, reads, writes, get_task_args-Moves, request_answered_once,
}
use io_tbased_raid.NbdProxy.{
  NbdAbi, NbdRequest, NbdProxy, TaskArgs, Outgoing, reply, payload, accept, make_args,
  get_task_args, outgoing, on_nbd_response,
}

-- The data of a write, behind the request; `none` where there is less of it.
unfoldable pub data_behind : Option NbdRequest → List ℕ → Option (List ℕ)
data_behind none bytes = none
data_behind (some request) bytes = elim (split_at? request.len bytes) [
  | none ↦ none
  | some (front, rest) ↦ some front
]

module _ (ntohl : ℕ → ℕ) where
  -- The 28 bytes of `struct nbd_request`, field by field; `none` where there are fewer.
  unfoldable pub parse_request : List ℕ → Option NbdRequest
  parse_request bytes = elim (load 4 bytes) [
    | none ↦ none
    | some (magic, bytes₁) ↦ (elim (load 4 bytes₁) [
      | none ↦ none
      | some (type, bytes₂) ↦ (elim (split_at? 8 bytes₂) [
        | none ↦ none
        | some (handle, bytes₃) ↦ (elim (load 8 bytes₃) [
          | none ↦ none
          | some (from, bytes₄) ↦ (elim (load 4 bytes₄) [
            | none ↦ none
            | some (len, rest) ↦ some (record {
              magic = ntohl magic;
              type = ntohl type;
              handle = handle;
              from = ntohll ntohl from;
              len = ntohl len;
            })
          ])
        ])
      ])
    ])
  ]

  -- `GetTaskArgs` on what the kernel's socket has.
  unfoldable pub get_task_args_from :
      NbdAbi → List ℕ → NbdProxy → Result (NbdProxy × Option TaskArgs)
  get_task_args_from abi bytes p = elim (split_at? 28 bytes) [
    | none ↦ throw runtime_error
    | some (front, rest) ↦
        get_task_args abi (parse_request front) (data_behind (parse_request front) rest) p
  ]

-- The bytes that `Send` is given: `struct nbd_reply`, whose numbers are those that `htonl` makes, or the data.
unfoldable pub outgoing_bytes : (ℕ → ℕ) → Outgoing → List ℕ
outgoing_bytes htonl (reply r) = store 4 (htonl r.magic) ++ (store 4 (htonl r.error) ++ r.handle)
outgoing_bytes htonl (payload bytes) = bytes
