-- ===== src/NbdProxy/Wire/RoundTrip.antt =====
-- From the bytes of a kernel's request to those of the reply, through concrete/src/NBDProxy.cpp.
use mathlib.Core.List.{flatten}
use io_tbased_raid.Prelude.{
  ℕ, ◌/◌, ◌%◌, ◌^◌, ◌<◌, ◌≡◌, refl, sym, ap, ◌∙◌, Bool, true, false, none, some, List, [], ◌++◌,
  append-nil, arith, length, length-append, map, take, if◌then◌else◌,
}
use io_tbased_raid.Prelude.Words.{store, split_at?-append}
use io_tbased_raid.Prelude.Maps.{lookup}
use io_tbased_raid.Prelude.Results.{ok}
use io_tbased_raid.Message.{Buffer}
use io_tbased_raid.Ticket.{TaskResult}
use io_tbased_raid.Nbd.Lifetime.{IsNtohl}
use io_tbased_raid.NbdProxy.Replies.{
  Moves, reads, writes, get_task_args-Moves, request_answered_once,
}
use io_tbased_raid.NbdProxy.{
  NbdAbi, NbdRequest, NbdProxy, Outgoing, accept, make_args, outgoing, on_nbd_response,
}
use io_tbased_raid.NbdProxy.Wire.{parse_request, data_behind, get_task_args_from, outgoing_bytes}
use io_tbased_raid.NbdProxy.Wire.Network.{network, store-htonl, load-network, load-network_8}

-- The numbers of the request fit their fields.
pub record IsRequest (r : NbdRequest) : Type 0 where
  pub magic_fits : r.magic < 2 ^ 32
  pub type_fits : r.type < 2 ^ 32
  pub handle_fits : length r.handle ≡ 8
  pub from_fits : r.from < 2 ^ 64
  pub len_fits : r.len < 2 ^ 32

-- A request in the order of the network.
abbrev pub request_bytes : NbdRequest → List ℕ
request_bytes r =
    network r.magic
    ++ (network r.type
        ++ (r.handle
            ++ (network (r.from / 2 ^ 32) ++ (network (r.from % 2 ^ 32) ++ network r.len))))

parse-request_bytes :
    (ntohl : ℕ → ℕ)
    → IsNtohl ntohl
    → (r : NbdRequest) → IsRequest r
    → parse_request ntohl (request_bytes r) ≡ some r
unfolding parse_request
parse-request_bytes ntohl is r v =
    let bytes₄ : List ℕ = network r.len in
    let bytes₃ : List ℕ = network (r.from / 2 ^ 32) ++ (network (r.from % 2 ^ 32) ++ bytes₄) in
    let bytes₂ : List ℕ = r.handle ++ bytes₃ in
    let (magic, e, em) = load-network ntohl is r.magic (network r.type ++ bytes₂) v.magic_fits in
    let (type, e', et) = load-network ntohl is r.type bytes₂ v.type_fits in
    let (from, e'', ef) = load-network_8 ntohl is r.from bytes₄ v.from_fits in
    let (len, e₃, el) = load-network ntohl is r.len [] v.len_fits in
    rw
      (
        parse_request,
        e,
        e',
        split_at?-append 8 r.handle bytes₃ v.handle_fits,
        e'',
        e₃,
        em,
        et,
        ef,
        el,
      )
      refl

-- What comes behind a request: nothing for a read, `len` bytes for a write.
abbrev pub Carries : NbdAbi → NbdRequest → Buffer → Type 0
Carries abi r none = r.type ≡ abi.cmd_read
Carries abi r (some data') = (r.type ≡ abi.cmd_write) × (length data' ≡ r.len)

abbrev pub carried : Buffer → List ℕ
carried none = []
carried (some data') = data'

length-request_bytes : (r : NbdRequest) → IsRequest r → length (request_bytes r) ≡ 28
length-request_bytes r v = omega (
  arith,
  length-append r.handle
      (network (r.from / 2 ^ 32) ++ (network (r.from % 2 ^ 32) ++ network r.len)),
  v.handle_fits,
)

get_task_args_from-bytes :
    (ntohl : ℕ → ℕ)
    → IsNtohl ntohl
    → (abi : NbdAbi) (r : NbdRequest) (data' : Buffer) (more : List ℕ) (p : NbdProxy) → IsRequest r
    → r.magic ≡ abi.request_magic
    → Carries abi r data'
    → get_task_args_from ntohl abi (request_bytes r ++ (carried data' ++ more)) p
      ≡ ok (accept abi r data' p)
unfolding get_task_args_from data_behind
get_task_args_from-bytes ntohl is abi r none more p v magic type =
    rw
      (
        get_task_args_from,
        split_at?-append 28 (request_bytes r) more (length-request_bytes r v),
        parse-request_bytes ntohl is r v,
      )
      (get_task_args-Moves abi r _ none p magic (reads type))
get_task_args_from-bytes ntohl is abi r (some data') more p v magic (type, len) =
    rw
      (
        get_task_args_from,
        split_at?-append 28 (request_bytes r) (data' ++ more) (length-request_bytes r v),
        parse-request_bytes ntohl is r v,
        data_behind,
        split_at?-append r.len data' more len,
      )
      (get_task_args-Moves abi r (some data') (some data') p magic (writes type refl))

-- The answer in the order of the network: magic, error and the request's own handle, and behind a success the data.
abbrev pub answer_bytes : NbdAbi → NbdRequest → TaskResult → List ℕ
answer_bytes abi r result =
    if result.result
    then network abi.reply_magic
      ++ (network 0
          ++ (r.handle
              ++ (elim result.buffer [ none ↦ [] | some bytes ↦ take result.length bytes ])))
    else network abi.reply_magic ++ (network abi.eio ++ r.handle)

outgoing-answer_bytes :
    (htonl : ℕ → ℕ)
    → IsNtohl htonl
    → (abi : NbdAbi) (r : NbdRequest) (result : TaskResult) → abi.reply_magic < 2 ^ 32
    → abi.eio < 2 ^ 32
    → flatten (
        map
          (outgoing_bytes htonl)
          (outgoing abi (record { magic = abi.reply_magic; error = 0; handle = r.handle }) result))
      ≡ answer_bytes abi r result
unfolding outgoing_bytes flatten
outgoing-answer_bytes htonl is abi r result hm he = go result.result result.buffer
  where
    m : store 4 (htonl abi.reply_magic) ≡ network abi.reply_magic
    m = store-htonl htonl is abi.reply_magic hm

    go :
        (success : Bool) (buffer : Buffer)
        → let result' : TaskResult = record result { result = success; buffer = buffer } in
          flatten (
            map (outgoing_bytes htonl) (
              outgoing abi
                (record { magic = abi.reply_magic; error = 0; handle = r.handle })
                result'))
          ≡ answer_bytes abi r result'
    go true none = rw (m, store-htonl htonl is 0 (omega arith)) refl
    go true (some bytes) =
        rw (m, store-htonl htonl is 0 (omega arith))
          (ap (λ t. network abi.reply_magic ++ (network 0 ++ (r.handle ++ t)))
            (append-nil (take result.length bytes)))
    go false buffer =
        rw (m, store-htonl htonl is abi.eio he)
          (ap (λ t. network abi.reply_magic ++ (network abi.eio ++ t)) (append-nil r.handle))

-- A read or a write of the kernel comes as bytes in the order of the network, a write with its data behind it, when no
-- reply is kept under the next uid: `GetTaskArgs` takes exactly its numbers and its data, and the first result under that
-- uid makes `OnNBDResponse` send, in that order too, the reply's magic, an error of 0 with the result's data behind it or
-- the error EIO, and between them the request's own handle; a second result under it sends nothing. `ntohl` and `htonl`
-- reverse four bytes.
pub request_bytes_answered :
    (ntohl htonl : ℕ → ℕ) (abi : NbdAbi) (r : NbdRequest) (data' : Buffer) (more : List ℕ)
    (p : NbdProxy) (result again : TaskResult)
    → IsNtohl ntohl
    → IsNtohl htonl
    → abi.reply_magic < 2 ^ 32
    → abi.eio < 2 ^ 32
    → IsRequest r
    → r.magic ≡ abi.request_magic
    → Carries abi r data'
    → lookup p.next_uid p.responses ≡ none
    → result.uid ≡ p.next_uid
    → again.uid ≡ p.next_uid
    → (p' : NbdProxy) × (out : List Outgoing) × (get_task_args_from ntohl abi
          (request_bytes r ++ (carried data' ++ more))
          p
        ≡ ok (p', some (make_args p.next_uid r.from r.len data')))
      × ((on_nbd_response abi result p').sent ≡ p.sent ++ out)
      × (flatten (map (outgoing_bytes htonl) out) ≡ answer_bytes abi r result)
      × (on_nbd_response abi again (on_nbd_response abi result p') ≡ on_nbd_response abi result p')
request_bytes_answered ntohl htonl abi r data' more p result again is is' hm he v magic carries
      fresh u u' =
    let (p', e, sent, once) =
      request_answered_once abi r data' data' p result again magic (moves data' carries) fresh u
        u' in
    let e' : get_task_args_from ntohl abi (request_bytes r ++ (carried data' ++ more)) p
        ≡ ok (p', some (make_args p.next_uid r.from r.len data')) =
      get_task_args_from-bytes ntohl is abi r data' more p v magic carries
      ∙ sym (get_task_args-Moves abi r data' data' p magic (moves data' carries))
      ∙ e in
    (p', _, e', sent, outgoing-answer_bytes htonl is' abi r result hm he, once)
  where
    moves : (d : Buffer) → Carries abi r d → Moves abi r d d
    moves none type = reads type
    moves (some bytes) (type, _) = writes type refl
