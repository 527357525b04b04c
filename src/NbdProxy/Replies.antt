-- ===== src/NbdProxy/Replies.antt =====
-- The reply that `GetTaskArgs` of concrete/src/NBDProxy.cpp prepares and `OnNBDResponse` sends.
use io_tbased_raid.Prelude.{
  ℕ, ◌≡◌, ◌≢◌, refl, sym, ap, ◌∙◌, true, false, Option, none, some, List, ◌++◌, ◌==◌, arith,
}
use io_tbased_raid.Prelude.Maps.{lookup, emplace, lookup-emplace, lookup-erase}
use io_tbased_raid.Prelude.Results.{ok}
use io_tbased_raid.Factory
use io_tbased_raid.Factory.{create-register}
use io_tbased_raid.Message.{Buffer}
use io_tbased_raid.Ticket.{TaskResult}
use io_tbased_raid.NbdProxy.{
  NbdAbi, NbdRequest, NbdReply, NbdProxy, ArgsFactory, init, accept, make_args, get_task_args,
  outgoing, on_nbd_response,
}

-- A result for an unknown uid changes nothing.
on_nbd_response-unknown :
    (abi : NbdAbi) (result : TaskResult) (p : NbdProxy)
    → lookup result.uid p.responses ≡ none
    → on_nbd_response abi result p ≡ p
unfolding on_nbd_response
on_nbd_response-unknown abi result p e = rw (e, on_nbd_response)

pub on_nbd_response-known :
    (abi : NbdAbi) (result : TaskResult) (p : NbdProxy) {prepared : NbdReply}
    → lookup result.uid p.responses ≡ some prepared
    → ((on_nbd_response abi result p).sent ≡ p.sent ++ outgoing abi prepared result)
      × (lookup result.uid (on_nbd_response abi result p).responses ≡ none)
unfolding on_nbd_response
on_nbd_response-known abi result p e =
    rw (e, on_nbd_response) (refl, rw lookup-erase (ground arith))

-- A request that moves data, with the data that comes behind it.
pub data Moves (abi : NbdAbi) (request : NbdRequest) (received : Option (List ℕ))
    : Buffer → Type 0 where
  reads : request.type ≡ abi.cmd_read → Moves abi request received none
  writes :
      {bytes : List ℕ}
      → request.type ≡ abi.cmd_write
      → received ≡ some bytes
      → Moves abi request received (some bytes)

not_equal : (a b : ℕ) → a ≢ b → (a == b) ≡ false
not_equal a b h = ground arith

same : (a b : ℕ) → a ≡ b → (a == b) ≡ true
same a b h = ground arith

pub get_task_args-Moves :
    (abi : NbdAbi) (request : NbdRequest) (received : Option (List ℕ)) (bytes : Buffer)
    (p : NbdProxy)
    → request.magic ≡ abi.request_magic
    → Moves abi request received bytes
    → get_task_args abi (some request) received p ≡ ok (accept abi request bytes p)
unfolding get_task_args
get_task_args-Moves abi request received bytes p magic (reads e) =
    rw (same request.magic abi.request_magic magic, same request.type abi.cmd_read e)
get_task_args-Moves abi request received bytes p magic (writes e r) = rw (
  same request.magic abi.request_magic magic,
  not_equal request.type abi.cmd_read (λ e'. abi.read_not_write (sym e' ∙ e)),
  same request.type abi.cmd_write e,
  r,
)

pub kept_new :
    {V : Type 0} (k : ℕ) (v : V) (m : List (ℕ × V))
    → lookup k m ≡ none
    → lookup k (emplace k v m) ≡ some v
kept_new k v m e = rw lookup-emplace (rw (same k k refl, e))

-- A read or a write of the kernel, when no reply is kept under the next uid: its arguments get that
-- uid, and the first result under it sends the reply with the request's own handle (and the
-- result's data behind it, or an error); a second result under it sends nothing.
pub request_answered_once :
    (abi : NbdAbi) (request : NbdRequest) (received : Option (List ℕ)) (bytes : Buffer)
    (p : NbdProxy) (result again : TaskResult)
    → request.magic ≡ abi.request_magic
    → Moves abi request received bytes
    → lookup p.next_uid p.responses ≡ none
    → result.uid ≡ p.next_uid
    → again.uid ≡ p.next_uid
    → (p' : NbdProxy) × (get_task_args abi (some request) received p
        ≡ ok (p', some (make_args p.next_uid request.from request.len bytes)))
      × ((on_nbd_response abi result p').sent
          ≡ p.sent
            ++ outgoing abi
                (record { magic = abi.reply_magic; error = 0; handle = request.handle })
                result)
      × (on_nbd_response abi again (on_nbd_response abi result p') ≡ on_nbd_response abi result p')
request_answered_once abi request received bytes p result again magic moves fresh r r' =
    let p' = (accept abi request bytes p).0 in
    let kept : lookup result.uid p'.responses
        ≡ some (record { magic = abi.reply_magic; error = 0; handle = request.handle }) =
      ap (λ k. lookup k p'.responses) r ∙ (kept_new p.next_uid _ p.responses fresh) in
    let (sent, gone) = on_nbd_response-known abi result p' kept in
    (
      p',
      get_task_args-Moves abi request received bytes p magic moves,
      sent,
      on_nbd_response-unknown abi again (on_nbd_response abi result p')
          (ap (λ k. lookup k (on_nbd_response abi result p').responses) (r' ∙ sym r) ∙ gone),
    )

-- What the factory makes after the constructor, by whether there is data.
abbrev pub mode_of : Buffer → ℕ
mode_of none = 1
mode_of (some bytes) = 0

pub create-init :
    (factory : ArgsFactory) (uid offset len : ℕ) (bytes : Buffer)
    → Factory.create (mode_of bytes) (uid, offset, len, bytes) (init factory)
      ≡ ok (make_args uid offset len bytes)
unfolding init
create-init factory uid offset len none = rw create-register (rw create-register refl)
create-init factory uid offset len (some bytes) = rw create-register refl
