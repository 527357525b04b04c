-- ===== src/Master/Answers.antt =====
-- From the kernel's request to its reply, through concrete/src/NBDProxy.cpp and
-- concrete/src/ResponseManager.cpp.
use io_tbased_raid.Prelude.{
  ℕ, ◌≡◌, refl, sym, ap, ◌∙◌, Option, none, some, List, [], ◌∷◌, ◌++◌, arith,
}
use io_tbased_raid.Prelude.Maps.{lookup, lookup-emplace, lookup-erase}
use io_tbased_raid.Prelude.Results.{ok, ok_injective}
use io_tbased_raid.Message.{Buffer}
use io_tbased_raid.Ticket.{TaskResult}
use io_tbased_raid.Dispatcher.{Dispatcher, register, notify}
use io_tbased_raid.NbdProxy.{
  NbdAbi, NbdRequest, NbdProxy, make_args, args_uid, outgoing, on_nbd_response, TaskArgs,
  get_task_args, register_for_new_task_args,
}
use io_tbased_raid.NbdProxy.Replies.{Moves, get_task_args-Moves, request_answered_once}
use io_tbased_raid.ResponseManager.{new_task_callback, ResponseManager, on_new_task, on_ticket_done}
use io_tbased_raid.Master.{Master, init_responses, announce, take_request}

args_uid-make_args :
    (uid offset len : ℕ) (bytes : Buffer) → args_uid (make_args uid offset len bytes) ≡ uid
args_uid-make_args uid offset len none = refl
args_uid-make_args uid offset len (some bytes) = refl

-- An announced task is open.
pub on_new_task-open :
    (uid : ℕ) (m : ResponseManager) → lookup uid (on_new_task uid m).requests ≡ some tt
unfolding on_new_task
on_new_task-open uid m = rw lookup-emplace (ground arith)

pub on_ticket_done-open :
    (abi : NbdAbi) (result : TaskResult) (m : ResponseManager) (p : NbdProxy)
    → lookup result.uid m.requests ≡ some tt
    → ((on_ticket_done abi result m p).1 ≡ on_nbd_response abi result p)
      × (lookup result.uid (on_ticket_done abi result m p).0.requests ≡ none)
unfolding on_ticket_done
on_ticket_done-open abi result m p e = rw (e, on_ticket_done) (refl, rw lookup-erase (ground arith))

on_ticket_done-unknown :
    (abi : NbdAbi) (result : TaskResult) (m : ResponseManager) (p : NbdProxy)
    → lookup result.uid m.requests ≡ none
    → on_ticket_done abi result m p ≡ (m, p)
unfolding on_ticket_done
on_ticket_done-unknown abi result m p e = rw (e, on_ticket_done)

-- After `Init` on objects without callbacks.
pub init_responses-wired :
    (s : Master)
    → s.proxy.dispatcher.reg_list ≡ []
    → (init_responses s).proxy.dispatcher.reg_list ≡ new_task_callback ∷ []
unfolding init_responses register_for_new_task_args register
init_responses-wired s e = ap (λ callbacks. callbacks ++ (new_task_callback ∷ [])) e

-- With one callback the arguments are announced once.
pub announce-wired :
    (d : Dispatcher) (args : TaskArgs) (responses : ResponseManager)
    → d.reg_list ≡ new_task_callback ∷ []
    → announce d (some args) responses ≡ on_new_task (args_uid args) responses
unfolding notify
announce-wired d args responses e = rw e refl

-- The proxy's dispatcher stays.
get_task_args-dispatcher :
    (abi : NbdAbi) (request : NbdRequest) (received : Option (List ℕ)) (bytes : Buffer)
    (p : NbdProxy) {q : NbdProxy × Option TaskArgs}
    → request.magic ≡ abi.request_magic
    → Moves abi request received bytes
    → get_task_args abi (some request) received p ≡ ok q
    → q.0.dispatcher ≡ p.dispatcher
get_task_args-dispatcher abi request received bytes p magic moves e =
    ap (λ (q : NbdProxy × Option TaskArgs). q.0.dispatcher)
      (ok_injective (sym e ∙ get_task_args-Moves abi request received bytes p magic moves))

-- A read or a write of the kernel, when no reply is kept under the next uid, and the one callback of the proxy's dispatcher
-- is that of `ResponseManager`: the master takes it,
-- the first ticket's result under its uid sends the reply with the request's own handle and closes
-- the request, and a second result under it changes nothing.
pub request_result_answered :
    (abi : NbdAbi) (request : NbdRequest) (received : Option (List ℕ)) (bytes : Buffer) (s : Master)
    (result again : TaskResult)
    → request.magic ≡ abi.request_magic
    → Moves abi request received bytes
    → lookup s.proxy.next_uid s.proxy.responses ≡ none
    → s.proxy.dispatcher.reg_list ≡ new_task_callback ∷ []
    → result.uid ≡ s.proxy.next_uid
    → again.uid ≡ s.proxy.next_uid
    → (s' : Master) × (take_request abi (some request) received s
        ≡ ok (s', some (make_args s.proxy.next_uid request.from request.len bytes)))
      × let (responses', proxy') = on_ticket_done abi result s'.manager.responses s'.proxy in
        (proxy'.sent
          ≡ s.proxy.sent
            ++ outgoing abi
                (record { magic = abi.reply_magic; error = 0; handle = request.handle })
                result)
        × (lookup result.uid responses'.requests ≡ none)
        × (on_ticket_done abi again responses' proxy' ≡ (responses', proxy'))
unfolding take_request
request_result_answered abi request received bytes s result again magic moves fresh wired r r' =
    let (p', taken, sent, _) =
      request_answered_once abi request received bytes s.proxy result again magic moves fresh r
        r' in
    let uid : args_uid (make_args s.proxy.next_uid request.from request.len bytes)
        ≡ s.proxy.next_uid =
      args_uid-make_args s.proxy.next_uid request.from request.len bytes in
    let responses : ResponseManager =
      on_new_task (args_uid (make_args s.proxy.next_uid request.from request.len bytes))
        s.manager.responses in
    let kept : p'.dispatcher ≡ s.proxy.dispatcher =
      get_task_args-dispatcher abi request received bytes s.proxy magic moves taken in
    let announced : announce p'.dispatcher
          (some (make_args s.proxy.next_uid request.from request.len bytes)) s.manager.responses
        ≡ responses =
      announce-wired p'.dispatcher (make_args s.proxy.next_uid request.from request.len bytes)
        s.manager.responses (ap (λ (d : Dispatcher). d.reg_list) kept ∙ wired) in
    let (answered, gone) = on_ticket_done-open abi result responses p' (
      ap (λ u. lookup u responses.requests) (r ∙ sym uid)
      ∙ on_new_task-open (args_uid (make_args s.proxy.next_uid request.from request.len bytes))
          s.manager.responses) in
    (
      record { manager = record s.manager { responses = responses }; proxy = p' },
      rw (taken, announced) refl,
      (
        ap (λ (p : NbdProxy). p.sent) answered ∙ sent,
        gone,
        on_ticket_done-unknown abi again _ _ (
            ap (λ u. lookup u (on_ticket_done abi result responses p').0.requests) (r' ∙ sym r)
            ∙ gone),
      ),
    )
