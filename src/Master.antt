-- ===== src/Master.antt =====
-- The master as one machine: a packet arrives at a minion's socket, the reactor calls
-- `MinionProxy::OnMinionFDWakeUp` (the lambda of `MinionManager::Init`, concrete/src/MinionManager.cpp),
-- that runs the closure over the ticket, and a ticket that is complete calls
-- `ResponseManager::OnTicketDone`.
pub mod OpenTicket
pub mod Pieces
pub mod Crossing
pub mod LostWrite
pub mod CrossedRead
pub mod Answers
pub mod InOneChunk
pub mod Replying
pub mod ReadAnswered
pub mod WriteTicket
pub mod BothAnswers
pub mod WriteAnswered
use io_tbased_raid.Prelude.{ℕ, Bool, Option, none, some, List, [], ◌∷◌, get_elem?, set}
use io_tbased_raid.Prelude.Results.{Result, ok, fault, ◌>>=◌}
use io_tbased_raid.Packet.{MessageFactory}
use io_tbased_raid.Ticket.{Ticket, Notices, on_mirror_response}
use io_tbased_raid.Dispatcher.{Dispatcher, notify}
use io_tbased_raid.NbdProxy.{
  NbdRequest, TaskArgs, args_uid, get_task_args, NbdAbi, NbdProxy, register_for_new_task_args,
}
use io_tbased_raid.ResponseManager.{
  new_task_callback, new_ticket_callback, on_new_task, ResponseManager, on_ticket_done,
}
use io_tbased_raid.MinionProxy.{MinionProxy, Call, on_minion_fd_wake_up}
use io_tbased_raid.MinionManager.{MinionManager, register_for_new_tickets}

pub record Master : Type 0 where
  pub manager : MinionManager
  pub proxy : NbdProxy

-- The closure: `ticket->OnMirrorResponse(segIdx, role, msg)`.
unfoldable pub run_call : (ℕ → ℕ) → Call → MinionManager → Result (MinionManager × Notices)
run_call junk none m = ok (m, [])
run_call junk (some (c, message)) m = elim (get_elem? m.heap c.ticket) [
  | none ↦ fault
  | some t ↦
      let (t', notices) = on_mirror_response junk t c.segment_idx c.role (some message) in
      ok (record m { heap = set m.heap c.ticket t' }, notices)
]

-- The callbacks of a ticket are all `ResponseManager::OnTicketDone`.
unfoldable pub tell_results : NbdAbi → Notices → Master → Master
tell_results abi [] s = s
tell_results abi ((callback, result) ∷ notices) s =
    let (responses', proxy') = on_ticket_done abi result s.manager.responses s.proxy in
    tell_results abi notices
      (record { manager = record s.manager { responses = responses' }; proxy = proxy' })

-- The rest of the handler, once minion `i` has taken its callback: the callback runs.
unfoldable pub after_packet : NbdAbi → (ℕ → ℕ) → ℕ → Master → MinionProxy × Call → Result Master
after_packet abi junk i s (p', call) =
    run_call junk call (record s.manager { minions = set s.manager.minions i p' }) >>= λ q.
    ok (tell_results abi q.1 (record s { manager = q.0 }))

-- Minion `i`'s socket is readable; an index that no minion has is not watched.
unfoldable pub wake :
    NbdAbi → MessageFactory → (ℕ → ℕ) → ℕ → Option (List ℕ) → Master → Result Master
wake abi factory junk i datagram s = elim (get_elem? s.manager.minions i) [
  | none ↦ ok s
  | some p ↦ on_minion_fd_wake_up factory datagram p >>= after_packet abi junk i s
]

-- Packets arrive one after the other, at any minions. What is thrown ends the program.
unfoldable pub wakes :
    NbdAbi → MessageFactory → (ℕ → ℕ) → List (ℕ × Option (List ℕ)) → Master → Result Master
wakes abi factory junk [] s = ok s
wakes abi factory junk ((i, datagram) ∷ rest) s =
    wake abi factory junk i datagram s >>= wakes abi factory junk rest

-- `ResponseManager::Init`: both dispatchers get a callback of it.
unfoldable pub init_responses : Master → Master
unfolding register_for_new_task_args register_for_new_tickets
init_responses s = record {
  manager = register_for_new_tickets new_ticket_callback s.manager;
  proxy = register_for_new_task_args new_task_callback s.proxy;
}

-- The proxy's dispatcher tells each callback of new arguments; the only class that registers one is `ResponseManager`,
-- with `OnNewTask`.
abbrev pub tell_new_task : List (ℕ × ℕ) → ResponseManager → ResponseManager
tell_new_task [] responses = responses
tell_new_task ((callback, uid) ∷ notices) responses =
    tell_new_task notices (on_new_task uid responses)

abbrev pub announce : Dispatcher → Option TaskArgs → ResponseManager → ResponseManager
announce dispatcher none responses = responses
announce dispatcher (some args) responses =
    tell_new_task (notify dispatcher (args_uid args)) responses

-- A request of the kernel: `NBDProxy::GetTaskArgs`, with the callbacks that its dispatcher calls.
unfoldable pub take_request :
    NbdAbi → Option NbdRequest → Option (List ℕ) → Master → Result (Master × Option TaskArgs)
take_request abi request received s = get_task_args abi request received s.proxy >>= λ q. ok (
  record {
    manager = record s.manager { responses = announce q.0.dispatcher q.1 s.manager.responses };
    proxy = q.0;
  },
  q.1,
)
