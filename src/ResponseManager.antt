-- ===== src/ResponseManager.antt =====
-- concrete/include/ResponseManager.hpp, concrete/src/ResponseManager.cpp and concrete/src/Response.cpp:
-- which requests are open, and which tickets serve them. `IResponse` only logs, so a request's entry
-- holds nothing; a ticket is known by its place in the master's heap.
use io_tbased_raid.Prelude.{ℕ, none, some, List}
use io_tbased_raid.Prelude.Maps.{lookup, insert, emplace, erase}
use io_tbased_raid.Ticket.{Ticket, TaskResult, register_to_result_dispatcher}
use io_tbased_raid.NbdProxy.{NbdAbi, NbdProxy, on_nbd_response}

-- `m_requests` and `m_tickets`
pub record ResponseManager : Type 0 where
  pub requests : List (ℕ × Unit {0})
  pub tickets : List (ℕ × ℕ)

-- `OnNewTask`, told of new arguments by the proxy.
unfoldable pub on_new_task : ℕ → ResponseManager → ResponseManager
unfolding emplace
on_new_task uid m = record m { requests = emplace uid tt m.requests }

-- The numbers by which the constructor's callbacks are known: `m_ticketDoneCallback` to the tickets, `m_proxyCallback` to
-- the proxy, and `m_newTicketCallback` to the manager.
abbrev pub ticket_done_callback : ℕ
ticket_done_callback = 0

abbrev pub new_task_callback : ℕ
new_task_callback = 1

abbrev pub new_ticket_callback : ℕ
new_ticket_callback = 2

-- `OnTicketCreate`: the ticket is noted, and will report its result.
unfoldable pub on_ticket_create : ℕ → ℕ → ResponseManager → Ticket → ResponseManager × Ticket
unfolding insert register_to_result_dispatcher
on_ticket_create ticket uid m t = (
  record m { tickets = insert uid ticket m.tickets },
  register_to_result_dispatcher ticket_done_callback t,
)

-- `OnTicketDone`: the entries are dropped and the kernel is answered. An unknown uid is logged.
unfoldable pub on_ticket_done :
    NbdAbi → TaskResult → ResponseManager → NbdProxy → ResponseManager × NbdProxy
unfolding lookup erase on_nbd_response
on_ticket_done abi result m p = elim (lookup result.uid m.requests) [
  | none ↦ (m, p)
  | some tt ↦ (
    record m { tickets = erase result.uid m.tickets; requests = erase result.uid m.requests },
    on_nbd_response abi result p,
  )
]
