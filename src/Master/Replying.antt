-- ===== src/Master/Replying.antt =====
-- What a packet of a minion makes the master do: `MinionProxy::OnMinionFDWakeUp` (concrete/src/MinionProxy.cpp), the closure
-- it runs (concrete/src/MinionManager.cpp) and `ResponseManager::OnTicketDone` (concrete/src/ResponseManager.cpp).
use io_tbased_raid.Prelude.{ℕ, ◌≡◌, ◌<◌, refl, ap, ◌∙◌, some, List, [], ◌∷◌, ◌++◌, get_elem?, set}
use io_tbased_raid.Prelude.Maps.{lookup}
use io_tbased_raid.Prelude.Results.{ok, ◌>>=◌}
use io_tbased_raid.Message.{AMessage, get_uid, get_size, get_message_type, to_buffer}
use io_tbased_raid.Message.RoundTrip.{IsSendable, seen}
use io_tbased_raid.Packet.{MessageFactory, bufsiz}
use io_tbased_raid.Packet.Delivery.{Makes}
use io_tbased_raid.Ticket.{Ticket, TaskResult, Notices, on_mirror_response}
use io_tbased_raid.NbdProxy.{NbdAbi, NbdReply, NbdProxy, outgoing}
use io_tbased_raid.NbdProxy.Replies.{on_nbd_response-known}
use io_tbased_raid.ResponseManager.{ticket_done_callback}
use io_tbased_raid.MinionProxy.{MinionProxy, OnDone}
use io_tbased_raid.MinionProxy.Callbacks.{wake_up-reply}
use io_tbased_raid.MinionManager.{MinionManager}
use io_tbased_raid.Master.{Master, run_call, tell_results, after_packet, wake}
use io_tbased_raid.Master.Answers.{on_ticket_done-open}

-- The closure of a ticket that is there.
pub run_call-at :
    (junk : ℕ → ℕ) (c : OnDone) (message : AMessage) (m : MinionManager) {t t' : Ticket}
    {notices : Notices}
    → get_elem? m.heap c.ticket ≡ some t
    → on_mirror_response junk t c.segment_idx c.role (some message) ≡ (t', notices)
    → run_call junk (some (c, message)) m ≡ ok (record m { heap = set m.heap c.ticket t' }, notices)
unfolding run_call
run_call-at junk c message m found answered = rw (run_call, found, answered) refl

-- A result is told, and the kernel is answered.
pub tell_results-open :
    (abi : NbdAbi) (result : TaskResult) (s : Master) {prepared : NbdReply}
    → lookup result.uid s.manager.responses.requests ≡ some tt
    → lookup result.uid s.proxy.responses ≡ some prepared
    → (tell_results abi ((ticket_done_callback, result) ∷ []) s).proxy.sent
      ≡ s.proxy.sent ++ outgoing abi prepared result
unfolding tell_results
tell_results-open abi result s open_request kept =
    ap (λ (p : NbdProxy). p.sent)
      (on_ticket_done-open abi result s.manager.responses s.proxy open_request).0
    ∙ (on_nbd_response-known abi result s.proxy kept).0

-- A packet for a task that is noted runs the closure on the message that the minion sent.
pub wake-runs :
    (abi : NbdAbi) (factory : MessageFactory) (junk : ℕ → ℕ) (message : AMessage) (i : ℕ)
    (s : Master) (p : MinionProxy) (c : OnDone)
    → IsSendable message
    → get_size message < bufsiz
    → Makes factory (get_message_type message)
    → get_elem? s.manager.minions i ≡ some p
    → lookup (get_uid message) p.map ≡ some c
    → (datagram : List ℕ) × (p' : MinionProxy) × (to_buffer junk message ≡ ok datagram)
      × (wake abi factory junk i (some datagram) s ≡ (
          run_call junk
            (some (c, seen junk message))
            (record s.manager { minions = set s.manager.minions i p' })
          >>= λ q. ok (tell_results abi q.1 (record s { manager = q.0 }))))
unfolding wake after_packet
wake-runs abi factory junk message i s p c sendable fits makes found noted =
    let (datagram, p', e, taken, _) =
      wake_up-reply factory junk message p c sendable fits makes noted in
    (datagram, p', e, rw (wake, found, taken, after_packet) refl)
