-- ===== src/Master/WriteAnswered.antt =====
-- A write inside one chunk, from the kernel's request to its reply, through concrete/src/NBDProxy.cpp, Commands.cpp,
-- MinionManager.cpp, MinionProxy.cpp, Ticket.cpp and ResponseManager.cpp.
use io_tbased_raid.Prelude.{
  ℕ, ◌+◌, ◌%◌, ◌^◌, ◌≤◌, ◌<◌, ◌≡◌, refl, ap, ◌∙◌, Bool, true, not, ◌&&◌, ◌==◌, none, some, List, [],
  ◌∷◌, ◌++◌, length, if◌then◌else◌,
}
use io_tbased_raid.Prelude.Maps.{lookup}
use io_tbased_raid.Prelude.Results.{ok}
use io_tbased_raid.Splitter.{StripeSegment, next_segment}
use io_tbased_raid.Message.{write_receive, write_receive_type, to_buffer}
use io_tbased_raid.Packet.{MessageFactory}
use io_tbased_raid.Packet.Delivery.{Makes}
use io_tbased_raid.Ticket.{MirrorRole}
use io_tbased_raid.NbdProxy.{
  NbdAbi, NbdRequest, NbdReply, NbdProxy, TaskArgs, reply, write_args, accept,
}
use io_tbased_raid.NbdProxy.Replies.{writes, get_task_args-Moves, kept_new}
use io_tbased_raid.ResponseManager.{new_task_callback, on_new_task}
use io_tbased_raid.MinionManager.{MinionManager}
use io_tbased_raid.MinionManager.Ranges.{IsManaged}
use io_tbased_raid.Commands.{run_write}
use io_tbased_raid.Master.{Master, take_request, wake}
use io_tbased_raid.Master.Answers.{on_new_task-open, announce-wired}
use io_tbased_raid.Master.InOneChunk.{sent_write}
use io_tbased_raid.Master.WriteTicket.{minion_of, other, outgoing-write_result}
use io_tbased_raid.Master.BothAnswers.{wake_both}

-- A write of the kernel to bytes that lie in one chunk of the drive, to a master whose callbacks are registered, when no
-- reply is kept under the next uid, with at least two minions and a network that takes every datagram. `GetTaskArgs` takes
-- it with its data, and the command for its arguments returns. Then the two mirrors answer, in either order: the packet of
-- the first sends the kernel nothing, and the packet of the second sends the one reply under the request's own handle,
-- with an error of 0 if both states are good, and with the error for I/O if one of them is not. (A state is a byte, and the
-- master knows the class of such answers.)
pub write_answered :
    (abi : NbdAbi) (factory : MessageFactory) (junk : ℕ → ℕ) (takes : List ℕ → Bool)
    (request : NbdRequest) (s : Master) (bytes : List ℕ) (new_ticket : ℕ) (role : MirrorRole)
    (x y : ℕ)
    → ((d : List ℕ) → takes d ≡ true)
    → request.magic ≡ abi.request_magic
    → request.type ≡ abi.cmd_write
    → lookup s.proxy.next_uid s.proxy.responses ≡ none
    → s.proxy.dispatcher.reg_list ≡ new_task_callback ∷ []
    → s.manager.dispatcher.reg_list ≡ new_ticket ∷ []
    → IsManaged s.manager
    → 0 < request.len
    → request.from % s.manager.mb_minion + request.len ≤ s.manager.mb_minion
    → request.from + request.len ≤ s.manager.drive_size
    → 2 ≤ length s.manager.minions
    → s.proxy.next_uid < 2 ^ 64
    → Makes factory write_receive_type
    → x < 256
    → y < 256
    → let seg : StripeSegment =
        next_segment s.manager.mb_minion (length s.manager.minions) request.len request.from 0 in
      let args : TaskArgs = write_args s.proxy.next_uid request.from request.len (some bytes) in
      let error : ℕ = if not (x == 0) && not (y == 0) then 0 else abi.eio in
      (taken s1 s2 : Master) × (called : MinionManager) × (first last : List ℕ) × (take_request abi
          (some request)
          (some bytes)
          s
        ≡ ok (taken, some args))
      × (run_write junk takes args taken.manager ≡ ok called)
      × (to_buffer junk (write_receive s.proxy.next_uid x) ≡ ok first)
      × (to_buffer junk (write_receive s.proxy.next_uid y) ≡ ok last)
      × (wake abi factory junk (minion_of role seg) (some first) (record taken { manager = called })
          ≡ ok s1)
      × (s1.proxy.sent ≡ s.proxy.sent)
      × (wake abi factory junk (minion_of (other role) seg) (some last) s1 ≡ ok s2)
      × (s2.proxy.sent
          ≡ s.proxy.sent
            ++ (reply (record { magic = abi.reply_magic; error = error; handle = request.handle })
                ∷ []))
unfolding take_request run_write
write_answered abi factory junk takes request s bytes new_ticket role x y all_taken magic type fresh
      wired wired' v pos inside on_drive two hu makes hx hy =
    let uid : ℕ = s.proxy.next_uid in
    let p1 : NbdProxy = (accept abi request (some bytes) s.proxy).0 in
    let m1 : MinionManager = record s.manager { responses = on_new_task uid s.manager.responses } in
    let v1 : IsManaged m1 = record {
      chunk_pos = v.chunk_pos;
      drive = v.drive;
      drive_fits = v.drive_fits;
    } in
    let (called, e, has) =
      sent_write junk takes all_taken uid request.from request.len new_ticket m1 v1 wired' pos
        inside on_drive two bytes in
    let seg : StripeSegment =
      next_segment m1.mb_minion (length m1.minions) request.len request.from 0 in
    let prepared : NbdReply = record {
      magic = abi.reply_magic;
      error = 0;
      handle = request.handle;
    } in
    let (s1, s2, first, last, e1, e2, woken, same, woken', sent) =
      wake_both abi factory junk uid request.len seg m1 called has hu makes p1 role x y
        {prepared = prepared} hx hy
        (ap (λ r. lookup uid r) has.requests ∙ on_new_task-open uid s.manager.responses)
        (kept_new uid prepared s.proxy.responses fresh) in
    (
      record { manager = m1; proxy = p1 },
      s1,
      s2,
      called,
      first,
      last,
      rw
          (
            get_task_args-Moves abi request (some bytes) (some bytes) s.proxy magic
                (writes type refl),
            announce-wired s.proxy.dispatcher (write_args uid request.from request.len (some bytes))
                s.manager.responses wired,
          )
          refl,
      rw e refl,
      e1,
      e2,
      woken,
      ap (λ (p : NbdProxy). p.sent) same,
      woken',
      sent
          ∙ ap (λ xs. s.proxy.sent ++ xs)
              (outgoing-write_result abi uid request.len x y abi.reply_magic request.handle),
    )
