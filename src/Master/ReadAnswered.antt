-- ===== src/Master/ReadAnswered.antt =====
-- A read inside one chunk, from the kernel's request to its reply, through concrete/src/NBDProxy.cpp, Commands.cpp,
-- MinionManager.cpp, MinionProxy.cpp, Ticket.cpp and ResponseManager.cpp.
use io_tbased_raid.Prelude.{
  ℕ, ◌+◌, ◌/◌, ◌%◌, ◌^◌, ◌≤◌, ◌<◌, ◌≡◌, refl, sym, ap, ◌∙◌, subst, Bool, true, Option, none, some,
  List, [], ◌∷◌, ◌++◌, arith, length, set,
}
use io_tbased_raid.Prelude.Maps.{lookup}
use io_tbased_raid.Prelude.Words.{copy_out_self}
use io_tbased_raid.Prelude.Results.{ok}
use io_tbased_raid.Splitter.{StripeSegment, next_segment}
use io_tbased_raid.Message.{AMessage, read_receive, read_receive_type, to_buffer}
use io_tbased_raid.Message.RoundTrip.{seen}
use io_tbased_raid.Packet.{MessageFactory, bufsiz}
use io_tbased_raid.Packet.Delivery.{Makes, take_all}
use io_tbased_raid.Ticket.{Ticket, TaskResult, read, primary, on_mirror_response}
use io_tbased_raid.Ticket.Progress.{opened}
use io_tbased_raid.NbdProxy.{
  NbdAbi, NbdRequest, NbdReply, NbdProxy, reply, payload, read_args, accept, outgoing,
}
use io_tbased_raid.NbdProxy.Replies.{reads, get_task_args-Moves, kept_new}
use io_tbased_raid.ResponseManager.{
  new_task_callback, ticket_done_callback, ResponseManager, on_new_task,
}
use io_tbased_raid.MinionProxy.{MinionProxy}
use io_tbased_raid.MinionManager.{MinionManager}
use io_tbased_raid.MinionManager.Ranges.{IsManaged}
use io_tbased_raid.Commands.{run_read}
use io_tbased_raid.Master.{Master, take_request, run_call, tell_results, wake}
use io_tbased_raid.Master.Answers.{on_new_task-open, announce-wired}
use io_tbased_raid.Master.Replying.{tell_results-open, wake-runs}
use io_tbased_raid.Master.InOneChunk.{HasTask, single_answer, sent_read}

abbrev success : ℕ → List ℕ → TaskResult
success uid bytes = record { uid = uid; result = true; length = length bytes; buffer = some bytes }

module _ (abi : NbdAbi) (factory : MessageFactory) (junk : ℕ → ℕ) (uid : ℕ) (bytes : List ℕ)
    (seg : StripeSegment) (m m' : MinionManager)
    (sent : HasTask read uid (length bytes) seg m m') where
  -- The closure runs on the answer of the primary.
  run_call-answer :
      (minions : List MinionProxy)
      → seg.buffer_offset ≡ 0
      → seg.length ≡ length bytes
      → (q : MinionManager) × (run_call junk
            (some (
              record { ticket = length m.heap; segment_idx = 0; role = primary },
              seen junk (read_receive uid 1 (length bytes) (some bytes)),
            ))
            (record m' { minions = minions })
          ≡ ok (q, (ticket_done_callback, success uid bytes) ∷ []))
        × (q.responses ≡ m'.responses)
  unfolding run_call
  run_call-answer minions at_start len =
      let t : Ticket = opened uid read (length bytes) (seg ∷ []) ticket_done_callback in
      let answer : AMessage = read_receive uid 1 (length bytes) (some bytes) in
      (
        record m' {
          minions = minions;
          heap = set m'.heap (length m.heap) (on_mirror_response junk t 0 primary (some answer)).0;
        },
        ap
              (λ a.
                run_call junk
                  (some (record { ticket = length m.heap; segment_idx = 0; role = primary }, a))
                  (record m' { minions = minions }))
              (ap (λ b. read_receive uid 1 (length bytes) (some b)) (copy_out_self junk 0 bytes))
            ∙ rw
                (
                  run_call,
                  sent.ticket,
                  single_answer junk uid ticket_done_callback seg bytes at_start len,
                )
                refl,
        refl,
      )

  -- The packet of the primary's answer.
  wake-answer :
      (proxy : NbdProxy) {prepared : NbdReply}
      → seg.buffer_offset ≡ 0
      → seg.length ≡ length bytes
      → uid < 2 ^ 64
      → length bytes + 25 < bufsiz
      → Makes factory read_receive_type
      → lookup uid m'.responses.requests ≡ some tt
      → lookup uid proxy.responses ≡ some prepared
      → (datagram : List ℕ) × (s' : Master) × (to_buffer junk
            (read_receive uid 1 (length bytes) (some bytes))
          ≡ ok datagram)
        × (wake abi factory junk seg.primary_minion_index
              (some datagram)
              (record { manager = m'; proxy = proxy })
            ≡ ok s')
        × (s'.proxy.sent ≡ proxy.sent ++ outgoing abi prepared (success uid bytes))
  wake-answer proxy at_start len hu fits makes open_request kept =
      let message : AMessage = read_receive uid 1 (length bytes) (some bytes) in
      let (datagram, p', e, woken) =
        wake-runs abi factory junk message seg.primary_minion_index
          (record { manager = m'; proxy = proxy }) sent.minion
          (record { ticket = length m.heap; segment_idx = 0; role = primary })
          (hu, omega arith, omega (arith, fits)) (omega (arith, fits)) makes sent.found
          sent.noted in
      let (q, run, same) =
        run_call-answer (set m'.minions seg.primary_minion_index p') at_start len in
      let s : Master = record { manager = q; proxy = proxy } in
      (
        datagram,
        tell_results abi ((ticket_done_callback, success uid bytes) ∷ []) s,
        e,
        woken ∙ rw run refl,
        tell_results-open abi (success uid bytes) s
            (ap (λ (r : ResponseManager). lookup uid r.requests) same ∙ open_request) kept,
      )

-- A read of the kernel of bytes that lie in one chunk of the drive, to a master whose callbacks are registered, when no
-- reply is kept under the next uid, with at least two minions and a network that takes every datagram. `GetTaskArgs` takes
-- it, the command for its arguments returns, and then the packet of the primary's answer, a success with as many bytes, is
-- enough: the kernel is sent the reply with an error of 0 under the request's own handle, and these bytes behind it. (The
-- packet fits, and the master knows the class of such answers.)
pub read_answered :
    (abi : NbdAbi) (factory : MessageFactory) (junk : ℕ → ℕ) (takes : List ℕ → Bool)
    (request : NbdRequest) (received : Option (List ℕ)) (s : Master) (bytes : List ℕ)
    (new_ticket : ℕ)
    → ((d : List ℕ) → takes d ≡ true)
    → request.magic ≡ abi.request_magic
    → request.type ≡ abi.cmd_read
    → length bytes ≡ request.len
    → lookup s.proxy.next_uid s.proxy.responses ≡ none
    → s.proxy.dispatcher.reg_list ≡ new_task_callback ∷ []
    → s.manager.dispatcher.reg_list ≡ new_ticket ∷ []
    → IsManaged s.manager
    → 0 < request.len
    → request.from % s.manager.mb_minion + request.len ≤ s.manager.mb_minion
    → request.from + request.len ≤ s.manager.drive_size
    → 2 ≤ length s.manager.minions
    → s.proxy.next_uid < 2 ^ 64
    → length bytes + 25 < bufsiz
    → Makes factory read_receive_type
    → (taken s' : Master) × (called : MinionManager) × (datagram : List ℕ) × (take_request abi
          (some request)
          received
          s
        ≡ ok (taken, some (read_args s.proxy.next_uid request.from request.len)))
      × (run_read junk takes (read_args s.proxy.next_uid request.from request.len) taken.manager
          ≡ ok called)
      × (to_buffer junk (read_receive s.proxy.next_uid 1 (length bytes) (some bytes)) ≡ ok datagram)
      × (wake abi factory junk
            (request.from / s.manager.mb_minion)
            (some datagram)
            (record taken { manager = called })
          ≡ ok s')
      × (s'.proxy.sent
          ≡ s.proxy.sent
            ++ (reply (record { magic = abi.reply_magic; error = 0; handle = request.handle })
                ∷ payload bytes
                ∷ []))
unfolding take_request run_read
read_answered abi factory junk takes request received s bytes new_ticket all_taken magic type same
      fresh wired wired' v pos inside on_drive two hu fits makes =
    let uid : ℕ = s.proxy.next_uid in
    let p1 : NbdProxy = (accept abi request none s.proxy).0 in
    let m1 : MinionManager = record s.manager { responses = on_new_task uid s.manager.responses } in
    let taken : Master = record { manager = m1; proxy = p1 } in
    let v1 : IsManaged m1 = record {
      chunk_pos = v.chunk_pos;
      drive = v.drive;
      drive_fits = v.drive_fits;
    } in
    let (called, e, has) =
      sent_read junk takes all_taken uid request.from request.len new_ticket m1 v1 wired' pos inside
        on_drive two in
    let seg : StripeSegment =
      next_segment m1.mb_minion (length m1.minions) request.len request.from 0 in
    let prepared : NbdReply = record {
      magic = abi.reply_magic;
      error = 0;
      handle = request.handle;
    } in
    let (datagram, s', ed, ew, es) =
      wake-answer abi factory junk uid bytes seg m1 called
        (subst (λ l. HasTask read uid l seg m1 called) (sym same) has) p1 {prepared = prepared} refl
        (omega (arith, inside, same)) hu fits makes
        (ap (λ r. lookup uid r) has.requests ∙ on_new_task-open uid s.manager.responses)
        (kept_new uid prepared s.proxy.responses fresh) in
    (
      taken,
      s',
      called,
      datagram,
      rw
          (
            get_task_args-Moves abi request received none s.proxy magic (reads type),
            announce-wired s.proxy.dispatcher (read_args uid request.from request.len)
                s.manager.responses wired,
          )
          refl,
      rw e refl,
      ed,
      ew,
      es
          ∙ ap (λ b. s.proxy.sent ++ (reply prepared ∷ payload b ∷ []))
              (take_all (length bytes) (omega arith)),
    )
