-- ===== src/MinionManager.antt =====
-- concrete/include/MinionManager.hpp and concrete/src/MinionManager.cpp: a request is cut into
-- segments, and each segment goes to its primary and its backup minion. `takes` says which datagrams
-- the kernel takes, `junk` is what memory holds that the code has not set.
pub mod Requests
pub mod Ranges
use io_tbased_raid.Prelude.{
  ℕ, zero, suc, ◌+◌, ◌*◌, ◌%◌, Bool, Option, none, some, List, [], ◌∷◌, ◌++◌, ◌==◌, ltb,
  if◌then◌else◌, length, get_elem?, set, take, drop, map,
}
use io_tbased_raid.Prelude.Words.{copy_out}
use io_tbased_raid.Prelude.Results.{Result, ok, throw, fault, invalid_argument, out_of_range, ◌>>=◌}
use io_tbased_raid.Splitter.{StripeSegment, size_mod, split}
use io_tbased_raid.Message.{
  AMessage, Buffer, read_receive, write_receive, read_receive_type, write_receive_type,
}
use io_tbased_raid.Packet.{MessageFactory}
use io_tbased_raid.Factory
use io_tbased_raid.Ticket.{Ticket, TicketOp, read, write, MirrorRole, primary, backup}
use io_tbased_raid.Ticket
use io_tbased_raid.Dispatcher.{Dispatcher, register, notify}
use io_tbased_raid.ResponseManager.{ResponseManager, on_ticket_create}
use io_tbased_raid.MinionProxy.{MinionProxy, OnDone, add_read_task, add_write_task}

-- The manager's members, with the heap of the tickets that it makes and the `ResponseManager` that
-- its dispatcher tells of them. `watched` are the minions whose sockets the reactor listens to.
pub record MinionManager : Type 0 where
  pub mb_minion : ℕ
  pub drive_size : ℕ
  pub minions : List MinionProxy
  pub watched : List ℕ
  pub dispatcher : Dispatcher
  pub heap : List Ticket
  pub responses : ResponseManager

abbrev indices_from : ℕ → List MinionProxy → List ℕ
indices_from i [] = []
indices_from i (p ∷ ps) = i ∷ indices_from (suc i) ps

-- `Init`, on the manager and on the factory of messages. The objects that the creators make are not
-- initialised; their members are set by `FromBuffer`.
unfoldable pub init :
    ℕ → List MinionProxy → MinionManager → MessageFactory → Result (MinionManager × MessageFactory)
unfolding Factory.register
init mb_minion minions m factory =
    if length minions == 0
    then throw invalid_argument
    else if mb_minion == 0
    then throw invalid_argument
    else ok (
      record m {
        mb_minion = mb_minion;
        drive_size = (length minions * mb_minion) % size_mod;
        minions = m.minions ++ minions;
        watched = m.watched ++ indices_from 0 (m.minions ++ minions);
      },
      Factory.register write_receive_type (λ args. write_receive 0 0)
          (Factory.register read_receive_type (λ args. read_receive 0 0 0 none) factory),
    )

abbrev pub get_drive_size : MinionManager → ℕ
get_drive_size m = m.drive_size

abbrev pub validate_range : MinionManager → ℕ → ℕ → Result (Unit {0})
validate_range m offset length =
    if ltb m.drive_size ((offset + length) % size_mod) then throw out_of_range else ok tt

unfoldable pub register_for_new_tickets : ℕ → MinionManager → MinionManager
unfolding register
register_for_new_tickets callback m = record m { dispatcher = register callback m.dispatcher }

-- A method that changes the manager, and may throw after that.
abbrev pub Outcome : Type 0
Outcome = MinionManager × Result (Unit {0})

-- `m_minions[index]->…`; an index out of range is undefined.
unfoldable pub at_minion :
    ℕ → (MinionProxy → MinionProxy × Result (Unit {0})) → MinionManager → Outcome
at_minion index call m = elim (get_elem? m.minions index) [
  | none ↦ (m, fault)
  | some p ↦ let (p', r) = call p in (record m { minions = set m.minions index p' }, r)
]

-- One call after another, unless the first throws.
abbrev pub and_then : Outcome → (MinionManager → Outcome) → Outcome
and_then (m, ok tt) next = next m
and_then (m, throw e) next = (m, throw e)
and_then (m, fault) next = (m, fault)

-- How a segment's task is sent to a minion.
abbrev pub Sender : Type 0
Sender = StripeSegment → OnDone → MinionProxy → MinionProxy × Result (Unit {0})

-- The loop over the segments, from index `i` on, for the ticket at place `ticket` of the heap.
unfoldable pub send_segments : Sender → ℕ → ℕ → List StripeSegment → MinionManager → Outcome
send_segments send ticket i [] m = (m, ok tt)
send_segments send ticket i (seg ∷ segs) m =
    and_then
      (at_minion seg.primary_minion_index
        (send seg (record { ticket = ticket; segment_idx = i; role = primary })) m)
      λ m'.
        and_then
          (at_minion seg.backup_minion_index
            (send seg (record { ticket = ticket; segment_idx = i; role = backup })) m')
          λ m''. send_segments send ticket (suc i) segs m''

-- The dispatcher tells each callback of the ticket; the only class that registers one here is
-- `ResponseManager`, with `OnTicketCreate`.
abbrev pub tell_new_ticket : List (ℕ × ℕ) → ℕ → ResponseManager → Ticket → ResponseManager × Ticket
tell_new_ticket [] ticket responses t = (responses, t)
tell_new_ticket ((callback, uid) ∷ notices) ticket responses t =
    let (responses', t') = on_ticket_create ticket uid responses t in
    tell_new_ticket notices ticket responses' t'

-- The ticket is made, announced, and put on the heap.
unfoldable pub open_ticket : TicketOp → ℕ → ℕ → List StripeSegment → MinionManager → MinionManager
unfolding notify on_ticket_create Ticket.init
open_ticket op uid length' segs m =
    let (responses', t) =
      tell_new_ticket (notify m.dispatcher uid) (length m.heap) m.responses
        (Ticket.init uid op length' segs) in
    record m { heap = m.heap ++ (t ∷ []); responses = responses' }

-- Both methods, with the sender of their messages.
unfoldable pub add_task : Sender → TicketOp → ℕ → ℕ → ℕ → MinionManager → Outcome
unfolding split open_ticket send_segments at_minion
add_task send op uid offset length' m = elim (validate_range m offset length') [
  | throw e ↦ (m, throw e)
  | fault ↦ (m, fault)
  | ok _ ↦ (elim (split offset length' m.mb_minion (length m.minions)) [
    | none ↦ (m, fault)
    | some segs ↦ send_segments send (length m.heap) 0 segs (open_ticket op uid length' segs m)
  ])
]

unfoldable pub add_read_task_to : (ℕ → ℕ) → (List ℕ → Bool) → ℕ → ℕ → ℕ → MinionManager → Outcome
unfolding add_task add_read_task
add_read_task_to junk takes uid offset length' =
    add_task (λ seg on_done. add_read_task junk takes uid seg.local_offset seg.length on_done) read
      uid offset length'

-- The slice of the buffer that a segment sends: `memcpy` of its bytes into a new array.
abbrev pub slice : (ℕ → ℕ) → List ℕ → StripeSegment → Buffer
slice junk buffer seg = some (copy_out junk 0 (drop seg.buffer_offset buffer) seg.length)

unfoldable pub add_write_task_to :
    (ℕ → ℕ) → (List ℕ → Bool) → ℕ → ℕ → ℕ → List ℕ → MinionManager → Outcome
unfolding add_task add_write_task copy_out
add_write_task_to junk takes uid offset length' buffer =
    add_task
      (λ seg on_done.
        add_write_task junk takes uid seg.local_offset seg.length (slice junk buffer seg) on_done)
      write uid offset length'
