-- ===== src/MinionProxy.antt =====
-- concrete/include/MinionProxy.hpp and concrete/src/MinionProxy.cpp: the master's end of the channel
-- to one minion. A callback is a closure over a ticket, a segment's index and a role, so it is a
-- record of these three; tickets are known by their places in the master's heap. The mutex makes
-- each critical section one step.
pub mod Callbacks
use io_tbased_raid.Prelude.{ℕ, ◌-◌, Bool, Option, none, some, List, [], ◌∷◌, ◌++◌, if◌then◌else◌}
use io_tbased_raid.Prelude.Maps.{lookup, insert, erase}
use io_tbased_raid.Prelude.Results.{Result, ok, throw, fault, runtime_error, ◌>>=◌}
use io_tbased_raid.Message.{AMessage, Buffer, read_send, write_send, to_buffer, get_uid}
use io_tbased_raid.Packet.{
  MessageFactory, Packet, short_packet, size_mismatch, parsed, bufsiz, receive_from, check_packet,
}
use io_tbased_raid.Ticket.{MirrorRole}

-- The closure that `MinionManager` passes as `onDone`.
pub record OnDone : Type 0 where
  pub ticket : ℕ
  pub segment_idx : ℕ
  pub role : MirrorRole

-- `m_map`, and the datagrams that the socket took, oldest first.
pub record MinionProxy : Type 0 where
  pub map : List (ℕ × OnDone)
  pub sent : List (List ℕ)

abbrev pub no_tasks : MinionProxy
no_tasks = record { map = []; sent = [] }

-- `m_map[uid] = onDone` and `SendTo`, which throws if the kernel does not take the datagram.
unfoldable pub send_task :
    (List ℕ → Bool) → ℕ → OnDone → List ℕ → MinionProxy → MinionProxy × Result (Unit {0})
send_task takes uid on_done datagram p =
    let noted : MinionProxy = record p { map = insert uid on_done p.map } in
    if takes datagram
    then (record noted { sent = p.sent ++ (datagram ∷ []) }, ok tt)
    else (noted, throw runtime_error)

-- The message is written before the lock is taken.
unfoldable pub send_message :
    (ℕ → ℕ)
    → (List ℕ → Bool)
    → ℕ
    → OnDone
    → AMessage
    → MinionProxy
    → MinionProxy × Result (Unit {0})
send_message junk takes uid on_done message p = elim (to_buffer junk message) [
  | ok datagram ↦ send_task takes uid on_done datagram p
  | throw e ↦ (p, throw e)
  | fault ↦ (p, fault)
]

unfoldable pub add_read_task :
    (ℕ → ℕ) → (List ℕ → Bool) → ℕ → ℕ → ℕ → OnDone → MinionProxy → MinionProxy × Result (Unit {0})
add_read_task junk takes uid offset length on_done =
    send_message junk takes uid on_done (read_send uid offset length)

unfoldable pub add_write_task :
    (ℕ → ℕ)
    → (List ℕ → Bool)
    → ℕ
    → ℕ
    → ℕ
    → Buffer
    → OnDone
    → MinionProxy
    → MinionProxy × Result (Unit {0})
add_write_task junk takes uid offset length data' on_done =
    send_message junk takes uid on_done (write_send uid offset length data')

-- The callback that is run, with its message.
abbrev pub Call : Type 0
Call = Option (OnDone × AMessage)

-- The callback of the message's uid is run once and forgotten; an unknown uid is logged.
unfoldable pub take_callback : AMessage → MinionProxy → MinionProxy × Call
take_callback message p = elim (lookup (get_uid message) p.map) [
  | none ↦ (p, none)
  | some on_done ↦ (record p { map = erase (get_uid message) p.map }, some (on_done, message))
]

-- A packet that fails the checks is logged and dropped.
abbrev pub handle_packet : Packet → MinionProxy → MinionProxy × Call
handle_packet short_packet p = (p, none)
handle_packet size_mismatch p = (p, none)
handle_packet (parsed message_type message) p = take_callback message p

unfoldable pub on_minion_fd_wake_up :
    MessageFactory → Option (List ℕ) → MinionProxy → Result (MinionProxy × Call)
on_minion_fd_wake_up factory datagram p =
    receive_from datagram (bufsiz - 1) >>= check_packet factory >>= λ packet.
    ok (handle_packet packet p)
