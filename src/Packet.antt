-- ===== src/Packet.antt =====
-- The receiving side of the UDP channel: `UDPSocket::ReceiveFrom` of concrete/src/UdpSocket.cpp, and
-- the checks that `MinionProxy::OnMinionFDWakeUp` and `MasterProxy::GetTaskArgs` make alike before
-- they let the factory make the message's object.
pub mod Delivery
use io_tbased_raid.Prelude.{ℕ, ◌-◌, List, Option, none, some, length, take, ltb, if◌then◌else◌}
use io_tbased_raid.Prelude.Words.{load}
use io_tbased_raid.Prelude.Results.{Result, ok, throw, runtime_error, ◌>>=◌, or_fault}
use io_tbased_raid.Factory
use io_tbased_raid.Factory.{Factory}
use io_tbased_raid.Message.{AMessage, from_buffer}

-- `BUFSIZ` of glibc's stdio.h, the size of both stack buffers.
abbrev pub bufsiz : ℕ
bufsiz = 8192

-- What the socket answers to `recvfrom`: a datagram, or -1. A datagram longer than the buffer loses
-- its end.
unfoldable pub receive_from : Option (List ℕ) → ℕ → Result (List ℕ)
receive_from none size = throw runtime_error
receive_from (some datagram) size = ok (take size datagram)

pub data Packet : Type 0 where
  short_packet size_mismatch : Packet
  -- The message's type, and the object that the packet filled.
  parsed : ℕ → AMessage → Packet

-- The factory of messages has no arguments.
abbrev pub MessageFactory : Type 0
MessageFactory = Factory (Unit {0}) AMessage

-- Read the type, make an object of its class, and fill it from the bytes behind.
unfoldable pub parse_message : MessageFactory → List ℕ → Result Packet
unfolding load from_buffer Factory.create
parse_message factory bytes = do
  (msg_size, runner) ← or_fault (load 4 bytes)
  (message_type, runner) ← or_fault (load 4 runner)
  object ← Factory.create message_type tt factory
  m ← from_buffer object runner
  ok (parsed message_type m)

-- A packet without the two header words, or shorter than the size that it states, is dropped.
unfoldable pub check_packet : MessageFactory → List ℕ → Result Packet
unfolding parse_message
check_packet factory bytes =
    if ltb (length bytes) 8
    then ok short_packet
    else (or_fault (load 4 bytes) >>= λ p.
        if ltb (length bytes) p.0 then ok size_mismatch else parse_message factory bytes)
