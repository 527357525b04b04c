-- ===== src/Tests/Packets.antt =====
-- Messages with two bytes of data, a minion's replies, and the kernel's requests.
use io_tbased_raid.Prelude.{
  ℕ, ◌+◌, ◌-◌, ◌≡◌, refl, Bool, true, none, some, List, [], ◌∷◌, ◌++◌, arith, length, take, drop,
}
use io_tbased_raid.Prelude.Maps.{lookup}
use io_tbased_raid.Prelude.Words.{copy_out}
use io_tbased_raid.Prelude.Results.{ok, ◌>>=◌}
use io_tbased_raid.Factory
use io_tbased_raid.Factory.{Factory, create-register}
use io_tbased_raid.Message.{AMessage, read_send, write_send, read_receive, write_receive, to_buffer}
use io_tbased_raid.Message.RoundTrip.{seen}
use io_tbased_raid.Message.Leak.{write_header, write_leaks}
use io_tbased_raid.Packet.{MessageFactory, bufsiz, receive_from, check_packet, parsed}
use io_tbased_raid.Packet.Delivery.{Makes, deliver}
use io_tbased_raid.Ticket.{TaskResult, primary, backup}
use io_tbased_raid.MinionProxy.{MinionProxy, OnDone, on_minion_fd_wake_up}
use io_tbased_raid.MinionProxy.Callbacks.{wake_up-reply}
use io_tbased_raid.NbdProxy.{NbdAbi, NbdRequest, NbdProxy}
use io_tbased_raid.TcpClient.{received, closed, interrupted, receive, receive_pieces}
use io_tbased_raid.Minion.{
  FileStream, ArgsFactory, MinionArgs, Minion, init, read_command, write_command,
}
use io_tbased_raid.Minion
use io_tbased_raid.Minion.Replies.{minion_answers_read, minion_answers_write}

abbrev pub junk : ℕ → ℕ
junk i = 170

abbrev pub takes : List ℕ → Bool
takes datagram = true

abbrev pub factory : MessageFactory
factory = record { umap = (1, λ _. write_send 0 0 0 none) ∷ (3, λ _. write_receive 0 0) ∷ [] }

abbrev write_message : AMessage
write_message = write_send 7 4 2 (some (5 ∷ 6 ∷ []))

factory-Makes_write_send : Makes factory 1
unfolding Factory.create lookup
factory-Makes_write_send = (write_send 0 0 0 none, refl, refl)

factory-Makes_write_receive : Makes factory 3
unfolding Factory.create lookup
factory-Makes_write_receive = (write_receive 0 0, refl, refl)

deliver_example :
    (bytes : List ℕ) × (to_buffer junk write_message ≡ ok bytes)
    × ((receive_from (some bytes) (bufsiz - 1) >>= check_packet factory)
        ≡ ok (parsed 1 (seen junk write_message)))
deliver_example =
    deliver factory junk write_message (omega arith, omega arith, omega arith) (omega arith)
      factory-Makes_write_send

write_leaks_example :
    (to_buffer junk write_message ≡ ok (write_header 7 4 2 ++ 5 ∷ 6 ∷ 170 ∷ []))
    × (length (write_header 7 4 2) ≡ 32)
write_leaks_example = write_leaks junk 7 4 (5 ∷ 6 ∷ [])

abbrev first_done : OnDone
first_done = record { ticket = 0; segment_idx = 0; role = backup }

abbrev second_done : OnDone
second_done = record { ticket = 0; segment_idx = 1; role = primary }

abbrev waiting : MinionProxy
waiting = record { map = (7, first_done) ∷ []; sent = [] }

waiting-noted : lookup 7 waiting.map ≡ some first_done
unfolding lookup
waiting-noted = refl

wake_up-reply_example :
    (bytes : List ℕ) × (p' : MinionProxy) × (to_buffer junk (write_receive 7 1) ≡ ok bytes)
    × (on_minion_fd_wake_up factory (some bytes) waiting
        ≡ ok (p', some (first_done, write_receive 7 1)))
    × (lookup 7 p'.map ≡ none)
wake_up-reply_example =
    wake_up-reply factory junk (write_receive 7 1) waiting first_done (omega arith, omega arith)
      (omega arith) factory-Makes_write_receive waiting-noted

abbrev write_datagram : List ℕ
write_datagram = write_header 7 4 2 ++ 5 ∷ 6 ∷ 170 ∷ []

write_message-datagram : to_buffer junk write_message ≡ ok write_datagram
write_message-datagram = (write_leaks junk 7 4 (5 ∷ 6 ∷ [])).0

-- The numbers of linux/nbd.h and of Linux's errno.h.
abbrev pub abi : NbdAbi
abi = record {
  request_magic = 627086611;
  reply_magic = 1732535960;
  cmd_read = 0;
  cmd_write = 1;
  cmd_disc = 2;
  cmd_flush = 3;
  cmd_trim = 4;
  eio = 5;
  eio_set = λ e. omega arith;
  read_not_write = λ e. omega arith;
  read_not_other = ((λ e. omega arith), (λ e. omega arith), (λ e. omega arith));
  write_not_other = ((λ e. omega arith), (λ e. omega arith), (λ e. omega arith));
}

abbrev pub read_request : NbdRequest
read_request = record { magic = 627086611; type = 0; handle = 9 ∷ []; from = 4; len = 2 }

abbrev pub no_requests : NbdProxy
no_requests = record {
  dispatcher = record { reg_list = 1 ∷ [] };
  responses = [];
  next_uid = 7;
  sent = [];
}

abbrev pub read_result : TaskResult
read_result = record { uid = 7; result = true; length = 2; buffer = some (5 ∷ 6 ∷ []) }

none_kept : lookup 7 no_requests.responses ≡ none
unfolding lookup
none_kept = refl

-- A file that is held in memory: the place of the next access, and the bytes.
abbrev stream : FileStream (ℕ × List ℕ)
stream = record {
  seekg = λ i (place, bytes). (i, bytes);
  read = λ n (place, bytes). ((place + n, bytes), take n (drop place bytes));
  seekp = λ i (place, bytes). (i, bytes);
  write = λ new (place, bytes).
      (place + length new, take place bytes ++ new ++ drop (place + length new) bytes);
  flush = λ s. s;
  good = λ s. true;
}

abbrev minion : Minion (ℕ × List ℕ)
minion = record { file = (0, 1 ∷ 2 ∷ 3 ∷ 4 ∷ 5 ∷ 6 ∷ []); sent = [] }

abbrev pub no_args : ArgsFactory
no_args = Factory.empty

abbrev pub no_messages : MessageFactory
no_messages = Factory.empty

minion_answers_read_example :
    (datagram reply : List ℕ) × (a : MinionArgs) × (to_buffer junk (read_send 7 4 2) ≡ ok datagram)
    × (Minion.get_task_args
          (init no_args no_messages).0
          (init no_args no_messages).1
          (some datagram)
        ≡ ok (some a))
    × (read_command stream junk takes a minion
        ≡ ok (record { file = (6, 1 ∷ 2 ∷ 3 ∷ 4 ∷ 5 ∷ 6 ∷ []); sent = reply ∷ [] }))
    × (to_buffer junk (read_receive 7 1 2 (some (5 ∷ 6 ∷ []))) ≡ ok reply)
    × (Minion.get_key a ≡ 1)
unfolding copy_out
minion_answers_read_example =
    minion_answers_read stream junk takes (λ d. refl) no_args no_messages 7 4 2 minion
      (omega arith, omega arith, omega arith) (omega arith)

minion_answers_write_example :
    (datagram reply : List ℕ) × (a : MinionArgs) × (to_buffer junk
        (write_send 7 1 2 (some (8 ∷ 9 ∷ [])))
      ≡ ok datagram)
    × (Minion.get_task_args
          (init no_args no_messages).0
          (init no_args no_messages).1
          (some datagram)
        ≡ ok (some a))
    × (write_command stream junk takes a minion
        ≡ ok (record { file = (3, 1 ∷ 8 ∷ 9 ∷ 4 ∷ 5 ∷ 6 ∷ []); sent = reply ∷ [] }))
    × (to_buffer junk (write_receive 7 1) ≡ ok reply)
    × (Minion.get_key a ≡ 0)
minion_answers_write_example =
    minion_answers_write stream junk takes (λ d. refl) no_args no_messages 7 1 (8 ∷ 9 ∷ []) minion
      (omega arith, omega arith, omega arith) (omega arith)

receive_pieces_example :
    receive (interrupted ∷ received (5 ∷ []) ∷ received (6 ∷ 7 ∷ []) ∷ closed ∷ []) 3
    ≡ ok (some (5 ∷ 6 ∷ 7 ∷ [], closed ∷ []))
receive_pieces_example =
    receive_pieces ((interrupted ∷ [], 5 ∷ []) ∷ ([], 6 ∷ 7 ∷ []) ∷ []) (closed ∷ [])
      (((refl, tt), omega arith), ((tt, omega arith), tt))
