-- ===== src/Tests/Reads.antt =====
-- Reads and writes that the master sends to the four minions, and what these answer.
use io_tbased_raid.Prelude.{ℕ, ◌≡◌, refl, some, none, List, [], ◌∷◌, arith, get_elem?}
use io_tbased_raid.Prelude.Maps.{lookup}
use io_tbased_raid.Prelude.Results.{ok}
use io_tbased_raid.Prelude.Words.{copy_out}
use io_tbased_raid.Factory
use io_tbased_raid.Packet.{MessageFactory}
use io_tbased_raid.Packet.Delivery.{Makes}
use io_tbased_raid.MinionProxy.{MinionProxy, on_minion_fd_wake_up}
use io_tbased_raid.Message.{
  read_receive_type, write_receive_type, read_receive, write_receive, to_buffer,
}
use io_tbased_raid.MinionManager.{MinionManager, add_read_task_to}
use io_tbased_raid.NbdProxy.{NbdRequest, read_args, write_args, reply, payload}
use io_tbased_raid.Commands.{run_read, run_write}
use io_tbased_raid.Ticket.{primary, backup}
use io_tbased_raid.Master.{Master, take_request, wake}
use io_tbased_raid.Master.CrossedRead.{crossed_read_mixes}
use io_tbased_raid.Master.ReadAnswered.{read_answered}
use io_tbased_raid.Master.WriteAnswered.{write_answered}
use io_tbased_raid.Tests.Packets.{junk, takes, abi, no_requests, read_request}
use io_tbased_raid.Tests.Requests.{manager, manager-IsManaged}
use io_tbased_raid.Tests.Drives.{first_piece, second_piece, split_3}

abbrev reply_factory : MessageFactory
reply_factory = record {
  umap = (2, λ _. read_receive 0 0 0 none) ∷ (3, λ _. write_receive 0 0) ∷ [];
}

reply_factory-Makes : Makes reply_factory read_receive_type
unfolding Factory.create lookup
reply_factory-Makes = (read_receive 0 0 0 none, refl, refl)

-- Minion 1 answers for byte 3, and the master takes that for the bytes 4 and 5.
crossed_read_mixes_example :
    (m' : MinionManager) × (p p' : MinionProxy) × (datagram : List ℕ) × (add_read_task_to junk takes
        8 3 3 manager
      ≡ (m', ok tt))
    × (get_elem? m'.minions 1 ≡ some p)
    × (to_buffer junk (read_receive 8 1 1 (some (5 ∷ []))) ≡ ok datagram)
    × (on_minion_fd_wake_up reply_factory (some datagram) p
        ≡ ok (
          p',
          some (
            record { ticket = 0; segment_idx = 1; role = primary },
            read_receive 8 1 1 (some (5 ∷ [])),
          ),
        ))
unfolding copy_out
crossed_read_mixes_example =
    crossed_read_mixes junk takes 8 3 3 manager first_piece second_piece reply_factory (5 ∷ [])
      (λ d. refl) manager-IsManaged (omega arith) (omega arith) (omega arith) split_3 (omega arith)
      (omega arith) reply_factory-Makes

abbrev idle : Master
idle = record { manager = manager; proxy = no_requests }

none_kept : lookup 7 no_requests.responses ≡ none
unfolding lookup
none_kept = refl

-- The kernel reads the bytes 4 and 5, which are the first ones of minion 1.
read_answered_example :
    (taken s' : Master) × (called : MinionManager) × (datagram : List ℕ) × (take_request abi
        (some read_request)
        none
        idle
      ≡ ok (taken, some (read_args 7 4 2)))
    × (run_read junk takes (read_args 7 4 2) taken.manager ≡ ok called)
    × (to_buffer junk (read_receive 7 1 2 (some (5 ∷ 6 ∷ []))) ≡ ok datagram)
    × (wake abi reply_factory junk 1 (some datagram) (record taken { manager = called }) ≡ ok s')
    × (s'.proxy.sent
        ≡ reply (record { magic = 1732535960; error = 0; handle = 9 ∷ [] })
          ∷ payload (5 ∷ 6 ∷ [])
          ∷ [])
read_answered_example =
    read_answered abi reply_factory junk takes read_request none idle (5 ∷ 6 ∷ []) 0 (λ d. refl)
      refl refl refl none_kept refl refl manager-IsManaged (omega arith) (omega arith) (omega arith)
      (omega arith) (omega arith) (omega arith) reply_factory-Makes

write_factory-Makes : Makes reply_factory write_receive_type
unfolding Factory.create lookup
write_factory-Makes = (write_receive 0 0, refl, refl)

abbrev write_request : NbdRequest
write_request = record { magic = 627086611; type = 1; handle = 9 ∷ []; from = 4; len = 2 }

-- The kernel writes the bytes 4 and 5. Minion 2, the mirror, answers first, and minion 1 fails.
write_answered_example :
    (taken s1 s2 : Master) × (called : MinionManager) × (first last : List ℕ) × (take_request abi
        (some write_request)
        (some (5 ∷ 6 ∷ []))
        idle
      ≡ ok (taken, some (write_args 7 4 2 (some (5 ∷ 6 ∷ [])))))
    × (run_write junk takes (write_args 7 4 2 (some (5 ∷ 6 ∷ []))) taken.manager ≡ ok called)
    × (to_buffer junk (write_receive 7 1) ≡ ok first)
    × (to_buffer junk (write_receive 7 0) ≡ ok last)
    × (wake abi reply_factory junk 2 (some first) (record taken { manager = called }) ≡ ok s1)
    × (s1.proxy.sent ≡ [])
    × (wake abi reply_factory junk 1 (some last) s1 ≡ ok s2)
    × (s2.proxy.sent ≡ reply (record { magic = 1732535960; error = 5; handle = 9 ∷ [] }) ∷ [])
write_answered_example =
    write_answered abi reply_factory junk takes write_request idle (5 ∷ 6 ∷ []) 0 backup 1 0
      (λ d. refl) refl refl none_kept refl refl manager-IsManaged (omega arith) (omega arith)
      (omega arith) (omega arith) (omega arith) write_factory-Makes (omega arith) (omega arith)
