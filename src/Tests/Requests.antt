-- ===== src/Tests/Requests.antt =====
-- A master with four minions and chunks of four bytes.
use io_tbased_raid.Prelude.{ℕ, ◌-◌, ◌≡◌, refl, some, List, [], ◌∷◌, ◌++◌, arith, length}
use io_tbased_raid.Prelude.Results.{Result, ok, fault}
use io_tbased_raid.Splitter.{StripeSegment, size_mod, split}
use io_tbased_raid.Ticket.{Ticket, read}
use io_tbased_raid.MinionProxy.{no_tasks, add_read_task}
use io_tbased_raid.MinionManager.{MinionManager, add_task, add_read_task_to, add_write_task_to}
use io_tbased_raid.MinionManager.Requests.{sent_to, packets}
use io_tbased_raid.MinionManager.Ranges.{
  IsManaged, read_packet, write_packet, add_read_task_to-sends, add_write_task_to-sends,
  add_task-wraps,
}
use io_tbased_raid.Master.{Master}
use io_tbased_raid.Tests.Packets.{junk, takes, no_requests}

abbrev pub manager : MinionManager
manager = record {
  mb_minion = 4;
  drive_size = 16;
  minions = no_tasks ∷ no_tasks ∷ no_tasks ∷ no_tasks ∷ [];
  watched = 0 ∷ 1 ∷ 2 ∷ 3 ∷ [];
  dispatcher = record { reg_list = 0 ∷ [] };
  heap = [];
  responses = record { requests = (7, tt) ∷ []; tickets = [] };
}

pub manager-IsManaged : IsManaged manager
manager-IsManaged = record { chunk_pos = omega arith; drive = refl; drive_fits = omega arith }

abbrev data_bytes : List ℕ
data_bytes = 1 ∷ 2 ∷ 3 ∷ 4 ∷ 5 ∷ 6 ∷ []

add_read_task_to-sends_example :
    (segs : List StripeSegment) × (m' : MinionManager) × (split 3 6 4 4 ≡ some segs)
    × (add_read_task_to junk takes 7 3 6 manager ≡ (m', ok tt))
    × (length m'.heap ≡ 1)
    × ((i : ℕ) → sent_to m' i ≡ sent_to manager i ++ packets (read_packet junk 7) i segs)
add_read_task_to-sends_example =
    add_read_task_to-sends junk takes (λ d. refl) 7 3 6 manager manager-IsManaged (omega arith)

add_write_task_to-sends_example :
    (segs : List StripeSegment) × (m' : MinionManager) × (split 3 6 4 4 ≡ some segs)
    × (add_write_task_to junk takes 7 3 6 data_bytes manager ≡ (m', ok tt))
    × (length m'.heap ≡ 1)
    × ((i : ℕ)
        → sent_to m' i ≡ sent_to manager i ++ packets (write_packet junk 7 data_bytes) i segs)
add_write_task_to-sends_example =
    add_write_task_to-sends junk takes (λ d. refl) 7 3 6 data_bytes manager manager-IsManaged
      (omega arith)

add_task-wraps_example :
    (add_task
      (λ seg c. add_read_task junk takes 7 seg.local_offset seg.length c)
      read
      7
      (size_mod - 4)
      8
      manager).1
    ≡ fault
add_task-wraps_example =
    add_task-wraps (λ seg c. add_read_task junk takes 7 seg.local_offset seg.length c) read 7
      (size_mod - 4) 8 manager manager-IsManaged (omega arith) (omega arith) (omega arith)

-- What minion 1 answers to the writes of the uid 7.
abbrev reply : List ℕ
reply = 17 ∷ 0 ∷ 0 ∷ 0 ∷ 3 ∷ 0 ∷ 0 ∷ 0 ∷ 7 ∷ 0 ∷ 0 ∷ 0 ∷ 0 ∷ 0 ∷ 0 ∷ 0 ∷ 1 ∷ []

abbrev after_write : Master
after_write = record {
  manager = (add_write_task_to junk takes 7 3 6 data_bytes manager).0;
  proxy = no_requests;
}

abbrev heap_of : Result Master → List Ticket
heap_of r = elim r [ ok s ↦ s.manager.heap | _ ↦ [] ]
