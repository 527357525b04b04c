-- ===== src/Tests/Tickets.antt =====
-- A ticket for two bytes on one segment, mirrored on minions 0 and 1.
use io_tbased_raid.Prelude.{
  ℕ, ◌≡◌, ◌<◌, refl, true, false, none, some, List, [], ◌∷◌, arith, length,
}
use mathlib.Core.List.{flatten}
use io_tbased_raid.Splitter.{StripeSegment}
use io_tbased_raid.Dispatcher.{register, notify}
use io_tbased_raid.Message.{AMessage, read_receive, write_receive}
use io_tbased_raid.Ticket.{
  Ticket, TaskResult, Response, SegmentState, read, write, MirrorRole, primary, backup, init,
  register_to_result_dispatcher, fresh_segment, run, on_mirror_response, update_segment,
  try_complete, all_of, is_segment_resolved, is_segment_successful, task_result, result_buffer,
  select_segment_message,
}
use io_tbased_raid.Ticket.Progress.{opened, arrived, run-answered}
use io_tbased_raid.Ticket.Policy.{secured, run-secured}
use io_tbased_raid.Ticket.Failover.{failed_result, read_fails_early}
use io_tbased_raid.Ticket.Assembly.{Supplied, task_result-Supplied}

abbrev junk : ℕ → ℕ
junk i = 170

abbrev segment : StripeSegment
segment = record {
  local_offset = 0;
  length = 2;
  buffer_offset = 0;
  primary_minion_index = 0;
  backup_minion_index = 1;
}

abbrev answer : MirrorRole → AMessage → Response
answer role message = record { segment_idx = 0; role = role; message = some message }

-- Both mirrors wrote; the backup's answer comes first, and twice.
abbrev acks : List Response
acks =
    answer backup (write_receive 7 1)
    ∷ answer backup (write_receive 7 1)
    ∷ answer primary (write_receive 7 1)
    ∷ []

abbrev written : TaskResult
written = record { uid = 7; result = true; length = 2; buffer = none }

run-acks : (run junk (opened 7 write 2 (segment ∷ []) 0) acks).1 ≡ (0, written) ∷ []
unfolding run init register_to_result_dispatcher register on_mirror_response update_segment
    try_complete all_of is_segment_resolved is_segment_successful task_result result_buffer notify
run-acks = refl

run-secured_example : secured write 0 acks ≡ true
run-secured_example =
    run-secured junk 7 write 2 (segment ∷ []) 0 acks written 0 run-acks refl (omega arith)

acks-arrived : (i : ℕ) → i < 1 → (arrived i primary acks ≡ true) × (arrived i backup acks ≡ true)
acks-arrived i h = ground arith

run-answered_example :
    let (t, notices) = run junk (opened 7 write 2 (segment ∷ []) 0) acks in
    (t.completed ≡ true) × (length notices ≡ 1)
run-answered_example = run-answered junk 7 write 2 (segment ∷ []) 0 acks (omega arith) acks-arrived

abbrev open_ticket : Ticket
open_ticket = record {
  uid = 7;
  op = write;
  total_length = 2;
  segments = fresh_segment segment ∷ [];
  completed = false;
  dispatcher = record { reg_list = 0 ∷ [] };
}

abbrev read_segment : SegmentState
read_segment = record {
  length = 2;
  buffer_offset = 0;
  primary_done = true;
  backup_done = false;
  primary_msg = some (read_receive 7 1 2 (some (5 ∷ 6 ∷ [])));
  backup_msg = none;
}

abbrev read_ticket : Ticket
read_ticket = record open_ticket { op = read; segments = read_segment ∷ [] }

read_segment-successful : all_of (is_segment_successful read) read_ticket.segments ≡ true
unfolding all_of is_segment_successful select_segment_message
read_segment-successful = refl

abbrev pieces : List (List ℕ)
pieces = (5 ∷ 6 ∷ []) ∷ []

read_segment-Supplied : Supplied 0 read_ticket.segments pieces
unfolding select_segment_message
read_segment-Supplied = (refl, refl, refl, tt)

pieces_length : length (flatten pieces) ≡ 2
unfolding flatten
pieces_length = refl

task_result-Supplied_example :
    task_result junk read_ticket
    ≡ record { uid = 7; result = true; length = 2; buffer = some (5 ∷ 6 ∷ []) }
unfolding flatten
task_result-Supplied_example =
    task_result-Supplied junk read_ticket pieces refl read_segment-successful read_segment-Supplied
      pieces_length

-- The primary has the bytes, but the backup's failure arrives first.
read_fails_early_example :
    (run junk (opened 7 read 2 (segment ∷ []) 0) (
      answer backup (read_receive 7 0 2 (some (0 ∷ 0 ∷ [])))
      ∷ answer primary (read_receive 7 1 2 (some (5 ∷ 6 ∷ [])))
      ∷ [])).1
    ≡ (0, failed_result 7 2) ∷ []
read_fails_early_example =
    read_fails_early junk 7 2 0 segment (some (read_receive 7 0 2 (some (0 ∷ 0 ∷ []))))
      (answer primary (read_receive 7 1 2 (some (5 ∷ 6 ∷ []))) ∷ []) refl
