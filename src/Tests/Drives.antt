-- ===== src/Tests/Drives.antt =====
-- A drive of four minions with chunks of four bytes, of which three bytes over the border of the first two chunks are
-- written and read.
use io_tbased_raid.Prelude.{
  ℕ, ◌+◌, ◌<◌, ◌≡◌, refl, ap, ap₂, ◌∙◌, true, some, some_injective, List, [], ◌∷◌, ◌++◌, inl, inr,
  arith, length,
}
use mathlib.Core.List.{Memᴰ}
use mathlib.Core.List.Memᴰ.{head, tail}
use io_tbased_raid.Prelude.Results.{ok}
use io_tbased_raid.Prelude.Words.{copy_out}
use io_tbased_raid.Splitter.{StripeSegment, split, split_loop}
use io_tbased_raid.Splitter.Loss.{bytes_of}
use io_tbased_raid.Message.{read_receive, to_buffer}
use io_tbased_raid.Minion.{FileStream, Minion}
use io_tbased_raid.MinionManager.{MinionManager, slice, add_read_task_to, add_write_task_to}
use io_tbased_raid.MinionManager.Requests.{sent_to, packets}
use io_tbased_raid.MinionManager.Ranges.{read_packet, write_packet}
use io_tbased_raid.Ticket.{Response, read, primary, backup, run}
use io_tbased_raid.Ticket.Progress.{opened, arrived}
use io_tbased_raid.Storage.{IsFile, overwrite, minion_serves, minions_serve}
use io_tbased_raid.Storage.Writing.{Arrival, arriving}
use io_tbased_raid.Storage.Cover.{Holds, Arrive}
use io_tbased_raid.Storage.ReadBack.{read_after_write}
use io_tbased_raid.Storage.Contents.{bytes_for, AllTruthful}
use io_tbased_raid.Storage.Refinement.{Written, IsWritten, serve_writes, writes-refine}
use io_tbased_raid.Storage.ReadResult.{run-reads_buffer}
use io_tbased_raid.Tests.Packets.{junk, takes, no_args, no_messages}
use io_tbased_raid.Tests.Requests.{manager, manager-IsManaged}

-- A stream is a place in a file without an end.
abbrev Place : Type 0
Place = ℕ × (ℕ → ℕ)

abbrev stream : FileStream Place
stream = record {
  seekg = λ i (place, file). (i, file);
  read = λ n (place, file). ((place + n, file), bytes_of file place n);
  seekp = λ i (place, file). (i, file);
  write = λ bytes (place, file). (place + length bytes, overwrite file place bytes);
  flush = λ s. s;
  good = λ s. true;
}

abbrev at : Place → ℕ → ℕ
at (place, file) = file

stream-IsFile : IsFile stream 4 at (λ s. Unit)
stream-IsFile = record {
  read_gives = λ o n s h inside. refl;
  read_leaves = λ o n s h inside. (tt, refl, λ p. refl);
  write_leaves = λ o bytes s h inside. (tt, refl, λ p. refl);
}

abbrev minions : ℕ → Minion Place
minions i = record { file = (0, λ p. 9); sent = [] }

abbrev pub first_piece : StripeSegment
first_piece = record {
  local_offset = 3;
  length = 1;
  buffer_offset = 0;
  primary_minion_index = 0;
  backup_minion_index = 1;
}

abbrev pub second_piece : StripeSegment
second_piece = record {
  local_offset = 0;
  length = 2;
  buffer_offset = 1;
  primary_minion_index = 1;
  backup_minion_index = 2;
}

abbrev pieces : List StripeSegment
pieces = first_piece ∷ second_piece ∷ []

pub split_3 : split 3 3 4 4 ≡ some pieces
unfolding split split_loop
split_3 = refl

-- Out of order, and the first packet twice.
abbrev arrivals : List Arrival
arrivals =
    (1, second_piece)
    ∷ (0, first_piece)
    ∷ (1, first_piece)
    ∷ (0, first_piece)
    ∷ (2, second_piece)
    ∷ []

pair : {x y : Arrival} → x.0 ≡ y.0 → x.1 ≡ y.1 → x ≡ y
pair e e' = ap₂ (λ i s. (i, s)) e e'

arrivals-Arrive : Arrive pieces arrivals
arrivals-Arrive = record {
  sent = (
    (tail (head refl), inl refl),
    (
      (head refl, inl refl),
      ((head refl, inr refl), ((head refl, inl refl), ((tail (head refl), inr refl), tt))),
    ),
  );
  all_arrive = all;
}
  where
    all : (seg : StripeSegment) (i : ℕ) → Memᴰ seg pieces → Holds seg i → Memᴰ (i, seg) arrivals
    all seg i (head e) (inl h) = tail (head (pair (h ∙ ap (λ s. s.primary_minion_index) e) e))
    all seg i (head e) (inr h) = tail (tail (head (pair (h ∙ ap (λ s. s.backup_minion_index) e) e)))
    all seg i (tail (head e)) (inl h) = head (pair (h ∙ ap (λ s. s.primary_minion_index) e) e)
    all seg i (tail (head e)) (inr h) =
        tail (tail (tail (tail (head (pair (h ∙ ap (λ s. s.backup_minion_index) e) e)))))
    all seg i (tail (tail m)) h = elim m [ ]

abbrev written : List ℕ
written = 5 ∷ 6 ∷ 7 ∷ []

-- The second piece is read from its backup.
read_after_write_example :
    (m' later' : MinionManager) × (ms' : ℕ → Minion Place) × (q : Minion Place) × (reply : List ℕ)
    × (add_write_task_to junk takes 7 3 3 written manager ≡ (m', ok tt))
    × ((j : ℕ) → sent_to m' j ≡ sent_to manager j ++ packets (write_packet junk 7 written) j pieces)
    × (add_read_task_to junk takes 8 3 3 manager ≡ (later', ok tt))
    × ((j : ℕ) → sent_to later' j ≡ sent_to manager j ++ packets (read_packet junk 8) j pieces)
    × (minions_serve stream junk takes no_args no_messages
          (arriving junk 7 written arrivals)
          minions
        ≡ ok ms')
    × (minion_serves stream junk takes no_args no_messages (read_packet junk 8 second_piece) (ms' 2)
        ≡ ok q)
    × (q.sent ≡ (ms' 2).sent ++ (reply ∷ []))
    × (to_buffer junk (read_receive 8 1 2 (slice junk written second_piece)) ≡ ok reply)
read_after_write_example =
    read_after_write stream junk takes (λ d. refl) no_args no_messages 4 at (λ s. Unit)
      stream-IsFile 7 8 3 3 written manager manager minions pieces arrivals second_piece 2
      manager-IsManaged manager-IsManaged refl refl (omega arith) (omega arith) (omega arith) refl
      (omega arith) (omega arith) (omega arith) (omega arith) (λ j. tt) split_3 arrivals-Arrive
      (tail (head refl)) (inr refl)

-- The same range is written twice; byte 8 has the place of the mirror of byte 4.
abbrev first_write : Written
first_write = record { uid = 7; offset = 3; buffer = written; segs = pieces; arrivals = arrivals }

abbrev second_write : Written
second_write = record {
  uid = 8;
  offset = 3;
  buffer = 1 ∷ 2 ∷ 3 ∷ [];
  segs = pieces;
  arrivals = arrivals;
}

first_write-IsWritten : IsWritten 4 4 first_write
first_write-IsWritten = record {
  cut = split_3;
  arrive = arrivals-Arrive;
  inside = omega arith;
  short = omega arith;
  packets_fit = omega arith;
  uid_fits = omega arith;
}

second_write-IsWritten : IsWritten 4 4 second_write
second_write-IsWritten = record {
  cut = split_3;
  arrive = arrivals-Arrive;
  inside = omega arith;
  short = omega arith;
  packets_fit = omega arith;
  uid_fits = omega arith;
}

writes-refine_example :
    (ms' : ℕ → Minion Place) × (serve_writes stream junk takes no_args no_messages
        (first_write ∷ second_write ∷ [])
        minions
      ≡ ok ms')
    × (at (ms' 2).file 0 ≡ 2)
writes-refine_example =
    writes-refine stream junk takes (λ d. refl) no_args no_messages 4 at (λ s. Unit) stream-IsFile 4
      4 (first_write ∷ second_write ∷ []) minions 8 (omega arith) (omega arith) (omega arith)
      (omega arith) (first_write-IsWritten, (second_write-IsWritten, tt)) (λ i. tt) (omega arith)

abbrev answers : List Response
answers =
    record {
      segment_idx = 1;
      role = backup;
      message = some (read_receive 8 1 2 (some (6 ∷ 7 ∷ [])));
    }
    ∷ record {
      segment_idx = 0;
      role = primary;
      message = some (read_receive 8 1 1 (some (5 ∷ [])));
    }
    ∷ record { segment_idx = 0; role = backup; message = some (read_receive 8 1 1 (some (5 ∷ []))) }
    ∷ record {
      segment_idx = 1;
      role = primary;
      message = some (read_receive 8 1 2 (some (6 ∷ 7 ∷ [])));
    }
    ∷ []

answers-arrived :
    (i : ℕ) → i < 2 → (arrived i primary answers ≡ true) × (arrived i backup answers ≡ true)
answers-arrived i h = ground arith

same_bytes :
    (s s' : StripeSegment)
    → some s ≡ some s'
    → some (bytes_for junk written s) ≡ some (bytes_for junk written s')
same_bytes s s' e = ap (λ x. some (bytes_for junk written x)) (some_injective e)

answers-AllTruthful : AllTruthful junk written pieces answers
unfolding copy_out
answers-AllTruthful = (
  λ s e good. same_bytes second_piece s e,
  (
    λ s e good. same_bytes first_piece s e,
    (λ s e good. same_bytes first_piece s e, (λ s e good. same_bytes second_piece s e, tt)),
  ),
)

run-reads_buffer_example :
    (run junk (opened 8 read 3 pieces 0) answers).1
    ≡ (0, record { uid = 8; result = true; length = 3; buffer = some written }) ∷ []
run-reads_buffer_example =
    run-reads_buffer junk written 8 3 4 4 0 pieces answers (omega arith) (omega arith) split_3
      (omega arith) answers-arrived (refl, (refl, (refl, (refl, tt)))) answers-AllTruthful
