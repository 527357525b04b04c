-- ===== src/Ticket.antt =====
-- concrete/include/Ticket.hpp and concrete/src/Ticket.cpp: a request waits for the answers of two
-- mirrors for each of its segments. The mutex makes a call of `OnMirrorResponse` one step. `junk i`
-- is what memory that the code has not set holds at index `i`.
pub mod Once
pub mod Progress
pub mod Assembly
pub mod Policy
pub mod Failover
use io_tbased_raid.Prelude.{
  ℕ, ◌+◌, Bool, true, false, ◌&&◌, ◌||◌, if◌then◌else◌, leb, Option, none, some, List, [], ◌∷◌,
  ◌++◌, map, length, set, get_elem?, zero, suc,
}
use io_tbased_raid.Prelude.Words.{copy_out}
use io_tbased_raid.Dispatcher.{Dispatcher, no_callbacks, register, notify}
use io_tbased_raid.Splitter.{StripeSegment}
use io_tbased_raid.Message.{AMessage, Buffer, get_result, get_data}

pub record TaskResult : Type 0 where
  pub uid : ℕ
  pub result : Bool
  pub length : ℕ
  pub buffer : Buffer

pub data TicketOp : Type 0 where
  read write : TicketOp

pub data MirrorRole : Type 0 where
  primary backup : MirrorRole

-- The pointers are `std::shared_ptr<AMessage>`, null at first.
pub record SegmentState : Type 0 where
  pub length : ℕ
  pub buffer_offset : ℕ
  pub primary_done : Bool
  pub backup_done : Bool
  pub primary_msg : Option AMessage
  pub backup_msg : Option AMessage

pub record Ticket : Type 0 where
  pub uid : ℕ
  pub op : TicketOp
  pub total_length : ℕ
  pub segments : List SegmentState
  pub completed : Bool
  pub dispatcher : Dispatcher

abbrev pub fresh_segment : StripeSegment → SegmentState
fresh_segment seg = record {
  length = seg.length;
  buffer_offset = seg.buffer_offset;
  primary_done = false;
  backup_done = false;
  primary_msg = none;
  backup_msg = none;
}

-- The constructor.
unfoldable pub init : ℕ → TicketOp → ℕ → List StripeSegment → Ticket
init uid op total_length segments = record {
  uid = uid;
  op = op;
  total_length = total_length;
  segments = map fresh_segment segments;
  completed = false;
  dispatcher = no_callbacks;
}

unfoldable pub register_to_result_dispatcher : ℕ → Ticket → Ticket
unfolding register
register_to_result_dispatcher callback t = record t { dispatcher = register callback t.dispatcher }

-- `msg && msg->GetResult()`
abbrev pub is_good : Option AMessage → Bool
is_good none = false
is_good (some msg) = get_result msg

unfoldable pub is_segment_resolved : TicketOp → SegmentState → Bool
is_segment_resolved write seg = seg.primary_done && seg.backup_done
is_segment_resolved read seg =
    if seg.primary_done && is_good seg.primary_msg then true else seg.backup_done

unfoldable pub select_segment_message : SegmentState → Option AMessage
select_segment_message seg =
    if seg.primary_done && is_good seg.primary_msg
    then seg.primary_msg
    else if seg.backup_done
    then seg.backup_msg
    else seg.primary_msg

unfoldable pub is_segment_successful : TicketOp → SegmentState → Bool
unfolding select_segment_message
is_segment_successful write seg = is_good seg.primary_msg && is_good seg.backup_msg
is_segment_successful read seg = is_good (select_segment_message seg)

-- `std::all_of`, and the loop that returns at the first segment that is not resolved.
unfoldable pub all_of : (SegmentState → Bool) → List SegmentState → Bool
all_of test [] = true
all_of test (seg ∷ segs) = test seg && all_of test segs

-- Bytes are written one by one from index `i` on; one out of range changes nothing here.
unfoldable pub write_at : List ℕ → ℕ → List ℕ → List ℕ
write_at buffer i [] = buffer
write_at buffer i (b ∷ bytes) = write_at (set buffer i b) (i + 1) bytes

-- `if(msg && msg->GetData())`
abbrev pub data_of : Option AMessage → Buffer
data_of none = none
data_of (some msg) = get_data msg

-- `memcpy` of one segment, if its message has data.
unfoldable pub copy_segment : (ℕ → ℕ) → Buffer → SegmentState → List ℕ → List ℕ
unfolding write_at copy_out
copy_segment junk none seg buffer = buffer
copy_segment junk (some bytes) seg buffer =
    write_at buffer seg.buffer_offset (copy_out junk 0 bytes seg.length)

unfoldable pub copy_segments : (ℕ → ℕ) → List SegmentState → List ℕ → List ℕ
copy_segments junk [] buffer = buffer
copy_segments junk (seg ∷ segs) buffer =
    copy_segments junk segs (copy_segment junk (data_of (select_segment_message seg)) seg buffer)

-- The buffer of a successful read starts as fresh memory.
unfoldable pub result_buffer : (ℕ → ℕ) → Ticket → Bool → Buffer
result_buffer junk t success = elim t.op [
  | write ↦ none
  | read ↦
      if success
      then some (copy_segments junk t.segments (copy_out junk 0 [] t.total_length))
      else none
]

unfoldable pub task_result : (ℕ → ℕ) → Ticket → TaskResult
task_result junk t =
    let success : Bool = all_of (is_segment_successful t.op) t.segments in
    record {
      uid = t.uid;
      result = success;
      length = t.total_length;
      buffer = result_buffer junk t success;
    }

-- What a call tells the registered callbacks.
abbrev pub Notices : Type 0
Notices = List (ℕ × TaskResult)

unfoldable pub try_complete : (ℕ → ℕ) → Ticket → Ticket × Notices
try_complete junk t =
    if all_of (is_segment_resolved t.op) t.segments
    then (record t { completed = true }, notify t.dispatcher (task_result junk t))
    else (t, [])

abbrev pub store_response : MirrorRole → Option AMessage → SegmentState → SegmentState
store_response primary message seg = record seg { primary_done = true; primary_msg = message }
store_response backup message seg = record seg { backup_done = true; backup_msg = message }

unfoldable pub update_segment :
    ℕ → MirrorRole → Option AMessage → List SegmentState → List SegmentState
update_segment idx role message [] = []
update_segment zero role message (seg ∷ segs) = store_response role message seg ∷ segs
update_segment (suc idx) role message (seg ∷ segs) = seg ∷ update_segment idx role message segs

unfoldable pub on_mirror_response :
    (ℕ → ℕ) → Ticket → ℕ → MirrorRole → Option AMessage → Ticket × Notices
on_mirror_response junk t idx role message =
    if t.completed || leb (length t.segments) idx
    then (t, [])
    else try_complete junk (record t { segments = update_segment idx role message t.segments })

-- One answer of a minion, as the proxies report it.
pub record Response : Type 0 where
  pub segment_idx : ℕ
  pub role : MirrorRole
  pub message : Option AMessage

-- Answers arrive one after the other, in any order.
unfoldable pub run : (ℕ → ℕ) → Ticket → List Response → Ticket × Notices
run junk t [] = (t, [])
run junk t (r ∷ rs) =
    let (t', notices) = on_mirror_response junk t r.segment_idx r.role r.message in
    let (t'', more) = run junk t' rs in (t'', notices ++ more)
