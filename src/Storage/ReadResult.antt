-- ===== src/Storage/ReadResult.antt =====
-- What the ticket of a read (concrete/src/Ticket.cpp) tells, if the minions answer with what a write left.
use mathlib.Core.List.{flatten}
use io_tbased_raid.Prelude.{
  ℕ, subst, ◌+◌, ◌<◌, ◌≡◌, refl, sym, ap, ◌∙◌, true, ◌||◌, leb, Bool-cases, inl, inr, some, List,
  [], ◌∷◌, arith, length, map, get_elem?, All, All-append, ap₂,
}
use io_tbased_raid.Splitter.{StripeSegment, size_mod, split}
use io_tbased_raid.Splitter.Loop.{Splits, split-Splits}
use io_tbased_raid.Ticket.{
  Ticket, TaskResult, read, primary, backup, Response, is_good, is_segment_resolved,
  is_segment_successful, all_of, init, register_to_result_dispatcher, task_result, try_complete,
  on_mirror_response, run,
}
use io_tbased_raid.Dispatcher.{notify, register}
use io_tbased_raid.Ticket.Failover.{Succeeds, run-All_good}
use io_tbased_raid.Ticket.Assembly.{task_result-Supplied}
use io_tbased_raid.Ticket.Progress.{opened, arrived, run-answered}
use io_tbased_raid.Storage.Files.{bytes_of-byte_at}
use io_tbased_raid.Storage.Contents.{
  bytes_for, Truthful, AllTruthful, Serves, Serves-fresh, Serves-update, Serves-Supplied,
  flatten-bytes_for,
}

module _ (junk : ℕ → ℕ) (buffer : List ℕ) where
  -- The result that tells the buffer.
  abbrev pub read_result : ℕ → TaskResult
  read_result uid = record {
    uid = uid;
    result = true;
    length = length buffer;
    buffer = some buffer;
  }

  module _ (uid offset c n callback : ℕ) (segs : List StripeSegment) (hc : 0 < c)
      (hw : offset + length buffer < size_mod)
      (split_up : Splits c n (length buffer) offset 0 segs) where
    -- A success is told with the buffer, and to the callback.
    abbrev Tells : ℕ × TaskResult → Type 0
    Tells notice = (notice.0 ≡ callback) × (notice.1.result ≡ true → notice.1 ≡ read_result uid)

    record IsReading (t : Ticket) : Type 0 where
      same_uid : t.uid ≡ uid
      reads : t.op ≡ read
      same_length : t.total_length ≡ length buffer
      told : t.dispatcher.reg_list ≡ callback ∷ []
      serves : Serves junk buffer segs t.segments

    success_is_read :
        (t : Ticket)
        → IsReading t
        → (task_result junk t).result ≡ true
        → task_result junk t ≡ read_result uid
    unfolding task_result
    success_is_read t v good =
        let whole : flatten (map (bytes_for junk buffer) segs) ≡ buffer =
          flatten-bytes_for junk buffer c n hc hw (omega arith) (omega arith) split_up
          ∙ bytes_of-byte_at buffer in
        let all_good : all_of (is_segment_successful read) t.segments ≡ true =
          ap (λ op. all_of (is_segment_successful op) t.segments) (sym v.reads) ∙ good in
        task_result-Supplied junk t (map (bytes_for junk buffer) segs) v.reads all_good
          (Serves-Supplied junk buffer t.segments c n hw (omega arith) split_up v.serves all_good)
          (ap length whole ∙ sym v.same_length)
        ∙ rw (v.same_uid, v.same_length, whole) refl

    notify-Tells : (t : Ticket) → IsReading t → All Tells (notify t.dispatcher (task_result junk t))
    unfolding notify
    notify-Tells t v =
        subst (λ cs. All Tells (map (λ told. (told, task_result junk t)) cs)) (sym v.told)
          ((refl, success_is_read t v), tt)

    try_complete-Tells :
        (t : Ticket)
        → IsReading t
        → IsReading (try_complete junk t).0 × All Tells (try_complete junk t).1
    unfolding try_complete
    try_complete-Tells t v = elim (Bool-cases (all_of (is_segment_resolved t.op) t.segments)) [
      | inl e ↦ rw e (
        record {
          same_uid = v.same_uid;
          reads = v.reads;
          same_length = v.same_length;
          told = v.told;
          serves = v.serves;
        },
        notify-Tells t v,
      )
      | inr e ↦ rw e (v, tt)
    ]

    on_mirror_response-Tells :
        (t : Ticket) (r : Response)
        → ((s : StripeSegment)
            → get_elem? segs r.segment_idx ≡ some s
            → Truthful junk buffer r.message s)
        → IsReading t
        → let (t', notices) = on_mirror_response junk t r.segment_idx r.role r.message in
          IsReading t' × All Tells notices
    unfolding on_mirror_response
    on_mirror_response-Tells t r truth v =
        elim (Bool-cases (t.completed || leb (length t.segments) r.segment_idx)) [
          | inl e ↦ rw e (v, tt)
          | inr e ↦ rw e (
              try_complete-Tells _ (record {
                same_uid = v.same_uid;
                reads = v.reads;
                same_length = v.same_length;
                told = v.told;
                serves =
                    Serves-update junk buffer r.segment_idx r.role r.message segs t.segments truth
                      v.serves;
              }))
        ]

    run-Tells :
        (t : Ticket) (rs : List Response)
        → AllTruthful junk buffer segs rs
        → IsReading t
        → All Tells (run junk t rs).1
    unfolding run
    run-Tells t [] truth v = tt
    run-Tells t (r ∷ rs) truth v =
        let (v', told) = on_mirror_response-Tells t r truth.0 v in
        All-append Tells _ _ told
          (run-Tells (on_mirror_response junk t r.segment_idx r.role r.message).0 rs truth.1 v')

    only_notice :
        (notices : List (ℕ × TaskResult))
        → length notices ≡ 1
        → All Tells notices
        → All Succeeds notices
        → notices ≡ (callback, read_result uid) ∷ []
    only_notice [] e tells good = absurd (omega arith)
    only_notice ((told, result) ∷ []) e tells good =
        ap₂ (λ x y. (x, y) ∷ []) tells.0.0 (tells.0.1 good.0)
    only_notice (a ∷ b ∷ notices) e tells good = absurd (omega arith)

-- A read of a range of the drive, cut into segments: every segment of it is answered by both its mirrors,
-- every answer reports success, and has the bytes that the buffer of a write of this range has for the
-- segment. Then in whatever order these answers and others like them come, the ticket's callback is told
-- once, of a success with this very buffer.
pub run-reads_buffer :
    (junk : ℕ → ℕ) (buffer : List ℕ) (uid offset c n callback : ℕ) (segs : List StripeSegment)
    (rs : List Response)
    → 0 < c
    → offset + length buffer < size_mod
    → split offset (length buffer) c n ≡ some segs
    → 0 < length segs
    → ((i : ℕ) → i < length segs → (arrived i primary rs ≡ true) × (arrived i backup rs ≡ true))
    → All (λ r. is_good r.message ≡ true) rs
    → AllTruthful junk buffer segs rs
    → (run junk (opened uid read (length buffer) segs callback) rs).1
      ≡ (callback, read_result junk buffer uid) ∷ []
unfolding init register_to_result_dispatcher register
run-reads_buffer junk buffer uid offset c n callback segs rs hc hw e pos answered good truth =
    let (_, once) = run-answered junk uid read (length buffer) segs callback rs pos answered in
    only_notice junk buffer uid offset c n callback segs hc hw
      (split-Splits offset (length buffer) c n hc e) _ once
      (run-Tells junk buffer uid offset c n callback segs hc hw
        (split-Splits offset (length buffer) c n hc e) _ rs truth
        (record {
          same_uid = refl;
          reads = refl;
          same_length = refl;
          told = refl;
          serves = Serves-fresh junk buffer segs;
        }))
      (run-All_good junk uid read (length buffer) segs callback rs good)
