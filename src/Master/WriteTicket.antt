-- ===== src/Master/WriteTicket.antt =====
-- The ticket of a write inside one chunk, while its mirrors answer (concrete/src/Ticket.cpp), and what the kernel is sent
-- then (concrete/src/NBDProxy.cpp).
use io_tbased_raid.Prelude.{
  ℕ, ◌≡◌, refl, not, ◌&&◌, ◌==◌, none, some, List, [], ◌∷◌, if◌then◌else◌, Bool-cases, inl, inr,
}
use io_tbased_raid.Splitter.{StripeSegment}
use io_tbased_raid.Dispatcher.{notify, register}
use io_tbased_raid.Message.{write_receive}
use io_tbased_raid.Ticket.{
  Ticket, TaskResult, write, MirrorRole, primary, backup, on_mirror_response, try_complete, all_of,
  task_result, result_buffer, is_segment_resolved, is_segment_successful, update_segment,
  store_response, fresh_segment, init, register_to_result_dispatcher,
}
use io_tbased_raid.Ticket.Progress.{opened}
use io_tbased_raid.NbdProxy.{NbdAbi, reply, outgoing}
use io_tbased_raid.MinionProxy.{OnDone}

-- The mirrors of a segment.
abbrev pub minion_of : MirrorRole → StripeSegment → ℕ
minion_of primary seg = seg.primary_minion_index
minion_of backup seg = seg.backup_minion_index

abbrev pub other : MirrorRole → MirrorRole
other primary = backup
other backup = primary

abbrev pub on_done : ℕ → MirrorRole → OnDone
on_done ticket role = record { ticket = ticket; segment_idx = 0; role = role }

-- The result of a write that its mirrors answer with the states `x` and `y`.
abbrev pub write_result : ℕ → ℕ → ℕ → ℕ → TaskResult
write_result uid len x y = record {
  uid = uid;
  result = not (x == 0) && not (y == 0);
  length = len;
  buffer = none;
}

-- The ticket with the one answer.
abbrev pub half : ℕ → ℕ → StripeSegment → ℕ → MirrorRole → ℕ → Ticket
half uid len seg callback role x = record (opened uid write len (seg ∷ []) callback) {
  segments = store_response role (some (write_receive uid x)) (fresh_segment seg) ∷ [];
}

module _ (junk : ℕ → ℕ) (uid len : ℕ) (seg : StripeSegment) (callback : ℕ) where
  pub first_answer :
      (role : MirrorRole) (x : ℕ)
      → on_mirror_response junk
          (opened uid write len (seg ∷ []) callback)
          0
          role
          (some (write_receive uid x))
        ≡ (half uid len seg callback role x, [])
  unfolding init register_to_result_dispatcher register on_mirror_response update_segment
      try_complete all_of is_segment_resolved
  first_answer primary x = refl
  first_answer backup x = refl

  pub last_answer :
      (role : MirrorRole) (x y : ℕ)
      → (on_mirror_response junk
          (half uid len seg callback role x)
          0
          (other role)
          (some (write_receive uid y))).1
        ≡ (callback, write_result uid len x y) ∷ []
  unfolding init register_to_result_dispatcher register on_mirror_response update_segment
      try_complete all_of is_segment_resolved is_segment_successful notify task_result result_buffer
  last_answer primary x y = elim (Bool-cases (x == 0)) [
    | inl e ↦ rw e refl
    | inr e ↦ elim (Bool-cases (y == 0)) [ inl e' ↦ rw (e, e') refl | inr e' ↦ rw (e, e') refl ]
  ]
  last_answer backup x y = elim (Bool-cases (x == 0)) [
    | inl e ↦ elim (Bool-cases (y == 0)) [ inl e' ↦ rw (e, e') refl | inr e' ↦ rw (e, e') refl ]
    | inr e ↦ elim (Bool-cases (y == 0)) [ inl e' ↦ rw (e, e') refl | inr e' ↦ rw (e, e') refl ]
  ]

-- What the kernel is sent for such a result.
pub outgoing-write_result :
    (abi : NbdAbi) (uid len x y magic : ℕ) (handle : List ℕ)
    → outgoing abi (record { magic = magic; error = 0; handle = handle }) (write_result uid len x y)
      ≡ reply (record {
        magic = magic;
        error = if not (x == 0) && not (y == 0) then 0 else abi.eio;
        handle = handle;
      })
        ∷ []
outgoing-write_result abi uid len x y magic handle =
    elim (Bool-cases (not (x == 0) && not (y == 0))) [ inl e ↦ rw e refl | inr e ↦ rw e refl ]
