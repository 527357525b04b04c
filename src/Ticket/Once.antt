-- ===== src/Ticket/Once.antt =====
-- How often a ticket of concrete/src/Ticket.cpp reports.
use io_tbased_raid.Prelude.{
  ℕ, ◌⊎◌, ◌≡◌, refl, true, false, Option, List, [], ◌∷◌, arith, length, append-nil, inr,
}
use io_tbased_raid.Dispatcher.{length-notify}
use io_tbased_raid.Message.{AMessage}
use io_tbased_raid.Ticket.{
  Ticket, MirrorRole, Response, Notices, task_result, try_complete, update_segment,
  on_mirror_response, run,
}

on_mirror_response-completed :
    (junk : ℕ → ℕ) (t : Ticket) (idx : ℕ) (role : MirrorRole) (message : Option AMessage)
    → t.completed ≡ true
    → on_mirror_response junk t idx role message ≡ (t, [])
unfolding on_mirror_response
on_mirror_response-completed junk t idx role message h = ground arith

-- A ticket that is complete ignores all further answers.
pub run-completed :
    (junk : ℕ → ℕ) (t : Ticket) (rs : List Response) → t.completed ≡ true → run junk t rs ≡ (t, [])
unfolding run
run-completed junk t [] h = refl
run-completed junk t (r ∷ rs) h = rw (
  on_mirror_response-completed junk t r.segment_idx r.role r.message h,
  run-completed junk t rs h,
)

-- What a call did: it completed the ticket and told every callback, or left both alone.
abbrev Step : Ticket → Ticket × Notices → Type 0
Step t (t', notices) =
    ((t'.completed ≡ true) × (length notices ≡ length t.dispatcher.reg_list)
      ⊎ (t'.completed ≡ t.completed) × (notices ≡ []))
    × (t'.dispatcher ≡ t.dispatcher)

try_complete-Step : (junk : ℕ → ℕ) (t : Ticket) → Step t (try_complete junk t)
unfolding try_complete
try_complete-Step junk t = ground (arith, length-notify t.dispatcher (task_result junk t))

on_mirror_response-Step :
    (junk : ℕ → ℕ) (t : Ticket) (idx : ℕ) (role : MirrorRole) (message : Option AMessage)
    → Step t (on_mirror_response junk t idx role message)
unfolding on_mirror_response
on_mirror_response-Step junk t idx role message = ground (
  arith,
  try_complete-Step junk (record t { segments = update_segment idx role message t.segments }),
)

pub run-notices :
    (junk : ℕ → ℕ) (t : Ticket) (rs : List Response)
    → t.completed ≡ false
    → ((run junk t rs).0.completed ≡ true)
        × (length (run junk t rs).1 ≡ length t.dispatcher.reg_list)
      ⊎ ((run junk t rs).0.completed ≡ false) × ((run junk t rs).1 ≡ [])
unfolding run
run-notices junk t [] h = inr (h, refl)
run-notices junk t (r ∷ rs) h =
    let (t', notices) = on_mirror_response junk t r.segment_idx r.role r.message in
    ground (
      arith,
      on_mirror_response-Step junk t r.segment_idx r.role r.message,
      run-completed junk t' rs,
      run-notices junk t' rs,
      append-nil notices,
    )
