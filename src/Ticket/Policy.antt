-- ===== src/Ticket/Policy.antt =====
-- When a ticket of concrete/src/Ticket.cpp reports a success.
use io_tbased_raid.Prelude.{
  ℕ, ap, ◌∙◌, leb, Bool-cases, inl, inr, ◌+◌, zero, suc, ◌≤◌, ◌<◌, ◌≡◌, refl, Bool, true, false,
  not, ◌&&◌, ◌||◌, ◌==◌, Option, List, subst, [], ◌∷◌, arith, length, map, All, All-append,
  ℕ_discrete,
}
use io_tbased_raid.Message.{AMessage}
use io_tbased_raid.Dispatcher.{Dispatcher, notify}
use io_tbased_raid.Splitter.{StripeSegment}
use io_tbased_raid.Ticket.{
  Ticket, TaskResult, TicketOp, read, write, SegmentState, MirrorRole, primary, backup, Response,
  is_good, is_segment_resolved, is_segment_successful, all_of, fresh_segment, init,
  register_to_result_dispatcher, update_segment, task_result, try_complete, on_mirror_response, run,
}
use io_tbased_raid.Ticket.Progress.{same_role, opened}

-- That mirror of that segment reported success.
abbrev pub acked : ℕ → MirrorRole → List Response → Bool
acked idx role [] = false
acked idx role (r ∷ rs) =
    (r.segment_idx == idx && same_role r.role role && is_good r.message) || acked idx role rs

-- Enough mirrors of the segment reported success.
abbrev pub secured : TicketOp → ℕ → List Response → Bool
secured write idx rs = acked idx primary rs && acked idx backup rs
secured read idx rs = acked idx primary rs || acked idx backup rs

-- The good messages of the segments, counted from `i` on, are among the answers `rs`.
abbrev Recorded : List Response → ℕ → List SegmentState → Type 0
Recorded rs i [] = Unit {0}
Recorded rs i (seg ∷ segs) =
    ((not (is_good seg.primary_msg) || acked i primary rs) ≡ true)
    × ((not (is_good seg.backup_msg) || acked i backup rs) ≡ true)
    × Recorded rs (suc i) segs

abbrev Secured : TicketOp → List Response → ℕ → ℕ → Type 0
Secured op rs i zero = Unit {0}
Secured op rs i (suc n) = (secured op i rs ≡ true) × Secured op rs (suc i) n

Secured-elim :
    (op : TicketOp) (rs : List Response) (k i n : ℕ)
    → Secured op rs k n
    → k ≤ i
    → i < k + n
    → secured op i rs ≡ true
Secured-elim op rs k i zero s lo hi = absurd (omega arith)
Secured-elim op rs k i (suc n) s lo hi = elim (ℕ_discrete k i) [
  | yes e ↦ rw (← e) s.0
  | no e ↦ Secured-elim op rs (suc k) i n s.1 (omega arith) (omega arith)
]

successful-Secured :
    (op : TicketOp) (rs : List Response) (i : ℕ) (segs : List SegmentState)
    → Recorded rs i segs
    → all_of (is_segment_successful op) segs ≡ true
    → Secured op rs i (length segs)
unfolding all_of is_segment_successful
successful-Secured op rs i [] c h = tt
successful-Secured read rs i (seg ∷ segs) c h =
    ground (arith, successful-Secured read rs (suc i) segs)
successful-Secured write rs i (seg ∷ segs) c h =
    ground (arith, successful-Secured write rs (suc i) segs)

Recorded-update :
    (all : List Response) (r : Response) (k i : ℕ) (segs : List SegmentState)
    → r.segment_idx ≡ i + k
    → ((not (is_good r.message) || acked r.segment_idx r.role all) ≡ true)
    → Recorded all i segs
    → Recorded all i (update_segment k r.role r.message segs)
unfolding update_segment
Recorded-update all r k i [] e g c = tt
Recorded-update all r zero i (seg ∷ segs) e g c =
    let e' : r.segment_idx ≡ i = omega arith in
    let g' : (not (is_good r.message) || acked i r.role all) ≡ true =
      subst (λ j. (not (is_good r.message) || acked j r.role all) ≡ true) e' g in
    ground arith
Recorded-update all r (suc k) i (seg ∷ segs) e g c =
    ground (arith, Recorded-update all r k (suc i) segs)

length-update :
    (k : ℕ) (role : MirrorRole) (message : Option AMessage) (segs : List SegmentState)
    → length (update_segment k role message segs) ≡ length segs
unfolding update_segment
length-update k role message [] = refl
length-update zero role message (seg ∷ segs) = refl
length-update (suc k) role message (seg ∷ segs) = ap suc (length-update k role message segs)

-- What a callback is told is true: a success stands on the answers `all`.
abbrev Sound : TicketOp → List Response → ℕ → ℕ × TaskResult → Type 0
Sound op all n (callback, res) = res.result ≡ true → Secured op all 0 n

-- The ticket of a request of `n` segments whose good messages are among `all`.
record IsTraced (op : TicketOp) (all : List Response) (n : ℕ) (t : Ticket) : Type 0 where
  same_op : t.op ≡ op
  same_length : length t.segments ≡ n
  recorded : Recorded all 0 t.segments

pub All-notify {ℓ} :
    {E : Type ℓ} (P : ℕ × E → Type 0) (event : E)
    → ((callback : ℕ) → P (callback, event))
    → (d : Dispatcher) → All P (notify d event)
unfolding notify
All-notify P event h d = go d.reg_list
  where
    go : (cs : List ℕ) → All P (map (λ callback. (callback, event)) cs)
    go [] = tt
    go (c ∷ cs) = (h c, go cs)

own_ack :
    (r : Response) (rs : List Response)
    → is_good r.message ≡ true
    → acked r.segment_idx r.role (r ∷ rs) ≡ true
own_ack r rs h = ground arith

module _ (op : TicketOp) (all : List Response) (n : ℕ) (junk : ℕ → ℕ) where
  task_result-Sound :
      (t : Ticket) (callback : ℕ)
      → IsTraced op all n t
      → Sound op all n (callback, task_result junk t)
  unfolding task_result
  task_result-Sound t callback v h =
      rw (← v.same_op, ← v.same_length) (successful-Secured t.op all 0 t.segments v.recorded h)

  try_complete-Sound :
      (t : Ticket)
      → IsTraced op all n t
      → IsTraced op all n (try_complete junk t).0 × All (Sound op all n) (try_complete junk t).1
  unfolding try_complete
  try_complete-Sound t v = elim (Bool-cases (all_of (is_segment_resolved t.op) t.segments)) [
    | inl e ↦ rw e (
      record { same_op = v.same_op; same_length = v.same_length; recorded = v.recorded },
      All-notify (Sound op all n) _ (λ callback. task_result-Sound t callback v) t.dispatcher,
    )
    | inr e ↦ rw e (v, tt)
  ]

  on_mirror_response-Sound :
      (t : Ticket) (r : Response)
      → ((not (is_good r.message) || acked r.segment_idx r.role all) ≡ true)
      → IsTraced op all n t
      → let (t', notices) = on_mirror_response junk t r.segment_idx r.role r.message in
        IsTraced op all n t' × All (Sound op all n) notices
  unfolding on_mirror_response
  on_mirror_response-Sound t r g v =
      elim (Bool-cases (t.completed || leb (length t.segments) r.segment_idx)) [
        | inl e ↦ rw e (v, tt)
        | inr e ↦ rw e (
            try_complete-Sound _ (record {
              same_op = v.same_op;
              same_length = length-update r.segment_idx r.role r.message t.segments ∙ v.same_length;
              recorded =
                  Recorded-update all r r.segment_idx 0 t.segments (omega arith) g v.recorded;
            }))
      ]

  run-Sound :
      (t : Ticket) (rs : List Response)
      → ((i : ℕ) (role : MirrorRole) → acked i role rs ≡ true → acked i role all ≡ true)
      → IsTraced op all n t
      → All (Sound op all n) (run junk t rs).1
  unfolding run
  run-Sound t [] sub v = tt
  run-Sound t (r ∷ rs) sub v =
      let (v', told) = on_mirror_response-Sound t r good v in
      All-append (Sound op all n) _ _ told (
        run-Sound (on_mirror_response junk t r.segment_idx r.role r.message).0 rs
          (λ i role e. sub i role (ground arith)) v')
    where
      good : (not (is_good r.message) || acked r.segment_idx r.role all) ≡ true
      good = ground (arith, own_ack r rs, sub r.segment_idx r.role)

Recorded-fresh :
    (all : List Response) (i : ℕ) (segs : List StripeSegment)
    → Recorded all i (map fresh_segment segs)
Recorded-fresh all i [] = tt
Recorded-fresh all i (seg ∷ segs) = (refl, refl, Recorded-fresh all (suc i) segs)

length-fresh : (segs : List StripeSegment) → length (map fresh_segment segs) ≡ length segs
length-fresh [] = refl
length-fresh (seg ∷ segs) = ap suc (length-fresh segs)

-- If the callback of a ticket is told of a success, then of every segment both mirrors answered
-- that they did their part, where the request is a write, and at least one did, where it is a read;
-- this whatever answers come, in whatever order.
pub run-secured :
    (junk : ℕ → ℕ) (uid : ℕ) (op : TicketOp) (total_length : ℕ) (segs : List StripeSegment)
    (callback : ℕ) (rs : List Response) (res : TaskResult) (i : ℕ)
    → (run junk (opened uid op total_length segs callback) rs).1 ≡ (callback, res) ∷ []
    → res.result ≡ true
    → i < length segs
    → secured op i rs ≡ true
unfolding init register_to_result_dispatcher
run-secured junk uid op total_length segs callback rs res i told h hi =
    Secured-elim op rs 0 i (length segs) (sound.0 h) (omega arith) (omega arith)
  where
    traced : IsTraced op rs (length segs) (opened uid op total_length segs callback)
    traced = record {
      same_op = refl;
      same_length = length-fresh segs;
      recorded = Recorded-fresh rs 0 segs;
    }

    sound : All (Sound op rs (length segs)) ((callback, res) ∷ [])
    sound = subst (All (Sound op rs (length segs))) told (
        run-Sound op rs (length segs) junk (opened uid op total_length segs callback) rs
          (λ i role e. e) traced)
