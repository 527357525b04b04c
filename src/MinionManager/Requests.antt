-- ===== src/MinionManager/Requests.antt =====
-- The loop over the segments of a request (concrete/src/MinionManager.cpp): which datagrams the minions
-- are sent, and which callbacks they have.
use io_tbased_raid.Prelude.{
  ℕ, suc, ◌<◌, ◌≡◌, refl, sym, ap, ◌∙◌, true, Option, none, some, List, [], ◌∷◌, ◌++◌, ◌==◌, ◌&&◌,
  if◌then◌else◌, arith, append_assoc, append-nil, length, get_elem?, set, length-set, get_elem?-set,
  get_elem?-of_lt, ==_iff, Bool-cases, inl, inr, ◌≢◌, All,
}
use io_tbased_raid.Prelude.Maps.{lookup, insert, lookup-insert}
use io_tbased_raid.Prelude.Results.{ok}
use mathlib.Core.Path.{subst}
use io_tbased_raid.Splitter.{StripeSegment}
use io_tbased_raid.MinionProxy.{MinionProxy, OnDone}
use io_tbased_raid.Ticket.{primary, backup}
use io_tbased_raid.MinionManager.{MinionManager, Sender, at_minion, send_segments}

-- The datagrams that the socket of minion `i` took, and the callback that it has for a uid.
abbrev pub sent_of : Option MinionProxy → List (List ℕ)
sent_of none = []
sent_of (some p) = p.sent

abbrev pub noted_in : ℕ → Option MinionProxy → Option OnDone
noted_in uid none = none
noted_in uid (some p) = lookup uid p.map

abbrev pub sent_to : MinionManager → ℕ → List (List ℕ)
sent_to m i = sent_of (get_elem? m.minions i)

abbrev pub callback_of : MinionManager → ℕ → ℕ → Option OnDone
callback_of m i uid = noted_in uid (get_elem? m.minions i)

-- A sender that notes the callback under `uid` and sends the datagram of the segment.
abbrev pub Sends : Sender → ℕ → (StripeSegment → List ℕ) → Type 0
Sends send uid datagram =
    (seg : StripeSegment) (c : OnDone) (p : MinionProxy)
    → send seg c p
      ≡ (record { map = insert uid c p.map; sent = p.sent ++ (datagram seg ∷ []) }, ok tt)

-- How the two views change when minion `k` is sent `d` with the callback `c`.
pub record Changes (uid k : ℕ) (c : OnDone) (d : List ℕ) (m m' : MinionManager) : Type 0 where
  pub same_length : length m'.minions ≡ length m.minions
  pub same_heap : m'.heap ≡ m.heap
  pub same_responses : m'.responses ≡ m.responses
  pub sends : (i : ℕ) → sent_to m' i ≡ sent_to m i ++ (if k == i then d ∷ [] else [])
  pub notes :
      (i key : ℕ)
      → callback_of m' i key ≡ (if (k == i) && (uid == key) then some c else callback_of m i key)

-- The two views of a list of minions in which the one at `k` is given another task.
module _ (xs : List MinionProxy) (k uid : ℕ) (c : OnDone) (d : List ℕ) (p : MinionProxy)
    (found : get_elem? xs k ≡ some p) (h : k < length xs) where
  abbrev tasked : MinionProxy
  tasked = record { map = insert uid c p.map; sent = p.sent ++ (d ∷ []) }

  same_minion : (i : ℕ) → (k == i) ≡ true → get_elem? xs i ≡ some p
  same_minion i t = ap (get_elem? xs) (sym ((==_iff k i).0 t)) ∙ found

  sent-tasked :
      (i : ℕ)
      → sent_of (get_elem? (set xs k tasked) i)
        ≡ sent_of (get_elem? xs i) ++ (if k == i then d ∷ [] else [])
  sent-tasked i = ap sent_of (get_elem?-set xs k i tasked h) ∙ (elim (Bool-cases (k == i)) [
    | inl t ↦ rw (t, same_minion i t)
    | inr f ↦ rw f (sym (append-nil (sent_of (get_elem? xs i))))
  ])

  noted-tasked :
      (i key : ℕ)
      → noted_in key (get_elem? (set xs k tasked) i)
        ≡ (if (k == i) && (uid == key) then some c else noted_in key (get_elem? xs i))
  noted-tasked i key =
      ap (noted_in key) (get_elem?-set xs k i tasked h) ∙ (elim (Bool-cases (k == i)) [
        | inl t ↦ rw (t, same_minion i t) (lookup-insert uid key c p.map)
        | inr f ↦ rw f
      ])

module _ (send : Sender) (uid : ℕ) (datagram : StripeSegment → List ℕ)
    (ok_send : Sends send uid datagram) where
  pub at_minion-Changes :
      (k : ℕ) (seg : StripeSegment) (c : OnDone) (m : MinionManager)
      → k < length m.minions
      → (m' : MinionManager) × (at_minion k (send seg c) m ≡ (m', ok tt))
        × Changes uid k c (datagram seg) m m'
  unfolding at_minion
  at_minion-Changes k seg c m h =
      let (p, e) = get_elem?-of_lt m.minions k h in
      (
        record m { minions = set m.minions k (tasked m.minions k uid c (datagram seg) p e h) },
        rw (e, at_minion) (rw (ok_send seg c p) refl),
        record {
          same_length = length-set m.minions k _;
          same_heap = refl;
          same_responses = refl;
          sends = sent-tasked m.minions k uid c (datagram seg) p e h;
          notes = noted-tasked m.minions k uid c (datagram seg) p e h;
        },
      )

-- The datagrams of the segments that name minion `i`, in the order of the loop.
abbrev pub packets : (StripeSegment → List ℕ) → ℕ → List StripeSegment → List (List ℕ)
packets datagram i [] = []
packets datagram i (seg ∷ segs) =
    (if seg.primary_minion_index == i then datagram seg ∷ [] else [])
    ++ ((if seg.backup_minion_index == i then datagram seg ∷ [] else []) ++ packets datagram i segs)

-- A callback that no minion has noted.
abbrev pub Absent : OnDone → MinionManager → Type 0
Absent c m = (i key : ℕ) → callback_of m i key ≢ some c

pub Changes-Absent :
    {uid k : ℕ} {c c' : OnDone} {d : List ℕ} {m m' : MinionManager}
    → Changes uid k c d m m'
    → c ≢ c'
    → Absent c' m
    → Absent c' m'
Changes-Absent {uid} {k} v ne a i key e = ground (arith, v.notes i key, a i key)

-- The minions that a segment names exist.
abbrev pub Named : ℕ → StripeSegment → Type 0
Named n seg = (seg.primary_minion_index < n) × (seg.backup_minion_index < n)

-- What the loop did from segment `idx` on: everything was sent, and callbacks of earlier segments
-- were not noted again.
pub record Sent (datagram : StripeSegment → List ℕ) (idx : ℕ) (segs : List StripeSegment)
    (m m' : MinionManager) : Type 0 where
  pub same_length : length m'.minions ≡ length m.minions
  pub same_heap : m'.heap ≡ m.heap
  pub sends : (i : ℕ) → sent_to m' i ≡ sent_to m i ++ packets datagram i segs
  pub absent : (c : OnDone) → c.segment_idx < idx → Absent c m → Absent c m'

regroup : (a b c d : List (List ℕ)) → (a ++ b) ++ c ++ d ≡ a ++ (b ++ (c ++ d))
regroup a b c d = append_assoc (a ++ b) c d ∙ append_assoc a b (c ++ d)

later : {c c' : OnDone} (idx : ℕ) → c ≡ c' → c'.segment_idx < idx → c.segment_idx ≡ idx → ⊥
later idx e h h' = omega (arith, ap (λ (x : OnDone). x.segment_idx) e)

module _ (send : Sender) (uid : ℕ) (datagram : StripeSegment → List ℕ)
    (ok_send : Sends send uid datagram) (ticket : ℕ) where
  pub send_segments-Sent :
      (idx : ℕ) (segs : List StripeSegment) (m : MinionManager)
      → All (Named (length m.minions)) segs
      → (m' : MinionManager) × (send_segments send ticket idx segs m ≡ (m', ok tt))
        × Sent datagram idx segs m m'
  unfolding send_segments
  send_segments-Sent idx [] m named = (
    m,
    refl,
    record {
      same_length = refl;
      same_heap = refl;
      sends = λ i. sym (append-nil (sent_to m i));
      absent = λ c h a. a;
    },
  )
  send_segments-Sent idx (seg ∷ segs) m named =
      let (m1, e1, v1) =
        at_minion-Changes send uid datagram ok_send seg.primary_minion_index seg
          (record { ticket = ticket; segment_idx = idx; role = primary }) m named.0.0 in
      let (m2, e2, v2) =
        at_minion-Changes send uid datagram ok_send seg.backup_minion_index seg
          (record { ticket = ticket; segment_idx = idx; role = backup }) m1
          (omega (arith, v1.same_length)) in
      let (m3, e3, v3) =
        send_segments-Sent (suc idx) segs m2
          (subst (λ n. All (Named n) segs) (sym (v2.same_length ∙ v1.same_length)) named.1) in
      (
        m3,
        rw (e1, e2, e3) refl,
        record {
          same_length = v3.same_length ∙ (v2.same_length ∙ v1.same_length);
          same_heap = v3.same_heap ∙ (v2.same_heap ∙ v1.same_heap);
          sends = λ i.
              v3.sends i
              ∙ (rw (v2.sends i, v1.sends i) (regroup (sent_to m i) _ _ (packets datagram i segs)));
          absent = λ c h a. v3.absent c (omega arith) (
              Changes-Absent v2 (λ e. later idx e h refl)
                (Changes-Absent v1 (λ e. later idx e h refl) a));
        },
      )
