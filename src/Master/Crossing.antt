-- ===== src/Master/Crossing.antt =====
-- The invariant of a write over the border of two chunks, for `MinionProxy::OnMinionFDWakeUp`
-- (concrete/src/MinionProxy.cpp) and what it calls: an open ticket, and a callback that no minion has.
use io_tbased_raid.Prelude.{
  ℕ, ◌-◌, zero, suc, ◌<◌, ◌≡◌, ◌≢◌, refl, subst, sym, ap, ◌∙◌, false, ◌||◌, ◌==◌, ==_iff, leb,
  Option, none, some, List, [], ◌∷◌, arith, length, get_elem?, set, get_elem?-set, Bool-cases,
  Option-cases, inl, inr, if◌then◌else◌,
}
use io_tbased_raid.Prelude.Maps.{lookup, lookup-erase}
use io_tbased_raid.Prelude.Results.{ok, fault, ◌>>=◌, bind-returned}
use io_tbased_raid.Message.{AMessage, get_uid}
use io_tbased_raid.Packet.{
  MessageFactory, Packet, short_packet, size_mismatch, parsed, bufsiz, receive_from, check_packet,
}
use io_tbased_raid.Ticket.{
  Ticket, Notices, write, SegmentState, MirrorRole, primary, backup, is_segment_resolved, all_of,
  update_segment, try_complete, on_mirror_response,
}
use io_tbased_raid.NbdProxy.{NbdAbi}
use io_tbased_raid.ResponseManager.{on_ticket_done}
use io_tbased_raid.MinionProxy.{
  MinionProxy, OnDone, Call, take_callback, handle_packet, on_minion_fd_wake_up,
}
use io_tbased_raid.MinionManager.{MinionManager}
use io_tbased_raid.MinionManager.Requests.{noted_in, Absent}
use io_tbased_raid.Master.{Master, run_call, tell_results, after_packet, wake, wakes}
use io_tbased_raid.Master.OpenTicket.{IsOpen, on_mirror_response-IsOpen}
pub mod Wakes

-- A packet takes callbacks away, and runs only one that was noted.
pub handle_packet-noted :
    (packet : Packet) (p : MinionProxy) (c : OnDone)
    → ((k : ℕ) → lookup k p.map ≢ some c)
    → ((k : ℕ) → lookup k (handle_packet packet p).0.map ≢ some c)
      × ((message : AMessage) → (handle_packet packet p).1 ≢ some (c, message))
unfolding take_callback
handle_packet-noted short_packet p c h = (h, λ message e. cc)
handle_packet-noted size_mismatch p c h = (h, λ message e. cc)
handle_packet-noted (parsed message_type m) p c h = elim (Option-cases (lookup (get_uid m) p.map)) [
  | inl e ↦ rw (e, take_callback) (h, λ message e'. cc)
  | inr (c', e) ↦
      rw (e, take_callback)
        (
          (λ k e'. ground (arith, lookup-erase (get_uid m) k p.map, h k)),
          λ message e'. ground (arith, h (get_uid m)),
        )
]

pub ok_injective : {A : Type 0} {a b : A} → ok a ≡ ok b → a ≡ b
ok_injective e = cc

ok_not_fault : {A : Type 0} {a : A} → ok a ≡ fault → ⊥
ok_not_fault e = cc

some-injective : {A : Type 0} {a b : A} → some a ≡ some b → a ≡ b
some-injective e = cc

-- The state in which the write on ticket `t` is stuck.
pub record IsStuck (t : ℕ) (m : MinionManager) : Type 0 where
  pub ticket : Ticket
  pub at : get_elem? m.heap t ≡ some ticket
  pub is_open : IsOpen ticket
  pub lost : Absent (record { ticket = t; segment_idx = 0; role = backup }) m

pub lt_of_get : {A : Type 0} (xs : List A) (i : ℕ) {a : A} → get_elem? xs i ≡ some a → i < length xs
lt_of_get [] i e = cc
lt_of_get (x ∷ xs) zero e = omega arith
lt_of_get (x ∷ xs) (suc i) e = omega (arith, lt_of_get xs i e)

-- A minion in whose place one with fewer callbacks stands.
pub Absent-set :
    (c : OnDone) (m : MinionManager) (i : ℕ) (p p' : MinionProxy)
    → get_elem? m.minions i ≡ some p
    → ((k : ℕ) → lookup k p'.map ≢ some c)
    → Absent c m
    → Absent c (record m { minions = set m.minions i p' })
Absent-set c m i p p' e h a j k e' = elim (Bool-cases (i == j)) [
  | inl t ↦ h k (rw t at seen)
  | inr f ↦ a j k (rw f at seen)
]
  where
    view : get_elem? (set m.minions i p') j ≡ (if i == j then some p' else get_elem? m.minions j)
    view = get_elem?-set m.minions i j p' (lt_of_get m.minions i e)

    seen : noted_in k (if i == j then some p' else get_elem? m.minions j) ≡ some c
    seen = ap (noted_in k) (sym view) ∙ e'

-- The callback that is lost.
abbrev pub first_backup : ℕ → OnDone
first_backup t = record { ticket = t; segment_idx = 0; role = backup }

abbrev answered : (ℕ → ℕ) → OnDone → AMessage → MinionManager → Ticket → MinionManager × Notices
answered junk c message m tk =
    let (tk', notices) = on_mirror_response junk tk c.segment_idx c.role (some message) in
    (record m { heap = set m.heap c.ticket tk' }, notices)

run_call-found :
    (junk : ℕ → ℕ) (c : OnDone) (message : AMessage) (m : MinionManager) (tk : Ticket)
    → get_elem? m.heap c.ticket ≡ some tk
    → run_call junk (some (c, message)) m ≡ ok (answered junk c message m tk)
unfolding run_call
run_call-found junk c message m tk e = rw (e, run_call)

run_call-missing :
    (junk : ℕ → ℕ) (c : OnDone) (message : AMessage) (m : MinionManager)
    → get_elem? m.heap c.ticket ≡ none
    → run_call junk (some (c, message)) m ≡ fault
unfolding run_call
run_call-missing junk c message m e = rw (e, run_call)

is_first_backup :
    (c : OnDone) (t : ℕ) → c.ticket ≡ t → c.segment_idx ≡ 0 → c.role ≡ backup → c ≡ first_backup t
is_first_backup c t e e' e'' = λ i. record { ticket = e i; segment_idx = e' i; role = e'' i }

answered-IsStuck :
    (junk : ℕ → ℕ) (t : ℕ) (c : OnDone) (message : AMessage) (m : MinionManager) (tk : Ticket)
    → c ≢ first_backup t
    → get_elem? m.heap c.ticket ≡ some tk
    → IsStuck t m
    → IsStuck t (answered junk c message m tk).0
answered-IsStuck junk t c message m tk ne found v = elim (Bool-cases (c.ticket == t)) [
  | inl same ↦ record {
    ticket = tk';
    at = rw same at view;
    is_open =
        on_mirror_response-IsOpen junk tk c.segment_idx c.role (some message)
          (λ e e'. ne (is_first_backup c t ((==_iff c.ticket t).0 same) e e'))
          (subst IsOpen (mine ((==_iff c.ticket t).0 same)) v.is_open);
    lost = v.lost;
  }
  | inr other ↦ record {
    ticket = v.ticket;
    at = (rw other at view) ∙ v.at;
    is_open = v.is_open;
    lost = v.lost;
  }
]
  where
    tk' : Ticket
    tk' = (on_mirror_response junk tk c.segment_idx c.role (some message)).0

    view :
        get_elem? (set m.heap c.ticket tk') t
        ≡ (if c.ticket == t then some tk' else get_elem? m.heap t)
    view = get_elem?-set m.heap c.ticket t tk' (lt_of_get m.heap c.ticket found)

    mine : c.ticket ≡ t → v.ticket ≡ tk
    mine e = some-injective (sym v.at ∙ (ap (get_elem? m.heap) (sym e) ∙ found))

-- A callback of another mirror runs.
pub run_call-IsStuck :
    (junk : ℕ → ℕ) (t : ℕ) (call : Call) (m : MinionManager) {r : MinionManager × Notices}
    → ((message : AMessage) → call ≢ some (first_backup t, message))
    → IsStuck t m
    → run_call junk call m ≡ ok r
    → IsStuck t r.0
unfolding run_call
run_call-IsStuck junk t none m h v e = subst (λ r. IsStuck t r.0) (ok_injective e) v
run_call-IsStuck junk t (some (c, message)) m h v e =
    elim (Option-cases (get_elem? m.heap c.ticket)) [
      | inl gone ↦ absurd (ok_not_fault (sym e ∙ run_call-missing junk c message m gone))
      | inr (tk, found) ↦
          subst (λ r. IsStuck t r.0)
            (ok_injective (sym (run_call-found junk c message m tk found) ∙ e))
            (answered-IsStuck junk t c message m tk
              (λ e'. h message (ap (λ x. some (x, message)) e')) found v)
    ]

pub tell_results-IsStuck :
    (abi : NbdAbi) (t : ℕ) (notices : Notices) (s : Master)
    → IsStuck t s.manager
    → IsStuck t (tell_results abi notices s).manager
unfolding tell_results
tell_results-IsStuck abi t [] s v = v
tell_results-IsStuck abi t ((callback, result) ∷ notices) s v =
    let (responses', proxy') = on_ticket_done abi result s.manager.responses s.proxy in
    tell_results-IsStuck abi t notices
      (record { manager = record s.manager { responses = responses' }; proxy = proxy' })
      (record { ticket = v.ticket; at = v.at; is_open = v.is_open; lost = v.lost })
