-- ===== src/Master/Crossing/Wakes.antt =====
-- The packets that arrive at the master while a write is stuck: `MinionProxy::OnMinionFDWakeUp`
-- (concrete/src/MinionProxy.cpp).
use io_tbased_raid.Prelude.{
  ℕ, ◌-◌, ◌≡◌, ◌≢◌, subst, sym, ap, ◌∙◌, Option, none, some, List, [], ◌∷◌, get_elem?, set,
  Option-cases, inl, inr,
}
use io_tbased_raid.Prelude.Maps.{lookup}
use io_tbased_raid.Prelude.Results.{ok, ◌>>=◌, bind-returned}
use io_tbased_raid.Message.{AMessage}
use io_tbased_raid.Packet.{MessageFactory, bufsiz, receive_from, check_packet}
use io_tbased_raid.NbdProxy.{NbdAbi}
use io_tbased_raid.MinionProxy.{MinionProxy, OnDone, Call, on_minion_fd_wake_up}
use io_tbased_raid.MinionManager.{MinionManager}
use io_tbased_raid.MinionManager.Requests.{noted_in, Absent}
use io_tbased_raid.Master.{Master, run_call, tell_results, after_packet, wake, wakes}
use io_tbased_raid.Master.Crossing.{
  handle_packet-noted, ok_injective, IsStuck, Absent-set, first_backup, run_call-IsStuck,
  tell_results-IsStuck,
}

-- A packet that is handled leaves the minion without the lost callback, and does not run it.
wake_up-noted :
    (factory : MessageFactory) (datagram : Option (List ℕ)) (p : MinionProxy) (c : OnDone)
    {r : MinionProxy × Call}
    → ((k : ℕ) → lookup k p.map ≢ some c)
    → on_minion_fd_wake_up factory datagram p ≡ ok r
    → ((k : ℕ) → lookup k r.0.map ≢ some c) × ((message : AMessage) → r.1 ≢ some (c, message))
unfolding on_minion_fd_wake_up
wake_up-noted factory datagram p c {r} h e =
    let (packet, _, e') =
      bind-returned (receive_from datagram (bufsiz - 1) >>= check_packet factory) _ e in
    subst
      (λ (r : MinionProxy × Call).
        ((k : ℕ) → lookup k r.0.map ≢ some c) × ((message : AMessage) → r.1 ≢ some (c, message)))
      (ok_injective e') (handle_packet-noted packet p c h)

Absent-at :
    (c : OnDone) (m : MinionManager) (i : ℕ) (p : MinionProxy)
    → get_elem? m.minions i ≡ some p
    → Absent c m
    → (k : ℕ) → lookup k p.map ≢ some c
Absent-at c m i p e a k e' = a i k (ap (noted_in k) e ∙ e')

module _ (abi : NbdAbi) (factory : MessageFactory) (junk : ℕ → ℕ) (t : ℕ) where
  wake-some :
      (i : ℕ) (datagram : Option (List ℕ)) (s : Master) (p : MinionProxy)
      → get_elem? s.manager.minions i ≡ some p
      → wake abi factory junk i datagram s
        ≡ (on_minion_fd_wake_up factory datagram p >>= after_packet abi junk i s)
  unfolding wake
  wake-some i datagram s p e = rw (e, wake)

  wake-none :
      (i : ℕ) (datagram : Option (List ℕ)) (s : Master)
      → get_elem? s.manager.minions i ≡ none
      → wake abi factory junk i datagram s ≡ ok s
  unfolding wake
  wake-none i datagram s e = rw (e, wake)

  after_packet-IsStuck :
      (i : ℕ) (s : Master) (p p' : MinionProxy) (call : Call) {s' : Master}
      → get_elem? s.manager.minions i ≡ some p
      → ((k : ℕ) → lookup k p'.map ≢ some (first_backup t))
      → ((message : AMessage) → call ≢ some (first_backup t, message))
      → IsStuck t s.manager
      → after_packet abi junk i s (p', call) ≡ ok s'
      → IsStuck t s'.manager
  unfolding after_packet
  after_packet-IsStuck i s p p' call found keeps other v e =
      let m : MinionManager = record s.manager { minions = set s.manager.minions i p' } in
      let lost : Absent (first_backup t) m =
        Absent-set (first_backup t) s.manager i p p' found keeps v.lost in
      let w : IsStuck t m = record {
        ticket = v.ticket;
        at = v.at;
        is_open = v.is_open;
        lost = lost;
      } in
      let (q, called, e') =
        bind-returned (run_call junk call m)
          (λ q. ok (tell_results abi q.1 (record s { manager = q.0 }))) e in
      subst (λ (s : Master). IsStuck t s.manager) (ok_injective e')
        (tell_results-IsStuck abi t q.1 (record s { manager = q.0 })
          (run_call-IsStuck junk t call m other w called))

  wake-IsStuck :
      (i : ℕ) (datagram : Option (List ℕ)) (s : Master) {s' : Master}
      → IsStuck t s.manager
      → wake abi factory junk i datagram s ≡ ok s'
      → IsStuck t s'.manager
  wake-IsStuck i datagram s v e = elim (Option-cases (get_elem? s.manager.minions i)) [
    | inl gone ↦
        subst (λ (s : Master). IsStuck t s.manager)
          (ok_injective (sym (wake-none i datagram s gone) ∙ e)) v
    | inr (p, found) ↦
        let (r, woken, e') =
          bind-returned (on_minion_fd_wake_up factory datagram p) (after_packet abi junk i s)
            (sym (wake-some i datagram s p found) ∙ e) in
        let (keeps, other) =
          wake_up-noted factory datagram p (first_backup t)
            (Absent-at (first_backup t) s.manager i p found v.lost) woken in
        after_packet-IsStuck i s p r.0 r.1 found keeps other v e'
  ]

  pub wakes-IsStuck :
      (packets : List (ℕ × Option (List ℕ))) (s : Master) {s' : Master}
      → IsStuck t s.manager
      → wakes abi factory junk packets s ≡ ok s'
      → IsStuck t s'.manager
  unfolding wakes
  wakes-IsStuck [] s v e = subst (λ (s : Master). IsStuck t s.manager) (ok_injective e) v
  wakes-IsStuck ((i, datagram) ∷ packets) s v e =
      let (s1, e1, e2) =
        bind-returned (wake abi factory junk i datagram s) (wakes abi factory junk packets) e in
      wakes-IsStuck packets s1 (wake-IsStuck i datagram s v e1) e2
