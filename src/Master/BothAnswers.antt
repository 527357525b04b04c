-- ===== src/Master/BothAnswers.antt =====
-- The answers of both mirrors to a write inside one chunk, at the master: concrete/src/MinionProxy.cpp, Ticket.cpp and
-- ResponseManager.cpp.
use io_tbased_raid.Prelude.{
  ℕ, ◌^◌, ◌<◌, ◌≡◌, ◌≢◌, refl, sym, ap, ◌∙◌, some, List, [], ◌∷◌, ◌++◌, arith, length, get_elem?,
  get_elem?-set, set,
}
use io_tbased_raid.Prelude.Maps.{lookup}
use io_tbased_raid.Prelude.Results.{ok}
use io_tbased_raid.Splitter.{StripeSegment}
use io_tbased_raid.Message.{write_receive, write_receive_type, to_buffer}
use io_tbased_raid.Packet.{MessageFactory}
use io_tbased_raid.Packet.Delivery.{Makes}
use io_tbased_raid.Ticket.{Ticket, Notices, write, MirrorRole, primary, backup, on_mirror_response}
use io_tbased_raid.NbdProxy.{NbdAbi, NbdReply, NbdProxy, outgoing}
use io_tbased_raid.ResponseManager.{ticket_done_callback, ResponseManager}
use io_tbased_raid.MinionProxy.{MinionProxy}
use io_tbased_raid.MinionManager.{MinionManager}
use io_tbased_raid.Master.{Master, tell_results, wake}
use io_tbased_raid.Master.Crossing.{lt_of_get}
use io_tbased_raid.Master.Replying.{run_call-at, tell_results-open, wake-runs}
use io_tbased_raid.Master.InOneChunk.{HasTask}
use io_tbased_raid.Master.WriteTicket.{
  minion_of, other, on_done, write_result, half, first_answer, last_answer,
}

-- The minion of either role, and the task it has noted.
noted_at :
    {uid len : ℕ} {seg : StripeSegment} {m m' : MinionManager} (role : MirrorRole)
    → HasTask write uid len seg m m'
    → (p : MinionProxy) × (get_elem? m'.minions (minion_of role seg) ≡ some p)
      × (lookup uid p.map ≡ some (on_done (length m.heap) role))
noted_at primary has = (has.minion, has.found, has.noted)
noted_at backup has = (has.mirror, has.mirror_found, has.mirror_noted)

apart_at :
    {uid len : ℕ} {seg : StripeSegment} {m m' : MinionManager} (role : MirrorRole)
    → HasTask write uid len seg m m'
    → minion_of role seg ≢ minion_of (other role) seg
apart_at primary has = λ e. has.apart (sym e)
apart_at backup has = has.apart

module _ (abi : NbdAbi) (factory : MessageFactory) (junk : ℕ → ℕ) (uid len : ℕ)
    (seg : StripeSegment) (m m' : MinionManager) (has : HasTask write uid len seg m m')
    (hu : uid < 2 ^ 64) (makes : Makes factory write_receive_type) (proxy : NbdProxy) where
  -- The packet of the mirror that answers first.
  wake-first :
      (role : MirrorRole) (x : ℕ)
      → x < 256
      → (datagram : List ℕ) × (s : Master) × (to_buffer junk (write_receive uid x) ≡ ok datagram)
        × (wake abi factory junk
              (minion_of role seg)
              (some datagram)
              (record { manager = m'; proxy = proxy })
            ≡ ok s)
        × (s.proxy ≡ proxy)
        × (s.manager.responses ≡ m'.responses)
        × (get_elem? s.manager.heap (length m.heap)
            ≡ some (half uid len seg ticket_done_callback role x))
        × (get_elem? s.manager.minions (minion_of (other role) seg)
            ≡ get_elem? m'.minions (minion_of (other role) seg))
  unfolding tell_results
  wake-first role x hx =
      let (p, found, noted) = noted_at role has in
      let (datagram, p', e, woken) =
        wake-runs abi factory junk (write_receive uid x) (minion_of role seg)
          (record { manager = m'; proxy = proxy }) p (on_done (length m.heap) role) (hu, hx)
          (omega arith) makes found noted in
      let minions : List MinionProxy = set m'.minions (minion_of role seg) p' in
      let run =
        run_call-at junk (on_done (length m.heap) role) (write_receive uid x)
          (record m' { minions = minions }) has.ticket
          (first_answer junk uid len seg ticket_done_callback role x) in
      (
        datagram,
        record {
          manager = record m' {
            minions = minions;
            heap = set m'.heap (length m.heap) (half uid len seg ticket_done_callback role x);
          };
          proxy = proxy;
        },
        e,
        woken ∙ rw run refl,
        refl,
        refl,
        get_elem?-set m'.heap (length m.heap) (length m.heap) _
              (lt_of_get m'.heap (length m.heap) has.ticket)
            ∙ ground arith,
        get_elem?-set m'.minions (minion_of role seg) (minion_of (other role) seg) p'
              (lt_of_get m'.minions (minion_of role seg) found)
            ∙ ground (arith, apart_at role has),
      )

  -- The packet of the other mirror.
  wake-last :
      (role : MirrorRole) (x y : ℕ) (s : Master) {prepared : NbdReply}
      → y < 256
      → get_elem? s.manager.heap (length m.heap)
        ≡ some (half uid len seg ticket_done_callback role x)
      → get_elem? s.manager.minions (minion_of (other role) seg)
        ≡ get_elem? m'.minions (minion_of (other role) seg)
      → lookup uid s.manager.responses.requests ≡ some tt
      → lookup uid s.proxy.responses ≡ some prepared
      → (datagram : List ℕ) × (s' : Master) × (to_buffer junk (write_receive uid y) ≡ ok datagram)
        × (wake abi factory junk (minion_of (other role) seg) (some datagram) s ≡ ok s')
        × (s'.proxy.sent ≡ s.proxy.sent ++ outgoing abi prepared (write_result uid len x y))
  wake-last role x y s hy halfway same open_request kept =
      let (p, found, noted) = noted_at (other role) has in
      let (datagram, p', e, woken) =
        wake-runs abi factory junk (write_receive uid y) (minion_of (other role) seg) s p
          (on_done (length m.heap) (other role)) (hu, hy) (omega arith) makes (same ∙ found)
          noted in
      let m1 : MinionManager = record s.manager {
        minions = set s.manager.minions (minion_of (other role) seg) p';
      } in
      let half_ticket : Ticket = half uid len seg ticket_done_callback role x in
      let t : Ticket =
        (on_mirror_response junk half_ticket 0 (other role) (some (write_receive uid y))).0 in
      let run =
        run_call-at junk (on_done (length m.heap) (other role)) (write_receive uid y) m1 halfway (
          ap (λ (n : Notices). (t, n))
            (last_answer junk uid len seg ticket_done_callback role x y)) in
      let s1 : Master = record s { manager = record m1 { heap = set m1.heap (length m.heap) t } } in
      (
        datagram,
        tell_results abi ((ticket_done_callback, write_result uid len x y) ∷ []) s1,
        e,
        woken ∙ rw run refl,
        tell_results-open abi (write_result uid len x y) s1 open_request kept,
      )

  -- Both packets, in either order.
  pub wake_both :
      (role : MirrorRole) (x y : ℕ) {prepared : NbdReply}
      → x < 256
      → y < 256
      → lookup uid m'.responses.requests ≡ some tt
      → lookup uid proxy.responses ≡ some prepared
      → (s s' : Master) × (first last : List ℕ) × (to_buffer junk (write_receive uid x) ≡ ok first)
        × (to_buffer junk (write_receive uid y) ≡ ok last)
        × (wake abi factory junk
              (minion_of role seg)
              (some first)
              (record { manager = m'; proxy = proxy })
            ≡ ok s)
        × (s.proxy ≡ proxy)
        × (wake abi factory junk (minion_of (other role) seg) (some last) s ≡ ok s')
        × (s'.proxy.sent ≡ proxy.sent ++ outgoing abi prepared (write_result uid len x y))
  wake_both role x y {prepared} hx hy open_request kept =
      let (first, s, e, woken, same, responses, halfway, rest) = wake-first role x hx in
      let (last, s', e', woken', sent) =
        wake-last role x y s hy halfway rest
          (ap (λ (r : ResponseManager). lookup uid r.requests) responses ∙ open_request)
          (ap (λ (p : NbdProxy). lookup uid p.responses) same ∙ kept) in
      (
        s,
        s',
        first,
        last,
        e,
        e',
        woken,
        same,
        woken',
        sent
            ∙ ap (λ (p : NbdProxy). p.sent ++ outgoing abi prepared (write_result uid len x y))
                same,
      )
