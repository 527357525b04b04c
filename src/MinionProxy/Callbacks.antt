-- ===== src/MinionProxy/Callbacks.antt =====
-- The map of callbacks of concrete/src/MinionProxy.cpp, when a reply arrives and when a second task is
-- added under the same uid.
use io_tbased_raid.Prelude.{
  ℕ, ◌<◌, ◌≡◌, refl, sym, ap, ◌∙◌, Bool, true, none, some, List, [], ◌∷◌, ◌++◌, arith, append_assoc,
}
use io_tbased_raid.Prelude.Maps.{lookup, insert, lookup-insert, lookup-erase}
use io_tbased_raid.Prelude.Results.{ok}
use io_tbased_raid.Message.{
  AMessage, read_send, write_send, read_receive, write_receive, get_uid, get_size, get_message_type,
  to_buffer,
}
use io_tbased_raid.Message.RoundTrip.{IsSendable, seen}
use io_tbased_raid.Packet.{MessageFactory, bufsiz}
use io_tbased_raid.Packet.Delivery.{Makes, deliver}
use io_tbased_raid.MinionProxy.{
  MinionProxy, OnDone, send_task, send_message, take_callback, on_minion_fd_wake_up,
}

pub take_callback-found :
    (message : AMessage) (p : MinionProxy) {c : OnDone}
    → lookup (get_uid message) p.map ≡ some c
    → ((take_callback message p).1 ≡ some (c, message))
      × (lookup (get_uid message) (take_callback message p).0.map ≡ none)
unfolding take_callback
take_callback-found message p e = rw (e, take_callback) (refl, rw lookup-erase (ground arith))

get_uid-seen : (junk : ℕ → ℕ) (m : AMessage) → IsSendable m → get_uid (seen junk m) ≡ get_uid m
get_uid-seen junk (read_send uid offset length) h = refl
get_uid-seen junk (write_send uid offset length none) h = refl
get_uid-seen junk (write_send uid offset length (some bytes)) h = refl
get_uid-seen junk (read_receive uid result length none) h = refl
get_uid-seen junk (read_receive uid result length (some bytes)) h = refl
get_uid-seen junk (write_receive uid result) h = refl

-- A reply that a minion sends whole, for a task that is noted, runs the callback of that task with
-- the message as it was sent, and the task is forgotten.
pub wake_up-reply :
    (factory : MessageFactory) (junk : ℕ → ℕ) (m : AMessage) (p : MinionProxy) (c : OnDone)
    → IsSendable m
    → get_size m < bufsiz
    → Makes factory (get_message_type m)
    → lookup (get_uid m) p.map ≡ some c
    → (bytes : List ℕ) × (p' : MinionProxy) × (to_buffer junk m ≡ ok bytes)
      × (on_minion_fd_wake_up factory (some bytes) p ≡ ok (p', some (c, seen junk m)))
      × (lookup (get_uid m) p'.map ≡ none)
unfolding on_minion_fd_wake_up
wake_up-reply factory junk m p c h fits makes noted =
    let (bytes, sent, received) = deliver factory junk m h fits makes in
    let e : get_uid (seen junk m) ≡ get_uid m = get_uid-seen junk m h in
    let (run, gone) = take_callback-found (seen junk m) p (ap (λ u. lookup u p.map) e ∙ noted) in
    (
      bytes,
      (take_callback (seen junk m) p).0,
      sent,
      rw received (ap ok (ap (λ call. ((take_callback (seen junk m) p).0, call)) run)),
      ap (λ u. lookup u (take_callback (seen junk m) p).0.map) (sym e) ∙ gone,
    )

-- A message that is written and taken notes its callback and goes out.
pub send_message-ok :
    (junk : ℕ → ℕ) (takes : List ℕ → Bool) (uid : ℕ) (c : OnDone) (m : AMessage) (d : List ℕ)
    (p : MinionProxy)
    → to_buffer junk m ≡ ok d
    → takes d ≡ true
    → send_message junk takes uid c m p
      ≡ (record { map = insert uid c p.map; sent = p.sent ++ (d ∷ []) }, ok tt)
unfolding send_message send_task
send_message-ok junk takes uid c m d p e t = rw (e, send_message) (rw (t, send_task) refl)

pub lookup-insert_self :
    (k : ℕ) (c : OnDone) (m : List (ℕ × OnDone)) → lookup k (insert k c m) ≡ some c
lookup-insert_self k c m = rw lookup-insert (ground arith)

-- Two tasks for the same uid: both are sent, but only the second one's callback is noted. So the
-- first reply, whichever of the two it answers, runs the second callback, and no callback is left
-- for the other reply.
pub second_task_replaces :
    (junk : ℕ → ℕ) (takes : List ℕ → Bool) (uid : ℕ) (c c' : OnDone) (m m' r : AMessage)
    (d d' : List ℕ) (p : MinionProxy)
    → to_buffer junk m ≡ ok d
    → to_buffer junk m' ≡ ok d'
    → takes d ≡ true
    → takes d' ≡ true
    → get_uid r ≡ uid
    → let p' = (send_message junk takes uid c' m' (send_message junk takes uid c m p).0).0 in
      (p'.sent ≡ p.sent ++ (d ∷ d' ∷ []))
      × ((take_callback r p').1 ≡ some (c', r))
      × (lookup uid (take_callback r p').0.map ≡ none)
second_task_replaces junk takes uid c c' m m' r d d' p e e' t t' u =
    let once : MinionProxy = record { map = insert uid c p.map; sent = p.sent ++ (d ∷ []) } in
    let twice : MinionProxy = record {
      map = insert uid c' once.map;
      sent = once.sent ++ (d' ∷ []);
    } in
    let (run, gone) =
      take_callback-found r twice
        (ap (λ k. lookup k (insert uid c' once.map)) u ∙ lookup-insert_self uid c' once.map) in
    rw
      (
        send_message-ok junk takes uid c m d p e t,
        send_message-ok junk takes uid c' m' d' once e' t',
      )
      (
        append_assoc p.sent (d ∷ []) (d' ∷ []),
        run,
        ap (λ k. lookup k (take_callback r twice).0.map) (sym u) ∙ gone,
      )
