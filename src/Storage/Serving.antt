-- ===== src/Storage/Serving.antt =====
-- A minion with a file that serves one datagram of the master.
use io_tbased_raid.Prelude.{
  ℕ, ◌+◌, ◌^◌, ◌≤◌, ◌<◌, ◌≡◌, refl, sym, ap, ap₂, ◌∙◌, subst, Bool, true, some, List, [], ◌∷◌, ◌++◌,
  arith, length,
}
use io_tbased_raid.Prelude.Words.{copy_out}
use io_tbased_raid.Prelude.Results.{Result, ok}
use io_tbased_raid.Splitter.{StripeSegment}
use io_tbased_raid.Splitter.Loss.{bytes_of}
use io_tbased_raid.Message.{AMessage, read_send, write_send, read_receive, byte_of_bool, to_buffer}
use io_tbased_raid.Message.RoundTrip.{IsSendable}
use io_tbased_raid.Packet.{MessageFactory, bufsiz}
use io_tbased_raid.Minion.{FileStream, ArgsFactory, Minion, MinionArgs, init, get_task_args}
use io_tbased_raid.Minion.Replies.{minion_answers_read, minion_answers_write}
use io_tbased_raid.MinionManager.Ranges.{write_packet, datagram_of}
use io_tbased_raid.Storage.{IsFile, overwrite, run_args, serve, minion_serves}
use io_tbased_raid.Storage.Files.{byte_at, copy_out-drop, length-bytes_of, copy_out-bytes_of}

-- The packet of a segment can be sent and received, and its bytes are in a buffer of `total` bytes and in
-- a file of `size` bytes.
pub record IsPiece (size uid total : ℕ) (seg : StripeSegment) : Type 0 where
  pub uid_fits : uid < 2 ^ 64
  pub offset_fits : seg.local_offset < 2 ^ 64
  pub packet_fits : seg.length + 33 < bufsiz
  pub in_buffer : seg.buffer_offset + seg.length ≤ total
  pub in_file : seg.local_offset + seg.length ≤ size

module _ {ℓ} {S : Type ℓ} (stream : FileStream S) (junk : ℕ → ℕ) (takes : List ℕ → Bool)
    (all_taken : (d : List ℕ) → takes d ≡ true) (args : ArgsFactory) (messages : MessageFactory)
    (size : ℕ) (at : S → ℕ → ℕ) (IsOpen : S → Type 0) (laws : IsFile stream size at IsOpen) where
  served :
      (message : AMessage) (datagram : List ℕ) (a : MinionArgs) (m : Minion S)
      {q : Result (Minion S)}
      → to_buffer junk message ≡ ok datagram
      → get_task_args (init args messages).0 (init args messages).1 (some datagram) ≡ ok (some a)
      → run_args stream junk takes (some a) m ≡ q
      → minion_serves stream junk takes args messages (datagram_of junk message) m ≡ q
  unfolding serve
  served message datagram a m e got run = rw (e, datagram_of, serve) (rw got run)

  serve_write :
      (uid o n : ℕ) (bytes : List ℕ) (m : Minion S)
      → length bytes ≡ n
      → uid < 2 ^ 64
      → o < 2 ^ 64
      → n + 33 < bufsiz
      → o + n ≤ size
      → IsOpen m.file
      → (m' : Minion S) × (minion_serves stream junk takes args messages
            (datagram_of junk (write_send uid o n (some bytes)))
            m
          ≡ ok m')
        × IsOpen m'.file
        × ((p : ℕ) → at m'.file p ≡ overwrite (at m.file) o bytes p)
  serve_write uid o n bytes m e hu ho fits inside is_open =
      let (datagram, reply, a, e', got, run, _, key) =
        minion_answers_write stream junk takes all_taken args messages uid o bytes m
          (hu, ho, omega (arith, e)) (omega (arith, e)) in
      let (still, _, now) = laws.write_leaves o bytes m.file is_open (omega (arith, e)) in
      let m' : Minion S = record {
        file = stream.flush (stream.write bytes (stream.seekp o m.file));
        sent = m.sent ++ (reply ∷ []);
      } in
      (
        m',
        subst
            (λ k.
              minion_serves stream junk takes args messages
                (datagram_of junk (write_send uid o k (some bytes))) m
              ≡ ok m')
            e
            (served (write_send uid o (length bytes) (some bytes)) datagram a m e' got
              (rw key run)),
        still,
        now,
      )

  -- The write packet of a segment writes its bytes of the buffer.
  pub serve_piece :
      (uid : ℕ) (buffer : List ℕ) (seg : StripeSegment) (m : Minion S)
      → IsPiece size uid (length buffer) seg
      → IsOpen m.file
      → (m' : Minion S) × (minion_serves stream junk takes args messages
            (write_packet junk uid buffer seg)
            m
          ≡ ok m')
        × IsOpen m'.file
        × ((p : ℕ)
            → at m'.file p
              ≡ overwrite
                  (at m.file)
                  seg.local_offset
                  (bytes_of (byte_at buffer) seg.buffer_offset seg.length)
                  p)
  serve_piece uid buffer seg m piece is_open =
      rw (copy_out-drop junk seg.buffer_offset seg.length buffer piece.in_buffer) (
        serve_write uid seg.local_offset seg.length
          (bytes_of (byte_at buffer) seg.buffer_offset seg.length) m
          (length-bytes_of (byte_at buffer) seg.buffer_offset seg.length) piece.uid_fits
          piece.offset_fits piece.packet_fits piece.in_file is_open)

  pub serve_read :
      (uid o n : ℕ) (m : Minion S)
      → IsSendable (read_send uid o n)
      → n + 25 < 2 ^ 32
      → o + n ≤ size
      → IsOpen m.file
      → (m' : Minion S) × (reply : List ℕ) × (minion_serves stream junk takes args messages
            (datagram_of junk (read_send uid o n))
            m
          ≡ ok m')
        × (m'.sent ≡ m.sent ++ (reply ∷ []))
        × (to_buffer junk (read_receive uid (byte_of_bool true) n (some (bytes_of (at m.file) o n)))
            ≡ ok reply)
  serve_read uid o n m sendable fits inside is_open =
      let (datagram, reply, a, e, got, run, sent, key) =
        minion_answers_read stream junk takes all_taken args messages uid o n m sendable fits in
      let (still, good, same) = laws.read_leaves o n m.file is_open inside in
      let m' : Minion S = record {
        file = (stream.read n (stream.seekg o m.file)).0;
        sent = m.sent ++ (reply ∷ []);
      } in
      let data' : copy_out junk 0 (stream.read n (stream.seekg o m.file)).1 n
          ≡ bytes_of (at m.file) o n =
        ap (λ x. copy_out junk 0 x n) (laws.read_gives o n m.file is_open inside)
        ∙ copy_out-bytes_of junk 0 (at m.file) o n in
      (
        m',
        reply,
        served (read_send uid o n) datagram a m e got (rw key run),
        refl,
        ap₂ (λ b x. to_buffer junk (read_receive uid (byte_of_bool b) n (some x))) (sym good)
              (sym data')
            ∙ sent,
      )
