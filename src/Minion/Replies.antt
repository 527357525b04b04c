-- ===== src/Minion/Replies.antt =====
-- What the minion of concrete/src/MasterProxy.cpp and MinionCommands.cpp does with a request, from the
-- datagram to the reply.
use io_tbased_raid.Prelude.{
  ℕ, ◌+◌, ◌^◌, ◌<◌, ◌≡◌, refl, ap, Bool, true, false, Option, none, some, List, [], ◌∷◌, ◌++◌,
  arith, length,
}
use io_tbased_raid.Prelude.Words.{copy_out, copy_out_past}
use io_tbased_raid.Prelude.Results.{Result, ok}
use io_tbased_raid.Factory
use io_tbased_raid.Factory.{Factory, create-register}
use io_tbased_raid.Message.{
  AMessage, read_send, write_send, read_receive, write_receive, byte_of_bool, to_buffer,
  read_send_type, write_send_type, copy_bytes,
}
use io_tbased_raid.Message.RoundTrip.{IsSendable, length-to_buffer}
use io_tbased_raid.Packet.{MessageFactory, bufsiz}
use io_tbased_raid.Packet.Delivery.{Makes, deliver}
use io_tbased_raid.Minion.{
  FileStream, TaskArgs, MinionArgs, get_key, minion_read_args, minion_write_args, ArgsFactory,
  Minion, init, get_task_args, read_from_file, write_to_file, send_response, read_command,
  write_command,
}

-- The two factories after `Init` make the classes of the master's messages.
init-Makes-read :
    (args : ArgsFactory) (messages : MessageFactory) → Makes (init args messages).1 read_send_type
unfolding init
init-Makes-read args messages =
    (read_send 0 0 0, rw create-register (rw create-register refl), refl)

init-Makes-write :
    (args : ArgsFactory) (messages : MessageFactory) → Makes (init args messages).1 write_send_type
unfolding init
init-Makes-write args messages = (write_send 0 0 0 none, rw create-register refl, refl)

init-read_args :
    (args : ArgsFactory) (messages : MessageFactory) (uid : ℕ) (a : TaskArgs)
    → Factory.create read_send_type (uid, a) (init args messages).0 ≡ ok (minion_read_args uid a)
unfolding init
init-read_args args messages uid a = rw create-register (rw create-register refl)

init-write_args :
    (args : ArgsFactory) (messages : MessageFactory) (uid : ℕ) (a : TaskArgs)
    → Factory.create write_send_type (uid, a) (init args messages).0 ≡ ok (minion_write_args uid a)
unfolding init
init-write_args args messages uid a = rw create-register refl

module _ (args : ArgsFactory) (messages : MessageFactory) (junk : ℕ → ℕ) where
  abbrev received : List ℕ → Result (Option MinionArgs)
  received datagram = get_task_args (init args messages).0 (init args messages).1 (some datagram)

  -- The read message of the master, received by a minion that is initialised, gives its arguments.
  pub get_task_args-read :
      (uid offset len : ℕ)
      → IsSendable (read_send uid offset len)
      → (datagram : List ℕ) × (to_buffer junk (read_send uid offset len) ≡ ok datagram)
        × (received datagram
            ≡ ok (
                some
                  (minion_read_args uid (record { offset = offset; length = len; buffer = none }))))
  unfolding get_task_args
  get_task_args-read uid offset len h =
      let (datagram, e, got) =
        deliver (init args messages).1 junk (read_send uid offset len) h (omega arith)
          (init-Makes-read args messages) in
      (
        datagram,
        e,
        rw (
          got,
          init-read_args args messages uid
              (record { offset = offset; length = len; buffer = none }),
        ),
      )

  pub get_task_args-write :
      (uid offset : ℕ) (bytes : List ℕ)
      → IsSendable (write_send uid offset (length bytes) (some bytes))
      → length bytes + 33 < bufsiz
      → (datagram : List ℕ) × (to_buffer junk (write_send uid offset (length bytes) (some bytes))
          ≡ ok datagram)
        × (received datagram
            ≡ ok (
                some (
                  minion_write_args uid (record {
                    offset = offset;
                    length = length bytes;
                    buffer = some (bytes ++ (junk (length bytes) ∷ []));
                  }))))
  unfolding get_task_args
  get_task_args-write uid offset bytes h fits =
      let (datagram, e, got) =
        deliver (init args messages).1 junk (write_send uid offset (length bytes) (some bytes)) h
          (omega arith) (init-Makes-write args messages) in
      (
        datagram,
        e,
        rw (
          got,
          init-write_args args messages,
          copy_out_past junk 0 (length bytes) bytes (omega arith),
        ),
      )

send_response-ok {ℓ} :
    {S : Type ℓ} (junk : ℕ → ℕ) (takes : List ℕ → Bool) (message : AMessage) (m : Minion S)
    (d : List ℕ)
    → to_buffer junk message ≡ ok d
    → takes d ≡ true
    → send_response junk takes message m ≡ ok (record m { sent = m.sent ++ (d ∷ []) })
unfolding send_response
send_response-ok junk takes message m d e t = rw (e, t)

byte_lt : (b : Bool) → byte_of_bool b < 256
byte_lt true = omega arith
byte_lt false = omega arith

-- The first bytes of an array with one byte more.
copy_out_front :
    (junk : ℕ → ℕ) (i : ℕ) (bytes rest : List ℕ)
    → copy_out junk i (bytes ++ rest) (length bytes) ≡ bytes
unfolding copy_out
copy_out_front junk i [] rest = refl
copy_out_front junk i (b ∷ bytes) rest = ap (λ t. b ∷ t) (copy_out_front junk (i + 1) bytes rest)

module _ {ℓ} {S : Type ℓ} (stream : FileStream S) (junk : ℕ → ℕ) (takes : List ℕ → Bool)
    (all_taken : (d : List ℕ) → takes d ≡ true) (args : ArgsFactory)
    (messages : MessageFactory) where
  open stream use {seekg, read, seekp, write, flush, good}

  -- The read message of the master, with a network that takes every datagram: a minion that is
  -- initialised makes read arguments of it, reads its file once, at the offset and the length of the
  -- message, and sends one reply: the uid, the state of the stream after that, and the bytes that it
  -- stored.
  pub minion_answers_read :
      (uid offset len : ℕ) (m : Minion S)
      → IsSendable (read_send uid offset len)
      → len + 25 < 2 ^ 32
      → let (file', bytes) = read len (seekg offset m.file) in
        (datagram reply : List ℕ) × (a : MinionArgs) × (to_buffer junk (read_send uid offset len)
          ≡ ok datagram)
        × (get_task_args (init args messages).0 (init args messages).1 (some datagram)
            ≡ ok (some a))
        × (read_command stream junk takes a m
            ≡ ok (record { file = file'; sent = m.sent ++ (reply ∷ []) }))
        × (to_buffer junk
              (read_receive uid (byte_of_bool (good file')) len (some (copy_out junk 0 bytes len)))
            ≡ ok reply)
        × (get_key a ≡ 1)
  unfolding read_command read_from_file
  minion_answers_read uid offset len m h fits =
      let (datagram, e, got) = get_task_args-read args messages junk uid offset len h in
      let (file', bytes) = read len (seekg offset m.file) in
      let message : AMessage =
        read_receive uid (byte_of_bool (good file')) len (some (copy_out junk 0 bytes len)) in
      let (reply, e', _) = length-to_buffer junk message (h.0, byte_lt (good file'), fits) in
      (
        datagram,
        reply,
        minion_read_args uid _,
        e,
        got,
        rw
            (send_response-ok junk takes message (record m { file = file' }) reply e'
              (all_taken reply))
            refl,
        e',
        refl,
      )

  -- The write message of the master whose packet fits, with a network that takes every datagram: a
  -- minion that is initialised makes write arguments of it, writes its file once, at the offset of the
  -- message, with the bytes that the master was given, and its one reply is the uid and the state of
  -- the stream after that.
  pub minion_answers_write :
      (uid offset : ℕ) (bytes : List ℕ) (m : Minion S)
      → IsSendable (write_send uid offset (length bytes) (some bytes))
      → length bytes + 33 < bufsiz
      → let file' = flush (write bytes (seekp offset m.file)) in
        (datagram reply : List ℕ) × (a : MinionArgs) × (to_buffer junk
            (write_send uid offset (length bytes) (some bytes))
          ≡ ok datagram)
        × (get_task_args (init args messages).0 (init args messages).1 (some datagram)
            ≡ ok (some a))
        × (write_command stream junk takes a m
            ≡ ok (record { file = file'; sent = m.sent ++ (reply ∷ []) }))
        × (to_buffer junk (write_receive uid (byte_of_bool (good file'))) ≡ ok reply)
        × (get_key a ≡ 0)
  unfolding write_command write_to_file copy_bytes
  minion_answers_write uid offset bytes m h fits =
      let (datagram, e, got) = get_task_args-write args messages junk uid offset bytes h fits in
      let file' = flush (write bytes (seekp offset m.file)) in
      let message : AMessage = write_receive uid (byte_of_bool (good file')) in
      let (reply, e', _) = length-to_buffer junk message (h.0, byte_lt (good file')) in
      (
        datagram,
        reply,
        minion_write_args uid _,
        e,
        got,
        rw (copy_out_front junk 0 bytes (junk (length bytes) ∷ [])) (
            rw
              (send_response-ok junk takes message (record m { file = file' }) reply e'
                (all_taken reply))
              refl),
        e',
        refl,
      )
