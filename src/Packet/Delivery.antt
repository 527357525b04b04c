-- ===== src/Packet/Delivery.antt =====
-- A message on its way from `ToBuffer` through the checks of concrete/src/MinionProxy.cpp and
-- MasterProxy.cpp.
use io_tbased_raid.Prelude.{
  ℕ, zero, suc, ap, [], ◌∷◌, ◌-◌, ◌^◌, ◌≤◌, ◌<◌, ◌≡◌, refl, ◌∙◌, none, some, List, ◌++◌, arith,
  length, take, ltb, false,
}
use io_tbased_raid.Prelude.Words.{store, load, load-store}
use io_tbased_raid.Prelude.Results.{ok, ◌>>=◌}
use io_tbased_raid.Factory
use io_tbased_raid.Message.{
  AMessage, read_send, write_send, read_receive, write_receive, get_size, get_message_type,
  to_buffer, from_buffer,
}
use io_tbased_raid.Message.RoundTrip.{
  IsSendable, seen, payload, to_buffer-eq, length-packet, from_buffer-payload,
}
use io_tbased_raid.Packet.{
  MessageFactory, bufsiz, receive_from, parsed, parse_message, check_packet,
}

-- The factory makes an object of the class that has the type `t`.
abbrev pub Makes : MessageFactory → ℕ → Type 0
Makes factory t =
    (object : AMessage) × (Factory.create t tt factory ≡ ok object) × (get_message_type object ≡ t)

-- `FromBuffer` looks at the object's class alone.
from_buffer-class :
    (a b : AMessage) (bytes : List ℕ)
    → get_message_type a ≡ get_message_type b
    → from_buffer a bytes ≡ from_buffer b bytes
unfolding from_buffer
from_buffer-class (read_send _ _ _) (read_send _ _ _) bytes e = refl
from_buffer-class (write_send _ _ _ _) (write_send _ _ _ _) bytes e = refl
from_buffer-class (read_receive _ _ _ _) (read_receive _ _ _ _) bytes e = refl
from_buffer-class (write_receive _ _) (write_receive _ _) bytes e = refl
from_buffer-class _ _ bytes e = absurd (omega arith)

get_size-lt : (m : AMessage) → get_size m < 2 ^ 32
get_size-lt (read_send uid offset length) = omega arith
get_size-lt (write_send uid offset length buffer) = omega arith
get_size-lt (read_receive uid result length buffer) = omega arith
get_size-lt (write_receive uid result) = omega arith

get_message_type-lt : (m : AMessage) → get_message_type m < 4
get_message_type-lt (read_send uid offset length) = omega arith
get_message_type-lt (write_send uid offset length buffer) = omega arith
get_message_type-lt (read_receive uid result length buffer) = omega arith
get_message_type-lt (write_receive uid result) = omega arith

parse_message-to_buffer :
    (factory : MessageFactory) (junk : ℕ → ℕ) (m : AMessage)
    → IsSendable m
    → Makes factory (get_message_type m)
    → parse_message factory
        (store 4 (get_size m) ++ (store 4 (get_message_type m) ++ payload junk m))
      ≡ ok (parsed (get_message_type m) (seen junk m))
unfolding parse_message
parse_message-to_buffer factory junk m h (object, made, class) = rw (
  load-store 4 (get_size m) _ (get_size-lt m),
  load-store 4 (get_message_type m) _ (omega (arith, get_message_type-lt m)),
  made,
  from_buffer-class object m (payload junk m) class,
  from_buffer-payload junk m h,
)

not-ltb : (a b : ℕ) → b ≤ a → ltb a b ≡ false
not-ltb a b h = ground arith

pub take_all : {bytes : List ℕ} (n : ℕ) → length bytes ≤ n → take n bytes ≡ bytes
take_all {bytes = []} zero h = refl
take_all {bytes = []} (suc n) h = refl
take_all {bytes = b ∷ bytes} zero h = absurd (omega arith)
take_all {bytes = b ∷ bytes} (suc n) h = ap (λ t. b ∷ t) (take_all n (omega arith))

-- A packet that is as long as it states is parsed.
check_packet-whole :
    (factory : MessageFactory) (bytes rest : List ℕ) (n : ℕ)
    → load 4 bytes ≡ some (n, rest)
    → length bytes ≡ n
    → 8 ≤ n
    → check_packet factory bytes ≡ parse_message factory bytes
unfolding check_packet
check_packet-whole factory bytes rest n stated e h =
    rw (stated, e, not-ltb n 8 h, not-ltb n n (omega arith))

size_le : (m : AMessage) → IsSendable m → 8 ≤ get_size m
size_le (read_send uid offset length) h = omega arith
size_le (write_send uid offset length none) h = absurd h
size_le (write_send uid offset length (some bytes)) h = omega arith
size_le (read_receive uid result length none) h = absurd h
size_le (read_receive uid result length (some bytes)) h = omega arith
size_le (write_receive uid result) h = omega arith

-- A message that can be sent and whose size fits a receive of `BUFSIZ - 1` bytes is received, passes
-- the checks, and is parsed to the message as the peer sees it, if the factory makes its class.
pub deliver :
    (factory : MessageFactory) (junk : ℕ → ℕ) (m : AMessage)
    → IsSendable m
    → get_size m < bufsiz
    → Makes factory (get_message_type m)
    → (bytes : List ℕ) × (to_buffer junk m ≡ ok bytes)
      × ((receive_from (some bytes) (bufsiz - 1) >>= check_packet factory)
          ≡ ok (parsed (get_message_type m) (seen junk m)))
unfolding receive_from
deliver factory junk m h fits makes = (packet, to_buffer-eq junk m h, whole)
  where
    packet : List ℕ
    packet = store 4 (get_size m) ++ (store 4 (get_message_type m) ++ payload junk m)

    e : length packet ≡ get_size m
    e = length-packet junk m h

    whole :
        check_packet factory (take (bufsiz - 1) packet)
        ≡ ok (parsed (get_message_type m) (seen junk m))
    whole = rw (take_all {bytes = packet} (bufsiz - 1) (omega (arith, e))) (
        check_packet-whole factory packet _ (get_size m)
          (load-store 4 (get_size m) _ (get_size-lt m)) e (size_le m h)
        ∙ parse_message-to_buffer factory junk m h makes)
