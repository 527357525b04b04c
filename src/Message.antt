-- ===== src/Message.antt =====
-- The messages between the master and its minions: concrete/include/AMessage.hpp, MessageSend.hpp
-- and MessageReceive.hpp with concrete/src/AMessage.cpp, MessageSend.cpp and MessageReceive.cpp.
-- The class hierarchy is a data type with a constructor for each class; a virtual method is a
-- function by clauses, and a class that does not override it has the base's value.
-- `std::shared_ptr<char[]>` is an optional list of bytes, `size_t` is 8 bytes wide and stored
-- little-endian.
pub mod RoundTrip
pub mod Leak
use io_tbased_raid.Prelude.{
  ℕ, zero, suc, ◌+◌, ◌%◌, ◌^◌, Bool, true, false, not, ◌==◌, Option, none, some, List, [], ◌∷◌,
  ◌++◌,
}
use io_tbased_raid.Prelude.Words.{store, load, copy_out, split_at?}
use io_tbased_raid.Prelude.Results.{Result, ok, fault, ◌>>=◌, or_fault}

-- `std::shared_ptr<char[]>`, `none` for a null pointer.
abbrev pub Buffer : Type 0
Buffer = Option (List ℕ)

-- The uid comes first in each: it is a member of the base class.
pub data AMessage : Type 0 where
  read_send : ℕ → ℕ → ℕ → AMessage
  write_send : ℕ → ℕ → ℕ → Buffer → AMessage
  read_receive : ℕ → ℕ → ℕ → Buffer → AMessage
  write_receive : ℕ → ℕ → AMessage

-- `static_cast<uint8_t>(m_result)`
abbrev pub byte_of_bool : Bool → ℕ
byte_of_bool true = 1
byte_of_bool false = 0

-- The numbers of `enum MESSAGE_TYPE`.
abbrev pub read_send_type : ℕ
read_send_type = 0

abbrev pub write_send_type : ℕ
write_send_type = 1

abbrev pub read_receive_type : ℕ
read_receive_type = 2

abbrev pub write_receive_type : ℕ
write_receive_type = 3

abbrev pub get_message_type : AMessage → ℕ
get_message_type (read_send uid offset length) = read_send_type
get_message_type (write_send uid offset length buffer) = write_send_type
get_message_type (read_receive uid result length buffer) = read_receive_type
get_message_type (write_receive uid result) = write_receive_type

abbrev pub get_uid : AMessage → ℕ
get_uid (read_send uid offset length) = uid
get_uid (write_send uid offset length buffer) = uid
get_uid (read_receive uid result length buffer) = uid
get_uid (write_receive uid result) = uid

abbrev pub get_offset : AMessage → ℕ
get_offset (read_send uid offset length) = offset
get_offset (write_send uid offset length buffer) = offset
get_offset (read_receive uid result length buffer) = 0
get_offset (write_receive uid result) = 0

abbrev pub get_length : AMessage → ℕ
get_length (read_send uid offset length) = length
get_length (write_send uid offset length buffer) = length
get_length (read_receive uid result length buffer) = length
get_length (write_receive uid result) = 0

abbrev pub get_result : AMessage → Bool
get_result (read_send uid offset length) = true
get_result (write_send uid offset length buffer) = true
get_result (read_receive uid result length buffer) = not (result == 0)
get_result (write_receive uid result) = not (result == 0)

abbrev pub get_data : AMessage → Buffer
get_data (read_send uid offset length) = none
get_data (write_send uid offset length buffer) = buffer
get_data (read_receive uid result length buffer) = buffer
get_data (write_receive uid result) = none

-- `GetSize` of the base class: two `uint32_t` and a `size_t`.
abbrev pub base_size : ℕ
base_size = 4 + 4 + 8

-- `GetSize`, a `uint32_t`.
abbrev pub get_size : AMessage → ℕ
get_size (read_send uid offset length) = (base_size + 8 + 8) % 2 ^ 32
get_size (write_send uid offset length buffer) = (base_size + 8 + 8 + length + 1) % 2 ^ 32
get_size (read_receive uid result length buffer) = (base_size + 1 + 8 + length) % 2 ^ 32
get_size (write_receive uid result) = (base_size + 1) % 2 ^ 32

-- `std::copy(buffer.get(), buffer.get() + n, …)`: what lies behind the array is `junk`.
unfoldable pub copy_bytes : (ℕ → ℕ) → Buffer → ℕ → Result (List ℕ)
copy_bytes junk none zero = ok []
copy_bytes junk none (suc n) = fault
copy_bytes junk (some bytes) n = ok (copy_out junk 0 bytes n)

-- The size, the type and, by the base class's `ToBuffer`, the uid.
header : AMessage → List ℕ → List ℕ
header m rest =
    store 4 (get_size m) ++ (store 4 (get_message_type m) ++ (store 8 (get_uid m) ++ rest))

-- `ToBuffer` of each class: the bytes that it writes.
abbrev read_send_to_buffer : ℕ → ℕ → ℕ → Result (List ℕ)
read_send_to_buffer uid offset length =
    ok (header (read_send uid offset length) (store 8 offset ++ store 8 length))

abbrev write_send_to_buffer : (ℕ → ℕ) → ℕ → ℕ → ℕ → Buffer → Result (List ℕ)
write_send_to_buffer junk uid offset length buffer = do
  body ← copy_bytes junk buffer (length + 1)
  ok (header (write_send uid offset length buffer) (store 8 offset ++ (store 8 length ++ body)))

abbrev read_receive_to_buffer : (ℕ → ℕ) → ℕ → ℕ → ℕ → Buffer → Result (List ℕ)
read_receive_to_buffer junk uid result length buffer = do
  body ← copy_bytes junk buffer length
  ok (header (read_receive uid result length buffer) (store 1 result ++ (store 8 length ++ body)))

abbrev write_receive_to_buffer : ℕ → ℕ → Result (List ℕ)
write_receive_to_buffer uid result = ok (header (write_receive uid result) (store 1 result))

unfoldable pub to_buffer : (ℕ → ℕ) → AMessage → Result (List ℕ)
unfolding header copy_bytes store copy_out
to_buffer junk (read_send uid offset length) = read_send_to_buffer uid offset length
to_buffer junk (write_send uid offset length buffer) =
    write_send_to_buffer junk uid offset length buffer
to_buffer junk (read_receive uid result length buffer) =
    read_receive_to_buffer junk uid result length buffer
to_buffer junk (write_receive uid result) = write_receive_to_buffer uid result

-- `FromBuffer` of each class: the message that the bytes behind size and type hold. A read behind
-- the bytes received is undefined.
abbrev read_send_from_buffer : List ℕ → Result AMessage
read_send_from_buffer bytes = do
  (uid, bytes) ← or_fault (load 8 bytes)
  (offset, bytes) ← or_fault (load 8 bytes)
  (length, bytes) ← or_fault (load 8 bytes)
  ok (read_send uid offset length)

abbrev write_send_from_buffer : List ℕ → Result AMessage
write_send_from_buffer bytes = do
  (uid, bytes) ← or_fault (load 8 bytes)
  (offset, bytes) ← or_fault (load 8 bytes)
  (length, bytes) ← or_fault (load 8 bytes)
  (body, bytes) ← or_fault (split_at? (length + 1) bytes)
  ok (write_send uid offset length (some body))

abbrev read_receive_from_buffer : List ℕ → Result AMessage
read_receive_from_buffer bytes = do
  (uid, bytes) ← or_fault (load 8 bytes)
  (result, bytes) ← or_fault (load 1 bytes)
  (length, bytes) ← or_fault (load 8 bytes)
  (body, bytes) ← or_fault (split_at? length bytes)
  ok (read_receive uid result length (some body))

abbrev write_receive_from_buffer : List ℕ → Result AMessage
write_receive_from_buffer bytes = do
  (uid, bytes) ← or_fault (load 8 bytes)
  (result, bytes) ← or_fault (load 1 bytes)
  ok (write_receive uid result)

-- `FromBuffer` on an object of the class.
unfoldable pub from_buffer : AMessage → List ℕ → Result AMessage
unfolding load split_at?
from_buffer (read_send _ _ _) = read_send_from_buffer
from_buffer (write_send _ _ _ _) = write_send_from_buffer
from_buffer (read_receive _ _ _ _) = read_receive_from_buffer
from_buffer (write_receive _ _) = write_receive_from_buffer
