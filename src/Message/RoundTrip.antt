-- ===== src/Message/RoundTrip.antt =====
-- `ToBuffer` and `FromBuffer` of concrete/src/MessageSend.cpp and MessageReceive.cpp against each other
-- and against `GetSize`.
use io_tbased_raid.Prelude.{
  ℕ, ◌+◌, ◌^◌, ◌<◌, ◌≡◌, refl, subst, none, some, List, [], ◌++◌, arith, length, length-append,
  append-nil,
}
use io_tbased_raid.Prelude.Words.{
  store, load, copy_out, split_at?, load-store, length-store, length-copy_out, split_at?-append,
}
use io_tbased_raid.Prelude.Results.{ok}
use io_tbased_raid.Message.{
  AMessage, read_send, write_send, read_receive, write_receive, get_size, get_message_type,
  to_buffer, from_buffer, header, copy_bytes,
}

load_all : (k v : ℕ) → v < 256 ^ k → load k (store k v) ≡ some (v, [])
load_all k v h = subst (λ t. load k t ≡ some (v, [])) (append-nil (store k v)) (load-store k v [] h)

split_all : (n : ℕ) (front : List ℕ) → length front ≡ n → split_at? n front ≡ some (front, [])
split_all n front e =
    subst (λ t. split_at? n t ≡ some (front, [])) (append-nil front) (split_at?-append n front [] e)

-- The message can be sent: its numbers are in the ranges of their types, its size does not wrap
-- `uint32_t`, and a buffer is there where one is copied.
abbrev pub IsSendable : AMessage → Type 0
IsSendable (read_send uid offset length) = (uid < 2 ^ 64) × (offset < 2 ^ 64) × (length < 2 ^ 64)
IsSendable (write_send uid offset length (some bytes)) =
    (uid < 2 ^ 64) × (offset < 2 ^ 64) × (length + 33 < 2 ^ 32)
IsSendable (write_send uid offset length none) = ⊥
IsSendable (read_receive uid result length (some bytes)) =
    (uid < 2 ^ 64) × (result < 256) × (length + 25 < 2 ^ 32)
IsSendable (read_receive uid result length none) = ⊥
IsSendable (write_receive uid result) = (uid < 2 ^ 64) × (result < 256)

-- The message as the peer sees it. A read copies `length` bytes of the buffer, a write one more.
abbrev pub seen : (ℕ → ℕ) → AMessage → AMessage
seen junk (read_send uid offset length) = read_send uid offset length
seen junk (write_send uid offset length none) = write_send uid offset length none
seen junk (write_send uid offset length (some bytes)) =
    write_send uid offset length (some (copy_out junk 0 bytes (length + 1)))
seen junk (read_receive uid result length none) = read_receive uid result length none
seen junk (read_receive uid result length (some bytes)) =
    read_receive uid result length (some (copy_out junk 0 bytes length))
seen junk (write_receive uid result) = write_receive uid result

-- The bytes behind size and type.
abbrev pub payload : (ℕ → ℕ) → AMessage → List ℕ
payload junk (read_send uid offset length) = store 8 uid ++ (store 8 offset ++ store 8 length)
payload junk (write_send uid offset length none) = []
payload junk (write_send uid offset length (some bytes)) =
    store 8 uid ++ (store 8 offset ++ (store 8 length ++ copy_out junk 0 bytes (length + 1)))
payload junk (read_receive uid result length none) = []
payload junk (read_receive uid result length (some bytes)) =
    store 8 uid ++ (store 1 result ++ (store 8 length ++ copy_out junk 0 bytes length))
payload junk (write_receive uid result) = store 8 uid ++ store 1 result

module _ (junk : ℕ → ℕ) where
  pub to_buffer-eq :
      (m : AMessage)
      → IsSendable m
      → to_buffer junk m
        ≡ ok (store 4 (get_size m) ++ (store 4 (get_message_type m) ++ payload junk m))
  unfolding header copy_bytes to_buffer
  to_buffer-eq (read_send uid offset length) h = refl
  to_buffer-eq (write_send uid offset length none) h = absurd h
  to_buffer-eq (write_send uid offset length (some bytes)) h = refl
  to_buffer-eq (read_receive uid result length none) h = absurd h
  to_buffer-eq (read_receive uid result length (some bytes)) h = refl
  to_buffer-eq (write_receive uid result) h = refl

  length-payload : (m : AMessage) → IsSendable m → length (payload junk m) + 8 ≡ get_size m
  length-payload (read_send uid offset length) h = simp (length-append, length-store)
  length-payload (write_send uid offset length none) h = absurd h
  length-payload (write_send uid offset length (some bytes)) h =
      simp (length-append, length-store, length-copy_out) (omega arith)
  length-payload (read_receive uid result length none) h = absurd h
  length-payload (read_receive uid result length (some bytes)) h =
      simp (length-append, length-store, length-copy_out) (omega arith)
  length-payload (write_receive uid result) h = simp (length-append, length-store)

  -- `FromBuffer` of an object of the same class reads the payload back, whatever follows it.
  pub from_buffer-payload :
      (m : AMessage) → IsSendable m → from_buffer m (payload junk m) ≡ ok (seen junk m)
  unfolding from_buffer
  from_buffer-payload (read_send uid offset length) (hu, ho, hl) =
      rw (load-store 8 uid _ hu, load-store 8 offset _ ho, load_all 8 length hl)
  from_buffer-payload (write_send uid offset length none) h = absurd h
  from_buffer-payload (write_send uid offset length (some bytes)) (hu, ho, hl) = rw (
    load-store 8 uid _ hu,
    load-store 8 offset _ ho,
    load-store 8 length _ (omega arith),
    split_all (length + 1) _ (length-copy_out junk 0 bytes (length + 1)),
  )
  from_buffer-payload (read_receive uid result length none) h = absurd h
  from_buffer-payload (read_receive uid result length (some bytes)) (hu, hr, hl) = rw (
    load-store 8 uid _ hu,
    load-store 1 result _ hr,
    load-store 8 length _ (omega arith),
    split_all length _ (length-copy_out junk 0 bytes length),
  )
  from_buffer-payload (write_receive uid result) (hu, hr) =
      rw (load-store 8 uid _ hu, load_all 1 result hr)

  pub length-packet :
      (m : AMessage)
      → IsSendable m
      → length (store 4 (get_size m) ++ (store 4 (get_message_type m) ++ payload junk m))
        ≡ get_size m
  length-packet m h = simp (length-append, length-store) (omega (arith, length-payload m h))

-- `ToBuffer` of a message that can be sent succeeds, and fills exactly the `GetSize` bytes that the
-- senders allocate.
pub length-to_buffer :
    (junk : ℕ → ℕ) (m : AMessage)
    → IsSendable m
    → (bytes : List ℕ) × (to_buffer junk m ≡ ok bytes) × (length bytes ≡ get_size m)
length-to_buffer junk m h = (
  store 4 (get_size m) ++ (store 4 (get_message_type m) ++ payload junk m),
  to_buffer-eq junk m h,
  length-packet junk m h,
)
