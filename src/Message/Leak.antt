-- ===== src/Message/Leak.antt =====
-- How many bytes `MessageWriteSend::ToBuffer` (concrete/src/MessageSend.cpp) copies from its buffer.
use io_tbased_raid.Prelude.{
  ℕ, ◌+◌, ◌≡◌, none, some, List, [], ◌∷◌, ◌++◌, append_assoc, length, length-append, arith, refl,
}
use io_tbased_raid.Prelude.Words.{store, copy_out, copy_out_past, length-store}
use io_tbased_raid.Prelude.Results.{ok}
use io_tbased_raid.Message.{write_send, write_send_type, to_buffer, get_size, header, copy_bytes}

-- The bytes before the data.
abbrev pub write_header : ℕ → ℕ → ℕ → List ℕ
write_header uid offset length =
    store 4 (get_size (write_send uid offset length none))
    ++ (store 4 write_send_type ++ (store 8 uid ++ (store 8 offset ++ store 8 length)))

to_buffer-write :
    (junk : ℕ → ℕ) (uid offset n : ℕ) (bytes : List ℕ)
    → to_buffer junk (write_send uid offset n (some bytes))
      ≡ ok (
          store 4 (get_size (write_send uid offset n none))
          ++ (store 4 write_send_type
              ++ (store 8 uid ++ (store 8 offset ++ (store 8 n ++ copy_out junk 0 bytes (n + 1))))))
unfolding header copy_bytes to_buffer
to_buffer-write junk uid offset n bytes = refl

-- For every write whose buffer holds exactly the bytes of the segment, the packet is 32 bytes of
-- header, the data, and then the byte that memory holds behind the buffer.
pub write_leaks :
    (junk : ℕ → ℕ) (uid offset : ℕ) (bytes : List ℕ)
    → (to_buffer junk (write_send uid offset (length bytes) (some bytes))
        ≡ ok (write_header uid offset (length bytes) ++ (bytes ++ junk (length bytes) ∷ [])))
      × (length (write_header uid offset (length bytes)) ≡ 32)
write_leaks junk uid offset bytes = (
  rw
      (
        to_buffer-write junk uid offset (length bytes) bytes,
        copy_out_past junk 0 (length bytes) bytes (omega arith),
      )
      (simp append_assoc),
  simp (length-append, length-store),
)
