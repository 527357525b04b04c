-- ===== src/Nbd/Lifetime.antt =====
-- What the constructor and the destructor of concrete/src/NBD.cpp leave, and what `Ntohll` makes of bytes.
use io_tbased_raid.Prelude.{
  ℕ, ◌+◌, ◌*◌, ◌/◌, ◌%◌, ◌^◌, ◌<◌, ◌≡◌, Bool, true, not, ◌&&◌, none, some, if◌then◌else◌, arith,
}
use io_tbased_raid.Prelude.Results.{runtime_error}
use io_tbased_raid.Nbd.{
  Call, open_device, make_sockets, set_size, clear_sock, fork_child, prepare_mask, set_signals,
  disconnect, nothing, ntohll, sockets_init, fork_init, signals_init, init, disconnect_nbd, destroy,
  close_members,
}

-- Four bytes as a number, the first being the lowest; `big` has the first as the highest.
abbrev pub little : ℕ → ℕ → ℕ → ℕ → ℕ
little a b c d = a + 256 * (b + 256 * (c + 256 * d))

abbrev pub big : ℕ → ℕ → ℕ → ℕ → ℕ
big a b c d = little d c b a

-- What ntohl(3) does where words are little-endian.
abbrev pub IsNtohl : (ℕ → ℕ) → Type 0
IsNtohl ntohl =
    (a b c d : ℕ) → a < 256 → b < 256 → c < 256 → d < 256 → ntohl (little a b c d) ≡ big a b c d

-- For an `ntohl` that reverses four bytes: `Ntohll` of eight bytes in memory, as the machine reads
-- them, is the number that they are in the kernel's order, the first byte being the highest.
pub ntohll-bytes :
    (ntohl : ℕ → ℕ)
    → IsNtohl ntohl
    → (a b c d e f g h : ℕ) → a < 256
    → b < 256
    → c < 256
    → d < 256
    → e < 256
    → f < 256
    → g < 256
    → h < 256
    → ntohll ntohl (little a b c d + 2 ^ 32 * little e f g h) ≡ 2 ^ 32 * big a b c d + big e f g h
unfolding ntohll
ntohll-bytes ntohl is a b c d e f g h ha hb hc hd he hf hg hh =
    let low : (little a b c d + 2 ^ 32 * little e f g h) % 2 ^ 32 ≡ little a b c d = omega arith in
    let high : (little a b c d + 2 ^ 32 * little e f g h) / 2 ^ 32 % 2 ^ 32 ≡ little e f g h =
      omega arith in
    rw (ntohll, low, high, is a b c d ha hb hc hd, is e f g h he hf hg hh) (omega arith)

-- Whether the constructor gets as far as the child.
abbrev pub forked : (Call → Bool) → Bool
forked answers =
    answers open_device
    && (answers make_sockets && (answers set_size && (answers clear_sock && answers fork_child)))

abbrev pub signalled : (Call → Bool) → Bool
signalled answers = answers prepare_mask && answers set_signals

-- Whatever the system calls answer: the constructor returns exactly if all of them succeed, and then the three
-- descriptors are open and the child runs. If it throws, no descriptor is left open; a child is left that nobody waits
-- for, and the descriptor in `s_nbdDevToDisconnect`, exactly if it was a call for the signals that failed.
pub init-cases :
    (answers : Call → Bool)
    → init answers ≡ (
        if forked answers
        then (if signalled answers
            then (
              record {
                device = true;
                server_socket = true;
                client_socket = true;
                child = true;
                to_disconnect = true;
              },
              none,
            )
            else (record nothing { child = true; to_disconnect = true }, some runtime_error))
        else (nothing, some runtime_error))
unfolding init sockets_init fork_init signals_init close_members
init-cases answers = ground arith

-- After the destructor no descriptor is open and no child is left.
pub destroy-init :
    (answers later : Call → Bool)
    → (init answers).1 ≡ none
    → destroy later (init answers).0 ≡ record nothing { to_disconnect = not (later disconnect) }
unfolding destroy disconnect_nbd close_members
destroy-init answers later e = ground (arith, init-cases answers)
