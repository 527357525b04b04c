-- ===== src/TcpClient.antt =====
-- concrete/src/TcpClientSocket.cpp: the loops of `Send` and `Receive`. What the kernel answers to
-- each call of `send` and `recv` is a list, oldest first.
use io_tbased_raid.Prelude.{
  ℕ, zero, suc, ◌+◌, ◌-◌, ◌≤◌, ◌<◌, ◌≡◌, refl, ap, ◌∙◌, Option, none, some, List, [], ◌∷◌, ◌++◌,
  arith, length, length-append, take, drop, All,
}
use mathlib.Core.Option
use io_tbased_raid.Prelude.Results.{Result, ok, throw, runtime_error, ◌>>=◌}

-- `recv` stores bytes, finds the connection closed, is interrupted, or fails.
pub data Received : Type 0 where
  received : List ℕ → Received
  closed interrupted failed : Received

-- The bytes that came so far and the answers that were not asked for. `none`: the call waits.
abbrev pub Reading : Type 0
Reading = Result (Option (List ℕ × List Received))

abbrev keep : List ℕ → Option (List ℕ × List Received) → Reading
keep bytes none = ok none
keep bytes (some (more, rest)) = ok (some (bytes ++ more, rest))

-- `Receive`; `recv` stores no more than `size` bytes, and 0 bytes mean that the peer is gone.
unfoldable pub receive : List Received → ℕ → Reading
receive answers zero = ok (some ([], answers))
receive [] (suc n) = ok none
receive (closed ∷ answers) (suc n) = throw runtime_error
receive (failed ∷ answers) (suc n) = throw runtime_error
receive (interrupted ∷ answers) (suc n) = receive answers (suc n)
receive (received [] ∷ answers) (suc n) = throw runtime_error
receive (received (b ∷ bytes) ∷ answers) (suc n) =
    receive answers (n - length (take n bytes)) >>= keep (b ∷ take n bytes)

take_self : (bytes : List ℕ) (n : ℕ) → length bytes ≤ n → take n bytes ≡ bytes
take_self [] zero h = refl
take_self [] (suc n) h = refl
take_self (b ∷ bytes) zero h = absurd (omega arith)
take_self (b ∷ bytes) (suc n) h = ap (λ t. b ∷ t) (take_self bytes n (omega arith))

-- The answers that bring pieces of a message, each after some calls that bring none.
abbrev pub pieces_of : List (List Received × List ℕ) → List Received → List Received
pieces_of [] rest = rest
pieces_of ((waits, piece) ∷ pieces) rest = waits ++ (received piece ∷ pieces_of pieces rest)

abbrev pub bytes_of : List (List Received × List ℕ) → List ℕ
bytes_of [] = []
bytes_of ((waits, piece) ∷ pieces) = piece ++ bytes_of pieces

abbrev pub IsInterrupt : Received → Type 0
IsInterrupt a = a ≡ interrupted

abbrev pub IsPiece : List Received × List ℕ → Type 0
IsPiece (waits, piece) = All IsInterrupt waits × (0 < length piece)

receive-interrupts :
    (waits answers : List Received) (n : ℕ)
    → All IsInterrupt waits
    → receive (waits ++ answers) (suc n) ≡ receive answers (suc n)
unfolding receive
receive-interrupts [] answers n h = refl
receive-interrupts (w ∷ waits) answers n (e, h) = rw e (receive-interrupts waits answers n h)

-- A message that arrives in pieces, none of them empty and each after any number of interrupted
-- calls, is received whole, and nothing behind it is taken.
pub receive_pieces :
    (pieces : List (List Received × List ℕ)) (rest : List Received)
    → All IsPiece pieces
    → receive (pieces_of pieces rest) (length (bytes_of pieces)) ≡ ok (some (bytes_of pieces, rest))
unfolding receive
receive_pieces [] rest h = refl
receive_pieces ((waits, []) ∷ pieces) rest h = absurd (omega (arith, h.0.1))
receive_pieces ((waits, b ∷ piece) ∷ pieces) rest h =
    receive-interrupts waits (received (b ∷ piece) ∷ pieces_of pieces rest)
      (length (piece ++ bytes_of pieces)) h.0.0
    ∙ rw
        (
          take_self piece (length (piece ++ bytes_of pieces)) fits,
          left,
          receive_pieces pieces rest h.1,
        )
        refl
  where
    fits : length piece ≤ length (piece ++ bytes_of pieces)
    fits = omega (arith, length-append piece (bytes_of pieces))

    left : length (piece ++ bytes_of pieces) - length piece ≡ length (bytes_of pieces)
    left = omega (arith, length-append piece (bytes_of pieces))

-- `send` takes a number of bytes, or fails; a number that is not positive is a failure.
pub data Sent : Type 0 where
  accepted : ℕ → Sent
  refused : Sent

-- `Send`: the bytes that the kernel took so far, and whether the call returned, threw, or waits.
unfoldable pub send : List Sent → List ℕ → Result (Option (List ℕ))
send answers [] = ok (some [])
send [] (b ∷ bytes) = ok none
send (refused ∷ answers) (b ∷ bytes) = throw runtime_error
send (accepted zero ∷ answers) (b ∷ bytes) = throw runtime_error
send (accepted (suc n) ∷ answers) (b ∷ bytes) = send answers (drop n bytes) >>= λ sent.
    ok (Option.map (λ more. b ∷ (take n bytes ++ more)) sent)

take-drop : (n : ℕ) (bytes : List ℕ) → take n bytes ++ drop n bytes ≡ bytes
take-drop zero bytes = refl
take-drop (suc n) [] = refl
take-drop (suc n) (b ∷ bytes) = ap (λ t. b ∷ t) (take-drop n bytes)

length-drop_le : (n : ℕ) (bytes : List ℕ) → length (drop n bytes) ≤ length bytes - n
length-drop_le zero bytes = omega arith
length-drop_le (suc n) [] = omega arith
length-drop_le (suc n) (b ∷ bytes) = omega (arith, length-drop_le n bytes)

-- Calls that take `n + 1` bytes each, and how many they take at most.
abbrev pub calls : List ℕ → List Sent
calls [] = []
calls (n ∷ ns) = accepted (suc n) ∷ calls ns

abbrev pub capacity : List ℕ → ℕ
capacity [] = 0
capacity (n ∷ ns) = suc n + capacity ns

-- If every call of `send` takes at least a byte, and together they can take all, `Send` returns and
-- the kernel has every byte, in order.
pub send-calls :
    (ns : List ℕ) (bytes : List ℕ)
    → length bytes ≤ capacity ns
    → send (calls ns) bytes ≡ ok (some bytes)
unfolding send
send-calls [] [] h = refl
send-calls [] (b ∷ bytes) h = absurd (omega arith)
send-calls (n ∷ ns) [] h = refl
send-calls (n ∷ ns) (b ∷ bytes) h =
    rw (send-calls ns (drop n bytes) (omega (arith, length-drop_le n bytes)), take-drop n bytes)
      refl
