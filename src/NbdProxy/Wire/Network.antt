-- ===== src/NbdProxy/Wire/Network.antt =====
-- Numbers in the order of the network, as the bytes in memory that concrete/src/NBDProxy.cpp reads and writes.
use io_tbased_raid.Prelude.{
  ℕ, ◌+◌, ◌*◌, ◌/◌, ◌%◌, ◌^◌, ◌<◌, ◌≡◌, ap, ap₂, ◌∙◌, some, List, [], ◌∷◌, ◌++◌, arith,
}
use io_tbased_raid.Prelude.Words.{store, load}
use io_tbased_raid.Nbd.{ntohll}
use io_tbased_raid.Nbd.Lifetime.{little, big, IsNtohl, ntohll-bytes}

-- The four bytes of a number in the order of the network, the highest first.
abbrev pub network : ℕ → List ℕ
network v = (v / 2 ^ 24 % 256) ∷ (v / 2 ^ 16 % 256) ∷ (v / 2 ^ 8 % 256) ∷ (v % 256) ∷ []

swapped :
    (ntohl : ℕ → ℕ)
    → IsNtohl ntohl
    → (v : ℕ) → v < 2 ^ 32
    → ntohl v ≡ big (v % 256) (v / 2 ^ 8 % 256) (v / 2 ^ 16 % 256) (v / 2 ^ 24 % 256)
swapped ntohl is v h =
    ap ntohl whole
    ∙ is (v % 256) (v / 2 ^ 8 % 256) (v / 2 ^ 16 % 256) (v / 2 ^ 24 % 256) (omega arith)
        (omega arith) (omega arith) (omega arith)
  where
    whole : v ≡ little (v % 256) (v / 2 ^ 8 % 256) (v / 2 ^ 16 % 256) (v / 2 ^ 24 % 256)
    whole = omega arith

store-little :
    (a b c d : ℕ)
    → a < 256
    → b < 256
    → c < 256
    → d < 256
    → store 4 (little a b c d) ≡ a ∷ b ∷ c ∷ d ∷ []
unfolding store
store-little a b c d ha hb hc hd =
    ap₂ (λ x xs. x ∷ xs) (omega arith)
      (ap₂ (λ x xs. x ∷ xs) (omega arith)
        (ap₂ (λ x xs. x ∷ xs) (omega arith) (ap (λ x. x ∷ []) (omega arith))))

-- What is stored after `htonl` stands in the order of the network.
pub store-htonl :
    (htonl : ℕ → ℕ) → IsNtohl htonl → (v : ℕ) → v < 2 ^ 32 → store 4 (htonl v) ≡ network v
store-htonl htonl is v h =
    ap (store 4) (swapped htonl is v h)
    ∙ store-little (v / 2 ^ 24 % 256) (v / 2 ^ 16 % 256) (v / 2 ^ 8 % 256) (v % 256) (omega arith)
        (omega arith) (omega arith) (omega arith)

pub load-network :
    (ntohl : ℕ → ℕ)
    → IsNtohl ntohl
    → (v : ℕ) (rest : List ℕ) → v < 2 ^ 32
    → (x : ℕ) × (load 4 (network v ++ rest) ≡ some (x, rest)) × (ntohl x ≡ v)
unfolding load
load-network ntohl is v rest h = (
  little (v / 2 ^ 24 % 256) (v / 2 ^ 16 % 256) (v / 2 ^ 8 % 256) (v % 256),
  ap (λ x. some (x, rest)) (omega arith),
  is (v / 2 ^ 24 % 256) (v / 2 ^ 16 % 256) (v / 2 ^ 8 % 256) (v % 256) (omega arith) (omega arith)
        (omega arith) (omega arith)
      ∙ omega arith,
)

pub load-network_8 :
    (ntohl : ℕ → ℕ)
    → IsNtohl ntohl
    → (v : ℕ) (rest : List ℕ) → v < 2 ^ 64
    → (x : ℕ) × (load 8 (network (v / 2 ^ 32) ++ (network (v % 2 ^ 32) ++ rest)) ≡ some (x, rest))
      × (ntohll ntohl x ≡ v)
unfolding load
load-network_8 ntohl is v rest h =
    let hi : ℕ = v / 2 ^ 32 in
    let lo : ℕ = v % 2 ^ 32 in
    (
      little (hi / 2 ^ 24 % 256) (hi / 2 ^ 16 % 256) (hi / 2 ^ 8 % 256) (hi % 256)
          + 2 ^ 32 * little (lo / 2 ^ 24 % 256) (lo / 2 ^ 16 % 256) (lo / 2 ^ 8 % 256) (lo % 256),
      ap (λ x. some (x, rest)) (omega arith),
      ntohll-bytes ntohl is (hi / 2 ^ 24 % 256) (hi / 2 ^ 16 % 256) (hi / 2 ^ 8 % 256) (hi % 256)
            (lo / 2 ^ 24 % 256) (lo / 2 ^ 16 % 256) (lo / 2 ^ 8 % 256) (lo % 256) (omega arith)
            (omega arith) (omega arith) (omega arith) (omega arith) (omega arith) (omega arith)
            (omega arith)
          ∙ omega arith,
    )
