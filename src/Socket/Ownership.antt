-- ===== src/Socket/Ownership.antt =====
-- Who closes the descriptors of the sockets of concrete/include/SocketBase.hpp.
use io_tbased_raid.Prelude.{
  ℕ, zero, suc, ◌<◌, ◌≡◌, refl, sym, ap, subst, ◌∙◌, inl, inr, Bool, true, false, Option, none,
  some, List, [], ◌∷◌, ◌++◌, append_assoc, append-nil, arith, length, ◌==◌, if◌then◌else◌,
  Bool-cases,
}
use mathlib.Core.List.{Perm, perm_middle}
use mathlib.Core.List.Perm
use io_tbased_raid.Prelude.Results.{Exception}
use io_tbased_raid.Socket.{
  Sockets, owned, fd_at, set_fd, make, move_make, reset, move_assign, destroy, make_udp,
}

-- The descriptors that the sockets have.
abbrev pub all_owned : List (Option ℕ) → List ℕ
all_owned [] = []
all_owned (fd ∷ fds) = owned fd ++ all_owned fds

-- Every descriptor that the kernel gave is with one socket, or was closed, once.
abbrev pub IsOwned : Sockets → Type 0
IsOwned s = Perm s.opened (all_owned s.fds ++ s.closed)

all_owned-append :
    (fds more : List (Option ℕ)) → all_owned (fds ++ more) ≡ all_owned fds ++ all_owned more
all_owned-append [] more = refl
all_owned-append (fd ∷ fds) more =
    ap (λ l. owned fd ++ l) (all_owned-append fds more)
    ∙ sym (append_assoc (owned fd) (all_owned fds) (all_owned more))

swap_owned :
    (a b : Option ℕ) (rest : List ℕ)
    → Perm (owned a ++ (owned b ++ rest)) (owned b ++ (owned a ++ rest))
swap_owned none b rest = Perm.refl (owned b ++ rest)
swap_owned (some x) none rest = Perm.refl (x ∷ rest)
swap_owned (some x) (some y) rest = Perm.swap y x rest

cancel_owned : (a : Option ℕ) {xs ys : List ℕ} → Perm (owned a ++ xs) (owned a ++ ys) → Perm xs ys
cancel_owned none p = p
cancel_owned (some x) p = Perm.cons_inv p

-- The descriptor at a place is taken out, and another one put there.
all_owned-set_fd :
    (i : ℕ) (new : Option ℕ) (fds : List (Option ℕ))
    → i < length fds
    → Perm (owned new ++ all_owned fds) (owned (fd_at i fds) ++ all_owned (set_fd i new fds))
all_owned-set_fd i new [] l = absurd (omega arith)
all_owned-set_fd zero new (fd ∷ fds) l = swap_owned new fd (all_owned fds)
all_owned-set_fd (suc i) new (fd ∷ fds) l = Perm.trans (swap_owned new fd (all_owned fds)) (
    Perm.trans (Perm.append_left (owned fd) (all_owned-set_fd i new fds (omega arith)))
      (swap_owned fd (fd_at i fds) (all_owned (set_fd i new fds))))

-- What is taken out goes behind the rest.
behind : (a : Option ℕ) (xs ys : List ℕ) → Perm (owned a ++ (xs ++ ys)) (xs ++ (owned a ++ ys))
behind none xs ys = Perm.refl (xs ++ ys)
behind (some x) xs ys = Perm.symm (perm_middle xs ys)

make-IsOwned : (fd : ℕ) (s : Sockets) → IsOwned s → IsOwned (make fd s)
unfolding make
make-IsOwned fd s h =
    subst (λ l. Perm (fd ∷ s.opened) (l ++ s.closed)) (sym (all_owned-append s.fds (some fd ∷ [])))
      (subst (Perm (fd ∷ s.opened)) (sym (append_assoc (all_owned s.fds) (fd ∷ []) s.closed))
        (Perm.trans (Perm.cons fd h) (behind (some fd) (all_owned s.fds) s.closed)))

reset-IsOwned : (i : ℕ) (s : Sockets) → i < length s.fds → IsOwned s → IsOwned (reset i none s)
unfolding reset
reset-IsOwned i s l h =
    let rest = all_owned (set_fd i none s.fds) in
    Perm.trans h (
      Perm.trans (Perm.append_right s.closed (all_owned-set_fd i none s.fds l)) (
        subst (λ l. Perm l (rest ++ (owned (fd_at i s.fds) ++ s.closed)))
          (sym (append_assoc (owned (fd_at i s.fds)) rest s.closed))
          (behind (fd_at i s.fds) rest s.closed)))

move_make-IsOwned : (i : ℕ) (s : Sockets) → i < length s.fds → IsOwned s → IsOwned (move_make i s)
unfolding move_make
move_make-IsOwned i s l h =
    let rest = all_owned (set_fd i none s.fds) in
    let moved = owned (fd_at i s.fds) in
    let there : Perm (all_owned s.fds) (rest ++ (moved ++ [])) =
      Perm.trans (all_owned-set_fd i none s.fds l) (
        subst (λ l. Perm (moved ++ l) (rest ++ (moved ++ []))) (append-nil rest)
          (behind (fd_at i s.fds) rest [])) in
    subst (λ l. Perm s.opened (l ++ s.closed))
      (sym (all_owned-append (set_fd i none s.fds) (fd_at i s.fds ∷ [])))
      (Perm.trans h (Perm.append_right s.closed there))

fd_at-set_fd :
    (i j : ℕ) (new : Option ℕ) (fds : List (Option ℕ))
    → (i == j) ≡ false
    → fd_at j (set_fd i new fds) ≡ fd_at j fds
fd_at-set_fd i j new [] e = refl
fd_at-set_fd zero zero new (fd ∷ fds) e = absurd (ground arith)
fd_at-set_fd zero (suc j) new (fd ∷ fds) e = refl
fd_at-set_fd (suc i) zero new (fd ∷ fds) e = refl
fd_at-set_fd (suc i) (suc j) new (fd ∷ fds) e = fd_at-set_fd i j new fds (ground arith)

length-set_fd :
    (i : ℕ) (new : Option ℕ) (fds : List (Option ℕ)) → length (set_fd i new fds) ≡ length fds
length-set_fd i new [] = refl
length-set_fd zero new (fd ∷ fds) = refl
length-set_fd (suc i) new (fd ∷ fds) = ap suc (length-set_fd i new fds)

move_assign-IsOwned :
    (i j : ℕ) (s : Sockets)
    → i < length s.fds
    → j < length s.fds
    → IsOwned s
    → IsOwned (move_assign i j s)
unfolding move_assign
move_assign-IsOwned i j s li lj h = elim (Bool-cases (i == j)) [
  | inl same ↦ rw same h
  | inr other ↦
      let from = fd_at j s.fds in
      let old = fd_at i s.fds in
      let fds₁ = set_fd i from s.fds in
      let rest = all_owned (set_fd j none fds₁) in
      let taken : Perm (all_owned fds₁) (owned from ++ rest) =
        subst (λ a. Perm (all_owned fds₁) (owned a ++ rest)) (fd_at-set_fd i j from s.fds other)
          (all_owned-set_fd j none fds₁ (omega (arith, length-set_fd i from s.fds))) in
      let both : Perm (owned from ++ all_owned s.fds) (owned from ++ (owned old ++ rest)) =
        Perm.trans (all_owned-set_fd i from s.fds li)
          (Perm.trans (Perm.append_left (owned old) taken) (swap_owned old from rest)) in
      rw other (
        Perm.trans h (
          Perm.trans (Perm.append_right s.closed (cancel_owned from both)) (
            subst (λ l. Perm l (rest ++ (owned old ++ s.closed)))
              (sym (append_assoc (owned old) rest s.closed)) (behind old rest s.closed))))
]

-- The sockets that come about when they are made, moved from, assigned and destroyed.
pub data Reach : Sockets → Type 0 where
  start : Reach (record { fds = []; opened = []; closed = [] })
  makes : {s : Sockets} (fd : ℕ) → Reach s → Reach (make fd s)
  moves : {s : Sockets} (i : ℕ) → Reach s → i < length s.fds → Reach (move_make i s)
  assigns :
      {s : Sockets} (i j : ℕ)
      → Reach s
      → i < length s.fds
      → j < length s.fds
      → Reach (move_assign i j s)
  destroys : {s : Sockets} (i : ℕ) → Reach s → i < length s.fds → Reach (destroy i s)

-- However sockets are made, moved, assigned and destroyed: every descriptor that the kernel gave is with one of the
-- sockets, or has been closed, and that once only.
pub Reach-IsOwned : {s : Sockets} → Reach s → IsOwned s
unfolding destroy
Reach-IsOwned start = Perm.refl []
Reach-IsOwned (makes {s} fd r) = make-IsOwned fd s (Reach-IsOwned r)
Reach-IsOwned (moves {s} i r l) = move_make-IsOwned i s l (Reach-IsOwned r)
Reach-IsOwned (assigns {s} i j r li lj) = move_assign-IsOwned i j s li lj (Reach-IsOwned r)
Reach-IsOwned (destroys {s} i r l) = reset-IsOwned i s l (Reach-IsOwned r)

-- A constructor that throws leaves no descriptor open that the kernel gave it; it does not free what `getaddrinfo`
-- allocated, if that had succeeded.
pub make_udp-throws :
    (has_address found bound : Bool) (fd : ℕ) {e : Exception}
    → (make_udp has_address found (some fd) bound).exception ≡ some e
    → ((make_udp has_address found (some fd) bound).fd ≡ none)
      × ((make_udp has_address found (some fd) bound).unfreed ≡ (if found then 1 else 0))
      × ((make_udp has_address found (some fd) bound).closed_again
          ≡ (if found then fd ∷ [] else []))
unfolding make_udp
make_udp-throws has_address false bound fd e = (refl, refl, refl)
make_udp-throws true true bound fd e = cc
make_udp-throws false true true fd e = cc
make_udp-throws false true false fd e = (refl, refl, refl)
