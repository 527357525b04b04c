-- ===== src/Reactor/Ready.antt =====
-- Which pairs the listener of framework/src/listener.cpp reports.
use io_tbased_raid.Prelude.{
  ℕ, ◌+◌, ◌*◌, ◌≤◌, ◌<◌, ◌≡◌, refl, ap, inl, inr, true, false, some, List, [], ◌∷◌, arith, All,
  All-map, ltb, leb, if◌then◌else◌, Bool-cases,
}
use io_tbased_raid.Prelude.Results.{ok}
use io_tbased_raid.Message.{byte_of_bool}
use io_tbased_raid.Reactor.{
  Mode, read, write, same_mode, isset, fd_sets, max_fd, selected, all_fit, Select, listen,
}

max_step :
    (max fd : ℕ)
    → (max ≤ max * byte_of_bool (ltb fd max) + fd * byte_of_bool (leb max fd))
      × (fd ≤ max * byte_of_bool (ltb fd max) + fd * byte_of_bool (leb max fd))
max_step max fd = (ground arith, ground arith)

max_fd-grows : (max : ℕ) (fd_list : List (ℕ × Mode)) → max ≤ max_fd max fd_list
max_fd-grows max [] = omega arith
max_fd-grows max ((fd, m) ∷ fd_list) =
    let next = max * byte_of_bool (ltb fd max) + fd * byte_of_bool (leb max fd) in
    omega (arith, (max_step max fd).0, max_fd-grows next fd_list)

-- `select` is asked about every descriptor of the list: it is given more than the greatest of them.
pub max_fd-bounds :
    (max : ℕ) (fd_list : List (ℕ × Mode))
    → All (λ (p : ℕ × Mode). p.0 < max_fd max fd_list + 1) fd_list
max_fd-bounds max [] = tt
max_fd-bounds max ((fd, m) ∷ fd_list) =
    let next = max * byte_of_bool (ltb fd max) + fd * byte_of_bool (leb max fd) in
    (omega (arith, (max_step max fd).1, max_fd-grows next fd_list), max_fd-bounds next fd_list)

-- The pairs whose descriptor is in the set of their own mode.
abbrev pub ready : List ℕ → List ℕ → List (ℕ × Mode) → List (ℕ × Mode)
ready read_fds write_fds [] = []
ready read_fds write_fds ((fd, m) ∷ fd_list) =
    let rest = ready read_fds write_fds fd_list in
    if isset fd (elim m [ read ↦ read_fds | write ↦ write_fds ]) then (fd, m) ∷ rest else rest

-- The second set has no descriptor that is not in the first.
abbrev pub Within : List ℕ → List ℕ → Type 0
Within whole part = (fd : ℕ) → isset fd part ≡ true → isset fd whole ≡ true

-- No descriptor is there for both modes.
abbrev pub OneMode : List (ℕ × Mode) → Type 0
OneMode fd_list =
    (fd : ℕ) → isset fd (fd_sets read fd_list) ≡ true → isset fd (fd_sets write fd_list) ≡ false

selected-ready :
    (whole : List (ℕ × Mode)) (read_fds write_fds : List ℕ)
    → OneMode whole
    → Within (fd_sets read whole) read_fds
    → Within (fd_sets write whole) write_fds
    → (fd_list : List (ℕ × Mode))
    → All (λ (p : ℕ × Mode). isset p.0 (fd_sets p.1 whole) ≡ true) fd_list
    → selected read_fds write_fds fd_list ≡ ready read_fds write_fds fd_list
selected-ready whole rs ws one r w [] h = refl
selected-ready whole rs ws one r w ((fd, read) ∷ fd_list) h =
    let rest = selected-ready whole rs ws one r w fd_list h.1 in
    let other : isset fd ws ≡ false = elim (Bool-cases (isset fd ws)) [
      | inl e ↦ let e' = w fd e in let f = one fd h.0 in cc
      | inr e ↦ e
    ] in
    elim (Bool-cases (isset fd rs)) [
      | inl e ↦ rw (other, e, rest) refl
      | inr e ↦ rw (other, e, rest) refl
    ]
selected-ready whole rs ws one r w ((fd, write) ∷ fd_list) h =
    let rest = selected-ready whole rs ws one r w fd_list h.1 in
    let other : isset fd rs ≡ false = elim (Bool-cases (isset fd rs)) [
      | inl e ↦
          let e' = one fd (r fd e) in let f : isset fd (fd_sets write whole) ≡ true = h.0 in cc
      | inr e ↦ e
    ] in
    elim (Bool-cases (isset fd ws)) [
      | inl e ↦ rw (other, e, rest) refl
      | inr e ↦ rw (other, e, rest) refl
    ]

isset-grows :
    (fd : ℕ) (m : Mode) (p : ℕ × Mode) (fd_list : List (ℕ × Mode))
    → isset fd (fd_sets m fd_list) ≡ true
    → isset fd (fd_sets m (p ∷ fd_list)) ≡ true
isset-grows fd m (x, n) fd_list h = elim (Bool-cases (same_mode n m)) [
  | inl e ↦ rw e (ground arith)
  | inr e ↦ rw e h
]

isset-own :
    (fd : ℕ) (m : Mode) (fd_list : List (ℕ × Mode))
    → isset fd (fd_sets m ((fd, m) ∷ fd_list)) ≡ true
isset-own fd read fd_list = ground arith
isset-own fd write fd_list = ground arith

-- Each pair is in the set of its mode.
own_sets :
    (fd_list : List (ℕ × Mode))
    → All (λ (p : ℕ × Mode). isset p.0 (fd_sets p.1 fd_list) ≡ true) fd_list
own_sets [] = tt
own_sets ((fd, m) ∷ fd_list) = (
  isset-own fd m fd_list,
  All-map (λ p h. isset-grows p.0 p.1 (fd, m) fd_list h) fd_list (own_sets fd_list),
)

-- If no descriptor is given for both modes, and `select` leaves in each set only what was in it, then `Listen`
-- reports exactly the pairs whose descriptor `select` left in the set of their mode, in the order in which they were
-- given. The descriptors fit into the sets.
pub listen-ready :
    (select : Select) (fd_list : List (ℕ × Mode)) {read_fds write_fds : List ℕ}
    → all_fit fd_list ≡ true
    → OneMode fd_list
    → select (max_fd 0 fd_list + 1) (fd_sets read fd_list) (fd_sets write fd_list)
      ≡ some (read_fds, write_fds)
    → Within (fd_sets read fd_list) read_fds
    → Within (fd_sets write fd_list) write_fds
    → listen select fd_list ≡ ok (ready read_fds write_fds fd_list)
unfolding listen
listen-ready select fd_list {read_fds} {write_fds} fit one e r w =
    rw (listen, fit, e)
      (ap ok (selected-ready fd_list read_fds write_fds one r w fd_list (own_sets fd_list)))
