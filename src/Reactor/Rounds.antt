-- ===== src/Reactor/Rounds.antt =====
-- The rounds of the loop of framework/src/reactor.cpp.
use io_tbased_raid.Prelude.{
  ℕ, zero, suc, ◌+◌, ◌≡◌, refl, sym, ap, subst, ◌∙◌, inl, inr, true, ◌||◌, Option, none, some, List,
  [], ◌∷◌, arith, map, All, All-map, Bool-cases,
}
use io_tbased_raid.Prelude.Results.{ok}
use io_tbased_raid.Reactor.{
  Mode, read, write, isset, fd_sets, max_fd, selected, all_fit, Select, listen, Reactor, same_key,
  find, Handler, call_all, round, run_loop, run,
}

same_key_self : (fd : ℕ) (m : Mode) → same_key (fd, m) (fd, m) ≡ true
same_key_self fd read = ground arith
same_key_self fd write = ground arith

find-grows :
    (key key' : ℕ × Mode) (func' : ℕ) (funcs : List ((ℕ × Mode) × ℕ)) {func : ℕ}
    → find key funcs ≡ some func
    → (f : ℕ) × (find key ((key', func') ∷ funcs) ≡ some f)
find-grows key key' func' funcs {func} e = elim (Bool-cases (same_key key key')) [
  | inl same ↦ (func', rw same refl)
  | inr other ↦ (func, rw other e)
]

find-keys :
    (funcs : List ((ℕ × Mode) × ℕ))
    → All (λ key. (func : ℕ) × (find key funcs ≡ some func)) (map (λ entry. entry.0) funcs)
find-keys [] = tt
find-keys (((fd, m), func) ∷ funcs) = (
  (func, rw (same_key_self fd m) refl),
  All-map (λ key (f, e). find-grows key (fd, m) func funcs e) (map (λ entry. entry.0) funcs)
      (find-keys funcs),
)

All-selected {κ} :
    (Holds : ℕ × Mode → Type κ) (read_fds write_fds : List ℕ) (fd_list : List (ℕ × Mode))
    → All Holds fd_list
    → All Holds (selected read_fds write_fds fd_list)
All-selected Holds rs ws [] h = tt
All-selected Holds rs ws ((fd, m) ∷ fd_list) h = elim (Bool-cases (isset fd rs || isset fd ws)) [
  | inl e ↦ rw e (h.0, All-selected Holds rs ws fd_list h.1)
  | inr e ↦ rw e (All-selected Holds rs ws fd_list h.1)
]

module _ {ℓ} {W : Type ℓ} (handler : Handler W) (select : Select) where
  -- No function changes the registrations, and none throws.
  abbrev pub Keeps : Type ℓ
  Keeps =
      (func fd : ℕ) (mode : Mode) (r : Reactor) (w : W)
      → (r' : Reactor) × (w' : W) × (handler func fd mode r w ≡ ok (r', w'))
        × (r'.listen_funcs ≡ r.listen_funcs)

  call_all-ok :
      Keeps
      → (pairs : List (ℕ × Mode)) (r : Reactor) (w : W)
      → All (λ key. (func : ℕ) × (find key r.listen_funcs ≡ some func)) pairs
      → (r' : Reactor) × (w' : W) × (call_all handler select pairs r w ≡ ok (r', w'))
        × (r'.listen_funcs ≡ r.listen_funcs)
  unfolding call_all
  call_all-ok keeps [] r w h = (r, w, refl, refl)
  call_all-ok keeps ((fd, mode) ∷ pairs) r w h =
      let (func, found) = h.0 in
      let (r', w', e, same) = keeps func fd mode r w in
      let known =
        subst (λ funcs. All (λ key. (func : ℕ) × (find key funcs ≡ some func)) pairs) (sym same)
          h.1 in
      let (r'', w'', e', same') = call_all-ok keeps pairs r' w' known in
      (r'', w'', rw (call_all, found, e) e', same' ∙ same)

  -- `select` does not fail.
  abbrev pub Answers : Type 0
  Answers =
      (n : ℕ) (read_fds write_fds : List ℕ)
      → (left : List ℕ × List ℕ) × (select n read_fds write_fds ≡ some left)

  abbrev keys : Reactor → List (ℕ × Mode)
  keys r = map (λ entry. entry.0) r.listen_funcs

  listen-ok :
      Answers
      → (fd_list : List (ℕ × Mode)) → all_fit fd_list ≡ true
      → (rs : List ℕ) × (ws : List ℕ) × (listen select fd_list ≡ ok (selected rs ws fd_list))
  unfolding listen
  listen-ok answers fd_list fit =
      let ((rs, ws), e) =
        answers (max_fd 0 fd_list + 1) (fd_sets read fd_list) (fd_sets write fd_list) in
      (rs, ws, rw (listen, fit, e) refl)

  round-ok :
      Keeps
      → Answers
      → (r : Reactor) (w : W) → all_fit (keys r) ≡ true
      → (r' : Reactor) × (w' : W) × (round handler select r w ≡ ok (r', w'))
        × (r'.listen_funcs ≡ r.listen_funcs)
  unfolding round
  round-ok keeps answers r w fit =
      let (rs, ws, e) = listen-ok answers (keys r) fit in
      let known =
        All-selected (λ key. (func : ℕ) × (find key r.listen_funcs ≡ some func)) rs ws (keys r)
          (find-keys r.listen_funcs) in
      let (r', w', e', same) = call_all-ok keeps (selected rs ws (keys r)) r w known in
      (r', w', rw (round, e) e', same)

  run_loop-round :
      (rounds : ℕ) (r : Reactor) (w : W) {r' : Reactor} {w' : W}
      → r.running ≡ true
      → round handler select r w ≡ ok (r', w')
      → run_loop handler select (suc rounds) r w ≡ run_loop handler select rounds r' w'
  unfolding run_loop
  run_loop-round rounds r w on e = rw (run_loop, e, on) refl

  run_loop-ok :
      Keeps
      → Answers
      → (rounds : ℕ) (r : Reactor) (w : W) → all_fit (keys r) ≡ true
      → (end : Option (Reactor × W)) × (run_loop handler select rounds r w ≡ ok end)
  unfolding run_loop
  run_loop-ok keeps answers zero r w fit = (none, refl)
  run_loop-ok keeps answers (suc rounds) r w fit = elim (Bool-cases r.running) [
    | inl on ↦
        let (r', w', e, same) = round-ok keeps answers r w fit in
        let fit' : all_fit (keys r') ≡ true =
          ap (λ funcs. all_fit (map (λ entry. entry.0) funcs)) same ∙ fit in
        let (end, e') = run_loop-ok keeps answers rounds r' w' fit' in
        (end, run_loop-round rounds r w on e ∙ e')
    | inr off ↦ (some (r, w), rw (run_loop, off) refl)
  ]

  -- `Run` does not throw, whatever `select` reports, as long as it does not fail, the descriptors fit into its sets,
  -- and the functions neither throw nor change the registrations. It returns, or goes on to the last round.
  pub run-ok :
      Keeps
      → Answers
      → (rounds : ℕ) (r : Reactor) (w : W) → all_fit (map (λ entry. entry.0) r.listen_funcs) ≡ true
      → (end : Option (Reactor × W)) × (run handler select rounds r w ≡ ok end)
  unfolding run
  run-ok keeps answers rounds r w fit =
      run_loop-ok keeps answers rounds (record r { running = true }) w fit
