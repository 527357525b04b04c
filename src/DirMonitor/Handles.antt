-- ===== src/DirMonitor/Handles.antt =====
-- What becomes of the handles that `DLLLoader` (framework/src/dll_loader.cpp) opens.
use io_tbased_raid.Prelude.{
  ℕ, ◌≡◌, refl, subst, inl, inr, Option, none, some, List, [], ◌∷◌, ◌++◌, map, some_injective,
  Bool-cases, Option-cases,
}
use mathlib.Core.List.{Perm, perm_middle}
use mathlib.Core.List.Perm
use io_tbased_raid.Prelude.Results.{ok, throw, runtime_error, ok_injective}
use io_tbased_raid.DirMonitor.{DllLoader, find, erase, same_path, load_dll, unload_dll, close_all}

module _ (dlopen : List ℕ → Option ℕ) where
  -- The handles that a call of `Load` opens.
  abbrev pub opens : List ℕ → DllLoader → List ℕ
  opens name l = elim (find name l.dll_map) [
    | some handle ↦ []
    | none ↦ (elim (dlopen name) [ none ↦ [] | some handle ↦ handle ∷ [] ])
  ]

  -- The loaders that calls without an exception lead to, with the handles that they opened.
  pub data Reach : DllLoader → List ℕ → Type 0 where
    start : Reach (record { dll_map = []; closed_handles = [] }) []
    loads :
        {l q : DllLoader} {opened : List ℕ} (name : List ℕ)
        → Reach l opened
        → load_dll dlopen name l ≡ ok q
        → Reach q (opens name l ++ opened)
    unloads :
        {l q : DllLoader} {opened : List ℕ} (name : List ℕ)
        → Reach l opened
        → unload_dll dlopen name l ≡ ok q
        → Reach q opened

  abbrev pub handles : List (List ℕ × ℕ) → List ℕ
  handles dlls = map (λ dll. dll.1) dlls

  -- The handles that are kept, and those that were closed.
  abbrev pub all_handles : DllLoader → List ℕ
  all_handles l = handles l.dll_map ++ l.closed_handles

  handles-append :
      (dlls : List (List ℕ × ℕ)) (name : List ℕ) (handle : ℕ)
      → Perm (handle ∷ handles dlls) (handles (dlls ++ ((name, handle) ∷ [])))
  handles-append [] name handle = Perm.refl (handle ∷ [])
  handles-append ((file, h) ∷ dlls) name handle =
      Perm.trans (Perm.swap h handle (handles dlls)) (Perm.cons h (handles-append dlls name handle))

  handles-erase :
      (name : List ℕ) (dlls : List (List ℕ × ℕ)) {handle : ℕ}
      → find name dlls ≡ some handle
      → Perm (handles dlls) (handle ∷ handles (erase name dlls))
  handles-erase name [] e = cc
  handles-erase name ((file, h) ∷ dlls) {handle} e = elim (Bool-cases (same_path file name)) [
    | inl same ↦
        let found : some h ≡ some handle = rw same at e in
        rw (same, some_injective found) (Perm.refl (handle ∷ handles dlls))
    | inr other ↦
        let found : find name dlls ≡ some handle = rw other at e in
        rw other (
          Perm.trans (Perm.cons h (handles-erase name dlls found))
            (Perm.swap handle h (handles (erase name dlls))))
  ]

  load_dll-handles :
      (name : List ℕ) (l : DllLoader) {q : DllLoader}
      → load_dll dlopen name l ≡ ok q
      → Perm (opens name l ++ all_handles l) (all_handles q)
  unfolding load_dll
  load_dll-handles name l {q} e = elim (Option-cases (find name l.dll_map)) [
    | inr (handle, there) ↦
        let same : ok l ≡ ok q = rw (load_dll, there) at e in
        rw (opens, there)
          (subst (λ q. Perm (all_handles l) (all_handles q)) (ok_injective same)
            (Perm.refl (all_handles l)))
    | inl new ↦ elim (Option-cases (dlopen name)) [
      | inl failed ↦ let no : throw runtime_error ≡ ok q = rw (load_dll, new, failed) at e in cc
      | inr (handle, got) ↦
          let same : ok (record l { dll_map = l.dll_map ++ ((name, handle) ∷ []) }) ≡ ok q =
            rw (load_dll, new, got) at e in
          rw (opens, new, got)
            (subst (λ q. Perm (handle ∷ all_handles l) (all_handles q)) (ok_injective same)
              (Perm.append_right l.closed_handles (handles-append l.dll_map name handle)))
    ]
  ]

  unload_dll-handles :
      (name : List ℕ) (l : DllLoader) {q : DllLoader}
      → unload_dll dlopen name l ≡ ok q
      → Perm (all_handles l) (all_handles q)
  unfolding unload_dll
  unload_dll-handles name l {q} e = elim (Option-cases (find name l.dll_map)) [
    | inl none_there ↦ let no : throw runtime_error ≡ ok q = rw (unload_dll, none_there) at e in cc
    | inr (handle, there) ↦
        let same : ok (record {
          dll_map = erase name l.dll_map;
          closed_handles = handle ∷ l.closed_handles;
        })
            ≡ ok q =
          rw (unload_dll, there) at e in
        subst (λ q. Perm (all_handles l) (all_handles q)) (ok_injective same)
          (Perm.trans (Perm.append_right l.closed_handles (handles-erase name l.dll_map there))
            (Perm.symm (perm_middle (handles (erase name l.dll_map)) l.closed_handles)))
  ]

  Reach-handles : {l : DllLoader} {opened : List ℕ} → Reach l opened → Perm opened (all_handles l)
  Reach-handles start = Perm.refl []
  Reach-handles (loads {l} name r e) =
      Perm.trans (Perm.append_left (opens name l) (Reach-handles r)) (load_dll-handles name l e)
  Reach-handles (unloads {l} name r e) = Perm.trans (Reach-handles r) (unload_dll-handles name l e)

  -- Whatever plugins are loaded and unloaded, by calls that do not throw: after the loader's destructor each handle that `dlopen` gave was closed,
  -- and that as often as it was given.
  pub close_all-handles :
      {l : DllLoader} {opened : List ℕ}
      → Reach l opened
      → Perm opened (close_all l).closed_handles × ((close_all l).dll_map ≡ [])
  unfolding close_all
  close_all-handles r = (Reach-handles r, refl)
