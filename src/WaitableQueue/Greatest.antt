-- ===== src/WaitableQueue/Greatest.antt =====
-- What `WaitablePQ::Pop` (framework/include/waitable_queue.hpp) takes, for an order of its elements.
use io_tbased_raid.Prelude.{
  ℕ, ◌+◌, subst, ◌≡◌, refl, ◌⊎◌, inl, inr, Bool, true, false, none, some, List, [], ◌∷◌, arith, All,
  if◌then◌else◌, Bool-cases,
}
use mathlib.Core.List.{Perm}
use mathlib.Core.List.Perm
use io_tbased_raid.WaitableQueue.{select, pop_greatest}

-- A strict weak order, which the standard asks of a priority queue's comparison.
pub record IsStrictWeak {ℓ} {T : Type ℓ} (less : T → T → Bool) : Type ℓ where
  pub asymmetric : (a b : T) → less a b ≡ true → less b a ≡ false
  pub between : (a b c : T) → less a c ≡ true → (less a b ≡ true) ⊎ (less b c ≡ true)

module _ {ℓ} {T : Type ℓ} (less : T → T → Bool) where
  abbrev pub IsGreatest : T → List T → Type 0
  IsGreatest m xs = All (λ y. less m y ≡ false) xs

  select-Perm : (x : T) (xs : List T) → Perm (x ∷ xs) ((select less x xs).0 ∷ (select less x xs).1)
  unfolding select
  select-Perm x [] = Perm.refl (x ∷ [])
  select-Perm x (y ∷ xs) = elim (Bool-cases (less x y)) [
    | inl e ↦ rw e (
        Perm.trans (Perm.cons x (select-Perm y xs))
          (Perm.swap (select less y xs).0 x (select less y xs).1))
    | inr e ↦ rw e (
        Perm.trans (Perm.swap y x xs) (
          Perm.trans (Perm.cons y (select-Perm x xs))
            (Perm.swap (select less x xs).0 y (select less x xs).1)))
  ]

  module _ (o : IsStrictWeak less) where
    below : (m b s : T) → less m b ≡ false → less b s ≡ false → less m s ≡ false
    below m b s h h' = ground (arith, o.between m b s)

    below_both :
        (m x y : T)
        → less m (if less x y then y else x) ≡ false
        → (less m x ≡ false) × (less m (if less x y then x else y) ≡ false)
    below_both m x y g = elim (Bool-cases (less x y)) [
      | inl e ↦
          let g' : less m y ≡ false = rw e at g in
          rw e (below m y x g' (o.asymmetric x y e), below m y x g' (o.asymmetric x y e))
      | inr e ↦ let g' : less m x ≡ false = rw e at g in rw e (g', below m x y g' e)
    ]

    select-IsGreatest :
        (x : T) (xs : List T)
        → (less (select less x xs).0 x ≡ false)
          × IsGreatest (select less x xs).0 (select less x xs).1
    unfolding select
    select-IsGreatest x [] = (ground (arith, o.asymmetric x x), tt)
    select-IsGreatest x (y ∷ xs) =
        let (g, all) = select-IsGreatest (if less x y then y else x) xs in
        let (here, there) = below_both (select less (if less x y then y else x) xs).0 x y g in
        (here, (there, all))

    -- For a strict weak order, `Pop` on a queue that holds something takes an element that no
    -- other exceeds, and leaves exactly the others.
    pub pop_greatest-IsGreatest :
        (x : T) (xs : List T)
        → (m : T) × (rest : List T) × (pop_greatest less (x ∷ xs) ≡ some (m, rest))
          × IsGreatest m rest
          × Perm (x ∷ xs) (m ∷ rest)
    unfolding pop_greatest
    pop_greatest-IsGreatest x xs = (
      (select less x xs).0,
      (select less x xs).1,
      refl,
      (select-IsGreatest x xs).1,
      select-Perm x xs,
    )

module _ {ℓ} {T : Type ℓ} (less : T → T → Bool) where
  -- A pop takes one element out of the queue, and no other.
  pub Perm-pop_greatest :
      (queue : List T) {m : T} {rest : List T}
      → pop_greatest less queue ≡ some (m, rest)
      → Perm queue (m ∷ rest)
  unfolding pop_greatest
  Perm-pop_greatest [] e = cc
  Perm-pop_greatest (x ∷ xs) {m} {rest} e =
      let s : select less x xs ≡ (m, rest) = cc in
      subst (λ p. Perm (x ∷ xs) (p.0 ∷ p.1)) s (select-Perm less x xs)

  -- A pop waits only while the queue is empty.
  pub pop_greatest-none : (queue : List T) → pop_greatest less queue ≡ none → queue ≡ []
  unfolding pop_greatest
  pop_greatest-none [] e = refl
  pop_greatest-none (x ∷ xs) e = cc

module _ {ℓ κ} {T : Type ℓ} (less : T → T → Bool) (Holds : T → Type κ) where
  All-select :
      (x : T) (xs : List T)
      → Holds x
      → All Holds xs
      → Holds (select less x xs).0 × All Holds (select less x xs).1
  unfolding select
  All-select x [] h hs = (h, tt)
  All-select x (y ∷ xs) h hs = elim (Bool-cases (less x y)) [
    | inl e ↦ let (m, rest) = All-select y xs hs.0 hs.1 in rw e (m, (h, rest))
    | inr e ↦ let (m, rest) = All-select x xs h hs.1 in rw e (m, (hs.0, rest))
  ]

  -- What holds of all elements holds of the one popped and of those left.
  pub All-pop_greatest :
      (queue : List T) {m : T} {rest : List T}
      → pop_greatest less queue ≡ some (m, rest)
      → All Holds queue
      → Holds m × All Holds rest
  unfolding pop_greatest
  All-pop_greatest [] e h = cc
  All-pop_greatest (x ∷ xs) {m} {rest} e h =
      let s : select less x xs ≡ (m, rest) = cc in
      subst (λ p. Holds p.0 × All Holds p.1) s (All-select x xs h.0 h.1)

-- What the elements weigh together.
abbrev pub total {ℓ} : {T : Type ℓ} → (T → ℕ) → List T → ℕ
total weight [] = 0
total weight (x ∷ xs) = weight x + total weight xs

module _ {ℓ} {T : Type ℓ} (less : T → T → Bool) (weight : T → ℕ) where
  total-select :
      (x : T) (xs : List T)
      → weight (select less x xs).0 + total weight (select less x xs).1 ≡ weight x + total weight xs
  unfolding select
  total-select x [] = refl
  total-select x (y ∷ xs) = elim (Bool-cases (less x y)) [
    | inl e ↦ rw e (omega (arith, total-select y xs))
    | inr e ↦ rw e (omega (arith, total-select x xs))
  ]

  -- A pop takes away the weight of what it takes.
  pub total-pop_greatest :
      (queue : List T) {m : T} {rest : List T}
      → pop_greatest less queue ≡ some (m, rest)
      → weight m + total weight rest ≡ total weight queue
  unfolding pop_greatest
  total-pop_greatest [] e = cc
  total-pop_greatest (x ∷ xs) {m} {rest} e =
      let s : select less x xs ≡ (m, rest) = cc in
      subst (λ p. weight p.0 + total weight p.1 ≡ weight x + total weight xs) s (total-select x xs)
