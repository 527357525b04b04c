-- ===== src/Dispatcher/Sound.antt =====
-- Which orders of calls keep the pointers of framework/include/dispatcher.hpp good.
use io_tbased_raid.Prelude.{
  ℕ, ◌≡◌, ◌≢◌, ◌⊎◌, refl, ap, ◌∙◌, inl, inr, Bool, true, false, ◌||◌, Option, none, some, List, [],
  ◌∷◌, ◌++◌, arith, ◌==◌, if◌then◌else◌, Bool-cases,
}
use io_tbased_raid.Prelude.Results.{ok}
use io_tbased_raid.Dispatcher.{Dispatcher, remove, register, unregister}
use io_tbased_raid.Dispatcher.Lifetimes.{
  Pointer, unset, null, at, World, put, set_dispatcher, with_list, register_at, unregister_at,
  destroy_callback, tell_death, destroy_dispatcher, all_there, notify_all,
}

abbrev pub member : ℕ → List ℕ → Bool
member c [] = false
member c (x ∷ xs) = x == c || member c xs

-- Each callback in the list of a dispatcher is there and points back to it, and each pointer goes to a dispatcher
-- that is there and has the callback in its list.
pub record IsSound (w : World) : Type 0 where
  pub back :
      (d c : ℕ) (list : Dispatcher)
      → w.dispatchers d ≡ some list
      → member c list.reg_list ≡ true
      → w.callbacks c ≡ some (at d)
  pub there :
      (d c : ℕ)
      → w.callbacks c ≡ some (at d)
      → (list : Dispatcher) × (w.dispatchers d ≡ some list) × (member c list.reg_list ≡ true)

-- `Notify` calls no callback that is gone.
all_there-member :
    (callbacks : ℕ → Option Pointer) (d : ℕ) (cs : List ℕ)
    → ((c : ℕ) → member c cs ≡ true → callbacks c ≡ some (at d))
    → all_there callbacks cs ≡ true
all_there-member callbacks d [] h = refl
all_there-member callbacks d (c ∷ cs) h =
    rw (all_there, h c (ground arith)) (all_there-member callbacks d cs (λ x e. h x (ground arith)))

pub notify_all-ok :
    (d : ℕ) (w : World) {list : Dispatcher}
    → IsSound w
    → w.dispatchers d ≡ some list
    → notify_all d w ≡ ok list.reg_list
unfolding notify_all
notify_all-ok d w {list} h e =
    rw (notify_all, e, all_there-member w.callbacks d list.reg_list (λ c m. h.back d c list e m))
      refl

member-append :
    (c x : ℕ) (xs : List ℕ) → member c (xs ++ (x ∷ [])) ≡ true → (member c xs ≡ true) ⊎ (x ≡ c)
member-append c x [] e = inr (ground arith)
member-append c x (y ∷ xs) e = ground (arith, member-append c x xs)

member-remove :
    (c x : ℕ) (xs : List ℕ) → member c (remove x xs) ≡ true → (member c xs ≡ true) × (x ≢ c)
unfolding remove
member-remove c x [] e = cc
member-remove c x (y ∷ xs) e = ground (arith, member-remove c x xs)

member-own : (x : ℕ) (xs : List ℕ) → member x (xs ++ (x ∷ [])) ≡ true
member-own x [] = ground arith
member-own x (y ∷ xs) = ground (arith, member-own x xs)

member-grows : (c x : ℕ) (xs : List ℕ) → member c xs ≡ true → member c (xs ++ (x ∷ [])) ≡ true
member-grows c x [] e = cc
member-grows c x (y ∷ xs) e = ground (arith, member-grows c x xs)

member-kept :
    (c x : ℕ) (xs : List ℕ) → (x == c) ≡ false → member c xs ≡ true → member c (remove x xs) ≡ true
unfolding remove
member-kept c x [] n e = cc
member-kept c x (y ∷ xs) n e = ground (arith, member-kept c x xs n)

-- The callback is not registered with any dispatcher.
abbrev pub IsFree : Option Pointer → Type 0
IsFree p = (p ≡ some unset) ⊎ (p ≡ some null)

free-there : {p : Option Pointer} → IsFree p → (q : Pointer) × (p ≡ some q)
free-there (inl e) = (unset, e)
free-there (inr e) = (null, e)

free-at : {p : Option Pointer} {d : ℕ} → IsFree p → p ≢ some (at d)
free-at (inl e) h = cc
free-at (inr e) h = cc

put_self {ℓ} : {A : Type ℓ} (i : ℕ) (a : A) (f : ℕ → A) → put i a f i ≡ a
put_self i a f = ground arith

put_other {ℓ} : {A : Type ℓ} (i j : ℕ) (a : A) (f : ℕ → A) → (i == j) ≡ false → put i a f j ≡ f j
put_other i j a f e = rw e refl

-- `Register` of a callback that is not registered anywhere, with a dispatcher that is there.
pub register_at-IsSound :
    (d c : ℕ) (w : World) {list : Dispatcher}
    → IsSound w
    → w.dispatchers d ≡ some list
    → IsFree (w.callbacks c)
    → (q : World) × (register_at d c w ≡ ok q) × IsSound q
unfolding register_at set_dispatcher with_list register
register_at-IsSound d c w {list} h e free =
    let (p, was) = free-there free in
    (
      record {
        dispatchers = put d (some (register c list)) w.dispatchers;
        callbacks = put c (some (at d)) w.callbacks;
      },
      rw (register_at, set_dispatcher, was, with_list, e) refl,
      record {
        back = λ d' c' list' e' m.
            ground (
              arith,
              h.back d' c' list',
              h.back d c' list e,
              member-append c' c list.reg_list,
              free,
            );
        there = λ d' c' e'. elim (Bool-cases (c == c')) [
          | inl own ↦
              let here : (d == d') ≡ true = ground (arith, e') in
              (register c list, rw here refl, ground (arith, member-own c list.reg_list))
          | inr other ↦
              let (old, o, m) = h.there d' c' (ground (arith, e')) in
              elim (Bool-cases (d == d')) [
                | inl same ↦ (
                  register c list,
                  rw same refl,
                  ground (arith, member-grows c' c list.reg_list, e, o),
                )
                | inr away ↦ (old, rw away o, m)
              ]
        ];
      },
    )

-- Once `m_dispatcher` of a callback was set, its destructor takes it out of the list of its dispatcher.
pub destroy_callback-IsSound :
    (c : ℕ) (p : Pointer) (w : World)
    → IsSound w
    → w.callbacks c ≡ some p
    → p ≢ unset
    → (q : World) × (destroy_callback c w ≡ ok q) × IsSound q
unfolding destroy_callback unregister unregister_at set_dispatcher with_list
destroy_callback-IsSound c unset w h e set = absurd (set refl)
destroy_callback-IsSound c null w h e set = (
  record w { callbacks = put c none w.callbacks },
  rw (destroy_callback, e) refl,
  record {
    back = λ d' c' list' e' m. ground (arith, h.back d' c' list' e' m);
    there = λ d' c' e'. h.there d' c' (ground (arith, e'));
  },
)
destroy_callback-IsSound c (at d) w h e set =
    let (list, there, own) = h.there d c e in
    (
      record {
        dispatchers = put d (some (unregister c list)) w.dispatchers;
        callbacks = put c none (put c (some null) w.callbacks);
      },
      rw (destroy_callback, e, unregister_at, set_dispatcher, e, with_list, there) refl,
      record {
        back = λ d' c' list' e' m.
            ground
              (arith, h.back d' c' list', h.back d c' list there, member-remove c' c list.reg_list);
        there = λ d' c' e'.
            let (old, o, m) = h.there d' c' (ground (arith, e')) in
            elim (Bool-cases (d == d')) [
              | inl same ↦ (
                unregister c list,
                rw same refl,
                ground (arith, member-kept c' c list.reg_list, there, o),
              )
              | inr away ↦ (old, rw away o, m)
            ];
      },
    )

there_after :
    (c : ℕ) (cs : List ℕ) (w : World)
    → ((x : ℕ) → member x (c ∷ cs) ≡ true → (p : Pointer) × (w.callbacks x ≡ some p))
    → (x : ℕ) → member x cs ≡ true
    → (p : Pointer) × (put c (some null) w.callbacks x ≡ some p)
there_after c cs w h x m = elim (Bool-cases (c == x)) [
  | inl same ↦ (null, ground arith)
  | inr other ↦ let (p, e) = h x (ground arith) in (p, rw other e)
]

-- The loop of `~Dispatcher` over callbacks that are there.
tell_death-ok :
    (cs : List ℕ) (w : World)
    → ((c : ℕ) → member c cs ≡ true → (p : Pointer) × (w.callbacks c ≡ some p))
    → (q : World) × (tell_death cs w ≡ ok q)
      × (q.dispatchers ≡ w.dispatchers)
      × ((c : ℕ) → q.callbacks c ≡ (if member c cs then some null else w.callbacks c))
unfolding tell_death set_dispatcher
tell_death-ok [] w h = (w, refl, refl, λ c. refl)
tell_death-ok (c ∷ cs) w h =
    let (p, e) = h c (ground arith) in
    let w' : World = record w { callbacks = put c (some null) w.callbacks } in
    let (q, e', d, all) = tell_death-ok cs w' (λ x m. there_after c cs w h x m) in
    (q, rw (tell_death, set_dispatcher, e) e', d, λ x. all x ∙ ground arith)

pub destroy_dispatcher-IsSound :
    (d : ℕ) (w : World) {list : Dispatcher}
    → IsSound w
    → w.dispatchers d ≡ some list
    → (q : World) × (destroy_dispatcher d w ≡ ok q) × IsSound q
unfolding destroy_dispatcher
destroy_dispatcher-IsSound d w {list} h e =
    let (q, told, same, cs) = tell_death-ok list.reg_list w (λ c m. (at d, h.back d c list e m)) in
    (
      record q { dispatchers = put d none q.dispatchers },
      rw (destroy_dispatcher, e, told) refl,
      record {
        back = λ d' c' list' e' m.
            ground (arith, h.back d' c' list', h.back d c' list e, cs c', ap (λ f. f d') same);
        there = λ d' c' e'.
            let (old, o, m) = h.there d' c' (ground (arith, e', cs c')) in
            let away : (d == d') ≡ false = ground (arith, e', cs c', e, o) in
            (old, rw away (ap (λ f. f d') same ∙ o), m);
      },
    )
