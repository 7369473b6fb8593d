-- ===== src/Queue/Fifo.antt =====
-- The intrusive queue as a list, with no other thread in between.
use mathlib.Core.List.{reverse, reverse-cons, reverse-append, head?, tail}
use win_io.Base.{
  ℕ, zero, suc, ◌<◌, ◌≤◌, true, false, some, List, [], ◌∷◌, ◌++◌, ◌≡◌, ◌≢◌, ◌↔◌, refl, sym, ap, ◌∙◌,
  arith, ◌==◌, length, length-append,
}
use win_io.Os.{Ptr, null}
use win_io.Queue.{
  Memory, update, set_next, init, is_empty, push_round, push_loop, push, reattach, pop,
}
use win_io.Queue.Chain.{has, Chain, has-append, update_self, Chain-update, Chain-cut}
use win_io.Queue.Detach.{attempts, detach-empty, detach-single, detach-rest, merge_loop-Chain}

-- The queue as its client sees it, oldest first: `head_` leads through the items, newest first.
pub record Holds (m : Memory) (q : List Ptr) : Type 0 where
  pub items : List Ptr
  pub chain : Chain m.next null m.head items
  pub order : q ≡ reverse items

pub init-Holds : (next : Ptr → Ptr) → Holds (init next) []
unfolding init
init-Holds next = record { items = []; chain = refl; order = refl }

pub push_loop-Chain :
    (n : ℕ) (m : Memory) (v : Ptr) (xs : List Ptr)
    → v ≢ null
    → has v xs ≡ false
    → Chain m.next null m.head xs
    → (m' : Memory) × (push_loop (attempts n 1) m v m.head ≡ some m')
      × Chain m'.next null m'.head (v ∷ xs)
      × ((s p : Ptr) (ys : List Ptr)
          → has v ys ≡ false
          → Chain m.next s p ys
          → Chain m'.next s p ys)
unfolding push_loop push_round
push_loop-Chain zero m v xs some_node fresh c =
    let linked : Chain (update m.next v m.head) null m.head xs =
      Chain-update m.next null m.head v m.head xs fresh c in
    (
      record m { head = v; next = update m.next v m.head },
      ground arith,
      (refl, some_node, fresh, rw update_self linked),
      λ s p ys. Chain-update m.next s p v m.head ys,
    )
push_loop-Chain (suc n) m v xs some_node fresh c =
    let linked = Chain-update m.next null m.head v m.head xs fresh c in
    let (m', pushed, chained, frame) =
      push_loop-Chain n (set_next m v m.head) v xs some_node fresh linked in
    (
      m',
      pushed,
      chained,
      λ s p ys out d. frame s p ys out (Chain-update m.next s p v m.head ys out d),
    )

pub has-reverse : (a : Ptr) (xs : List Ptr) → has a (reverse xs) ≡ has a xs
has-reverse a [] = refl
has-reverse a (x ∷ xs) = rw (reverse-cons, has-append) (ground (arith, has-reverse a xs))

-- However often the exchange fails spuriously first, a push ends, and puts the new item behind all
-- others.
pub push-Holds :
    (n : ℕ) (m : Memory) (q : List Ptr) (v : Ptr)
    → Holds m q
    → v ≢ null
    → has v q ≡ false
    → (m' : Memory) × (push (attempts n 1) m v ≡ some m') × Holds m' (q ++ v ∷ [])
unfolding push
push-Holds n m q v h some_node fresh =
    let absent : has v h.items ≡ false =
      sym (has-reverse v h.items) ∙ ap (has v) (sym h.order) ∙ fresh in
    let (m', pushed, c, _) = push_loop-Chain n m v h.items some_node absent h.chain in
    (
      m',
      pushed,
      record {
        items = v ∷ h.items;
        chain = c;
        order = ap (λ l. l ++ v ∷ []) h.order ∙ sym (reverse-cons v h.items);
      },
    )

pub length-reverse : (xs : List Ptr) → length (reverse xs) ≡ length xs
length-reverse [] = refl
length-reverse (x ∷ xs) =
    omega
      (arith, ap length (reverse-cons x xs), length-append (reverse xs) (x ∷ []), length-reverse xs)

-- A list ends in nothing, in one item, or in two.
pub data Ends : List Ptr → Type 0 where
  none_left : Ends []
  one : (v : Ptr) → Ends (v ∷ [])
  more : (l : List Ptr) (t v : Ptr) → Ends (l ++ t ∷ v ∷ [])

Ends-cons : (x : Ptr) {xs : List Ptr} → Ends xs → Ends (x ∷ xs)
Ends-cons x none_left = one x
Ends-cons x (one v) = more [] x v
Ends-cons x (more l t v) = more (x ∷ l) t v

pub ends : (xs : List Ptr) → Ends xs
ends [] = none_left
ends (x ∷ xs) = Ends-cons x (ends xs)

abbrev Pops : ℕ → ℕ → Memory → List Ptr → Type 0
Pops fuel n m q =
    (m' : Memory) × (pop fuel (attempts n 2) m ≡ some (m', head? q)) × Holds m' (tail q)

pop-Ends :
    (fuel n : ℕ) (m : Memory) {xs : List Ptr}
    → Ends xs
    → Chain m.next null m.head xs
    → length xs ≤ fuel
    → Pops fuel n m (reverse xs)
unfolding pop reattach
pop-Ends fuel n m none_left c enough =
    (m, rw (detach-empty fuel m c, pop), record { items = []; chain = c; order = refl })
pop-Ends fuel n m (one v) c enough = (
  record { head = null; next = m.next },
  rw (detach-single fuel m v c (omega arith), pop),
  record { items = []; chain = refl; order = refl },
)
pop-Ends fuel n m (more l t v) c enough =
    let kept = Chain-cut m.next null m.head t null l (v ∷ []) c in
    let taken : Memory = record { head = null; next = update m.next t null } in
    let (m', merged, chained) =
      merge_loop-Chain m.head t l [] (λ a _. refl) n taken null kept refl in
    let room : length l < fuel = omega (arith, length-append l (t ∷ v ∷ [])) in
    (
      m',
      rw (detach-rest fuel m t v l c room, pop, merged, reattach, reverse-append l (t ∷ v ∷ [])),
      record {
        items = l ++ t ∷ [];
        chain = chained;
        order = rw (reverse-append l (t ∷ v ∷ []), reverse-append l (t ∷ []));
      },
    )

-- With fuel for as many items as there are, and however often the exchange fails spuriously first,
-- a pop ends: on an empty queue it returns false, otherwise it returns the oldest item, and the
-- others stay in their order.
pub pop-Holds :
    (fuel n : ℕ) (m : Memory) (q : List Ptr)
    → Holds m q
    → length q ≤ fuel
    → (m' : Memory) × (pop fuel (attempts n 2) m ≡ some (m', head? q)) × Holds m' (tail q)
pop-Holds fuel n m q h enough = rw h.order (
    pop-Ends fuel n m (ends h.items) h.chain
      (omega (arith, length-reverse h.items, ap length h.order)))

-- `is_empty` tells whether the queue holds nothing.
pub is_empty-Holds : (m : Memory) (q : List Ptr) → Holds m q → (is_empty m ≡ true) ↔ (q ≡ [])
unfolding is_empty
is_empty-Holds m q h = rw h.order (chained h.items h.chain)
  where
    chained :
        (xs : List Ptr)
        → Chain m.next null m.head xs
        → ((m.head == null) ≡ true) ↔ (reverse xs ≡ [])
    chained [] c = (λ _. refl, λ _. ground arith)
    chained (x ∷ xs) c = (
      λ e. absurd (ground arith),
      λ e. absurd (omega (arith, ap length e, length-reverse (x ∷ xs))),
    )
