-- ===== src/Queue.antt =====
-- win_io_coro/include/win_io_coro/detail/intrusive_queue.h: the lock-free queue of the scheduler.
-- The items are nodes at addresses; `next` is the field of `Item`, `head_` the atomic pointer.
-- `push` asserts that its value is not null, which the theorems about it ask for.
-- A loop over a compare-exchange is cut at its attempts, so that other threads can be put between.
pub mod Chain
pub mod Detach
pub mod Fifo
pub mod Race
pub mod Threads
pub mod Examples
use win_io.Base.{
  ℕ, zero, suc, Bool, true, false, Option, none, some, List, [], ◌∷◌, not, ◌&&◌, ◌==◌,
  if◌then◌else◌,
}
use win_io.Os.{Ptr, null, is_null}

pub record Memory : Type 0 where
  pub head : Ptr
  pub next : Ptr → Ptr

unfoldable pub update : (Ptr → Ptr) → Ptr → Ptr → Ptr → Ptr
update f p v a = if a == p then v else f a

-- `p->next = q`
abbrev pub set_next : Memory → Ptr → Ptr → Memory
set_next m p q = record m { next = update m.next p q }

-- IntrusiveQueue()
unfoldable pub init : (Ptr → Ptr) → Memory
init next = record { head = null; next = next }

unfoldable pub is_empty : Memory → Bool
is_empty m = is_null m.head

-- One attempt of `head_.compare_exchange_weak`; a weak exchange may fail spuriously.
abbrev pub exchanges : Bool → Memory → Ptr → Bool
exchanges spurious m expected = not spurious && (m.head == expected)

-- One round of the loop of `push`: the new memory, and whether the loop ends. On a failure `head`
-- becomes the pointer that was read.
unfoldable pub push_round : Bool → Memory → (value head : Ptr) → Memory × Bool
push_round spurious m value head =
    let linked = set_next m value head in
    if exchanges spurious m head then (record linked { head = value }, true) else (linked, false)

-- `push` with no other thread. Each entry of the list is an attempt and says whether it fails
-- spuriously; `none` means that the attempts have run out.
pub push_loop : List Bool → Memory → (value head : Ptr) → Option Memory
push_loop [] m value head = none
push_loop (spurious ∷ rest) m value head =
    let (m', pushed) = push_round spurious m value head in
    let again = push_loop rest m' value m'.head in if pushed then some m' else again

unfoldable pub push : List Bool → Memory → Ptr → Option Memory
unfolding push_loop push_round
push attempts m value = push_loop attempts m value m.head

-- The walk of `pop` over the detached list: the fields `next`, the last node that is kept and the
-- value; `none` means that the fuel has run out.
unfoldable pub walk : ℕ → (Ptr → Ptr) → Ptr → Option ((Ptr → Ptr) × Ptr × Ptr)
walk zero next tail = none
walk (suc fuel) next tail =
    let further = walk fuel next (next tail) in
    if is_null (next tail)
    then some (next, tail, null)
    else if is_null (next (next tail))
    then some (update next tail null, tail, next tail)
    else further

-- What `pop` holds after it has taken the whole list from `head_`.
pub data Detached : Type 0 where
  was_empty : Detached
  single : (value : Ptr) → Detached
  rest : (value local_head tail : Ptr) → Detached

-- `pop` up to its second loop.
unfoldable pub detach : ℕ → Memory → Option (Memory × Detached)
unfolding walk
detach fuel m = if is_null m.head then some (m, was_empty) else elim (walk fuel m.next m.head) [
  | none ↦ none
  | some (next, tail, value) ↦
      let taken : Memory = record { head = null; next = next } in
      if (tail == m.head) && is_null value
      then some (taken, single m.head)
      else some (taken, rest value m.head tail)
]

-- One round of the second loop of `pop`: on a failure the kept list is linked in front of what
-- other threads have pushed since.
unfoldable pub merge_round : Bool → Memory → (local_head tail new_head : Ptr) → Memory × Bool
merge_round spurious m local_head tail new_head =
    if exchanges spurious m new_head
    then (record m { head = local_head }, true)
    else (set_next m tail m.head, false)

unfoldable pub merge_loop : List Bool → Memory → (local_head tail new_head : Ptr) → Option Memory
unfolding merge_round
merge_loop [] m local_head tail new_head = none
merge_loop (spurious ∷ attempts) m local_head tail new_head =
    let (m', merged) = merge_round spurious m local_head tail new_head in
    let again = merge_loop attempts m' local_head tail m.head in if merged then some m' else again

-- The end of `pop`: the memory and what it returns, `none` for `false`.
unfoldable pub reattach : List Bool → Memory → Detached → Option (Memory × Option Ptr)
unfolding merge_loop
reattach attempts m was_empty = some (m, none)
reattach attempts m (single value) = some (m, some value)
reattach attempts m (rest value local_head tail) =
    elim (merge_loop attempts m local_head tail null) [
      | none ↦ none
      | some m' ↦ some (m', some value)
    ]

-- `pop` with no other thread.
unfoldable pub pop : ℕ → List Bool → Memory → Option (Memory × Option Ptr)
unfolding detach reattach
pop fuel attempts m = elim (detach fuel m) [ none ↦ none | some (m', d) ↦ reattach attempts m' d ]
