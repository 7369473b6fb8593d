-- ===== src/Queue/Threads.antt =====
-- win_io_coro/include/win_io_coro/detail/intrusive_queue.h: any number of threads that push and pop
-- at once. A thread is cut at each access to `head_`; what it does in between touches only the nodes
-- that it owns, and belongs to the step.
pub mod Invariant
pub mod Steps
pub mod Safety
pub mod Progress
mod Examples
use win_io.Base.{
  ℕ, suc, ◌+◌, Bool, true, false, Option, none, some, List, [], ◌∷◌, ◌==◌, if◌then◌else◌, ◌≡◌, ◌≢◌,
}
use win_io.Os.{Ptr, null}
use win_io.Queue.{Memory, push_round, Detached, was_empty, single, rest, detach, merge_round}

-- Where a thread is: outside of both functions; in the loop of `push`, with the `head` that it read
-- last; in `pop`, behind the exchange that took a list; or in the second loop of `pop`.
pub data Pc : Type 0 where
  idle : Pc
  pushing : (value head : Ptr) → Pc
  took : (local_head : Ptr) → Pc
  merging : (value local_head tail new_head : Ptr) → Pc

abbrev pub set_pc : (ℕ → Pc) → ℕ → Pc → ℕ → Pc
set_pc f i p j = if j == i then p else f j

-- `pushed` and `popped` are the items that were handed to `push` and that `pop` has returned.
pub record Threads : Type 0 where
  pub mem : Memory
  pub pc : ℕ → Pc
  pub pushed : List Ptr
  pub popped : List Ptr

abbrev pub count : Ptr → List Ptr → ℕ
count a [] = 0
count a (x ∷ xs) = (if a == x then 1 else 0) + count a xs

-- What a thread that detached a list does next.
abbrev pub after_walk : Detached → Pc
after_walk was_empty = idle
after_walk (single value) = idle
after_walk (rest value local_head tail) = merging value local_head tail null

abbrev pub returned : Detached → List Ptr → List Ptr
returned was_empty popped = popped
returned (single value) popped = value ∷ popped
returned (rest value local_head tail) popped = popped

-- A round of the loop of `push`, and its result.
abbrev pub after_push : Threads → ℕ → (value head : Ptr) → Memory × Bool → Threads
after_push s i value head (mem, pushed) = record s {
  mem = mem;
  pc = set_pc s.pc i (if pushed then idle else pushing value s.mem.head);
}

-- A round of the second loop of `pop`, and its result.
abbrev pub after_merge : Threads → ℕ → (value local_head tail : Ptr) → Memory × Bool → Threads
after_merge s i value local_head tail (mem, merged) = record {
  mem = mem;
  pc = set_pc s.pc i (if merged then idle else merging value local_head tail s.mem.head);
  pushed = s.pushed;
  popped = if merged then value ∷ s.popped else s.popped;
}

-- A thread may push a node that is in no hands but its own: one that was popped as often as it was
-- pushed. A round may fail spuriously.
pub data Step (s : Threads) : Threads → Type 0 where
  begin_push :
      (i : ℕ) (value : Ptr)
      → s.pc i ≡ idle
      → value ≢ null
      → count value s.pushed ≡ count value s.popped
      → Step s
          (record s { pc = set_pc s.pc i (pushing value s.mem.head); pushed = value ∷ s.pushed })
  try_push :
      (i : ℕ) (value head : Ptr) (spurious : Bool)
      → s.pc i ≡ pushing value head
      → Step s (after_push s i value head (push_round spurious s.mem value head))
  -- `pop` finds the queue empty, and returns false.
  pop_nothing : (i : ℕ) → s.pc i ≡ idle → s.mem.head ≡ null → Step s s
  begin_pop :
      (i : ℕ)
      → s.pc i ≡ idle
      → s.mem.head ≢ null
      → Step s
          (record s { mem = record s.mem { head = null }; pc = set_pc s.pc i (took s.mem.head) })
  -- `detach` without its exchange, which has taken `local_head`.
  walks :
      (i fuel : ℕ) (local_head : Ptr) (next : Memory) (d : Detached)
      → s.pc i ≡ took local_head
      → detach fuel (record s.mem { head = local_head }) ≡ some (next, d)
      → Step s (record {
        mem = record s.mem { next = next.next };
        pc = set_pc s.pc i (after_walk d);
        pushed = s.pushed;
        popped = returned d s.popped;
      })
  try_merge :
      (i : ℕ) (value local_head tail new_head : Ptr) (spurious : Bool)
      → s.pc i ≡ merging value local_head tail new_head
      → Step s (
          after_merge s i value local_head tail
            (merge_round spurious s.mem local_head tail new_head))

-- An empty queue and threads that have done nothing.
abbrev pub begins : (Ptr → Ptr) → Threads
begins next = record {
  mem = record { head = null; next = next };
  pc = λ _. idle;
  pushed = [];
  popped = [];
}

pub data Reach (next : Ptr → Ptr) : Threads → Type 0 where
  start : Reach next (begins next)
  later : {s t : Threads} → Reach next s → Step s t → Reach next t
