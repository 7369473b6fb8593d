-- ===== src/Queue/Threads/Progress.antt =====
-- That a thread gets out of push and pop by itself.
use win_io.Base.{
  ℕ, suc, ◌+◌, ◌≤◌, true, false, List, ◌==◌, ◌≡◌, ◌≢◌, refl, ◌∙◌, arith, Bool-cases, inl, inr,
  length,
}
use win_io.Os.{Ptr, null}
use win_io.Queue.{Memory, push_round, merge_round}
use win_io.Queue.Chain.{Chain}
use win_io.Queue.Detach.{detach-single, detach-rest}
use win_io.Queue.Fifo.{Ends, none_left, one, more, ends}
use win_io.Queue.Threads.{
  Pc, idle, pushing, took, merging, Threads, after_push, after_merge, Step, begin_push, try_push,
  pop_nothing, begin_pop, walks, try_merge, Reach,
}
use win_io.Queue.Threads.Invariant.{Owns}
use win_io.Queue.Threads.Steps.{Reach-Inv}

-- The thread that takes a step.
abbrev pub thread : {s t : Threads} → Step s t → ℕ
thread (begin_push i value at some_node free) = i
thread (try_push i value head spurious at) = i
thread (pop_nothing i at empty) = i
thread (begin_pop i at some_item) = i
thread (walks i fuel local_head next d at walked) = i
thread (try_merge i value local_head tail new_head spurious at) = i

-- What `n` steps of thread `i` lead to, the others standing still.
pub data Alone (i : ℕ) (s : Threads) : ℕ → Threads → Type 0 where
  here : Alone i s 0 s
  own :
      {n : ℕ} {t u : Threads} → Alone i s n t → (x : Step t u) → thread x ≡ i → Alone i s (suc n) u

-- Thread `i` gets out by at most three steps of its own, and the others are where they were.
pub record Finishes (s : Threads) (i : ℕ) : Type 0 where
  pub steps : ℕ
  pub few : steps ≤ 3
  pub last : Threads
  pub alone : Alone i s steps last
  pub out : last.pc i ≡ idle
  pub others : (j : ℕ) → j ≢ i → last.pc j ≡ s.pc j

module _ (i : ℕ) (s0 : Threads) where
  -- Where the thread gets to from `s`, after `n` own steps from `s0` to `s`.
  Out : ℕ → Threads → Type 0
  Out n s =
      (last : Threads) × (steps : ℕ) × (steps ≤ n)
      × Alone i s0 steps last
      × (last.pc i ≡ idle)
      × ((j : ℕ) → j ≢ i → last.pc j ≡ s.pc j)

  pushes :
      (n : ℕ) (s : Threads) (value head : Ptr)
      → Alone i s0 n s
      → s.pc i ≡ pushing value head
      → s.mem.head ≡ head
      → Out (n + 1) s
  unfolding push_round Out
  pushes n s value head r at same =
      let wins : (s.mem.head == head) ≡ true = ground (arith, same) in
      (
        after_push s i value head (push_round false s.mem value head),
        suc n,
        omega arith,
        own r (try_push i value head false at) refl,
        rw wins (ground arith),
        λ j other. rw wins (ground (arith, other)),
      )

  -- A round that fails has read the head that the next one expects.
  Out-push :
      (n : ℕ) (s : Threads) (value head : Ptr)
      → Alone i s0 n s
      → s.pc i ≡ pushing value head
      → Out (n + 2) s
  unfolding push_round Out
  Out-push n s value head r at = elim (Bool-cases (s.mem.head == head)) [
    | inl wins ↦
        let (t, k, few, reach, done, others) = pushes n s value head r at (ground (arith, wins)) in
        (t, k, omega (arith, few), reach, done, others)
    | inr loses ↦
        let s' = after_push s i value head (push_round false s.mem value head) in
        let (t, k, few, reach, done, others) =
          pushes (suc n) s' value s.mem.head (own r (try_push i value head false at) refl)
            (rw loses (ground arith)) (rw loses refl) in
        (
          t,
          k,
          omega (arith, few),
          reach,
          done,
          λ j other. others j other ∙ rw loses (ground (arith, other)),
        )
  ]

  merges :
      (n : ℕ) (s : Threads) (value local_head tail new_head : Ptr)
      → Alone i s0 n s
      → s.pc i ≡ merging value local_head tail new_head
      → s.mem.head ≡ new_head
      → Out (n + 1) s
  unfolding merge_round Out
  merges n s value local_head tail new_head r at same =
      let wins : (s.mem.head == new_head) ≡ true = ground (arith, same) in
      (
        after_merge s i value local_head tail (merge_round false s.mem local_head tail new_head),
        suc n,
        omega arith,
        own r (try_merge i value local_head tail new_head false at) refl,
        rw wins (ground arith),
        λ j other. rw wins (ground (arith, other)),
      )

  Out-merge :
      (n : ℕ) (s : Threads) (value local_head tail new_head : Ptr)
      → Alone i s0 n s
      → s.pc i ≡ merging value local_head tail new_head
      → Out (n + 2) s
  unfolding merge_round Out
  Out-merge n s value local_head tail new_head r at = elim (Bool-cases (s.mem.head == new_head)) [
    | inl wins ↦
        let (t, k, few, reach, done, others) =
          merges n s value local_head tail new_head r at (ground (arith, wins)) in
        (t, k, omega (arith, few), reach, done, others)
    | inr loses ↦
        let s' =
          after_merge s i value local_head tail
            (merge_round false s.mem local_head tail new_head) in
        let (t, k, few, reach, done, others) =
          merges (suc n) s' value local_head tail s.mem.head
            (own r (try_merge i value local_head tail new_head false at) refl)
            (rw loses (ground arith)) (rw loses refl) in
        (
          t,
          k,
          omega (arith, few),
          reach,
          done,
          λ j other. others j other ∙ rw loses (ground (arith, other)),
        )
  ]

  Out-walk :
      (s : Threads) (local_head : Ptr) (hs : List Ptr)
      → Alone i s0 0 s
      → s.pc i ≡ took local_head
      → local_head ≢ null
      → Ends hs
      → Chain s.mem.next null local_head hs
      → Out 3 s
  unfolding Out
  Out-walk s local_head _ r at some_node none_left c = absurd (some_node c)
  Out-walk s local_head _ r at some_node (one v) c =
      let m : Memory = record s.mem { head = local_head } in
      (
        _,
        1,
        omega arith,
        own r (walks i 1 local_head _ _ at (detach-single 1 m v c (omega arith))) refl,
        ground arith,
        λ j other. ground (arith, other),
      )
  Out-walk s local_head _ r at some_node (more l t v) c =
      let m : Memory = record s.mem { head = local_head } in
      let (u, k, few, reach, done, others) =
        Out-merge 1 _ v local_head t null
          (own r
            (walks i (suc (length l)) local_head _ _ at
              (detach-rest (suc (length l)) m t v l c (omega arith)))
            refl)
          (ground arith) in
      (u, k, few, reach, done, λ j other. others j other ∙ ground (arith, other))

Out-Finishes : (i : ℕ) (s : Threads) (n : ℕ) → n ≤ 3 → Out i s n s → Finishes s i
unfolding Out
Out-Finishes i s n small (last, k, few, reach, done, others) = record {
  steps = k;
  few = omega (arith, few, small);
  last = last;
  alone = reach;
  out = done;
  others = others;
}

-- From every state that threads can reach, each thread that is inside of `push` or `pop` gets out of it
-- by at most three steps of its own, which succeed as far as the code lets them, while the others stay
-- where they are: no thread waits for another.
pub Reach-Finishes : {next : Ptr → Ptr} (i : ℕ) (s : Threads) → Reach next s → Finishes s i
unfolding Out
Reach-Finishes i s r = by_pc (s.pc i) refl
  where
    by_pc : (p : Pc) → s.pc i ≡ p → Finishes s i
    by_pc idle at = Out-Finishes i s 0 (omega arith) (s, 0, omega arith, here, at, λ j other. refl)
    by_pc (pushing value head) at =
        Out-Finishes i s 2 (omega arith) (Out-push i s 0 s value head here at)
    by_pc (took local_head) at =
        let inv = Reach-Inv r in
        let owned : Owns s.mem.next (took local_head) (inv.held i) = rw at at (inv.owns i) in
        Out-Finishes i s 3 (omega arith)
          (Out-walk i s s local_head (inv.held i) here at owned.0 (ends (inv.held i)) owned.1)
    by_pc (merging value local_head tail new_head) at =
        Out-Finishes i s 2 (omega arith) (Out-merge i s 0 s value local_head tail new_head here at)
